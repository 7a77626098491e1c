-- ===== src/Certificate.antt =====
-- Prepared certificates: `validPC` and `proposalMatchesCertificate` of core/ibft.go.
pub mod Valid
pub mod Kept
pub mod Made
pub mod Same
pub mod Agreeing
use go_ibft.Prelude.{
  ℕ, Bool, true, false, Option, none, some, List, [], ◌∷◌, map, Result, ok, panic, ◌>>=◌, not,
  if◌then◌else◌,
}
use go_ibft.Proto.{
  Bytes, Proposal, MessageType, preprepare, prepare, same_type, IbftMessage, PreparedRef, nil_pc,
  pc_ref, PreparedCertificate, prepared_certificate, nil_message, message_ref, nil_slice, slice,
  items_list, view_of, from_of, type_of, MessageRef, MessageSlice, slice_list,
}
use go_ibft.Extract.{deref_view, are_valid_pc_messages, extract_proposal_hash, extract_prepare_hash}
use go_ibft.Validators.{ValidatorManager, has_quorum, convert_message_to_address_set}
use go_ibft.Backend.{Backend}

-- The loop over the types of the prepare messages.
unfoldable pub all_prepare : List IbftMessage → Bool
all_prepare [] = true
all_prepare (m ∷ ms) =
    let rest = all_prepare ms in if not (same_type (type_of m) prepare) then false else rest

-- The loop over their senders.
unfoldable pub valid_signers : Backend → List IbftMessage → Result Bool
valid_signers b [] = ok true
valid_signers b (m ∷ ms) =
    let rest = valid_signers b ms in
    if not (b.is_valid_validator m)
    then ok false
    else deref_view (view_of m)
        λ v. if b.is_proposer (from_of m) v.height v.round then ok false else rest

-- The checks on the proposal's sender, which read its view.
unfoldable pub valid_proposer : Backend → IbftMessage → List IbftMessage → Result Bool
valid_proposer b m ps = deref_view (view_of m) λ v.
    if not (b.is_proposer (from_of m) v.height v.round)
    then ok false
    else if not (b.is_valid_validator m)
    then ok false
    else valid_signers b ps

-- `validPC` once both parts of the certificate are set.
unfoldable pub valid_pc_messages :
    Backend → ValidatorManager → IbftMessage → List IbftMessage → ℕ → ℕ → Result Bool
valid_pc_messages b vm m ps round_limit height =
    if not (has_quorum vm (convert_message_to_address_set (m ∷ ps)))
    then ok false
    else if not (same_type (type_of m) preprepare)
    then ok false
    else if not (all_prepare ps)
    then ok false
    else do
      good ← are_valid_pc_messages (m ∷ ps) height round_limit
      if not good then ok false else valid_proposer b m ps

unfoldable pub valid_pc : Backend → ValidatorManager → PreparedRef → ℕ → ℕ → Result Bool
valid_pc b vm nil_pc round_limit height = ok true
valid_pc b vm (pc_ref (prepared_certificate nil_message ps)) round_limit height = ok false
valid_pc b vm (pc_ref (prepared_certificate (message_ref m) nil_slice)) round_limit height =
    ok false
valid_pc b vm (pc_ref (prepared_certificate (message_ref m) (slice ps))) round_limit height =
    valid_pc_messages b vm m (items_list ps) round_limit height

-- The loop over the collected hashes.
unfoldable pub all_hashes_valid : Backend → Option Proposal → List Bytes → Bool
all_hashes_valid b p [] = true
all_hashes_valid b p (h ∷ hs) =
    let rest = all_hashes_valid b p hs in if not (b.is_valid_proposal_hash p h) then false else rest

-- `ExtractProposalHash` reads the type of the proposal message.
unfoldable pub certificate_hashes : MessageRef → MessageSlice → Result (List Bytes)
certificate_hashes nil_message ps = panic
certificate_hashes (message_ref m) ps =
    ok (extract_proposal_hash m ∷ map extract_prepare_hash (slice_list ps))

unfoldable pub proposal_matches_certificate : Backend → Option Proposal → PreparedRef → Result Bool
proposal_matches_certificate b none nil_pc = ok true
proposal_matches_certificate b (some p) nil_pc = ok false
proposal_matches_certificate b p (pc_ref (prepared_certificate m ps)) = do
  hashes ← certificate_hashes m ps
  ok (all_hashes_valid b p hashes)
