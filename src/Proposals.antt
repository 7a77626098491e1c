-- ===== src/Proposals.antt =====
-- The checks of a proposal (`validateProposalCommon`, `validateProposal0`, `validateProposal`) and
-- `handlePrePrepare` of core/ibft.go.
pub mod Highest
pub mod Accepted
pub mod Prepared
pub mod Repeating
pub mod Complete
pub mod Faults
use go_ibft.Prelude.{
  ℕ, Bool, true, false, Option, none, some, List, [], ◌∷◌, Result, ok, panic, ◌>>=◌, not,
  if◌then◌else◌, leb, ◌==◌, nat_eq,
}
use go_ibft.Proto.{
  Bytes, View, Proposal, preprepare, round_change, same_type, IbftMessage, RoundChangeRef, nil_rcc,
  rcc_ref, RoundChangeCertificate, rcc_messages, PreparedRef, nil_pc, pc_ref, PreparedCertificate,
  prepared_certificate, nil_message, message_ref, MessageRef, proposal_message_of, view_of, from_of,
  type_of,
}
use go_ibft.Extract.{
  deref_view, extract_proposal, extract_proposal_hash, extract_round_change_certificate,
  extract_latest_pc, has_unique_senders,
}
use go_ibft.Messages.{get_valid_messages}
use go_ibft.Backend.{Backend}
use go_ibft.Certificate.{valid_pc}
use go_ibft.Node.{Node, has_quorum_by_msg_type}

-- The checks once the proposal has been read.
unfoldable pub common_checks : Backend → IbftMessage → View → Proposal → Bool
common_checks b m v p =
    if not (p.round == v.round)
    then false
    else if not (b.is_proposer (from_of m) v.height v.round)
    then false
    else if not (b.is_valid_proposal_hash (some p) (extract_proposal_hash m))
    then false
    else b.is_valid_proposal p.raw_proposal

-- `proposal.Round` faults where the message carries no proposal.
unfoldable pub validate_proposal_common : Backend → IbftMessage → View → Result Bool
validate_proposal_common b m v = elim (extract_proposal m) [
  | none ↦ panic
  | some p ↦ ok (common_checks b m v p)
]

unfoldable pub validate_proposal0 : Backend → IbftMessage → View → Result Bool
validate_proposal0 b m v = deref_view (view_of m) λ mv. if not (mv.round == 0) then ok false else do
  common ← validate_proposal_common b m v
  ok (if not common then false else if b.is_proposer b.id v.height v.round then false else true)

-- The loop over the messages of the certificate.
unfoldable pub valid_round_changes : Backend → View → List IbftMessage → Result Bool
valid_round_changes b v [] = ok true
valid_round_changes b v (rc ∷ rcs) =
    let rest = valid_round_changes b v rcs in
    if not (same_type (type_of rc) round_change)
    then ok false
    else deref_view (view_of rc) λ rv.
      if not (rv.height == v.height)
      then ok false
      else if not (rv.round == v.round)
      then ok false
      else if not (b.is_valid_validator rc)
      then ok false
      else rest

-- `cert.ProposalMessage.View.Round` and the hash of a valid certificate.
unfoldable pub round_and_hash : MessageRef → Result (ℕ × Bytes)
round_and_hash nil_message = panic
round_and_hash (message_ref m) = deref_view (view_of m) λ v. ok (v.round, extract_proposal_hash m)

-- The entry that one message of the certificate adds, if any.
unfoldable pub prepared_entry : Backend → Node → ℕ → ℕ → PreparedRef → Result (Option (ℕ × Bytes))
prepared_entry b n limit height nil_pc = ok none
prepared_entry b n limit height (pc_ref cert) = do
  good ← valid_pc b n.validator_manager (pc_ref cert) limit height
  elim good [
    | false ↦ ok none
    | true ↦ do entry ← round_and_hash (proposal_message_of cert); ok (some entry)
  ]

abbrev pub cons_entry : Option (ℕ × Bytes) → List (ℕ × Bytes) → List (ℕ × Bytes)
cons_entry none rest = rest
cons_entry (some e) rest = e ∷ rest

unfoldable pub prepared_entries :
    Backend → Node → ℕ → ℕ → List IbftMessage → Result (List (ℕ × Bytes))
prepared_entries b n limit height [] = ok []
prepared_entries b n limit height (rc ∷ rcs) = do
  entry ← prepared_entry b n limit height (extract_latest_pc rc)
  rest ← prepared_entries b n limit height rcs
  ok (cons_entry entry rest)

-- The loop for the highest round; the later of two entries of one round wins.
unfoldable pub max_from : ℕ → Bytes → List (ℕ × Bytes) → ℕ × Bytes
max_from max_round expected_hash [] = (max_round, expected_hash)
max_from max_round expected_hash ((r, h) ∷ rest) =
    max_from (if leb max_round r then r else max_round)
      (if leb max_round r then h else expected_hash) rest

-- The end of `validateProposal`: without a prepared certificate anything goes.
unfoldable pub matches_prepared : Backend → Proposal → List (ℕ × Bytes) → Bool
matches_prepared b p [] = true
matches_prepared b p (e ∷ es) =
    let (max_round, expected_hash) = max_from 0 none (e ∷ es) in
    b.is_valid_proposal_hash (some (record { raw_proposal = p.raw_proposal; round = max_round }))
      expected_hash

-- `validateProposal` once there are a proposal and a certificate.
unfoldable pub validate_with_rcc :
    Backend → Node → IbftMessage → View → Proposal → List IbftMessage → Result Bool
validate_with_rcc b n m v p rcs =
    if not (has_unique_senders rcs)
    then ok false
    else if not (has_quorum_by_msg_type n rcs round_change)
    then ok false
    else if b.is_proposer b.id v.height v.round
    then ok false
    else do
      good ← valid_round_changes b v rcs
      elim good [
        | false ↦ ok false
        | true ↦ deref_view (view_of m) λ mv. do
          entries ← prepared_entries b n mv.round v.height rcs
          ok (matches_prepared b p entries)
      ]

abbrev pub with_certificate : RoundChangeRef → (List IbftMessage → Result Bool) → Result Bool
with_certificate nil_rcc k = ok false
with_certificate (rcc_ref c) k = k (rcc_messages c)

unfoldable pub validate_proposal : Backend → Node → IbftMessage → View → Result Bool
validate_proposal b n m v = do
  common ← validate_proposal_common b m v
  elim (extract_proposal m) [
    | none ↦ panic
    | some p ↦
        if not common
        then ok false
        else with_certificate (extract_round_change_certificate m)
            (λ rcs. validate_with_rcc b n m v p rcs)
  ]

-- The check of `handlePrePrepare`.
unfoldable pub is_valid_preprepare : Backend → Node → View → IbftMessage → Result Bool
is_valid_preprepare b n v m =
    if v.round == 0 then validate_proposal0 b m v else validate_proposal b n m v

abbrev pub first : List IbftMessage → Option IbftMessage
first [] = none
first (m ∷ ms) = some m

-- The proposal message to go on with, if there is one.
unfoldable pub handle_pre_prepare : Backend → View → Node → Result (Node × Option IbftMessage)
handle_pre_prepare b v n = do
  (store, msgs) ← get_valid_messages v preprepare (is_valid_preprepare b n v) n.messages
  ok (record n { messages = store }, first msgs)
