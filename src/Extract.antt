-- ===== src/Extract.antt =====
-- The extractors and message checks of messages/helpers.go. A `Result` is a panic where the source
-- reads a field of a nil pointer.
pub mod Seals
pub mod Pc
use go_ibft.Prelude.{
  ℕ, Bool, true, false, Option, none, some, List, [], ◌∷◌, ◌++◌, Str, Result, ok, panic, leb, not,
  ◌==◌, nat_eq, if◌then◌else◌, contains, str_eq, ◌||◌,
}
use go_ibft.Proto.{
  Bytes, bytes_equal, preprepare, prepare, commit, round_change, same_type, View, Proposal,
  IbftMessage, message, preprepare_data, prepare_data, commit_data, round_change_data,
  RoundChangeRef, nil_rcc, PreparedRef, nil_pc, view_of, type_of, sender,
}

pub record CommittedSeal : Type 0 where
  pub signer : Bytes
  pub signature : Bytes

-- `none` is a nil seal.
unfoldable pub extract_committed_seal : IbftMessage → Option CommittedSeal
extract_committed_seal (message v f s t (commit_data h c)) =
    some (record { signer = f; signature = c })
extract_committed_seal (message v f s t _) = none

-- The loop of `ExtractCommittedSeals`; `none` is ErrWrongCommitMessageType.
unfoldable extract_seals_from :
    List (Option CommittedSeal) → List IbftMessage → Option (List (Option CommittedSeal))
extract_seals_from acc [] = some acc
extract_seals_from acc (m ∷ ms) =
    let rest = extract_seals_from (acc ++ extract_committed_seal m ∷ []) ms in
    if not (same_type (type_of m) commit) then none else rest

unfoldable pub extract_committed_seals : List IbftMessage → Option (List (Option CommittedSeal))
unfolding extract_seals_from
extract_committed_seals ms = extract_seals_from [] ms

unfoldable pub extract_commit_hash : IbftMessage → Bytes
extract_commit_hash (message v f s commit (commit_data h c)) = h
extract_commit_hash (message v f s _ _) = none

unfoldable pub extract_proposal : IbftMessage → Option Proposal
extract_proposal (message v f s preprepare (preprepare_data p h c)) = p
extract_proposal (message v f s _ _) = none

unfoldable pub extract_proposal_hash : IbftMessage → Bytes
extract_proposal_hash (message v f s preprepare (preprepare_data p h c)) = h
extract_proposal_hash (message v f s _ _) = none

unfoldable pub extract_round_change_certificate : IbftMessage → RoundChangeRef
extract_round_change_certificate (message v f s preprepare (preprepare_data p h c)) = c
extract_round_change_certificate (message v f s _ _) = nil_rcc

unfoldable pub extract_prepare_hash : IbftMessage → Bytes
extract_prepare_hash (message v f s prepare (prepare_data h)) = h
extract_prepare_hash (message v f s _ _) = none

unfoldable pub extract_latest_pc : IbftMessage → PreparedRef
extract_latest_pc (message v f s round_change (round_change_data p c)) = c
extract_latest_pc (message v f s _ _) = nil_pc

unfoldable pub extract_last_prepared_proposal : IbftMessage → Option Proposal
extract_last_prepared_proposal (message v f s round_change (round_change_data p c)) = p
extract_last_prepared_proposal (message v f s _ _) = none

-- The loop of `HasUniqueSenders` over the senders met so far.
unfoldable pub unique_senders_from : List Str → List IbftMessage → Bool
unique_senders_from seen [] = true
unique_senders_from seen (m ∷ ms) =
    let rest = unique_senders_from (sender m ∷ seen) ms in
    if contains seen (sender m) then false else rest

unfoldable pub has_unique_senders : List IbftMessage → Bool
unfolding unique_senders_from
has_unique_senders [] = false
has_unique_senders (m ∷ ms) = unique_senders_from [] (m ∷ ms)

-- The hash, and whether the type of the message may stand in a prepared certificate.
unfoldable pub extract_pc_message_hash : IbftMessage → Bytes × Bool
unfolding extract_proposal_hash extract_prepare_hash
extract_pc_message_hash (message v f s preprepare p) =
    (extract_proposal_hash (message v f s preprepare p), true)
extract_pc_message_hash (message v f s prepare p) =
    (extract_prepare_hash (message v f s prepare p), true)
extract_pc_message_hash (message v f s _ p) = (none, false)

-- A field read through `message.View`.
abbrev pub deref_view {ℓ} : {A : Type ℓ} → Option View → (View → Result A) → Result A
deref_view none k = panic
deref_view (some v) k = k v

-- `if hash == nil {hash = extractedHash }`.
abbrev pub first_hash : Bytes → Bytes → Bytes
first_hash none extracted = extracted
first_hash (some h) extracted = some h

-- One pass of the loop of `AreValidPCMessages` up to the update of `senderMap`: the reference hash
-- for the next pass, or `none` where the source returns false.
unfoldable pub pc_message_check : ℕ → ℕ → ℕ → Bytes → List Str → IbftMessage → Result (Option Bytes)
pc_message_check height round_limit round hash seen m = deref_view (view_of m) λ v.
    let (extracted, is_ok) = extract_pc_message_hash m in
    let hash' = first_hash hash extracted in
    if not (v.height == height)
    then ok none
    else if not (v.round == round) || leb round_limit v.round
    then ok none
    else if not is_ok || not (bytes_equal hash' extracted)
    then ok none
    else if contains seen (sender m)
    then ok none
    else ok (some hash')

unfoldable pub pc_messages_from : ℕ → ℕ → ℕ → Bytes → List Str → List IbftMessage → Result Bool
pc_messages_from height round_limit round hash seen [] = ok true
pc_messages_from height round_limit round hash seen (m ∷ ms) =
    elim (pc_message_check height round_limit round hash seen m) [
      | panic ↦ panic
      | ok none ↦ ok false
      | ok (some hash') ↦ pc_messages_from height round_limit round hash' (sender m ∷ seen) ms
    ]

-- `AreValidPCMessages`: the round is read from the first message.
unfoldable pub are_valid_pc_messages : List IbftMessage → ℕ → ℕ → Result Bool
are_valid_pc_messages [] height round_limit = ok false
are_valid_pc_messages (m ∷ ms) height round_limit =
    deref_view (view_of m) λ v. pc_messages_from height round_limit v.round none [] (m ∷ ms)
