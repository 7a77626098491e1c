-- ===== src/Rounds/Agreement.antt =====
-- What two sealed blocks of one height have in common.
use go_ibft.Prelude.{◌<◌, ◌*◌, ◌≡◌, sym, ap, ◌∙◌, true, false, Option, List, Str, contains, str_eq}
use go_ibft.Proto.{Bytes, Proposal, IbftMessage, sender}
use go_ibft.Extract.{CommittedSeal, extract_commit_hash}
use go_ibft.Validators.{ValidatorManager, VotingPowers, convert_message_to_address_set}
use go_ibft.Validators.Prepare.{convert-Distinct, contains-convert}
use go_ibft.Validators.Quorum.{IsRegular, IsReady, weight, total_weight, quorum_intersection}
use go_ibft.Backend.{Backend}
use go_ibft.Certificate.Valid.{In, All-In, find_sender}
use go_ibft.Rounds.Invariant.{SealedBy}

-- For a manager that is ready with a regular map of voting powers: two proposals sealed by quorums
-- have a hash in common that is valid for both, if the validators outside a set with less than a
-- third of the power sent one hash each in the commit messages of the two.
pub SealedBy-agree :
    {b : Backend} {vm : ValidatorManager} (powers : VotingPowers) (faulty : List Str)
    (p p' : Option Proposal) (seals seals' : List (Option CommittedSeal))
    → IsRegular powers
    → IsReady vm powers
    → weight powers (contains faulty) * 3 < total_weight powers
    → (s : SealedBy b vm p seals) → (s' : SealedBy b vm p' seals')
    → ((x y : IbftMessage)
        → In x s.commits
        → In y s'.commits
        → sender x ≡ sender y
        → contains faulty (sender x) ≡ false
        → extract_commit_hash x ≡ extract_commit_hash y)
    → (hash : Bytes) × (b.is_valid_proposal_hash p hash ≡ true)
      × (b.is_valid_proposal_hash p' hash ≡ true)
SealedBy-agree {b = b} powers faulty p p' seals seals' r ready few s s' honest =
    let (a, _, in_s, in_s', good) =
      quorum_intersection powers faulty (convert_message_to_address_set s.commits)
        (convert_message_to_address_set s'.commits) r ready (convert-Distinct s.commits)
        (convert-Distinct s'.commits) s.quorum s'.quorum few in
    let (x, i, e) = find_sender a s.commits (sym (contains-convert s.commits a) ∙ in_s) in
    let (y, j, e') = find_sender a s'.commits (sym (contains-convert s'.commits a) ∙ in_s') in
    let same = honest x y i j (e ∙ sym e') (ap (contains faulty) e ∙ good) in
    (
      extract_commit_hash x,
      All-In (λ m. b.is_valid_proposal_hash p (extract_commit_hash m) ≡ true) x s.commits
          s.valid_hashes i,
      ap (b.is_valid_proposal_hash p') same
          ∙ All-In (λ m. b.is_valid_proposal_hash p' (extract_commit_hash m) ≡ true) y s'.commits
              s'.valid_hashes j,
    )
