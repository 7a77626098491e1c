-- ===== src/Tests.antt =====
-- Concrete nodes and messages, and each theorem at an input that meets its hypotheses: four
-- validators with one vote each, of whom the first is the proposer of every round.
mod Quorums
mod Certificates
mod Stores
mod Subscriptions
mod Handlers
mod Sequences
mod Watchers
mod Proposers
mod Reproposals
mod Sealing
mod Finishing
mod Callbacks
mod Rebuilt
mod Found
mod Unmatched
use go_ibft.Prelude.{ℕ, Bool, true, false, Option, none, some, List, [], ◌∷◌, Str, inr}
use go_ibft.Prelude.Int.{pos}
use go_ibft.Proto.{
  Bytes, bytes_equal, View, Proposal, MessageType, preprepare, prepare, commit, round_change,
  IbftMessage, message, preprepare_data, prepare_data, commit_data, round_change_data, nil_rcc,
  nil_pc,
}
use go_ibft.Validators.{VotingPowers, ValidatorManager}
use go_ibft.Backend.{Backend}

abbrev address : ℕ → Str
address k = k ∷ []

abbrev powers : VotingPowers
powers = (address 1, pos 1) ∷ (address 2, pos 1) ∷ (address 3, pos 1) ∷ (address 4, pos 1) ∷ []

abbrev manager : ValidatorManager
manager = record { quorum_size = pos 3; validators_voting_power = some powers }

abbrev a_view : View
a_view = record { height = 5; round = 1 }

abbrev a_hash : Bytes
a_hash = some (9 ∷ [])

abbrev a_proposal : Proposal
a_proposal = record { raw_proposal = some (7 ∷ []); round = 1 }

abbrev preprepare_from : ℕ → IbftMessage
preprepare_from k =
    message (some a_view) (some (address k)) none preprepare
      (preprepare_data (some a_proposal) a_hash nil_rcc)

abbrev prepare_from : ℕ → IbftMessage
prepare_from k = message (some a_view) (some (address k)) none prepare (prepare_data a_hash)

abbrev commit_from : ℕ → IbftMessage
commit_from k =
    message (some a_view) (some (address k)) none commit (commit_data a_hash (some (address k)))

abbrev round_change_from : ℕ → IbftMessage
round_change_from k =
    message (some a_view) (some (address k)) none round_change (round_change_data none nil_pc)

abbrev backend : Backend
backend = record {
  build_preprepare_message = λ raw rcc v.
      message (some v) (some (address 2)) none preprepare
        (preprepare_data (some (record { raw_proposal = raw; round = v.round })) a_hash rcc);
  build_prepare_message = λ h v. message (some v) (some (address 2)) none prepare (prepare_data h);
  build_commit_message =
      λ h v. message (some v) (some (address 2)) none commit (commit_data h none);
  build_round_change_message =
      λ p c v. message (some v) (some (address 2)) none round_change (round_change_data p c);
  is_valid_proposal = λ raw. true;
  is_valid_validator = λ m. true;
  is_proposer = λ id h r. bytes_equal id (some (address 1));
  is_valid_proposal_hash = λ p h. bytes_equal h a_hash;
  is_valid_committed_seal = λ h s. true;
  get_voting_powers = λ h. inr powers;
  build_proposal = λ v. some (7 ∷ []);
  id = some (address 2);
}
