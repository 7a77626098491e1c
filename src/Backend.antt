-- ===== src/Backend.antt =====
-- What the engine calls and does not implement (core/backend.go): building and verifying messages and
-- proposals, and the voting powers. Its answers are functions of the arguments.
use go_ibft.Prelude.{ℕ, Bool, Option, ◌⊎◌}
use go_ibft.Proto.{Bytes, View, Proposal, IbftMessage, RoundChangeRef, PreparedRef}
use go_ibft.Extract.{CommittedSeal}
use go_ibft.Validators.{VotingPowers, InitError}

pub record Backend : Type 0 where
  pub build_preprepare_message : Bytes → RoundChangeRef → View → IbftMessage
  pub build_prepare_message : Bytes → View → IbftMessage
  pub build_commit_message : Bytes → View → IbftMessage
  pub build_round_change_message : Option Proposal → PreparedRef → View → IbftMessage
  pub is_valid_proposal : Bytes → Bool
  pub is_valid_validator : IbftMessage → Bool
  pub is_proposer : Bytes → ℕ → ℕ → Bool
  pub is_valid_proposal_hash : Option Proposal → Bytes → Bool
  pub is_valid_committed_seal : Bytes → Option CommittedSeal → Bool
  pub get_voting_powers : ℕ → InitError ⊎ VotingPowers
  pub build_proposal : View → Bytes
  pub id : Bytes
