-- ===== src/State.antt =====
-- The state of a node within a sequence and its accessors (core/state.go). The mutex makes each of
-- them one step.
use go_ibft.Prelude.{
  ℕ, Bool, true, false, Option, none, some, List, [], Result, ok, panic, if◌then◌else◌, not,
}
use go_ibft.Proto.{Bytes, View, Proposal, IbftMessage, PreparedCertificate}
use go_ibft.Extract.{CommittedSeal, extract_proposal, extract_proposal_hash}

pub data StateType : Type 0 where
  new_round prepare commit fin : StateType

pub StateType-discrete : Discrete StateType
StateType-discrete = hlevel

pub record State : Type 0 where
  pub view : View
  pub latest_pc : Option PreparedCertificate
  pub latest_prepared_proposal : Option Proposal
  pub proposal_message : Option IbftMessage
  pub seals : List (Option CommittedSeal)
  pub round_started : Bool
  pub name : StateType

-- The state of `NewIBFT`.
unfoldable pub initial : State
initial = record {
  view = record { height = 0; round = 0 };
  latest_pc = none;
  latest_prepared_proposal = none;
  proposal_message = none;
  seals = [];
  round_started = false;
  name = new_round;
}

abbrev pub get_latest_pc : State → Option PreparedCertificate
get_latest_pc s = s.latest_pc

abbrev pub get_latest_prepared_proposal : State → Option Proposal
get_latest_prepared_proposal s = s.latest_prepared_proposal

abbrev pub get_proposal_message : State → Option IbftMessage
get_proposal_message s = s.proposal_message

abbrev pub get_round : State → ℕ
get_round s = s.view.round

abbrev pub get_height : State → ℕ
get_height s = s.view.height

abbrev pub get_committed_seals : State → List (Option CommittedSeal)
get_committed_seals s = s.seals

abbrev pub get_state_name : State → StateType
get_state_name s = s.name

unfoldable pub get_view : State → View
get_view s = record { height = s.view.height; round = s.view.round }

unfoldable pub reset : ℕ → State → State
reset height s = record s {
  seals = [];
  round_started = false;
  name = new_round;
  proposal_message = none;
  latest_pc = none;
  latest_prepared_proposal = none;
  view = record { height = height; round = 0 };
}

-- `ExtractProposalHash` reads the type of the message, which faults when there is none.
unfoldable pub get_proposal_hash : State → Result Bytes
unfolding extract_proposal_hash
get_proposal_hash s = elim s.proposal_message [
  | none ↦ panic
  | some m ↦ ok (extract_proposal_hash m)
]

unfoldable pub set_proposal_message : Option IbftMessage → State → State
set_proposal_message m s = record s { proposal_message = m }

unfoldable pub get_proposal : State → Option Proposal
unfolding extract_proposal
get_proposal s = elim s.proposal_message [ none ↦ none | some m ↦ extract_proposal m ]

unfoldable pub get_raw_data_from_proposal : State → Bytes
unfolding get_proposal
get_raw_data_from_proposal s = elim (get_proposal s) [ none ↦ none | some p ↦ p.raw_proposal ]

unfoldable pub change_state : StateType → State → State
change_state n s = record s { name = n }

unfoldable pub set_round_started : Bool → State → State
set_round_started b s = record s { round_started = b }

unfoldable pub set_view : View → State → State
set_view v s = record s { view = v }

unfoldable pub set_committed_seals : List (Option CommittedSeal) → State → State
set_committed_seals cs s = record s { seals = cs }

-- `state.newRound`.
unfoldable pub start_round : State → State
start_round s =
    if not s.round_started then record s { name = new_round; round_started = true } else s

unfoldable pub finalize_prepare : Option PreparedCertificate → Option Proposal → State → State
finalize_prepare certificate latest_ppb s = record s {
  latest_pc = certificate;
  latest_prepared_proposal = latest_ppb;
  name = commit;
}
