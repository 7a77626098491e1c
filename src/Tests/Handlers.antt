-- ===== src/Tests/Handlers.antt =====
-- A node that follows one sequence, and messages that it accepts or cannot read.
use go_ibft.Prelude.{
  ℕ, ◌≡◌, refl, ◌↔◌, true, none, some, [], ◌∷◌, map, Str, ok, panic, All, Distinct, str_eq,
}
use go_ibft.Proto.{
  rcc_messages, MessageType, preprepare, prepare, commit, IbftMessage, message, preprepare_data,
  nil_rcc, rcc_ref, round_change_certificate, slice, items_of,
}
use go_ibft.Extract.{
  extract_committed_seal, extract_committed_seals, extract_proposal, extract_proposal_hash,
  extract_commit_hash, extract_round_change_certificate, extract_latest_pc, has_unique_senders,
  unique_senders_from,
}
use go_ibft.State.{
  State, StateType, commit as commit_state, fin, new_round, get_view, change_state,
  set_committed_seals,
}
use go_ibft.Validators.{has_quorum, power_from, convert_message_to_address_set, address_set_from}
use go_ibft.Messages.{Messages, get_proto_messages, get_valid_messages, sort_messages}
use go_ibft.Messages.Stored.{stored}
use go_ibft.Messages.Valid.{names, after_test}
use go_ibft.Node.{
  Node, is_acceptable_message, handle_commit, is_valid_prepare, is_valid_commit,
  has_quorum_by_msg_type,
}
use go_ibft.Node.Accepting.{IsTimely, is_acceptable_message_iff}
use go_ibft.Node.Preparing.{handle_prepare_cases}
use go_ibft.Node.Preparing as Preparing
use go_ibft.Node.Committing as Committing
use go_ibft.Node.Committing.{
  valid_commits, committed, committed_state, IsSealOf, handle_commit_cases, insert_block-sealed,
}
use go_ibft.Proposals.{
  handle_pre_prepare, validate_proposal, validate_proposal_common, common_checks, validate_with_rcc,
  valid_round_changes, prepared_entries, prepared_entry, matches_prepared,
}
use go_ibft.Proposals.Accepted.{AcceptedProposal}
use go_ibft.Proposals.Repeating.{RepeatsHighest, validate_proposal-RepeatsHighest}
use go_ibft.Proposals.Faults.{handle_pre_prepare-panic}
use go_ibft.Rounds.{handle_event}
use go_ibft.Rounds.Invariant.{Inv}
use go_ibft.Tests.{
  address, manager, a_view, a_hash, a_proposal, preprepare_from, prepare_from, round_change_from,
  backend,
}
use go_ibft.Tests.Stores.{store, commit_entries}

program : Unit {0}
unfolding handle_commit handle_event get_valid_messages sort_messages get_proto_messages
    has_quorum_by_msg_type has_quorum power_from convert_message_to_address_set address_set_from
    extract_commit_hash extract_committed_seals change_state set_committed_seals get_view
    validate_proposal validate_with_rcc valid_round_changes prepared_entries prepared_entry
    matches_prepared common_checks validate_proposal_common extract_round_change_certificate
    extract_latest_pc extract_proposal extract_proposal_hash has_unique_senders unique_senders_from
    is_acceptable_message
program = tt

abbrev state_in : StateType → State
state_in name = record {
  view = a_view;
  latest_pc = none;
  latest_prepared_proposal = none;
  proposal_message = some (preprepare_from 1);
  seals = [];
  round_started = true;
  name = name;
}

abbrev pub node_in : StateType → Node
node_in name = record {
  state = state_in name;
  messages = store;
  validator_manager = manager;
  sent = [];
  inserted = [];
}

abbrev sealed_node : Node
sealed_node = record (node_in commit_state) {
  state = record (state_in fin) {
    seals = map extract_committed_seal (map (λ e. e.1) commit_entries);
  };
}

is_acceptable_message_iff_example :
    (is_acceptable_message backend (node_in commit_state) (prepare_from 2) ≡ true)
    ↔ IsTimely backend (node_in commit_state) (prepare_from 2)
is_acceptable_message_iff_example =
    is_acceptable_message_iff backend (node_in commit_state) (prepare_from 2)

Distinct-prepares : Distinct (names (get_proto_messages a_view prepare store))
unfolding get_proto_messages
Distinct-prepares = (refl, (refl, (refl, tt)))

Distinct-commits : Distinct (names (get_proto_messages a_view commit store))
unfolding get_proto_messages
Distinct-commits = (refl, (refl, (refl, tt)))

handle_prepare_cases_example :
    (after : Messages) × ((t : MessageType) (h r : ℕ) (k : Str)
      → stored after t h r k
        ≡ after_test a_view prepare (is_valid_prepare backend (state_in new_round)) store t h r k)
    × Preparing.Outcome backend a_view (node_in new_round) after
handle_prepare_cases_example =
    handle_prepare_cases backend a_view (node_in new_round) Distinct-prepares

handle_commit_cases_example :
    (after : Messages) × ((t : MessageType) (h r : ℕ) (k : Str)
      → stored after t h r k
        ≡ after_test a_view commit (is_valid_commit backend (state_in commit_state)) store t h r k)
    × Committing.Outcome backend a_view (node_in commit_state) after
    × All
        (IsSealOf backend (state_in commit_state))
        (committed_state backend a_view (node_in commit_state)).seals
handle_commit_cases_example =
    handle_commit_cases backend a_view (node_in commit_state) Distinct-commits

commit_run : handle_commit backend a_view (node_in commit_state) ≡ ok (sealed_node, true)
unfolding program
commit_run = refl

commit_step :
    handle_event backend commit_state a_view (node_in commit_state) ≡ ok (sealed_node, true)
unfolding program
commit_step = refl

node_in_commit-Inv : Inv backend manager (node_in commit_state)
node_in_commit-Inv = record {
  same_validators = refl;
  has_proposal = λ e. cc;
  sealed = λ e. cc;
  blocks = tt;
}

abbrev reproposal : IbftMessage
reproposal = message (some a_view) (some (address 1)) none preprepare (
    preprepare_data (some a_proposal) a_hash (
      rcc_ref (
        round_change_certificate (
          slice
            (items_of (round_change_from 1 ∷ round_change_from 3 ∷ round_change_from 4 ∷ []))))))

reproposal_run : validate_proposal backend (node_in new_round) reproposal a_view ≡ ok true
unfolding program
reproposal_run = refl

validate_proposal-RepeatsHighest_example :
    (a : AcceptedProposal backend (node_in new_round) reproposal a_view) × RepeatsHighest backend
      (node_in new_round)
      a.message_view.round
      5
      (rcc_messages a.certificate)
      a.proposal
validate_proposal-RepeatsHighest_example =
    validate_proposal-RepeatsHighest backend (node_in new_round) reproposal a_view reproposal_run

abbrev no_proposal : IbftMessage
no_proposal =
    message (some a_view) (some (address 3)) none preprepare (preprepare_data none a_hash nil_rcc)

abbrev node_with : IbftMessage → Node
node_with m = record (node_in new_round) {
  messages = record store { preprepare_messages = (5, (1, (address 3, m) ∷ []) ∷ []) ∷ [] };
}

handle_pre_prepare-panic_example : handle_pre_prepare backend a_view (node_with no_proposal) ≡ panic
unfolding get_proto_messages extract_proposal
handle_pre_prepare-panic_example =
    handle_pre_prepare-panic backend (node_with no_proposal) a_view a_view (address 3) no_proposal
      refl refl refl refl
