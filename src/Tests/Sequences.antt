-- ===== src/Tests/Sequences.antt =====
-- A short sequence, a jump to another round, and two sealed proposals.
use go_ibft.Prelude.{◌≡◌, ◌≢◌, refl, true, false, none, some, [], ◌∷◌, arith, str_eq}
use go_ibft.Prelude.Int.{pos}
use go_ibft.Proto.{IbftMessage, view_of}
use go_ibft.State.{get_view}
use go_ibft.State
use go_ibft.Validators.{has_quorum, power_from, convert_message_to_address_set, address_set_from}
use go_ibft.Node.{Node, new_ibft}
use go_ibft.Rounds.{begin_sequence, on_new_proposal, on_round_expired, expire}
use go_ibft.Rounds.Invariant.{Inv}
use go_ibft.Rounds.Safety.{here, next}
use go_ibft.Messages.WellFormed.{IsWellFormed, new_messages-IsWellFormed}
use go_ibft.Rounds.Filed.{sequence-IsWellFormed}
use go_ibft.Rounds.Sequence.{sequence-Inv}
use go_ibft.Rounds.Moves.{on_new_proposal-stale}
use go_ibft.Tests.{manager, a_hash, preprepare_from, backend}

unfoldable pub program : Unit {0}
unfolding begin_sequence on_new_proposal new_ibft go_ibft.Validators.init
    go_ibft.Validators.set_current_voting_power go_ibft.Validators.calculate_total_voting_power
    go_ibft.Validators.total_from State.reset go_ibft.Messages.prune_by_height
    go_ibft.Validators.calculate_quorum go_ibft.Messages.new_messages go_ibft.Messages.prune_map
    go_ibft.Events.new_event_manager go_ibft.Node.send_prepare_message State.get_proposal_hash
    State.set_round_started go_ibft.Node.accept_proposal State.change_state
    State.set_proposal_message go_ibft.Node.move_to_new_round State.set_view
program = tt

abbrev pub begun : Node
begun = record {
  state = record {
    view = record { height = 5; round = 0 };
    latest_pc = none;
    latest_prepared_proposal = none;
    proposal_message = none;
    seals = [];
    round_started = false;
    name = State.StateType.new_round;
  };
  messages = record {
    event_manager = record { subscriptions = []; num_subscriptions = pos 0 };
    preprepare_messages = [];
    prepare_messages = [];
    commit_messages = [];
    round_change_messages = [];
  };
  validator_manager = manager;
  sent = [];
  inserted = [];
}

sequence-Inv_example : Inv backend manager (on_round_expired backend 5 (get_view begun.state) begun)
unfolding program
sequence-Inv_example =
    sequence-Inv backend 5 new_ibft begun (on_round_expired backend 5 (get_view begun.state) begun)
      refl refl (next here (expire refl))

sequence-IsWellFormed_example :
    IsWellFormed (on_round_expired backend 5 (get_view begun.state) begun).messages
unfolding program
sequence-IsWellFormed_example =
    sequence-IsWellFormed backend 5 new_ibft begun
      (on_round_expired backend 5 (get_view begun.state) begun) refl new_messages-IsWellFormed
      (next here (expire refl))

abbrev moved : Node
moved = record begun {
  sent = backend.build_prepare_message a_hash (get_view begun.state) ∷ [];
  state = record begun.state {
    view = record { height = 5; round = 4 };
    round_started = true;
    proposal_message = some (preprepare_from 1);
    name = State.StateType.prepare;
  };
}

on_new_proposal-stale_example :
    (x : IbftMessage) × (moved.sent ≡ x ∷ begun.sent)
    × (moved.state.view ≡ record { height = begun.state.view.height; round = 4 })
    × (moved.state.name ≡ State.StateType.prepare)
    × (moved.state.proposal_message ≡ some (preprepare_from 1))
    × (view_of x ≡ some (get_view begun.state))
    × (view_of x ≢ some moved.state.view)
unfolding program
on_new_proposal-stale_example =
    on_new_proposal-stale backend 4 (preprepare_from 1) begun moved (λ h v. refl) (omega arith) refl
