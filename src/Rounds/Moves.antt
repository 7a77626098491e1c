-- ===== src/Rounds/Moves.antt =====
-- The reactions of the main loop: a future proposal and the timer.
use go_ibft.Prelude.{ℕ, ◌≡◌, ◌≢◌, refl, none, some, ◌∷◌, ok, arith}
use go_ibft.Proto.{Bytes, View, IbftMessage, view_of}
use go_ibft.Extract.{extract_proposal_hash}
use go_ibft.State.{
  new_round, prepare, get_view, get_proposal_hash, set_proposal_message, change_state,
  set_round_started, set_view,
}
use go_ibft.Backend.{Backend}
use go_ibft.Node.{
  Node, move_to_new_round, accept_proposal, send_prepare_message, send_round_change_message,
  pc_pointer,
}
use go_ibft.Rounds.{on_new_proposal, on_round_expired, next_round}

-- On a proposal for another round the node moves to that round, in the prepare state with the
-- proposal, but the one message that it sends is a prepare message for the round that it left, if
-- the backend builds prepare messages for the view that it is given.
pub on_new_proposal-stale :
    (b : Backend) (round : ℕ) (m : IbftMessage) (n n' : Node)
    → ((h : Bytes) (v : View) → view_of (b.build_prepare_message h v) ≡ some v)
    → round ≢ n.state.view.round
    → on_new_proposal b (get_view n.state) round m n ≡ ok n'
    → (x : IbftMessage) × (n'.sent ≡ x ∷ n.sent)
      × (n'.state.view ≡ record { height = n.state.view.height; round = round })
      × (n'.state.name ≡ prepare)
      × (n'.state.proposal_message ≡ some m)
      × (view_of x ≡ some (get_view n.state))
      × (view_of x ≢ some n'.state.view)
unfolding on_new_proposal send_prepare_message accept_proposal move_to_new_round set_round_started
    change_state set_proposal_message set_view get_proposal_hash get_view
on_new_proposal-stale b round m n n' built other h = (
  b.build_prepare_message (extract_proposal_hash m) (get_view n.state),
  ground arith,
  ground arith,
  ground arith,
  ground arith,
  built (extract_proposal_hash m) (get_view n.state),
  λ e. ground (arith, built (extract_proposal_hash m) (get_view n.state)),
)

-- When the timer expires the node goes to the next round without a proposal but keeps what it had
-- prepared: the round change message for the next round carries the latest certificate and its
-- proposal.
on_round_expired_lem :
    (b : Backend) (h : ℕ) (view : View) (n : Node)
    → let n' = on_round_expired b h view n in
      (n'.state.view ≡ record { height = n.state.view.height; round = next_round view.round })
      × (n'.state.name ≡ new_round)
      × (n'.state.proposal_message ≡ none)
      × (n'.state.latest_pc ≡ n.state.latest_pc)
      × (n'.state.latest_prepared_proposal ≡ n.state.latest_prepared_proposal)
      × (n'.sent
          ≡ b.build_round_change_message n.state.latest_prepared_proposal
              (pc_pointer n.state.latest_pc)
              (record { height = h; round = next_round view.round })
            ∷ n.sent)
unfolding on_round_expired send_round_change_message move_to_new_round set_round_started
    change_state set_proposal_message set_view
on_round_expired_lem b h view n = (refl, refl, refl, refl, refl, refl)
