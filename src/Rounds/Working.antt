-- ===== src/Rounds/Working.antt =====
-- The work within a round.
use go_ibft.Prelude.{◌≡◌, refl, ap, ◌∙◌, arith, Bool, ok}
use go_ibft.Proto.{View}
use go_ibft.State.{
  StateType, new_round, prepare, commit, fin, start_round, change_state, set_proposal_message,
  finalize_prepare, set_committed_seals, get_view,
}
use go_ibft.Backend.{Backend}
use go_ibft.Node.{
  Node, accept_proposal, handle_prepare, handle_commit, send_prepare_message, send_commit_message,
  notify_if_quorum,
}
use go_ibft.Node.Listening.{subscribe, unsubscribe}
use go_ibft.Proposals.{handle_pre_prepare}
use go_ibft.Rounds.{
  WorkStep, deliver, listen, unlisten, start, offer, run, watch, work, take_proposal, handle_event,
  open_round, propose,
}
use go_ibft.Rounds.Invariant.{add_message-Keeps}
use go_ibft.Rounds.Starting.{handle_pre_prepare-Keeps}
use go_ibft.Rounds.Safety.{Reach}
use go_ibft.Rounds.Safety

-- The work from one node to another.
pub data Works (b : Backend) (n : Node) : Node → Type 0 where
  here : Works b n n
  next : {n' n'' : Node} → Works b n n' → WorkStep b n' n'' → Works b n n''

pub Works-Reach : {b : Backend} {n n' n'' : Node} → Reach b n n' → Works b n' n'' → Reach b n n''
Works-Reach r here = r
Works-Reach r (next w s) = Safety.next (Works-Reach r w) (work s)

take_proposal-view :
    (b : Backend) (v : View) (n n' : Node) (done : Bool)
    → take_proposal b v n ≡ ok (n', done)
    → n'.state.view ≡ n.state.view
unfolding take_proposal handle_pre_prepare send_prepare_message change_state accept_proposal
    set_proposal_message
take_proposal-view b v n n' done h = ground arith

handle_event-view :
    (b : Backend) (t : StateType) (v : View) (n n' : Node) (done : Bool)
    → handle_event b t v n ≡ ok (n', done)
    → n'.state.view ≡ n.state.view
unfolding handle_event handle_prepare handle_commit finalize_prepare send_commit_message
    change_state set_committed_seals
handle_event-view b new_round v n n' done h = take_proposal-view b v n n' done h
handle_event-view b prepare v n n' done h = ground arith
handle_event-view b commit v n n' done h = ground arith
handle_event-view b fin v n n' done h = ground arith

WorkStep-view : (b : Backend) (n n' : Node) → WorkStep b n n' → n'.state.view ≡ n.state.view
unfolding open_round start_round propose accept_proposal subscribe unsubscribe notify_if_quorum
    set_proposal_message change_state
WorkStep-view b n n' (deliver m h) = ap (λ s. s.view) (add_message-Keeps b m n n' h).state
WorkStep-view b n n' (listen id d h) = ground arith
WorkStep-view b n n' (unlisten id h) = ground arith
WorkStep-view b n n' (start e) = ground arith
WorkStep-view b n n' (offer rcc m h e) = ap (λ x. x.state.view) e
WorkStep-view b n n' (run done h) = handle_event-view b n.state.name (get_view n.state) n n' done h
WorkStep-view b n n' (watch v got h) =
    ap (λ s. s.view) (handle_pre_prepare-Keeps b v n n' got h).state

-- Whatever the workers of a round do, and whatever messages arrive, the node's view stays.
pub Works-view : {b : Backend} {n n' : Node} → Works b n n' → n'.state.view ≡ n.state.view
Works-view here = refl
Works-view {b = b} (next {n' = m} {n'' = m'} w s) = WorkStep-view b m m' s ∙ Works-view w

handle_event-inserted :
    (b : Backend) (t : StateType) (v : View) (n n' : Node) (done : Bool)
    → handle_event b t v n ≡ ok (n', done)
    → n'.inserted ≡ n.inserted
unfolding handle_event handle_prepare handle_commit send_commit_message take_proposal
    handle_pre_prepare send_prepare_message accept_proposal
handle_event-inserted b new_round v n n' done h = ground arith
handle_event-inserted b prepare v n n' done h = ground arith
handle_event-inserted b commit v n n' done h = ground arith
handle_event-inserted b fin v n n' done h = ground arith

WorkStep-inserted : (b : Backend) (n n' : Node) → WorkStep b n n' → n'.inserted ≡ n.inserted
unfolding open_round propose accept_proposal subscribe unsubscribe notify_if_quorum
WorkStep-inserted b n n' (deliver m h) = (add_message-Keeps b m n n' h).inserted
WorkStep-inserted b n n' (listen id d h) = ground arith
WorkStep-inserted b n n' (unlisten id h) = ground arith
WorkStep-inserted b n n' (start e) = ground arith
WorkStep-inserted b n n' (offer rcc m h e) = ap (λ x. x.inserted) e
WorkStep-inserted b n n' (run done h) =
    handle_event-inserted b n.state.name (get_view n.state) n n' done h
WorkStep-inserted b n n' (watch v got h) = (handle_pre_prepare-Keeps b v n n' got h).inserted

-- Nor do they insert a block.
pub Works-inserted : {b : Backend} {n n' : Node} → Works b n n' → n'.inserted ≡ n.inserted
Works-inserted here = refl
Works-inserted {b = b} (next {n' = m} {n'' = m'} w s) =
    WorkStep-inserted b m m' s ∙ Works-inserted w
