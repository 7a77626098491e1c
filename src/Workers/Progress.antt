-- ===== src/Workers/Progress.antt =====
-- That a worker gets on once it is woken and the messages are there.
use go_ibft.Prelude.{
  ℕ, ◌≡◌, refl, ap, Bool, true, false, some, List, [], ◌∷◌, nat_eq, str_eq, contains, arith, All,
  inl, inr, ok,
}
use go_ibft.Proto
use go_ibft.Proto.{View, IbftMessage, MessageType, same_type, type_of}
use go_ibft.State.{prepare, commit, get_view, finalize_prepare}
use go_ibft.Extract.Seals.{all_of_type_commit}
use go_ibft.Events.{EventManager}
use go_ibft.Events.Manager.{ids, IsCounted}
use go_ibft.Messages.{get_valid_messages, get_proto_messages}
use go_ibft.Messages.WellFormed.{IsWellFormed, IsFiled}
use go_ibft.Backend.{Backend}
use go_ibft.Certificate.Kept.{kept-All}
use go_ibft.Node.{Node, handle_prepare, send_commit_message, handle_commit, is_valid_commit}
use go_ibft.Node.Listening.{set_event_manager}
use go_ibft.Node.Committing.{valid_commits, committed, committed_state, handle_commit_cases}
use go_ibft.Node.Preparing.{prepared, prepared_state, handle_prepare_cases}
use go_ibft.Extract.{extract_proposal_hash}
use go_ibft.Rounds.{handle_event}
use go_ibft.Node.Leaving.{Leaves}
use go_ibft.Workers.Turning.{run_worker_turn}
use go_ibft.Events.Open.{KeepsOpen}
use go_ibft.Workers.{Event, ready, finished, run_worker}

handle_commit-event_manager :
    (b : Backend) (v : View) (n n' : Node) (done : Bool)
    → handle_commit b v n ≡ ok (n', done)
    → n'.messages.event_manager ≡ n.messages.event_manager
unfolding handle_commit get_valid_messages
handle_commit-event_manager b v n n' done h = ground arith

handle_commit-sent :
    (b : Backend) (v : View) (n n' : Node) (done : Bool)
    → handle_commit b v n ≡ ok (n', done)
    → n'.sent ≡ n.sent
unfolding handle_commit get_valid_messages
handle_commit-sent b v n n' done h = ground arith

All-all_of_type_commit :
    (ms : List IbftMessage)
    → All (λ m. same_type (type_of m) Proto.MessageType.commit ≡ true) ms
    → all_of_type_commit ms ≡ true
All-all_of_type_commit [] a = refl
All-all_of_type_commit (m ∷ ms) a = ground (arith, All-all_of_type_commit ms a.1)

-- The stored commit messages of a view, filtered, are commit messages.
valid_commits-type :
    (b : Backend) (v : View) (n : Node)
    → IsWellFormed n.messages
    → all_of_type_commit (valid_commits b v n) ≡ true
unfolding get_proto_messages
valid_commits-type b v n w =
    let (distinct, filed) = w Proto.MessageType.commit v.height v.round in
    All-all_of_type_commit (valid_commits b v n) (
      kept-All (is_valid_commit b n.state) (IsFiled Proto.MessageType.commit v.height v.round)
        (λ m. same_type (type_of m) Proto.MessageType.commit ≡ true)
        (get_proto_messages v Proto.MessageType.commit n.messages) (λ e f t. f.of_type) filed)

-- With a quorum of valid commit messages the handler moves on, whatever the subscriptions are.
handle_commit-committed :
    (b : Backend) (v : View) (n : Node) (em : EventManager)
    → IsWellFormed n.messages
    → committed b v n ≡ true
    → (n' : Node) × (handle_commit b v (set_event_manager em n) ≡ ok (n', true))
      × (n'.state ≡ committed_state b v n)
unfolding get_proto_messages
handle_commit-committed b v n em w q =
    let (store, after, out, seals) =
      handle_commit_cases b v (set_event_manager em n)
        (w Proto.MessageType.commit v.height v.round).0 in
    elim out [
      | inl (inl few, ran) ↦ absurd (ground (arith, q, few))
      | inl (inr odd, ran) ↦ absurd (ground (arith, valid_commits-type b v n w, odd))
      | inr (enough, typed, ran) ↦ (_, ran, refl)
    ]

-- Where a node in the commit state holds a quorum of valid commit messages for its view, `runCommit` returns
-- as soon as its subscription wakes it, has sent nothing, and leaves the node in the fin state with the
-- seals of these messages: for a well-formed store, a counted manager and a new identifier. Its subscription is gone, and
-- the others are open as before.
pub run_worker-commits :
    (b : Backend) (id r : ℕ) (es : List Event) (n : Node)
    → IsWellFormed n.messages
    → IsCounted n.messages.event_manager
    → contains (ids n.messages.event_manager.subscriptions) id ≡ false
    → committed b (get_view n.state) n ≡ true
    → (n' : Node) × (run_worker b commit id (ready r ∷ es) n ≡ ok (finished tt n' es))
      × ((n'.state ≡ committed_state b (get_view n.state) n) × (n'.sent ≡ n.sent))
      × KeepsOpen n.messages.event_manager n'.messages.event_manager
unfolding handle_event
run_worker-commits b id r es n w c new q =
    run_worker_turn (λ m. (m.state ≡ committed_state b (get_view n.state) n) × (m.sent ≡ n.sent)) b
      commit id r es n refl c new (λ em m p. p)
      (λ em.
        let (m, handled, sealed) = handle_commit-committed b (get_view n.state) n em w q in
        (
          m,
          handled,
          handle_commit-event_manager b (get_view n.state) _ m true handled,
          (sealed, handle_commit-sent b (get_view n.state) _ m true handled),
        ))

handle_prepare-event_manager :
    (b : Backend) (v : View) (n n' : Node) (done : Bool)
    → handle_prepare b v n ≡ ok (n', done)
    → n'.messages.event_manager ≡ n.messages.event_manager
unfolding handle_prepare get_valid_messages send_commit_message finalize_prepare
handle_prepare-event_manager b v n n' done h = ground arith

handle_prepare-commits :
    (b : Backend) (v : View) (n n' : Node) (done : Bool)
    → handle_prepare b v n ≡ ok (n', done)
    → Leaves Proto.MessageType.commit n n'
unfolding handle_prepare get_valid_messages send_commit_message finalize_prepare
handle_prepare-commits b v n n' done h = (ground arith, ground arith)

-- With a prepare quorum the handler moves on, whatever the subscriptions are.
handle_prepare-prepared :
    (b : Backend) (v : View) (n : Node) (em : EventManager) (m : IbftMessage)
    → IsWellFormed n.messages
    → n.state.proposal_message ≡ some m
    → prepared b v n ≡ true
    → (n' : Node) × (handle_prepare b v (set_event_manager em n) ≡ ok (n', true))
      × (n'.state ≡ prepared_state b v n m)
      × (n'.sent ≡ b.build_commit_message (extract_proposal_hash m) v ∷ n.sent)
unfolding get_proto_messages
handle_prepare-prepared b v n em m w p q =
    let (store, after, out) =
      handle_prepare_cases b v (set_event_manager em n)
        (w Proto.MessageType.prepare v.height v.round).0 in
    elim out [
      | inl (few, ran) ↦ absurd (ground (arith, q, few))
      | inr (m', enough, p', ran) ↦
          let same : m' ≡ m = ground (arith, p, p') in
          (
            _,
            ran,
            ap (λ x. prepared_state b v n x) same,
            ap (λ x. b.build_commit_message (extract_proposal_hash x) v ∷ n.sent) same,
          )
    ]

-- Where a node in the prepare state holds a prepare quorum for the proposal that it has accepted, `runPrepare`
-- returns as soon as its subscription wakes it, has sent the commit message, and leaves the node in the
-- commit state with the certificate, and the stored commit messages and the voting powers as they were: for
-- a well-formed store, a counted manager and a new identifier. Its subscription is gone, and the others are
-- open as before.
pub run_worker-prepares :
    (b : Backend) (id r : ℕ) (es : List Event) (n : Node) (m : IbftMessage)
    → IsWellFormed n.messages
    → IsCounted n.messages.event_manager
    → contains (ids n.messages.event_manager.subscriptions) id ≡ false
    → n.state.proposal_message ≡ some m
    → prepared b (get_view n.state) n ≡ true
    → (n' : Node) × (run_worker b prepare id (ready r ∷ es) n ≡ ok (finished tt n' es))
      × ((n'.state ≡ prepared_state b (get_view n.state) n m)
          × (n'.sent ≡ b.build_commit_message (extract_proposal_hash m) (get_view n.state) ∷ n.sent)
          × Leaves Proto.MessageType.commit n n')
      × KeepsOpen n.messages.event_manager n'.messages.event_manager
unfolding handle_event
run_worker-prepares b id r es n m w c new p q =
    let v = get_view n.state in
    run_worker_turn
      (λ x.
        (x.state ≡ prepared_state b v n m)
        × (x.sent ≡ b.build_commit_message (extract_proposal_hash m) v ∷ n.sent)
        × Leaves Proto.MessageType.commit n x)
      b prepare id r es n refl c new (λ em x i. i)
      (λ em.
        let (x, handled, state, sent) = handle_prepare-prepared b v n em m w p q in
        (
          x,
          handled,
          handle_prepare-event_manager b v _ x true handled,
          (state, sent, handle_prepare-commits b v _ x true handled),
        ))
