-- ===== src/Rounds/Storing.antt =====
-- The store of a node in the histories of a sequence: what its operations keep, every step keeps.
use go_ibft.Prelude.{
  ℕ, ◌≡◌, sym, Bool, true, Option, none, some, ◌==◌, nat_eq, arith, inl, inr, Bool-cases,
  Option-cases, ok, >>=-eq-ok, str_eq, List, Result,
}
use mathlib.Core.Path.{subst}
use go_ibft.Proto.{MessageType, preprepare, prepare, commit, View, IbftMessage, view_of, type_of}
use go_ibft.State.{
  StateType, get_view, set_proposal_message, change_state, get_proposal_hash, finalize_prepare,
  set_round_started, set_view, set_committed_seals, start_round,
}
use go_ibft.State
use go_ibft.Extract.{extract_committed_seals}
use go_ibft.Events.{EventManager, cancel_subscription, signal_event}
use go_ibft.Messages.{prune_by_height, Messages, get_valid_messages, get_proto_messages}
use go_ibft.Messages
use go_ibft.Backend.{Backend}
use go_ibft.Node.{
  Node, add_message, is_acceptable_message, notify_if_quorum, has_quorum_by_msg_type,
  handle_prepare, handle_commit, insert_block, move_to_new_round, accept_proposal,
  send_prepare_message, send_commit_message, send_round_change_message,
}
use go_ibft.Proposals.{handle_pre_prepare}
use go_ibft.Node.Listening.{subscribe, unsubscribe, set_event_manager}
use go_ibft.Events
use go_ibft.Rounds.{
  open_round, propose, take_proposal, handle_event, on_new_proposal, on_round_certificate,
  on_round_expired, begin_sequence, WorkStep, Step, work, deliver, listen, unlisten, start, offer,
  run, watch, jump, hop, expire, finish,
}
use go_ibft.Rounds.Safety.{Reach, here, next}

-- What the operations of the store keep.
pub record KeptByStore (b : Backend) (P : Messages → Type 0) : Type 0 where
  pub signals : (ms : Messages) (em : EventManager) → P ms → P (record ms { event_manager = em })
  pub adds :
      (m : IbftMessage) (ms ms' : Messages)
      → b.is_valid_validator m ≡ true
      → Messages.add_message m ms ≡ ok ms'
      → P ms
      → P ms'
  pub gets :
      (v : View) (t : MessageType) (check : IbftMessage → Result Bool) (ms ms' : Messages)
      (valid : List IbftMessage)
      → get_valid_messages v t check ms ≡ ok (ms', valid)
      → P ms
      → P ms'
  pub prunes : (height : ℕ) (ms : Messages) → P ms → P (prune_by_height height ms)

module _ (b : Backend) (P : Messages → Type 0) (k : KeptByStore b P) where
  same_store : (n n' : Node) → n.messages ≡ n'.messages → P n.messages → P n'.messages
  same_store n n' e w = subst P e w

  notify_if_quorum_kept :
      (v : View) (t : MessageType) (n n' : Node)
      → notify_if_quorum v t n ≡ ok n'
      → P n.messages
      → P n'.messages
  unfolding notify_if_quorum
  notify_if_quorum_kept v t n n' h w =
      let ((store, l), got, rest) = >>=-eq-ok (get_valid_messages v t _ n.messages) _ h in
      let kept = k.gets v t _ n.messages store l got w in
      elim (Bool-cases (has_quorum_by_msg_type (record n { messages = store }) l t)) [
        | inl q ↦
            let e : record store { event_manager = signal_event t v store.event_manager }
                ≡ n'.messages =
              ground arith in
            subst P e (k.signals store (signal_event t v store.event_manager) kept)
        | inr q ↦ let e : store ≡ n'.messages = ground arith in subst P e kept
      ]

  deliver_kept :
      (m : Option IbftMessage) (n n' : Node)
      → add_message b m n ≡ ok n'
      → P n.messages
      → P n'.messages
  unfolding add_message is_acceptable_message
  deliver_kept none n n' h w = same_store n n' (ground arith) w
  deliver_kept (some m) n n' h w = elim (Bool-cases (is_acceptable_message b n m)) [
    | inr f ↦ same_store n n' (ground arith) w
    | inl t ↦
        let (store, got, rest) = >>=-eq-ok (Messages.add_message m n.messages) _ (rw t at h) in
        let stored = k.adds m n.messages store (ground arith) got w in
        elim (Option-cases (view_of m)) [
          | inl f ↦ absurd (ground arith)
          | inr (v, e) ↦ elim (Bool-cases (v.height == n.state.view.height)) [
            | inl q ↦
                notify_if_quorum_kept v (type_of m) (record n { messages = store }) n'
                  (ground arith) stored
            | inr q ↦ same_store (record n { messages = store }) n' (ground arith) stored
          ]
        ]
  ]

  handle_pre_prepare_kept :
      (v : View) (n n' : Node) (o : Option IbftMessage)
      → handle_pre_prepare b v n ≡ ok (n', o)
      → P n.messages
      → P n'.messages
  unfolding handle_pre_prepare
  handle_pre_prepare_kept v n n' o h w =
      let ((store, l), got, rest) = >>=-eq-ok (get_valid_messages v preprepare _ n.messages) _ h in
      same_store (record n { messages = store }) n' (ground arith)
        (k.gets v preprepare _ n.messages store l got w)

  handle_prepare_kept :
      (v : View) (n n' : Node) (done : Bool)
      → handle_prepare b v n ≡ ok (n', done)
      → P n.messages
      → P n'.messages
  unfolding handle_prepare send_commit_message
  handle_prepare_kept v n n' done h w =
      let ((store, l), got, rest) = >>=-eq-ok (get_valid_messages v prepare _ n.messages) _ h in
      same_store (record n { messages = store }) n'
        (elim (Bool-cases (has_quorum_by_msg_type (record n { messages = store }) l prepare)) [
          | inl q ↦
              let (sent, sending, final) =
                >>=-eq-ok (send_commit_message b v (record n { messages = store })) _
                  (rw q at rest) in
              let (hash, _, made) = >>=-eq-ok (get_proposal_hash n.state) _ sending in ground arith
          | inr q ↦ ground arith
        ])
        (k.gets v prepare _ n.messages store l got w)

  handle_commit_kept :
      (v : View) (n n' : Node) (done : Bool)
      → handle_commit b v n ≡ ok (n', done)
      → P n.messages
      → P n'.messages
  unfolding handle_commit
  handle_commit_kept v n n' done h w =
      let ((store, l), got, rest) = >>=-eq-ok (get_valid_messages v commit _ n.messages) _ h in
      same_store (record n { messages = store }) n'
        (elim (Bool-cases (has_quorum_by_msg_type (record n { messages = store }) l commit)) [
          | inl q ↦ elim (Option-cases (extract_committed_seals l)) [
            | inl f ↦ ground arith
            | inr (seals, f) ↦ ground arith
          ]
          | inr q ↦ ground arith
        ])
        (k.gets v commit _ n.messages store l got w)

  take_proposal_kept :
      (v : View) (n n' : Node) (done : Bool)
      → take_proposal b v n ≡ ok (n', done)
      → P n.messages
      → P n'.messages
  unfolding take_proposal send_prepare_message
  take_proposal_kept v n n' done h w =
      let ((n₁, o), got, rest) = >>=-eq-ok (handle_pre_prepare b v n) _ h in
      let kept = handle_pre_prepare_kept v n n₁ o got w in
      same_store n₁ n' (elim (Option-cases o) [ inl e ↦ ground arith | inr (m, e) ↦ ground arith ])
        kept

  handle_event_kept :
      (t : StateType) (v : View) (n n' : Node) (done : Bool)
      → handle_event b t v n ≡ ok (n', done)
      → P n.messages
      → P n'.messages
  unfolding handle_event
  handle_event_kept State.StateType.new_round v n n' done h w = take_proposal_kept v n n' done h w
  handle_event_kept State.StateType.prepare v n n' done h w = handle_prepare_kept v n n' done h w
  handle_event_kept State.StateType.commit v n n' done h w = handle_commit_kept v n n' done h w
  handle_event_kept State.StateType.fin v n n' done h w = same_store n n' (ground arith) w

  unsubscribe_kept :
      (id : ℕ) (n n' : Node) → unsubscribe id n ≡ ok n' → P n.messages → P n'.messages
  unfolding unsubscribe
  unsubscribe_kept id n n' h w =
      let (em, got, e) = >>=-eq-ok (cancel_subscription id n.messages.event_manager) _ h in
      same_store (set_event_manager em n) n' (ground arith) (k.signals n.messages em w)

  WorkStep_kept : (n n' : Node) → WorkStep b n n' → P n.messages → P n'.messages
  unfolding open_round propose subscribe accept_proposal
  WorkStep_kept n n' (deliver m h) w = deliver_kept m n n' h w
  WorkStep_kept n n' (listen id d h) w =
      let em = Events.subscribe id d n.messages.event_manager in
      notify_if_quorum_kept d.view d.message_type (set_event_manager em n) n' h
        (k.signals n.messages em w)
  WorkStep_kept n n' (unlisten id h) w = unsubscribe_kept id n n' h w
  WorkStep_kept n n' (start e) w = same_store n n' (ground arith) w
  WorkStep_kept n n' (offer rcc m h e) w = same_store n n' (ground arith) w
  WorkStep_kept n n' (run done h) w =
      handle_event_kept n.state.name (get_view n.state) n n' done h w
  WorkStep_kept n n' (watch v got h) w = handle_pre_prepare_kept v n n' got h w

  Step_kept : (n n' : Node) → Step b n n' → P n.messages → P n'.messages
  unfolding accept_proposal on_new_proposal on_round_certificate on_round_expired move_to_new_round
      send_prepare_message send_round_change_message insert_block
  Step_kept n n' (work s) w = WorkStep_kept n n' s w
  Step_kept n n' (jump round m h) w = same_store n n' (ground arith) w
  Step_kept n n' (hop round e) w = same_store n n' (ground arith) w
  Step_kept n n' (expire e) w = same_store n n' (ground arith) w
  Step_kept n n' (finish f e) w =
      subst (λ x. P x.messages) (sym e) (k.prunes n.state.view.height n.messages w)

  pub Reach_kept : {n n' : Node} → Reach b n n' → P n.messages → P n'.messages
  Reach_kept here w = w
  Reach_kept (next {n' = m} {n'' = m'} r s) w = Step_kept m m' s (Reach_kept r w)

  -- In a sequence that started without an error.
  pub sequence_kept :
      (h : ℕ) (n n' n'' : Node)
      → begin_sequence b h n ≡ (n', none)
      → P n.messages
      → Reach b n' n''
      → P n''.messages
  unfolding begin_sequence
  sequence_kept h n n' n'' e w steps =
      let pruned : prune_by_height h n.messages ≡ n'.messages = ground arith in
      Reach_kept steps (subst P pruned (k.prunes h n.messages w))
