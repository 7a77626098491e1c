-- ===== src/Node/Waking.antt =====
-- When the store wakes a subscription: `AddMessage` and `subscribe` with `SignalEvent`.
use go_ibft.Prelude.{
  ℕ, ◌≡◌, refl, ◌∙◌, ap, Bool, true, false, Option, none, some, [], ◌∷◌, nat_eq, if◌then◌else◌,
  Bool-cases, inl, inr, arith, ok, >>=-eq-ok, contains,
}
use go_ibft.Prelude.Assoc.{lookup}
use go_ibft.Proto.{
  MessageType, preprepare, prepare, commit, round_change, unknown, View, IbftMessage, view_of,
  type_of,
}
use go_ibft.Events
use go_ibft.Events.{
  SubscriptionDetails, EventSubscription, new_subscription, push_event, signal_event,
  event_supported, offer,
}
use go_ibft.Events.Manager.{ids, IsCounted, subscribe-IsCounted, lookup-signal_event}
use go_ibft.Messages.{
  Messages, get_valid_messages, get_proto_messages, sort_messages, ProtoMessages, get_message_map,
}
use go_ibft.Messages
use go_ibft.Messages.Stored.{is_known}
use go_ibft.Messages.Valid.{values}
use go_ibft.Messages.WellFormed.{same_type_refl}
use go_ibft.Backend.{Backend}
use go_ibft.Node.{
  Node, add_message, is_acceptable_message, notify_if_quorum, has_quorum_by_msg_type, signal,
}
use go_ibft.Node.Listening.{set_event_manager, subscribe}

sort_messages-all : (pm : ProtoMessages) → sort_messages (λ _. ok true) pm ≡ ok (values pm, [])
unfolding sort_messages
sort_messages-all [] = refl
sort_messages-all ((k, m) ∷ pm) = ground (arith, sort_messages-all pm)

get_valid_messages-all :
    (v : View) (t : MessageType) (ms : Messages)
    → is_known t ≡ true
    → get_valid_messages v t (λ _. ok true) ms ≡ ok (ms, values (get_proto_messages v t ms))
unfolding get_valid_messages
get_valid_messages-all v t ms known = ground (arith, sort_messages-all (get_proto_messages v t ms))

-- Whether the messages that a node holds for a view are enough for their type.
abbrev pub has_enough : Node → View → MessageType → Bool
has_enough n v t = has_quorum_by_msg_type n (values (get_proto_messages v t n.messages)) t

pub notify_if_quorum-run :
    (v : View) (t : MessageType) (n : Node)
    → is_known t ≡ true
    → notify_if_quorum v t n ≡ ok (if has_enough n v t then signal t v n else n)
unfolding notify_if_quorum
notify_if_quorum-run v t n known = ground (arith, get_valid_messages-all v t n.messages known)

-- The subscription that a node holds under an identifier.
abbrev pub subscription : ℕ → Node → Option EventSubscription
subscription id n = lookup id n.messages.event_manager.subscriptions

has_enough-set_event_manager :
    (em : Events.EventManager) (n : Node) (v : View) (t : MessageType)
    → has_enough (set_event_manager em n) v t ≡ has_enough n v t
unfolding has_quorum_by_msg_type get_proto_messages
has_enough-set_event_manager em n v preprepare = refl
has_enough-set_event_manager em n v prepare = refl
has_enough-set_event_manager em n v commit = refl
has_enough-set_event_manager em n v round_change = refl
has_enough-set_event_manager em n v (unknown k) = refl

add_message-event_manager :
    (m : IbftMessage) (ms ms' : Messages)
    → Messages.add_message m ms ≡ ok ms'
    → ms'.event_manager ≡ ms.event_manager
unfolding Messages.add_message
add_message-event_manager m ms ms' h = ground arith

-- What the signal does to one subscription.
notify_if_quorum-subscription :
    (v : View) (t : MessageType) (n n' : Node) (id : ℕ) (es : EventSubscription)
    → is_known t ≡ true
    → notify_if_quorum v t n ≡ ok n'
    → IsCounted n.messages.event_manager
    → subscription id n ≡ some es
    → (subscription id n' ≡ some (if has_enough n v t then push_event t v es else es))
      × (has_enough n' v t ≡ has_enough n v t)
notify_if_quorum-subscription v t n n' id es known run c s = elim (Bool-cases (has_enough n v t)) [
  | inl q ↦
      let e : signal t v n ≡ n' = ground (arith, notify_if_quorum-run v t n known) in
      (
        rw (← e, q) (lookup-signal_event id t v n.messages.event_manager es c s),
        rw (← e) (has_enough-set_event_manager (signal_event t v n.messages.event_manager) n v t),
      )
  | inr q ↦
      let e : n ≡ n' = ground (arith, notify_if_quorum-run v t n known) in (rw (← e, q) s, rw (← e))
]

-- Where a message that `AddMessage` lets in for the node's height leaves the node with enough messages
-- of its type for its view, every subscription of a counted manager has been pushed the event; where
-- it does not, every subscription is left as it was.
pub add_message-signals :
    (b : Backend) (n n' : Node) (m : IbftMessage) (v : View) (id : ℕ) (es : EventSubscription)
    → is_acceptable_message b n m ≡ true
    → is_known (type_of m) ≡ true
    → view_of m ≡ some v
    → v.height ≡ n.state.view.height
    → add_message b (some m) n ≡ ok n'
    → IsCounted n.messages.event_manager
    → subscription id n ≡ some es
    → subscription id n'
      ≡ some (if has_enough n' v (type_of m) then push_event (type_of m) v es else es)
unfolding add_message
add_message-signals b n n' m v id es a known e h run c s =
    let (store, got, rest) = >>=-eq-ok (Messages.add_message m n.messages) _ (rw a at run) in
    let n₁ : Node = record n { messages = store } in
    let same : store.event_manager ≡ n.messages.event_manager =
      add_message-event_manager m n.messages store got in
    let notified : notify_if_quorum v (type_of m) n₁ ≡ ok n' = ground arith in
    let (out, enough) =
      notify_if_quorum-subscription v (type_of m) n₁ n' id es known notified (rw same c)
        (ap (λ em. lookup id em.subscriptions) same ∙ s) in
    rw enough out

push_event-new_subscription :
    (d : SubscriptionDetails)
    → push_event d.message_type d.view (new_subscription d)
      ≡ record (new_subscription d) { notify_ch = some d.view.round }
unfolding push_event event_supported new_subscription
push_event-new_subscription d = ground (arith, same_type_refl d.message_type)

-- With a counted manager and a known type: a subscription under a new identifier finds the round
-- of its view pending exactly if the node holds enough messages for that view already.
pub subscribe-pending :
    (id : ℕ) (d : SubscriptionDetails) (n : Node)
    → is_known d.message_type ≡ true
    → IsCounted n.messages.event_manager
    → contains (ids n.messages.event_manager.subscriptions) id ≡ false
    → (n' : Node) × (subscribe id d n ≡ ok n')
      × (subscription id n'
          ≡ some (record (new_subscription d) {
            notify_ch = if has_enough n d.view d.message_type then some d.view.round else none;
          }))
unfolding subscribe new_subscription
subscribe-pending id d n known c new =
    let em = Events.subscribe id d n.messages.event_manager in
    let n₁ : Node = set_event_manager em n in
    let (counted, found) = subscribe-IsCounted id d n.messages.event_manager c new in
    let made : subscription id n₁ ≡ some (new_subscription d) = ground (arith, found id) in
    let run = notify_if_quorum-run d.view d.message_type n₁ known in
    let n' : Node =
      if has_enough n₁ d.view d.message_type then signal d.message_type d.view n₁ else n₁ in
    let (out, _) =
      notify_if_quorum-subscription d.view d.message_type n₁ n' id (new_subscription d) known run
        counted made in
    (
      n',
      run,
      ground (
        arith,
        out,
        push_event-new_subscription d,
        has_enough-set_event_manager em n d.view d.message_type,
      ),
    )
