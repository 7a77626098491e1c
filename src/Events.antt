-- ===== src/Events.antt =====
-- Subscriptions to message events (messages/event_subscription.go) and their manager
-- (messages/event_manager.go). A channel of capacity one is an option; `doneCh` carries nothing and
-- is only ever closed; `outputCh` is closed when the worker has stopped. The random identifier of a
-- new subscription is an argument.
pub mod Delivery
pub mod Manager
pub mod Open
use go_ibft.Prelude.{
  ℕ, Bool, true, false, Option, none, some, List, [], ◌∷◌, Result, ok, panic, ◌>>=◌, ◌≡◌, ◌≢◌, ltb,
  not, ◌==◌, nat_eq, nat_beq, if◌then◌else◌,
}
use go_ibft.Prelude.Int.{ℤ, pos, negsuc, ◌+ℤ◌}
use go_ibft.Prelude.Assoc.{lookup, insert, erase}
use go_ibft.Proto.{MessageType, same_type, View}

pub record SubscriptionDetails : Type 0 where
  pub message_type : MessageType
  pub view : View
  pub min_num_messages : ℕ
  pub has_min_round : Bool

-- Where `runLoop` stands: at the outer select, at the inner one with a round, or returned.
pub data Worker : Type 0 where
  waiting stopped : Worker
  holding : ℕ → Worker

pub record EventSubscription : Type 0 where
  pub details : SubscriptionDetails
  pub output_ch : Option ℕ
  pub done : Bool
  pub notify_ch : Option ℕ
  pub worker : Worker

unfoldable pub event_supported : EventSubscription → MessageType → View → Bool
event_supported es t v =
    if not (v.height == es.details.view.height)
    then false
    else if es.details.has_min_round
    then (if ltb v.round es.details.view.round then false else same_type t es.details.message_type)
    else if not (v.round == es.details.view.round)
    then false
    else same_type t es.details.message_type

-- A full channel keeps what it holds, and the new event is dropped.
abbrev pub offer : Option ℕ → ℕ → Option ℕ
offer none r = some r
offer (some r') r = some r'

unfoldable pub push_event : MessageType → View → EventSubscription → EventSubscription
push_event t v es =
    if not (event_supported es t v)
    then es
    else record es { notify_ch = offer es.notify_ch v.round }

-- `close(es.doneCh)` panics on a channel that is closed already.
unfoldable pub close : EventSubscription → Result EventSubscription
close es = if es.done then panic else ok (record es { done = true })

-- One step of `runLoop`, or of the subscriber that reads `outputCh`. A closed `doneCh` may win any
-- select, and does not have to.
pub data Step (es : EventSubscription) (es' : EventSubscription) : Type 0 where
  take :
      (r : ℕ)
      → es.worker ≡ waiting
      → es.notify_ch ≡ some r
      → es' ≡ record es { notify_ch = none; worker = holding r }
      → Step es es'
  pass :
      (r : ℕ)
      → es.worker ≡ holding r
      → es.output_ch ≡ none
      → es' ≡ record es { output_ch = some r; worker = waiting }
      → Step es es'
  stop : es.done ≡ true → es.worker ≢ stopped → es' ≡ record es { worker = stopped } → Step es es'
  read : (r : ℕ) → es.output_ch ≡ some r → es' ≡ record es { output_ch = none } → Step es es'

pub record EventManager : Type 0 where
  pub subscriptions : List (ℕ × EventSubscription)
  pub num_subscriptions : ℤ

unfoldable pub new_event_manager : EventManager
new_event_manager = record { subscriptions = []; num_subscriptions = pos 0 }

unfoldable pub new_subscription : SubscriptionDetails → EventSubscription
new_subscription details = record {
  details = details;
  output_ch = none;
  done = false;
  notify_ch = none;
  worker = waiting;
}

unfoldable pub subscribe : ℕ → SubscriptionDetails → EventManager → EventManager
subscribe id details em = record {
  subscriptions = insert id (new_subscription details) em.subscriptions;
  num_subscriptions = em.num_subscriptions +ℤ pos 1;
}

-- The worker of a cancelled subscription runs on until it sees the closed channel; nothing else
-- reaches it.
unfoldable pub cancel_subscription : ℕ → EventManager → Result EventManager
cancel_subscription id em = elim (lookup id em.subscriptions) [
  | none ↦ ok em
  | some es ↦ do
    closed ← close es
    ok (record {
      subscriptions = erase id em.subscriptions;
      num_subscriptions = em.num_subscriptions +ℤ negsuc 0;
    })
]

unfoldable pub close_all : List (ℕ × EventSubscription) → Result (List (ℕ × EventSubscription))
close_all [] = ok []
close_all ((id, es) ∷ rest) = do es' ← close es; rest' ← close_all rest; ok ((id, es') ∷ rest')

unfoldable pub close_manager : EventManager → Result EventManager
close_manager em = do
  closed ← close_all em.subscriptions
  ok (record { subscriptions = closed; num_subscriptions = pos 0 })

abbrev pub is_zero : ℤ → Bool
is_zero (pos n) = nat_beq n 0
is_zero (negsuc n) = false

unfoldable pub push_all :
    MessageType → View → List (ℕ × EventSubscription) → List (ℕ × EventSubscription)
push_all t v [] = []
push_all t v ((id, es) ∷ rest) = (id, push_event t v es) ∷ push_all t v rest

unfoldable pub signal_event : MessageType → View → EventManager → EventManager
signal_event t v em =
    if is_zero em.num_subscriptions
    then em
    else record em { subscriptions = push_all t v em.subscriptions }
