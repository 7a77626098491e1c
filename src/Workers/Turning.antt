-- ===== src/Workers/Turning.antt =====
-- A turn of the state machine whose subscription wakes its worker: the worker subscribes, its handler is
-- done at once, and the subscription ends.
use mathlib.Core.Path.{subst}
use go_ibft.Prelude.{
  ℕ, ◌≡◌, refl, sym, ap, ◌∙◌, true, false, some, List, ◌∷◌, nat_eq, str_eq, contains, arith, inl,
  inr, Bool-cases, ok,
}
use go_ibft.Prelude.Assoc.{lookup, erase}
use go_ibft.Prelude.Int.{negsuc, ◌+ℤ◌}
use go_ibft.State.{StateType, get_view}
use go_ibft.Events
use go_ibft.Events.{
  SubscriptionDetails, EventSubscription, EventManager, new_subscription, close,
  cancel_subscription,
}
use go_ibft.Events.Manager.{ids, IsCounted}
use go_ibft.Events.Open.{KeepsOpen, signal_event-KeepsOpen, cancel_subscription-KeepsOpen}
use go_ibft.Messages.Stored.{is_known}
use go_ibft.Backend.{Backend}
use go_ibft.Node.{Node, signal}
use go_ibft.Node.Listening.{subscribe, unsubscribe, set_event_manager}
use go_ibft.Node.Waking.{subscription, subscribe-pending, has_enough, notify_if_quorum-run}
use go_ibft.Rounds.{handle_event}
use go_ibft.Workers.{Event, ready, finished, poll, exact, message_type_of, run_worker, subscribed}

-- A subscription changes nothing but the event manager, which has the new subscription.
subscribe-shape :
    (id : ℕ) (d : SubscriptionDetails) (n n' : Node)
    → subscribe id d n ≡ ok n'
    → is_known d.message_type ≡ true
    → (em : EventManager) × (set_event_manager em n ≡ n')
      × KeepsOpen (Events.subscribe id d n.messages.event_manager) em
unfolding subscribe
subscribe-shape id d n n' h known =
    let em : EventManager = Events.subscribe id d n.messages.event_manager in
    let n₁ : Node = set_event_manager em n in
    let run = notify_if_quorum-run d.view d.message_type n₁ known in
    elim (Bool-cases (has_enough n₁ d.view d.message_type)) [
      | inl q ↦ (
        Events.signal_event d.message_type d.view em,
        (let e : signal d.message_type d.view n₁ ≡ n' = ground (arith, h, run, q) in e),
        signal_event-KeepsOpen d.message_type d.view em,
      )
      | inr q ↦ (
        em,
        (let e : n₁ ≡ n' = ground (arith, h, run, q) in e),
        record { same_ids = refl; same_number = refl },
      )
    ]

-- The end of an open subscription changes nothing but the event manager.
unsubscribe-held :
    (id : ℕ) (n : Node) (es : EventSubscription)
    → subscription id n ≡ some es
    → es.done ≡ false
    → (em : EventManager) × (cancel_subscription id n.messages.event_manager ≡ ok em)
      × (unsubscribe id n ≡ ok (set_event_manager em n))
unfolding unsubscribe cancel_subscription close
unsubscribe-held id n es s d = (
  record {
    subscriptions = erase id n.messages.event_manager.subscriptions;
    num_subscriptions = n.messages.event_manager.num_subscriptions +ℤ negsuc 0;
  },
  ground (arith, s, d),
  ground (arith, s, d),
)

-- Where the handler is done whatever the subscriptions are, and leaves them, the worker returns as soon
-- as its subscription wakes it, with what the handler achieves, if that is not about the subscriptions.
-- Its own subscription is gone, and the others are open as before.
pub run_worker_turn :
    (P : Node → Type 0) (b : Backend) (t : StateType) (id r : ℕ) (es : List Event) (n : Node)
    → is_known (message_type_of t) ≡ true
    → IsCounted n.messages.event_manager
    → contains (ids n.messages.event_manager.subscriptions) id ≡ false
    → ((em : EventManager) (m : Node) → P m → P (set_event_manager em m))
    → ((em : EventManager)
        → (m : Node) × (handle_event b t (get_view n.state) (set_event_manager em n) ≡ ok (m, true))
          × (m.messages.event_manager ≡ em)
          × P m)
    → (n' : Node) × (run_worker b t id (ready r ∷ es) n ≡ ok (finished tt n' es))
      × P n'
      × KeepsOpen n.messages.event_manager n'.messages.event_manager
unfolding run_worker subscribed poll new_subscription
run_worker_turn P b t id r es n known c new keeps handler =
    let v = get_view n.state in
    let d = exact (message_type_of t) v in
    let (n₁, run, held) = subscribe-pending id d n known c new in
    let (em, shape, opened) = subscribe-shape id d n n₁ run known in
    let (m, handled, same, p) = handler em in
    let at₁ : handle_event b t v n₁ ≡ ok (m, true) =
      subst (λ x. handle_event b t v x ≡ ok (m, true)) shape handled in
    let has_em : n₁.messages.event_manager ≡ em = ap (λ x. x.messages.event_manager) (sym shape) in
    let found = ap (λ x. lookup id x.subscriptions) (sym has_em) ∙ held in
    let (em', cancelled, closed) =
      unsubscribe-held id m _ (ap (λ x. lookup id x.subscriptions) same ∙ found) refl in
    (
      set_event_manager em' m,
      ground (arith, run, at₁, closed),
      keeps em' m p,
      cancel_subscription-KeepsOpen id d n.messages.event_manager em em' _ c new opened found refl
          (ap (λ x. cancel_subscription id x) (sym same) ∙ cancelled),
    )
