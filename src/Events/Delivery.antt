-- ===== src/Events/Delivery.antt =====
-- What a subscription delivers: `eventSupported`, `pushEvent` and `runLoop` of
-- messages/event_subscription.go.
use go_ibft.Prelude.{
  ◌⊎◌, ok, panic, ℕ, ◌≤◌, ◌≡◌, refl, ◌∙◌, ◌≢◌, ◌↔◌, true, false, Option, none, some, arith, inl,
  inr, Bool-cases,
}
use go_ibft.Proto.{MessageType, same_type, View}
use go_ibft.Events.{
  SubscriptionDetails, Worker, waiting, stopped, holding, EventSubscription, event_supported, Step,
  push_event, close, take, pass, stop, read, offer,
}

-- The rounds that the details ask for.
abbrev pub Wanted : SubscriptionDetails → ℕ → Type 0
Wanted d r =
    (d.has_min_round ≡ true → d.view.round ≤ r) × (d.has_min_round ≡ false → r ≡ d.view.round)

-- An event is for the subscriber exactly if its type and height match and its round is wanted.
event_supported_iff :
    (es : EventSubscription) (t : MessageType) (v : View)
    → (event_supported es t v ≡ true) ↔ (
        (v.height ≡ es.details.view.height)
        × Wanted es.details v.round
        × (same_type t es.details.message_type ≡ true))
unfolding event_supported
event_supported_iff es t v = (λ h. ground arith, λ h. ground arith)

abbrev OfOption : (ℕ → Type 0) → Option ℕ → Type 0
OfOption P none = Unit
OfOption P (some r) = P r

abbrev OfWorker : (ℕ → Type 0) → Worker → Type 0
OfWorker P waiting = Unit
OfWorker P stopped = Unit
OfWorker P (holding r) = P r

-- Every round on its way to the subscriber is one that it asked for.
pub record IsRelevant (es : EventSubscription) : Type 0 where
  pub notified : OfOption (Wanted es.details) es.notify_ch
  pub held : OfWorker (Wanted es.details) es.worker
  pub out : OfOption (Wanted es.details) es.output_ch

-- A history of a subscription: events pushed, steps of the worker and the reader, and the close.
pub data Reach (es : EventSubscription) : EventSubscription → Type 0 where
  here : Reach es es
  pushed :
      {es' : EventSubscription} (t : MessageType) (v : View)
      → Reach es es'
      → Reach es (push_event t v es')
  stepped : {es' es'' : EventSubscription} → Reach es es' → Step es' es'' → Reach es es''
  closed : {es' es'' : EventSubscription} → Reach es es' → close es' ≡ ok es'' → Reach es es''

offer_keeps : (P : ℕ → Type 0) (c : Option ℕ) (r : ℕ) → OfOption P c → P r → OfOption P (offer c r)
offer_keeps P none r h p = p
offer_keeps P (some r') r h p = h

push-IsRelevant :
    (es : EventSubscription) (t : MessageType) (v : View)
    → IsRelevant es
    → IsRelevant (push_event t v es)
unfolding push_event
push-IsRelevant es t v h = elim (Bool-cases (event_supported es t v)) [
  | inl e ↦
      let w = ((event_supported_iff es t v).0 e).1 in
      rw (e, push_event)
        (record {
          notified = offer_keeps (Wanted es.details) es.notify_ch v.round h.notified w;
          held = h.held;
          out = h.out;
        })
  | inr e ↦ rw (e, push_event) h
]

Step-IsRelevant : {es es' : EventSubscription} → Step es es' → IsRelevant es → IsRelevant es'
Step-IsRelevant (take r w n e) h = ground arith
Step-IsRelevant (pass r w n e) h = ground arith
Step-IsRelevant (stop d w e) h = ground arith
Step-IsRelevant (read r o e) h = ground arith

-- Through every history of a subscription that starts with relevant rounds only: each round that
-- is pending, held by the worker, or ready to be read is one that the subscriber asked for.
Reach-IsRelevant : {es es' : EventSubscription} → IsRelevant es → Reach es es' → IsRelevant es'
unfolding close
Reach-IsRelevant h here = h
Reach-IsRelevant h (pushed {es' = e} t v r) = push-IsRelevant e t v (Reach-IsRelevant h r)
Reach-IsRelevant h (stepped r s) = Step-IsRelevant s (Reach-IsRelevant h r)
Reach-IsRelevant h (closed {es' = e} r c) = let ih = Reach-IsRelevant h r in ground arith

-- Steps of the worker and of the reader alone.
pub data Run (es : EventSubscription) : EventSubscription → Type 0 where
  here : Run es es
  next : {es' es'' : EventSubscription} → Run es es' → Step es' es'' → Run es es''

abbrev Outputs : EventSubscription → ℕ → Option ℕ → Type 0
Outputs es r n =
    (es' : EventSubscription) × Run es es'
    × (es'.output_ch ≡ some r)
    × (es'.worker ≡ waiting)
    × (es'.notify_ch ≡ n)

-- A held round goes out, after the reader has emptied the channel if need be.
hand_out :
    {es : EventSubscription} (es' : EventSubscription) (r : ℕ)
    → Run es es'
    → es'.worker ≡ holding r
    → Outputs es r es'.notify_ch
hand_out {es} es' r run w = go es'.output_ch refl
  where
    go : (o : Option ℕ) → es'.output_ch ≡ o → Outputs es r es'.notify_ch
    go none e = (
      record es' { output_ch = some r; worker = waiting },
      next run (pass r w e refl),
      refl,
      refl,
      refl,
    )
    go (some q) e = (
      record es' { output_ch = some r; worker = waiting },
      next {es' = record es' { output_ch = none }} (next run (read q e refl)) (pass r w refl refl),
      refl,
      refl,
      refl,
    )

take_out :
    {es : EventSubscription} (es' : EventSubscription) (r : ℕ)
    → Run es es'
    → es'.worker ≡ waiting
    → es'.notify_ch ≡ some r
    → Outputs es r none
take_out es' r run w n =
    hand_out (record es' { notify_ch = none; worker = holding r }) r (next run (take r w n refl))
      refl

-- A pending round reaches the reader, whatever the worker was doing, as long as it runs.
pub pending_delivered :
    (es : EventSubscription) (r : ℕ)
    → es.worker ≢ stopped
    → es.notify_ch ≡ some r
    → (es' : EventSubscription) × Run es es' × (es'.output_ch ≡ some r)
pending_delivered es r w n = go es.worker refl
  where
    go :
        (k : Worker)
        → es.worker ≡ k
        → (es' : EventSubscription) × Run es es' × (es'.output_ch ≡ some r)
    go waiting e = let (es', run, out, _, _) = take_out es r here e n in (es', run, out)
    go stopped e = absurd (w e)
    go (holding q) e =
        let (es₁, run₁, _, w₁, n₁) = hand_out es q here e in
        let (es', run, out, _, _) = take_out es₁ r run₁ w₁ (n₁ ∙ n) in (es', run, out)

-- No wakeup is lost while the worker runs and the rounds on their way are relevant: after a
-- supported event some wanted round is pending, the one that was or else the new one, and the
-- worker and the reader can bring that round out.
pub pushed_delivered :
    (es : EventSubscription) (t : MessageType) (v : View)
    → IsRelevant es
    → es.worker ≢ stopped
    → event_supported es t v ≡ true
    → (r : ℕ) × ((push_event t v es).notify_ch ≡ some r)
      × Wanted es.details r
      × ((es.notify_ch ≡ some r) ⊎ (es.notify_ch ≡ none) × (r ≡ v.round))
      × ((es' : EventSubscription) × Run (push_event t v es) es' × (es'.output_ch ≡ some r))
unfolding push_event
pushed_delivered es t v h w s = go es.notify_ch refl
  where
    wanted : Wanted es.details v.round
    wanted = ((event_supported_iff es t v).0 s).1

    go :
        (o : Option ℕ)
        → es.notify_ch ≡ o
        → (r : ℕ) × ((push_event t v es).notify_ch ≡ some r)
          × Wanted es.details r
          × ((es.notify_ch ≡ some r) ⊎ (es.notify_ch ≡ none) × (r ≡ v.round))
          × ((es' : EventSubscription) × Run (push_event t v es) es' × (es'.output_ch ≡ some r))
    go none e = (
      v.round,
      ground arith,
      wanted,
      inr (e, refl),
      pending_delivered (push_event t v es) v.round (ground arith) (ground arith),
    )
    go (some q) e = (
      q,
      ground arith,
      rw e at h.notified,
      inl e,
      pending_delivered (push_event t v es) q (ground arith) (ground arith),
    )

-- A close that succeeds lets a running worker stop, and any further close panics.
pub closed_stops :
    (es es' : EventSubscription)
    → close es ≡ ok es'
    → es.worker ≢ stopped
    → (close es' ≡ panic) × Step es' (record es' { worker = stopped })
unfolding close
closed_stops es es' h w = (ground arith, stop (ground arith) (ground arith) refl)
