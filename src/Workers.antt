-- ===== src/Workers.antt =====
-- The workers of a round (core/ibft.go): the state machine (`startRound`, `runStates`, `runNewRound`,
-- `runPrepare`, `runCommit`, `runFin`), the watchers (`watchForFutureProposal`,
-- `watchForRoundChangeCertificates`), `waitForRCC` and `startRoundTimer`. A worker blocks in a select;
-- it is run on the list of what happens while it does, and stands waiting where the list ends.
pub mod Ending
pub mod Refining
pub mod Looping
pub mod Opening
pub mod Watching
mod Timing
pub mod Turning
pub mod Proposed
pub mod Progress
pub mod Finishing
pub mod Hopping
pub mod Certifying
pub mod Unmatched
pub mod Matched
use go_ibft.Prelude.{
  ℕ, zero, suc, Bool, true, false, Option, none, some, List, [], ◌∷◌, Result, ok, panic, ◌>>=◌, not,
  if◌then◌else◌, ◌==◌, nat_eq,
}
use go_ibft.Proto.{View, MessageType, IbftMessage, view_of}
use go_ibft.Proto
use go_ibft.Extract.{deref_view}
use go_ibft.State.{StateType, new_round, prepare, commit, fin, get_view, get_state_name}
use go_ibft.Events.{SubscriptionDetails}
use go_ibft.Backend.{Backend}
use go_ibft.Node.{Node, add_message}
use go_ibft.Node.Listening.{subscribe, unsubscribe}
use go_ibft.Proposals.{handle_pre_prepare}
use go_ibft.Rounds.{
  handle_event, handle_round_change_message, next_round, open_round, propose, build_proposal,
}

-- What happens while a worker is in a select: the context is done; the other channel is ready (for a
-- subscription, with the round that it holds); or `AddMessage` runs, which no select waits for.
pub data Event : Type 0 where
  cancelled : Event
  ready : ℕ → Event
  delivered : Option IbftMessage → Event

-- A worker still waits; it returned since the context was done; or it has a result. The events that
-- it has not seen are left.
pub data Outcome (A : Type 0) : Type 0 where
  waiting : Node → Outcome A
  stopped : Node → List Event → Outcome A
  finished : A → Node → List Event → Outcome A

abbrev pub node_of : {A : Type 0} → Outcome A → Node
node_of (waiting n) = n
node_of (stopped n es) = n
node_of (finished a n es) = n

-- `for { select { … } }`, with what the loop does when its channel is ready.
unfoldable pub poll :
    {A : Type 0}
    → Backend
    → (ℕ → Node → Result (Node × Option A))
    → List Event
    → Node
    → Result (Outcome A)
poll b handle [] n = ok (waiting n)
poll b handle (cancelled ∷ es) n = ok (stopped n es)
poll b handle (delivered m ∷ es) n = add_message b m n >>= λ n'. poll b handle es n'
poll b handle (ready r ∷ es) n = handle r n >>= λ out. elim out.1 [
  | none ↦ poll b handle es out.0
  | some a ↦ ok (finished a out.0 es)
]

-- What follows the end of a select.
abbrev pub and_then :
    {A B : Type 0} → Outcome A → (A → Node → List Event → Result (Outcome B)) → Result (Outcome B)
and_then (waiting n) k = ok (waiting n)
and_then (stopped n es) k = ok (stopped n es)
and_then (finished a n es) k = k a n es

-- The deferred `Unsubscribe` of a worker that returns.
abbrev pub close_subscription : {A : Type 0} → ℕ → Outcome A → Result (Outcome A)
close_subscription id (waiting n) = ok (waiting n)
close_subscription id (stopped n es) = unsubscribe id n >>= λ n'. ok (stopped n' es)
close_subscription id (finished a n es) = unsubscribe id n >>= λ n'. ok (finished a n' es)

-- A body between a subscription and its end.
unfoldable pub subscribed :
    {A : Type 0}
    → ℕ
    → SubscriptionDetails
    → (List Event → Node → Result (Outcome A))
    → List Event
    → Node
    → Result (Outcome A)
subscribed id d body es n = do n' ← subscribe id d n; out ← body es n'; close_subscription id out

-- A send to the main loop (`signalRoundExpired`, `signalRoundDone`, `signalNewRCC`,
-- `signalNewProposal`), or the wait for a timer: done when the channel is ready.
unfoldable pub signal_main : {A : Type 0} → Backend → A → List Event → Node → Result (Outcome A)
signal_main b a es n = poll b (λ r n'. ok (n', some a)) es n

abbrev pub exact : MessageType → View → SubscriptionDetails
exact t v = record { message_type = t; view = v; min_num_messages = 0; has_min_round = false }

abbrev pub from_round : MessageType → View → SubscriptionDetails
from_round t v = record { message_type = t; view = v; min_num_messages = 0; has_min_round = true }

-- What a worker of the state machine listens to; that of the fin state, which listens to nothing, is not asked.
abbrev pub message_type_of : StateType → MessageType
message_type_of new_round = Proto.MessageType.preprepare
message_type_of prepare = Proto.MessageType.prepare
message_type_of commit = Proto.MessageType.commit
message_type_of fin = Proto.MessageType.commit

abbrev pub when_done : Node × Bool → Node × Option (Unit {0})
when_done (n, true) = (n, some tt)
when_done (n, false) = (n, none)

-- What `runNewRound`, `runPrepare` and `runCommit` share: the view is the one at the start.
unfoldable pub run_worker :
    Backend → StateType → ℕ → List Event → Node → Result (Outcome (Unit {0}))
run_worker b t id es n =
    let v = get_view n.state in
    subscribed id (exact (message_type_of t) v)
      (λ es' n'. poll b (λ r n₁. handle_event b t v n₁ >>= λ out. ok (when_done out)) es' n') es n

abbrev pub run_new_round : Backend → ℕ → List Event → Node → Result (Outcome (Unit {0}))
run_new_round b id es n = run_worker b new_round id es n

abbrev pub run_prepare : Backend → ℕ → List Event → Node → Result (Outcome (Unit {0}))
run_prepare b id es n = run_worker b prepare id es n

abbrev pub run_commit : Backend → ℕ → List Event → Node → Result (Outcome (Unit {0}))
run_commit b id es n = run_worker b commit id es n

-- `runFin`: the signal that the round is done.
unfoldable pub run_fin : Backend → List Event → Node → Result (Outcome (Unit {0}))
run_fin b es n = signal_main b tt es n

-- The end of a turn: the loop ends with its context, and else goes on with the events left.
abbrev pub unless_over :
    Outcome (Unit {0})
    → (List Event → Node → Result (Option (Outcome (Unit {0}))))
    → Result (Option (Outcome (Unit {0})))
unless_over (waiting n) rest = ok (some (waiting n))
unless_over (stopped n es) rest = ok (some (stopped n es))
unless_over (finished u n es) rest = rest es n

-- The loop of `runStates` on fuel, which is `none` where it runs out; `ids` gives the identifiers of the
-- subscriptions.
unfoldable pub run_states :
    Backend → (StateType → ℕ) → ℕ → List Event → Node → Result (Option (Outcome (Unit {0})))
run_states b ids zero es n = ok none
run_states b ids (suc fuel) es n =
    let rest : List Event → Node → Result (Option (Outcome (Unit {0}))) = run_states b ids fuel in
    elim (get_state_name n.state) [
      | new_round ↦ run_new_round b (ids new_round) es n >>= λ out. unless_over out rest
      | prepare ↦ run_prepare b (ids prepare) es n >>= λ out. unless_over out rest
      | commit ↦ run_commit b (ids commit) es n >>= λ out. unless_over out rest
      | fin ↦ run_fin b es n >>= λ out. ok (some out)
    ]

-- `waitForRCC`; a stop is its nil.
unfoldable pub wait_for_rcc :
    Backend → ℕ → View → List Event → Node → Result (Outcome (List IbftMessage))
wait_for_rcc b id v es n =
    subscribed id (exact Proto.MessageType.round_change v)
      (λ es' n'. poll b (λ r n₁. handle_round_change_message b v n₁ >>= λ got. ok (n₁, got)) es' n')
      es n

-- A nil proposal makes `startRound` return.
abbrev pub if_built : Option IbftMessage → Node → List Event → Outcome IbftMessage
if_built none n es = stopped n es
if_built (some m) n es = finished m n es

-- `buildProposal` with its wait.
unfoldable pub wait_and_build :
    Backend → ℕ → View → List Event → Node → Result (Outcome IbftMessage)
wait_and_build b id v es n = elim (v.round == 0) [
  | true ↦ build_proposal b v none >>= λ built. ok (if_built built n es)
  | false ↦ wait_for_rcc b id v es n >>= λ out.
      and_then out
        (λ msgs n' es'. build_proposal b v (some msgs) >>= λ built. ok (if_built built n' es'))
]

-- The worker `startRound`. `id` is the identifier for the wait of a proposer, and the fuel that of the
-- loop over the states.
unfoldable pub start_round :
    Backend → ℕ → (StateType → ℕ) → ℕ → List Event → Node → Result (Option (Outcome (Unit {0})))
start_round b id ids fuel es n =
    let n' = open_round n in
    let v = get_view n'.state in
    elim (b.is_proposer b.id v.height v.round) [
      | false ↦ run_states b ids fuel es n'
      | true ↦ wait_and_build b id v es n' >>= λ out. elim out [
        | waiting n₁ ↦ ok (some (waiting n₁))
        | stopped n₁ es₁ ↦ ok (some (stopped n₁ es₁))
        | finished m n₁ es₁ ↦ run_states b ids fuel es₁ (propose m n₁)
      ]
    ]

abbrev pub with_round : ℕ → Option IbftMessage → Option (IbftMessage × ℕ)
with_round r none = none
with_round r (some m) = some (m, r)

-- The body of its loop for round `r`.
unfoldable pub look_for_proposal : Backend → ℕ → ℕ → Node → Result (Node × Option (IbftMessage × ℕ))
look_for_proposal b height r n =
    handle_pre_prepare b (record { height = height; round = r }) n >>= λ out.
    ok (out.0, with_round r out.1)

-- The worker `watchForFutureProposal`: the event that the main loop has received.
unfoldable pub watch_for_future_proposal :
    Backend → ℕ → List Event → Node → Result (Outcome (IbftMessage × ℕ))
watch_for_future_proposal b id es n =
    let v = get_view n.state in
    let from : View = record { height = v.height; round = next_round v.round } in
    subscribed id (from_round Proto.MessageType.preprepare from)
      (λ es' n'. do
        out ← poll b (look_for_proposal b v.height) es' n'
        and_then out (λ ev n₁ es₁. signal_main b ev es₁ n₁))
      es n

-- `rcc.RoundChangeMessages[0].View.Round`.
abbrev pub round_of_rcc : List IbftMessage → Result ℕ
round_of_rcc [] = panic
round_of_rcc (m ∷ ms) = deref_view (view_of m) λ v. ok v.round

abbrev pub hop_round : Option (List IbftMessage) → Result (Option ℕ)
hop_round none = ok none
hop_round (some msgs) = round_of_rcc msgs >>= λ r. ok (some r)

-- The body of its loop.
unfoldable pub look_for_certificate : Backend → View → ℕ → Node → Result (Node × Option ℕ)
look_for_certificate b v r n = do
  got ← handle_round_change_message b v n
  hop ← hop_round got
  ok (n, hop)

-- The worker `watchForRoundChangeCertificates`: the round that the main loop has received.
unfoldable pub watch_for_certificates : Backend → ℕ → List Event → Node → Result (Outcome ℕ)
watch_for_certificates b id es n =
    let v = get_view n.state in
    let from : View = record { height = v.height; round = next_round v.round } in
    subscribed id (from_round Proto.MessageType.round_change from)
      (λ es' n'. do
        out ← poll b (look_for_certificate b v) es' n'
        and_then out (λ round n₁ es₁. signal_main b round es₁ n₁))
      es n

-- The worker `startRoundTimer`; its first channel is that of the timer.
unfoldable pub start_round_timer : Backend → List Event → Node → Result (Outcome (Unit {0}))
start_round_timer b es n = do
  out ← signal_main b tt es n
  and_then out (λ u n' es'. signal_main b tt es' n')
