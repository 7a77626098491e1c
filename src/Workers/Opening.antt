-- ===== src/Workers/Opening.antt =====
-- The worker `startRound` as a whole.
use go_ibft.Prelude.{
  ℕ, ◌≡◌, refl, ◌∙◌, Bool, true, false, Option, none, some, List, Result, ok, panic, ◌>>=◌, arith,
  ◌⊎◌, inl, inr, >>=-eq-ok, ◌==◌, nat_eq, ap,
}
use go_ibft.Proto
use go_ibft.Proto.{View, IbftMessage}
use go_ibft.State.{StateType, get_view}
use go_ibft.Backend.{Backend}
use go_ibft.Node.{Node}
use go_ibft.Rounds.{
  open_round, propose, build_proposal, handle_round_change_message, deliver, listen, unlisten,
  start, offer,
}
use go_ibft.Rounds.Invariant.{add_message-Keeps}
use go_ibft.Rounds.Working.{Works, here, next}
use go_ibft.Workers.{
  Event, Outcome, waiting, stopped, finished, node_of, poll, exact, run_states, wait_for_rcc,
  wait_and_build, if_built, start_round, and_then,
}
use go_ibft.Workers.Ending.{Ends, poll-Ends, bind-Ends, subscribed-Ends, and_then-Ends}
use go_ibft.Workers.Refining.{subscribe-state, unsubscribe-state}
use go_ibft.Workers.Looping.{IsFinal, run_states_lem}

-- While it waits for a certificate a worker only listens: the state is the one at the start.
abbrev Waits : Backend → Node → Node → Node → Type 0
Waits b n₀ n m = Works b n₀ m × (m.state ≡ n.state)

wait_for_rcc-Ends :
    (b : Backend) (id : ℕ) (v : View) (es : List Event) (n₀ n : Node)
    → Works b n₀ n
    → Ends (Waits b n₀ n) (λ msgs. Waits b n₀ n) (wait_for_rcc b id v es n)
unfolding wait_for_rcc
wait_for_rcc-Ends b id v es n₀ n r =
    let I : Node → Type 0 = Waits b n₀ n in
    let handle : ℕ → Node → Result (Node × Option (List IbftMessage)) =
      λ r' n₁. handle_round_change_message b v n₁ >>= λ got. ok (n₁, got) in
    subscribed-Ends I (λ msgs. I) id (exact Proto.MessageType.round_change v)
      (λ es' n'. poll b handle es' n') es n
      (λ n' l.
        poll-Ends b handle I (λ msgs. I)
          (λ m k k' h i. (next i.0 (deliver m h), (add_message-Keeps b m k k' h).state ∙ i.1))
          (λ r' k k' h i.
            let (got, _, e) = >>=-eq-ok (handle_round_change_message b v k) _ h in
            let same : k ≡ k' = ground arith in rw (← same) i)
          (λ r' k k' a h i.
            let (got, _, e) = >>=-eq-ok (handle_round_change_message b v k) _ h in
            let same : k ≡ k' = ground arith in rw (← same) i)
          es n'
          (
            next r (listen id (exact Proto.MessageType.round_change v) l),
            subscribe-state id _ n n' l,
          ))
      (λ m m' h i. (next i.0 (unlisten id h), unsubscribe-state id m m' h ∙ i.1))
      (λ a m m' h i. (next i.0 (unlisten id h), unsubscribe-state id m m' h ∙ i.1))

-- The proposal that a wait ends with is what `buildProposal` makes in the view of the node.
abbrev Built : Backend → Node → Node → IbftMessage → Node → Type 0
Built b n₀ n m k =
    Waits b n₀ n k
    × ((rcc : Option (List IbftMessage)) × (build_proposal b (get_view n.state) rcc ≡ ok (some m)))

if_built-Ends :
    (b : Backend) (n₀ n k : Node) (rcc : Option (List IbftMessage)) (es : List Event)
    (built : Option IbftMessage)
    → Waits b n₀ n k
    → build_proposal b (get_view n.state) rcc ≡ ok built
    → Ends (Waits b n₀ n) (Built b n₀ n) (ok (if_built built k es))
if_built-Ends b n₀ n k rcc es none w e = w
if_built-Ends b n₀ n k rcc es (some m) w e = (w, (rcc, e))

wait_and_build-Ends :
    (b : Backend) (id : ℕ) (es : List Event) (n₀ n : Node)
    → Works b n₀ n
    → Ends (Waits b n₀ n) (Built b n₀ n) (wait_and_build b id (get_view n.state) es n)
unfolding wait_and_build
wait_and_build-Ends b id es n₀ n r = go ((get_view n.state).round == 0)
  where
    v : View
    v = get_view n.state

    build :
        (rcc : Option (List IbftMessage)) (es' : List Event) (k : Node)
        → Waits b n₀ n k
        → Ends
            (Waits b n₀ n)
            (Built b n₀ n)
            (build_proposal b v rcc >>= λ built. ok (if_built built k es'))
    build rcc es' k w =
        bind-Ends (Waits b n₀ n) (Built b n₀ n) (build_proposal b v rcc) _
          (λ built e. if_built-Ends b n₀ n k rcc es' built w e)

    go :
        (t : Bool)
        → Ends (Waits b n₀ n) (Built b n₀ n) (elim t [
          | true ↦ build_proposal b v none >>= λ built. ok (if_built built n es)
          | false ↦ wait_for_rcc b id v es n >>= λ out. and_then out (λ msgs n' es'.
              build_proposal b v (some msgs) >>= λ built. ok (if_built built n' es'))
        ])
    go true = build none es n (r, refl)
    go false =
        and_then-Ends (Waits b n₀ n) (λ msgs. Waits b n₀ n) (Built b n₀ n)
          (wait_for_rcc b id v es n) _ (wait_for_rcc-Ends b id v es n₀ n r)
          (λ msgs k es' w. build (some msgs) es' k w)

-- Where the loop stands: it panicked, or it has a history from `n` and a result of it is final.
abbrev pub Returns : Backend → Node → Result (Option (Outcome (Unit {0}))) → Type 0
Returns b n o =
    (o ≡ panic)
    ⊎ ((out : Outcome (Unit {0})) × (o ≡ ok (some out)) × Works b n (node_of out) × IsFinal out)

-- `startRound`, with four turns of the loop over the states: unless something panics, what it
-- does to the node is a history of the work of a round, whatever happens while it waits, and the
-- four turns are enough; where it returns by itself, its node is in the fin state.
pub start_round_lem :
    (b : Backend) (id : ℕ) (ids : StateType → ℕ) (es : List Event) (n : Node)
    → Returns b n (start_round b id ids 4 es n)
unfolding start_round
start_round_lem b id ids es n = go (
    b.is_proposer b.id (get_view (open_round n).state).height (get_view (open_round n).state).round)
  where
    opened : Works b n (open_round n)
    opened = next here (start refl)

    then_run :
        (o : Result (Outcome IbftMessage))
        → Ends (Waits b n (open_round n)) (Built b n (open_round n)) o
        → Returns b n (
            o >>= λ out. elim out [
              | waiting n₁ ↦ ok (some (waiting n₁))
              | stopped n₁ es₁ ↦ ok (some (stopped n₁ es₁))
              | finished m n₁ es₁ ↦ run_states b ids 4 es₁ (propose m n₁)
            ])
    then_run panic h = inl refl
    then_run (ok (waiting k)) h = inr (waiting k, refl, h.0, tt)
    then_run (ok (stopped k es₁)) h = inr (stopped k es₁, refl, h.0, tt)
    then_run (ok (finished m k es₁)) h = run_states_lem b ids es₁ n (propose m k) (
        next h.0.0
          (offer h.1.0 m (ap (λ s. build_proposal b (get_view s) h.1.0) h.0.1 ∙ h.1.1) refl))

    go :
        (t : Bool)
        → Returns b n (elim t [
          | false ↦ run_states b ids 4 es (open_round n)
          | true ↦ wait_and_build b id (get_view (open_round n).state) es (open_round n) >>= λ out.
              elim out [
                | waiting n₁ ↦ ok (some (waiting n₁))
                | stopped n₁ es₁ ↦ ok (some (stopped n₁ es₁))
                | finished m n₁ es₁ ↦ run_states b ids 4 es₁ (propose m n₁)
              ]
        ])
    go false = run_states_lem b ids es n (open_round n) opened
    go true =
        then_run (wait_and_build b id (get_view (open_round n).state) es (open_round n))
          (wait_and_build-Ends b id es n (open_round n) opened)
