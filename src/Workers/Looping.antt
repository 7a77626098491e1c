-- ===== src/Workers/Looping.antt =====
-- The loop of `runStates`.
use go_ibft.Prelude.{
  ℕ, zero, suc, ◌<◌, ◌≡◌, refl, ◌∙◌, Option, none, some, List, Result, ok, panic, ◌>>=◌, arith, ◌⊎◌,
  inl, inr, ap,
}
use go_ibft.State.{StateType, new_round, prepare, commit, fin}
use go_ibft.Backend.{Backend}
use go_ibft.Node.{Node}
use go_ibft.Rounds.{deliver}
use go_ibft.Rounds.Invariant.{add_message-Keeps}
use go_ibft.Rounds.Working.{Works, next}
use go_ibft.Workers.{
  Event, Outcome, waiting, stopped, finished, node_of, poll, run_worker, run_new_round, run_prepare,
  run_commit, unless_over, run_fin, run_states, signal_main,
}
use go_ibft.Workers.Ending.{Ends, poll-Ends, weaken-Ends}
use go_ibft.Workers.Refining.{run_worker-Ends}

-- A result of the loop is reached in the fin state.
abbrev pub IsFinal : Outcome (Unit {0}) → Type 0
IsFinal (finished u n es) = n.state.name ≡ fin
IsFinal _ = Unit

-- The loop has not run out of fuel, its node has a history from `n`, and a result is final.
abbrev Completes : Backend → Node → Result (Option (Outcome (Unit {0}))) → Type 0
Completes b n panic = Unit
Completes b n (ok none) = ⊥
Completes b n (ok (some out)) = Works b n (node_of out) × IsFinal out

abbrev pub states_left : StateType → ℕ
states_left new_round = 3
states_left prepare = 2
states_left commit = 1
states_left fin = 0

final-Completes :
    (b : Backend) (n : Node) (o : Result (Outcome (Unit {0})))
    → Ends (λ m. Works b n m) (λ u m. Works b n m × (m.state.name ≡ fin)) o
    → Completes b n (o >>= λ out. ok (some out))
final-Completes b n panic h = tt
final-Completes b n (ok (waiting m)) h = (h, tt)
final-Completes b n (ok (stopped m es)) h = (h, tt)
final-Completes b n (ok (finished u m es)) h = h

worker-Completes :
    (b : Backend) (n : Node) (Q : Unit {0} → Node → Type 0) (o : Result (Outcome (Unit {0})))
    (rest : List Event → Node → Result (Option (Outcome (Unit {0}))))
    → Ends (λ m. Works b n m) Q o
    → ((u : Unit {0}) (m : Node) (es : List Event) → Q u m → Completes b n (rest es m))
    → Completes b n (o >>= λ out. unless_over out rest)
worker-Completes b n Q panic rest h k = tt
worker-Completes b n Q (ok (waiting m)) rest h k = (h, tt)
worker-Completes b n Q (ok (stopped m es)) rest h k = (h, tt)
worker-Completes b n Q (ok (finished u m es)) rest h k = k u m es h

run_fin-Ends :
    (b : Backend) (es : List Event) (n₀ n : Node)
    → n.state.name ≡ fin
    → Works b n₀ n
    → Ends (λ m. Works b n₀ m) (λ u m. Works b n₀ m × (m.state.name ≡ fin)) (run_fin b es n)
unfolding run_fin signal_main
run_fin-Ends b es n₀ n e r =
    let I : Node → Type 0 = λ m. Works b n₀ m × (m.state.name ≡ fin) in
    weaken-Ends {P = I} {P' = λ m. Works b n₀ m} {Q = λ u. I} {Q' = λ u. I}
      (poll b (λ r' n'. ok (n', some tt)) es n) (λ m i. i.0) (λ u m q. q)
      (poll-Ends b (λ r' n'. ok (n', some tt)) I (λ u. I)
        (λ m k k' h i.
          (next i.0 (deliver m h), ap (λ s. s.name) (add_message-Keeps b m k k' h).state ∙ i.1))
        (λ r' k k' h i. absurd (ground arith))
        (λ r' k k' u h i. let same : k ≡ k' = ground arith in rw (← same) i) es n (r, e))

run_states-Completes :
    (b : Backend) (ids : StateType → ℕ) (fuel : ℕ) (es : List Event) (n₀ n : Node)
    → Works b n₀ n
    → states_left n.state.name < fuel
    → Completes b n₀ (run_states b ids fuel es n)
unfolding run_states
run_states-Completes b ids zero es n₀ n r h = elim h [ ]
run_states-Completes b ids (suc fuel) es n₀ n r h =
    go n.state.name refl (λ es' n' r' l. run_states-Completes b ids fuel es' n₀ n' r' l)
  where
    go :
        (t : StateType)
        → n.state.name ≡ t
        → ((es' : List Event) (n' : Node)
            → Works b n₀ n'
            → states_left n'.state.name < fuel
            → Completes b n₀ (run_states b ids fuel es' n'))
        → let rest : List Event → Node → Result (Option (Outcome (Unit {0}))) =
            run_states b ids fuel in
          Completes b n₀ (elim t [
            | new_round ↦ run_new_round b (ids new_round) es n >>= λ out. unless_over out rest
            | prepare ↦ run_prepare b (ids prepare) es n >>= λ out. unless_over out rest
            | commit ↦ run_commit b (ids commit) es n >>= λ out. unless_over out rest
            | fin ↦ run_fin b es n >>= λ out. ok (some out)
          ])
    go fin e k = final-Completes b n₀ (run_fin b es n) (run_fin-Ends b es n₀ n e r)
    go new_round e k =
        worker-Completes b n₀ (λ u m. Works b n₀ m × (m.state.name ≡ prepare))
          (run_worker b new_round (ids new_round) es n) (λ es' n'. run_states b ids fuel es' n')
          (run_worker-Ends b new_round (ids new_round) es n₀ n (λ x. cc) e r)
          (λ u m es' q. k es' m q.0 (ground arith))
    go prepare e k =
        worker-Completes b n₀ (λ u m. Works b n₀ m × (m.state.name ≡ commit))
          (run_worker b prepare (ids prepare) es n) (λ es' n'. run_states b ids fuel es' n')
          (run_worker-Ends b prepare (ids prepare) es n₀ n (λ x. cc) e r)
          (λ u m es' q. k es' m q.0 (ground arith))
    go commit e k =
        worker-Completes b n₀ (λ u m. Works b n₀ m × (m.state.name ≡ fin))
          (run_worker b commit (ids commit) es n) (λ es' n'. run_states b ids fuel es' n')
          (run_worker-Ends b commit (ids commit) es n₀ n (λ x. cc) e r)
          (λ u m es' q. k es' m q.0 (ground arith))

-- The worker of the states, four turns of whose loop are enough: unless something panics it has a
-- history from its node, through the steps of a sequence, and where it returns by itself its node is in
-- the fin state.
pub run_states_lem :
    (b : Backend) (ids : StateType → ℕ) (es : List Event) (n₀ n : Node)
    → Works b n₀ n
    → (run_states b ids 4 es n ≡ panic)
      ⊎ ((out : Outcome (Unit {0})) × (run_states b ids 4 es n ≡ ok (some out))
          × Works b n₀ (node_of out)
          × IsFinal out)
run_states_lem b ids es n₀ n r =
    go (run_states b ids 4 es n) refl (run_states-Completes b ids 4 es n₀ n r (below n.state.name))
  where
    below : (t : StateType) → states_left t < 4
    below new_round = omega arith
    below prepare = omega arith
    below commit = omega arith
    below fin = omega arith

    go :
        (o : Result (Option (Outcome (Unit {0}))))
        → run_states b ids 4 es n ≡ o
        → Completes b n₀ o
        → (run_states b ids 4 es n ≡ panic)
          ⊎ ((out : Outcome (Unit {0})) × (run_states b ids 4 es n ≡ ok (some out))
              × Works b n₀ (node_of out)
              × IsFinal out)
    go panic e c = inl e
    go (ok none) e c = absurd c
    go (ok (some out)) e c = inr (out, e, c.0, c.1)
