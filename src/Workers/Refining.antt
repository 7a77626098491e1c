-- ===== src/Workers/Refining.antt =====
-- The workers as histories of a node, and the end of the loop over the states.
use go_ibft.Prelude.{
  ℕ, ◌≡◌, ◌≢◌, refl, ap, ◌∙◌, Bool, true, false, Option, none, some, List, Result, ok, panic, ◌>>=◌,
  arith,
}
use go_ibft.Proto.{View}
use go_ibft.State.{
  StateType, new_round, prepare, commit, fin, get_view, change_state, finalize_prepare,
}
use go_ibft.Backend.{Backend}
use go_ibft.Node.{
  Node, handle_prepare, handle_commit, send_prepare_message, send_commit_message, notify_if_quorum,
}
use go_ibft.Node.Listening.{subscribe, unsubscribe}
use go_ibft.Events.{SubscriptionDetails}
use go_ibft.Proposals.{handle_pre_prepare}
use go_ibft.Rounds.{WorkStep, handle_event, take_proposal, deliver, listen, unlisten, run}
use go_ibft.Rounds.Invariant.{add_message-Keeps}
use go_ibft.Rounds.Working.{Works, next}
use go_ibft.Workers.{Event, poll, when_done, run_worker, exact, message_type_of}
use go_ibft.Workers.Ending.{Ends, poll-Ends, subscribed-Ends, weaken-Ends}

abbrev pub after : StateType → StateType
after new_round = prepare
after prepare = commit
after commit = fin
after fin = fin

-- What a handler leaves behind, by whether it is done.
abbrev pub Moved : StateType → Node → Node → Bool → Type 0
Moved t n n' false = n'.state ≡ n.state
Moved t n n' true = n'.state.name ≡ after t

take_proposal-Moved :
    (b : Backend) (v : View) (n n' : Node) (done : Bool)
    → take_proposal b v n ≡ ok (n', done)
    → Moved new_round n n' done
unfolding take_proposal handle_pre_prepare send_prepare_message change_state
take_proposal-Moved b v n n' true h = ground arith
take_proposal-Moved b v n n' false h = ground arith

handle_prepare-Moved :
    (b : Backend) (v : View) (n n' : Node) (done : Bool)
    → handle_prepare b v n ≡ ok (n', done)
    → Moved prepare n n' done
unfolding handle_prepare send_commit_message finalize_prepare
handle_prepare-Moved b v n n' true h = ground arith
handle_prepare-Moved b v n n' false h = ground arith

handle_commit-Moved :
    (b : Backend) (v : View) (n n' : Node) (done : Bool)
    → handle_commit b v n ≡ ok (n', done)
    → Moved commit n n' done
unfolding handle_commit change_state
handle_commit-Moved b v n n' true h = ground arith
handle_commit-Moved b v n n' false h = ground arith

handle_event-Moved :
    (b : Backend) (t : StateType) (v : View) (n n' : Node) (done : Bool)
    → t ≢ fin
    → handle_event b t v n ≡ ok (n', done)
    → Moved t n n' done
unfolding handle_event
handle_event-Moved b new_round v n n' done f h = take_proposal-Moved b v n n' done h
handle_event-Moved b prepare v n n' done f h = handle_prepare-Moved b v n n' done h
handle_event-Moved b commit v n n' done f h = handle_commit-Moved b v n n' done h
handle_event-Moved b fin v n n' done f h = absurd (f refl)

pub subscribe-state :
    (id : ℕ) (d : SubscriptionDetails) (n n' : Node) → subscribe id d n ≡ ok n' → n'.state ≡ n.state
unfolding subscribe notify_if_quorum
subscribe-state id d n n' h = ground arith

pub unsubscribe-state : (id : ℕ) (n n' : Node) → unsubscribe id n ≡ ok n' → n'.state ≡ n.state
unfolding unsubscribe
unsubscribe-state id n n' h = ground arith

-- An event that a worker handles in the view and the state in which it started is a step.
run_step :
    (b : Backend) (t : StateType) (n m m' : Node) (done : Bool)
    → n.state.name ≡ t
    → m.state ≡ n.state
    → handle_event b t (get_view n.state) m ≡ ok (m', done)
    → WorkStep b m m'
run_step b t n m m' done e s h = run done (ground (arith, h))

when_done-none :
    (o : Result (Node × Bool)) (m : Node)
    → (o >>= λ out. ok (when_done out)) ≡ ok (m, none)
    → o ≡ ok (m, false)
when_done-none panic m h = cc
when_done-none (ok (k, true)) m h = ground arith
when_done-none (ok (k, false)) m h = ground arith

when_done-some :
    (o : Result (Node × Bool)) (m : Node) (u : Unit {0})
    → (o >>= λ out. ok (when_done out)) ≡ ok (m, some u)
    → o ≡ ok (m, true)
when_done-some panic m u h = cc
when_done-some (ok (k, true)) m u h = ground arith
when_done-some (ok (k, false)) m u h = ground arith

pub run_worker-Ends :
    (b : Backend) (t : StateType) (id : ℕ) (es : List Event) (n₀ n : Node)
    → t ≢ fin
    → n.state.name ≡ t
    → Works b n₀ n
    → Ends
        (λ m. Works b n₀ m)
        (λ u m. Works b n₀ m × (m.state.name ≡ after t))
        (run_worker b t id es n)
unfolding run_worker
run_worker-Ends b t id es n₀ n f e r =
    let P : Node → Type 0 = λ m. Works b n₀ m in
    let I : Node → Type 0 = λ m. Works b n₀ m × (m.state ≡ n.state) in
    let Q : Unit {0} → Node → Type 0 = λ u m. Works b n₀ m × (m.state.name ≡ after t) in
    let v : View = get_view n.state in
    let handle : ℕ → Node → Result (Node × Option (Unit {0})) =
      λ r' n₁. handle_event b t v n₁ >>= λ out. ok (when_done out) in
    subscribed-Ends P Q id (exact (message_type_of t) v) (λ es' n'. poll b handle es' n') es n
      (λ n' l.
        weaken-Ends {P = I} {P' = P} {Q = Q} {Q' = Q} (poll b handle es n') (λ m i. i.0)
          (λ u m q. q)
          (poll-Ends b handle I Q
            (λ m k k' h i. (next i.0 (deliver m h), (add_message-Keeps b m k k' h).state ∙ i.1))
            (λ r' k k' h i.
              let got = when_done-none (handle_event b t v k) k' h in
              (
                next i.0 (run_step b t n k k' false e i.1 got),
                handle_event-Moved b t v k k' false f got ∙ i.1,
              ))
            (λ r' k k' u h i.
              let got = when_done-some (handle_event b t v k) k' u h in
              (
                next i.0 (run_step b t n k k' true e i.1 got),
                handle_event-Moved b t v k k' true f got,
              ))
            es n'
            (next r (listen id (exact (message_type_of t) v) l), subscribe-state id _ n n' l)))
      (λ m m' h p. next p (unlisten id h))
      (λ u m m' h q.
        (next q.0 (unlisten id h), ap (λ s. s.name) (unsubscribe-state id m m' h) ∙ q.1))
