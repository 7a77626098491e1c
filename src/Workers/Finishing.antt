-- ===== src/Workers/Finishing.antt =====
-- A run of the state machine through its states, where the node holds the messages of each.
use mathlib.Core.Path.{subst}
use go_ibft.Prelude.{
  ℕ, suc, ◌≡◌, ◌≢◌, refl, ap, ◌∙◌, true, false, some, List, ◌∷◌, nat_eq, contains, arith, ok,
}
use go_ibft.Proto.{View, IbftMessage}
use go_ibft.State.{StateType, State, new_round, prepare, commit, fin, get_view, get_proposal}
use go_ibft.State
use go_ibft.Extract.{extract_proposal_hash}
use go_ibft.Events.Manager.{ids, IsCounted}
use go_ibft.Events.Open.{KeepsOpen, KeepsOpen-IsCounted}
use go_ibft.Messages.WellFormed.{IsWellFormed}
use go_ibft.Backend.{Backend}
use go_ibft.Node.{Node, accept_proposal}
use go_ibft.Node.Committing.{committed, committed_state}
use go_ibft.Node.Preparing.{prepared, prepared_state}
use go_ibft.Proposals.{handle_pre_prepare}
use go_ibft.Rounds.Safety
use go_ibft.Rounds.Working.{Works, Works-Reach, here}
use go_ibft.Rounds.Storing.{Reach_kept}
use go_ibft.Rounds.Filed.{well_formed}
use go_ibft.Workers.{Event, ready, finished, run_worker, run_states, run_fin, signal_main, poll}
use go_ibft.Workers.Ending.{Ends}
use go_ibft.Workers.Refining.{after, run_worker-Ends}
use go_ibft.Node.Leaving.{
  valid_commits-same, committed-same, valid_prepares-same, prepared-same, finished_state,
  finished_state-same, committed_state-same,
}
use go_ibft.Workers.Proposed.{run_worker-proposes}
use go_ibft.Workers.Progress.{run_worker-prepares, run_worker-commits}

-- A well-formed store is so after a turn.
turn-IsWellFormed :
    (b : Backend) (t : StateType) (id : ℕ) (es es' : List Event) (n n' : Node)
    → t ≢ fin
    → n.state.name ≡ t
    → run_worker b t id es n ≡ ok (finished tt n' es')
    → IsWellFormed n.messages
    → IsWellFormed n'.messages
turn-IsWellFormed b t id es es' n n' f e run w =
    let q : Works b n n' × (n'.state.name ≡ after t) =
      subst (Ends (λ m. Works b n m) (λ u m. Works b n m × (m.state.name ≡ after t))) run
        (run_worker-Ends b t id es n n f e here) in
    Reach_kept b IsWellFormed (well_formed b) (Works-Reach {n = n} Safety.here q.0) w

-- The loop goes on where a turn has left the node.
run_states-next :
    (b : Backend) (sub : StateType → ℕ) (fuel : ℕ) (t : StateType) (es es' : List Event)
    (n n' : Node)
    → t ≢ fin
    → n.state.name ≡ t
    → run_worker b t (sub t) es n ≡ ok (finished tt n' es')
    → run_states b sub (suc fuel) es n ≡ run_states b sub fuel es' n'
unfolding run_states
run_states-next b sub fuel new_round es es' n n' f e run = ground (arith, e, run)
run_states-next b sub fuel prepare es es' n n' f e run = ground (arith, e, run)
run_states-next b sub fuel commit es es' n n' f e run = ground (arith, e, run)
run_states-next b sub fuel fin es es' n n' f e run = absurd (f refl)

run_states-ends :
    (b : Backend) (sub : StateType → ℕ) (fuel r : ℕ) (es : List Event) (n : Node)
    → n.state.name ≡ fin
    → run_states b sub (suc fuel) (ready r ∷ es) n ≡ ok (some (finished tt n es))
unfolding run_states run_fin signal_main poll
run_states-ends b sub fuel r es n e = ground (arith, e)

-- The store is well formed, the manager counted, and the identifiers for the workers new.
pub record IsReady (sub : StateType → ℕ) (n : Node) : Type 0 where
  pub filed : IsWellFormed n.messages
  pub counted : IsCounted n.messages.event_manager
  pub new : (t : StateType) → contains (ids n.messages.event_manager.subscriptions) (sub t) ≡ false

turn-IsReady :
    (b : Backend) (sub : StateType → ℕ) (t : StateType) (es es' : List Event) (n n' : Node)
    → t ≢ fin
    → n.state.name ≡ t
    → run_worker b t (sub t) es n ≡ ok (finished tt n' es')
    → KeepsOpen n.messages.event_manager n'.messages.event_manager
    → IsReady sub n
    → IsReady sub n'
turn-IsReady b sub t es es' n n' f e run k i = record {
  filed = turn-IsWellFormed b t (sub t) es es' n n' f e run i.filed;
  counted = KeepsOpen-IsCounted n.messages.event_manager n'.messages.event_manager k i.counted;
  new = λ s. ap (λ is. contains is (sub s)) k.same_ids ∙ i.new s;
}

-- From the commit state.
run_states-commits :
    (b : Backend) (sub : StateType → ℕ) (fuel r r' : ℕ) (es : List Event) (n : Node)
    → IsReady sub n
    → n.state.name ≡ commit
    → committed b (get_view n.state) n ≡ true
    → (n' : Node) × (run_states b sub (suc (suc fuel)) (ready r ∷ ready r' ∷ es) n
        ≡ ok (some (finished tt n' es)))
      × (n'.state ≡ committed_state b (get_view n.state) n)
      × (n'.sent ≡ n.sent)
run_states-commits b sub fuel r r' es n i e q =
    let (n', run, (state, sent), _) =
      run_worker-commits b (sub commit) r (ready r' ∷ es) n i.filed i.counted (i.new commit) q in
    (
      n',
      run_states-next b sub (suc fuel) commit (ready r ∷ ready r' ∷ es) (ready r' ∷ es) n n'
            (λ x. cc) e run
          ∙ run_states-ends b sub fuel r' es n' (ap (λ s. s.name) state),
      state,
      sent,
    )

-- From the prepare state.
pub run_states-prepares :
    (b : Backend) (sub : StateType → ℕ) (fuel r r' r'' : ℕ) (es : List Event) (n : Node) (v : View)
    (m : IbftMessage)
    → IsReady sub n
    → n.state.name ≡ prepare
    → get_view n.state ≡ v
    → n.state.proposal_message ≡ some m
    → prepared b v n ≡ true
    → committed b v n ≡ true
    → (n' : Node) × (run_states b sub (suc (suc (suc fuel))) (ready r ∷ ready r' ∷ ready r'' ∷ es) n
        ≡ ok (some (finished tt n' es)))
      × (n'.state ≡ finished_state b v n m)
      × (n'.sent ≡ b.build_commit_message (extract_proposal_hash m) v ∷ n.sent)
unfolding get_view
run_states-prepares b sub fuel r r' r'' es n v m i e at p q c =
    let (n', run, (state, sent, left), k) =
      run_worker-prepares b (sub prepare) r (ready r' ∷ ready r'' ∷ es) n m i.filed i.counted
        (i.new prepare) p (ap (λ w. prepared b w n) at ∙ q) in
    let stays : get_view n'.state ≡ v = ap get_view state ∙ at in
    let state' : n'.state ≡ prepared_state b v n m = state ∙ ap (λ w. prepared_state b w n m) at in
    let same : n'.state.proposal_message ≡ n.state.proposal_message =
      ap (λ s. s.proposal_message) state in
    let (n'', run', state'', sent') =
      run_states-commits b sub fuel r' r'' es n'
        (turn-IsReady b sub prepare (ready r ∷ ready r' ∷ ready r'' ∷ es)
          (ready r' ∷ ready r'' ∷ es) n n' (λ x. cc) e run k i)
        (ap (λ s. s.name) state)
        (ap (λ w. committed b w n') stays ∙ committed-same b v n n' same left ∙ c) in
    (
      n'',
      run_states-next b sub (suc (suc fuel)) prepare (ready r ∷ ready r' ∷ ready r'' ∷ es)
            (ready r' ∷ ready r'' ∷ es) n n' (λ x. cc) e run
          ∙ run',
      state''
          ∙ ap (λ w. committed_state b w n') stays
          ∙ committed_state-same b v n n' m state' (valid_commits-same b v n n' same left),
      sent' ∙ sent ∙ ap (λ w. b.build_commit_message (extract_proposal_hash m) w ∷ n.sent) at,
    )

-- A node in the new round state that holds a proposal message of its view that passes the check, and for
-- this proposal a prepare quorum and a quorum of valid commit messages, runs through all states: for a
-- well-formed store, a counted manager and new identifiers, `runStates` with four turns returns once the
-- subscription of each worker has woken it and the main loop has taken its signal. It has sent the prepare
-- and the commit message for the proposal, and its node is in the fin state with the proposal, the
-- certificate of these prepare messages and the seals of these commit messages.
pub run_states-finishes :
    (b : Backend) (sub : StateType → ℕ) (r₁ r₂ r₃ r₄ : ℕ) (es : List Event) (n n₀ : Node)
    (m : IbftMessage)
    → let v = get_view n.state in
      let accepting = accept_proposal (some m) n in
      IsReady sub n
      → n.state.name ≡ new_round
      → handle_pre_prepare b v n ≡ ok (n₀, some m)
      → prepared b v accepting ≡ true
      → committed b v accepting ≡ true
      → (n' : Node) × (run_states b sub 4 (ready r₁ ∷ ready r₂ ∷ ready r₃ ∷ ready r₄ ∷ es) n
          ≡ ok (some (finished tt n' es)))
        × (n'.state ≡ finished_state b v accepting m)
        × (n'.sent
            ≡ b.build_commit_message (extract_proposal_hash m) v
              ∷ b.build_prepare_message (extract_proposal_hash m) v
              ∷ n.sent)
unfolding accept_proposal State.set_proposal_message State.change_state get_view
run_states-finishes b sub r₁ r₂ r₃ r₄ es n n₀ m i e got q c =
    let v = get_view n.state in
    let accepting = accept_proposal (some m) n in
    let (n', run, (state, sent, prepares, commits), k) =
      run_worker-proposes b (sub new_round) r₁ (ready r₂ ∷ ready r₃ ∷ ready r₄ ∷ es) n n₀ m
        i.counted (i.new new_round) got in
    let same : n'.state.proposal_message ≡ some m = ap (λ s. s.proposal_message) state in
    let (n'', run', state', sent') =
      run_states-prepares b sub 0 r₂ r₃ r₄ es n' v m
        (turn-IsReady b sub new_round (ready r₁ ∷ ready r₂ ∷ ready r₃ ∷ ready r₄ ∷ es)
          (ready r₂ ∷ ready r₃ ∷ ready r₄ ∷ es) n n' (λ x. cc) e run k i)
        (ap (λ s. s.name) state) (ap get_view state) same
        (prepared-same b v accepting n' same prepares ∙ q)
        (committed-same b v accepting n' same commits ∙ c) in
    (
      n'',
      run_states-next b sub 3 new_round (ready r₁ ∷ ready r₂ ∷ ready r₃ ∷ ready r₄ ∷ es)
            (ready r₂ ∷ ready r₃ ∷ ready r₄ ∷ es) n n' (λ x. cc) e run
          ∙ run',
      state'
          ∙ finished_state-same b v accepting n' m state
              (valid_prepares-same b v accepting n' same prepares)
              (valid_commits-same b v accepting n' same commits),
      sent' ∙ ap (λ l. b.build_commit_message (extract_proposal_hash m) v ∷ l) sent,
    )
