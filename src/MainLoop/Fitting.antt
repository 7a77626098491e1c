-- ===== src/MainLoop/Fitting.antt =====
-- The proposal, the seals and the blocks of a node fit its views through a whole sequence.
use mathlib.Core.Path.{subst}
use go_ibft.Prelude.{
  ℕ, ◌≡◌, refl, sym, ap, ◌∙◌, Bool, Option, none, some, List, arith, inl, inr, ok, >>=-eq-ok,
  Bool-cases, Option-cases, nat_eq, str_eq, ◌==◌,
}
use go_ibft.Proto.{
  View, IbftMessage, Bytes, RoundChangeRef, nil_rcc, rcc_ref, round_change_certificate, slice,
  items_of,
}
use go_ibft.Extract.{extract_proposal}
use go_ibft.State.{
  StateType, new_round, prepare, commit, fin, set_proposal_message, change_state, finalize_prepare,
  get_view, start_round,
}
use go_ibft.Validators.{ValidatorManager}
use go_ibft.Backend.{Backend}
use go_ibft.Node.{
  Node, handle_prepare, send_commit_message, send_prepare_message, notify_if_quorum,
  accept_proposal,
}
use go_ibft.Node.Listening.{subscribe, unsubscribe}
use go_ibft.Proposals.{handle_pre_prepare}
use go_ibft.Rounds.{
  WorkStep, deliver, listen, unlisten, start, offer, run, watch, handle_event, take_proposal,
  open_round, propose, build_proposal, previous_proposal,
}
use go_ibft.Rounds.Invariant.{add_message-Keeps}
use go_ibft.Rounds.Starting.{handle_pre_prepare-Keeps}
use go_ibft.Rounds.Fitting.{
  HasRound, Builds, Fits, Keeps-Fits, same-Fits, proposed-Fits, is_valid_preprepare-HasRound,
}
use go_ibft.Workers.Watching.{handle_pre_prepare-valid}
use go_ibft.MainLoop.Committed.{IsSound, handle_commit-Fits}

handle_prepare-Fits :
    {b : Backend} {vm : ValidatorManager} {h : ℕ} (v : View) (n n' : Node) (done : Bool)
    → n.state.name ≡ prepare
    → handle_prepare b v n ≡ ok (n', done)
    → Fits b vm h n
    → Fits b vm h n'
unfolding handle_prepare send_commit_message finalize_prepare
handle_prepare-Fits v n n' done e h f =
    same-Fits n n' (ground arith) (ground arith) (ground arith) (ground arith) f

take_proposal-Fits :
    {b : Backend} {vm : ValidatorManager} {h : ℕ} (n n' : Node) (done : Bool)
    → take_proposal b n.state.view n ≡ ok (n', done)
    → Fits b vm h n
    → Fits b vm h n'
unfolding take_proposal send_prepare_message set_proposal_message change_state
take_proposal-Fits {b = b} {vm = vm} {h = height} n n' done h f =
    let v : View = n.state.view in
    let ((n₁, o), got, rest) = >>=-eq-ok (handle_pre_prepare b v n) _ h in
    let kept = handle_pre_prepare-Keeps b v n n₁ o got in
    elim (Option-cases o) [
      | inl e ↦
          let same : n₁ ≡ n' = ground arith in
          subst (Fits b vm height) same (Keeps-Fits n n₁ kept f)
      | inr (m, e) ↦
          let at : n'.state.view ≡ v = ground (arith, kept.state) in
          let found : handle_pre_prepare b v n ≡ ok (n₁, some m) = got ∙ ap (λ x. ok (n₁, x)) e in
          let good =
            is_valid_preprepare-HasRound b n v m (handle_pre_prepare-valid b v n n₁ m found) in
          proposed-Fits n n' m (ground arith) (rw at good) (ground arith)
            (ground (arith, kept.inserted)) f
    ]

handle_event-Fits :
    {b : Backend} {vm : ValidatorManager} {h : ℕ} (t : StateType) (n n' : Node) (done : Bool)
    → n.validator_manager ≡ vm
    → n.state.name ≡ t
    → handle_event b t n.state.view n ≡ ok (n', done)
    → IsSound b n
    → Fits b vm h n
    → Fits b vm h n'
unfolding handle_event
handle_event-Fits new_round n n' done same e h s f = take_proposal-Fits n n' done h f
handle_event-Fits prepare n n' done same e h s f = handle_prepare-Fits n.state.view n n' done e h f
handle_event-Fits commit n n' done same e h s f = handle_commit-Fits n n' done same e h s f
handle_event-Fits fin n n' done same e h s f = Keeps-Fits n n' (ground arith) f

built-HasRound :
    (b : Backend) (v : View) (raw : Bytes) (rcc : RoundChangeRef) (m : IbftMessage)
    → Builds b
    → b.build_preprepare_message raw rcc v ≡ m
    → HasRound v.round m
built-HasRound b v raw rcc m builds e = (
  record { raw_proposal = raw; round = v.round },
  ap extract_proposal (sym e) ∙ builds raw rcc v,
  refl,
)

build_proposal-HasRound :
    (b : Backend) (v : View) (rcc : Option (List IbftMessage)) (m : IbftMessage)
    → Builds b
    → build_proposal b v rcc ≡ ok (some m)
    → HasRound v.round m
unfolding build_proposal
build_proposal-HasRound b v none m builds h = elim (Bool-cases (v.round == 0)) [
  | inl e ↦ built-HasRound b v (b.build_proposal v) nil_rcc m builds (ground arith)
  | inr e ↦ absurd (ground arith)
]
build_proposal-HasRound b v (some msgs) m builds h = elim (Bool-cases (v.round == 0)) [
  | inl e ↦ built-HasRound b v (b.build_proposal v) nil_rcc m builds (ground arith)
  | inr e ↦
      let (previous, got, made) = >>=-eq-ok (previous_proposal none 0 msgs) _ (rw e at h) in
      built-HasRound b v (elim previous [ none ↦ b.build_proposal v | some raw ↦ some raw ])
        (rcc_ref (round_change_certificate (slice (items_of msgs)))) m builds (ground (arith, made))
]

propose-Fits :
    {b : Backend} {vm : ValidatorManager} {h : ℕ} (m : IbftMessage) (n : Node)
    → HasRound n.state.view.round m
    → Fits b vm h n
    → Fits b vm h (propose m n)
unfolding propose accept_proposal set_proposal_message change_state
propose-Fits m n r f = proposed-Fits n (propose m n) m refl r (ground arith) refl f

open_round-Fits :
    {b : Backend} {vm : ValidatorManager} {h : ℕ} (n : Node)
    → Fits b vm h n
    → Fits b vm h (open_round n)
unfolding open_round start_round
open_round-Fits n f = elim (Bool-cases n.state.round_started) [
  | inl t ↦ Keeps-Fits n (open_round n) (ground arith) f
  | inr e ↦ same-Fits n (open_round n) (ground arith) (ground arith) (ground arith) (ground arith) f
]

pub WorkStep-Fits :
    {b : Backend} {vm : ValidatorManager} {h : ℕ} (n n' : Node)
    → Builds b
    → n.validator_manager ≡ vm
    → WorkStep b n n'
    → IsSound b n
    → Fits b vm h n
    → Fits b vm h n'
unfolding subscribe unsubscribe notify_if_quorum get_view
WorkStep-Fits {b = b} n n' builds same (deliver m h) s f =
    Keeps-Fits n n' (add_message-Keeps b m n n' h) f
WorkStep-Fits n n' builds same (listen id d h) s f = Keeps-Fits n n' (ground arith) f
WorkStep-Fits n n' builds same (unlisten id h) s f = Keeps-Fits n n' (ground arith) f
WorkStep-Fits n n' builds same (start e) s f = rw e (open_round-Fits n f)
WorkStep-Fits {b = b} n n' builds same (offer rcc m h e) s f =
    rw e (propose-Fits m n (build_proposal-HasRound b n.state.view rcc m builds h) f)
WorkStep-Fits n n' builds same (run done h) s f =
    handle_event-Fits n.state.name n n' done same refl h s f
WorkStep-Fits {b = b} n n' builds same (watch v got h) s f =
    Keeps-Fits n n' (handle_pre_prepare-Keeps b v n n' got h) f
