-- ===== src/MainLoop/Passes.antt =====
-- A sequence as `RunSequence` runs it.
use mathlib.Core.Path.{subst}
use go_ibft.Prelude.{
  ℕ, ◌≡◌, refl, sym, ap, ◌∙◌, ◌⊎◌, inl, inr, Bool, true, none, ◌∷◌, ok, >>=-eq-ok, arith,
}
use go_ibft.Proto.{View}
use go_ibft.State.{get_view, reset, change_state, set_proposal_message, set_view, set_round_started}
use go_ibft.Backend.{Backend}
use go_ibft.Node.{
  Node, Inserted, insert_block, move_to_new_round, accept_proposal, send_prepare_message,
  send_round_change_message,
}
use go_ibft.Rounds.{
  on_new_proposal, on_round_certificate, on_round_expired, begin_sequence, jump, hop, expire,
  finish,
}
use go_ibft.Rounds.Safety.{Reach, here, next}
use go_ibft.Rounds.Working.{Works-Reach, Works-view, Works-inserted}
use go_ibft.MainLoop.{
  Signal, new_proposal, round_certificate, round_expired, round_done, sequence_cancelled, on_signal,
  Sent, Pass, pass, Runs, begun, again,
}

abbrev pub HasHeight : ℕ → Node → Type 0
HasHeight h n = n.state.view.height ≡ h

-- The reaction to a signal, of a node that has the height and the view at which its round began.
pub on_signal-Reach :
    (b : Backend) (h : ℕ) (n₀ n m n' : Node) (s : Signal) (returned : Bool)
    → HasHeight h n
    → m.state.view ≡ n.state.view
    → Reach b n₀ m
    → Sent b n m s
    → on_signal b h (get_view n.state) s m ≡ ok (n', returned)
    → Reach b n₀ n'
unfolding on_signal get_view
on_signal-Reach b h n₀ n m n' (new_proposal p round) returned e v r w run =
    let (k, moved, out) = >>=-eq-ok (on_new_proposal b (get_view n.state) round p m) _ run in
    let same : k ≡ n' = ground arith in
    subst (λ x. Reach b n₀ x) same
      (next r (jump round p (subst (λ x. on_new_proposal b x round p m ≡ ok k) (sym v) moved)))
on_signal-Reach b h n₀ n m n' (round_certificate round) returned e v r w run =
    next r (hop round (ground arith))
on_signal-Reach b h n₀ n m n' round_expired returned e v r w run =
    let at_view : on_round_expired b h n.state.view m
        ≡ on_round_expired b m.state.view.height m.state.view m =
      ap (λ x. on_round_expired b x n.state.view m) (sym e ∙ ap (λ x. x.height) (sym v))
      ∙ ap (λ x. on_round_expired b m.state.view.height x m) (sym v) in
    next r (expire (sym (ground arith) ∙ at_view))
on_signal-Reach b h n₀ n m n' round_done returned e v r w run = next r (finish w (ground arith))
on_signal-Reach b h n₀ n m n' sequence_cancelled returned e v r w run =
    let same : m ≡ n' = ground arith in subst (λ x. Reach b n₀ x) same r

pub on_signal-HasHeight :
    (b : Backend) (h : ℕ) (v : View) (m n' : Node) (s : Signal) (returned : Bool)
    → HasHeight h m
    → on_signal b h v s m ≡ ok (n', returned)
    → HasHeight h n'
unfolding on_signal on_new_proposal on_round_certificate on_round_expired move_to_new_round
    accept_proposal send_prepare_message send_round_change_message insert_block change_state
    set_proposal_message set_view set_round_started
on_signal-HasHeight b h v m n' (new_proposal p round) returned e run = ground arith
on_signal-HasHeight b h v m n' (round_certificate round) returned e run = ground arith
on_signal-HasHeight b h v m n' round_expired returned e run = ground arith
on_signal-HasHeight b h v m n' round_done returned e run = ground arith
on_signal-HasHeight b h v m n' sequence_cancelled returned e run = ground arith

-- What a reaction inserts.
abbrev pub Inserts : Node → Node → Bool → Type 0
Inserts n n' returned =
    (n'.inserted ≡ n.inserted)
    ⊎ (returned ≡ true) × ((block : Inserted) × (n'.inserted ≡ block ∷ n.inserted))

on_signal-Inserts :
    (b : Backend) (h : ℕ) (v : View) (m n' : Node) (s : Signal) (returned : Bool)
    → on_signal b h v s m ≡ ok (n', returned)
    → Inserts m n' returned
unfolding on_signal on_new_proposal on_round_certificate on_round_expired move_to_new_round
    accept_proposal send_prepare_message send_round_change_message insert_block
on_signal-Inserts b h v m n' (new_proposal p round) returned run = inl (ground arith)
on_signal-Inserts b h v m n' (round_certificate round) returned run = inl (ground arith)
on_signal-Inserts b h v m n' round_expired returned run = inl (ground arith)
on_signal-Inserts b h v m n' round_done returned run =
    let same : insert_block m ≡ n' = ground arith in
    inr (
      ground arith,
      subst (λ (x : Node). (block : Inserted) × (x.inserted ≡ block ∷ m.inserted)) same (_, refl),
    )
on_signal-Inserts b h v m n' sequence_cancelled returned run = inl (ground arith)

Pass-Reach :
    {b : Backend} {h : ℕ} {n₀ n n' : Node} {returned : Bool}
    → Pass b h n n' returned
    → HasHeight h n
    → Reach b n₀ n
    → Reach b n₀ n' × HasHeight h n'
Pass-Reach {b = b} {h = h} {n₀ = n₀} {n = n} {n' = n'} {returned = returned} (pass s m w sent run) e
      r =
    let v = Works-view w in
    (
      on_signal-Reach b h n₀ n m n' s returned e v (Works-Reach r w) sent run,
      on_signal-HasHeight b h (get_view n.state) m n' s returned (ap (λ x. x.height) v ∙ e) run,
    )

pub runs-Reach :
    {b : Backend} {h : ℕ} {n n' : Node} {returned : Bool}
    → Runs b h n n' returned
    → HasHeight h n
    → Reach b n n' × HasHeight h n'
runs-Reach begun e = (here, e)
runs-Reach (again rs p) e = let (r, e') = runs-Reach rs e in Pass-Reach p e' r

pub begin_sequence-HasHeight :
    (b : Backend) (h : ℕ) (n n' : Node) → begin_sequence b h n ≡ (n', none) → HasHeight h n'
unfolding begin_sequence reset
begin_sequence-HasHeight b h n n' e = ground arith

-- What `RunSequence` does pass by pass, after a start without an error, is a history of the steps
-- of a node, which keeps its height: the workers of a round keep the view at which it began, so
-- the main loop reacts with the view that the node still has.
pub run_sequence-Reach :
    (b : Backend) (h : ℕ) (n n' n'' : Node) (returned : Bool)
    → begin_sequence b h n ≡ (n', none)
    → Runs b h n' n'' returned
    → Reach b n' n'' × (n''.state.view.height ≡ h)
run_sequence-Reach b h n n' n'' returned e rs = runs-Reach rs (begin_sequence-HasHeight b h n n' e)

pub runs-Inserts :
    {b : Backend} {h : ℕ} {n n' : Node} {returned : Bool}
    → Runs b h n n' returned
    → Inserts n n' returned
runs-Inserts begun = inl refl
runs-Inserts {b = b} {h = h} {n = n} {n' = n'} {returned = returned}
      (again {m = k} rs (pass s m w sent run)) =
    elim (runs-Inserts rs) [
      | inl e ↦
          let kept : m.inserted ≡ n.inserted = Works-inserted w ∙ e in
          elim (on_signal-Inserts b h (get_view k.state) m n' s returned run) [
            | inl f ↦ inl (f ∙ kept)
            | inr (r, (block, f)) ↦ inr (r, (block, f ∙ ap (λ l. block ∷ l) kept))
          ]
      | inr (r, x) ↦ absurd (ground (arith, r))
    ]

-- A sequence that started without an error inserts at most one block, and only as it returns.
pub run_sequence-inserts_once :
    (b : Backend) (h : ℕ) (n n' n'' : Node) (returned : Bool)
    → begin_sequence b h n ≡ (n', none)
    → Runs b h n' n'' returned
    → (n''.inserted ≡ n.inserted)
      ⊎ (returned ≡ true) × ((block : Inserted) × (n''.inserted ≡ block ∷ n.inserted))
unfolding begin_sequence
run_sequence-inserts_once b h n n' n'' returned e rs =
    let same : n'.inserted ≡ n.inserted = ground arith in
    elim (runs-Inserts rs) [
      | inl f ↦ inl (f ∙ same)
      | inr (r, (block, f)) ↦ inr (r, (block, f ∙ ap (λ l. block ∷ l) same))
    ]
