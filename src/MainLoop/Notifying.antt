-- ===== src/MainLoop/Notifying.antt =====
-- What the backend is told of a sequence.
use mathlib.Core.Path.{subst}
use go_ibft.Prelude.{
  ℕ, ◌≡◌, refl, sym, ap, ◌∙◌, ◌⊎◌, inl, inr, Bool, true, none, List, [], ◌∷◌, map, All, ok, arith,
}
use go_ibft.Proto.{View}
use go_ibft.State.{get_view}
use go_ibft.Backend.{Backend}
use go_ibft.Node.{Node}
use go_ibft.Rounds.{begin_sequence}
use go_ibft.Rounds.Working.{Works-inserted}
use go_ibft.MainLoop.{
  Signal, new_proposal, round_certificate, round_expired, round_done, sequence_cancelled, on_signal,
  Runs, begun, again, pass, Callback, round_starts, sequence_was_cancelled, told_end, callbacks,
}
use go_ibft.MainLoop.Passes.{HasHeight, runs-Reach, runs-Inserts, begin_sequence-HasHeight}

-- The views at which the passes begin, the last first.
abbrev pub starts :
    {b : Backend} {h : ℕ} {n n' : Node} {returned : Bool} → Runs b h n n' returned → List View
starts begun = []
starts (again {m = k} rs p) = get_view k.state ∷ starts rs

-- The backend has been told of the start of rounds with these views, all of the height, and, where the
-- sequence was cancelled, of this as the last: in the last of the views, where the sequence has returned
-- and inserted no block.
abbrev pub Told : ℕ → Node → Node → Bool → List View → List Callback → Type 0
Told h n n' returned views calls =
    All (λ v. v.height ≡ h) views
    × ((calls ≡ map round_starts views)
        ⊎ ((v : View) × (rest : List View) × (views ≡ v ∷ rest)
            × (calls ≡ sequence_was_cancelled v ∷ map round_starts views)
            × (returned ≡ true)
            × (n'.inserted ≡ n.inserted)))

-- What one pass adds, whose round begins with `k`.
signal-Told :
    (b : Backend) (h : ℕ) (n k m n' : Node) (s : Signal) (returned : Bool) (views : List View)
    → HasHeight h k
    → All (λ v. v.height ≡ h) views
    → m.inserted ≡ n.inserted
    → on_signal b h (get_view k.state) s m ≡ ok (n', returned)
    → Told h n n' returned
        (get_view k.state ∷ views)
        (told_end s (get_view k.state) (round_starts (get_view k.state) ∷ map round_starts views))
unfolding on_signal get_view
signal-Told b h n k m n' (new_proposal p r) returned views at hs kept run = ((at, hs), inl refl)
signal-Told b h n k m n' (round_certificate r) returned views at hs kept run = ((at, hs), inl refl)
signal-Told b h n k m n' round_expired returned views at hs kept run = ((at, hs), inl refl)
signal-Told b h n k m n' round_done returned views at hs kept run = ((at, hs), inl refl)
signal-Told b h n k m n' sequence_cancelled returned views at hs kept run =
    let same : m ≡ n' = ground arith in
    (
      (at, hs),
      inr (
        get_view k.state,
        views,
        refl,
        refl,
        ground arith,
        ap (λ x. x.inserted) (sym same) ∙ kept,
      ),
    )

runs-Told :
    {b : Backend} {h : ℕ} {n n' : Node} {returned : Bool} (rs : Runs b h n n' returned)
    → HasHeight h n
    → Told h n n' returned (starts rs) (callbacks rs)
unfolding callbacks
runs-Told begun e = (tt, inl refl)
runs-Told {b = b} {h = h} {n = n} {n' = n'} {returned = returned}
      (again {m = k} rs (pass s m w sent run)) e =
    let (heights, told) = runs-Told rs e in
    let (_, at) = runs-Reach rs e in
    let v = get_view k.state in
    elim told [
      | inr (u, rest, x, y, r, z) ↦ absurd (ground (arith, r))
      | inl calls ↦ elim (runs-Inserts rs) [
        | inr (r, x) ↦ absurd (ground (arith, r))
        | inl kept ↦
            subst (λ l. Told h n n' returned (v ∷ starts rs) (told_end s v (round_starts v ∷ l)))
              (sym calls)
              (signal-Told b h n k m n' s returned (starts rs) at heights (Works-inserted w ∙ kept)
                run)
      ]
    ]

-- In a sequence that started without an error the backend is told of the start of each round, with the view
-- at which it begins, which has the sequence's height. It is told that the sequence was cancelled at most
-- once and as the last, with the view whose start it was told of before, and only where `RunSequence` has
-- returned and inserted no block.
pub run_sequence-Told :
    (b : Backend) (h : ℕ) (n n' n'' : Node) (returned : Bool)
    → begin_sequence b h n ≡ (n', none)
    → (rs : Runs b h n' n'' returned) → Told h n' n'' returned (starts rs) (callbacks rs)
run_sequence-Told b h n n' n'' returned e rs = runs-Told rs (begin_sequence-HasHeight b h n n' e)
