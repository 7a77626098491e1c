-- ===== src/Prelude/Sets.antt =====
-- Go's `map[string]struct{}` and sets of keys: lists in which a key stands once.
use mathlib.Core.Path.{◌≡◌}
use mathlib.Core.Logic.{◌⊎◌, inl, inr}
use mathlib.Core.Bool.{Bool, true, false, ◌||◌}
use mathlib.Core.List.{List, [], ◌∷◌}
use go_ibft.Prelude.Tests.{if◌then◌else◌, Bool-cases}
use go_ibft.Prelude.Keys.{Eq, ◌==◌, beq_cases}

module _ {ℓ} {K : Type ℓ} ⦃e : Eq K⦄ where
  abbrev pub contains : List K → K → Bool
  contains [] a = false
  contains (x ∷ xs) a = (x == a) || contains xs a

  abbrev pub add : K → List K → List K
  add a s = if contains s a then s else a ∷ s

  -- No key stands twice.
  abbrev pub Distinct : List K → Type 0
  Distinct [] = Unit
  Distinct (x ∷ xs) = (contains xs x ≡ false) × Distinct xs

module _ {ℓ} {K : Type ℓ} ⦃e : Eq K⦄ where
  pub contains-add : (a b : K) (s : List K) → contains (add a s) b ≡ ((a == b) || contains s b)
  contains-add a b s = elim (Bool-cases (contains s a)) [
    | inl h ↦ go h (beq_cases a b)
    | inr h ↦ rw h
  ]
    where
      go :
          contains s a ≡ true
          → ((a == b) ≡ true) × (a ≡ b) ⊎ ((a == b) ≡ false) × (¬ (a ≡ b))
          → contains (add a s) b ≡ ((a == b) || contains s b)
      go h (inl (p, q)) = rw (h, p, ← q, h)
      go h (inr (p, q)) = rw (h, p)

  pub add-Distinct : (a : K) (s : List K) → Distinct s → Distinct (add a s)
  add-Distinct a s d = elim (Bool-cases (contains s a)) [ inl h ↦ rw h d | inr h ↦ rw h (h, d) ]
