-- ===== src/Prelude/Keys.antt =====
-- The keys of Go maps: numbers, and byte strings with the equality of their contents.
use mathlib.Core.Path.{◌≡◌, refl}
use mathlib.Core.Logic.{◌↔◌, ◌⊎◌, inl, inr}
use mathlib.Core.Bool.{Bool, true, false, ◌&&◌}
use mathlib.Core.List.{List, [], ◌∷◌}
use Prim.Native.Nat.{ℕ}
use native.Mathlib.Omega.{arith}
use go_ibft.Prelude.Tests.{nat_beq, nat_beq_iff}

-- A Boolean equality of keys, and that it decides theirs.
pub record Eq {κ} (K : Type κ) : Type κ where
  pub beq : K → K → Bool
  pub beq_iff : (x y : K) → (beq x y ≡ true) ↔ (x ≡ y)

infix 50 ◌==◌
abbrev pub ◌==◌ {κ} : {K : Type κ} ⦃eq : Eq K⦄ → K → K → Bool
◌==◌ ⦃eq⦄ = eq.beq

abbrev pub Str : Type 0
Str = List ℕ

abbrev pub str_beq : Str → Str → Bool
str_beq [] [] = true
str_beq [] (b ∷ bs) = false
str_beq (a ∷ as') [] = false
str_beq (a ∷ as') (b ∷ bs) = nat_beq a b && str_beq as' bs

pub str_beq_sound : (a b : Str) → str_beq a b ≡ true → a ≡ b
str_beq_sound [] [] h = refl
str_beq_sound [] (b ∷ bs) h = cc
str_beq_sound (a ∷ as') [] h = cc
str_beq_sound (a ∷ as') (b ∷ bs) h = ground (arith, str_beq_sound as' bs)

pub str_beq_refl : (a : Str) → str_beq a a ≡ true
str_beq_refl [] = refl
str_beq_refl (a ∷ as') = ground (arith, str_beq_refl as')

pub str_beq_iff : (a b : Str) → (str_beq a b ≡ true) ↔ (a ≡ b)
str_beq_iff a b = (str_beq_sound a b, λ e. rw e (str_beq_refl b))

instance abbrev pub nat_eq : Eq ℕ
nat_eq = record { beq = nat_beq; beq_iff = nat_beq_iff }

instance abbrev pub str_eq : Eq Str
str_eq = record { beq = str_beq; beq_iff = str_beq_iff }

module _ {ℓ} {A : Type ℓ} ⦃e : Eq A⦄ where
  pub beq_cases : (a b : A) → ((a == b) ≡ true) × (a ≡ b) ⊎ ((a == b) ≡ false) × (¬ (a ≡ b))
  beq_cases a b = go (a == b) refl
    where
      go :
          (t : Bool) → (a == b) ≡ t → ((a == b) ≡ true) × (a ≡ b) ⊎ ((a == b) ≡ false) × (¬ (a ≡ b))
      go true h = inl (h, (e.beq_iff a b).0 h)
      go false h = inr (h, λ p. cc (h, (e.beq_iff a b).1 p))

  pub beq_refl : (a : A) → (a == a) ≡ true
  beq_refl a = (e.beq_iff a a).1 refl

  pub beq-eq : (a b : A) → (a == b) ≡ true → a ≡ b
  beq-eq a b h = (e.beq_iff a b).0 h
