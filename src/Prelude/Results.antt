-- ===== src/Prelude/Results.antt =====
-- A call either returns or panics: the runtime's fault on a nil pointer, or a closed channel closed
-- again.
use mathlib.Core.Path.{◌≡◌, refl}

pub data Result {ℓ} (A : Type ℓ) : Type ℓ where
  ok : A → Result A
  panic : Result A

infixl 5 ◌>>=◌
abbrev pub ◌>>=◌ {ℓ₁ ℓ₂} : {X : Type ℓ₁} {Y : Type ℓ₂} → Result X → (X → Result Y) → Result Y
panic >>= next = panic
ok x >>= next = next x

infixl 5 ◌>>◌
abbrev pub ◌>>◌ {ℓ₁} : {Y : Type ℓ₁} → Result (Unit {0}) → Result Y → Result Y
first >> second = first >>= λ _. second

-- Where a bind returns, both of its parts do.
pub >>=-eq-ok {ℓ₁ ℓ₂} :
    {X : Type ℓ₁} {Y : Type ℓ₂} (call : Result X) (next : X → Result Y) {y : Y}
    → (call >>= next) ≡ ok y
    → (x : X) × (call ≡ ok x) × (next x ≡ ok y)
>>=-eq-ok panic next returned = cc
>>=-eq-ok (ok x) next returned = (x, refl, returned)
