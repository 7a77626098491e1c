-- ===== src/Validators/Power.antt =====
-- The voting power of a set of senders (`HasQuorum`, `calculateTotalVotingPower`), counted over the
-- validators instead of over the senders.
use go_ibft.Prelude.{
  ◌≡◌, refl, sym, ◌∙◌, Bool, true, false, none, some, List, [], ◌∷◌, map, Str, if◌then◌else◌,
  contains, Distinct, str_eq, beq_cases, arith,
}
use go_ibft.Prelude.Int.{ℤ, pos, ◌+ℤ◌, int_laws, zero-+ℤ, +ℤ-zero, +ℤ_left_comm, +ℤ_assoc}
use mathlib.Core.Path.{fun_ext}
use go_ibft.Prelude.Assoc.{lookup}
use go_ibft.Validators.{VotingPowers, total_from, power_from}

abbrev pub keys : VotingPowers → List Str
keys = map (λ e. e.0)

-- The power of the validators that a test picks.
unfoldable pub held : VotingPowers → (Str → Bool) → ℤ
held [] p = pos 0
held ((k, v) ∷ m) p = let rest = held m p in if p k then v +ℤ rest else rest

abbrev pub vote : VotingPowers → Str → ℤ
vote m a = elim (lookup a m) [ none ↦ pos 0 | some v ↦ v ]

lookup_absent : (a : Str) (m : VotingPowers) → contains (keys m) a ≡ false → lookup a m ≡ none
lookup_absent a [] h = refl
lookup_absent a ((k, v) ∷ m) h = ground (arith, lookup_absent a m)

held-none : (acc : ℤ) (m : VotingPowers) → acc +ℤ held m (contains []) ≡ acc
unfolding held
held-none acc [] = +ℤ-zero acc
held-none acc (e ∷ m) = held-none acc m

-- `a` stands once in the map, so adding it to the set adds its power.
held-cons :
    (m : VotingPowers) (a : Str) (s : List Str)
    → Distinct (keys m)
    → contains s a ≡ false
    → held m (contains (a ∷ s)) ≡ vote m a +ℤ held m (contains s)
unfolding held
held-cons [] a s d h = omega int_laws
held-cons ((k, v) ∷ m) a s d h = ground (
  arith,
  beq_cases a k,
  beq_cases k a,
  held-cons m a s d.1 h,
  lookup_absent a m,
  zero-+ℤ (held m (contains s)),
  +ℤ_left_comm v (vote m a) (held m (contains s)),
)

-- The loop over the senders, in whatever order they come, adds up what the set holds.
pub power_from-held :
    (acc : ℤ) (m : VotingPowers) (s : List Str)
    → Distinct (keys m)
    → Distinct s
    → power_from acc m s ≡ acc +ℤ held m (contains s)
unfolding power_from
power_from-held acc m [] d ds = sym (held-none acc m)
power_from-held acc m (a ∷ s) d ds = ground (
  arith,
  held-cons m a s d ds.0,
  power_from-held acc m s d ds.1,
  power_from-held (acc +ℤ vote m a) m s d ds.1,
  +ℤ_assoc acc (vote m a) (held m (contains s)),
  zero-+ℤ (held m (contains s)),
)

-- The sum over the map.
pub total_from-held : (acc : ℤ) (m : VotingPowers) → total_from acc m ≡ acc +ℤ held m (λ _. true)
unfolding total_from held
total_from-held acc [] = sym (+ℤ-zero acc)
total_from-held acc ((k, v) ∷ m) =
    total_from-held (acc +ℤ v) m ∙ +ℤ_assoc acc v (held m (λ _. true))

-- A set counts by its members only.
pub held-ext : (m : VotingPowers) (p q : Str → Bool) → ((a : Str) → p a ≡ q a) → held m p ≡ held m q
held-ext m p q h = rw (fun_ext h)
