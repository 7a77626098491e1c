-- ===== src/Validators/Quorum.antt =====
-- Quorums (`setCurrentVotingPower`, `calculateQuorum`, `HasQuorum`): how large they are, and what two
-- of them have in common.
use go_ibft.Prelude.{
  ℕ, ◌+◌, ◌*◌, ◌/◌, ◌≤◌, ◌<◌, ◌&&◌, not, ◌≡◌, refl, sym, ◌∙◌, Bool, true, false, none, some, List,
  [], ◌∷◌, Str, if◌then◌else◌, contains, Distinct, str_eq, beq_refl, inl, inr, arith, Bool-cases,
  ◌⊎◌, leb, le→leb, All,
}
use mathlib.Core.Path.{fun_ext}
use go_ibft.Prelude.Int.{ℤ, pos, negsuc, pos_part, ◌+ℤ◌, ◌≤ℤ◌, zero-+ℤ, int_laws}
use go_ibft.Validators.{
  VotingPowers, ValidatorManager, err_voting_power_not_correct, calculate_quorum, total_from,
  calculate_total_voting_power, set_current_voting_power, has_quorum,
}
use go_ibft.Validators.Power.{keys, held, power_from-held, total_from-held}

-- No voting power is negative, and no address stands twice, as in any Go map.
pub record IsRegular (m : VotingPowers) : Type 0 where
  pub nonneg : All (λ e. pos 0 ≤ℤ e.1) m
  pub distinct : Distinct (keys m)

-- The power of the validators that a test picks, as a number.
unfoldable pub weight : VotingPowers → (Str → Bool) → ℕ
weight [] p = 0
weight ((k, v) ∷ m) p = let rest = weight m p in if p k then pos_part v + rest else rest

abbrev pub total_weight : VotingPowers → ℕ
total_weight m = weight m (λ _. true)

nonneg-pos : (v : ℤ) → pos 0 ≤ℤ v → v ≡ pos (pos_part v)
nonneg-pos (pos n) h = refl
nonneg-pos (negsuc n) h = absurd (omega arith)

pos-+ℤ : (a b : ℕ) → pos a +ℤ pos b ≡ pos (a + b)
pos-+ℤ a b = omega int_laws

held-weight :
    (m : VotingPowers) (p : Str → Bool) → All (λ e. pos 0 ≤ℤ e.1) m → held m p ≡ pos (weight m p)
unfolding held weight
held-weight [] p h = refl
held-weight ((k, v) ∷ m) p h =
    ground (arith, held-weight m p h.1, nonneg-pos v h.0, pos-+ℤ (pos_part v) (weight m p))

total-weight :
    (m : VotingPowers)
    → All (λ e. pos 0 ≤ℤ e.1) m
    → calculate_total_voting_power m ≡ pos (total_weight m)
unfolding calculate_total_voting_power total_from
total-weight m h = total_from-held (pos 0) m ∙ (zero-+ℤ _ ∙ held-weight m (λ _. true) h)

calculate_quorum-pos : (n : ℕ) → calculate_quorum (pos n) ≡ pos (n * 2 / 3 + 1)
unfolding calculate_quorum
calculate_quorum-pos n = ground arith

-- What the manager holds after a map of voting powers has been accepted.
pub record IsReady (vm : ValidatorManager) (m : VotingPowers) : Type 0 where
  pub powers : vm.validators_voting_power ≡ some m
  pub quorum : vm.quorum_size ≡ pos (total_weight m * 2 / 3 + 1)
  pub positive : 0 < total_weight m

-- A regular map is accepted exactly if its total is positive; else the manager is left as it was.
pub set_current_voting_power_cases :
    (vm : ValidatorManager) (m : VotingPowers)
    → IsRegular m
    → let (vm', err) = set_current_voting_power vm m in
      ((0 < total_weight m) × (err ≡ none) × IsReady vm' m)
      ⊎ ((total_weight m ≡ 0) × (err ≡ some err_voting_power_not_correct) × (vm' ≡ vm))
unfolding set_current_voting_power
set_current_voting_power_cases vm m r =
    ground (arith, total-weight m r.nonneg, calculate_quorum-pos (total_weight m))

-- For a positive total, a quorum is more than two thirds of it, by no more than one unit, and
-- within it.
calculate_quorum_bounds :
    (n : ℕ)
    → 0 < n
    → let q = pos_part (calculate_quorum (pos n)) in
      (calculate_quorum (pos n) ≡ pos q) × (n * 2 < q * 3) × (q * 3 ≤ n * 2 + 3) × (q ≤ n)
calculate_quorum_bounds n h =
    rw (calculate_quorum-pos n) (refl, omega arith, omega arith, omega arith)

module _ {vm : ValidatorManager} (m : VotingPowers) (r : IsRegular m) (ready : IsReady vm m) where
  -- The vote counts what the senders hold, and compares it with two thirds of the total.
  pub has_quorum-weight :
      (s : List Str)
      → Distinct s
      → has_quorum vm s ≡ leb (total_weight m * 2 / 3 + 1) (weight m (contains s))
  unfolding has_quorum
  has_quorum-weight s d = ground (
    arith,
    ready.powers,
    ready.quorum,
    power_from-held (pos 0) m s r.distinct d,
    zero-+ℤ (held m (contains s)),
    held-weight m (contains s) r.nonneg,
  )

  -- For a manager that is ready with a regular map of voting powers, and senders without
  -- duplicates: two lists with the same senders, in whatever order, have a quorum or both have
  -- none.
  has_quorum-order :
      (s s' : List Str)
      → Distinct s
      → Distinct s'
      → ((a : Str) → contains s a ≡ contains s' a)
      → has_quorum vm s ≡ has_quorum vm s'
  has_quorum-order s s' d d' h =
      has_quorum-weight s d ∙ (rw (fun_ext h) (sym (has_quorum-weight s' d')))

-- Where two sets share no validator outside a third, their powers add up to no more than the total
-- and the power of the third.
common :
    (m : VotingPowers) (a b f : Str → Bool)
    → ((k : Str) × (contains (keys m) k ≡ true) × (a k ≡ true) × (b k ≡ true) × (f k ≡ false))
      ⊎ (weight m a + weight m b ≤ total_weight m + weight m f)
unfolding weight
common [] a b f = inr (omega arith)
common ((k, v) ∷ m) a b f = elim (common m a b f) [
  | inl (x, h, ha, hb, hf) ↦ inl (x, ground arith, ha, hb, hf)
  | inr le ↦ elim (Bool-cases (a k && (b k && not (f k)))) [
    | inl t ↦ inl (k, ground (arith, beq_refl k), ground arith, ground arith, ground arith)
    | inr n ↦ inr (ground arith)
  ]
]

weight-le :
    (m : VotingPowers) (a b : Str → Bool)
    → ((k : Str) → a k ≡ true → b k ≡ true)
    → weight m a ≤ weight m b
unfolding weight
weight-le [] a b h = omega arith
weight-le ((k, v) ∷ m) a b h = ground (arith, weight-le m a b h, h k)

-- For a manager that is ready with a regular map of voting powers, and senders without duplicates:
-- two quorums share a validator outside every set that holds less than a third of the power.
pub quorum_intersection :
    {vm : ValidatorManager} (m : VotingPowers) (faulty s s' : List Str)
    → IsRegular m
    → IsReady vm m
    → Distinct s
    → Distinct s'
    → has_quorum vm s ≡ true
    → has_quorum vm s' ≡ true
    → weight m (contains faulty) * 3 < total_weight m
    → (a : Str) × (contains (keys m) a ≡ true)
      × (contains s a ≡ true)
      × (contains s' a ≡ true)
      × (contains faulty a ≡ false)
quorum_intersection m faulty s s' r ready d d' q q' few =
    elim (common m (contains s) (contains s') (contains faulty)) [
      | inl found ↦ found
      | inr le ↦
          absurd
            (ground (arith, has_quorum-weight m r ready s d, has_quorum-weight m r ready s' d'))
    ]

cover :
    (m : VotingPowers) (p f : Str → Bool)
    → ((a : Str) → contains (keys m) a ≡ true → f a ≡ false → p a ≡ true)
    → total_weight m ≤ weight m p + weight m f
unfolding weight
cover [] p f h = omega arith
cover ((k, v) ∷ m) p f h =
    ground (arith, cover m p f (λ a c. h a (ground arith)), h k (ground (arith, beq_refl k)))

-- For a manager that is ready with a regular map of voting powers, and senders without duplicates:
-- all validators outside a set that holds less than a third of the power are a quorum.
pub honest_quorum :
    {vm : ValidatorManager} (m : VotingPowers) (faulty s : List Str)
    → IsRegular m
    → IsReady vm m
    → Distinct s
    → ((a : Str) → contains (keys m) a ≡ true → contains faulty a ≡ false → contains s a ≡ true)
    → weight m (contains faulty) * 3 < total_weight m
    → has_quorum vm s ≡ true
honest_quorum m faulty s r ready d all few =
    rw (has_quorum-weight m r ready s d)
      (le→leb _ _ (omega (arith, cover m (contains s) (contains faulty) all)))

-- For a manager that is ready with a regular map of voting powers, and senders without duplicates:
-- whatever contains a quorum is a quorum.
has_quorum_mono :
    {vm : ValidatorManager} (m : VotingPowers) (s s' : List Str)
    → IsRegular m
    → IsReady vm m
    → Distinct s
    → Distinct s'
    → ((a : Str) → contains s a ≡ true → contains s' a ≡ true)
    → has_quorum vm s ≡ true
    → has_quorum vm s' ≡ true
has_quorum_mono m s s' r ready d d' h q = ground (
  arith,
  has_quorum-weight m r ready s d,
  has_quorum-weight m r ready s' d',
  weight-le m (contains s) (contains s') h,
)
