-- ===== src/Tests/Quorums.antt =====
-- Quorums of the four validators.
use go_ibft.Prelude.{
  ◌||◌, ◌==◌, ◌<◌, ◌*◌, ◌≡◌, refl, Bool, true, false, List, [], ◌∷◌, Str, contains, Distinct,
  str_eq, arith,
}
use go_ibft.Validators.{has_quorum, power_from}
use go_ibft.Validators.Power.{keys}
use go_ibft.Validators.Quorum.{
  IsRegular, IsReady, weight, total_weight, quorum_intersection, honest_quorum,
}
use go_ibft.Tests.{address, powers, manager}

abbrev s123 : List Str
s123 = address 1 ∷ address 2 ∷ address 3 ∷ []

abbrev s321 : List Str
s321 = address 3 ∷ address 2 ∷ address 1 ∷ []

abbrev s234 : List Str
s234 = address 2 ∷ address 3 ∷ address 4 ∷ []

abbrev everyone : List Str
everyone = address 1 ∷ s234

pub powers-IsRegular : IsRegular powers
powers-IsRegular = record {
  nonneg = (omega arith, (omega arith, (omega arith, (omega arith, tt))));
  distinct = (refl, (refl, (refl, (refl, tt))));
}

pub manager-IsReady : IsReady manager powers
unfolding weight
manager-IsReady = record { powers = refl; quorum = refl; positive = omega arith }

pub few_faulty : weight powers (contains (address 2 ∷ [])) * 3 < total_weight powers
unfolding weight
few_faulty = omega arith

quorum-runs :
    (has_quorum manager s123 ≡ true) × (has_quorum manager (address 1 ∷ address 2 ∷ []) ≡ false)
unfolding has_quorum power_from
quorum-runs = (refl, refl)

s123_quorum : has_quorum manager s123 ≡ true
unfolding has_quorum power_from
s123_quorum = refl

s234_quorum : has_quorum manager s234 ≡ true
unfolding has_quorum power_from
s234_quorum = refl

d123 : Distinct s123
d123 = (refl, (refl, (refl, tt)))

d321 : Distinct s321
d321 = (refl, (refl, (refl, tt)))

d234 : Distinct s234
d234 = (refl, (refl, (refl, tt)))

d1234 : Distinct everyone
d1234 = (refl, d234)

quorum_intersection_example :
    (a : Str) × (contains (keys powers) a ≡ true)
    × (contains s123 a ≡ true)
    × (contains s234 a ≡ true)
    × (contains (address 2 ∷ []) a ≡ false)
quorum_intersection_example =
    quorum_intersection powers (address 2 ∷ []) s123 s234 powers-IsRegular manager-IsReady d123 d234
      s123_quorum s234_quorum few_faulty

split_honest :
    (x1 x2 x3 x4 : Bool)
    → (x1 || (x2 || (x3 || (x4 || false)))) ≡ true
    → (x2 || false) ≡ false
    → (x3 || (x4 || (x1 || false))) ≡ true
split_honest x1 x2 x3 x4 h k = ground (arith, h, k)

honest_quorum_example : has_quorum manager (address 3 ∷ address 4 ∷ address 1 ∷ []) ≡ true
honest_quorum_example =
    honest_quorum powers (address 2 ∷ []) (address 3 ∷ address 4 ∷ address 1 ∷ []) powers-IsRegular
      manager-IsReady (refl, (refl, (refl, tt)))
      (λ a h k.
        split_honest (address 1 == a) (address 2 == a) (address 3 == a) (address 4 == a) h k)
      few_faulty

weaken :
    (x1 x2 x3 x4 : Bool)
    → (x2 || (x3 || (x4 || false))) ≡ true
    → (x1 || (x2 || (x3 || (x4 || false)))) ≡ true
weaken x1 x2 x3 x4 h = ground (arith, h)

turn : (x1 x2 x3 : Bool) → (x1 || (x2 || (x3 || false))) ≡ (x3 || (x2 || (x1 || false)))
turn x1 x2 x3 = ground arith
