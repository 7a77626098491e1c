-- ===== src/Messages/Passing.antt =====
-- The messages of a round that pass a check (the inner loop of `GetExtendedRCC`).
use mathlib.Core.Path.{subst}
use go_ibft.Prelude.{
  ◌≡◌, ap, ◌∙◌, Bool, true, false, List, [], ◌∷◌, Str, map, contains, Distinct, arith, inl, inr,
  nat_eq, str_eq, All, Bool-cases, Result, ok, >>=-eq-ok,
}
use go_ibft.Proto.{IbftMessage, sender}
use go_ibft.Messages.{ProtoMessages, valid_of}
use go_ibft.Messages.Valid.{names}

pub valid_of-passed :
    (check : IbftMessage → Result Bool) (pm : ProtoMessages) (l : List IbftMessage)
    → valid_of check pm ≡ ok l
    → All (λ m. check m ≡ ok true) l
unfolding valid_of
valid_of-passed check [] l h = let e : [] ≡ l = ground arith in subst (All _) e tt
valid_of-passed check ((k, m) ∷ pm) l h =
    let (good, g, h') = >>=-eq-ok (check m) _ h in
    let (rest, run, e) = >>=-eq-ok (valid_of check pm) _ h' in
    let ih = valid_of-passed check pm rest run in
    elim (Bool-cases good) [
      | inl t ↦
          let same : m ∷ rest ≡ l = ground arith in
          subst (All (λ m. check m ≡ ok true)) same (g ∙ ap (λ x. ok x) t, ih)
      | inr f ↦ let same : rest ≡ l = ground arith in subst (All (λ m. check m ≡ ok true)) same ih
    ]

pub valid_of-absent :
    (check : IbftMessage → Result Bool) (pm : ProtoMessages) (l : List IbftMessage) (k : Str)
    → All (λ e. sender e.1 ≡ e.0) pm
    → contains (names pm) k ≡ false
    → valid_of check pm ≡ ok l
    → contains (map (λ x. sender x) l) k ≡ false
unfolding valid_of
valid_of-absent check [] l k a c h = ground arith
valid_of-absent check ((j, m) ∷ pm) l k (s, a) c h =
    let (good, g, h') = >>=-eq-ok (check m) _ h in
    let (rest, run, e) = >>=-eq-ok (valid_of check pm) _ h' in
    let ih = valid_of-absent check pm rest k a (ground arith) run in
    elim (Bool-cases good) [ inl t ↦ ground (arith, t, ih, e) | inr f ↦ ground (arith, f, ih, e) ]

-- Of messages that stand once under their senders, those that pass have distinct senders.
pub valid_of-Distinct :
    (check : IbftMessage → Result Bool) (pm : ProtoMessages) (l : List IbftMessage)
    → All (λ e. sender e.1 ≡ e.0) pm
    → Distinct (names pm)
    → valid_of check pm ≡ ok l
    → Distinct (map (λ x. sender x) l)
unfolding valid_of
valid_of-Distinct check [] l a d h =
    let e : [] ≡ l = ground arith in subst (λ l. Distinct (map (λ x. sender x) l)) e tt
valid_of-Distinct check ((k, m) ∷ pm) l (s, a) (new, d) h =
    let (good, g, h') = >>=-eq-ok (check m) _ h in
    let (rest, run, e) = >>=-eq-ok (valid_of check pm) _ h' in
    let ih = valid_of-Distinct check pm rest a d run in
    elim (Bool-cases good) [
      | inl t ↦
          let same : m ∷ rest ≡ l = ground arith in
          subst (λ l. Distinct (map (λ x. sender x) l)) same
            (valid_of-absent check pm rest (sender m) a (rw s new) run, ih)
      | inr f ↦
          let same : rest ≡ l = ground arith in
          subst (λ l. Distinct (map (λ x. sender x) l)) same ih
    ]
