-- ===== src/Messages/Rcc.antt =====
-- `GetExtendedRCC` and `GetMostRoundChangeMessages`.
use mathlib.Core.Path.{subst}
use go_ibft.Prelude.{
  ap, ℕ, ◌≤◌, ◌<◌, ◌≡◌, refl, sym, ◌&&◌, Bool, true, Option, none, some, List, [], ◌∷◌, ltb, leb,
  ◌==◌, nat_eq, str_eq, if◌then◌else◌, arith, ◌⊎◌, inl, inr, Bool-cases, Result, ok, not, All,
  length,
}
use go_ibft.Proto.{IbftMessage}
use go_ibft.Messages.{
  get_most_round_change_messages, messages_at, Messages, ProtoMessages, RoundMessageMap, rounds_at,
  messages_at, valid_of, extended_rcc_from, get_extended_rcc, most_from,
}
use go_ibft.Messages.Valid.{keep_entries, values}

-- The map has an entry for the round.
abbrev pub Holds : RoundMessageMap → ℕ → ProtoMessages → Type 0
Holds [] r pm = ⊥
Holds (e ∷ rs) r pm = (e.0 ≡ r) × (e.1 ≡ pm) ⊎ Holds rs r pm

-- A round of the map whose messages that pass make a certificate.
abbrev pub Good : (IbftMessage → Bool) → (ℕ → List IbftMessage → Bool) → ℕ × ProtoMessages → Type 0
Good p q e = q e.0 (values (keep_entries p e.1)) ≡ true

-- The outcome is the best so far, no good round being above it, or it comes from a good round above
-- it such that no good round is higher.
abbrev pub Chosen :
    (IbftMessage → Bool)
    → (ℕ → List IbftMessage → Bool)
    → ℕ
    → Option (List IbftMessage)
    → RoundMessageMap
    → Option (List IbftMessage)
    → Type 0
Chosen p q highest best rs out =
    ((out ≡ best) × All (λ e. Good p q e → e.0 ≤ highest) rs)
    ⊎ ((round : ℕ) × (pm : ProtoMessages) × (highest < round)
        × Holds rs round pm
        × (out ≡ some (values (keep_entries p pm)))
        × (q round (values (keep_entries p pm)) ≡ true)
        × All (λ e. Good p q e → e.0 ≤ round) rs)

Chosen-skip :
    (p : IbftMessage → Bool) (q : ℕ → List IbftMessage → Bool) (highest : ℕ)
    (best : Option (List IbftMessage)) (e : ℕ × ProtoMessages) (rs : RoundMessageMap)
    (out : Option (List IbftMessage))
    → (Good p q e → e.0 ≤ highest)
    → Chosen p q highest best rs out
    → Chosen p q highest best (e ∷ rs) out
Chosen-skip p q highest best e rs out h (inl (o, a)) = inl (o, (h, a))
Chosen-skip p q highest best e rs out h (inr (r, pm, lt, hold, o, g, a)) =
    inr (r, pm, lt, inr hold, o, g, (λ x. omega (arith, h x), a))

Chosen-take :
    (p : IbftMessage → Bool) (q : ℕ → List IbftMessage → Bool) (highest : ℕ)
    (best : Option (List IbftMessage)) (e : ℕ × ProtoMessages) (rs : RoundMessageMap)
    (out : Option (List IbftMessage))
    → highest < e.0
    → Good p q e
    → Chosen p q e.0 (some (values (keep_entries p e.1))) rs out
    → Chosen p q highest best (e ∷ rs) out
Chosen-take p q highest best e rs out lt g (inl (o, a)) =
    inr (e.0, e.1, lt, inl (refl, refl), o, g, (λ x. omega arith, a))
Chosen-take p q highest best e rs out lt g (inr (r, pm, lt', hold, o, g', a)) =
    inr (r, pm, omega arith, inr hold, o, g', (λ x. omega arith, a))

module _ (check : IbftMessage → Result Bool) (p : IbftMessage → Bool)
    (check_rcc : ℕ → List IbftMessage → Result Bool) (q : ℕ → List IbftMessage → Bool)
    (pure : (m : IbftMessage) → check m ≡ ok (p m))
    (pure_rcc : (r : ℕ) (l : List IbftMessage) → check_rcc r l ≡ ok (q r l)) where
  valid_of-keep : (pm : ProtoMessages) → valid_of check pm ≡ ok (values (keep_entries p pm))
  unfolding valid_of
  valid_of-keep [] = refl
  valid_of-keep ((k, m) ∷ pm) = rw (pure m, valid_of-keep pm) (ground arith)

  extended_rcc_from-Chosen :
      (highest : ℕ) (best : Option (List IbftMessage)) (rs : RoundMessageMap)
      → (out : Option (List IbftMessage)) × (extended_rcc_from check check_rcc highest best rs
          ≡ ok out)
        × Chosen p q highest best rs out
  unfolding extended_rcc_from
  extended_rcc_from-Chosen highest best [] = (best, refl, inl (refl, tt))
  extended_rcc_from-Chosen highest best ((round, pm) ∷ rs) = elim (Bool-cases (leb round highest)) [
    | inl low ↦
        let (out, run, c) = extended_rcc_from-Chosen highest best rs in
        (
          out,
          rw (low, extended_rcc_from) run,
          Chosen-skip p q highest best (round, pm) rs out (λ _. ground arith) c,
        )
    | inr high ↦ elim (Bool-cases (q round (values (keep_entries p pm)))) [
      | inl g ↦
          let valid : List IbftMessage = values (keep_entries p pm) in
          let (out, run, c) = extended_rcc_from-Chosen round (some valid) rs in
          (
            out,
            rw (high, extended_rcc_from, valid_of-keep pm, pure_rcc round valid, g) run,
            Chosen-take p q highest best (round, pm) rs out (ground arith) g c,
          )
      | inr b ↦
          let valid : List IbftMessage = values (keep_entries p pm) in
          let (out, run, c) = extended_rcc_from-Chosen highest best rs in
          (
            out,
            rw (high, extended_rcc_from, valid_of-keep pm, pure_rcc round valid, b) run,
            Chosen-skip p q highest best (round, pm) rs out (λ g. cc) c,
          )
    ]
  ]

  -- With checks that do not panic: `GetExtendedRCC` returns nil exactly if no round above 0 has a
  -- certificate among its valid messages, and else the valid messages of the highest such round,
  -- in whatever order the map is visited.
  get_extended_rcc-highest :
      (height : ℕ) (ms : Messages)
      → (out : Option (List IbftMessage)) × (get_extended_rcc height check check_rcc ms ≡ ok out)
        × Chosen p q 0 none (rounds_at ms.round_change_messages height) out
  unfolding get_extended_rcc
  get_extended_rcc-highest height ms =
      extended_rcc_from-Chosen 0 none (rounds_at ms.round_change_messages height)

-- The loop's best count is that of an entry at the bound or above, and none there has more.
abbrev pub Most : ℕ → ℕ → ℕ → RoundMessageMap → ℕ × ℕ → Type 0
Most min_round round count rs out =
    ((out.0 ≡ round) × (out.1 ≡ count)
      ⊎ (min_round ≤ out.0)
        × (count < out.1)
        × ((pm : ProtoMessages) × Holds rs out.0 pm × (length pm ≡ out.1)))
    × All (λ e. min_round ≤ e.0 → length e.1 ≤ out.1) rs
    × (count ≤ out.1)

Most-take :
    (min_round round count r : ℕ) (pm : ProtoMessages) (rs : RoundMessageMap) (out : ℕ × ℕ)
    → min_round ≤ r
    → count < length pm
    → Most min_round r (length pm) rs out
    → Most min_round round count ((r, pm) ∷ rs) out
Most-take min_round round count r pm rs out b lt (inl (x, y), all, le) =
    (inr (omega arith, omega arith, (pm, inl (sym x, refl), sym y)), (λ _. le, all), omega arith)
Most-take min_round round count r pm rs out b lt (inr (x, y, (pm', h, e)), all, le) =
    (inr (x, omega arith, (pm', inr h, e)), (λ _. le, all), omega arith)

Most-skip :
    (min_round round count r : ℕ) (pm : ProtoMessages) (rs : RoundMessageMap) (out : ℕ × ℕ)
    → (min_round ≤ r → length pm ≤ count)
    → Most min_round round count rs out
    → Most min_round round count ((r, pm) ∷ rs) out
Most-skip min_round round count r pm rs out b (inl h, all, le) =
    (inl h, (λ x. omega (arith, b x), all), le)
Most-skip min_round round count r pm rs out b (inr (x, y, (pm', h, e)), all, le) =
    (inr (x, y, (pm', inr h, e)), (λ z. omega (arith, b z), all), le)

most_from-Most :
    (min_round round count : ℕ) (rs : RoundMessageMap)
    → Most min_round round count rs (most_from min_round round count rs)
unfolding most_from
most_from-Most min_round round count [] = (inl (refl, refl), tt, omega arith)
most_from-Most min_round round count ((r, pm) ∷ rs) =
    elim (Bool-cases (not (ltb r min_round) && ltb count (length pm))) [
      | inl t ↦ subst (Most min_round round count ((r, pm) ∷ rs)) (sym (next t)) (
          Most-take min_round round count r pm rs (most_from min_round r (length pm) rs)
            (ground arith) (ground arith) (most_from-Most min_round r (length pm) rs))
      | inr t ↦ subst (Most min_round round count ((r, pm) ∷ rs)) (sym (next t)) (
          Most-skip min_round round count r pm rs (most_from min_round round count rs)
            (λ b. ground arith) (most_from-Most min_round round count rs))
    ]
  where
    next :
        {b : Bool}
        → not (ltb r min_round) && ltb count (length pm) ≡ b
        → most_from min_round round count ((r, pm) ∷ rs)
          ≡ most_from min_round (if b then r else round) (if b then length pm else count) rs
    next =
        ap (λ b. most_from min_round (if b then r else round) (if b then length pm else count) rs)

-- `GetMostRoundChangeMessages` returns nil where the best round is 0, and else all messages of a round
-- at the bound or above that no such round outnumbers.
get_most_round_change_messages-Most :
    (min_round height : ℕ) (ms : Messages)
    → let rs = rounds_at ms.round_change_messages height in
      let best = most_from min_round 0 0 rs in
      Most min_round 0 0 rs best
      × (get_most_round_change_messages min_round height ms
          ≡ (if best.0 == 0 then none else some (values (messages_at rs best.0))))
unfolding get_most_round_change_messages
get_most_round_change_messages-Most min_round height ms =
    (most_from-Most min_round 0 0 (rounds_at ms.round_change_messages height), refl)
