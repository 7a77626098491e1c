-- ===== src/Messages/Certified.antt =====
-- What `GetExtendedRCC` (messages/messages.go) returns under checks that may panic.
use go_ibft.Prelude.{
  ℕ, ◌≤◌, ◌<◌, ◌≡◌, refl, sym, ◌∙◌, Bool, true, false, Option, none, some, List, [], ◌∷◌, leb, not,
  if◌then◌else◌, arith, ◌⊎◌, inl, inr, Bool-cases, Result, ok, ◌>>=◌, >>=-eq-ok, All,
}
use go_ibft.Proto.{IbftMessage}
use go_ibft.Messages.{
  Messages, ProtoMessages, RoundMessageMap, rounds_at, valid_of, extended_rcc_from,
  get_extended_rcc,
}
use go_ibft.Messages.Rcc.{Holds}

-- The call does not panic.
abbrev pub Returns : {A : Type 0} → Result A → Type 0
Returns {A = A} o = (a : A) × (o ≡ ok a)

module _ (check : IbftMessage → Result Bool) (check_rcc : ℕ → List IbftMessage → Result Bool) where
  -- The round's messages that pass make no certificate.
  abbrev pub Rejected : ℕ × ProtoMessages → Type 0
  Rejected e =
      (msgs : List IbftMessage) × (valid_of check e.1 ≡ ok msgs) × (check_rcc e.0 msgs ≡ ok false)

  -- The messages of a round that pass make a certificate, and those of no higher round do.
  abbrev pub Certified : RoundMessageMap → ℕ → List IbftMessage → Type 0
  Certified rs round msgs =
      (pm : ProtoMessages) × Holds rs round pm
      × (valid_of check pm ≡ ok msgs)
      × (check_rcc round msgs ≡ ok true)
      × All (λ e. (e.0 ≤ round) ⊎ Rejected e) rs

  -- The outcome is the best so far, no round above it having a certificate, or it is that of a round
  -- above it.
  abbrev pub Found :
      ℕ → Option (List IbftMessage) → RoundMessageMap → Option (List IbftMessage) → Type 0
  Found highest best rs out =
      ((out ≡ best) × All (λ e. (e.0 ≤ highest) ⊎ Rejected e) rs)
      ⊎ ((round : ℕ) × (msgs : List IbftMessage) × (highest < round)
          × (out ≡ some msgs)
          × Certified rs round msgs)

  Found-skip :
      (highest : ℕ) (best : Option (List IbftMessage)) (e : ℕ × ProtoMessages)
      (rs : RoundMessageMap) (out : Option (List IbftMessage))
      → (e.0 ≤ highest) ⊎ Rejected e
      → Found highest best rs out
      → Found highest best (e ∷ rs) out
  Found-skip highest best e rs out h (inl (o, a)) = inl (o, (h, a))
  Found-skip highest best e rs out (inl h) (inr (r, l, lt, o, (pm, hold, v, g, a))) =
      inr (r, l, lt, o, (pm, inr hold, v, g, (inl (omega arith), a)))
  Found-skip highest best e rs out (inr h) (inr (r, l, lt, o, (pm, hold, v, g, a))) =
      inr (r, l, lt, o, (pm, inr hold, v, g, (inr h, a)))

  Found-take :
      (highest : ℕ) (best : Option (List IbftMessage)) (e : ℕ × ProtoMessages)
      (rs : RoundMessageMap) (out : Option (List IbftMessage)) (msgs : List IbftMessage)
      → highest < e.0
      → valid_of check e.1 ≡ ok msgs
      → check_rcc e.0 msgs ≡ ok true
      → Found e.0 (some msgs) rs out
      → Found highest best (e ∷ rs) out
  Found-take highest best e rs out msgs lt v g (inl (o, a)) =
      inr (e.0, msgs, lt, o, (e.1, inl (refl, refl), v, g, (inl (omega arith), a)))
  Found-take highest best e rs out msgs lt v g (inr (r, l, lt', o, (pm, hold, v', g', a))) =
      inr (r, l, omega arith, o, (pm, inr hold, v', g', (inl (omega arith), a)))

  -- One round of the loop, by what the rest of it finds from each best so far.
  take_or_skip-Found :
      (highest round : ℕ) (best : Option (List IbftMessage)) (pm : ProtoMessages)
      (rs : RoundMessageMap) (out : Option (List IbftMessage))
      (next : ℕ → Option (List IbftMessage) → Result (Option (List IbftMessage)))
      → ((h : ℕ) (o : Option (List IbftMessage)) → next h o ≡ ok out → Found h o rs out)
      → highest < round
      → (valid_of check pm >>= λ msgs. check_rcc round msgs >>= λ good. elim good [
        | false ↦ next highest best
        | true ↦ next round (some msgs)
      ])
        ≡ ok out
      → Found highest best ((round, pm) ∷ rs) out
  take_or_skip-Found highest round best pm rs out next ih lt h =
      let (msgs, v, h') = >>=-eq-ok (valid_of check pm) _ h in
      let (good, g, h'') = >>=-eq-ok (check_rcc round msgs) _ h' in go msgs good v g h''
    where
      go :
          (msgs : List IbftMessage) (good : Bool)
          → valid_of check pm ≡ ok msgs
          → check_rcc round msgs ≡ ok good
          → elim good [ false ↦ next highest best | true ↦ next round (some msgs) ] ≡ ok out
          → Found highest best ((round, pm) ∷ rs) out
      go msgs false v g e =
          Found-skip highest best (round, pm) rs out (inr (msgs, v, g)) (ih highest best e)
      go msgs true v g e =
          Found-take highest best (round, pm) rs out msgs lt v g (ih round (some msgs) e)

  extended_rcc_from-Found :
      (highest : ℕ) (best : Option (List IbftMessage)) (rs : RoundMessageMap)
      (out : Option (List IbftMessage))
      → extended_rcc_from check check_rcc highest best rs ≡ ok out
      → Found highest best rs out
  unfolding extended_rcc_from
  extended_rcc_from-Found highest best [] out h = inl (ground arith, tt)
  extended_rcc_from-Found highest best ((round, pm) ∷ rs) out h =
      elim (Bool-cases (leb round highest)) [
        | inl low ↦
            Found-skip highest best (round, pm) rs out (inl (ground arith))
              (extended_rcc_from-Found highest best rs out (ground arith))
        | inr high ↦
            take_or_skip-Found highest round best pm rs out
              (λ hi o. extended_rcc_from check check_rcc hi o rs)
              (λ hi o. extended_rcc_from-Found hi o rs out) (ground arith)
              (sym (rw (high, extended_rcc_from) refl) ∙ h)
      ]

  valid_of-Returns :
      (pm : ProtoMessages) → All (λ m. Returns (check m.1)) pm → Returns (valid_of check pm)
  unfolding valid_of
  valid_of-Returns [] a = ([], refl)
  valid_of-Returns ((k, m) ∷ pm) ((good, g), a) =
      let (msgs, v) = valid_of-Returns pm a in (if not good then msgs else m ∷ msgs, rw (g, v) refl)

  extended_rcc_from-Returns :
      (highest : ℕ) (best : Option (List IbftMessage)) (rs : RoundMessageMap)
      → ((r : ℕ) (l : List IbftMessage) → Returns (check_rcc r l))
      → All (λ e. All (λ m. Returns (check m.1)) e.1) rs
      → Returns (extended_rcc_from check check_rcc highest best rs)
  unfolding extended_rcc_from
  extended_rcc_from-Returns highest best [] total a = (best, refl)
  extended_rcc_from-Returns highest best ((round, pm) ∷ rs) total a =
      elim (Bool-cases (leb round highest)) [
        | inl low ↦
            rw (low, extended_rcc_from) (extended_rcc_from-Returns highest best rs total a.1)
        | inr high ↦
            let (msgs, v) = valid_of-Returns pm a.0 in
            let (good, g) = total round msgs in
            elim (Bool-cases good) [
              | inl t ↦
                  rw (high, extended_rcc_from, v, g, t)
                    (extended_rcc_from-Returns round (some msgs) rs total a.1)
              | inr t ↦
                  rw (high, extended_rcc_from, v, g, t)
                    (extended_rcc_from-Returns highest best rs total a.1)
            ]
      ]

  pub get_extended_rcc-Certified :
      (height : ℕ) (ms : Messages) (out : Option (List IbftMessage))
      → get_extended_rcc height check check_rcc ms ≡ ok out
      → let rs = rounds_at ms.round_change_messages height in Found 0 none rs out
  unfolding get_extended_rcc
  get_extended_rcc-Certified height ms out h =
      extended_rcc_from-Found 0 none (rounds_at ms.round_change_messages height) out h

  -- The call returns where the checks do.
  pub get_extended_rcc-Found :
      (height : ℕ) (ms : Messages)
      → ((r : ℕ) (l : List IbftMessage) → Returns (check_rcc r l))
      → All (λ e. All (λ m. Returns (check m.1)) e.1) (rounds_at ms.round_change_messages height)
      → (out : Option (List IbftMessage)) × (get_extended_rcc height check check_rcc ms ≡ ok out)
        × Found 0 none (rounds_at ms.round_change_messages height) out
  unfolding get_extended_rcc
  get_extended_rcc-Found height ms total a =
      let (out, run) =
        extended_rcc_from-Returns 0 none (rounds_at ms.round_change_messages height) total a in
      (out, run, get_extended_rcc-Certified height ms out run)
