-- ===== src/Messages/Extended.antt =====
-- What `GetExtendedRCC` (messages/messages.go) returns, told without its loops.
use go_ibft.Prelude.{
  ℕ, ◌≤◌, ◌<◌, ◌≡◌, sym, Bool, true, false, Option, none, some, List, [], ◌∷◌, arith, ◌⊎◌, inl, inr,
  Result, ok, All, All-map, >>=-eq-ok,
}
use go_ibft.Proto.{IbftMessage}
use go_ibft.Messages.{
  Messages, ProtoMessages, RoundMessageMap, rounds_at, valid_of, get_extended_rcc,
}
use go_ibft.Messages.Rcc.{Holds}
use go_ibft.Messages.Certified.{Returns, Rejected, get_extended_rcc-Found}

module _ (check : IbftMessage → Result Bool) (check_rcc : ℕ → List IbftMessage → Result Bool) where
  -- The list has the messages that pass, in their order, and no other.
  abbrev pub Selects : ProtoMessages → List IbftMessage → Type 0
  Selects [] msgs = msgs ≡ []
  Selects ((k, m) ∷ pm) msgs =
      (check m ≡ ok false) × Selects pm msgs
      ⊎ (check m ≡ ok true) × ((rest : List IbftMessage) × (msgs ≡ m ∷ rest) × Selects pm rest)

  valid_of-Selects :
      (pm : ProtoMessages) (msgs : List IbftMessage) → valid_of check pm ≡ ok msgs → Selects pm msgs
  unfolding valid_of
  valid_of-Selects [] msgs h = ground arith
  valid_of-Selects ((k, m) ∷ pm) msgs h =
      let (good, g, h') = >>=-eq-ok (check m) _ h in
      let (rest, r, h'') = >>=-eq-ok (valid_of check pm) _ h' in
      go good g rest (valid_of-Selects pm rest r) (ground arith)
    where
      go :
          (good : Bool)
          → check m ≡ ok good
          → (rest : List IbftMessage) → Selects pm rest
          → (elim good [ false ↦ rest | true ↦ m ∷ rest ]) ≡ msgs
          → Selects ((k, m) ∷ pm) msgs
      go false g rest r e = inl (g, rw (← e) r)
      go true g rest r e = inr (g, (rest, sym e, r))

  -- The messages of the round that pass make no certificate.
  abbrev pub WithoutRcc : ℕ × ProtoMessages → Type 0
  WithoutRcc e = (msgs : List IbftMessage) × Selects e.1 msgs × (check_rcc e.0 msgs ≡ ok false)

  -- Nil, if no round above 0 has a certificate, and else the messages that pass of the highest round that
  -- has one.
  abbrev pub HighestRcc : RoundMessageMap → Option (List IbftMessage) → Type 0
  HighestRcc rs out =
      ((out ≡ none) × All (λ e. (e.0 ≤ 0) ⊎ WithoutRcc e) rs)
      ⊎ ((round : ℕ) × (msgs : List IbftMessage) × (pm : ProtoMessages) × (0 < round)
          × (out ≡ some msgs)
          × Holds rs round pm
          × Selects pm msgs
          × (check_rcc round msgs ≡ ok true)
          × All (λ e. (e.0 ≤ round) ⊎ WithoutRcc e) rs)

  Rejected-WithoutRcc :
      (low : ℕ) (e : ℕ × ProtoMessages)
      → (e.0 ≤ low) ⊎ Rejected check check_rcc e
      → (e.0 ≤ low) ⊎ WithoutRcc e
  Rejected-WithoutRcc low e (inl h) = inl h
  Rejected-WithoutRcc low e (inr (msgs, v, g)) = inr (msgs, valid_of-Selects e.1 msgs v, g)

  -- Where the check on messages returns for the stored messages of the height, and the check on
  -- certificates always does, `GetExtendedRCC` returns: nil if no round above 0 has a certificate, and
  -- else the messages that pass of a round above 0, and no others, such that they make a certificate
  -- and those of no higher round do.
  pub get_extended_rcc-HighestRcc :
      (height : ℕ) (ms : Messages)
      → ((r : ℕ) (l : List IbftMessage) → Returns (check_rcc r l))
      → All (λ e. All (λ m. Returns (check m.1)) e.1) (rounds_at ms.round_change_messages height)
      → (out : Option (List IbftMessage)) × (get_extended_rcc height check check_rcc ms ≡ ok out)
        × HighestRcc (rounds_at ms.round_change_messages height) out
  get_extended_rcc-HighestRcc height ms total a =
      let (out, run, found) = get_extended_rcc-Found check check_rcc height ms total a in
      (
        out,
        run,
        elim found [
          | inl (o, l) ↦
              inl (o, All-map (Rejected-WithoutRcc 0) (rounds_at ms.round_change_messages height) l)
          | inr (round, msgs, lt, o, (pm, holds, v, g, l)) ↦ inr (
            round,
            msgs,
            pm,
            lt,
            o,
            holds,
            valid_of-Selects pm msgs v,
            g,
            All-map (Rejected-WithoutRcc round) (rounds_at ms.round_change_messages height) l,
          )
        ],
      )
