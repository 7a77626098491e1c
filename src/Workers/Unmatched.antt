-- ===== src/Workers/Unmatched.antt =====
-- The certificate that a proposer waits for (`waitForRCC`), where it is of another round than the proposal.
use mathlib.Core.Path.{subst, ap₂}
use go_ibft.Prelude.{
  ℕ, ◌≡◌, ◌≢◌, refl, sym, ap, ◌∙◌, true, none, some, List, [], ◌∷◌, arith, inl, inr, nat_eq, All,
  Result, ok, panic,
}
use go_ibft.Proto.{
  Bytes, View, IbftMessage, RoundChangeCertificate, view_of, rcc_ref, round_change_certificate,
  slice, items_of, rcc_messages,
}
use go_ibft.Extract.{extract_round_change_certificate}
use go_ibft.Backend.{Backend}
use go_ibft.Node.{Node}
use go_ibft.Messages.{ProtoMessages, rounds_at, valid_of}
use go_ibft.Messages.Rcc.{Holds}
use go_ibft.Messages.WellFormed.{IsWellFormed}
use go_ibft.Messages.Keyed.{IsKeyed}
use go_ibft.Messages.Certified.{Found, get_extended_rcc-Certified}
use go_ibft.Certificate.Made.{items_list-of}
use go_ibft.Proposals.{validate_proposal}
use go_ibft.Proposals.Accepted.{InView, validate_proposal-AcceptedProposal}
use go_ibft.Rounds.{
  handle_round_change_message, build_proposal, previous_proposal, is_valid_round_change,
  is_valid_rcc,
}
use go_ibft.Rounds.Reproposing.{Builds}
use go_ibft.Workers.Hopping.{IsCertified, Holds-All, valid_of-All}
use go_ibft.Workers.Certifying.{filed_by_round, Certified-highest}

-- What the handler finds are the messages that pass of an entry of the highest round with a certificate.
pub handle_round_change_message-entry :
    (b : Backend) (v : View) (n : Node) (msgs : List IbftMessage) (round : ℕ)
    → handle_round_change_message b v n ≡ ok (some msgs)
    → IsCertified b v n round
    → (pm : ProtoMessages) × Holds (rounds_at n.messages.round_change_messages v.height) round pm
      × (valid_of (is_valid_round_change b n v.height) pm ≡ ok msgs)
      × (is_valid_rcc n v round msgs ≡ ok true)
unfolding handle_round_change_message
handle_round_change_message-entry b v n msgs round h (above, (l, c)) = go (
    get_extended_rcc-Certified (is_valid_round_change b n v.height) (is_valid_rcc n v) v.height
      n.messages (some msgs) h)
  where
    go :
        Found
          (is_valid_round_change b n v.height)
          (is_valid_rcc n v)
          0
          none
          (rounds_at n.messages.round_change_messages v.height)
          (some msgs)
        → (pm : ProtoMessages) × Holds
            (rounds_at n.messages.round_change_messages v.height)
            round
            pm
          × (valid_of (is_valid_round_change b n v.height) pm ≡ ok msgs)
          × (is_valid_rcc n v round msgs ≡ ok true)
    go (inl f) = absurd (ground (arith, f.0))
    go (inr (j, l', lt, o, c')) =
        let le = Certified-highest b v n j round l' l c' c in
        let ge = Certified-highest b v n round j l l' c c' in
        let same : j ≡ round = omega arith in
        let is_l : l' ≡ msgs = ground arith in
        let (pm, hold, valid, good, a) = c' in
        (
          pm,
          subst (λ r. Holds (rounds_at n.messages.round_change_messages v.height) r pm) same hold,
          valid ∙ ap (λ x. ok x) is_l,
          ap₂ (λ r x. is_valid_rcc n v r x) (sym same) (sym is_l) ∙ good,
        )

handle_round_change_message-view :
    (b : Backend) (v : View) (n : Node) (msgs : List IbftMessage) (round : ℕ)
    → IsWellFormed n.messages
    → IsKeyed n.messages
    → handle_round_change_message b v n ≡ ok (some msgs)
    → IsCertified b v n round
    → All (λ x. view_of x ≡ some (record { height = v.height; round = round })) msgs
handle_round_change_message-view b v n msgs round w k h c =
    let (pm, hold, valid, good) = handle_round_change_message-entry b v n msgs round h c in
    valid_of-All (λ m. view_of m ≡ some (record { height = v.height; round = round })) _ pm msgs
      valid
      (Holds-All (λ p i. All (λ m. view_of m.1 ≡ some (record { height = v.height; round = i })) p)
        (rounds_at n.messages.round_change_messages v.height) round pm
        (filed_by_round n v.height w k) hold)

build_proposal-shape :
    (b : Backend) (v : View) (msgs : List IbftMessage) (m : IbftMessage)
    → v.round ≢ 0
    → build_proposal b v (some msgs) ≡ ok (some m)
    → (raw : Bytes) × (b.build_preprepare_message raw
          (rcc_ref (round_change_certificate (slice (items_of msgs))))
          v
        ≡ m)
unfolding build_proposal
build_proposal-shape b v msgs m later h = go (previous_proposal none 0 msgs) refl
  where
    go :
        (o : Result Bytes)
        → previous_proposal none 0 msgs ≡ o
        → (raw : Bytes) × (b.build_preprepare_message raw
              (rcc_ref (round_change_certificate (slice (items_of msgs))))
              v
            ≡ m)
    go panic e = absurd (ground (arith, later, h, e))
    go (ok out) e =
        (elim out [ none ↦ b.build_proposal v | some raw ↦ some raw ], ground (arith, later, h, e))

both_views :
    (b : Backend) (v : View) (round : ℕ) (msgs : List IbftMessage)
    → msgs ≢ []
    → All (InView b v) msgs
    → All (λ x. view_of x ≡ some (record { height = v.height; round = round })) msgs
    → round ≡ v.round
both_views b v round [] some_messages i a = absurd (some_messages refl)
both_views b v round (x ∷ msgs) some_messages (i, r) (e, a) =
    ground (arith, i.has_view, i.same_round, e)

-- The handler that `waitForRCC` of a proposer returns from looks at all rounds of the height. Where the
-- highest round that has a certificate in the store is not the round of the proposal, no node accepts what
-- the proposer builds from the certificate that it is given: for a well-formed store with one entry for
-- each round, a round above 0, and a backend that builds messages from what it is given.
pub handle_round_change_message-other_round :
    (b other : Backend) (v : View) (n k : Node) (msgs : List IbftMessage) (m : IbftMessage)
    (round : ℕ)
    → IsWellFormed n.messages
    → IsKeyed n.messages
    → Builds b other
    → v.round ≢ 0
    → IsCertified b v n round
    → round ≢ v.round
    → handle_round_change_message b v n ≡ ok (some msgs)
    → build_proposal b v (some msgs) ≡ ok (some m)
    → validate_proposal other k m v ≢ ok true
handle_round_change_message-other_round b other v n k msgs m round w keyed builds later certified
      apart h built accepted =
    let rcc : RoundChangeCertificate = round_change_certificate (slice (items_of msgs)) in
    let (raw, made) = build_proposal-shape b v msgs m later built in
    let (of_view, sent, has, has_rcc, hash) = builds raw (rcc_ref rcc) v in
    let a = validate_proposal-AcceptedProposal other k m v accepted in
    let same_ref : rcc_ref a.certificate ≡ rcc_ref rcc =
      sym a.has_certificate ∙ ap extract_round_change_certificate (sym made) ∙ has_rcc in
    let same_rcc : a.certificate ≡ rcc = cc in
    let same : rcc_messages a.certificate ≡ msgs = ap rcc_messages same_rcc ∙ items_list-of msgs in
    apart (
      both_views other v round msgs (subst (λ l. l ≢ []) same a.some_messages)
        (subst (All (InView other v)) same a.in_view)
        (handle_round_change_message-view b v n msgs round w keyed h certified))
