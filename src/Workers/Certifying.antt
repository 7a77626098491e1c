-- ===== src/Workers/Certifying.antt =====
-- The rounds that certificates make the main loop hop to, in the histories of a node.
use mathlib.Core.Path.{subst}
use go_ibft.Prelude.{
  ℕ, ◌≡◌, ap, ◌∙◌, true, List, [], ◌∷◌, ◌==◌, nat_eq, arith, inl, inr, Bool-cases, All, All-map,
  Distinct, contains, some, none, Option, ok, >>=-eq-ok, ◌≤◌, ◌↔◌, ◌⊎◌,
}
use go_ibft.Proto.{View, IbftMessage, round_change, view_of}
use go_ibft.State.{get_view}
use go_ibft.Backend.{Backend}
use go_ibft.Messages.{ProtoMessages, RoundMessageMap, rounds_at, messages_at}
use go_ibft.Messages.WellFormed.{IsWellFormed}
use go_ibft.Messages.Keyed.{IsKeyed, rounds}
use go_ibft.Node.{Node}
use go_ibft.Rounds.Safety
use go_ibft.Rounds.Working.{Works, Works-Reach}
use go_ibft.Rounds.Storing.{Reach_kept}
use go_ibft.Rounds.Filed.{well_formed, keyed}
use go_ibft.Workers.{Event, watch_for_certificates, look_for_certificate, hop_round, round_of_rcc}
use go_ibft.Rounds.{is_valid_round_change, is_valid_rcc, handle_round_change_message}
use go_ibft.Messages.Certified.{Certified, Found, Rejected, get_extended_rcc-Certified}
use go_ibft.Workers.Ending.{Ends, weaken-Ends}
use go_ibft.Workers.Hopping.{
  IsFiledByRound, IsCertified, Hops, Hops-Certified, Holds-All, look_for_certificate-Hops,
  watch_for_certificates-Hops,
}

-- What the entry of each round that is found shows, each entry shows, if no round has two.
pub entries-All :
    (P : ℕ → ProtoMessages → Type 0) (rs : RoundMessageMap)
    → Distinct (rounds rs)
    → ((r : ℕ) → contains (rounds rs) r ≡ true → P r (messages_at rs r))
    → All (λ e. P e.0 e.1) rs
entries-All P [] d f = tt
entries-All P ((r, pm) ∷ rs) (new, d) f = (
  subst (P r) (ground arith) (f r (ground arith)),
  entries-All P rs d (λ j i. subst (P j) (other j i) (f j (ground (arith, i)))),
)
  where
    other :
        (j : ℕ) → contains (rounds rs) j ≡ true → messages_at ((r, pm) ∷ rs) j ≡ messages_at rs j
    other j i = elim (Bool-cases (r == j)) [
      | inl e ↦
          let same : r ≡ j = ground arith in
          absurd (ground (arith, new, i, ap (λ x. contains (rounds rs) x) same))
      | inr e ↦ ground (arith, e)
    ]

-- A well-formed store with one entry for each round has each message under the round of its view.
pub filed_by_round :
    (n : Node) (h : ℕ)
    → IsWellFormed n.messages
    → IsKeyed n.messages
    → IsFiledByRound h (rounds_at n.messages.round_change_messages h)
filed_by_round n h w k =
    entries-All (λ r pm. All (λ m. view_of m.1 ≡ some (record { height = h; round = r })) pm)
      (rounds_at n.messages.round_change_messages h) (k round_change h)
      (λ r i. All-map (λ m f. f.of_view) _ (w round_change h r).1)

-- A watcher that starts on a well-formed store, with one entry for each round, hands a round to the main
-- loop only if it is above 0 and at some point of the work since the start the messages of that round that
-- pass the check make a certificate, and those of no higher round of the height do. Whether it hands over
-- anything or not, what it does to the node is a history of the work of a round.
pub watch_for_certificates-IsCertified :
    (b : Backend) (id : ℕ) (es : List Event) (n : Node)
    → IsWellFormed n.messages
    → IsKeyed n.messages
    → Ends
        (λ m. Works b n m)
        (λ round m.
          Works b n m × ((k : Node) × Works b n k × IsCertified b (get_view n.state) k round))
        (watch_for_certificates b id es n)
watch_for_certificates-IsCertified b id es n w k =
    let v : View = get_view n.state in
    weaken-Ends {P = λ m. Works b n m} {P' = λ m. Works b n m}
      {Q = λ round m. Works b n m × ((k : Node) × Works b n k × Hops b v k round)}
      {Q' = λ round m. Works b n m × ((k : Node) × Works b n k × IsCertified b v k round)}
      (watch_for_certificates b id es n) (λ m i. i)
      (λ round m (r, (x, works, hops)).
        let steps = Works-Reach {n = n} Safety.here works in
        let filed =
          filed_by_round x v.height (Reach_kept b IsWellFormed (well_formed b) steps w)
            (Reach_kept b IsKeyed (keyed b) steps k) in
        (r, (x, works, Hops-Certified b v x round filed hops)))
      (watch_for_certificates-Hops b id es n)

-- A round above 0 whose messages that pass make a certificate is not above another such round.
pub Certified-highest :
    (b : Backend) (v : View) (n : Node) (i j : ℕ) (l l' : List IbftMessage)
    → let rs = rounds_at n.messages.round_change_messages v.height in
      Certified (is_valid_round_change b n v.height) (is_valid_rcc n v) rs i l
      → Certified (is_valid_round_change b n v.height) (is_valid_rcc n v) rs j l'
      → i ≤ j
Certified-highest b v n i j l l' (pm, hold, v₁, g, a) (pm', hold', v₂, g', a') =
    elim (Holds-All
      (λ p r. (r ≤ j) ⊎ Rejected (is_valid_round_change b n v.height) (is_valid_rcc n v) (r, p))
      (rounds_at n.messages.round_change_messages v.height) i pm a' hold) [
        | inl le ↦ le
        | inr (k, x, y) ↦ absurd (ground (arith, v₁, g, x, y))
      ]

-- Where the body finds nothing, no round above 0 has a certificate.
look_for_certificate-none :
    (b : Backend) (v : View) (r : ℕ) (n n' : Node)
    → look_for_certificate b v r n ≡ ok (n', none)
    → All
        (λ e. (e.0 ≤ 0) ⊎ Rejected (is_valid_round_change b n v.height) (is_valid_rcc n v) e)
        (rounds_at n.messages.round_change_messages v.height)
unfolding look_for_certificate handle_round_change_message
look_for_certificate-none b v r n n' h =
    let (got, run, h') = >>=-eq-ok (handle_round_change_message b v n) _ h in
    let (hop, hopped, e) = >>=-eq-ok (hop_round got) _ h' in
    let is_none : hop ≡ none = ground arith in
    go got (hopped ∙ ap (λ x. ok x) is_none) (
      get_extended_rcc-Certified (is_valid_round_change b n v.height) (is_valid_rcc n v) v.height
        n.messages got run)
  where
    go :
        (got : Option (List IbftMessage))
        → hop_round got ≡ ok none
        → Found
            (is_valid_round_change b n v.height)
            (is_valid_rcc n v)
            0
            none
            (rounds_at n.messages.round_change_messages v.height)
            got
        → All
            (λ e. (e.0 ≤ 0) ⊎ Rejected (is_valid_round_change b n v.height) (is_valid_rcc n v) e)
            (rounds_at n.messages.round_change_messages v.height)
    go got e (inl f) = f.1
    go none e (inr (i, l, lt, o, c)) = absurd (ground arith)
    go (some msgs) e (inr (i, l, lt, o, c)) =
        let (j, run, e') = >>=-eq-ok (round_of_rcc msgs) _ e in absurd (ground arith)

-- On a well-formed store, with one entry for each round, what the body of the watcher's loop finds is the
-- round above 0 whose messages that pass the check make a certificate, where those of no higher round of
-- the height do: exactly this round, if the body returns, whatever the round of the node.
pub look_for_certificate_iff :
    (b : Backend) (v : View) (r : ℕ) (n n' : Node) (out : Option ℕ) (round : ℕ)
    → IsWellFormed n.messages
    → IsKeyed n.messages
    → look_for_certificate b v r n ≡ ok (n', out)
    → (out ≡ some round) ↔ IsCertified b v n round
look_for_certificate_iff b v r n n' out round w k h =
    (λ e. certified round (h ∙ ap (λ o. ok (n', o)) e), λ c. found out h c)
  where
    certified : (j : ℕ) → look_for_certificate b v r n ≡ ok (n', some j) → IsCertified b v n j
    certified j h' =
        Hops-Certified b v n j (filed_by_round n v.height w k)
          (look_for_certificate-Hops b v r n n' j h')

    found :
        (o : Option ℕ)
        → look_for_certificate b v r n ≡ ok (n', o)
        → IsCertified b v n round
        → o ≡ some round
    found none h' (above, (l, (pm, hold, v', g, a))) =
        elim (Holds-All
          (λ p i. (i ≤ 0) ⊎ Rejected (is_valid_round_change b n v.height) (is_valid_rcc n v) (i, p))
          (rounds_at n.messages.round_change_messages v.height) round pm
          (look_for_certificate-none b v r n n' h') hold) [
            | inl le ↦ absurd (omega arith)
            | inr (x, y, z) ↦ absurd (ground (arith, v', g, y, z))
          ]
    found (some j) h' (above, (l, c)) =
        let (above', (l', c')) = certified j h' in
        let le = Certified-highest b v n j round l' l c' c in
        let ge = Certified-highest b v n round j l l' c c' in
        let same : j ≡ round = omega arith in ap (λ x. some x) same
