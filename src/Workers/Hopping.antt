-- ===== src/Workers/Hopping.antt =====
-- The rounds that certificates make the main loop hop to.
use mathlib.Core.Path.{subst}
use go_ibft.Prelude.{
  ℕ, ◌<◌, ◌≡◌, sym, ap, ◌∙◌, Bool, Option, none, some, List, [], ◌∷◌, Result, ok, ◌>>=◌, arith,
  >>=-eq-ok, All, Bool-cases, inl, inr,
}
use go_ibft.Proto
use go_ibft.Proto.{View, IbftMessage, view_of}
use go_ibft.State.{get_view}
use go_ibft.Backend.{Backend}
use go_ibft.Messages.{ProtoMessages, RoundMessageMap, rounds_at, valid_of}
use go_ibft.Messages.Rcc.{Holds}
use go_ibft.Messages.Certified.{Certified, Found, get_extended_rcc-Certified}
use go_ibft.Node.{Node}
use go_ibft.Rounds.{
  handle_round_change_message, is_valid_round_change, is_valid_rcc, next_round, deliver, listen,
  unlisten,
}
use go_ibft.Rounds.Working.{Works, here, next}
use go_ibft.Workers.{
  Event, poll, and_then, from_round, look_for_certificate, hop_round, round_of_rcc, signal_main,
  watch_for_certificates,
}
use go_ibft.Workers.Ending.{Ends, poll-Ends, subscribed-Ends}
use go_ibft.Workers.Watching.{sends_on-Ends}

-- Each message stands under the round of its view.
abbrev pub IsFiledByRound : ℕ → RoundMessageMap → Type 0
IsFiledByRound h rs =
    All (λ e. All (λ m. view_of m.1 ≡ some (record { height = h; round = e.0 })) e.1) rs

-- What makes the watcher signal a round: it is that of the first message of a certificate of the highest
-- round that has one.
abbrev pub Hops : Backend → View → Node → ℕ → Type 0
Hops b v n round =
    (i : ℕ) × (msgs : List IbftMessage) × (0 < i)
    × Certified (is_valid_round_change b n v.height) (is_valid_rcc n v)
        (rounds_at n.messages.round_change_messages v.height) i msgs
    × (round_of_rcc msgs ≡ ok round)

-- The round is above 0, its messages that pass the check make a certificate, and those of no higher
-- round of the height do.
abbrev pub IsCertified : Backend → View → Node → ℕ → Type 0
IsCertified b v n round =
    (0 < round)
    × ((msgs : List IbftMessage) × Certified (is_valid_round_change b n v.height) (is_valid_rcc n v)
          (rounds_at n.messages.round_change_messages v.height) round msgs)

pub Holds-All :
    (P : ProtoMessages → ℕ → Type 0) (rs : RoundMessageMap) (r : ℕ) (pm : ProtoMessages)
    → All (λ e. P e.1 e.0) rs
    → Holds rs r pm
    → P pm r
Holds-All P [] r pm a h = absurd h
Holds-All P (e ∷ rs) r pm a (inl (x, y)) = subst (λ i. P pm i) x (subst (λ i. P i e.0) y a.0)
Holds-All P (e ∷ rs) r pm a (inr h) = Holds-All P rs r pm a.1 h

pub valid_of-All :
    (P : IbftMessage → Type 0) (check : IbftMessage → Result Bool) (pm : ProtoMessages)
    (l : List IbftMessage)
    → valid_of check pm ≡ ok l
    → All (λ m. P m.1) pm
    → All P l
unfolding valid_of
valid_of-All P check [] l h a = let e : [] ≡ l = ground arith in subst (All P) e tt
valid_of-All P check ((k, m) ∷ pm) l h a =
    let (good, g, h') = >>=-eq-ok (check m) _ h in
    let (rest, run, e) = >>=-eq-ok (valid_of check pm) _ h' in
    let ih = valid_of-All P check pm rest run a.1 in
    elim (Bool-cases good) [
      | inl t ↦ let same : m ∷ rest ≡ l = ground arith in subst (All P) same (a.0, ih)
      | inr f ↦ let same : rest ≡ l = ground arith in subst (All P) same ih
    ]

round_of_rcc-All :
    (h r round : ℕ) (msgs : List IbftMessage)
    → All (λ m. view_of m ≡ some (record { height = h; round = r })) msgs
    → round_of_rcc msgs ≡ ok round
    → r ≡ round
round_of_rcc-All h r round [] a e = absurd (ground arith)
round_of_rcc-All h r round (m ∷ ms) a e = ground arith

pub look_for_certificate-Hops :
    (b : Backend) (v : View) (r : ℕ) (n n' : Node) (round : ℕ)
    → look_for_certificate b v r n ≡ ok (n', some round)
    → Hops b v n round
unfolding look_for_certificate handle_round_change_message
look_for_certificate-Hops b v r n n' round h =
    let (got, run, h') = >>=-eq-ok (handle_round_change_message b v n) _ h in
    let (hop, hopped, e) = >>=-eq-ok (hop_round got) _ h' in
    let is_hop : hop ≡ some round = ground arith in
    go got (hopped ∙ ap (λ x. ok x) is_hop) (
      get_extended_rcc-Certified (is_valid_round_change b n v.height) (is_valid_rcc n v) v.height
        n.messages got run)
  where
    go :
        (got : Option (List IbftMessage))
        → hop_round got ≡ ok (some round)
        → Found
            (is_valid_round_change b n v.height)
            (is_valid_rcc n v)
            0
            none
            (rounds_at n.messages.round_change_messages v.height)
            got
        → Hops b v n round
    go none e f = absurd (ground arith)
    go (some msgs) e (inl f) = absurd (ground (arith, f.0))
    go (some msgs) e (inr (i, l, lt, o, c)) =
        let (j, run, e') = >>=-eq-ok (round_of_rcc msgs) _ e in
        let named : j ≡ round = ground arith in
        let is_l : msgs ≡ l = ground arith in
        (i, l, lt, c, ap round_of_rcc (sym is_l) ∙ run ∙ ap (λ x. ok x) named)

-- Where each round change message of the height stands under the round of its view, that is the round
-- of the certificate.
pub Hops-Certified :
    (b : Backend) (v : View) (n : Node) (round : ℕ)
    → IsFiledByRound v.height (rounds_at n.messages.round_change_messages v.height)
    → Hops b v n round
    → IsCertified b v n round
Hops-Certified b v n round filed (i, l, lt, c, named) =
    let rs = rounds_at n.messages.round_change_messages v.height in
    let (pm, hold, v', g, a) = c in
    let of_round =
      valid_of-All (λ m. view_of m ≡ some (record { height = v.height; round = i })) _ pm l v'
        (Holds-All
          (λ p j. All (λ m. view_of m.1 ≡ some (record { height = v.height; round = j })) p) rs i pm
          filed hold) in
    let same = round_of_rcc-All v.height i round l of_round named in
    (
      subst (λ x. 0 < x) same lt,
      (
        l,
        subst (λ x. Certified (is_valid_round_change b n v.height) (is_valid_rcc n v) rs x l) same
            c,
      ),
    )

pub look_for_certificate-misses :
    (b : Backend) (v : View) (r : ℕ) (n n' : Node) (out : Option ℕ)
    → look_for_certificate b v r n ≡ ok (n', out)
    → n ≡ n'
unfolding look_for_certificate
look_for_certificate-misses b v r n n' out h =
    let (got, run, h') = >>=-eq-ok (handle_round_change_message b v n) _ h in
    let (hop, hopped, e) = >>=-eq-ok (hop_round got) _ h' in ground arith

-- The same of the watcher, whose node has a history of the work of a round.
pub watch_for_certificates-Hops :
    (b : Backend) (id : ℕ) (es : List Event) (n : Node)
    → Ends
        (λ m. Works b n m)
        (λ round m. Works b n m × ((k : Node) × Works b n k × Hops b (get_view n.state) k round))
        (watch_for_certificates b id es n)
unfolding watch_for_certificates
watch_for_certificates-Hops b id es n =
    let P : Node → Type 0 = λ m. Works b n m in
    let v : View = get_view n.state in
    let Q : ℕ → Node → Type 0 =
      λ round m. Works b n m × ((k : Node) × Works b n k × Hops b v k round) in
    let d =
      from_round Proto.MessageType.round_change
        (record { height = v.height; round = next_round v.round }) in
    subscribed-Ends P Q id d
      (λ es' n'. poll b (look_for_certificate b v) es' n' >>= λ out.
        and_then out (λ r n₁ es₁. signal_main b r es₁ n₁))
      es n
      (λ n' l.
        sends_on-Ends b n (λ round. (k : Node) × Works b n k × Hops b v k round)
          (poll b (look_for_certificate b v) es n')
          (poll-Ends b (look_for_certificate b v) P Q (λ m k k' h i. next i (deliver m h))
            (λ r k k' h i.
              subst (λ x. Works b n x) (look_for_certificate-misses b v r k k' none h) i)
            (λ r k k' round h i. (
              subst (λ x. Works b n x) (look_for_certificate-misses b v r k k' (some round) h) i,
              (k, i, look_for_certificate-Hops b v r k k' round h),
            ))
            es n' (next here (listen id d l))))
      (λ m m' h i. next i (unlisten id h)) (λ r m m' h q. (next q.0 (unlisten id h), q.1))
