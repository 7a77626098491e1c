-- ===== src/Rounds/Proposing.antt =====
-- What a proposer proposes after a round change (`buildProposal` of core/ibft.go).
use mathlib.Core.Path.{subst}
use go_ibft.Prelude.{
  ℕ, ◌≤◌, ◌<◌, ◌≡◌, ◌≢◌, refl, sym, ◌∙◌, true, false, Option, none, some, List, [], ◌∷◌, arith, ◌⊎◌,
  inl, inr, ◌&&◌, leb, All, All-map, Result, ok, ◌>>=◌, >>=-eq-ok, Bool-cases, nat_eq,
}
use go_ibft.Proto.{
  Bytes, View, Proposal, IbftMessage, PreparedRef, PreparedCertificate, nil_pc, pc_ref,
  proposal_message_of, rcc_ref, round_change_certificate, slice, items_of,
}
use go_ibft.Extract.{extract_latest_pc, extract_last_prepared_proposal}
use go_ibft.Backend.{Backend}
use go_ibft.Certificate.Valid.{In, All-In}
use go_ibft.Rounds.{build_proposal, previous_proposal, prepared_round, is_some}

-- The message has a certificate of the round, and a last prepared proposal with the raw bytes.
abbrev pub Offers : IbftMessage → ℕ → Bytes → Type 0
Offers m round raw =
    (cert : PreparedCertificate) × (last_pb : Proposal) × (extract_latest_pc m ≡ pc_ref cert)
    × (prepared_round (proposal_message_of cert) ≡ ok round)
    × (extract_last_prepared_proposal m ≡ some last_pb)
    × (last_pb.raw_proposal ≡ raw)

-- No message offers a proposal of a higher round.
abbrev pub Below : ℕ → List IbftMessage → Type 0
Below round ms = All (λ m. (r : ℕ) (raw : Bytes) → Offers m r raw → r ≤ round) ms

-- The previous proposal is the best so far, or one of a higher round that a message offers.
abbrev pub Picked : Bytes → ℕ → List IbftMessage → Bytes → Type 0
Picked previous max_round ms out =
    ((out ≡ previous)
      × All
          (λ m.
            (r : ℕ) (raw : Bytes) → Offers m r raw → (is_some previous ≡ true) × (r ≤ max_round))
          ms)
    ⊎ ((m : IbftMessage) × (round : ℕ) × In m ms
        × Offers m round out
        × (is_some previous ≡ true → max_round < round)
        × Below round ms)

Picked-skip :
    (previous : Bytes) (max_round : ℕ) (m : IbftMessage) (ms : List IbftMessage) (out : Bytes)
    → ((r : ℕ) (raw : Bytes) → Offers m r raw → (is_some previous ≡ true) × (r ≤ max_round))
    → Picked previous max_round ms out
    → Picked previous max_round (m ∷ ms) out
Picked-skip previous max_round m ms out f (inl (e, a)) = inl (e, (f, a))
Picked-skip previous max_round m ms out f (inr (x, round, i, o, above, a)) = inr (
  x,
  round,
  inr i,
  o,
  above,
  ((λ r raw w. let (s, le) = f r raw w in omega (arith, le, above s)), a),
)

Picked-take :
    (previous : Bytes) (max_round round : ℕ) (raw : Bytes) (m : IbftMessage) (ms : List IbftMessage)
    (out : Bytes)
    → (is_some previous ≡ true → max_round < round)
    → is_some raw ≡ true
    → Offers m round raw
    → ((r : ℕ) (raw' : Bytes) → Offers m r raw' → r ≤ round)
    → Picked raw round ms out
    → Picked previous max_round (m ∷ ms) out
Picked-take previous max_round round raw m ms out above s w only (inl (e, a)) = inr (
  m,
  round,
  inl refl,
  subst (λ x. Offers m round x) (sym e) w,
  above,
  (only, All-map (λ x f r raw' o. (f r raw' o).1) ms a),
)
Picked-take previous max_round round raw m ms out above s w only (inr (x, r, i, o, later, a)) =
    inr (
      x,
      r,
      inr i,
      o,
      (λ t. omega (arith, above t, later s)),
      ((λ r' raw' v. omega (arith, only r' raw' v, later s)), a),
    )

pc_ref_injective : (c c' : PreparedCertificate) → pc_ref c ≡ pc_ref c' → c ≡ c'
pc_ref_injective c c' e = cc

-- A message offers proposals of one round only.
pub Offers-round :
    (m : IbftMessage) (cert : PreparedCertificate) (round r : ℕ) (raw : Bytes)
    → extract_latest_pc m ≡ pc_ref cert
    → prepared_round (proposal_message_of cert) ≡ ok round
    → Offers m r raw
    → r ≡ round
Offers-round m cert round r raw e f (c, p, e', f', g, h) =
    let same : c ≡ cert = pc_ref_injective c cert (sym e' ∙ e) in
    let at_c : prepared_round (proposal_message_of cert) ≡ ok r =
      subst (λ x. prepared_round (proposal_message_of x) ≡ ok r) same f' in
    ground (arith, sym f ∙ at_c)

previous_step-Picked :
    (previous : Bytes) (max_round : ℕ) (m : IbftMessage) (ms : List IbftMessage) (out : Bytes)
    → ((r : ℕ) (raw : Bytes) → Offers m r raw → is_some raw ≡ true)
    → ((b : Bytes) (i : ℕ) → previous_proposal b i ms ≡ ok out → Picked b i ms out)
    → previous_proposal previous max_round (m ∷ ms) ≡ ok out
    → Picked previous max_round (m ∷ ms) out
unfolding previous_proposal
previous_step-Picked previous max_round m ms out nonnil ih h = go (extract_latest_pc m) refl
  where
    chosen :
        (cert : PreparedCertificate) (round : ℕ)
        → extract_latest_pc m ≡ pc_ref cert
        → prepared_round (proposal_message_of cert) ≡ ok round
        → (is_some previous && leb round max_round) ≡ false
        → (o : Option Proposal) → extract_last_prepared_proposal m ≡ o
        → Picked previous max_round (m ∷ ms) out
    chosen cert round e f above none g =
        Picked-skip previous max_round m ms out
          (λ r raw w. let (c, p, e', f', g', x) = w in absurd (ground (arith, g, g')))
          (ih previous max_round (ground (arith, h, e, f, above, g)))
    chosen cert round e f above (some p) g =
        let w : Offers m round p.raw_proposal = (cert, p, e, f, g, refl) in
        Picked-take previous max_round round p.raw_proposal m ms out (λ s. ground arith)
          (nonnil round p.raw_proposal w) w
          (λ r raw v. let same = Offers-round m cert round r raw e f v in omega (arith, same))
          (ih p.raw_proposal round (ground (arith, h, e, f, above, g)))

    go : (c : PreparedRef) → extract_latest_pc m ≡ c → Picked previous max_round (m ∷ ms) out
    go nil_pc e =
        Picked-skip previous max_round m ms out
          (λ r raw w. let (c, p, e', f', g', x) = w in absurd (ground (arith, e, e')))
          (ih previous max_round (ground (arith, h, e)))
    go (pc_ref cert) e =
        let (round, f, rest) =
          >>=-eq-ok (prepared_round (proposal_message_of cert)) _
            (rw (e, previous_proposal) at h) in
        elim (Bool-cases (is_some previous && leb round max_round)) [
          | inl low ↦
              Picked-skip previous max_round m ms out
                (λ r raw w. let same = Offers-round m cert round r raw e f w in ground arith)
                (ih previous max_round (ground (arith, h, e, f, low)))
          | inr above ↦ chosen cert round e f above (extract_last_prepared_proposal m) refl
        ]

previous_proposal-Picked :
    (previous : Bytes) (max_round : ℕ) (ms : List IbftMessage) (out : Bytes)
    → All (λ m. (r : ℕ) (raw : Bytes) → Offers m r raw → is_some raw ≡ true) ms
    → previous_proposal previous max_round ms ≡ ok out
    → Picked previous max_round ms out
unfolding previous_proposal
previous_proposal-Picked previous max_round [] out a h = inl (ground arith, tt)
previous_proposal-Picked previous max_round (m ∷ ms) out a h =
    previous_step-Picked previous max_round m ms out a.0
      (λ b i. previous_proposal-Picked b i ms out a.1) h

offered_some :
    (msgs : List IbftMessage) (m : IbftMessage) (round : ℕ)
    → All (λ m. (r : ℕ) (raw : Bytes) → Offers m r raw → is_some raw ≡ true) msgs
    → In m msgs
    → ¬ Offers m round none
offered_some msgs m round nonnil i w =
    let f =
      All-In (λ m. (r : ℕ) (raw : Bytes) → Offers m r raw → is_some raw ≡ true) m msgs nonnil i
        round none w in
    absurd (ground (arith, f))

-- In a round above 0, where no message of the certificate offers a proposal with nil bytes and
-- `buildProposal` does not panic: the message that it builds holds that certificate and, if any
-- of its messages offers a prepared proposal, the bytes of one with the highest round that any
-- offers, and else a new proposal of the backend.
pub build_proposal-Highest :
    (b : Backend) (v : View) (msgs : List IbftMessage) (built : Option IbftMessage)
    → v.round ≢ 0
    → All (λ m. (r : ℕ) (raw : Bytes) → Offers m r raw → is_some raw ≡ true) msgs
    → build_proposal b v (some msgs) ≡ ok built
    → (raw : Bytes) × (built
        ≡ some (
            b.build_preprepare_message raw
              (rcc_ref (round_change_certificate (slice (items_of msgs))))
              v))
      × ((raw ≡ b.build_proposal v)
            × All (λ m. (r : ℕ) (offered : Bytes) → ¬ Offers m r offered) msgs
          ⊎ ((m : IbftMessage) × (round : ℕ) × In m msgs × Offers m round raw × Below round msgs))
unfolding build_proposal
build_proposal-Highest b v msgs built later nonnil h =
    let make : Bytes → Result (Option IbftMessage) = λ out. ok (
      some (
        b.build_preprepare_message (elim out [ none ↦ b.build_proposal v | some raw ↦ some raw ])
          (rcc_ref (round_change_certificate (slice (items_of msgs)))) v)) in
    let made : (previous_proposal none 0 msgs >>= make) ≡ ok built = ground (arith, h, later) in
    let (out, run, e) = >>=-eq-ok (previous_proposal none 0 msgs) make made in
    go out (previous_proposal-Picked none 0 msgs out nonnil run) e
  where
    go :
        (out : Bytes)
        → Picked none 0 msgs out
        → ◌≡◌ {A = Result (Option IbftMessage)}
            (ok (
              some (
                b.build_preprepare_message
                  (elim out [ none ↦ b.build_proposal v | some raw ↦ some raw ])
                  (rcc_ref (round_change_certificate (slice (items_of msgs))))
                  v)))
            (ok built)
        → (raw : Bytes) × (built
            ≡ some (
                b.build_preprepare_message raw
                  (rcc_ref (round_change_certificate (slice (items_of msgs))))
                  v))
          × ((raw ≡ b.build_proposal v)
                × All (λ m. (r : ℕ) (offered : Bytes) → ¬ Offers m r offered) msgs
              ⊎ ((m : IbftMessage) × (round : ℕ) × In m msgs
                  × Offers m round raw
                  × Below round msgs))
    go none (inl (o, a)) e = (
      b.build_proposal v,
      ground arith,
      inl (refl, All-map (λ m f r raw w. absurd (ground (arith, (f r raw w).0))) msgs a),
    )
    go none (inr (m, round, i, w, above, a)) e = absurd (offered_some msgs m round nonnil i w)
    go (some raw) (inl (o, a)) e = absurd (ground (arith, o))
    go (some raw) (inr (m, round, i, w, above, a)) e =
        (some raw, ground arith, inr (m, round, i, w, a))
