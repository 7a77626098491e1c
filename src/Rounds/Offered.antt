-- ===== src/Rounds/Offered.antt =====
-- What the prepared certificates of round change messages offer to a proposer, and what they are to those
-- that validate its proposal.
use mathlib.Core.Path.{subst, ap₂}
use go_ibft.Prelude.{
  ℕ, ◌≤◌, ◌≡◌, refl, sym, ap, ◌∙◌, true, some, List, [], ◌∷◌, arith, inl, inr, ◌⊎◌, ok, str_eq,
  nat_eq, All,
}
use go_ibft.Proto.{
  Bytes, View, Proposal, IbftMessage, PreparedRef, PreparedCertificate, nil_pc, pc_ref,
  proposal_message_of, view_of, message_ref, nil_message, prepared_certificate,
}
use go_ibft.Extract.{
  extract_latest_pc, extract_last_prepared_proposal, extract_proposal, extract_proposal_hash,
}
use go_ibft.Backend.{Backend}
use go_ibft.Node.{Node}
use go_ibft.Certificate.{
  valid_pc, proposal_matches_certificate, all_hashes_valid, certificate_hashes,
}
use go_ibft.Certificate.Valid.{In, All-In}
use go_ibft.Proposals.{prepared_entry, prepared_entries, round_and_hash}
use go_ibft.Proposals.Highest.{Among, KeepsHighest}
use go_ibft.Rounds.{prepared_round, is_some}
use go_ibft.Rounds.Proposing.{Offers, Offers-round, Below}

-- What the message's certificate is about: the view of its proposal message, of whose round are the proposal
-- of that message and the message's last prepared proposal.
pub record Prepared (x : IbftMessage) (cert : PreparedCertificate) : Type 0 where
  pub message : IbftMessage
  pub has_message : proposal_message_of cert ≡ message_ref message
  pub view : View
  pub has_view : view_of message ≡ some view
  pub proposal : Proposal
  pub has_proposal : extract_proposal message ≡ some proposal
  pub same_round : proposal.round ≡ view.round
  pub last : Proposal
  pub has_last : extract_last_prepared_proposal x ≡ some last
  pub last_round : last.round ≡ view.round
  pub has_bytes : is_some last.raw_proposal ≡ true

-- A round change message that the checks let through and whose certificate, if any, is of one round.
abbrev pub Sound : Backend → Node → View → IbftMessage → Type 0
Sound b n v x =
    (valid_pc b n.validator_manager (extract_latest_pc x) v.round v.height ≡ ok true)
    × (proposal_matches_certificate b (extract_last_prepared_proposal x) (extract_latest_pc x)
        ≡ ok true)
    × ((cert : PreparedCertificate) → extract_latest_pc x ≡ pc_ref cert → Prepared x cert)

-- The entry that a message with a certificate adds.
abbrev pub EntryOf : IbftMessage → ℕ × Bytes → Type 0
EntryOf x e =
    (cert : PreparedCertificate) × (extract_latest_pc x ≡ pc_ref cert)
    × ((p : Prepared x cert) × (e ≡ (p.view.round, extract_proposal_hash p.message)))

-- The entries are those of the messages.
abbrev pub EntriesOf : List IbftMessage → List (ℕ × Bytes) → Type 0
EntriesOf msgs entries =
    ((e : ℕ × Bytes) → Among e entries → (x : IbftMessage) × In x msgs × EntryOf x e)
    × ((x : IbftMessage)
        → In x msgs
        → (cert : PreparedCertificate) → extract_latest_pc x ≡ pc_ref cert
        → (e : ℕ × Bytes) × Among e entries × EntryOf x e)

none_more :
    (x : IbftMessage) (msgs : List IbftMessage) (entries : List (ℕ × Bytes))
    → extract_latest_pc x ≡ nil_pc
    → EntriesOf msgs entries
    → EntriesOf (x ∷ msgs) entries
none_more x msgs entries h (from, to) = (
  λ e i. let (y, j, f) = from e i in (y, inr j, f),
  λ y j cert c. elim j [
    | inl same ↦ absurd (
        let at_x : extract_latest_pc x ≡ pc_ref cert = ap extract_latest_pc (sym same) ∙ c in
        ground (arith, h, at_x))
    | inr k ↦ to y k cert c
  ],
)

one_more :
    (x : IbftMessage) (msgs : List IbftMessage) (entries : List (ℕ × Bytes)) (e : ℕ × Bytes)
    → EntryOf x e
    → EntriesOf msgs entries
    → EntriesOf (x ∷ msgs) (e ∷ entries)
one_more x msgs entries e f (from, to) = (
  λ d i. elim i [
    | inl same ↦ (x, inl refl, subst (EntryOf x) (sym same) f)
    | inr k ↦ let (y, j, g) = from d k in (y, inr j, g)
  ],
  λ y j cert c. elim j [
    | inl same ↦ (e, inl refl, subst (λ z. EntryOf z e) (sym same) f)
    | inr k ↦ let (d, i, g) = to y k cert c in (d, inr i, g)
  ],
)

pub prepared_entries-EntriesOf :
    (b : Backend) (n : Node) (v : View) (msgs : List IbftMessage)
    → All (Sound b n v) msgs
    → (entries : List (ℕ × Bytes)) × (prepared_entries b n v.round v.height msgs ≡ ok entries)
      × EntriesOf msgs entries
unfolding prepared_entries prepared_entry round_and_hash
prepared_entries-EntriesOf b n v [] a = ([], refl, ((λ e i. absurd i), λ x i cert c. absurd i))
prepared_entries-EntriesOf b n v (x ∷ msgs) ((valid, matches, one), a) =
    let (entries, run, of) = prepared_entries-EntriesOf b n v msgs a in
    go entries run of (extract_latest_pc x) refl
  where
    go :
        (entries : List (ℕ × Bytes))
        → prepared_entries b n v.round v.height msgs ≡ ok entries
        → EntriesOf msgs entries
        → (c : PreparedRef) → extract_latest_pc x ≡ c
        → (all : List (ℕ × Bytes)) × (prepared_entries b n v.round v.height (x ∷ msgs) ≡ ok all)
          × EntriesOf (x ∷ msgs) all
    go entries run of nil_pc h = (entries, ground (arith, h, run), none_more x msgs entries h of)
    go entries run of (pc_ref cert) h =
        let p = one cert h in
        let e : ℕ × Bytes = (p.view.round, extract_proposal_hash p.message) in
        (
          e ∷ entries,
          ground (arith, h, valid, p.has_message, p.has_view, run),
          one_more x msgs entries e (cert, h, (p, refl)) of,
        )

-- A message with a prepared certificate offers its last prepared proposal, and no other.
pub Prepared-Offers :
    (x : IbftMessage) (cert : PreparedCertificate) (p : Prepared x cert)
    → extract_latest_pc x ≡ pc_ref cert
    → Offers x p.view.round p.last.raw_proposal
unfolding prepared_round
Prepared-Offers x cert p h =
    (cert, p.last, h, ground (arith, p.has_message, p.has_proposal, p.same_round), p.has_last, refl)

pub Offers-Prepared :
    (x : IbftMessage) (cert : PreparedCertificate) (r : ℕ) (raw : Bytes) (p : Prepared x cert)
    → extract_latest_pc x ≡ pc_ref cert
    → Offers x r raw
    → (r ≡ p.view.round) × (p.last ≡ record { raw_proposal = raw; round = r })
Offers-Prepared x cert r raw p h w =
    let (c, l, h', f, has, bytes) = w in
    let (c', l', e, round, has', b') = Prepared-Offers x cert p h in
    let at : r ≡ p.view.round = Offers-round x c' p.view.round r raw e round w in
    let same : p.last ≡ l = ground (arith, has, p.has_last) in
    (
      at,
      ap₂ (λ (x : Bytes) (i : ℕ). record { raw_proposal = x; round = i })
          (ap (λ q. q.raw_proposal) same ∙ bytes) (p.last_round ∙ sym at),
    )

-- The hash of a certificate that matches the last prepared proposal is valid for it.
pub matches-valid_hash :
    (b : Backend) (x : IbftMessage) (cert : PreparedCertificate) (p : Prepared x cert)
    → extract_latest_pc x ≡ pc_ref cert
    → proposal_matches_certificate b (extract_last_prepared_proposal x) (extract_latest_pc x)
      ≡ ok true
    → b.is_valid_proposal_hash (some p.last) (extract_proposal_hash p.message) ≡ true
unfolding proposal_matches_certificate certificate_hashes all_hashes_valid
matches-valid_hash b x cert p h m =
    go cert p.has_message
      (ap₂ (λ q c. proposal_matches_certificate b q c) (sym p.has_last) (sym h) ∙ m)
  where
    go :
        (c : PreparedCertificate)
        → proposal_message_of c ≡ message_ref p.message
        → proposal_matches_certificate b (some p.last) (pc_ref c) ≡ ok true
        → b.is_valid_proposal_hash (some p.last) (extract_proposal_hash p.message) ≡ true
    go (prepared_certificate nil_message ps) e f = absurd (ground arith)
    go (prepared_certificate (message_ref y) ps) e f =
        let same : y ≡ p.message = ground arith in
        subst (λ z. b.is_valid_proposal_hash (some p.last) (extract_proposal_hash z) ≡ true) same
          (ground arith)

empty_entries : (entries : List (ℕ × Bytes)) → ((e : ℕ × Bytes) → ¬ Among e entries) → entries ≡ []
empty_entries [] f = refl
empty_entries (e ∷ entries) f = absurd (f e (inl refl))

pub All-entries :
    (P : ℕ × Bytes → Type 0) (entries : List (ℕ × Bytes))
    → ((e : ℕ × Bytes) → Among e entries → P e)
    → All P entries
All-entries P [] f = tt
All-entries P (e ∷ entries) f = (f e (inl refl), All-entries P entries (λ d i. f d (inr i)))

module _ (b : Backend) (n : Node) (v : View) (msgs : List IbftMessage)
    (sound : All (Sound b n v) msgs) (entries : List (ℕ × Bytes))
    (of : EntriesOf msgs entries) where
  entry-Offers :
      (e : ℕ × Bytes)
      → Among e entries
      → (x : IbftMessage) × In x msgs × ((raw : Bytes) × Offers x e.0 raw)
  entry-Offers e i =
      let (x, j, (cert, h, (p, same))) = of.0 e i in
      (
        x,
        j,
        (
          p.last.raw_proposal,
          subst (λ r. Offers x r p.last.raw_proposal) (sym (ap (λ d. d.0) same))
              (Prepared-Offers x cert p h),
        ),
      )

  Offers-entry :
      (x : IbftMessage) (r : ℕ) (raw : Bytes)
      → In x msgs
      → Offers x r raw
      → (e : ℕ × Bytes) × Among e entries
        × (e.0 ≡ r)
        × (b.is_valid_proposal_hash (some (record { raw_proposal = raw; round = r })) e.1 ≡ true)
  Offers-entry x r raw i w =
      let (c, l, h, f, has, bytes) = w in
      let (e, j, (cert, h', (p, same))) = of.1 x i c h in
      let (at, made) = Offers-Prepared x cert r raw p h' w in
      let (valid, matches, one) = All-In (Sound b n v) x msgs sound i in
      let hash = matches-valid_hash b x cert p h' matches in
      (
        e,
        j,
        ap (λ d. d.0) same ∙ sym at,
        subst
            (λ y.
              b.is_valid_proposal_hash (some (record { raw_proposal = raw; round = r })) y ≡ true)
            (sym (ap (λ d. d.1) same))
            (subst (λ q. b.is_valid_proposal_hash (some q) (extract_proposal_hash p.message) ≡ true)
              made hash),
      )

  -- A proposal chosen as `buildProposal` does keeps to the highest entry.
  pub chosen-KeepsHighest :
      (p : Proposal)
      → All (λ m. (r : ℕ) (offered : Bytes) → ¬ Offers m r offered) msgs
        ⊎ ((m : IbftMessage) × (round : ℕ) × In m msgs
            × Offers m round p.raw_proposal
            × Below round msgs)
      → KeepsHighest b p entries
  chosen-KeepsHighest p (inl a) = inl (
      empty_entries entries (λ e i.
        let (x, j, (raw, w)) = entry-Offers e i in
        All-In (λ m. (r : ℕ) (offered : Bytes) → ¬ Offers m r offered) x msgs a j e.0 raw w))
  chosen-KeepsHighest p (inr (m, round, i, w, below)) =
      let (e, j, same, valid) = Offers-entry m round p.raw_proposal i w in
      inr (
        e,
        j,
        All-entries (λ d. d.0 ≤ e.0) entries
            (λ d k.
              let (x, l, (raw, o)) = entry-Offers d k in
              let le =
                All-In (λ m. (r : ℕ) (raw : Bytes) → Offers m r raw → r ≤ round) x msgs below l d.0
                  raw o in
              omega arith),
        subst
            (λ r.
              b.is_valid_proposal_hash (some (record { raw_proposal = p.raw_proposal; round = r }))
                e.1
              ≡ true)
            (sym same) valid,
      )
