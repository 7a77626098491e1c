-- ===== src/Proposals/Prepared.antt =====
-- The prepared certificates in a round change certificate (the loop of `validateProposal`).
use mathlib.Core.Path.{subst}
use go_ibft.Prelude.{
  ℕ, ◌≡◌, refl, sym, ap, ◌∙◌, true, false, Bool, Option, none, some, List, [], ◌∷◌, arith, inl, inr,
  ok, >>=-eq-ok, Option-cases, ◌>>=◌, nat_eq, str_eq,
}
use go_ibft.Proto.{
  Bytes, View, IbftMessage, PreparedRef, nil_pc, pc_ref, PreparedCertificate, MessageRef,
  message_ref, nil_message, proposal_message_of, view_of,
}
use go_ibft.Extract.{extract_latest_pc, extract_proposal_hash}
use go_ibft.Certificate.{valid_pc}
use go_ibft.Certificate.Valid.{In}
use go_ibft.Backend.{Backend}
use go_ibft.Node.{Node}
use go_ibft.Proposals.{prepared_entry, prepared_entries, cons_entry, round_and_hash}
use go_ibft.Proposals.Highest.{Among}

-- The message has a valid prepared certificate below the limit, for that round and hash.
pub record Prepared (b : Backend) (n : Node) (limit height : ℕ) (rc : IbftMessage) (r : ℕ)
    (h : Bytes) : Type 0 where
  pub certificate : PreparedCertificate
  pub carried : extract_latest_pc rc ≡ pc_ref certificate
  pub valid : valid_pc b n.validator_manager (pc_ref certificate) limit height ≡ ok true
  pub message : IbftMessage
  pub of_message : proposal_message_of certificate ≡ message_ref message
  pub view : View
  pub has_view : view_of message ≡ some view
  pub same_round : view.round ≡ r
  pub same_hash : extract_proposal_hash message ≡ h

abbrev OfPc : Backend → Node → ℕ → ℕ → PreparedRef → ℕ → Bytes → Type 0
OfPc b n limit height pc r h =
    (c : PreparedCertificate) × (pc ≡ pc_ref c)
    × (valid_pc b n.validator_manager (pc_ref c) limit height ≡ ok true)
    × (round_and_hash (proposal_message_of c) ≡ ok (r, h))

round_and_hash-of :
    (m : IbftMessage) (v : View)
    → view_of m ≡ some v
    → round_and_hash (message_ref m) ≡ ok (v.round, extract_proposal_hash m)
unfolding round_and_hash
round_and_hash-of m v e = rw e refl

Prepared-OfPc :
    (b : Backend) (n : Node) (limit height : ℕ) (rc : IbftMessage) (r : ℕ) (h : Bytes)
    → Prepared b n limit height rc r h
    → OfPc b n limit height (extract_latest_pc rc) r h
Prepared-OfPc b n limit height rc r h p = (
  p.certificate,
  p.carried,
  p.valid,
  ap round_and_hash p.of_message
      ∙ round_and_hash-of p.message p.view p.has_view
      ∙ ground (arith, p.same_round, p.same_hash),
)

round_and_hash-parts :
    (o : MessageRef) (r : ℕ) (h : Bytes)
    → round_and_hash o ≡ ok (r, h)
    → (m : IbftMessage) × (v : View) × (o ≡ message_ref m)
      × (view_of m ≡ some v)
      × (v.round ≡ r)
      × (extract_proposal_hash m ≡ h)
unfolding round_and_hash
round_and_hash-parts nil_message r h f = absurd (ground arith)
round_and_hash-parts (message_ref m) r h f = elim (Option-cases (view_of m)) [
  | inl e ↦ absurd (ground arith)
  | inr (v, e) ↦ (m, v, refl, e, ground arith, ground arith)
]

OfPc-Prepared :
    (b : Backend) (n : Node) (limit height : ℕ) (rc : IbftMessage) (r : ℕ) (h : Bytes)
    → OfPc b n limit height (extract_latest_pc rc) r h
    → Prepared b n limit height rc r h
OfPc-Prepared b n limit height rc r h (c, e, g, f) =
    let (m, v, of_m, at, same_r, same_h) = round_and_hash-parts (proposal_message_of c) r h f in
    record {
      certificate = c;
      carried = e;
      valid = g;
      message = m;
      of_message = of_m;
      view = v;
      has_view = at;
      same_round = same_r;
      same_hash = same_h;
    }

module _ (b : Backend) (n : Node) (limit height : ℕ) where
  prepared_entry-OfPc :
      (pc : PreparedRef) (r : ℕ) (h : Bytes)
      → prepared_entry b n limit height pc ≡ ok (some (r, h))
      → OfPc b n limit height pc r h
  unfolding prepared_entry
  prepared_entry-OfPc nil_pc r h e = absurd (ground arith)
  prepared_entry-OfPc (pc_ref c) r h e =
      let (good, g, e') = >>=-eq-ok (valid_pc b n.validator_manager (pc_ref c) limit height) _ e in
      go good g e'
    where
      go :
          (good : Bool)
          → valid_pc b n.validator_manager (pc_ref c) limit height ≡ ok good
          → (elim good [
            | false ↦ ok none
            | true ↦ round_and_hash (proposal_message_of c) >>= λ entry. ok (some entry)
          ])
            ≡ ok (some (r, h))
          → OfPc b n limit height (pc_ref c) r h
      go false g e = absurd (ground arith)
      go true g e =
          let (entry, f, e') = >>=-eq-ok (round_and_hash (proposal_message_of c)) _ e in
          (c, refl, g, f ∙ ground (arith, e'))

  OfPc-prepared_entry :
      (pc : PreparedRef) (r : ℕ) (h : Bytes)
      → OfPc b n limit height pc r h
      → prepared_entry b n limit height pc ≡ ok (some (r, h))
  unfolding prepared_entry
  OfPc-prepared_entry pc r h (c, e, g, f) = rw (e, prepared_entry, g, f) refl

  prepared_entries-split :
      (rc : IbftMessage) (rcs : List IbftMessage) (es : List (ℕ × Bytes))
      → prepared_entries b n limit height (rc ∷ rcs) ≡ ok es
      → (entry : Option (ℕ × Bytes)) × (rest : List (ℕ × Bytes)) × (prepared_entry b n limit height
            (extract_latest_pc rc)
          ≡ ok entry)
        × (prepared_entries b n limit height rcs ≡ ok rest)
        × (es ≡ cons_entry entry rest)
  unfolding prepared_entries
  prepared_entries-split rc rcs es run =
      let (entry, f, run') =
        >>=-eq-ok (prepared_entry b n limit height (extract_latest_pc rc)) _ run in
      let (rest, g, run'') = >>=-eq-ok (prepared_entries b n limit height rcs) _ run' in
      (entry, rest, f, g, ground (arith, run''))

  pub Among-Prepared :
      (rcs : List IbftMessage) (es : List (ℕ × Bytes)) (r : ℕ) (h : Bytes)
      → prepared_entries b n limit height rcs ≡ ok es
      → Among (r, h) es
      → (rc : IbftMessage) × In rc rcs × Prepared b n limit height rc r h
  unfolding prepared_entries
  Among-Prepared [] es r h run i =
      let empty : es ≡ [] = ground (arith, run) in absurd (subst (Among (r, h)) empty i)
  Among-Prepared (rc ∷ rcs) es r h run i =
      let (entry, rest, f, g, e) = prepared_entries-split rc rcs es run in
      go entry rest f (subst (Among (r, h)) e i) (Among-Prepared rcs rest r h g)
    where
      go :
          (entry : Option (ℕ × Bytes)) (rest : List (ℕ × Bytes))
          → prepared_entry b n limit height (extract_latest_pc rc) ≡ ok entry
          → Among (r, h) (cons_entry entry rest)
          → (Among (r, h) rest → (x : IbftMessage) × In x rcs × Prepared b n limit height x r h)
          → (x : IbftMessage) × In x (rc ∷ rcs) × Prepared b n limit height x r h
      go none rest f i later = let (x, j, p) = later i in (x, inr j, p)
      go (some e) rest f (inl same) later = (
        rc,
        inl refl,
        OfPc-Prepared b n limit height rc r h
            (prepared_entry-OfPc (extract_latest_pc rc) r h (f ∙ ap (λ x. ok (some x)) (sym same))),
      )
      go (some e) rest f (inr i) later = let (x, j, p) = later i in (x, inr j, p)

  pub Prepared-Among :
      (rcs : List IbftMessage) (es : List (ℕ × Bytes)) (rc : IbftMessage) (r : ℕ) (h : Bytes)
      → prepared_entries b n limit height rcs ≡ ok es
      → In rc rcs
      → Prepared b n limit height rc r h
      → Among (r, h) es
  Prepared-Among [] es rc r h run i p = absurd i
  Prepared-Among (m ∷ rcs) es rc r h run i p =
      let (entry, rest, f, g, e) = prepared_entries-split m rcs es run in
      subst (Among (r, h)) (sym e) (go entry rest i f (λ j. Prepared-Among rcs rest rc r h g j p))
    where
      go :
          (entry : Option (ℕ × Bytes)) (rest : List (ℕ × Bytes))
          → In rc (m ∷ rcs)
          → prepared_entry b n limit height (extract_latest_pc m) ≡ ok entry
          → (In rc rcs → Among (r, h) rest)
          → Among (r, h) (cons_entry entry rest)
      go entry rest (inl same) f later =
          let here : prepared_entry b n limit height (extract_latest_pc m) ≡ ok (some (r, h)) =
            subst (λ x. prepared_entry b n limit height (extract_latest_pc x) ≡ ok (some (r, h)))
              same
              (OfPc-prepared_entry (extract_latest_pc rc) r h
                (Prepared-OfPc b n limit height rc r h p)) in
          let is : entry ≡ some (r, h) = ground (arith, sym f ∙ here) in
          subst (λ x. Among (r, h) (cons_entry x rest)) (sym is) (inl refl)
      go none rest (inr j) f later = later j
      go (some e) rest (inr j) f later = inr (later j)
