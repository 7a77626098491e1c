-- ===== src/Proposals/Repeating.antt =====
-- The rule that a proposal repeats the block that was prepared last (the end of `validateProposal`), told
-- without its loops.
use mathlib.Core.Path.{subst}
use go_ibft.Prelude.{
  ℕ, ◌≤◌, ◌≡◌, sym, true, some, List, [], ◌∷◌, ◌⊎◌, inl, inr, ok, All, nat_eq, str_eq,
}
use go_ibft.Proto.{Bytes, View, Proposal, IbftMessage, rcc_messages}
use go_ibft.Certificate.Valid.{In}
use go_ibft.Backend.{Backend}
use go_ibft.Node.{Node}
use go_ibft.Proposals.{prepared_entries, validate_proposal}
use go_ibft.Proposals.Highest.{Among, KeepsHighest}
use go_ibft.Proposals.Accepted.{AcceptedProposal, validate_proposal-AcceptedProposal}
use go_ibft.Proposals.Prepared.{Prepared, Among-Prepared, Prepared-Among}

-- No message of the certificate has a valid prepared certificate, or the raw proposal has the hash of one
-- that does, and none does for a higher round.
abbrev pub RepeatsHighest : Backend → Node → ℕ → ℕ → List IbftMessage → Proposal → Type 0
RepeatsHighest b n limit height rcs p =
    ((rc : IbftMessage) (r : ℕ) (h : Bytes) → In rc rcs → ¬ Prepared b n limit height rc r h)
    ⊎ ((rc : IbftMessage) × (r : ℕ) × (h : Bytes) × In rc rcs
        × Prepared b n limit height rc r h
        × ((x : IbftMessage) (s : ℕ) (g : Bytes)
            → In x rcs
            → Prepared b n limit height x s g
            → s ≤ r)
        × (b.is_valid_proposal_hash (some (record { raw_proposal = p.raw_proposal; round = r })) h
            ≡ true))

Among-All :
    (P : ℕ × Bytes → Type 0) (e : ℕ × Bytes) (es : List (ℕ × Bytes)) → All P es → Among e es → P e
Among-All P e (x ∷ es) a (inl same) = subst P (sym same) a.0
Among-All P e (x ∷ es) a (inr i) = Among-All P e es a.1 i
Among-All P e [] a i = absurd i

KeepsHighest-RepeatsHighest :
    (b : Backend) (n : Node) (limit height : ℕ) (rcs : List IbftMessage) (p : Proposal)
    (es : List (ℕ × Bytes))
    → prepared_entries b n limit height rcs ≡ ok es
    → KeepsHighest b p es
    → RepeatsHighest b n limit height rcs p
KeepsHighest-RepeatsHighest b n limit height rcs p es run (inl none_prepared) = inl (λ rc r h i q.
    subst (Among (r, h)) none_prepared (Prepared-Among b n limit height rcs es rc r h run i q))
KeepsHighest-RepeatsHighest b n limit height rcs p es run (inr (e, i, top, valid)) =
    let (rc, j, q) = Among-Prepared b n limit height rcs es e.0 e.1 run i in
    inr (
      rc,
      e.0,
      e.1,
      j,
      q,
      λ x s g k q'.
          Among-All (λ y. y.0 ≤ e.0) (s, g) es top
            (Prepared-Among b n limit height rcs es x s g run k q'),
      valid,
    )

-- `validateProposal` accepts a message only if it carries a valid proposal of the round from the
-- proposer, and a certificate of some round change messages of the view, from distinct validators with a
-- quorum; and if any of these messages carries a valid prepared certificate below the round of the message,
-- only if the proposal repeats the block of one, such that no other is for a higher round. The node itself
-- is not the proposer.
pub validate_proposal-RepeatsHighest :
    (b : Backend) (n : Node) (m : IbftMessage) (v : View)
    → validate_proposal b n m v ≡ ok true
    → (a : AcceptedProposal b n m v) × RepeatsHighest b n a.message_view.round v.height
        (rcc_messages a.certificate)
        a.proposal
validate_proposal-RepeatsHighest b n m v h =
    let a = validate_proposal-AcceptedProposal b n m v h in
    (
      a,
      KeepsHighest-RepeatsHighest b n a.message_view.round v.height (rcc_messages a.certificate)
          a.proposal a.entries a.prepared a.keeps_highest,
    )
