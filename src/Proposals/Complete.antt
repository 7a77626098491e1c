-- ===== src/Proposals/Complete.antt =====
-- That the checks of `validateProposal` are enough for it to accept a proposal.
use mathlib.Core.Path.{subst}
use go_ibft.Prelude.{
  ℕ, ◌≤◌, ◌≡◌, refl, sym, true, some, List, [], ◌∷◌, arith, inl, inr, ok, str_eq, nat_eq, All,
}
use go_ibft.Proto.{Bytes, View, Proposal, IbftMessage, rcc_messages}
use go_ibft.Extract.Seals.{has_unique_senders_iff}
use go_ibft.Backend.{Backend}
use go_ibft.Node.{Node, has_quorum_by_msg_type}
use go_ibft.Proposals.{
  common_checks, validate_proposal_common, valid_round_changes, max_from, matches_prepared,
  validate_with_rcc, validate_proposal,
}
use go_ibft.Proposals.Highest.{Among, KeepsHighest, max_from-Highest}
use go_ibft.Proposals.Accepted.{InView, RccChecks, AcceptedProposal}

All-Among :
    (P : ℕ × Bytes → Type 0) (e : ℕ × Bytes) (es : List (ℕ × Bytes)) → All P es → Among e es → P e
All-Among P e [] a i = absurd i
All-Among P e (x ∷ es) a (inl s) = subst P (sym s) a.0
All-Among P e (x ∷ es) a (inr i) = All-Among P e es a.1 i

-- The entries of one round have one hash.
abbrev pub IsOneHash : List (ℕ × Bytes) → Type 0
IsOneHash es = (e e' : ℕ × Bytes) → Among e es → Among e' es → e.0 ≡ e'.0 → e.1 ≡ e'.1

KeepsHighest-matches_prepared :
    (b : Backend) (p : Proposal) (es : List (ℕ × Bytes))
    → IsOneHash es
    → KeepsHighest b p es
    → matches_prepared b p es ≡ true
unfolding matches_prepared max_from
KeepsHighest-matches_prepared b p [] one k = refl
KeepsHighest-matches_prepared b p ((r, x) ∷ es) one (inl e) = absurd cc
KeepsHighest-matches_prepared b p ((r, x) ∷ es) one (inr (e, i, all, valid)) =
    let top : ℕ × Bytes = max_from r x es in
    let (low, below, from) = max_from-Highest r x es in
    let top_in : Among top ((r, x) ∷ es) = from in
    let le : top.0 ≤ e.0 = All-Among (λ y. y.0 ≤ e.0) top ((r, x) ∷ es) all top_in in
    let ge : e.0 ≤ top.0 = All-Among (λ y. y.0 ≤ top.0) e ((r, x) ∷ es) (low, below) i in
    let same : e.0 ≡ top.0 = omega arith in
    let hash : e.1 ≡ top.1 = one e top i top_in same in
    let moved =
      subst
        (λ h.
          b.is_valid_proposal_hash (some (record { raw_proposal = p.raw_proposal; round = top.0 }))
            h
          ≡ true)
        hash
        (subst
          (λ k.
            b.is_valid_proposal_hash (some (record { raw_proposal = p.raw_proposal; round = k }))
              e.1
            ≡ true)
          same valid) in
    ground (arith, moved)

All-valid_round_changes :
    (b : Backend) (v : View) (rcs : List IbftMessage)
    → All (InView b v) rcs
    → valid_round_changes b v rcs ≡ ok true
unfolding valid_round_changes
All-valid_round_changes b v [] a = refl
All-valid_round_changes b v (rc ∷ rcs) (i, a) = ground (
  arith,
  All-valid_round_changes b v rcs a,
  i.is_round_change,
  i.has_view,
  i.same_height,
  i.same_round,
  i.valid_sender,
)

RccChecks-validate_with_rcc :
    (b : Backend) (n : Node) (m : IbftMessage) (v : View) (p : Proposal) (rcs : List IbftMessage)
    → RccChecks b n m v p rcs
    → validate_with_rcc b n m v p rcs ≡ ok true
unfolding validate_with_rcc
RccChecks-validate_with_rcc b n m v p rcs c =
    ground (
      arith, c.unique, c.quorum, c.not_proposer, c.round_changes, c.has_view, c.prepared, c.matches,
    )

-- `validateProposal` accepts every message that meets its checks, if the valid prepared certificates of one round
-- in its certificate have one hash.
pub AcceptedProposal-validate_proposal :
    (b : Backend) (n : Node) (m : IbftMessage) (v : View)
    → (a : AcceptedProposal b n m v) → IsOneHash a.entries
    → validate_proposal b n m v ≡ ok true
unfolding validate_proposal validate_proposal_common common_checks has_quorum_by_msg_type
AcceptedProposal-validate_proposal b n m v a one =
    let rcs = rcc_messages a.certificate in
    let checks : RccChecks b n m v a.proposal rcs = record {
      unique = (has_unique_senders_iff rcs).1 (a.some_messages, a.distinct);
      quorum = a.quorum;
      not_proposer = a.not_proposer;
      round_changes = All-valid_round_changes b v rcs a.in_view;
      view = a.message_view;
      has_view = a.has_view;
      entries = a.entries;
      prepared = a.prepared;
      matches = KeepsHighest-matches_prepared b a.proposal a.entries one a.keeps_highest;
    } in
    ground (
      arith,
      RccChecks-validate_with_rcc b n m v a.proposal rcs checks,
      a.has_proposal,
      a.same_round,
      a.from_proposer,
      a.valid_hash,
      a.valid_block,
      a.has_certificate,
    )
