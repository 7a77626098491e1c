-- ===== src/Proposals/Accepted.antt =====
-- What a proposal that `validateProposal` accepts has been checked for.
use go_ibft.Prelude.{
  ℕ, ◌≡◌, ◌≢◌, refl, true, false, Option, none, some, List, [], ◌∷◌, map, arith, inl, inr, Result,
  ok, panic, Distinct, str_eq, All, Option-cases,
}
use go_ibft.Proto.{
  Bytes, View, Proposal, IbftMessage, round_change, same_type, sender, view_of, from_of, type_of,
  RoundChangeRef, nil_rcc, rcc_ref, rcc_messages, RoundChangeCertificate,
}
use go_ibft.Extract.{
  extract_proposal, extract_proposal_hash, extract_round_change_certificate, has_unique_senders,
}
use go_ibft.Extract.Seals.{has_unique_senders_iff}
use go_ibft.Validators.{has_quorum, convert_message_to_address_set}
use go_ibft.Backend.{Backend}
use go_ibft.Node.{Node, has_quorum_by_msg_type}
use go_ibft.Proposals.{
  common_checks, validate_proposal_common, valid_round_changes, prepared_entries, matches_prepared,
  validate_with_rcc, validate_proposal,
}
use go_ibft.Proposals.Highest.{KeepsHighest, matches_prepared-KeepsHighest}

-- A round change message of the view from a validator.
pub record InView (b : Backend) (v : View) (rc : IbftMessage) : Type 0 where
  pub is_round_change : same_type (type_of rc) round_change ≡ true
  pub view : View
  pub has_view : view_of rc ≡ some view
  pub same_height : view.height ≡ v.height
  pub same_round : view.round ≡ v.round
  pub valid_sender : b.is_valid_validator rc ≡ true

valid_round_changes-All :
    (b : Backend) (v : View) (rcs : List IbftMessage)
    → valid_round_changes b v rcs ≡ ok true
    → All (InView b v) rcs
unfolding valid_round_changes
valid_round_changes-All b v [] h = tt
valid_round_changes-All b v (rc ∷ rcs) h = elim (Option-cases (view_of rc)) [
  | inl e ↦ absurd (ground arith)
  | inr (rv, e) ↦ (
    record {
      is_round_change = ground arith;
      view = rv;
      has_view = e;
      same_height = ground arith;
      same_round = ground arith;
      valid_sender = ground arith;
    },
    valid_round_changes-All b v rcs (ground arith),
  )
]

-- What `validateProposal` has checked of a message that it accepts for a view.
pub record AcceptedProposal (b : Backend) (n : Node) (m : IbftMessage) (v : View) : Type 0 where
  pub proposal : Proposal
  pub has_proposal : extract_proposal m ≡ some proposal
  pub same_round : proposal.round ≡ v.round
  pub from_proposer : b.is_proposer (from_of m) v.height v.round ≡ true
  pub valid_hash : b.is_valid_proposal_hash (some proposal) (extract_proposal_hash m) ≡ true
  pub valid_block : b.is_valid_proposal proposal.raw_proposal ≡ true
  pub not_proposer : b.is_proposer b.id v.height v.round ≡ false
  pub certificate : RoundChangeCertificate
  pub has_certificate : extract_round_change_certificate m ≡ rcc_ref certificate
  pub some_messages : rcc_messages certificate ≢ []
  pub distinct : Distinct (map (λ x. sender x) (rcc_messages certificate))
  pub quorum :
      has_quorum n.validator_manager (convert_message_to_address_set (rcc_messages certificate))
      ≡ true
  pub in_view : All (InView b v) (rcc_messages certificate)
  pub message_view : View
  pub has_view : view_of m ≡ some message_view
  pub entries : List (ℕ × Bytes)
  pub prepared :
      prepared_entries b n message_view.round v.height (rcc_messages certificate) ≡ ok entries
  pub keeps_highest : KeepsHighest b proposal entries

-- The checks on the certificate.
pub record RccChecks (b : Backend) (n : Node) (m : IbftMessage) (v : View) (p : Proposal)
    (rcs : List IbftMessage) : Type 0 where
  pub unique : has_unique_senders rcs ≡ true
  pub quorum : has_quorum_by_msg_type n rcs round_change ≡ true
  pub not_proposer : b.is_proposer b.id v.height v.round ≡ false
  pub round_changes : valid_round_changes b v rcs ≡ ok true
  pub view : View
  pub has_view : view_of m ≡ some view
  pub entries : List (ℕ × Bytes)
  pub prepared : prepared_entries b n view.round v.height rcs ≡ ok entries
  pub matches : matches_prepared b p entries ≡ true

validate_with_rcc-RccChecks :
    (b : Backend) (n : Node) (m : IbftMessage) (v : View) (p : Proposal) (rcs : List IbftMessage)
    → validate_with_rcc b n m v p rcs ≡ ok true
    → RccChecks b n m v p rcs
unfolding validate_with_rcc
validate_with_rcc-RccChecks b n m v p rcs h = elim (Option-cases (view_of m)) [
  | inl e ↦ absurd (ground arith)
  | inr (mv, e) ↦ go mv e (prepared_entries b n mv.round v.height rcs) refl
]
  where
    go :
        (mv : View)
        → view_of m ≡ some mv
        → (r : Result (List (ℕ × Bytes))) → prepared_entries b n mv.round v.height rcs ≡ r
        → RccChecks b n m v p rcs
    go mv e panic f = absurd (ground arith)
    go mv e (ok es) f = record {
      unique = ground arith;
      quorum = ground arith;
      not_proposer = ground arith;
      round_changes = ground arith;
      view = mv;
      has_view = e;
      entries = es;
      prepared = f;
      matches = ground arith;
    }

-- The parts of `validateProposal`: the common checks, a certificate, and the checks on it.
validate_proposal-parts :
    (b : Backend) (n : Node) (m : IbftMessage) (v : View)
    → validate_proposal b n m v ≡ ok true
    → (p : Proposal) × (c : RoundChangeCertificate) × (extract_proposal m ≡ some p)
      × (common_checks b m v p ≡ true)
      × (extract_round_change_certificate m ≡ rcc_ref c)
      × (validate_with_rcc b n m v p (rcc_messages c) ≡ ok true)
unfolding validate_proposal validate_proposal_common
validate_proposal-parts b n m v h =
    go (extract_proposal m) refl (extract_round_change_certificate m) refl
  where
    go :
        (o : Option Proposal)
        → extract_proposal m ≡ o
        → (c : RoundChangeRef) → extract_round_change_certificate m ≡ c
        → (p : Proposal) × (c : RoundChangeCertificate) × (extract_proposal m ≡ some p)
          × (common_checks b m v p ≡ true)
          × (extract_round_change_certificate m ≡ rcc_ref c)
          × (validate_with_rcc b n m v p (rcc_messages c) ≡ ok true)
    go none e c f = absurd (ground arith)
    go (some p) e nil_rcc f = absurd (ground arith)
    go (some p) e (rcc_ref c) f = (p, c, e, ground arith, f, ground arith)

-- `validateProposal` accepts a message only if it carries a valid proposal of the round from the
-- proposer, and a certificate of some round change messages of the view, from distinct validators with a
-- quorum; and if valid prepared certificates are among these messages, only if the proposal repeats
-- the block of one with the highest round. The node itself is not the proposer.
pub validate_proposal-AcceptedProposal :
    (b : Backend) (n : Node) (m : IbftMessage) (v : View)
    → validate_proposal b n m v ≡ ok true
    → AcceptedProposal b n m v
unfolding common_checks has_quorum_by_msg_type
validate_proposal-AcceptedProposal b n m v h =
    let (p, c, has_p, common, has_c, rest) = validate_proposal-parts b n m v h in
    let r = validate_with_rcc-RccChecks b n m v p (rcc_messages c) rest in
    record {
      proposal = p;
      has_proposal = has_p;
      same_round = ground arith;
      from_proposer = ground arith;
      valid_hash = ground arith;
      valid_block = ground arith;
      not_proposer = r.not_proposer;
      certificate = c;
      has_certificate = has_c;
      some_messages = ((has_unique_senders_iff (rcc_messages c)).0 r.unique).0;
      distinct = ((has_unique_senders_iff (rcc_messages c)).0 r.unique).1;
      quorum = r.quorum;
      in_view = valid_round_changes-All b v (rcc_messages c) r.round_changes;
      message_view = r.view;
      has_view = r.has_view;
      entries = r.entries;
      prepared = r.prepared;
      keeps_highest = matches_prepared-KeepsHighest b p r.entries r.matches;
    }
