-- ===== src/Rounds/Fitting.antt =====
-- What ties the proposal, the seals and the blocks of a node to a view.
use mathlib.Core.Path.{subst}
use go_ibft.Prelude.{
  ℕ, ◌≡◌, ◌≢◌, sym, ◌∙◌, true, Option, none, some, List, arith, inl, inr, ok, All, Bool-cases,
  Option-cases, nat_eq, ◌==◌,
}
use go_ibft.Proto.{
  View, Proposal, MessageType, IbftMessage, same_type, type_of, view_of, RoundChangeRef, Bytes,
}
use go_ibft.Extract.{CommittedSeal, extract_proposal}
use go_ibft.State.{fin, get_proposal}
use go_ibft.Validators.{ValidatorManager}
use go_ibft.Backend.{Backend}
use go_ibft.Node.{Node, Inserted}
use go_ibft.Proposals.{
  is_valid_preprepare, validate_proposal0, validate_proposal_common, common_checks,
}
use go_ibft.Proposals.Accepted.{validate_proposal-AcceptedProposal}
use go_ibft.Rounds.Invariant.{SealedBy, Keeps}

-- The message carries a proposal of the round.
abbrev pub HasRound : ℕ → IbftMessage → Type 0
HasRound round m = (p : Proposal) × (extract_proposal m ≡ some p) × (p.round ≡ round)

-- The proposal message that the backend builds carries the raw proposal and the round that it is given.
abbrev pub Builds : Backend → Type 0
Builds b =
    (raw : Bytes) (rcc : RoundChangeRef) (v : View)
    → extract_proposal (b.build_preprepare_message raw rcc v)
      ≡ some (record { raw_proposal = raw; round = v.round })

-- A commit message of the view from a validator.
abbrev pub FromValidator : Backend → View → IbftMessage → Type 0
FromValidator b v m =
    (view_of m ≡ some v)
    × (same_type (type_of m) MessageType.commit ≡ true)
    × (b.is_valid_validator m ≡ true)

-- The seals come from commit messages of a quorum of validators in that view.
abbrev pub SealedIn :
    Backend → ValidatorManager → View → Option Proposal → List (Option CommittedSeal) → Type 0
SealedIn b vm v p seals = (s : SealedBy b vm p seals) × All (FromValidator b v) s.commits

-- The block was sealed in the view of its round.
abbrev pub IsSealedIn : Backend → ValidatorManager → ℕ → Inserted → Type 0
IsSealedIn b vm h x =
    SealedIn b vm (record { height = h; round = x.proposal.round }) (some x.proposal) x.seals

pub record Fits (b : Backend) (vm : ValidatorManager) (h : ℕ) (n : Node) : Type 0 where
  pub has_round :
      (m : IbftMessage) → n.state.proposal_message ≡ some m → HasRound n.state.view.round m
  pub sealed : n.state.name ≡ fin → SealedIn b vm n.state.view (get_proposal n.state) n.state.seals
  pub blocks : All (IsSealedIn b vm h) n.inserted

pub Keeps-Fits :
    {b : Backend} {vm : ValidatorManager} {h : ℕ} (n n' : Node)
    → Keeps n n'
    → Fits b vm h n
    → Fits b vm h n'
Keeps-Fits n n' k f = record {
  has_round = rw k.state f.has_round;
  sealed = rw k.state f.sealed;
  blocks = rw k.inserted f.blocks;
}

-- Where the node is not in the final state, with the proposal and the view as before.
pub same-Fits :
    {b : Backend} {vm : ValidatorManager} {h : ℕ} (n n' : Node)
    → n'.state.proposal_message ≡ n.state.proposal_message
    → n'.state.view ≡ n.state.view
    → n'.state.name ≢ fin
    → n'.inserted ≡ n.inserted
    → Fits b vm h n
    → Fits b vm h n'
same-Fits n n' p v e i f = record {
  has_round = λ m q. rw v (f.has_round m (sym p ∙ q));
  sealed = λ q. absurd (e q);
  blocks = rw i f.blocks;
}

-- Where it is not, with a proposal of its round.
pub proposed-Fits :
    {b : Backend} {vm : ValidatorManager} {h : ℕ} (n n' : Node) (m : IbftMessage)
    → n'.state.proposal_message ≡ some m
    → HasRound n'.state.view.round m
    → n'.state.name ≢ fin
    → n'.inserted ≡ n.inserted
    → Fits b vm h n
    → Fits b vm h n'
proposed-Fits n n' m p r e i f = record {
  has_round =
      λ x q. let same : m ≡ x = ground (arith, p, q) in subst (HasRound n'.state.view.round) same r;
  sealed = λ q. absurd (e q);
  blocks = rw i f.blocks;
}

-- Where it is not, without a proposal.
pub fresh-Fits :
    {b : Backend} {vm : ValidatorManager} {h : ℕ} (n n' : Node)
    → n'.state.proposal_message ≡ none
    → n'.state.name ≢ fin
    → n'.inserted ≡ n.inserted
    → Fits b vm h n
    → Fits b vm h n'
fresh-Fits n n' p e i f = record {
  has_round = λ m q. absurd (ground (arith, p, q));
  sealed = λ q. absurd (e q);
  blocks = rw i f.blocks;
}

-- What passes the check of `handlePrePrepare` carries a proposal of the round.
pub is_valid_preprepare-HasRound :
    (b : Backend) (n : Node) (v : View) (m : IbftMessage)
    → is_valid_preprepare b n v m ≡ ok true
    → HasRound v.round m
unfolding is_valid_preprepare validate_proposal0 validate_proposal_common common_checks
is_valid_preprepare-HasRound b n v m h = elim (Bool-cases (v.round == 0)) [
  | inr e ↦
      let a = validate_proposal-AcceptedProposal b n m v (ground arith) in
      (a.proposal, a.has_proposal, a.same_round)
  | inl e ↦ elim (Option-cases (view_of m)) [
    | inl f ↦ absurd (ground arith)
    | inr (mv, f) ↦ elim (Option-cases (extract_proposal m)) [
      | inl g ↦ absurd (ground arith)
      | inr (p, g) ↦ (p, g, ground arith)
    ]
  ]
]
