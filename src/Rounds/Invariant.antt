-- ===== src/Rounds/Invariant.antt =====
-- The invariant of a node: its proposal, its seals, and the blocks that it inserts.
use go_ibft.Prelude.{
  ◌≡◌, ◌∙◌, ◌≢◌, Bool, true, false, Option, none, some, List, map, arith, ok, All,
}
use go_ibft.Proto.{Bytes, Proposal, IbftMessage}
use go_ibft.Extract.{CommittedSeal, extract_committed_seal, extract_commit_hash}
use go_ibft.State.{StateType, new_round, fin, get_proposal}
use go_ibft.Validators.{ValidatorManager, has_quorum, convert_message_to_address_set}
use go_ibft.Backend.{Backend}
use go_ibft.Node.{Node, Inserted, add_message, notify_if_quorum}

-- The seals come from commit messages of a quorum, each with a hash of the proposal and a valid seal.
pub record SealedBy (b : Backend) (vm : ValidatorManager) (p : Option Proposal)
    (seals : List (Option CommittedSeal)) : Type 0 where
  pub commits : List IbftMessage
  pub quorum : has_quorum vm (convert_message_to_address_set commits) ≡ true
  pub from_commits : seals ≡ map extract_committed_seal commits
  pub valid_hashes : All (λ m. b.is_valid_proposal_hash p (extract_commit_hash m) ≡ true) commits
  pub valid_seals :
      All
        (λ m. b.is_valid_committed_seal (extract_commit_hash m) (extract_committed_seal m) ≡ true)
        commits

abbrev pub raw_of : Option Proposal → Bytes
raw_of none = none
raw_of (some p) = p.raw_proposal

-- A block that was inserted with seals of a quorum for its proposal.
abbrev pub IsSealed : Backend → ValidatorManager → Inserted → Type 0
IsSealed b vm block =
    (p : Option Proposal) × (block.proposal.raw_proposal ≡ raw_of p) × SealedBy b vm p block.seals

abbrev pub past_new_round : StateType → Bool
past_new_round new_round = false
past_new_round _ = true

pub record Inv (b : Backend) (vm : ValidatorManager) (n : Node) : Type 0 where
  pub same_validators : n.validator_manager ≡ vm
  pub has_proposal : past_new_round n.state.name ≡ true → n.state.proposal_message ≢ none
  pub sealed : n.state.name ≡ fin → SealedBy b vm (get_proposal n.state) n.state.seals
  pub blocks : All (IsSealed b vm) n.inserted

-- A step that changes nothing but the store and what was sent.
pub record Keeps (n n' : Node) : Type 0 where
  pub state : n'.state ≡ n.state
  pub validator_manager : n'.validator_manager ≡ n.validator_manager
  pub inserted : n'.inserted ≡ n.inserted

pub Keeps-Inv :
    {b : Backend} {vm : ValidatorManager} (n n' : Node) → Keeps n n' → Inv b vm n → Inv b vm n'
Keeps-Inv {b = b} {vm = vm} n n' k i = record {
  same_validators = k.validator_manager ∙ i.same_validators;
  has_proposal = rw k.state i.has_proposal;
  sealed = rw k.state i.sealed;
  blocks = rw k.inserted i.blocks;
}

pub add_message-Keeps :
    (b : Backend) (m : Option IbftMessage) (n n' : Node) → add_message b m n ≡ ok n' → Keeps n n'
unfolding add_message notify_if_quorum
add_message-Keeps b none n n' h = ground arith
add_message-Keeps b (some m) n n' h = ground arith

-- The invariant where the state returns to a new round.
pub fresh-Inv :
    {b : Backend} {vm : ValidatorManager} (n n' : Node)
    → n'.state.name ≡ new_round
    → n'.validator_manager ≡ n.validator_manager
    → n'.inserted ≡ n.inserted
    → Inv b vm n
    → Inv b vm n'
fresh-Inv n n' e v f i = record {
  same_validators = v ∙ i.same_validators;
  has_proposal = λ p. cc;
  sealed = λ p. cc;
  blocks = rw f i.blocks;
}

-- And where it enters the prepare or commit state with a proposal.
pub proposed-Inv :
    {b : Backend} {vm : ValidatorManager} (n n' : Node) (m : IbftMessage)
    → n'.state.name ≢ fin
    → n'.state.proposal_message ≡ some m
    → n'.validator_manager ≡ n.validator_manager
    → n'.inserted ≡ n.inserted
    → Inv b vm n
    → Inv b vm n'
proposed-Inv n n' m e p v f i = record {
  same_validators = v ∙ i.same_validators;
  has_proposal = λ _ q. cc;
  sealed = λ q. absurd (e q);
  blocks = rw f i.blocks;
}
