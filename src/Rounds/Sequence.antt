-- ===== src/Rounds/Sequence.antt =====
-- A whole sequence, from the start of `RunSequence` on.
use go_ibft.Prelude.{ℕ, ◌≡◌, refl, none, [], arith}
use go_ibft.State.{reset}
use go_ibft.Backend.{Backend}
use go_ibft.Node.{Node}
use go_ibft.Rounds.{begin_sequence}
use go_ibft.Rounds.Invariant.{Inv}
use go_ibft.Rounds.Safety.{Reach, Reach-Inv}

begin_sequence-Inv :
    (b : Backend) (h : ℕ) (n n' : Node)
    → n.inserted ≡ []
    → begin_sequence b h n ≡ (n', none)
    → Inv b n'.validator_manager n'
unfolding begin_sequence reset
begin_sequence-Inv b h n n' e r = record {
  same_validators = refl;
  has_proposal = ground arith;
  sealed = ground arith;
  blocks = ground arith;
}

-- Whatever happens in a sequence that started without an error on a node that has inserted nothing:
-- the validators are those of the start, a node past the new round state has a proposal, its seals in
-- the fin state come from a quorum of valid commit messages for that proposal, and so do the seals of
-- every block that it has inserted.
pub sequence-Inv :
    (b : Backend) (h : ℕ) (n n' n'' : Node)
    → n.inserted ≡ []
    → begin_sequence b h n ≡ (n', none)
    → Reach b n' n''
    → Inv b n'.validator_manager n''
sequence-Inv b h n n' n'' e r steps = Reach-Inv steps (begin_sequence-Inv b h n n' e r)
