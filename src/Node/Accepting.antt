-- ===== src/Node/Accepting.antt =====
-- `isAcceptableMessage`: which messages a node lets into its store.
use go_ibft.Prelude.{◌≤◌, ◌<◌, ◌≡◌, ◌↔◌, ◌⊎◌, inl, inr, true, some, arith, Option-cases}
use go_ibft.Proto.{View, IbftMessage, view_of}
use go_ibft.Backend.{Backend}
use go_ibft.Node.{Node, is_acceptable_message}

-- The message is from a validator and has a view of a later height, or of the node's height and no
-- earlier round.
pub record IsTimely (b : Backend) (n : Node) (m : IbftMessage) : Type 0 where
  pub valid_sender : b.is_valid_validator m ≡ true
  pub view : View
  pub has_view : view_of m ≡ some view
  pub not_old :
      (n.state.view.height < view.height)
      ⊎ (n.state.view.height ≡ view.height) × (n.state.view.round ≤ view.round)

-- A message is acceptable exactly if its sender is a valid validator and it has a view of a later
-- height than the node's, or of the node's height and no earlier round.
pub is_acceptable_message_iff :
    (b : Backend) (n : Node) (m : IbftMessage)
    → (is_acceptable_message b n m ≡ true) ↔ IsTimely b n m
unfolding is_acceptable_message
is_acceptable_message_iff b n m = (
  λ h. elim (Option-cases (view_of m)) [
    | inl e ↦ absurd (ground arith)
    | inr (v, e) ↦ record {
      valid_sender = ground arith;
      view = v;
      has_view = e;
      not_old = ground arith;
    }
  ],
  λ t. ground arith,
)
