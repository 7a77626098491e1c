-- ===== src/Node/Leaving.antt =====
-- What the quorums of a node depend on: the accepted proposal, the messages of the type and the voting
-- powers.
use mathlib.Core.Path.{ap₂}
use go_ibft.Prelude.{◌≡◌, some, List, Option, nat_eq, map}
use go_ibft.Proto.{
  View, IbftMessage, MessageType, prepared_certificate, message_ref, slice, items_of,
}
use go_ibft.Proto
use go_ibft.State.{State, fin, get_proposal}
use go_ibft.Extract.{extract_proposal, extract_committed_seal}
use go_ibft.Messages.{get_message_map, get_proto_messages, messages_at, rounds_at, HeightMessageMap}
use go_ibft.Messages.Valid.{keep_entries, values}
use go_ibft.Validators.{
  ValidatorManager, has_quorum, convert_message_to_address_set, has_prepare_quorum,
}
use go_ibft.Backend.{Backend}
use go_ibft.Node.{Node, is_valid_commit, is_valid_prepare}
use go_ibft.Node.Committing.{valid_commits, committed, committed_state}
use go_ibft.Node.Preparing.{valid_prepares, prepared, prepared_state}

-- The messages of a type and the voting powers are left.
abbrev pub Leaves : MessageType → Node → Node → Type 0
Leaves t n n' =
    (get_message_map n'.messages t ≡ get_message_map n.messages t)
    × (n'.validator_manager ≡ n.validator_manager)

pub valid_commits-same :
    (b : Backend) (v : View) (n n' : Node)
    → n'.state.proposal_message ≡ n.state.proposal_message
    → Leaves Proto.MessageType.commit n n'
    → valid_commits b v n' ≡ valid_commits b v n
unfolding get_proposal get_proto_messages
valid_commits-same b v n n' p l =
    ap₂
      (λ (m : Option IbftMessage) (stored : HeightMessageMap). values (
        keep_entries (is_valid_commit b (record n.state { proposal_message = m }))
          (messages_at (rounds_at stored v.height) v.round)))
      p l.0

pub committed-same :
    (b : Backend) (v : View) (n n' : Node)
    → n'.state.proposal_message ≡ n.state.proposal_message
    → Leaves Proto.MessageType.commit n n'
    → committed b v n' ≡ committed b v n
committed-same b v n n' p l =
    ap₂ (λ (vm : ValidatorManager) ms. has_quorum vm (convert_message_to_address_set ms)) l.1
      (valid_commits-same b v n n' p l)

pub valid_prepares-same :
    (b : Backend) (v : View) (n n' : Node)
    → n'.state.proposal_message ≡ n.state.proposal_message
    → Leaves Proto.MessageType.prepare n n'
    → valid_prepares b v n' ≡ valid_prepares b v n
unfolding get_proposal get_proto_messages
valid_prepares-same b v n n' p l =
    ap₂
      (λ (m : Option IbftMessage) (stored : HeightMessageMap). values (
        keep_entries (is_valid_prepare b (record n.state { proposal_message = m }))
          (messages_at (rounds_at stored v.height) v.round)))
      p l.0

-- The state once the view is prepared and committed.
abbrev pub finished_state : Backend → View → Node → IbftMessage → State
finished_state b v n m = record (prepared_state b v n m) {
  seals = map extract_committed_seal (valid_commits b v n);
  name = fin;
}

pub committed_state-same :
    (b : Backend) (v : View) (n n' : Node) (m : IbftMessage)
    → n'.state ≡ prepared_state b v n m
    → valid_commits b v n' ≡ valid_commits b v n
    → committed_state b v n' ≡ finished_state b v n m
committed_state-same b v n n' m e c =
    ap₂
      (λ (s : State) (ms : List IbftMessage). record s {
        seals = map extract_committed_seal ms;
        name = fin;
      })
      e c

pub prepared-same :
    (b : Backend) (v : View) (n n' : Node)
    → n'.state.proposal_message ≡ n.state.proposal_message
    → Leaves Proto.MessageType.prepare n n'
    → prepared b v n' ≡ prepared b v n
prepared-same b v n n' p l =
    ap₂ (λ (x : ValidatorManager × Option IbftMessage) ms. has_prepare_quorum x.0 x.1 ms)
      (ap₂ (λ (vm : ValidatorManager) (m : Option IbftMessage). (vm, m)) l.1 p)
      (valid_prepares-same b v n n' p l)

pub finished_state-same :
    (b : Backend) (v : View) (n n' : Node) (m : IbftMessage)
    → n'.state ≡ n.state
    → valid_prepares b v n' ≡ valid_prepares b v n
    → valid_commits b v n' ≡ valid_commits b v n
    → finished_state b v n' m ≡ finished_state b v n m
finished_state-same b v n n' m e p c =
    ap₂
      (λ (s : State) (l : List IbftMessage × List IbftMessage). record s {
        latest_pc = some (prepared_certificate (message_ref m) (slice (items_of l.0)));
        latest_prepared_proposal = extract_proposal m;
        seals = map extract_committed_seal l.1;
        name = fin;
      })
      e (ap₂ (λ (x y : List IbftMessage). (x, y)) p c)
