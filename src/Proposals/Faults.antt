-- ===== src/Proposals/Faults.antt =====
-- Messages on which a node faults: what `AddMessage` lets in is not always what the handlers can
-- read.
use go_ibft.Prelude.{◌≡◌, Bool, none, some, [], ◌∷◌, Str, arith, Result, panic, str_eq, nat_eq}
use go_ibft.Prelude.Assoc.{lookup}
use go_ibft.Proto.{View, preprepare, IbftMessage, view_of}
use go_ibft.Extract.{extract_proposal}
use go_ibft.Messages.{ProtoMessages, sort_messages, get_valid_messages, get_proto_messages}
use go_ibft.Backend.{Backend}
use go_ibft.Node.{Node}
use go_ibft.Proposals.{
  validate_proposal_common, validate_proposal0, validate_proposal, is_valid_preprepare,
  handle_pre_prepare,
}

-- A check that panics on one stored message panics the loop, wherever the message stands.
sort_messages-panic :
    (check : IbftMessage → Result Bool) (k : Str) (m : IbftMessage) (pm : ProtoMessages)
    → check m ≡ panic
    → lookup k pm ≡ some m
    → sort_messages check pm ≡ panic
unfolding sort_messages
sort_messages-panic check k m [] p h = cc
sort_messages-panic check k m ((j, x) ∷ pm) p h = ground (arith, sort_messages-panic check k m pm p)

is_valid_preprepare-panic :
    (b : Backend) (n : Node) (v mv : View) (m : IbftMessage)
    → view_of m ≡ some mv
    → mv.round ≡ v.round
    → extract_proposal m ≡ none
    → is_valid_preprepare b n v m ≡ panic
unfolding is_valid_preprepare validate_proposal0 validate_proposal validate_proposal_common
is_valid_preprepare-panic b n v mv m e r x = ground arith

-- A stored preprepare message of the view that carries no proposal makes `handlePrePrepare` fault,
-- whatever else is stored.
pub handle_pre_prepare-panic :
    (b : Backend) (n : Node) (v mv : View) (k : Str) (m : IbftMessage)
    → lookup k (get_proto_messages v preprepare n.messages) ≡ some m
    → view_of m ≡ some mv
    → mv.round ≡ v.round
    → extract_proposal m ≡ none
    → handle_pre_prepare b v n ≡ panic
unfolding handle_pre_prepare get_valid_messages
handle_pre_prepare-panic b n v mv k m h e r x = rw (
    sort_messages-panic (is_valid_preprepare b n v) k m (get_proto_messages v preprepare n.messages)
      (is_valid_preprepare-panic b n v mv m e r x) h)
