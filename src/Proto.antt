-- ===== src/Proto.antt =====
-- The wire messages (messages/proto/messages.proto and the types generated from it in
-- messages/proto/messages.pb.go). A pointer that can be nil in a decoded message is an option or has a
-- constructor for nil; the entries of a repeated field and the member that a set oneof holds are
-- never nil in a decoded message, so they are plain values.
use go_ibft.Prelude.{ℕ, Bool, true, false, Option, none, some, List, [], ◌∷◌, Str, str_beq, nat_beq}

-- A `[]byte`, which can be nil.
abbrev pub Bytes : Type 0
Bytes = Option Str

-- `string(b)`: nil converts to the empty string.
abbrev pub to_string : Bytes → Str
to_string none = []
to_string (some s) = s

-- `bytes.Equal`: nil equals the empty slice.
abbrev pub bytes_equal : Bytes → Bytes → Bool
bytes_equal a b = str_beq (to_string a) (to_string b)

-- A proto3 enum is open: a decoded message may carry any other number.
pub data MessageType : Type 0 where
  preprepare prepare commit round_change : MessageType
  unknown : ℕ → MessageType

abbrev pub same_type : MessageType → MessageType → Bool
same_type MessageType.preprepare MessageType.preprepare = true
same_type MessageType.prepare MessageType.prepare = true
same_type MessageType.commit MessageType.commit = true
same_type MessageType.round_change MessageType.round_change = true
same_type (MessageType.unknown a) (MessageType.unknown b) = nat_beq a b
same_type _ _ = false

pub record View : Type 0 where
  pub height : ℕ
  pub round : ℕ

pub record Proposal : Type 0 where
  pub raw_proposal : Bytes
  pub round : ℕ

mutual
  pub data IbftMessage : Type 0 where
    message : Option View → Bytes → Bytes → MessageType → Payload → IbftMessage

  pub data Payload : Type 0 where
    no_payload : Payload
    preprepare_data : Option Proposal → Bytes → RoundChangeRef → Payload
    prepare_data : Bytes → Payload
    commit_data : Bytes → Bytes → Payload
    round_change_data : Option Proposal → PreparedRef → Payload

  -- `*RoundChangeCertificate`, `*PreparedCertificate` and `*IbftMessage`.
  pub data RoundChangeRef : Type 0 where
    nil_rcc : RoundChangeRef
    rcc_ref : RoundChangeCertificate → RoundChangeRef

  pub data RoundChangeCertificate : Type 0 where
    round_change_certificate : MessageSlice → RoundChangeCertificate

  pub data PreparedRef : Type 0 where
    nil_pc : PreparedRef
    pc_ref : PreparedCertificate → PreparedRef

  pub data PreparedCertificate : Type 0 where
    prepared_certificate : MessageRef → MessageSlice → PreparedCertificate

  pub data MessageRef : Type 0 where
    nil_message : MessageRef
    message_ref : IbftMessage → MessageRef

  -- `[]*IbftMessage`: nil, or its entries.
  pub data MessageSlice : Type 0 where
    nil_slice : MessageSlice
    slice : MessageItems → MessageSlice

  pub data MessageItems : Type 0 where
    end : MessageItems
    item : IbftMessage → MessageItems → MessageItems

abbrev pub view_of : IbftMessage → Option View
view_of (message v f s t p) = v

abbrev pub from_of : IbftMessage → Bytes
from_of (message v f s t p) = f

abbrev pub signature_of : IbftMessage → Bytes
signature_of (message v f s t p) = s

abbrev pub type_of : IbftMessage → MessageType
type_of (message v f s t p) = t

abbrev pub payload_of : IbftMessage → Payload
payload_of (message v f s t p) = p

-- `string(message.From)`, the key under which a sender is stored.
abbrev pub sender : IbftMessage → Str
sender m = to_string (from_of m)

abbrev pub items_list : MessageItems → List IbftMessage
items_list end = []
items_list (item m ms) = m ∷ items_list ms

-- The entries that a `range` over the slice visits.
abbrev pub slice_list : MessageSlice → List IbftMessage
slice_list nil_slice = []
slice_list (slice ms) = items_list ms

abbrev pub items_of : List IbftMessage → MessageItems
items_of [] = end
items_of (m ∷ ms) = item m (items_of ms)

abbrev pub rcc_messages : RoundChangeCertificate → List IbftMessage
rcc_messages (round_change_certificate ms) = slice_list ms

abbrev pub proposal_message_of : PreparedCertificate → MessageRef
proposal_message_of (prepared_certificate m ms) = m

abbrev pub prepare_messages_of : PreparedCertificate → MessageSlice
prepare_messages_of (prepared_certificate m ms) = ms

-- `PayloadNoSig` of messages/proto/helper.go, over `proto.Marshal`, which may fail.
unfoldable payload_no_sig : (IbftMessage → Option Bytes) → IbftMessage → Option Bytes
payload_no_sig marshal (message v f s t p) = marshal (message v f none t p)
