-- ===== src/Tests/Stores.antt =====
-- A store with messages of the four validators, and what its operations do.
use go_ibft.Prelude.{
  ℕ, ◌≡◌, refl, ◌&&◌, Bool, true, Option, some, List, [], ◌∷◌, Str, ◌==◌, nat_eq, str_eq,
  if◌then◌else◌, ok,
}
use go_ibft.Proto.{MessageType, same_type, prepare, IbftMessage, sender}
use go_ibft.Events.{new_event_manager}
use go_ibft.Messages.{
  Messages, ProtoMessages, add_message, get_proto_messages, get_valid_messages, get_extended_rcc,
  rounds_at,
}
use go_ibft.Messages.Stored.{stored, stored-add_message}
use go_ibft.Messages.Valid.{keep_entries, values, after_test, get_valid_messages-after_test}
use go_ibft.Messages.Extended.{HighestRcc, get_extended_rcc-HighestRcc}
use go_ibft.Tests.{address, a_view, preprepare_from, prepare_from, commit_from, round_change_from}

abbrev prepare_entries : ProtoMessages
prepare_entries =
    (address 2, prepare_from 2) ∷ (address 3, prepare_from 3) ∷ (address 4, prepare_from 4) ∷ []

abbrev pub commit_entries : ProtoMessages
commit_entries =
    (address 2, commit_from 2) ∷ (address 3, commit_from 3) ∷ (address 4, commit_from 4) ∷ []

abbrev round_change_entries : ProtoMessages
round_change_entries = (address 1, round_change_from 1) ∷ (address 2, round_change_from 2) ∷ []

abbrev pub store : Messages
store = record {
  event_manager = new_event_manager;
  preprepare_messages = (5, (1, (address 1, preprepare_from 1) ∷ []) ∷ []) ∷ [];
  prepare_messages = (5, (1, prepare_entries) ∷ []) ∷ [];
  commit_messages = (5, (1, commit_entries) ∷ []) ∷ [];
  round_change_messages =
      (5, (1, round_change_entries) ∷ (2, (address 3, round_change_from 3) ∷ []) ∷ []) ∷ [];
}

abbrev from_two : IbftMessage → Bool
from_two m = sender m == address 2

stored-add_message_example :
    (ms' : Messages) × (add_message (prepare_from 7) store ≡ ok ms')
    × ((t : MessageType) (h r : ℕ) (k : Str)
        → stored ms' t h r k ≡ (
            if same_type prepare t && ((5 == h) && (1 == r)) && (address 7 == k)
            then some (prepare_from 7)
            else stored store t h r k))
stored-add_message_example = stored-add_message (prepare_from 7) a_view store refl refl

get_valid_messages-after_test_example :
    (ms' : Messages) × (get_valid_messages a_view prepare (λ m. ok (from_two m)) store
      ≡ ok (ms', values (keep_entries from_two (get_proto_messages a_view prepare store))))
    × ((t' : MessageType) (h r : ℕ) (k : Str)
        → stored ms' t' h r k ≡ after_test a_view prepare from_two store t' h r k)
unfolding get_proto_messages
get_valid_messages-after_test_example =
    get_valid_messages-after_test a_view prepare (λ m. ok (from_two m)) from_two store (λ m. refl)
      (refl, (refl, (refl, tt))) refl

get_extended_rcc-HighestRcc_example :
    (out : Option (List IbftMessage)) × (get_extended_rcc 5
        (λ m. ok (from_two m))
        (λ r msgs. ok true)
        store
      ≡ ok out)
    × HighestRcc
        (λ m. ok (from_two m))
        (λ r msgs. ok true)
        (rounds_at store.round_change_messages 5)
        out
get_extended_rcc-HighestRcc_example =
    get_extended_rcc-HighestRcc (λ m. ok (from_two m)) (λ r msgs. ok true) 5 store
      (λ r l. (true, refl)) (((_, refl), ((_, refl), tt)), (((_, refl), tt), tt))
