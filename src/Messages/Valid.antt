-- ===== src/Messages/Valid.antt =====
-- `GetValidMessages`: what it returns and what it prunes.
use go_ibft.Prelude.{
  ℕ, ◌≡◌, refl, ◌∙◌, ◌&&◌, Bool, true, false, Option, none, some, List, [], ◌∷◌, Str, ◌==◌, nat_eq,
  str_eq, beq_cases, if◌then◌else◌, arith, Result, ok, contains, Distinct, map,
}
use go_ibft.Prelude.Assoc.{lookup, erase}
use go_ibft.Proto.{MessageType, same_type, View, IbftMessage}
use go_ibft.Messages.{
  Messages, ProtoMessages, get_message_map, set_message_map, set_view_messages, get_proto_messages,
  sort_messages, delete_keys, get_valid_messages,
}
use go_ibft.Messages.Stored.{stored, is_known, stored-write, stored_same}

-- The entries whose message passes a test.
abbrev pub keep_entries : (IbftMessage → Bool) → ProtoMessages → ProtoMessages
keep_entries p [] = []
keep_entries p ((k, m) ∷ pm) = let rest = keep_entries p pm in if p m then (k, m) ∷ rest else rest

abbrev pub drop_keys : (IbftMessage → Bool) → ProtoMessages → List Str
drop_keys p [] = []
drop_keys p ((k, m) ∷ pm) = let rest = drop_keys p pm in if p m then rest else k ∷ rest

abbrev pub values : ProtoMessages → List IbftMessage
values = map (λ e. e.1)

abbrev pub names : ProtoMessages → List Str
names = map (λ e. e.0)

module _ (check : IbftMessage → Result Bool) (p : IbftMessage → Bool) where
  sort_messages-keep :
      ((m : IbftMessage) → check m ≡ ok (p m))
      → (pm : ProtoMessages)
      → sort_messages check pm ≡ ok (values (keep_entries p pm), drop_keys p pm)
  unfolding sort_messages
  sort_messages-keep h [] = refl
  sort_messages-keep h ((k, m) ∷ pm) = rw (h m, sort_messages-keep h pm) (ground arith)

lookup-erase :
    (k j : Str) (pm : ProtoMessages)
    → lookup j (erase k pm) ≡ (if k == j then none else lookup j pm)
lookup-erase k j [] = ground arith
lookup-erase k j ((i, m) ∷ pm) =
    ground (arith, lookup-erase k j pm, beq_cases i k, beq_cases i j, beq_cases k j)

lookup-delete_keys :
    (ks : List Str) (j : Str) (pm : ProtoMessages)
    → lookup j (delete_keys ks pm) ≡ (if contains ks j then none else lookup j pm)
unfolding delete_keys
lookup-delete_keys [] j pm = refl
lookup-delete_keys (k ∷ ks) j pm =
    ground (arith, lookup-delete_keys ks j (erase k pm), lookup-erase k j pm)

-- A message survives a test if it passes it.
abbrev pub filtered : (IbftMessage → Bool) → Option IbftMessage → Option IbftMessage
filtered p none = none
filtered p (some m) = if p m then some m else none

dropped_absent :
    (p : IbftMessage → Bool) (j : Str) (pm : ProtoMessages)
    → contains (names pm) j ≡ false
    → (contains (drop_keys p pm) j ≡ false) × (lookup j pm ≡ none)
dropped_absent p j [] h = (refl, refl)
dropped_absent p j ((k, m) ∷ pm) h = ground (arith, dropped_absent p j pm)

lookup-dropped :
    (p : IbftMessage → Bool) (j : Str) (pm : ProtoMessages)
    → Distinct (names pm)
    → (if contains (drop_keys p pm) j then none else lookup j pm) ≡ filtered p (lookup j pm)
lookup-dropped p j [] d = refl
lookup-dropped p j ((k, m) ∷ pm) d =
    ground (arith, beq_cases k j, dropped_absent p j pm, lookup-dropped p j pm d.1)

-- The deletion that follows the first loop, or none where every message passed.
abbrev prune_keys : View → MessageType → List Str → Messages → Messages
prune_keys v t [] ms = ms
prune_keys v t (key ∷ keys) ms = set_message_map ms t (
    set_view_messages (get_message_map ms t) v
      (delete_keys (key ∷ keys) (get_proto_messages v t ms)))

-- What a test leaves of the store: under the type and view only what passes it, and all else.
abbrev pub after_test :
    View
    → MessageType
    → (IbftMessage → Bool)
    → Messages
    → MessageType
    → ℕ
    → ℕ
    → Str
    → Option IbftMessage
after_test v t p ms t' h r k =
    if same_type t t' && ((v.height == h) && (v.round == r))
    then filtered p (stored ms t' h r k)
    else stored ms t' h r k

stored-prune_keys :
    (v : View) (t : MessageType) (ks : List Str) (ms : Messages)
    → is_known t ≡ true
    → (t' : MessageType) (h r : ℕ) (k : Str)
    → stored (prune_keys v t ks ms) t' h r k ≡ (
        if same_type t t' && ((v.height == h) && (v.round == r))
        then (if contains ks k then none else lookup k (get_proto_messages v t ms))
        else stored ms t' h r k)
unfolding get_proto_messages
stored-prune_keys v t [] ms known t' h r k = ground (arith, stored_same ms t t' h r k)
stored-prune_keys v t (x ∷ xs) ms known t' h r k =
    stored-write ms t (get_message_map ms t) v (delete_keys (x ∷ xs) (get_proto_messages v t ms))
      known (λ h r. refl) t' h r k
    ∙ rw (lookup-delete_keys (x ∷ xs) k (get_proto_messages v t ms))

at_view :
    (v : View) (t : MessageType) (ms : Messages) (k : Str) (h r : ℕ)
    → (v.height == h) && (v.round == r) ≡ true
    → lookup k (get_proto_messages v t ms) ≡ stored ms t h r k
unfolding get_proto_messages
at_view v t ms k h r e = ground arith

stored-prune_entries :
    (v : View) (t : MessageType) (p : IbftMessage → Bool) (ms : Messages)
    → is_known t ≡ true
    → Distinct (names (get_proto_messages v t ms))
    → (t' : MessageType) (h r : ℕ) (k : Str)
    → stored (prune_keys v t (drop_keys p (get_proto_messages v t ms)) ms) t' h r k
      ≡ after_test v t p ms t' h r k
stored-prune_entries v t p ms known d t' h r k =
    stored-prune_keys v t (drop_keys p (get_proto_messages v t ms)) ms known t' h r k
    ∙ rw (lookup-dropped p k (get_proto_messages v t ms) d)
        (ground (arith, stored_same ms t t' h r k, at_view v t ms k h r))

-- `GetValidMessages` for a known type, with a check that does not panic, where no key stands twice
-- in the view: it returns the messages of the view that pass and deletes the others from the
-- store, which keeps everything else.
pub get_valid_messages-after_test :
    (v : View) (t : MessageType) (check : IbftMessage → Result Bool) (p : IbftMessage → Bool)
    (ms : Messages)
    → ((m : IbftMessage) → check m ≡ ok (p m))
    → Distinct (names (get_proto_messages v t ms))
    → is_known t ≡ true
    → (ms' : Messages) × (get_valid_messages v t check ms
        ≡ ok (ms', values (keep_entries p (get_proto_messages v t ms))))
      × ((t' : MessageType) (h r : ℕ) (k : Str)
          → stored ms' t' h r k ≡ after_test v t p ms t' h r k)
unfolding get_valid_messages
get_valid_messages-after_test v t check p ms h d known = (
  prune_keys v t (drop_keys p (get_proto_messages v t ms)) ms,
  ground (arith, sort_messages-keep check p h (get_proto_messages v t ms)),
  stored-prune_entries v t p ms known d,
)
