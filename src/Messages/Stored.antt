-- ===== src/Messages/Stored.antt =====
-- The store as a partial function from a type, a view and a sender to a message, and what
-- `AddMessage` and `PruneByHeight` do to it.
use go_ibft.Prelude.{
  ℕ, ◌≡◌, refl, ap, ◌&&◌, Bool, true, false, Option, none, some, [], ◌∷◌, Str, ltb, ◌==◌, nat_eq,
  str_eq, if◌then◌else◌, arith, inl, inr, Bool-cases, ok,
}
use go_ibft.Prelude.Assoc.{lookup, insert, lookup-insert}
use go_ibft.Proto.{
  MessageType, preprepare, prepare, commit, round_change, unknown, same_type, View, IbftMessage,
  view_of, type_of, sender,
}
use go_ibft.Messages.{
  Messages, ProtoMessages, RoundMessageMap, HeightMessageMap, get_message_map, set_message_map,
  rounds_at, messages_at, get_view_messages, set_view_messages, add_message, prune_map,
  prune_by_height,
}

-- The message that the store holds from a sender for a type and a view.
abbrev pub stored : Messages → MessageType → ℕ → ℕ → Str → Option IbftMessage
stored ms t h r k = lookup k (messages_at (rounds_at (get_message_map ms t) h) r)

abbrev pub is_known : MessageType → Bool
is_known (unknown n) = false
is_known _ = true

pub rounds_at-insert :
    (h h' : ℕ) (rs : RoundMessageMap) (m : HeightMessageMap)
    → rounds_at (insert h rs m) h' ≡ (if h == h' then rs else rounds_at m h')
rounds_at-insert h h' rs m = ground (arith, lookup-insert h h' rs m)

messages_at-insert :
    (r r' : ℕ) (pm : ProtoMessages) (rs : RoundMessageMap)
    → messages_at (insert r pm rs) r' ≡ (if r == r' then pm else messages_at rs r')
messages_at-insert r r' pm rs = ground (arith, lookup-insert r r' pm rs)

-- A write to a view is seen there and nowhere else.
pub at-set_view :
    (m : HeightMessageMap) (v : View) (pm : ProtoMessages) (h r : ℕ)
    → messages_at (rounds_at (set_view_messages m v pm) h) r
      ≡ (if (v.height == h) && (v.round == r) then pm else messages_at (rounds_at m h) r)
at-set_view m v pm h r = ground (
  arith,
  rounds_at-insert v.height h (insert v.round pm (rounds_at m v.height)) m,
  messages_at-insert v.round r pm (rounds_at m v.height),
)

pub map-set_map :
    (ms : Messages) (t t' : MessageType) (m : HeightMessageMap)
    → is_known t ≡ true
    → get_message_map (set_message_map ms t m) t'
      ≡ (if same_type t t' then m else get_message_map ms t')
map-set_map ms t t' m h = ground arith

pub same_type-eq : (t t' : MessageType) → same_type t t' ≡ true → t ≡ t'
same_type-eq t t' h = ground arith

abbrev pub at : HeightMessageMap → ℕ → ℕ → ProtoMessages
at m h r = messages_at (rounds_at m h) r

-- The whole store after a write to one view of one type, over a map with the same messages.
pub stored-write :
    (ms : Messages) (t : MessageType) (m : HeightMessageMap) (v : View) (pm : ProtoMessages)
    → is_known t ≡ true
    → ((h r : ℕ) → at m h r ≡ at (get_message_map ms t) h r)
    → (t' : MessageType) (h r : ℕ) (k : Str)
    → stored (set_message_map ms t (set_view_messages m v pm)) t' h r k ≡ (
        if same_type t t' && ((v.height == h) && (v.round == r))
        then lookup k pm
        else stored ms t' h r k)
stored-write ms t m v pm known same t' h r k = elim (Bool-cases (same_type t t')) [
  | inl e ↦
      rw (map-set_map ms t t' (set_view_messages m v pm) known, e, at-set_view m v pm h r)
        (ground (arith, same h r, ap (λ s. stored ms s h r k) (same_type-eq t t' e)))
  | inr e ↦ rw (map-set_map ms t t' (set_view_messages m v pm) known, e)
]

-- The entry that `getViewMessages` makes shows no new message.
pub at-get_view_messages :
    (m : HeightMessageMap) (v : View) (h r : ℕ) → at (get_view_messages m v).0 h r ≡ at m h r
unfolding get_view_messages
at-get_view_messages m v h r =
    ground (arith, at-set_view m v (messages_at (rounds_at m v.height) v.round) h r)

get_view_messages-at :
    (m : HeightMessageMap) (v : View) → (get_view_messages m v).1 ≡ at m v.height v.round
unfolding get_view_messages
get_view_messages-at m v = refl

pub stored_same :
    (ms : Messages) (t t' : MessageType) (h r : ℕ) (k : Str)
    → same_type t t' ≡ true
    → stored ms t h r k ≡ stored ms t' h r k
stored_same ms t t' h r k e = ap (λ s. stored ms s h r k) (same_type-eq t t' e)

-- `AddMessage` on a message of a known type that has a view: it is stored under its type, view and
-- sender, in place of what was there, and nothing else changes.
pub stored-add_message :
    (m : IbftMessage) (v : View) (ms : Messages)
    → is_known (type_of m) ≡ true
    → view_of m ≡ some v
    → (ms' : Messages) × (add_message m ms ≡ ok ms')
      × ((t : MessageType) (h r : ℕ) (k : Str)
          → stored ms' t h r k ≡ (
              if same_type (type_of m) t && ((v.height == h) && (v.round == r)) && (sender m == k)
              then some m
              else stored ms t h r k))
unfolding add_message
stored-add_message m v ms known e =
    let t : MessageType = type_of m in
    let hm : HeightMessageMap = (get_view_messages (get_message_map ms t) v).0 in
    let pm : ProtoMessages = (get_view_messages (get_message_map ms t) v).1 in
    (
      set_message_map ms t (set_view_messages hm v (insert (sender m) m pm)),
      ground arith,
      λ t' h r k. ground (
        arith,
        stored-write ms t hm v (insert (sender m) m pm) known
            (at-get_view_messages (get_message_map ms t) v) t' h r k,
        lookup-insert (sender m) k m pm,
        get_view_messages-at (get_message_map ms t) v,
        stored_same ms t t' h r k,
      ),
    )

pub prune_map-rounds :
    (height h : ℕ) (m : HeightMessageMap)
    → rounds_at (prune_map height m) h ≡ (if ltb h height then [] else rounds_at m h)
unfolding prune_map
prune_map-rounds height h [] = ground arith
prune_map-rounds height h ((j, rs) ∷ m) = ground (arith, prune_map-rounds height h m)

-- `PruneByHeight` forgets what is below the height and keeps the rest.
stored-prune_by_height :
    (height : ℕ) (ms : Messages) (t : MessageType) (h r : ℕ) (k : Str)
    → stored (prune_by_height height ms) t h r k
      ≡ (if ltb h height then none else stored ms t h r k)
unfolding prune_by_height
stored-prune_by_height height ms preprepare h r k =
    ground (arith, prune_map-rounds height h ms.preprepare_messages)
stored-prune_by_height height ms prepare h r k =
    ground (arith, prune_map-rounds height h ms.prepare_messages)
stored-prune_by_height height ms commit h r k =
    ground (arith, prune_map-rounds height h ms.commit_messages)
stored-prune_by_height height ms round_change h r k =
    ground (arith, prune_map-rounds height h ms.round_change_messages)
stored-prune_by_height height ms (unknown n) h r k = ground arith
