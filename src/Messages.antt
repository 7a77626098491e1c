-- ===== src/Messages.antt =====
-- The message store (messages/messages.go). A map of maps is owned by its parent, so the in-place
-- writes of the source rebuild the path to the root. The mutexes make each operation one step; the
-- map of mutexes has the four known types, and locking the nil mutex of another type panics.
pub mod Stored
pub mod Valid
pub mod Certified
pub mod Extended
pub mod Rcc
pub mod WellFormed
pub mod Keyed
pub mod Only
pub mod Passing
use go_ibft.Prelude.{
  ℕ, Bool, true, false, Option, none, some, List, [], ◌∷◌, map, Result, ok, panic, ◌>>=◌, ◌>>◌, ltb,
  leb, not, ◌&&◌, ◌==◌, nat_eq, str_eq, if◌then◌else◌, length, Str,
}
use go_ibft.Prelude.Assoc.{lookup, insert, erase}
use go_ibft.Proto.{
  MessageType, preprepare, prepare, commit, round_change, unknown, View, IbftMessage, view_of,
  type_of, sender,
}
use go_ibft.Extract.{deref_view}
use go_ibft.Events.{EventManager, new_event_manager}

abbrev pub ProtoMessages : Type 0
ProtoMessages = List (Str × IbftMessage)

abbrev pub RoundMessageMap : Type 0
RoundMessageMap = List (ℕ × ProtoMessages)

abbrev pub HeightMessageMap : Type 0
HeightMessageMap = List (ℕ × RoundMessageMap)

pub record Messages : Type 0 where
  pub event_manager : EventManager
  pub preprepare_messages : HeightMessageMap
  pub prepare_messages : HeightMessageMap
  pub commit_messages : HeightMessageMap
  pub round_change_messages : HeightMessageMap

unfoldable pub new_messages : Messages
new_messages = record {
  event_manager = new_event_manager;
  preprepare_messages = [];
  prepare_messages = [];
  commit_messages = [];
  round_change_messages = [];
}

-- `ms.muxMap[messageType]` and its lock.
abbrev pub lock : MessageType → Result (Unit {0})
lock (unknown n) = panic
lock _ = ok tt

abbrev pub get_message_map : Messages → MessageType → HeightMessageMap
get_message_map ms preprepare = ms.preprepare_messages
get_message_map ms prepare = ms.prepare_messages
get_message_map ms commit = ms.commit_messages
get_message_map ms round_change = ms.round_change_messages
get_message_map ms (unknown n) = []

-- A write to the map that `get_message_map` returns.
abbrev pub set_message_map : Messages → MessageType → HeightMessageMap → Messages
set_message_map ms preprepare m = record ms { preprepare_messages = m }
set_message_map ms prepare m = record ms { prepare_messages = m }
set_message_map ms commit m = record ms { commit_messages = m }
set_message_map ms round_change m = record ms { round_change_messages = m }
set_message_map ms (unknown n) m = ms

-- What a read of a missing key gives: the nil map.
abbrev pub rounds_at : HeightMessageMap → ℕ → RoundMessageMap
rounds_at m height = elim (lookup height m) [ none ↦ [] | some rs ↦ rs ]

abbrev pub messages_at : RoundMessageMap → ℕ → ProtoMessages
messages_at rs round = elim (lookup round rs) [ none ↦ [] | some pm ↦ pm ]

-- The messages of a view and the map in which the view has an entry.
unfoldable pub get_view_messages : HeightMessageMap → View → HeightMessageMap × ProtoMessages
get_view_messages m v =
    let rs = rounds_at m v.height in
    let pm = messages_at rs v.round in (insert v.height (insert v.round pm rs) m, pm)

-- A write to the messages of a view.
abbrev pub set_view_messages : HeightMessageMap → View → ProtoMessages → HeightMessageMap
set_view_messages m v pm = insert v.height (insert v.round pm (rounds_at m v.height)) m

unfoldable pub add_message : IbftMessage → Messages → Result Messages
add_message m ms = do
  lock (type_of m)
  deref_view (view_of m) λ v.
      let (hm, pm) = get_view_messages (get_message_map ms (type_of m)) v in
      ok (set_message_map ms (type_of m) (set_view_messages hm v (insert (sender m) m pm)))

unfoldable pub num_messages : View → MessageType → Messages → Result ℕ
num_messages v t ms = do
  lock t
  ok (elim (lookup v.height (get_message_map ms t)) [
    | none ↦ 0
    | some rs ↦ elim (lookup v.round rs) [ none ↦ 0 | some pm ↦ length pm ]
  ])

-- Drops the heights below the bound.
unfoldable pub prune_map : ℕ → HeightMessageMap → HeightMessageMap
prune_map height [] = []
prune_map height ((h, rs) ∷ m) =
    let rest = prune_map height m in if ltb h height then rest else (h, rs) ∷ rest

unfoldable pub prune_by_height : ℕ → Messages → Messages
prune_by_height height ms = record ms {
  preprepare_messages = prune_map height ms.preprepare_messages;
  prepare_messages = prune_map height ms.prepare_messages;
  commit_messages = prune_map height ms.commit_messages;
  round_change_messages = prune_map height ms.round_change_messages;
}

unfoldable pub get_proto_messages : View → MessageType → Messages → ProtoMessages
get_proto_messages v t ms = messages_at (rounds_at (get_message_map ms t) v.height) v.round

-- The first loop of `GetValidMessages`: the valid messages and the keys of the others.
unfoldable pub sort_messages :
    (IbftMessage → Result Bool) → ProtoMessages → Result (List IbftMessage × List Str)
sort_messages is_valid [] = ok ([], [])
sort_messages is_valid ((key, m) ∷ rest) = do
  good ← is_valid m
  (valid, invalid_keys) ← sort_messages is_valid rest
  ok (if not good then (valid, key ∷ invalid_keys) else (m ∷ valid, invalid_keys))

-- The second loop.
unfoldable pub delete_keys : List Str → ProtoMessages → ProtoMessages
delete_keys [] pm = pm
delete_keys (key ∷ keys) pm = delete_keys keys (erase key pm)

-- The map that `getProtoMessages` returns is changed in place; where it is nil nothing is written.
unfoldable pub get_valid_messages :
    View
    → MessageType
    → (IbftMessage → Result Bool)
    → Messages
    → Result (Messages × List IbftMessage)
get_valid_messages v t is_valid ms = do
  lock t
  let pm = get_proto_messages v t ms
  (valid, invalid_keys) ← sort_messages is_valid pm
  ok (elim invalid_keys [
    | [] ↦ (ms, valid)
    | key ∷ keys ↦ (
      set_message_map ms t
          (set_view_messages (get_message_map ms t) v (delete_keys (key ∷ keys) pm)),
      valid,
    )
  ])

-- The messages of one round that pass the test, as the inner loop of `GetExtendedRCC` collects them.
unfoldable pub valid_of : (IbftMessage → Result Bool) → ProtoMessages → Result (List IbftMessage)
valid_of is_valid [] = ok []
valid_of is_valid ((key, m) ∷ rest) = do
  good ← is_valid m
  valid ← valid_of is_valid rest
  ok (if not good then valid else m ∷ valid)

-- The outer loop, over the highest round so far and its messages.
unfoldable pub extended_rcc_from :
    (IbftMessage → Result Bool)
    → (ℕ → List IbftMessage → Result Bool)
    → ℕ
    → Option (List IbftMessage)
    → RoundMessageMap
    → Result (Option (List IbftMessage))
extended_rcc_from is_valid is_valid_rcc highest best [] = ok best
extended_rcc_from is_valid is_valid_rcc highest best ((round, pm) ∷ rest) =
    elim (leb round highest) [
      | true ↦ extended_rcc_from is_valid is_valid_rcc highest best rest
      | false ↦ do
        valid ← valid_of is_valid pm
        good ← is_valid_rcc round valid
        elim good [
          | false ↦ extended_rcc_from is_valid is_valid_rcc highest best rest
          | true ↦ extended_rcc_from is_valid is_valid_rcc round (some valid) rest
        ]
    ]

-- `none` is the nil slice.
unfoldable pub get_extended_rcc :
    ℕ
    → (IbftMessage → Result Bool)
    → (ℕ → List IbftMessage → Result Bool)
    → Messages
    → Result (Option (List IbftMessage))
get_extended_rcc height is_valid is_valid_rcc ms =
    extended_rcc_from is_valid is_valid_rcc 0 none (rounds_at ms.round_change_messages height)

-- The loop of `GetMostRoundChangeMessages`: the best round and its number of messages.
unfoldable pub most_from : ℕ → ℕ → ℕ → RoundMessageMap → ℕ × ℕ
most_from min_round best_round best_count [] = (best_round, best_count)
most_from min_round best_round best_count ((round, pm) ∷ rest) =
    let better = not (ltb round min_round) && ltb best_count (length pm) in
    most_from min_round (if better then round else best_round)
      (if better then length pm else best_count) rest

unfoldable pub get_most_round_change_messages : ℕ → ℕ → Messages → Option (List IbftMessage)
get_most_round_change_messages min_round height ms =
    let rs = rounds_at ms.round_change_messages height in
    let best_round = (most_from min_round 0 0 rs).0 in
    if best_round == 0 then none else some (map (λ e. e.1) (messages_at rs best_round))
