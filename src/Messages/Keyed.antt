-- ===== src/Messages/Keyed.antt =====
-- The rounds under which the store keeps messages: a Go map has one entry for each.
use go_ibft.Prelude.{
  ℕ, ◌≡◌, refl, sym, ◌||◌, Bool, true, false, List, [], ◌∷◌, map, ltb, ◌==◌, nat_eq, str_eq,
  if◌then◌else◌, arith, inl, inr, Bool-cases, Option-cases, Result, ok, panic, contains, Distinct,
  beq_cases, Str,
}
use mathlib.Core.Path.{subst}
use go_ibft.Prelude.Assoc.{insert}
use go_ibft.Proto.{
  MessageType, same_type, preprepare, prepare, commit, round_change, unknown, View, IbftMessage,
  view_of, type_of, sender,
}
use go_ibft.Events.{EventManager}
use go_ibft.Messages.{
  Messages, ProtoMessages, RoundMessageMap, HeightMessageMap, new_messages, get_message_map,
  set_message_map, rounds_at, set_view_messages, get_view_messages, add_message, prune_by_height,
  prune_map, get_proto_messages, sort_messages, delete_keys, get_valid_messages,
}
use go_ibft.Messages.Stored.{is_known, map-set_map, rounds_at-insert, prune_map-rounds}

abbrev pub rounds : RoundMessageMap → List ℕ
rounds = map (λ e. e.0)

-- No height of the map has two entries for a round.
abbrev pub HasDistinctRounds : HeightMessageMap → Type 0
HasDistinctRounds m = (h : ℕ) → Distinct (rounds (rounds_at m h))

abbrev pub IsKeyed : Messages → Type 0
IsKeyed ms = (t : MessageType) → HasDistinctRounds (get_message_map ms t)

rounds-insert :
    (r j : ℕ) (pm : ProtoMessages) (rs : RoundMessageMap)
    → contains (rounds (insert r pm rs)) j ≡ ((r == j) || contains (rounds rs) j)
rounds-insert r j pm [] = refl
rounds-insert r j pm ((i, x) ∷ rs) =
    ground (arith, rounds-insert r j pm rs, beq_cases i r, beq_cases i j, beq_cases r j)

insert-Distinct :
    (r : ℕ) (pm : ProtoMessages) (rs : RoundMessageMap)
    → Distinct (rounds rs)
    → Distinct (rounds (insert r pm rs))
insert-Distinct r pm [] d = (refl, tt)
insert-Distinct r pm ((i, x) ∷ rs) d =
    ground
      (arith, insert-Distinct r pm rs d.1, rounds-insert r i pm rs, beq_cases i r, beq_cases r i)

set_view_messages-HasDistinctRounds :
    (m : HeightMessageMap) (v : View) (pm : ProtoMessages)
    → HasDistinctRounds m
    → HasDistinctRounds (set_view_messages m v pm)
set_view_messages-HasDistinctRounds m v pm d h =
    subst (λ rs. Distinct (rounds rs))
      (sym (rounds_at-insert v.height h (insert v.round pm (rounds_at m v.height)) m))
      (go (v.height == h))
  where
    go :
        (b : Bool)
        → Distinct (rounds (if b then insert v.round pm (rounds_at m v.height) else rounds_at m h))
    go true = insert-Distinct v.round pm (rounds_at m v.height) (d v.height)
    go false = d h

set_message_map-IsKeyed :
    (ms : Messages) (t : MessageType) (m : HeightMessageMap)
    → is_known t ≡ true
    → HasDistinctRounds m
    → IsKeyed ms
    → IsKeyed (set_message_map ms t m)
set_message_map-IsKeyed ms t m known d k t' =
    subst HasDistinctRounds (sym (map-set_map ms t t' m known)) (go (same_type t t'))
  where
    go : (b : Bool) → HasDistinctRounds (if b then m else get_message_map ms t')
    go true = d
    go false = k t'

pub signals-IsKeyed :
    (ms : Messages) (em : EventManager) → IsKeyed ms → IsKeyed (record ms { event_manager = em })
signals-IsKeyed ms em k preprepare h = k preprepare h
signals-IsKeyed ms em k prepare h = k prepare h
signals-IsKeyed ms em k commit h = k commit h
signals-IsKeyed ms em k round_change h = k round_change h
signals-IsKeyed ms em k (unknown n) h = k (unknown n) h

pub add_message-IsKeyed :
    (m : IbftMessage) (ms ms' : Messages) → add_message m ms ≡ ok ms' → IsKeyed ms → IsKeyed ms'
unfolding add_message get_view_messages
add_message-IsKeyed m ms ms' e k = elim (Bool-cases (is_known (type_of m))) [
  | inr n ↦ absurd (ground arith)
  | inl known ↦ elim (Option-cases (view_of m)) [
    | inl n ↦ absurd (ground arith)
    | inr (v, s) ↦
        let t : MessageType = type_of m in
        let (hm, pm) = get_view_messages (get_message_map ms t) v in
        let run : add_message m ms
            ≡ ok (set_message_map ms t (set_view_messages hm v (insert (sender m) m pm))) =
          ground arith in
        let made : set_message_map ms t (set_view_messages hm v (insert (sender m) m pm)) ≡ ms' =
          cc (e, run) in
        subst IsKeyed made (
          set_message_map-IsKeyed ms t (set_view_messages hm v (insert (sender m) m pm)) known
            (set_view_messages-HasDistinctRounds hm v (insert (sender m) m pm)
              (set_view_messages-HasDistinctRounds (get_message_map ms t) v pm (k t)))
            k)
  ]
]

prune_map-HasDistinctRounds :
    (height : ℕ) (m : HeightMessageMap)
    → HasDistinctRounds m
    → HasDistinctRounds (prune_map height m)
prune_map-HasDistinctRounds height m d h =
    subst (λ rs. Distinct (rounds rs)) (sym (prune_map-rounds height h m)) (go (ltb h height))
  where
    go : (b : Bool) → Distinct (rounds (if b then [] else rounds_at m h))
    go true = tt
    go false = d h

pub prune_by_height-IsKeyed :
    (height : ℕ) (ms : Messages) → IsKeyed ms → IsKeyed (prune_by_height height ms)
unfolding prune_by_height
prune_by_height-IsKeyed height ms k preprepare =
    prune_map-HasDistinctRounds height ms.preprepare_messages (k preprepare)
prune_by_height-IsKeyed height ms k prepare =
    prune_map-HasDistinctRounds height ms.prepare_messages (k prepare)
prune_by_height-IsKeyed height ms k commit =
    prune_map-HasDistinctRounds height ms.commit_messages (k commit)
prune_by_height-IsKeyed height ms k round_change =
    prune_map-HasDistinctRounds height ms.round_change_messages (k round_change)
prune_by_height-IsKeyed height ms k (unknown n) = k (unknown n)

pub get_valid_messages-IsKeyed :
    (v : View) (t : MessageType) (check : IbftMessage → Result Bool) (ms ms' : Messages)
    (valid : List IbftMessage)
    → get_valid_messages v t check ms ≡ ok (ms', valid)
    → IsKeyed ms
    → IsKeyed ms'
unfolding get_valid_messages get_proto_messages
get_valid_messages-IsKeyed v t check ms ms' valid e k = elim (Bool-cases (is_known t)) [
  | inr n ↦ absurd (ground arith)
  | inl known ↦ go known (sort_messages check (get_proto_messages v t ms)) refl
]
  where
    go :
        is_known t ≡ true
        → (o : Result (List IbftMessage × List Str))
        → sort_messages check (get_proto_messages v t ms) ≡ o
        → IsKeyed ms'
    go known panic s = absurd (ground arith)
    go known (ok (vs, [])) s = let made : ms ≡ ms' = ground arith in subst IsKeyed made k
    go known (ok (vs, key ∷ keys)) s =
        let pm : ProtoMessages = delete_keys (key ∷ keys) (get_proto_messages v t ms) in
        let hm : HeightMessageMap = set_view_messages (get_message_map ms t) v pm in
        let made : set_message_map ms t hm ≡ ms' = ground arith in
        subst IsKeyed made (
          set_message_map-IsKeyed ms t hm known
            (set_view_messages-HasDistinctRounds (get_message_map ms t) v pm (k t)) k)

pub new_messages-IsKeyed : IsKeyed new_messages
unfolding new_messages
new_messages-IsKeyed preprepare h = tt
new_messages-IsKeyed prepare h = tt
new_messages-IsKeyed commit h = tt
new_messages-IsKeyed round_change h = tt
new_messages-IsKeyed (unknown n) h = tt
