-- ===== src/Messages/WellFormed.antt =====
-- The invariant of the store: where and under which key messages stand.
use go_ibft.Prelude.{
  ℕ, ◌≡◌, refl, sym, ap, ◌&&◌, ◌||◌, Bool, true, false, some, List, [], ◌∷◌, Str, ltb, ◌==◌, nat_eq,
  str_eq, if◌then◌else◌, arith, inl, inr, Bool-cases, Option-cases, Result, ok, panic, contains,
  Distinct, All, beq_cases,
}
use mathlib.Core.Path.{subst}
use go_ibft.Prelude.Assoc.{insert, erase}
use go_ibft.Proto.{
  MessageType, same_type, preprepare, prepare, commit, round_change, unknown, View, IbftMessage,
  view_of, type_of, sender,
}
use go_ibft.Messages.{
  Messages, ProtoMessages, HeightMessageMap, new_messages, get_message_map, set_message_map,
  set_view_messages, get_view_messages, add_message, prune_by_height, get_proto_messages,
  sort_messages, delete_keys, get_valid_messages,
}
use go_ibft.Messages.Stored.{
  at, is_known, at-set_view, map-set_map, same_type-eq, at-get_view_messages, prune_map-rounds,
}
use go_ibft.Messages.Valid.{names}

-- An entry of the place of a type and a view.
pub record IsFiled (t : MessageType) (h r : ℕ) (e : Str × IbftMessage) : Type 0 where
  pub key : sender e.1 ≡ e.0
  pub of_type : same_type (type_of e.1) t ≡ true
  pub of_view : view_of e.1 ≡ some (record { height = h; round = r })

abbrev pub IsFiledOnce : MessageType → ℕ → ℕ → ProtoMessages → Type 0
IsFiledOnce t h r pm = Distinct (names pm) × All (IsFiled t h r) pm

abbrev pub IsWellFormed : Messages → Type 0
IsWellFormed ms = (t : MessageType) (h r : ℕ) → IsFiledOnce t h r (at (get_message_map ms t) h r)

names-insert :
    (k j : Str) (m : IbftMessage) (pm : ProtoMessages)
    → contains (names (insert k m pm)) j ≡ ((k == j) || contains (names pm) j)
names-insert k j m [] = refl
names-insert k j m ((i, x) ∷ pm) =
    ground (arith, names-insert k j m pm, beq_cases i k, beq_cases i j, beq_cases k j)

insert-Distinct :
    (k : Str) (m : IbftMessage) (pm : ProtoMessages)
    → Distinct (names pm)
    → Distinct (names (insert k m pm))
insert-Distinct k m [] d = (refl, tt)
insert-Distinct k m ((i, x) ∷ pm) d =
    ground (arith, insert-Distinct k m pm d.1, names-insert k i m pm, beq_cases i k, beq_cases k i)

pub insert-All :
    (P : Str × IbftMessage → Type 0) (k : Str) (m : IbftMessage) (pm : ProtoMessages)
    → P (k, m)
    → All P pm
    → All P (insert k m pm)
insert-All P k m [] p a = (p, tt)
insert-All P k m ((i, x) ∷ pm) p a = elim (Bool-cases (i == k)) [
  | inl e ↦ rw e (p, a.1)
  | inr e ↦ rw e (a.0, insert-All P k m pm p a.1)
]

names-erase :
    (k j : Str) (pm : ProtoMessages)
    → contains (names pm) j ≡ false
    → contains (names (erase k pm)) j ≡ false
names-erase k j [] h = refl
names-erase k j ((i, x) ∷ pm) h = ground (arith, names-erase k j pm)

erase-IsFiledOnce :
    (t : MessageType) (h r : ℕ) (k : Str) (pm : ProtoMessages)
    → IsFiledOnce t h r pm
    → IsFiledOnce t h r (erase k pm)
erase-IsFiledOnce t h r k [] d = (tt, tt)
erase-IsFiledOnce t h r k ((i, x) ∷ pm) ((n, d), (f, a)) =
    let (d', a') = erase-IsFiledOnce t h r k pm (d, a) in
    elim (Bool-cases (i == k)) [
      | inl e ↦ rw e (d', a')
      | inr e ↦ rw e ((names-erase k i pm n, d'), (f, a'))
    ]

delete_keys-IsFiledOnce :
    (t : MessageType) (h r : ℕ) (ks : List Str) (pm : ProtoMessages)
    → IsFiledOnce t h r pm
    → IsFiledOnce t h r (delete_keys ks pm)
unfolding delete_keys
delete_keys-IsFiledOnce t h r [] pm d = d
delete_keys-IsFiledOnce t h r (k ∷ ks) pm d =
    delete_keys-IsFiledOnce t h r ks (erase k pm) (erase-IsFiledOnce t h r k pm d)

pub at-write :
    (ms : Messages) (t : MessageType) (m : HeightMessageMap) (v : View) (pm : ProtoMessages)
    → is_known t ≡ true
    → ((h r : ℕ) → at m h r ≡ at (get_message_map ms t) h r)
    → (t' : MessageType) (h r : ℕ)
    → at (get_message_map (set_message_map ms t (set_view_messages m v pm)) t') h r ≡ (
        if same_type t t' && ((v.height == h) && (v.round == r))
        then pm
        else at (get_message_map ms t') h r)
at-write ms t m v pm known same t' h r = elim (Bool-cases (same_type t t')) [
  | inl e ↦
      rw (map-set_map ms t t' (set_view_messages m v pm) known, e, at-set_view m v pm h r)
        (ground (arith, same h r, ap (λ s. at (get_message_map ms s) h r) (same_type-eq t t' e)))
  | inr e ↦ rw (map-set_map ms t t' (set_view_messages m v pm) known, e)
]

-- A write of well-filed messages to one view, over a map with the same messages.
write-IsWellFormed :
    (ms : Messages) (t : MessageType) (m : HeightMessageMap) (v : View) (pm : ProtoMessages)
    → is_known t ≡ true
    → ((h r : ℕ) → at m h r ≡ at (get_message_map ms t) h r)
    → IsFiledOnce t v.height v.round pm
    → IsWellFormed ms
    → IsWellFormed (set_message_map ms t (set_view_messages m v pm))
write-IsWellFormed ms t m v pm known same f w t' h r =
    subst (IsFiledOnce t' h r) (sym (at-write ms t m v pm known same t' h r))
      (go (same_type t t' && ((v.height == h) && (v.round == r))) refl)
  where
    go :
        (b : Bool)
        → same_type t t' && ((v.height == h) && (v.round == r)) ≡ b
        → IsFiledOnce t' h r (if b then pm else at (get_message_map ms t') h r)
    go false e = w t' h r
    go true e =
        subst (λ s. IsFiledOnce s h r pm) (same_type-eq t t' (ground arith))
          (subst (λ x. IsFiledOnce t x r pm) (ground arith)
            (subst (λ x. IsFiledOnce t v.height x pm) (ground arith) f))

pub at-prune :
    (height : ℕ) (ms : Messages) (t : MessageType) (h r : ℕ)
    → at (get_message_map (prune_by_height height ms) t) h r
      ≡ (if ltb h height then [] else at (get_message_map ms t) h r)
unfolding prune_by_height
at-prune height ms preprepare h r = ground (arith, prune_map-rounds height h ms.preprepare_messages)
at-prune height ms prepare h r = ground (arith, prune_map-rounds height h ms.prepare_messages)
at-prune height ms commit h r = ground (arith, prune_map-rounds height h ms.commit_messages)
at-prune height ms round_change h r =
    ground (arith, prune_map-rounds height h ms.round_change_messages)
at-prune height ms (unknown n) h r = ground arith

pub same_type_refl : (t : MessageType) → same_type t t ≡ true
same_type_refl preprepare = refl
same_type_refl prepare = refl
same_type_refl commit = refl
same_type_refl round_change = refl
same_type_refl (unknown n) = ground arith

pub add_message-IsWellFormed :
    (m : IbftMessage) (ms ms' : Messages)
    → add_message m ms ≡ ok ms'
    → IsWellFormed ms
    → IsWellFormed ms'
unfolding add_message get_view_messages
add_message-IsWellFormed m ms ms' e w = elim (Bool-cases (is_known (type_of m))) [
  | inr n ↦ absurd (ground arith)
  | inl known ↦ elim (Option-cases (view_of m)) [
    | inl n ↦ absurd (ground arith)
    | inr (v, s) ↦
        let t : MessageType = type_of m in
        let hm : HeightMessageMap = (get_view_messages (get_message_map ms t) v).0 in
        let pm : ProtoMessages = (get_view_messages (get_message_map ms t) v).1 in
        let run : add_message m ms
            ≡ ok (set_message_map ms t (set_view_messages hm v (insert (sender m) m pm))) =
          ground arith in
        let made : ms' ≡ set_message_map ms t (set_view_messages hm v (insert (sender m) m pm)) =
          cc (e, run) in
        let (d, a) = w t v.height v.round in
        subst (λ x. IsWellFormed x) (sym made)
          (write-IsWellFormed ms t hm v (insert (sender m) m pm) known
            (at-get_view_messages (get_message_map ms t) v)
            (
              insert-Distinct (sender m) m pm d,
              insert-All (IsFiled t v.height v.round) (sender m) m pm
                  (record { key = refl; of_type = same_type_refl t; of_view = s }) a,
            )
            w)
  ]
]

pub prune_by_height-IsWellFormed :
    (height : ℕ) (ms : Messages) → IsWellFormed ms → IsWellFormed (prune_by_height height ms)
prune_by_height-IsWellFormed height ms w t h r =
    subst (IsFiledOnce t h r) (sym (at-prune height ms t h r)) (go (ltb h height))
  where
    go : (b : Bool) → IsFiledOnce t h r (if b then [] else at (get_message_map ms t) h r)
    go true = (tt, tt)
    go false = w t h r

pub get_valid_messages-IsWellFormed :
    (v : View) (t : MessageType) (check : IbftMessage → Result Bool) (ms ms' : Messages)
    (valid : List IbftMessage)
    → get_valid_messages v t check ms ≡ ok (ms', valid)
    → IsWellFormed ms
    → IsWellFormed ms'
unfolding get_valid_messages get_proto_messages
get_valid_messages-IsWellFormed v t check ms ms' valid e w = elim (Bool-cases (is_known t)) [
  | inr n ↦ absurd (ground arith)
  | inl known ↦ go known (sort_messages check (get_proto_messages v t ms)) refl
]
  where
    go :
        is_known t ≡ true
        → (o : Result (List IbftMessage × List Str))
        → sort_messages check (get_proto_messages v t ms) ≡ o
        → IsWellFormed ms'
    go known panic s = absurd (ground arith)
    go known (ok (vs, [])) s =
        let made : ms' ≡ ms = ground arith in subst (λ x. IsWellFormed x) (sym made) w
    go known (ok (vs, k ∷ ks)) s =
        let pm : ProtoMessages = get_proto_messages v t ms in
        let made : ms'
            ≡ set_message_map ms t
                (set_view_messages (get_message_map ms t) v (delete_keys (k ∷ ks) pm)) =
          ground arith in
        subst (λ x. IsWellFormed x) (sym made)
          (write-IsWellFormed ms t (get_message_map ms t) v (delete_keys (k ∷ ks) pm) known
            (λ h r. refl)
            (delete_keys-IsFiledOnce t v.height v.round (k ∷ ks) pm (w t v.height v.round)) w)

pub new_messages-IsWellFormed : IsWellFormed new_messages
unfolding new_messages
new_messages-IsWellFormed preprepare h r = (tt, tt)
new_messages-IsWellFormed prepare h r = (tt, tt)
new_messages-IsWellFormed commit h r = (tt, tt)
new_messages-IsWellFormed round_change h r = (tt, tt)
new_messages-IsWellFormed (unknown n) h r = (tt, tt)
