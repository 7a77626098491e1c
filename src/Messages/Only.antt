-- ===== src/Messages/Only.antt =====
-- A property that every message of the store keeps, where those that `AddMessage` puts there have it.
use mathlib.Core.Path.{subst}
use go_ibft.Prelude.{
  ℕ, ◌≡◌, refl, sym, ◌&&◌, Bool, true, false, List, [], ◌∷◌, Str, ltb, ◌==◌, nat_eq, str_eq,
  if◌then◌else◌, arith, inl, inr, Bool-cases, Option-cases, Result, ok, panic, All, >>=-eq-ok,
}
use go_ibft.Prelude.Assoc.{insert, erase}
use go_ibft.Proto.{
  MessageType, same_type, preprepare, prepare, commit, round_change, unknown, View, IbftMessage,
  view_of, type_of, sender,
}
use go_ibft.Events.{EventManager}
use go_ibft.Messages.{
  Messages, ProtoMessages, HeightMessageMap, get_message_map, set_message_map, set_view_messages,
  get_view_messages, add_message, prune_by_height, get_proto_messages, sort_messages, delete_keys,
  get_valid_messages, lock, new_messages,
}
use go_ibft.Messages.Stored.{at, is_known, at-get_view_messages}
use go_ibft.Messages.WellFormed.{at-write, at-prune, insert-All}

module _ (Q : IbftMessage → Type 0) where
  abbrev pub OnlyIn : ProtoMessages → Type 0
  OnlyIn pm = All (λ e. Q e.1) pm

  -- Every message of the store has the property.
  abbrev pub Only : Messages → Type 0
  Only ms = (t : MessageType) (h r : ℕ) → OnlyIn (at (get_message_map ms t) h r)

  erase-OnlyIn : (k : Str) (pm : ProtoMessages) → OnlyIn pm → OnlyIn (erase k pm)
  erase-OnlyIn k [] a = tt
  erase-OnlyIn k ((i, x) ∷ pm) a = elim (Bool-cases (i == k)) [
    | inl e ↦ rw e (erase-OnlyIn k pm a.1)
    | inr e ↦ rw e (a.0, erase-OnlyIn k pm a.1)
  ]

  delete_keys-OnlyIn : (ks : List Str) (pm : ProtoMessages) → OnlyIn pm → OnlyIn (delete_keys ks pm)
  unfolding delete_keys
  delete_keys-OnlyIn [] pm a = a
  delete_keys-OnlyIn (k ∷ ks) pm a = delete_keys-OnlyIn ks (erase k pm) (erase-OnlyIn k pm a)

  write-Only :
      (ms : Messages) (t : MessageType) (m : HeightMessageMap) (v : View) (pm : ProtoMessages)
      → is_known t ≡ true
      → ((h r : ℕ) → at m h r ≡ at (get_message_map ms t) h r)
      → OnlyIn pm
      → Only ms
      → Only (set_message_map ms t (set_view_messages m v pm))
  write-Only ms t m v pm known same f w t' h r =
      subst OnlyIn (sym (at-write ms t m v pm known same t' h r))
        (go (same_type t t' && ((v.height == h) && (v.round == r))))
    where
      go : (b : Bool) → OnlyIn (if b then pm else at (get_message_map ms t') h r)
      go true = f
      go false = w t' h r

  pub add_message-Only :
      (m : IbftMessage) (ms ms' : Messages) → Q m → add_message m ms ≡ ok ms' → Only ms → Only ms'
  unfolding add_message get_view_messages
  add_message-Only m ms ms' q e w = elim (Bool-cases (is_known (type_of m))) [
    | inr n ↦ absurd (ground arith)
    | inl known ↦ elim (Option-cases (view_of m)) [
      | inl n ↦ absurd (ground arith)
      | inr (v, s) ↦
          let t : MessageType = type_of m in
          let hm : HeightMessageMap = (get_view_messages (get_message_map ms t) v).0 in
          let pm : ProtoMessages = (get_view_messages (get_message_map ms t) v).1 in
          let run : add_message m ms
              ≡ ok (set_message_map ms t (set_view_messages hm v (insert (sender m) m pm))) =
            ground arith in
          let made : ms' ≡ set_message_map ms t (set_view_messages hm v (insert (sender m) m pm)) =
            cc (e, run) in
          subst (λ x. Only x) (sym made)
            (write-Only ms t hm v (insert (sender m) m pm) known
              (at-get_view_messages (get_message_map ms t) v)
              (insert-All (λ x. Q x.1) (sender m) m pm q (w t v.height v.round)) w)
    ]
  ]

  pub prune_by_height-Only :
      (height : ℕ) (ms : Messages) → Only ms → Only (prune_by_height height ms)
  prune_by_height-Only height ms w t h r =
      subst OnlyIn (sym (at-prune height ms t h r)) (go (ltb h height))
    where
      go : (b : Bool) → OnlyIn (if b then [] else at (get_message_map ms t) h r)
      go true = tt
      go false = w t h r

  pub get_valid_messages-Only :
      (v : View) (t : MessageType) (check : IbftMessage → Result Bool) (ms ms' : Messages)
      (valid : List IbftMessage)
      → get_valid_messages v t check ms ≡ ok (ms', valid)
      → Only ms
      → Only ms'
  unfolding get_valid_messages get_proto_messages
  get_valid_messages-Only v t check ms ms' valid e w = elim (Bool-cases (is_known t)) [
    | inr n ↦ absurd (ground arith)
    | inl known ↦ go known (sort_messages check (get_proto_messages v t ms)) refl
  ]
    where
      go :
          is_known t ≡ true
          → (o : Result (List IbftMessage × List Str))
          → sort_messages check (get_proto_messages v t ms) ≡ o
          → Only ms'
      go known panic s = absurd (ground arith)
      go known (ok (vs, [])) s =
          let made : ms' ≡ ms = ground arith in subst (λ x. Only x) (sym made) w
      go known (ok (vs, k ∷ ks)) s =
          let pm : ProtoMessages = get_proto_messages v t ms in
          let made : ms'
              ≡ set_message_map ms t
                  (set_view_messages (get_message_map ms t) v (delete_keys (k ∷ ks) pm)) =
            ground arith in
          subst (λ x. Only x) (sym made)
            (write-Only ms t (get_message_map ms t) v (delete_keys (k ∷ ks) pm) known (λ h r. refl)
              (delete_keys-OnlyIn (k ∷ ks) pm (w t v.height v.round)) w)

  pub signals-Only :
      (ms : Messages) (em : EventManager) → Only ms → Only (record ms { event_manager = em })
  signals-Only ms em w preprepare h r = w preprepare h r
  signals-Only ms em w prepare h r = w prepare h r
  signals-Only ms em w commit h r = w commit h r
  signals-Only ms em w round_change h r = w round_change h r
  signals-Only ms em w (unknown n) h r = w (unknown n) h r

  -- What `GetValidMessages` returns has it, and stands where it looks.
  sort_messages-OnlyIn :
      (check : IbftMessage → Result Bool) (pm : ProtoMessages) (l : List IbftMessage)
      (ks : List Str)
      → sort_messages check pm ≡ ok (l, ks)
      → OnlyIn pm
      → All Q l
  unfolding sort_messages
  sort_messages-OnlyIn check [] l ks h a = let e : [] ≡ l = ground (arith, h) in subst (All Q) e tt
  sort_messages-OnlyIn check ((k, m) ∷ pm) l ks h a =
      let (good, g, h') = >>=-eq-ok (check m) _ h in
      let ((l', ks'), got, h'') = >>=-eq-ok (sort_messages check pm) _ h' in
      let ih = sort_messages-OnlyIn check pm l' ks' got a.1 in
      elim (Bool-cases good) [
        | inl t ↦ let e : m ∷ l' ≡ l = ground arith in subst (All Q) e (a.0, ih)
        | inr f ↦ let e : l' ≡ l = ground arith in subst (All Q) e ih
      ]

  pub get_valid_messages-OnlyIn :
      (v : View) (t : MessageType) (check : IbftMessage → Result Bool) (ms ms' : Messages)
      (valid : List IbftMessage)
      → get_valid_messages v t check ms ≡ ok (ms', valid)
      → OnlyIn (get_proto_messages v t ms)
      → All Q valid
  unfolding get_valid_messages
  get_valid_messages-OnlyIn v t check ms ms' valid h a =
      let (u, locked, h') = >>=-eq-ok (lock t) _ h in
      let ((l, ks), got, rest) = >>=-eq-ok (sort_messages check (get_proto_messages v t ms)) _ h' in
      let e : l ≡ valid = ground arith in
      subst (All Q) e (sort_messages-OnlyIn check (get_proto_messages v t ms) l ks got a)

  pub new_messages-Only : Only new_messages
  unfolding new_messages
  new_messages-Only preprepare h r = tt
  new_messages-Only prepare h r = tt
  new_messages-Only commit h r = tt
  new_messages-Only round_change h r = tt
  new_messages-Only (unknown n) h r = tt
