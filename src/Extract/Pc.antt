-- ===== src/Extract/Pc.antt =====
-- `AreValidPCMessages` of messages/helpers.go.
use go_ibft.Prelude.{
  ℕ, ◌<◌, ◌≡◌, refl, sym, ◌∙◌, ◌↔◌, true, false, Option, none, some, List, [], ◌∷◌, map, Str,
  str_beq_refl, beq_cases, contains, Distinct, nat_eq, str_eq, arith, All, Result, ok, panic,
  Option-cases, inl, inr,
}
use go_ibft.Proto.{IbftMessage, sender, View, view_of, bytes_equal, Bytes, to_string}
use go_ibft.Extract.{
  extract_pc_message_hash, first_hash, pc_message_check, pc_messages_from, are_valid_pc_messages,
  deref_view,
}
use go_ibft.Extract.Seals.{Fresh, Fresh-Distinct, Distinct-Fresh}

-- The message is of the given height and round, and of a type that a prepared certificate may hold.
pub record InPc (height round : ℕ) (m : IbftMessage) : Type 0 where
  pub view : View
  pub has_view : view_of m ≡ some view
  pub same_height : view.height ≡ height
  pub same_round : view.round ≡ round
  pub is_pc_type : (extract_pc_message_hash m).1 ≡ true

abbrev pub pc_hash : IbftMessage → Bytes
pc_hash m = (extract_pc_message_hash m).0

pc_message_check-none :
    (height limit round : ℕ) (hash : Bytes) (seen : List Str) (m : IbftMessage)
    → view_of m ≡ none
    → pc_message_check height limit round hash seen m ≡ panic
unfolding pc_message_check
pc_message_check-none height limit round hash seen m e = rw (e, deref_view)

-- A pass that goes on.
record Passed (height limit round : ℕ) (hash : Bytes) (seen : List Str) (m : IbftMessage)
    (hash' : Bytes) : Type 0 where
  in_pc : InPc height round m
  below : round < limit
  is_fresh : contains seen (sender m) ≡ false
  reference : hash' ≡ first_hash hash (pc_hash m)
  agrees : bytes_equal hash' (pc_hash m) ≡ true

check-Passed :
    (height limit round : ℕ) (hash : Bytes) (seen : List Str) (m : IbftMessage) (hash' : Bytes)
    → pc_message_check height limit round hash seen m ≡ ok (some hash')
    → Passed height limit round hash seen m hash'
unfolding pc_message_check
check-Passed height limit round hash seen m hash' h = elim (Option-cases (view_of m)) [
  | inl e ↦ ground arith
  | inr (v, e) ↦ record {
    in_pc = record {
      view = v;
      has_view = e;
      same_height = ground arith;
      same_round = ground arith;
      is_pc_type = ground arith;
    };
    below = ground arith;
    is_fresh = ground arith;
    reference = ground arith;
    agrees = ground arith;
  }
]

Passed-check :
    (height limit round : ℕ) (hash : Bytes) (seen : List Str) (m : IbftMessage) (hash' : Bytes)
    → Passed height limit round hash seen m hash'
    → pc_message_check height limit round hash seen m ≡ ok (some hash')
unfolding pc_message_check
Passed-check height limit round hash seen m hash' p = ground arith

-- The passes of the loop over all messages.
abbrev Chain : ℕ → ℕ → ℕ → Bytes → List Str → List IbftMessage → Type 0
Chain height limit round hash seen [] = Unit
Chain height limit round hash seen (m ∷ ms) =
    (hash' : Bytes) × Passed height limit round hash seen m hash'
    × Chain height limit round hash' (sender m ∷ seen) ms

from-Chain :
    (height limit round : ℕ) (hash : Bytes) (seen : List Str) (ms : List IbftMessage)
    → pc_messages_from height limit round hash seen ms ≡ ok true
    → Chain height limit round hash seen ms
unfolding pc_messages_from
from-Chain height limit round hash seen [] h = tt
from-Chain height limit round hash seen (m ∷ ms) h =
    go (pc_message_check height limit round hash seen m) refl
      (λ hash'. from-Chain height limit round hash' (sender m ∷ seen) ms)
  where
    go :
        (c : Result (Option Bytes))
        → pc_message_check height limit round hash seen m ≡ c
        → ((hash' : Bytes)
            → pc_messages_from height limit round hash' (sender m ∷ seen) ms ≡ ok true
            → Chain height limit round hash' (sender m ∷ seen) ms)
        → Chain height limit round hash seen (m ∷ ms)
    go panic e ih = absurd (ground arith)
    go (ok none) e ih = absurd (ground arith)
    go (ok (some hash')) e ih = (
      hash',
      check-Passed height limit round hash seen m hash' e,
      ih hash' (rw (e, pc_messages_from) at h),
    )

Chain-from :
    (height limit round : ℕ) (hash : Bytes) (seen : List Str) (ms : List IbftMessage)
    → Chain height limit round hash seen ms
    → pc_messages_from height limit round hash seen ms ≡ ok true
unfolding pc_messages_from
Chain-from height limit round hash seen [] c = refl
Chain-from height limit round hash seen (m ∷ ms) (hash', p, c) =
    rw (Passed-check height limit round hash seen m hash' p, pc_messages_from)
      (Chain-from height limit round hash' (sender m ∷ seen) ms c)

-- What the loop shows of the messages once the reference hash is set.
record Uniform (height limit round : ℕ) (h : Str) (seen : List Str) (ms : List IbftMessage)
    : Type 0 where
  in_pc : All (InPc height round) ms
  same_hash : All (λ m. bytes_equal (some h) (pc_hash m) ≡ true) ms
  is_fresh : Fresh seen ms

Chain-Uniform :
    (height limit round : ℕ) (h : Str) (seen : List Str) (ms : List IbftMessage)
    → Chain height limit round (some h) seen ms
    → Uniform height limit round h seen ms
Chain-Uniform height limit round h seen [] c = record { in_pc = tt; same_hash = tt; is_fresh = tt }
Chain-Uniform height limit round h seen (m ∷ ms) (hash', p, c) =
    let rest = Chain-Uniform height limit round h (sender m ∷ seen) ms (rw p.reference at c) in
    record {
      in_pc = (p.in_pc, rest.in_pc);
      same_hash = (rw p.reference at p.agrees, rest.same_hash);
      is_fresh = (p.is_fresh, rest.is_fresh);
    }

Uniform-Chain :
    (height limit round : ℕ) (h : Str) (seen : List Str) (ms : List IbftMessage)
    → round < limit
    → Uniform height limit round h seen ms
    → Chain height limit round (some h) seen ms
Uniform-Chain height limit round h seen [] b u = tt
Uniform-Chain height limit round h seen (m ∷ ms) b u = (
  some h,
  record {
    in_pc = u.in_pc.0;
    below = b;
    is_fresh = u.is_fresh.0;
    reference = refl;
    agrees = u.same_hash.0;
  },
  Uniform-Chain height limit round h (sender m ∷ seen) ms b
      (record { in_pc = u.in_pc.1; same_hash = u.same_hash.1; is_fresh = u.is_fresh.1 }),
)

-- What a valid list of messages has in common.
pub record AgreeingPc (height limit : ℕ) (h : Str) (ms : List IbftMessage) : Type 0 where
  pub round : ℕ
  pub below : round < limit
  pub in_pc : All (InPc height round) ms
  pub same_hash : All (λ m. bytes_equal (some h) (pc_hash m) ≡ true) ms
  pub distinct : Distinct (map (λ m. sender m) ms)

start-Agreeing :
    (m : IbftMessage) (ms : List IbftMessage) (height limit round : ℕ) (h : Str)
    → pc_hash m ≡ some h
    → pc_messages_from height limit round none [] (m ∷ ms) ≡ ok true
    → AgreeingPc height limit h (m ∷ ms)
start-Agreeing m ms height limit round h e c =
    let (hash', p, rest) = from-Chain height limit round none [] (m ∷ ms) c in
    let r : hash' ≡ some h = p.reference ∙ e in
    let u = Chain-Uniform height limit round h (sender m ∷ []) ms (rw r at rest) in
    record {
      round = round;
      below = p.below;
      in_pc = (p.in_pc, u.in_pc);
      same_hash = (rw r at p.agrees, u.same_hash);
      distinct = Fresh-Distinct [] (m ∷ ms) (p.is_fresh, u.is_fresh);
    }

Agreeing-start :
    (m : IbftMessage) (ms : List IbftMessage) (height limit : ℕ) (h : Str)
    → pc_hash m ≡ some h
    → (a : AgreeingPc height limit h (m ∷ ms))
    → pc_messages_from height limit a.round none [] (m ∷ ms) ≡ ok true
Agreeing-start m ms height limit h e a =
    let fresh = Distinct-Fresh [] (m ∷ ms) a.distinct (λ x c. cc) in
    Chain-from height limit a.round none [] (m ∷ ms) (
      some h,
      record {
        in_pc = a.in_pc.0;
        below = a.below;
        is_fresh = refl;
        reference = sym e;
        agrees = a.same_hash.0;
      },
      Uniform-Chain height limit a.round h (sender m ∷ []) ms a.below
          (record { in_pc = a.in_pc.1; same_hash = a.same_hash.1; is_fresh = fresh.1 }),
    )

-- Where the first message carries a hash: the messages are valid exactly if all are of the height
-- and of one round below the limit (the limit itself is refused, which the comment in the code would
-- allow), of the two types, with that hash, and from distinct senders.
pub are_valid_pc_messages_iff :
    (m : IbftMessage) (ms : List IbftMessage) (height limit : ℕ) (h : Str)
    → pc_hash m ≡ some h
    → (are_valid_pc_messages (m ∷ ms) height limit ≡ ok true) ↔ AgreeingPc height limit h (m ∷ ms)
unfolding are_valid_pc_messages
are_valid_pc_messages_iff m ms height limit h e = (
  λ c. elim (Option-cases (view_of m)) [
    | inl n ↦ absurd (ground arith)
    | inr (v, s) ↦ start-Agreeing m ms height limit v.round h e (ground arith)
  ],
  λ a.
      rw (a.in_pc.0.has_view, deref_view, a.in_pc.0.same_round)
        (Agreeing-start m ms height limit h e a),
)

-- A proposal message with a nil hash agrees with any prepare message, whatever its hash: the check
-- on the hashes starts at the first message that has one.
nil_hash_passes :
    (m m' : IbftMessage) (height limit round : ℕ)
    → round < limit
    → InPc height round m
    → InPc height round m'
    → pc_hash m ≡ none
    → ¬ (sender m ≡ sender m')
    → are_valid_pc_messages (m ∷ m' ∷ []) height limit ≡ ok true
unfolding are_valid_pc_messages
nil_hash_passes m m' height limit round b i i' e n =
    rw (i.has_view, deref_view, i.same_round)
      (Chain-from height limit round none [] (m ∷ m' ∷ []) (
        none,
        record { in_pc = i; below = b; is_fresh = refl; reference = sym e; agrees = rw e },
        (
          pc_hash m',
          record {
            in_pc = i';
            below = b;
            is_fresh = ground (arith, beq_cases (sender m) (sender m'));
            reference = refl;
            agrees = str_beq_refl (to_string (pc_hash m'));
          },
          tt,
        ),
      ))
