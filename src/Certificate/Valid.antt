-- ===== src/Certificate/Valid.antt =====
-- What `validPC` accepts.
use mathlib.Core.Path.{subst}
use go_ibft.Prelude.{
  str_beq_sound, beq_cases, ℕ, ◌<◌, ◌*◌, ◌≡◌, refl, sym, ◌∙◌, ◌↔◌, true, false, some, List, [], ◌∷◌,
  Str, contains, str_eq, arith, All, ok, ◌⊎◌, inl, inr, not, if◌then◌else◌,
}
use go_ibft.Proto.{
  preprepare, prepare, same_type, IbftMessage, sender, from_of, type_of, bytes_equal, to_string,
}
use go_ibft.Extract.{deref_view, are_valid_pc_messages}
use go_ibft.Extract.Pc.{InPc, AgreeingPc, pc_hash, are_valid_pc_messages_iff}
use go_ibft.Validators.{ValidatorManager, VotingPowers, has_quorum, convert_message_to_address_set}
use go_ibft.Validators.Prepare.{senders, convert-Distinct, contains-convert}
use go_ibft.Validators.Quorum.{IsRegular, IsReady, weight, total_weight, quorum_intersection}
use go_ibft.Backend.{Backend}
use go_ibft.Certificate.{all_prepare, valid_signers, valid_proposer, valid_pc_messages}

-- A prepared certificate for a height, below a round limit, and for a hash.
pub record ValidPc (b : Backend) (vm : ValidatorManager) (m : IbftMessage) (ps : List IbftMessage)
    (limit height : ℕ) (h : Str) : Type 0 where
  pub quorum : has_quorum vm (convert_message_to_address_set (m ∷ ps)) ≡ true
  pub is_preprepare : same_type (type_of m) preprepare ≡ true
  pub are_prepares : All (λ x. same_type (type_of x) prepare ≡ true) ps
  pub agreeing : AgreeingPc height limit h (m ∷ ps)
  pub from_proposer : b.is_proposer (from_of m) height agreeing.round ≡ true
  pub valid_proposer : b.is_valid_validator m ≡ true
  pub valid_signers : All (λ x. b.is_valid_validator x ≡ true) ps
  pub no_proposer : All (λ x. b.is_proposer (from_of x) height agreeing.round ≡ false) ps

abbrev pub In : IbftMessage → List IbftMessage → Type 0
In x [] = ⊥
In x (m ∷ ms) = (x ≡ m) ⊎ In x ms

pub All-In :
    (P : IbftMessage → Type 0) (x : IbftMessage) (ms : List IbftMessage) → All P ms → In x ms → P x
All-In P x (m ∷ ms) h (inl e) = subst P (sym e) h.0
All-In P x (m ∷ ms) h (inr i) = All-In P x ms h.1 i
All-In P x [] h i = absurd i

all_prepare-All :
    (ps : List IbftMessage)
    → all_prepare ps ≡ true
    → All (λ x. same_type (type_of x) prepare ≡ true) ps
unfolding all_prepare
all_prepare-All [] h = tt
all_prepare-All (m ∷ ms) h = (ground arith, all_prepare-All ms (ground arith))

All-all_prepare :
    (ps : List IbftMessage)
    → All (λ x. same_type (type_of x) prepare ≡ true) ps
    → all_prepare ps ≡ true
unfolding all_prepare
All-all_prepare [] h = refl
All-all_prepare (m ∷ ms) h = ground (arith, All-all_prepare ms h.1)

module _ (b : Backend) (height round : ℕ) where
  valid_signers-All :
      (ps : List IbftMessage)
      → All (InPc height round) ps
      → valid_signers b ps ≡ ok true
      → All (λ x. b.is_valid_validator x ≡ true) ps
        × All (λ x. b.is_proposer (from_of x) height round ≡ false) ps
  unfolding valid_signers
  valid_signers-All [] i h = (tt, tt)
  valid_signers-All (m ∷ ms) i h =
      let v = i.0.has_view in
      let (good, honest) = valid_signers-All ms i.1 (ground arith) in
      ((ground arith, good), (ground arith, honest))

  All-valid_signers :
      (ps : List IbftMessage)
      → All (InPc height round) ps
      → All (λ x. b.is_valid_validator x ≡ true) ps
      → All (λ x. b.is_proposer (from_of x) height round ≡ false) ps
      → valid_signers b ps ≡ ok true
  unfolding valid_signers
  All-valid_signers [] i v n = refl
  All-valid_signers (m ∷ ms) i v n = ground (arith, All-valid_signers ms i.1 v.1 n.1)

-- The five checks, with the loops behind them.
record Checks (b : Backend) (vm : ValidatorManager) (m : IbftMessage) (ps : List IbftMessage)
    (limit height : ℕ) : Type 0 where
  quorum : has_quorum vm (convert_message_to_address_set (m ∷ ps)) ≡ true
  is_preprepare : same_type (type_of m) preprepare ≡ true
  are_prepares : all_prepare ps ≡ true
  valid_messages : are_valid_pc_messages (m ∷ ps) height limit ≡ ok true
  proposer : valid_proposer b m ps ≡ ok true

valid_pc_messages-Checks :
    (b : Backend) (vm : ValidatorManager) (m : IbftMessage) (ps : List IbftMessage)
    (limit height : ℕ)
    → valid_pc_messages b vm m ps limit height ≡ ok true
    → Checks b vm m ps limit height
unfolding valid_pc_messages
valid_pc_messages-Checks b vm m ps limit height h = ground arith

Checks-valid_pc_messages :
    (b : Backend) (vm : ValidatorManager) (m : IbftMessage) (ps : List IbftMessage)
    (limit height : ℕ)
    → Checks b vm m ps limit height
    → valid_pc_messages b vm m ps limit height ≡ ok true
unfolding valid_pc_messages
Checks-valid_pc_messages b vm m ps limit height c = ground arith

-- What the checks on the senders ask, the view being known.
valid_proposer-split :
    (b : Backend) (m : IbftMessage) (ps : List IbftMessage) (height round : ℕ)
    → InPc height round m
    → valid_proposer b m ps ≡ (
        if not (b.is_proposer (from_of m) height round)
        then ok false
        else if not (b.is_valid_validator m)
        then ok false
        else valid_signers b ps)
unfolding valid_proposer
valid_proposer-split b m ps height round i =
    rw (i.has_view, deref_view, i.same_height, i.same_round)

-- `validPC` accepts a certificate whose proposal carries a hash exactly if the proposal and the
-- prepare messages have a quorum and the right types, are of the height and of one round below the
-- limit (the limit itself is refused, which the comment in the code would allow), carry that hash, and come from distinct valid validators, of whom the sender of the
-- proposal is the proposer of the round and no other is.
pub valid_pc_messages_iff :
    (b : Backend) (vm : ValidatorManager) (m : IbftMessage) (ps : List IbftMessage)
    (limit height : ℕ) (h : Str)
    → pc_hash m ≡ some h
    → (valid_pc_messages b vm m ps limit height ≡ ok true) ↔ ValidPc b vm m ps limit height h
valid_pc_messages_iff b vm m ps limit height h e = (
  λ t.
      let c = valid_pc_messages-Checks b vm m ps limit height t in
      let a = (are_valid_pc_messages_iff m ps height limit h e).0 c.valid_messages in
      let split = valid_proposer-split b m ps height a.round a.in_pc.0 in
      let signers =
        valid_signers-All b height a.round ps a.in_pc.1 (ground (arith, split, c.proposer)) in
      record {
        quorum = c.quorum;
        is_preprepare = c.is_preprepare;
        are_prepares = all_prepare-All ps c.are_prepares;
        agreeing = a;
        from_proposer = ground (arith, split, c.proposer);
        valid_proposer = ground (arith, split, c.proposer);
        valid_signers = signers.0;
        no_proposer = signers.1;
      },
  λ v.
      let a = v.agreeing in
      Checks-valid_pc_messages b vm m ps limit height (record {
        quorum = v.quorum;
        is_preprepare = v.is_preprepare;
        are_prepares = All-all_prepare ps v.are_prepares;
        valid_messages = (are_valid_pc_messages_iff m ps height limit h e).1 a;
        proposer =
            valid_proposer-split b m ps height a.round a.in_pc.0
            ∙ rw (v.from_proposer, v.valid_proposer)
                (All-valid_signers b height a.round ps a.in_pc.1 v.valid_signers v.no_proposer);
      }),
)

-- The message that a sender sent.
pub find_sender :
    (a : Str) (ms : List IbftMessage)
    → contains (senders ms) a ≡ true
    → (x : IbftMessage) × In x ms × (sender x ≡ a)
find_sender a [] h = cc
find_sender a (m ∷ ms) h = elim (beq_cases (sender m) a) [
  | inl (p, q) ↦ (m, inl refl, q)
  | inr (p, n) ↦ let (x, i, e) = find_sender a ms (ground arith) in (x, inr i, e)
]

hash_of :
    {b : Backend} {vm : ValidatorManager} {m : IbftMessage} {ps : List IbftMessage}
    {limit height : ℕ} {h : Str}
    → ValidPc b vm m ps limit height h
    → (x : IbftMessage) → In x (m ∷ ps)
    → h ≡ to_string (pc_hash x)
hash_of {m = m} {ps = ps} {h = h} v x i =
    str_beq_sound h (to_string (pc_hash x))
      (All-In (λ y. bytes_equal (some h) (pc_hash y) ≡ true) x (m ∷ ps) v.agreeing.same_hash i)

-- For a manager that is ready with a regular map of voting powers: two valid certificates for one
-- height and one round have the same hash, if the validators outside a set with less than a third
-- of the power sent one hash each in the messages of the two.
pub ValidPc-agree :
    {b : Backend} {vm : ValidatorManager} (powers : VotingPowers) (faulty : List Str)
    (m m' : IbftMessage) (ps ps' : List IbftMessage) {limit limit' height : ℕ} {h h' : Str}
    → IsRegular powers
    → IsReady vm powers
    → weight powers (contains faulty) * 3 < total_weight powers
    → (v : ValidPc b vm m ps limit height h) → (v' : ValidPc b vm m' ps' limit' height h')
    → v.agreeing.round ≡ v'.agreeing.round
    → ((x y : IbftMessage)
        → In x (m ∷ ps)
        → In y (m' ∷ ps')
        → sender x ≡ sender y
        → contains faulty (sender x) ≡ false
        → InPc height v.agreeing.round x
        → InPc height v.agreeing.round y
        → to_string (pc_hash x) ≡ to_string (pc_hash y))
    → h ≡ h'
ValidPc-agree powers faulty m m' ps ps' {height = height} r ready few v v' same honest =
    let s = convert_message_to_address_set (m ∷ ps) in
    let s' = convert_message_to_address_set (m' ∷ ps') in
    let (a, _, in_s, in_s', good) =
      quorum_intersection powers faulty s s' r ready (convert-Distinct (m ∷ ps))
        (convert-Distinct (m' ∷ ps')) v.quorum v'.quorum few in
    let (x, i, e) = find_sender a (m ∷ ps) (sym (contains-convert (m ∷ ps) a) ∙ in_s) in
    let (y, j, f) = find_sender a (m' ∷ ps') (sym (contains-convert (m' ∷ ps') a) ∙ in_s') in
    hash_of v x i
    ∙ (honest x y i j (e ∙ sym f) (rw e good)
          (All-In (InPc height v.agreeing.round) x (m ∷ ps) v.agreeing.in_pc i)
          (rw same (All-In (InPc height v'.agreeing.round) y (m' ∷ ps') v'.agreeing.in_pc j))
        ∙ sym (hash_of v' y j))
