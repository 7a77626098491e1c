-- ===== src/Certificate/Kept.antt =====
-- The prepare messages that `handlePrepare` keeps for its certificate.
use go_ibft.Prelude.{
  ◌≡◌, refl, ap, ◌∙◌, Bool, true, false, some, List, [], ◌∷◌, Str, contains, Distinct, str_eq,
  beq_cases, arith, All, All-map, inl, inr, Bool-cases, if◌then◌else◌,
}
use go_ibft.Proto.{
  Bytes, View, preprepare, prepare, same_type, IbftMessage, sender, from_of, type_of, view_of,
  bytes_equal, to_string,
}
use go_ibft.Extract.{
  extract_proposal, extract_proposal_hash, extract_prepare_hash, extract_pc_message_hash,
}
use go_ibft.Extract.Pc.{InPc, pc_hash}
use go_ibft.State.{get_proposal}
use go_ibft.Messages.{ProtoMessages, get_proto_messages}
use go_ibft.Messages.Valid.{keep_entries, values, names}
use go_ibft.Messages.WellFormed.{IsWellFormed, IsFiled}
use go_ibft.Validators.Prepare.{senders}
use go_ibft.Backend.{Backend}
use go_ibft.Node.{Node, is_valid_prepare}
use go_ibft.Node.Preparing.{valid_prepares}

-- The proposal message that a node has accepted for a view, and its hash.
pub record Accepted (b : Backend) (v : View) (n : Node) (m : IbftMessage) (h : Str) : Type 0 where
  pub accepted : n.state.proposal_message ≡ some m
  pub is_preprepare : same_type (type_of m) preprepare ≡ true
  pub of_view : view_of m ≡ some v
  pub has_hash : extract_proposal_hash m ≡ some h
  pub valid_hash : b.is_valid_proposal_hash (extract_proposal m) (some h) ≡ true
  pub from_proposer : b.is_proposer (from_of m) v.height v.round ≡ true
  pub valid_proposer : b.is_valid_validator m ≡ true

module _ (p : IbftMessage → Bool) where
  pub kept-All :
      (F : Str × IbftMessage → Type 0) (P : IbftMessage → Type 0) (pm : ProtoMessages)
      → ((e : Str × IbftMessage) → F e → p e.1 ≡ true → P e.1)
      → All F pm
      → All P (values (keep_entries p pm))
  kept-All F P [] f a = tt
  kept-All F P ((k, m) ∷ pm) f a = go (p m) refl (kept-All F P pm f a.1)
    where
      go :
          (t : Bool)
          → p m ≡ t
          → All P (values (keep_entries p pm))
          → All P (values (if t then (k, m) ∷ keep_entries p pm else keep_entries p pm))
      go true e ih = (f (k, m) a.0 e, ih)
      go false e ih = ih

  kept-contains :
      (k : Str) (pm : ProtoMessages)
      → All (λ e. sender e.1 ≡ e.0) pm
      → contains (names pm) k ≡ false
      → contains (senders (values (keep_entries p pm))) k ≡ false
  kept-contains k [] a h = refl
  kept-contains k ((j, m) ∷ pm) a h = ground (arith, kept-contains k pm a.1)

  kept-Distinct :
      (pm : ProtoMessages)
      → All (λ e. sender e.1 ≡ e.0) pm
      → Distinct (names pm)
      → Distinct (senders (values (keep_entries p pm)))
  kept-Distinct [] a d = tt
  kept-Distinct ((k, m) ∷ pm) a d = ground (arith, kept-Distinct pm a.1, kept-contains k pm a.1)

-- A sender other than the one proposer is not the proposer.
pub others-no_proposer :
    (b : Backend) (v : View) (m : IbftMessage) (ps : List IbftMessage)
    → ((a : Bytes) → b.is_proposer a v.height v.round ≡ true → to_string a ≡ sender m)
    → contains (senders ps) (sender m) ≡ false
    → All (λ x. b.is_proposer (from_of x) v.height v.round ≡ false) ps
others-no_proposer b v m [] one c = tt
others-no_proposer b v m (x ∷ ps) one c = (
  elim (Bool-cases (b.is_proposer (from_of x) v.height v.round)) [
    | inl t ↦ absurd (ground (arith, one (from_of x) t, beq_cases (sender x) (sender m)))
    | inr f ↦ f
  ],
  others-no_proposer b v m ps one (ground arith),
)

prepare_hash :
    (x : IbftMessage)
    → same_type (type_of x) prepare ≡ true
    → (pc_hash x ≡ extract_prepare_hash x) × ((extract_pc_message_hash x).1 ≡ true)
unfolding extract_pc_message_hash
prepare_hash x e = ground arith

pub preprepare_hash :
    (x : IbftMessage)
    → same_type (type_of x) preprepare ≡ true
    → (pc_hash x ≡ extract_proposal_hash x) × ((extract_pc_message_hash x).1 ≡ true)
unfolding extract_pc_message_hash
preprepare_hash x e = ground arith

-- The prepare messages that the certificate takes from a well-formed store.
pub record Kept (b : Backend) (v : View) (n : Node) (m : IbftMessage) (h : Str) (x : IbftMessage)
    : Type 0 where
  pub in_pc : InPc v.height v.round x
  pub is_prepare : same_type (type_of x) prepare ≡ true
  pub same_hash : bytes_equal (some h) (pc_hash x) ≡ true
  pub is_valid : b.is_valid_validator x ≡ true
  pub valid_hash : b.is_valid_proposal_hash (extract_proposal m) (extract_prepare_hash x) ≡ true

Kept-entry :
    (b : Backend) (v : View) (n : Node) (m : IbftMessage) (h : Str)
    → Accepted b v n m h
    → ((x : Bytes)
        → b.is_valid_proposal_hash (extract_proposal m) x ≡ true
        → bytes_equal (some h) x ≡ true)
    → (e : Str × IbftMessage)
    → IsFiled prepare v.height v.round e × (b.is_valid_validator e.1 ≡ true)
    → is_valid_prepare b n.state e.1 ≡ true
    → Kept b v n m h e.1
unfolding get_proposal
Kept-entry b v n m h a one e (f, good) t =
    let (hash, pc) = prepare_hash e.1 f.of_type in
    let checked : b.is_valid_proposal_hash (extract_proposal m) (extract_prepare_hash e.1) ≡ true =
      ground (arith, a.accepted) in
    record {
      in_pc = record {
        view = v;
        has_view = f.of_view;
        same_height = refl;
        same_round = refl;
        is_pc_type = pc;
      };
      is_prepare = f.of_type;
      same_hash = ap (λ x. bytes_equal (some h) x) hash ∙ one (extract_prepare_hash e.1) checked;
      is_valid = good;
      valid_hash = checked;
    }

-- The hypotheses on the store give what the certificate needs of its prepare messages.
pub prepares-Kept :
    (b : Backend) (v : View) (n : Node) (m : IbftMessage) (h : Str)
    → Accepted b v n m h
    → IsWellFormed n.messages
    → All (λ e. b.is_valid_validator e.1 ≡ true) (get_proto_messages v prepare n.messages)
    → ((x : Bytes)
        → b.is_valid_proposal_hash (extract_proposal m) x ≡ true
        → bytes_equal (some h) x ≡ true)
    → All (Kept b v n m h) (valid_prepares b v n) × Distinct (senders (valid_prepares b v n))
unfolding get_proto_messages
prepares-Kept b v n m h a w good one =
    let pm : ProtoMessages = get_proto_messages v prepare n.messages in
    let (distinct, filed) = w prepare v.height v.round in
    (
      kept-All (is_valid_prepare b n.state)
          (λ e. IsFiled prepare v.height v.round e × (b.is_valid_validator e.1 ≡ true))
          (Kept b v n m h) pm (Kept-entry b v n m h a one) (All-both pm filed good),
      kept-Distinct (is_valid_prepare b n.state) pm (All-map (λ e f. f.key) pm filed) distinct,
    )
  where
    All-both :
        (pm : ProtoMessages)
        → All (IsFiled prepare v.height v.round) pm
        → All (λ e. b.is_valid_validator e.1 ≡ true) pm
        → All (λ e. IsFiled prepare v.height v.round e × (b.is_valid_validator e.1 ≡ true)) pm
    All-both [] f g = tt
    All-both (e ∷ pm) f g = ((f.0, g.0), All-both pm f.1 g.1)
