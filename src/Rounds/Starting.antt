-- ===== src/Rounds/Starting.antt =====
-- The invariant through the start of a round and the new round state.
use mathlib.Core.Path.{subst}
use go_ibft.Prelude.{
  ◌≡◌, Bool, true, false, Option, none, some, List, [], ◌∷◌, Str, arith, inl, inr, Result, ok,
  ◌>>=◌, >>=-eq-ok, All, Bool-cases,
}
use go_ibft.Proto.{View, MessageType, IbftMessage}
use go_ibft.State.{prepare, set_proposal_message, change_state, start_round, get_proposal_hash}
use go_ibft.Validators.{ValidatorManager}
use go_ibft.Messages.{
  Messages, ProtoMessages, sort_messages, get_valid_messages, get_proto_messages,
}
use go_ibft.Backend.{Backend}
use go_ibft.Node.{Node, accept_proposal, send_prepare_message}
use go_ibft.Proposals.{handle_pre_prepare}
use go_ibft.Rounds.{open_round, propose, take_proposal}
use go_ibft.Rounds.Invariant.{Inv, Keeps, Keeps-Inv, fresh-Inv, proposed-Inv}

sort_messages-All :
    (p : IbftMessage → Bool) (pm : ProtoMessages) (l : List IbftMessage) (ks : List Str)
    → sort_messages (λ m. ok (p m)) pm ≡ ok (l, ks)
    → All (λ m. p m ≡ true) l
unfolding sort_messages
sort_messages-All p [] l ks h = let e : [] ≡ l = ground arith in subst (All (λ m. p m ≡ true)) e tt
sort_messages-All p ((k, m) ∷ pm) l ks h =
    let ((l', ks'), got, e) = >>=-eq-ok (sort_messages (λ m. ok (p m)) pm) _ h in
    let ih = sort_messages-All p pm l' ks' got in
    elim (Bool-cases (p m)) [
      | inl t ↦ let e : m ∷ l' ≡ l = ground arith in subst (All (λ m. p m ≡ true)) e (t, ih)
      | inr f ↦ let e : l' ≡ l = ground arith in subst (All (λ m. p m ≡ true)) e ih
    ]

-- The commit messages that `GetValidMessages` returns passed the check.
pub commits-All :
    (p : IbftMessage → Bool) (v : View) (ms ms' : Messages) (l : List IbftMessage)
    → get_valid_messages v MessageType.commit (λ m. ok (p m)) ms ≡ ok (ms', l)
    → All (λ m. p m ≡ true) l
unfolding get_valid_messages
commits-All p v ms ms' l h =
    let ((l', ks), got, rest) =
      >>=-eq-ok (sort_messages (λ m. ok (p m)) (get_proto_messages v MessageType.commit ms)) _ h in
    let e : l' ≡ l = ground arith in
    subst (All (λ m. p m ≡ true)) e
      (sort_messages-All p (get_proto_messages v MessageType.commit ms) l' ks got)

pub open_round-Inv :
    {b : Backend} {vm : ValidatorManager} (n : Node) → Inv b vm n → Inv b vm (open_round n)
unfolding open_round start_round
open_round-Inv n i = elim (Bool-cases n.state.round_started) [
  | inl t ↦ Keeps-Inv n (open_round n) (ground arith) i
  | inr f ↦ fresh-Inv n (open_round n) (ground arith) (ground arith) (ground arith) i
]

pub propose-Inv :
    {b : Backend} {vm : ValidatorManager} (m : IbftMessage) (n : Node)
    → Inv b vm n
    → Inv b vm (propose m n)
unfolding propose accept_proposal set_proposal_message change_state
propose-Inv m n i =
    proposed-Inv n (propose m n) m (ground arith) (ground arith) (ground arith) (ground arith) i

pub handle_pre_prepare-Keeps :
    (b : Backend) (v : View) (n n' : Node) (o : Option IbftMessage)
    → handle_pre_prepare b v n ≡ ok (n', o)
    → Keeps n n'
unfolding handle_pre_prepare
handle_pre_prepare-Keeps b v n n' o h = ground arith

pub take_proposal-Inv :
    {b : Backend} {vm : ValidatorManager} (v : View) (n n' : Node) (done : Bool)
    → take_proposal b v n ≡ ok (n', done)
    → Inv b vm n
    → Inv b vm n'
unfolding take_proposal send_prepare_message get_proposal_hash set_proposal_message change_state
take_proposal-Inv {b = b} {vm = vm} v n n' done h i =
    let ((n₁, o), got, rest) = >>=-eq-ok (handle_pre_prepare b v n) _ h in
    go n₁ o rest (Keeps-Inv n n₁ (handle_pre_prepare-Keeps b v n n₁ o got) i)
  where
    next : Node → Option IbftMessage → Result (Node × Bool)
    next n₁ none = ok (n₁, false)
    next n₁ (some m) = do
      sent ← send_prepare_message b v (record n₁ { state = set_proposal_message (some m) n₁.state })
      ok (record sent { state = change_state prepare sent.state }, true)

    go :
        (n₁ : Node) (o : Option IbftMessage) → next n₁ o ≡ ok (n', done) → Inv b vm n₁ → Inv b vm n'
    go n₁ none k j = Keeps-Inv n₁ n' (ground arith) j
    go n₁ (some m) k j =
        proposed-Inv n₁ n' m (ground arith) (ground arith) (ground arith) (ground arith) j
