-- ===== src/Rounds/Safety.antt =====
-- The invariant of a node in the histories of a sequence.
use mathlib.Core.Path.{subst}
use go_ibft.Prelude.{
  ℕ, ◌≡◌, refl, Bool, true, false, Option, none, some, List, arith, inl, inr, Result, ok, >>=-eq-ok,
  All, All-map, Bool-cases,
}
use go_ibft.Proto.{View, Proposal, MessageType, IbftMessage}
use go_ibft.Extract.{CommittedSeal, extract_committed_seals}
use go_ibft.Extract.Seals.{extract_committed_seals-map}
use go_ibft.State.{
  StateType, new_round, prepare, commit, fin, get_view, get_proposal, get_raw_data_from_proposal,
  set_proposal_message, change_state, set_round_started, set_view, finalize_prepare,
  set_committed_seals, get_proposal_hash,
}
use go_ibft.Validators.{ValidatorManager, has_quorum, convert_message_to_address_set}
use go_ibft.Messages.{Messages, get_valid_messages}
use go_ibft.Backend.{Backend}
use go_ibft.Node.{
  Node, notify_if_quorum, has_quorum_by_msg_type, is_valid_commit, handle_prepare, handle_commit,
  insert_block, move_to_new_round, accept_proposal, send_prepare_message, send_commit_message,
  send_round_change_message,
}
use go_ibft.Node.Listening.{subscribe, unsubscribe}
use go_ibft.Rounds.{
  handle_event, on_new_proposal, on_round_certificate, on_round_expired, next_round, WorkStep, Step,
  deliver, listen, unlisten, start, offer, run, watch, work, jump, hop, expire, finish,
}
use go_ibft.Rounds.Invariant.{raw_of, Inv, Keeps-Inv, add_message-Keeps, fresh-Inv, proposed-Inv}
use go_ibft.Rounds.Starting.{
  handle_pre_prepare-Keeps, commits-All, open_round-Inv, propose-Inv, take_proposal-Inv,
}

handle_prepare-Inv :
    {b : Backend} {vm : ValidatorManager} (v : View) (n n' : Node) (done : Bool)
    → n.state.name ≡ prepare
    → handle_prepare b v n ≡ ok (n', done)
    → Inv b vm n
    → Inv b vm n'
unfolding handle_prepare send_commit_message finalize_prepare
handle_prepare-Inv {b = b} {vm = vm} v n n' done e h i = go n.state.proposal_message refl
  where
    go : (o : Option IbftMessage) → n.state.proposal_message ≡ o → Inv b vm n'
    go none p = absurd (i.has_proposal (ground arith) p)
    go (some m) p =
        let ((store, l), got, rest) = >>=-eq-ok (get_valid_messages v _ _ n.messages) _ h in
        elim (Bool-cases
          (has_quorum_by_msg_type (record n { messages = store }) l MessageType.prepare)) [
            | inl q ↦
                proposed-Inv n n' m (ground arith) (ground arith) (ground arith) (ground arith) i
            | inr q ↦ Keeps-Inv n n' (ground arith) i
          ]

handle_commit-Inv :
    {b : Backend} {vm : ValidatorManager} (v : View) (n n' : Node) (done : Bool)
    → n.state.name ≡ commit
    → handle_commit b v n ≡ ok (n', done)
    → Inv b vm n
    → Inv b vm n'
unfolding handle_commit has_quorum_by_msg_type change_state set_committed_seals get_proposal
handle_commit-Inv {b = b} {vm = vm} v n n' done e h i =
    let p : IbftMessage → Bool = is_valid_commit b n.state in
    let ((store, l), got, rest) = >>=-eq-ok (get_valid_messages v _ _ n.messages) _ h in
    elim (Bool-cases
      (has_quorum_by_msg_type (record n { messages = store }) l MessageType.commit)) [
        | inl q ↦
            go store l q (commits-All p v n.messages store l got) (ground (arith, rest))
              (extract_committed_seals l) refl
        | inr q ↦ Keeps-Inv n n' (ground arith) i
      ]
  where
    next : Messages → List IbftMessage → Result (Node × Bool)
    next store l = ok (elim (extract_committed_seals l) [
      | none ↦ (record n { messages = store }, false)
      | some seals ↦ (
        record n { messages = store; state = change_state fin (set_committed_seals seals n.state) },
        true,
      )
    ])

    go :
        (store : Messages) (l : List IbftMessage)
        → has_quorum n.validator_manager (convert_message_to_address_set l) ≡ true
        → All (λ m. is_valid_commit b n.state m ≡ true) l
        → next store l ≡ ok (n', done)
        → (o : Option (List (Option CommittedSeal))) → extract_committed_seals l ≡ o
        → Inv b vm n'
    go store l q all k none f = Keeps-Inv n n' (ground arith) i
    go store l q all k (some seals) f = subst (Inv b vm) end' sealed'
      where
        after : Node
        after = record n {
          messages = store;
          state = change_state fin (set_committed_seals seals n.state);
        }

        end' : after ≡ n'
        end' = ground arith

        sealed' : Inv b vm after
        sealed' = record {
          same_validators = i.same_validators;
          has_proposal = λ _. i.has_proposal (ground arith);
          sealed = λ _. record {
            commits = l;
            quorum = rw i.same_validators at q;
            from_commits = ground (arith, extract_committed_seals-map l);
            valid_hashes = All-map (λ m t. ground arith) l all;
            valid_seals = All-map (λ m t. ground arith) l all;
          };
          blocks = i.blocks;
        }

on_new_proposal-Inv :
    {b : Backend} {vm : ValidatorManager} (v : View) (round : ℕ) (m : IbftMessage) (n n' : Node)
    → on_new_proposal b v round m n ≡ ok n'
    → Inv b vm n
    → Inv b vm n'
unfolding on_new_proposal send_prepare_message accept_proposal move_to_new_round set_round_started
    change_state set_proposal_message set_view get_proposal_hash
on_new_proposal-Inv v round m n n' h i =
    proposed-Inv n n' m (ground arith) (ground arith) (ground arith) (ground arith) i

move_to_new_round-Inv :
    {b : Backend} {vm : ValidatorManager} (round : ℕ) (n : Node)
    → Inv b vm n
    → Inv b vm (move_to_new_round round n)
unfolding move_to_new_round change_state
move_to_new_round-Inv round n i = fresh-Inv n (move_to_new_round round n) refl refl refl i

insert_block-Inv :
    {b : Backend} {vm : ValidatorManager} (n : Node)
    → n.state.name ≡ fin
    → Inv b vm n
    → Inv b vm (insert_block n)
unfolding insert_block get_raw_data_from_proposal
insert_block-Inv n e i = record {
  same_validators = i.same_validators;
  has_proposal = i.has_proposal;
  sealed = i.sealed;
  blocks = ((get_proposal n.state, raw (get_proposal n.state), i.sealed e), i.blocks);
}
  where
    raw : (o : Option Proposal) → (elim o [ none ↦ none | some p ↦ p.raw_proposal ]) ≡ raw_of o
    raw none = refl
    raw (some p) = refl

handle_event-Inv :
    {b : Backend} {vm : ValidatorManager} (t : StateType) (v : View) (n n' : Node) (done : Bool)
    → n.state.name ≡ t
    → handle_event b t v n ≡ ok (n', done)
    → Inv b vm n
    → Inv b vm n'
unfolding handle_event
handle_event-Inv new_round v n n' done e h i = take_proposal-Inv v n n' done h i
handle_event-Inv prepare v n n' done e h i = handle_prepare-Inv v n n' done e h i
handle_event-Inv commit v n n' done e h i = handle_commit-Inv v n n' done e h i
handle_event-Inv fin v n n' done e h i = Keeps-Inv n n' (ground arith) i

WorkStep-Inv :
    {b : Backend} {vm : ValidatorManager} (n n' : Node) → WorkStep b n n' → Inv b vm n → Inv b vm n'
unfolding subscribe unsubscribe notify_if_quorum
WorkStep-Inv {b = b} n n' (deliver m h) i = Keeps-Inv n n' (add_message-Keeps b m n n' h) i
WorkStep-Inv n n' (listen id d h) i = Keeps-Inv n n' (ground arith) i
WorkStep-Inv n n' (unlisten id h) i = Keeps-Inv n n' (ground arith) i
WorkStep-Inv n n' (start e) i = rw e (open_round-Inv n i)
WorkStep-Inv n n' (offer rcc m h e) i = rw e (propose-Inv m n i)
WorkStep-Inv n n' (run done h) i =
    handle_event-Inv n.state.name (get_view n.state) n n' done refl h i
WorkStep-Inv {b = b} n n' (watch v got h) i =
    Keeps-Inv n n' (handle_pre_prepare-Keeps b v n n' got h) i

Step-Inv :
    {b : Backend} {vm : ValidatorManager} (n n' : Node) → Step b n n' → Inv b vm n → Inv b vm n'
unfolding on_round_certificate on_round_expired send_round_change_message
Step-Inv n n' (work s) i = WorkStep-Inv n n' s i
Step-Inv {b = b} n n' (jump round m h) i = on_new_proposal-Inv (get_view n.state) round m n n' h i
Step-Inv n n' (hop round e) i = rw e (move_to_new_round-Inv round n i)
Step-Inv n n' (expire e) i =
    let r = next_round (get_view n.state).round in
    Keeps-Inv (move_to_new_round r n) n' (ground arith) (move_to_new_round-Inv r n i)
Step-Inv n n' (finish f e) i = rw e (insert_block-Inv n f i)

-- The histories of a node within a sequence.
pub data Reach (b : Backend) (n : Node) : Node → Type 0 where
  here : Reach b n n
  next : {n' n'' : Node} → Reach b n n' → Step b n' n'' → Reach b n n''

-- What every history of a node keeps, where it holds at the start: the validators do not change, a
-- node past the new round state has a proposal, its seals in the fin state come from a quorum of
-- valid commit messages for that proposal, and so do those of every block that it has inserted.
pub Reach-Inv :
    {b : Backend} {vm : ValidatorManager} {n n' : Node} → Reach b n n' → Inv b vm n → Inv b vm n'
Reach-Inv here i = i
Reach-Inv (next {n' = m} {n'' = m'} r s) i = Step-Inv m m' s (Reach-Inv r i)
