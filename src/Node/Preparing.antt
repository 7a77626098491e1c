-- ===== src/Node/Preparing.antt =====
-- `handlePrepare`: what a node does with the prepare messages of its view.
use go_ibft.Prelude.{
  ℕ, ◌≡◌, refl, Bool, true, false, Option, none, some, List, ◌∷◌, Str, arith, ◌⊎◌, inl, inr, ok,
  Distinct, str_eq,
}
use go_ibft.Proto.{
  View, MessageType, prepare, IbftMessage, prepared_certificate, message_ref, slice, items_of,
}
use go_ibft.Extract.{extract_proposal_hash}
use go_ibft.State.{State, get_proposal, get_proposal_hash, finalize_prepare, commit}
use go_ibft.Extract.{extract_proposal}
use go_ibft.Messages.{Messages, get_valid_messages, get_proto_messages}
use go_ibft.Messages.Stored.{stored}
use go_ibft.Messages.Valid.{keep_entries, values, names, after_test, get_valid_messages-after_test}
use go_ibft.Validators.{has_prepare_quorum}
use go_ibft.Backend.{Backend}
use go_ibft.Node.{
  Node, handle_prepare, is_valid_prepare, has_quorum_by_msg_type, send_commit_message,
}

-- The prepare messages of the view that carry a hash of the accepted proposal.
abbrev pub valid_prepares : Backend → View → Node → List IbftMessage
valid_prepares b v n =
    values (keep_entries (is_valid_prepare b n.state) (get_proto_messages v prepare n.messages))

-- Whether they and the proposal have a quorum, none of them being from the proposer.
abbrev pub prepared : Backend → View → Node → Bool
prepared b v n =
    has_prepare_quorum n.validator_manager n.state.proposal_message (valid_prepares b v n)

-- The state once the view is prepared with a proposal message.
abbrev pub prepared_state : Backend → View → Node → IbftMessage → State
prepared_state b v n m = record n.state {
  latest_pc = some (prepared_certificate (message_ref m) (slice (items_of (valid_prepares b v n))));
  latest_prepared_proposal = extract_proposal m;
  name = commit;
}

-- The two ways in which the handler can end, the store being pruned in both.
abbrev pub Outcome : Backend → View → Node → Messages → Type 0
Outcome b v n store =
    (prepared b v n ≡ false) × (handle_prepare b v n ≡ ok (record n { messages = store }, false))
    ⊎ ((m : IbftMessage) × (prepared b v n ≡ true)
        × (n.state.proposal_message ≡ some m)
        × (handle_prepare b v n
            ≡ ok (
              record n {
                messages = store;
                sent = b.build_commit_message (extract_proposal_hash m) v ∷ n.sent;
                state = prepared_state b v n m;
              },
              true,
            )))

-- `handlePrepare` never panics where no key stands twice among the stored prepare messages of the
-- view. Without the quorum it only prunes the prepare messages that do not match. With it, there
-- is an accepted proposal, the commit message for its hash goes out, and the node moves to the
-- commit state with the certificate of that proposal and those messages.
pub handle_prepare_cases :
    (b : Backend) (v : View) (n : Node)
    → Distinct (names (get_proto_messages v prepare n.messages))
    → (store : Messages) × ((t : MessageType) (h r : ℕ) (k : Str)
        → stored store t h r k
          ≡ after_test v prepare (is_valid_prepare b n.state) n.messages t h r k)
      × Outcome b v n store
unfolding handle_prepare has_quorum_by_msg_type send_commit_message get_proposal_hash get_proposal
    finalize_prepare has_prepare_quorum
handle_prepare_cases b v n d =
    let (store, run, after) =
      (get_valid_messages-after_test v prepare (λ m. ok (is_valid_prepare b n.state m))
        (is_valid_prepare b n.state) n.messages (λ m. refl) d refl) in
    (store, after, go (prepared b v n) refl n.state.proposal_message refl run)
  where
    go :
        {store : Messages} (q : Bool)
        → prepared b v n ≡ q
        → (o : Option IbftMessage) → n.state.proposal_message ≡ o
        → get_valid_messages v prepare (λ m. ok (is_valid_prepare b n.state m)) n.messages
          ≡ ok (store, valid_prepares b v n)
        → Outcome b v n store
    go false e o p run = inl (e, ground arith)
    go true e none p run = absurd (ground (arith, p))
    go true e (some m) p run = inr (m, e, p, ground arith)
