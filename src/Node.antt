-- ===== src/Node.antt =====
-- A node (`IBFT` of core/ibft.go): its state, its store, its validators, and what it has sent out and
-- inserted. The checks of incoming messages and the handlers of a round.
pub mod Accepting
pub mod Preparing
pub mod Committing
pub mod Listening
pub mod Waking
pub mod Leaving
use go_ibft.Prelude.{
  ℕ, Bool, true, false, Option, none, some, List, [], ◌∷◌, ◌++◌, map, Result, ok, panic, ◌>>=◌, not,
  if◌then◌else◌, ltb, leb, ◌==◌, nat_eq, length,
}
use go_ibft.Proto.{
  Bytes, View, Proposal, MessageType, preprepare, prepare, commit, round_change, unknown,
  IbftMessage, RoundChangeRef, nil_rcc, rcc_ref, round_change_certificate, PreparedRef, nil_pc,
  pc_ref, PreparedCertificate, prepared_certificate, message_ref, nil_message, MessageRef, slice,
  items_of, view_of, type_of,
}
use go_ibft.Extract.{
  CommittedSeal, extract_commit_hash, extract_committed_seal, extract_committed_seals,
  extract_prepare_hash, extract_latest_pc, extract_last_prepared_proposal, deref_view,
}
use go_ibft.State.{
  get_latest_pc, get_latest_prepared_proposal, get_proposal_message, get_round, get_height,
  get_committed_seals, State, StateType, fin, new_round, get_view, get_proposal, get_proposal_hash,
  get_raw_data_from_proposal, set_proposal_message, change_state, set_round_started, set_view,
  set_committed_seals, finalize_prepare, initial,
}
use go_ibft.State
use go_ibft.Validators.{
  ValidatorManager, new_validator_manager, has_quorum, has_prepare_quorum,
  convert_message_to_address_set,
}
use go_ibft.Messages.{Messages, new_messages, get_valid_messages, get_extended_rcc, prune_by_height}
use go_ibft.Messages
use go_ibft.Events.{signal_event}
use go_ibft.Backend.{Backend}
use go_ibft.Certificate.{valid_pc, proposal_matches_certificate}

-- What `InsertProposal` of the backend was given.
pub record Inserted : Type 0 where
  pub proposal : Proposal
  pub seals : List (Option CommittedSeal)

-- `sent` holds what was multicast, the newest first.
pub record Node : Type 0 where
  pub state : State
  pub messages : Messages
  pub validator_manager : ValidatorManager
  pub sent : List IbftMessage
  pub inserted : List Inserted

unfoldable pub new_ibft : Node
new_ibft = record {
  state = initial;
  messages = new_messages;
  validator_manager = new_validator_manager;
  sent = [];
  inserted = [];
}

unfoldable pub has_quorum_by_msg_type : Node → List IbftMessage → MessageType → Bool
has_quorum_by_msg_type n msgs preprepare = leb 1 (length msgs)
has_quorum_by_msg_type n msgs prepare =
    has_prepare_quorum n.validator_manager (get_proposal_message n.state) msgs
has_quorum_by_msg_type n msgs round_change =
    has_quorum n.validator_manager (convert_message_to_address_set msgs)
has_quorum_by_msg_type n msgs commit =
    has_quorum n.validator_manager (convert_message_to_address_set msgs)
has_quorum_by_msg_type n msgs (unknown t) = false

abbrev pub multicast : IbftMessage → Node → Node
multicast m n = record n { sent = m ∷ n.sent }

unfoldable pub is_acceptable_message : Backend → Node → IbftMessage → Bool
is_acceptable_message b n m = if not (b.is_valid_validator m) then false else elim (view_of m) [
  | none ↦ false
  | some v ↦
      if ltb v.height (get_height n.state)
      then false
      else if get_height n.state == v.height
      then leb (get_round n.state) v.round
      else true
]

-- `SignalEvent` of the store.
abbrev pub signal : MessageType → View → Node → Node
signal t v n = record n {
  messages = record messages { event_manager = signal_event t v messages.event_manager };
}
  where
    open n use {messages}

-- The part of `AddMessage` after the message is stored.
unfoldable pub notify_if_quorum : View → MessageType → Node → Result Node
notify_if_quorum v t n = do
  (store, msgs) ← get_valid_messages v t (λ _. ok true) n.messages
  let n' = record n { messages = store }
  ok (if has_quorum_by_msg_type n' msgs t then signal t v n' else n')

-- `AddMessage`; a nil message is `none`.
unfoldable pub add_message : Backend → Option IbftMessage → Node → Result Node
add_message b none n = ok n
add_message b (some m) n = if not (is_acceptable_message b n m) then ok n else do
  store ← Messages.add_message m n.messages
  let n' = record n { messages = store }
  deref_view (view_of m)
      λ v. if v.height == get_height n'.state then notify_if_quorum v (type_of m) n' else ok n'

unfoldable pub send_prepare_message : Backend → View → Node → Result Node
send_prepare_message b v n = do
  hash ← get_proposal_hash n.state
  ok (multicast (b.build_prepare_message hash v) n)

unfoldable pub send_commit_message : Backend → View → Node → Result Node
send_commit_message b v n = do
  hash ← get_proposal_hash n.state
  ok (multicast (b.build_commit_message hash v) n)

-- A pointer to a certificate or message that may be nil.
abbrev pub pc_pointer : Option PreparedCertificate → PreparedRef
pc_pointer none = nil_pc
pc_pointer (some c) = pc_ref c

abbrev pub message_pointer : Option IbftMessage → MessageRef
message_pointer none = nil_message
message_pointer (some m) = message_ref m

unfoldable pub send_round_change_message : Backend → ℕ → ℕ → Node → Node
send_round_change_message b height new_round' n =
    multicast
      (b.build_round_change_message (get_latest_prepared_proposal n.state)
        (pc_pointer (get_latest_pc n.state)) (record { height = height; round = new_round' }))
      n

-- The check of `handlePrepare`.
abbrev pub is_valid_prepare : Backend → State → IbftMessage → Bool
is_valid_prepare b s m = b.is_valid_proposal_hash (get_proposal s) (extract_prepare_hash m)

unfoldable pub handle_prepare : Backend → View → Node → Result (Node × Bool)
handle_prepare b v n = do
  (store, prepares) ←
      get_valid_messages v prepare (λ m. ok (is_valid_prepare b n.state m)) n.messages
  let n' = record n { messages = store }
  if not (has_quorum_by_msg_type n' prepares prepare) then ok (n', false) else do
    sent ← send_commit_message b v n'
    ok (
      record sent {
        state =
            finalize_prepare
              (some (
                prepared_certificate (message_pointer (get_proposal_message sent.state))
                  (slice (items_of prepares))))
              (get_proposal sent.state) sent.state;
      },
      true,
    )

-- The check of `handleCommit`.
abbrev pub is_valid_commit : Backend → State → IbftMessage → Bool
is_valid_commit b s m =
    if not (b.is_valid_proposal_hash (get_proposal s) (extract_commit_hash m))
    then false
    else b.is_valid_committed_seal (extract_commit_hash m) (extract_committed_seal m)

unfoldable pub handle_commit : Backend → View → Node → Result (Node × Bool)
handle_commit b v n = do
  (store, commits) ← get_valid_messages v commit (λ m. ok (is_valid_commit b n.state m)) n.messages
  let n' = record n { messages = store }
  if not (has_quorum_by_msg_type n' commits commit)
      then ok (n', false)
      else ok (elim (extract_committed_seals commits) [
        | none ↦ (n', false)
        | some seals ↦
            (record n' { state = change_state fin (set_committed_seals seals n'.state) }, true)
      ])

unfoldable pub insert_block : Node → Node
insert_block n = record n {
  inserted =
      record {
        proposal = record {
          raw_proposal = get_raw_data_from_proposal n.state;
          round = get_round n.state;
        };
        seals = get_committed_seals n.state;
      }
      ∷ n.inserted;
  messages = prune_by_height (get_height n.state) n.messages;
}

unfoldable pub move_to_new_round : ℕ → Node → Node
move_to_new_round round n = record n {
  state = change_state new_round (
      set_proposal_message none (
        set_round_started false
          (set_view (record { height = get_height n.state; round = round }) n.state)));
}

unfoldable pub accept_proposal : Option IbftMessage → Node → Node
accept_proposal m n = record n {
  state = change_state State.StateType.prepare (set_proposal_message m n.state);
}
