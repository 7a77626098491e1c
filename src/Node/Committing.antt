-- ===== src/Node/Committing.antt =====
-- `handleCommit` and `insertBlock`: the seals that a block is inserted with.
use go_ibft.Prelude.{
  ℕ, ◌≡◌, refl, Bool, true, false, Option, List, [], ◌∷◌, map, Str, if◌then◌else◌, arith, ◌⊎◌, inl,
  inr, ok, Distinct, str_eq, All,
}
use go_ibft.Proto.{Bytes, View, MessageType, commit, IbftMessage}
use go_ibft.Extract.{CommittedSeal, extract_committed_seal, extract_commit_hash}
use go_ibft.Extract.Seals.{all_of_type_commit, extract_committed_seals-map}
use go_ibft.State.{
  State, fin, get_proposal, change_state, set_committed_seals, get_raw_data_from_proposal,
}
use go_ibft.Messages.{Messages, ProtoMessages, get_proto_messages}
use go_ibft.Messages.Stored.{stored}
use go_ibft.Messages.Valid.{keep_entries, values, names, after_test, get_valid_messages-after_test}
use go_ibft.Validators.{has_quorum, convert_message_to_address_set}
use go_ibft.Backend.{Backend}
use go_ibft.Node.{
  Node, Inserted, handle_commit, is_valid_commit, has_quorum_by_msg_type, insert_block,
}

-- The commit messages of the view with a hash of the accepted proposal and a valid seal.
abbrev pub valid_commits : Backend → View → Node → List IbftMessage
valid_commits b v n =
    values (keep_entries (is_valid_commit b n.state) (get_proto_messages v commit n.messages))

abbrev pub committed : Backend → View → Node → Bool
committed b v n =
    has_quorum n.validator_manager (convert_message_to_address_set (valid_commits b v n))

abbrev pub committed_state : Backend → View → Node → State
committed_state b v n = record n.state {
  seals = map extract_committed_seal (valid_commits b v n);
  name = fin;
}

-- A seal that the backend accepts for some hash that it accepts for the proposal.
abbrev pub IsSealOf : Backend → State → Option CommittedSeal → Type 0
IsSealOf b s seal =
    (hash : Bytes) × (b.is_valid_proposal_hash (get_proposal s) hash ≡ true)
    × (b.is_valid_committed_seal hash seal ≡ true)

-- The two ways in which the handler can end, the store being pruned in both.
abbrev pub Outcome : Backend → View → Node → Messages → Type 0
Outcome b v n store =
    ((committed b v n ≡ false) ⊎ (all_of_type_commit (valid_commits b v n) ≡ false))
      × (handle_commit b v n ≡ ok (record n { messages = store }, false))
    ⊎ (committed b v n ≡ true)
      × (all_of_type_commit (valid_commits b v n) ≡ true)
      × (handle_commit b v n
          ≡ ok (record n { messages = store; state = committed_state b v n }, true))

valid-seals :
    (b : Backend) (s : State) (pm : ProtoMessages)
    → All
        (IsSealOf b s)
        (map extract_committed_seal (values (keep_entries (is_valid_commit b s) pm)))
valid-seals b s [] = tt
valid-seals b s ((k, m) ∷ pm) = go (is_valid_commit b s m) refl (valid-seals b s pm)
  where
    go :
        (t : Bool)
        → is_valid_commit b s m ≡ t
        → All
            (IsSealOf b s)
            (map extract_committed_seal (values (keep_entries (is_valid_commit b s) pm)))
        → All (IsSealOf b s) (
            map extract_committed_seal (
              values (
                if t
                then (k, m) ∷ keep_entries (is_valid_commit b s) pm
                else keep_entries (is_valid_commit b s) pm)))
    go true e rest = ((extract_commit_hash m, ground arith, ground arith), rest)
    go false e rest = rest

-- `handleCommit` never panics where no key stands twice among the stored commit messages of the
-- view. It moves to the fin state exactly if the valid commit messages have a quorum and are all
-- of the commit type; the seals kept are then those of these messages, one for each, and each is
-- valid for a hash of the accepted proposal. Otherwise only the store is pruned.
pub handle_commit_cases :
    (b : Backend) (v : View) (n : Node)
    → Distinct (names (get_proto_messages v commit n.messages))
    → (store : Messages) × ((t : MessageType) (h r : ℕ) (k : Str)
        → stored store t h r k ≡ after_test v commit (is_valid_commit b n.state) n.messages t h r k)
      × Outcome b v n store
      × All (IsSealOf b n.state) (committed_state b v n).seals
unfolding handle_commit has_quorum_by_msg_type change_state set_committed_seals
handle_commit_cases b v n d =
    let (store, run, after) =
      (get_valid_messages-after_test v commit (λ m. ok (is_valid_commit b n.state m))
        (is_valid_commit b n.state) n.messages (λ m. refl) d refl) in
    (
      store,
      after,
      ground (arith, run, extract_committed_seals-map (valid_commits b v n)),
      valid-seals b n.state (get_proto_messages v commit n.messages),
    )

-- The block that goes to the backend after a successful `handleCommit`, where no key stands twice
-- among the stored commit messages of the view: the raw data of the accepted proposal and the
-- node's round, with valid seals for it from a quorum of the validators.
pub insert_block-sealed :
    (b : Backend) (v : View) (n n' : Node)
    → Distinct (names (get_proto_messages v commit n.messages))
    → handle_commit b v n ≡ ok (n', true)
    → (block : Inserted) × ((insert_block n').inserted ≡ block ∷ n.inserted)
      × (block.proposal.raw_proposal ≡ get_raw_data_from_proposal n.state)
      × (block.proposal.round ≡ n.state.view.round)
      × (block.seals ≡ map extract_committed_seal (valid_commits b v n))
      × (committed b v n ≡ true)
      × All (IsSealOf b n.state) block.seals
unfolding insert_block get_raw_data_from_proposal get_proposal
insert_block-sealed b v n n' d h =
    let (store, _, out, sealed) = handle_commit_cases b v n d in
    elim out [
      | inl (_, e) ↦ absurd (cc)
      | inr (c, _, e) ↦ (
        record {
          proposal = record {
            raw_proposal = get_raw_data_from_proposal n.state;
            round = n.state.view.round;
          };
          seals = (committed_state b v n).seals;
        },
        ground arith,
        refl,
        refl,
        refl,
        c,
        sealed,
      )
    ]
