-- ===== src/Tests/Sealing.antt =====
-- A whole sequence: a proposal arrives, the node prepares, commits and inserts it.
use go_ibft.Prelude.{
  All, ℕ, ◌≡◌, refl, true, none, some, List, [], ◌∷◌, Str, Result, ok, panic, arith, str_beq_sound,
  str_eq, nat_eq,
}
use go_ibft.Proto.{
  Bytes, bytes_equal, View, Proposal, preprepare, prepare, commit, IbftMessage, message,
  preprepare_data, prepare_data, commit_data, nil_rcc, prepared_certificate, message_ref, slice,
  items_of,
}
use go_ibft.Extract.{extract_commit_hash, extract_committed_seal}
use go_ibft.Extract
use go_ibft.State
use go_ibft.State.{State, StateType, get_view}
use go_ibft.Validators
use go_ibft.Backend.{Backend}
use go_ibft.Messages
use go_ibft.Messages.{Messages}
use go_ibft.Proposals
use go_ibft.Node
use go_ibft.Node.{Node, Inserted, new_ibft, add_message, insert_block}
use go_ibft.Rounds
use go_ibft.Rounds.{handle_event, open_round, begin_sequence, deliver, start, run}
use go_ibft.Rounds.Working.{Works, here, next}
use go_ibft.MainLoop
use go_ibft.MainLoop.{Runs, begun as no_pass, again, pass, round_done}
use go_ibft.Prelude.{◌⊎◌}
use go_ibft.MainLoop.Passes.{run_sequence-inserts_once}
use go_ibft.MainLoop.Committed.{IsSound}
use go_ibft.MainLoop.Sealing.{run_sequence-IsSealedIn}
use go_ibft.Rounds.Fitting.{Builds, IsSealedIn}
use go_ibft.Messages.WellFormed.{new_messages-IsWellFormed}
use go_ibft.Messages.Only.{new_messages-Only}
use go_ibft.MainLoop.Agreeing.{run_sequences-agree}
use go_ibft.Tests.{address, powers, a_hash, backend}
use go_ibft.Tests.Quorums.{powers-IsRegular, few_faulty}
use go_ibft.Tests.Sequences.{begun, program}

-- Only the seals of one hash are valid.
abbrev pub strict : Backend
strict = record backend { is_valid_committed_seal = λ h s. bytes_equal h a_hash }

abbrev pub round_zero : View
round_zero = record { height = 5; round = 0 }

abbrev a_block : Proposal
a_block = record { raw_proposal = some (7 ∷ []); round = 0 }

abbrev pub proposes : IbftMessage
proposes =
    message (some round_zero) (some (address 1)) none preprepare
      (preprepare_data (some a_block) a_hash nil_rcc)

abbrev pub prepares : ℕ → IbftMessage
prepares k = message (some round_zero) (some (address k)) none prepare (prepare_data a_hash)

abbrev pub commits : ℕ → IbftMessage
commits k =
    message (some round_zero) (some (address k)) none commit (commit_data a_hash (some (address k)))

abbrev or_else : {A : Type 0} → A → Result A → A
or_else a panic = a
or_else a (ok x) = x

abbrev receive : IbftMessage → Node → Node
receive m n = or_else n (add_message strict (some m) n)

-- What the node holds once it has the proposal.
abbrev pub holding : List (Str × IbftMessage) → List (Str × IbftMessage) → Messages
holding ps cs = record begun.messages {
  preprepare_messages = (5, (0, (address 1, proposes) ∷ []) ∷ []) ∷ [];
  prepare_messages = entries ps;
  commit_messages = entries cs;
}
  where
    entries : List (Str × IbftMessage) → List (ℕ × List (ℕ × List (Str × IbftMessage)))
    entries [] = []
    entries (m ∷ ms) = (5, (0, m ∷ ms) ∷ []) ∷ []

abbrev accepting : State
accepting = record begun.state {
  proposal_message = some proposes;
  round_started = true;
  name = StateType.prepare;
}

abbrev proposed : Node
proposed = record begun {
  state = accepting;
  messages = holding [] [];
  sent = strict.build_prepare_message a_hash round_zero ∷ [];
}

abbrev pub two_prepares : List (Str × IbftMessage)
two_prepares = (address 2, prepares 2) ∷ (address 3, prepares 3) ∷ []

abbrev prepared : Node
prepared = record begun {
  state = record accepting {
    latest_pc = some (
        prepared_certificate (message_ref proposes)
          (slice (items_of (prepares 2 ∷ prepares 3 ∷ []))));
    latest_prepared_proposal = some a_block;
    name = StateType.commit;
  };
  messages = holding two_prepares [];
  sent =
      strict.build_commit_message a_hash round_zero
      ∷ strict.build_prepare_message a_hash round_zero
      ∷ [];
}

abbrev pub three_commits : List (Str × IbftMessage)
three_commits = (address 2, commits 2) ∷ (address 3, commits 3) ∷ (address 4, commits 4) ∷ []

abbrev committed : Node
committed = record prepared {
  state = record prepared.state {
    seals =
        extract_committed_seal (commits 2)
        ∷ extract_committed_seal (commits 3)
        ∷ extract_committed_seal (commits 4)
        ∷ [];
    name = StateType.fin;
  };
  messages = holding two_prepares three_commits;
}

unfoldable pub shapes : Unit {0}
unfolding open_round State.start_round add_message Node.is_acceptable_message Messages.add_message
    Messages.get_view_messages Node.notify_if_quorum Messages.get_valid_messages
    Messages.sort_messages Messages.get_proto_messages Node.has_quorum_by_msg_type handle_event
    Rounds.take_proposal Proposals.handle_pre_prepare Proposals.is_valid_preprepare
    Proposals.validate_proposal0 Proposals.validate_proposal_common Proposals.common_checks
    Extract.extract_proposal Extract.extract_proposal_hash Node.send_prepare_message
    State.get_proposal_hash State.set_proposal_message State.change_state get_view
    Node.handle_prepare Extract.extract_prepare_hash State.get_proposal
    Validators.has_prepare_quorum Validators.prepare_senders Validators.has_quorum
    Validators.power_from Node.send_commit_message State.finalize_prepare Node.handle_commit
    extract_commit_hash extract_committed_seal Extract.extract_committed_seals
    Validators.convert_message_to_address_set Validators.address_set_from State.set_committed_seals
    insert_block State.get_raw_data_from_proposal Messages.prune_by_height Messages.prune_map
    MainLoop.on_signal go_ibft.Events.signal_event go_ibft.Events.push_all
shapes = tt

to_proposed : Works strict begun proposed
unfolding shapes
to_proposed =
    next {n' = receive proposes (open_round begun)} {n'' = proposed}
      (next {n' = open_round begun} {n'' = receive proposes (open_round begun)}
        (next {n' = begun} {n'' = open_round begun} here (start refl))
        (deliver (some proposes) refl))
      (run true refl)

abbrev holds_prepares : List (Str × IbftMessage) → Node
holds_prepares l = record proposed { messages = holding l [] }

with_prepares : Works strict begun (holds_prepares two_prepares)
unfolding shapes
with_prepares =
    next {n' = holds_prepares ((address 2, prepares 2) ∷ [])} {n'' = holds_prepares two_prepares}
      (next {n' = proposed} {n'' = holds_prepares ((address 2, prepares 2) ∷ [])} to_proposed
        (deliver (some (prepares 2)) refl))
      (deliver (some (prepares 3)) refl)

to_prepared : Works strict begun prepared
unfolding shapes
to_prepared = next {n' = holds_prepares two_prepares} {n'' = prepared} with_prepares (run true refl)

abbrev holds_commits : List (Str × IbftMessage) → Node
holds_commits l = record prepared { messages = holding two_prepares l }

one_commit : Works strict begun (holds_commits ((address 2, commits 2) ∷ []))
unfolding shapes
one_commit =
    next {n' = prepared} {n'' = holds_commits ((address 2, commits 2) ∷ [])} to_prepared
      (deliver (some (commits 2)) refl)

two_commits :
    Works strict begun (holds_commits ((address 2, commits 2) ∷ (address 3, commits 3) ∷ []))
unfolding shapes
two_commits =
    next {n' = holds_commits ((address 2, commits 2) ∷ [])}
      {n'' = holds_commits ((address 2, commits 2) ∷ (address 3, commits 3) ∷ [])} one_commit
      (deliver (some (commits 3)) refl)

to_committed : Works strict begun committed
unfolding shapes
to_committed =
    next {n' = holds_commits three_commits} {n'' = committed}
      (next {n' = holds_commits ((address 2, commits 2) ∷ (address 3, commits 3) ∷ [])}
        {n'' = holds_commits three_commits} two_commits (deliver (some (commits 4)) refl))
      (run true refl)

abbrev inserts : Inserted
inserts = record {
  proposal = a_block;
  seals =
      extract_committed_seal (commits 2)
      ∷ extract_committed_seal (commits 3)
      ∷ extract_committed_seal (commits 4)
      ∷ [];
}

inserted_block : (insert_block committed).inserted ≡ inserts ∷ []
unfolding shapes
inserted_block = refl

whole_sequence : Runs strict 5 begun (insert_block committed) true
unfolding shapes
whole_sequence = again no_pass (pass round_done committed to_committed refl refl)

pub starts : begin_sequence strict 5 new_ibft ≡ (begun, none)
unfolding program
starts = refl

empty_node : new_ibft.inserted ≡ []
unfolding program
empty_node = refl

-- The hash that every validator seals.
some_bytes : (x : Bytes) (a : ℕ) (s : Str) → bytes_equal x (some (a ∷ s)) ≡ true → x ≡ some (a ∷ s)
some_bytes none a s e = absurd (ground (arith, e))
some_bytes (some y) a s e = let same = str_beq_sound y (a ∷ s) e in cc

strict-Builds : Builds strict
unfolding shapes
strict-Builds raw rcc v = refl

new_ibft-IsSound : IsSound strict new_ibft
unfolding program
new_ibft-IsSound = record {
  filed = new_messages-IsWellFormed;
  signed = new_messages-Only (λ m. strict.is_valid_validator m ≡ true);
}

run_sequences-agree_example :
    (hash : Bytes) × (strict.is_valid_proposal_hash (some a_block) hash ≡ true)
    × (strict.is_valid_proposal_hash (some a_block) hash ≡ true)
run_sequences-agree_example =
    run_sequences-agree strict strict 5 powers (address 2 ∷ []) (λ a. a_hash) new_ibft begun
      (insert_block committed) new_ibft begun (insert_block committed) true true inserts inserts
      refl refl (record { hash = λ p x. refl; seal = λ x s. refl; validator = λ m. refl })
      strict-Builds strict-Builds powers-IsRegular few_faulty
      (λ a honest m from seal e. some_bytes (extract_commit_hash m) 9 [] seal) empty_node empty_node
      new_ibft-IsSound new_ibft-IsSound starts starts whole_sequence whole_sequence inserted_block
      inserted_block refl

run_sequence-IsSealedIn_example :
    All (IsSealedIn strict begun.validator_manager 5) (insert_block committed).inserted
run_sequence-IsSealedIn_example =
    run_sequence-IsSealedIn strict 5 new_ibft begun (insert_block committed) true strict-Builds
      starts empty_node new_ibft-IsSound whole_sequence

run_sequence-inserts_once_example :
    ((insert_block committed).inserted ≡ new_ibft.inserted)
    ⊎ (true ≡ true)
      × ((block : Inserted) × ((insert_block committed).inserted ≡ block ∷ new_ibft.inserted))
run_sequence-inserts_once_example =
    run_sequence-inserts_once strict 5 new_ibft begun (insert_block committed) true starts
      whole_sequence
