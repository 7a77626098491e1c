-- ===== src/Tests/Proposers.antt =====
-- A node that prepares a proposal, and one that builds the next.
use go_ibft.Prelude.{
  ◌≡◌, refl, true, false, some, List, [], ◌∷◌, Str, ok, All, arith, str_beq_sound, str_beq_refl,
  str_eq, nat_eq,
}
use go_ibft.Proto.{
  Bytes, bytes_equal, to_string, prepare, IbftMessage, message_ref, prepared_certificate, slice,
  items_of,
}
use go_ibft.Extract.{
  extract_latest_pc, extract_last_prepared_proposal, extract_proposal, extract_proposal_hash,
  extract_prepare_hash,
}
use go_ibft.State.{
  new_round, commit as commit_state, get_proposal, get_proposal_hash, finalize_prepare, get_view,
}
use go_ibft.Validators.{
  has_quorum, has_prepare_quorum, prepare_senders, power_from, convert_message_to_address_set,
  address_set_from,
}
use go_ibft.Messages.{
  Messages, ProtoMessages, new_messages, add_message, get_view_messages, get_proto_messages,
  get_valid_messages, sort_messages,
}
use go_ibft.Messages.WellFormed.{IsWellFormed, new_messages-IsWellFormed, add_message-IsWellFormed}
use go_ibft.Events.{new_event_manager}
use go_ibft.Node.{
  Node, handle_prepare, handle_commit, has_quorum_by_msg_type, send_commit_message, pc_pointer,
}
use go_ibft.Certificate.{valid_pc, proposal_matches_certificate}
use go_ibft.Certificate.Kept.{Accepted}
use go_ibft.Certificate.Made.{handle_prepare-valid_pc}
use go_ibft.Rounds.{build_proposal, previous_proposal, prepared_round}
use go_ibft.Rounds.{on_round_expired, is_valid_round_change, handle_event, run}
use go_ibft.Rounds.Keeping.{here, next}
use go_ibft.Certificate.Same.{SameChecks}
use go_ibft.Backend.{Backend}
use go_ibft.Rounds.Carrying.{Carries, on_round_expired-valid}
use go_ibft.Proto.{view_of}
use go_ibft.Tests.{address, a_view, a_hash, a_proposal, preprepare_from, prepare_from, backend}
use go_ibft.Tests.Handlers.{node_in}

abbrev preparing_store : ProtoMessages → Messages
preparing_store pm = record {
  event_manager = new_event_manager;
  preprepare_messages = [];
  prepare_messages = (5, (1, pm) ∷ []) ∷ [];
  commit_messages = [];
  round_change_messages = [];
}

abbrev two_prepares : ProtoMessages
two_prepares = (address 2, prepare_from 2) ∷ (address 3, prepare_from 3) ∷ []

program : Unit {0}
unfolding add_message new_messages get_view_messages get_proto_messages handle_prepare
    has_quorum_by_msg_type send_commit_message get_valid_messages sort_messages has_prepare_quorum
    prepare_senders has_quorum power_from get_proposal get_proposal_hash finalize_prepare
    extract_prepare_hash extract_proposal extract_proposal_hash build_proposal previous_proposal
    prepared_round extract_latest_pc extract_last_prepared_proposal
program = tt

two_prepares-IsWellFormed : IsWellFormed (preparing_store two_prepares)
unfolding program
two_prepares-IsWellFormed =
    add_message-IsWellFormed (prepare_from 3) (preparing_store ((address 2, prepare_from 2) ∷ []))
      (preparing_store two_prepares) refl
      (add_message-IsWellFormed (prepare_from 2) new_messages
        (preparing_store ((address 2, prepare_from 2) ∷ [])) refl new_messages-IsWellFormed)

abbrev pub preparing : Node
preparing = record (node_in new_round) { messages = preparing_store two_prepares }

abbrev pub certificate : List IbftMessage
certificate = prepare_from 2 ∷ prepare_from 3 ∷ []

abbrev with_certificate : Node
with_certificate = record preparing {
  state = record (node_in commit_state).state {
    latest_pc =
        some
          (prepared_certificate (message_ref (preprepare_from 1)) (slice (items_of certificate)));
    latest_prepared_proposal = some a_proposal;
  };
  sent = backend.build_commit_message a_hash a_view ∷ [];
}

prepares : handle_prepare backend a_view preparing ≡ ok (with_certificate, true)
unfolding program
prepares = refl

proposal-Accepted : Accepted backend a_view preparing (preprepare_from 1) (9 ∷ [])
unfolding program
proposal-Accepted = record {
  accepted = refl;
  is_preprepare = refl;
  of_view = refl;
  has_hash = refl;
  valid_hash = refl;
  from_proposer = refl;
  valid_proposer = refl;
}

all_validators :
    All
      (λ e. backend.is_valid_validator e.1 ≡ true)
      (get_proto_messages a_view prepare preparing.messages)
unfolding program
all_validators = (refl, (refl, tt))

same_bytes : (x : Bytes) (s : Str) → bytes_equal x (some s) ≡ true → bytes_equal (some s) x ≡ true
same_bytes x s e = rw (str_beq_sound (to_string x) s e) (str_beq_refl s)

handle_prepare-valid_pc_example :
    (valid_pc backend preparing.validator_manager (pc_pointer with_certificate.state.latest_pc) 2 5
      ≡ ok true)
    × (proposal_matches_certificate backend with_certificate.state.latest_prepared_proposal
          (pc_pointer with_certificate.state.latest_pc)
        ≡ ok true)
handle_prepare-valid_pc_example =
    handle_prepare-valid_pc backend a_view preparing with_certificate (preprepare_from 1) (9 ∷ []) 2
      proposal-Accepted two_prepares-IsWellFormed all_validators (λ x e. same_bytes x (9 ∷ []) e)
      (λ x e. str_beq_sound (to_string x) (address 1) e) (omega arith) prepares

backend-Carries : Carries backend
unfolding program
backend-Carries p c w = (refl, refl, refl)

-- The backend of another validator.
abbrev third : Backend
third = record backend { id = some (address 3) }

third-SameChecks : SameChecks backend third
third-SameChecks = record { validator = λ m. refl; proposer = λ id h r. refl; hash = λ p x. refl }

-- It still waits for commit messages.
no_commits_yet :
    handle_event backend commit_state a_view with_certificate ≡ ok (with_certificate, false)
unfolding program handle_event handle_commit convert_message_to_address_set address_set_from
no_commits_yet = refl

on_round_expired-valid_example :
    (x : IbftMessage) × ((on_round_expired backend 5 a_view with_certificate).sent
      ≡ x ∷ with_certificate.sent)
    × (view_of x ≡ some (record { height = 5; round = 2 }))
    × (is_valid_round_change third preparing 5 x ≡ ok true)
unfolding get_view
on_round_expired-valid_example =
    on_round_expired-valid backend third a_view preparing with_certificate with_certificate
      preparing (preprepare_from 1) (9 ∷ []) proposal-Accepted two_prepares-IsWellFormed
      all_validators (λ x e. same_bytes x (9 ∷ []) e)
      (λ x e. str_beq_sound (to_string x) (address 1) e) (omega arith) backend-Carries
      third-SameChecks refl prepares
      (next {n' = with_certificate} {n'' = with_certificate} here (run false no_commits_yet) tt)
