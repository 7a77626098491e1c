-- ===== src/Tests/Found.antt =====
-- A proposer of round 2 whose store has the round change messages of its round.
use go_ibft.Prelude.{Str, ◌≡◌, refl, true, some, List, [], ◌∷◌, ok, arith, nat_eq, str_eq}
use go_ibft.Proto.{IbftMessage, preprepare, prepare, commit, round_change, unknown}
use go_ibft.Extract.{
  extract_latest_pc, extract_last_prepared_proposal, extract_proposal, extract_proposal_hash,
  extract_round_change_certificate, are_valid_pc_messages, pc_messages_from, pc_message_check,
  extract_pc_message_hash, extract_prepare_hash,
}
use go_ibft.Validators.{has_quorum, power_from, convert_message_to_address_set, address_set_from}
use go_ibft.Certificate.{
  valid_pc, valid_pc_messages, valid_proposer, valid_signers, all_prepare,
  proposal_matches_certificate, all_hashes_valid, certificate_hashes,
}
use go_ibft.Messages
use go_ibft.State.{get_proposal}
use go_ibft.Messages.WellFormed.{IsWellFormed, new_messages-IsWellFormed, add_message-IsWellFormed}
use go_ibft.Messages.Keyed.{IsKeyed}
use go_ibft.Node.{Node, has_quorum_by_msg_type}
use go_ibft.Proposals.{validate_proposal}
use go_ibft.Rounds.{
  build_proposal, handle_round_change_message, is_valid_round_change, is_valid_rcc,
}
use go_ibft.Workers.{look_for_certificate}
use go_ibft.Workers.Hopping.{IsCertified}
use go_ibft.Workers.Certifying.{look_for_certificate_iff}
use go_ibft.Workers.Matched.{handle_round_change_message-validate_proposal}
use go_ibft.Tests.{address, backend}
use go_ibft.Tests.Proposers.{preparing}
use go_ibft.Tests.Sequences.{begun}
use go_ibft.Tests.Rebuilt.{
  round_two, leader, with_nothing, with_proposal, gathered_messages, with_nothing-no_certificate,
  with_proposal-one_certificate, messages-HaveOneHash,
}

shapes : Unit {0}
unfolding get_proposal Messages.add_message Messages.get_view_messages look_for_certificate
    handle_round_change_message is_valid_round_change is_valid_rcc Messages.get_extended_rcc
    Messages.extended_rcc_from Messages.valid_of has_quorum_by_msg_type extract_latest_pc
    extract_last_prepared_proposal proposal_matches_certificate certificate_hashes all_hashes_valid
    extract_proposal_hash are_valid_pc_messages pc_messages_from pc_message_check
    extract_pc_message_hash extract_prepare_hash has_quorum power_from
    convert_message_to_address_set address_set_from valid_pc valid_pc_messages valid_proposer
    valid_signers all_prepare
shapes = tt

abbrev changes : List (Str × IbftMessage) → Messages.Messages
changes l = record begun.messages { round_change_messages = (5, (2, l) ∷ []) ∷ [] }

abbrev first_change : List (Str × IbftMessage)
first_change = (address 2, with_nothing 2) ∷ []

abbrev two_changes : List (Str × IbftMessage)
two_changes = (address 2, with_nothing 2) ∷ (address 3, with_proposal) ∷ []

abbrev all_changes : List (Str × IbftMessage)
all_changes =
    (address 2, with_nothing 2) ∷ (address 3, with_proposal) ∷ (address 4, with_nothing 4) ∷ []

abbrev gathering : Node
gathering = record begun {
  state = record begun.state { view = round_two };
  messages = changes all_changes;
}

empty-IsWellFormed : IsWellFormed begun.messages
unfolding Messages.new_messages
empty-IsWellFormed = new_messages-IsWellFormed

gathering-IsWellFormed : IsWellFormed gathering.messages
unfolding shapes
gathering-IsWellFormed =
    add_message-IsWellFormed (with_nothing 4) (changes two_changes) (changes all_changes) refl (
      add_message-IsWellFormed with_proposal (changes first_change) (changes two_changes) refl (
        add_message-IsWellFormed (with_nothing 2) begun.messages (changes first_change) refl
          empty-IsWellFormed))

gathering-IsKeyed : IsKeyed gathering.messages
gathering-IsKeyed preprepare h = tt
gathering-IsKeyed prepare h = tt
gathering-IsKeyed commit h = tt
gathering-IsKeyed round_change h = ground arith
gathering-IsKeyed (unknown k) h = tt

sees_certificate : look_for_certificate leader round_two 2 gathering ≡ ok (gathering, some 2)
unfolding shapes
sees_certificate = refl

gathering-IsCertified : IsCertified leader round_two gathering 2
gathering-IsCertified =
    (look_for_certificate_iff leader round_two 2 gathering gathering (some 2) 2
        gathering-IsWellFormed gathering-IsKeyed sees_certificate).0
      refl

finds_certificate :
    handle_round_change_message leader round_two gathering ≡ ok (some gathered_messages)
unfolding shapes
finds_certificate = refl

handle_round_change_message-validate_proposal_example :
    (m : IbftMessage) × (build_proposal leader round_two (some gathered_messages) ≡ ok (some m))
    × (validate_proposal backend preparing m round_two ≡ ok true)
unfolding extract_proposal extract_round_change_certificate extract_proposal_hash
handle_round_change_message-validate_proposal_example =
    handle_round_change_message-validate_proposal leader backend round_two gathering preparing
      gathered_messages gathering-IsWellFormed gathering-IsKeyed ((refl, (refl, (refl, tt))), tt)
      (λ e. absurd (omega arith)) gathering-IsCertified finds_certificate (λ e. cc)
      (
        with_nothing-no_certificate 2,
        (with_proposal-one_certificate, (with_nothing-no_certificate 4, tt)),
      )
      messages-HaveOneHash (λ raw rcc v. (refl, refl, refl, refl, refl)) refl
      (record { validator = λ m. refl; proposer = λ id h r. refl; hash = λ p x. refl }) refl refl
      refl ((λ r raw w. refl), ((λ r raw w. refl), ((λ r raw w. refl), tt)))
