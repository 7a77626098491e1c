-- ===== src/Tests/Reproposals.antt =====
-- A proposal that repeats a prepared block in the next round.
use go_ibft.Prelude.{ℕ, ◌≡◌, refl, true, none, some, [], ◌∷◌, ok, inl, inr, arith, nat_eq, str_eq}
use go_ibft.Proto.{
  View, preprepare, round_change, IbftMessage, message, preprepare_data, round_change_data,
  message_ref, nil_pc, pc_ref, prepared_certificate, slice, items_of, rcc_ref,
  RoundChangeCertificate, round_change_certificate, PreparedRef,
}
use go_ibft.Extract.{
  extract_latest_pc, extract_proposal, extract_proposal_hash, extract_round_change_certificate,
  are_valid_pc_messages, pc_messages_from, pc_message_check, extract_pc_message_hash,
  extract_prepare_hash,
}
use go_ibft.Validators.{has_quorum, power_from, convert_message_to_address_set, address_set_from}
use go_ibft.Certificate.{valid_pc, valid_pc_messages, valid_proposer, valid_signers, all_prepare}
use go_ibft.Proposals.{prepared_entries, prepared_entry, round_and_hash, validate_proposal}
use go_ibft.Proposals.Accepted.{InView, AcceptedProposal}
use go_ibft.Proposals.Complete.{IsOneHash, AcceptedProposal-validate_proposal}
use go_ibft.Tests.{address, a_hash, a_proposal, preprepare_from, backend}
use go_ibft.Tests.Proposers.{certificate, preparing}

abbrev round_two : View
round_two = record { height = 5; round = 2 }

abbrev asks : ℕ → PreparedRef → IbftMessage
asks k c =
    message (some round_two) (some (address k)) none round_change
      (round_change_data (some a_proposal) c)

abbrev rcc : RoundChangeCertificate
rcc = round_change_certificate (
    slice (
      items_of (
        asks 2 nil_pc
        ∷ asks 3 (
            pc_ref (
              prepared_certificate (message_ref (preprepare_from 1))
                (slice (items_of certificate))))
        ∷ asks 4 nil_pc
        ∷ [])))

abbrev repeated : IbftMessage
repeated =
    message (some round_two) (some (address 1)) none preprepare
      (preprepare_data (some (record a_proposal { round = 2 })) a_hash (rcc_ref rcc))

asks-InView : (k : ℕ) (c : PreparedRef) → InView backend round_two (asks k c)
asks-InView k c = record {
  is_round_change = refl;
  view = round_two;
  has_view = refl;
  same_height = refl;
  same_round = refl;
  valid_sender = refl;
}

repeated-AcceptedProposal : AcceptedProposal backend preparing repeated round_two
unfolding extract_latest_pc extract_proposal extract_proposal_hash extract_round_change_certificate
    are_valid_pc_messages pc_messages_from pc_message_check extract_pc_message_hash
    extract_prepare_hash has_quorum power_from convert_message_to_address_set address_set_from
    valid_pc valid_pc_messages valid_proposer valid_signers all_prepare prepared_entries
    prepared_entry round_and_hash
repeated-AcceptedProposal = record {
  proposal = record a_proposal { round = 2 };
  has_proposal = refl;
  same_round = refl;
  from_proposer = refl;
  valid_hash = refl;
  valid_block = refl;
  not_proposer = refl;
  certificate = rcc;
  has_certificate = refl;
  some_messages = λ e. cc;
  distinct = (refl, (refl, (refl, tt)));
  quorum = refl;
  in_view = (
    asks-InView 2 nil_pc,
    (
      asks-InView 3 (
          pc_ref (
            prepared_certificate (message_ref (preprepare_from 1)) (slice (items_of certificate)))),
      (asks-InView 4 nil_pc, tt),
    ),
  );
  message_view = round_two;
  has_view = refl;
  entries = (1, a_hash) ∷ [];
  prepared = refl;
  keeps_highest = inr ((1, a_hash), inl refl, (omega arith, tt), refl);
}

one_entry : IsOneHash ((1, a_hash) ∷ [])
one_entry e e' (inl i) (inl j) s = cc
one_entry e e' (inl i) (inr j) s = absurd j
one_entry e e' (inr i) j s = absurd i

AcceptedProposal-validate_proposal_example :
    validate_proposal backend preparing repeated round_two ≡ ok true
unfolding repeated-AcceptedProposal
AcceptedProposal-validate_proposal_example =
    AcceptedProposal-validate_proposal backend preparing repeated round_two
      repeated-AcceptedProposal one_entry
