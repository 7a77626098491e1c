-- ===== src/Tests/Rebuilt.antt =====
-- A proposer that builds its proposal from three round change messages, of which one has a certificate.
use mathlib.Core.Path.{subst}
use go_ibft.Prelude.{
  ℕ, ◌≡◌, refl, sym, ap, ◌∙◌, true, none, some, List, [], ◌∷◌, ok, panic, str_eq, nat_eq, inl, inr,
  arith,
}
use go_ibft.Proto.{
  Bytes, View, round_change, IbftMessage, message, round_change_data, nil_pc, pc_ref,
  PreparedCertificate, prepared_certificate, proposal_message_of, message_ref, slice, items_of,
  preprepare, nil_rcc, preprepare_data,
}
use go_ibft.Extract.{
  extract_latest_pc, extract_proposal, extract_proposal_hash, are_valid_pc_messages,
  pc_messages_from, pc_message_check, extract_pc_message_hash, extract_prepare_hash,
  extract_last_prepared_proposal,
}
use go_ibft.Validators.{has_quorum, power_from, convert_message_to_address_set, address_set_from}
use go_ibft.Certificate.{
  valid_pc, valid_pc_messages, valid_proposer, valid_signers, all_prepare,
  proposal_matches_certificate, all_hashes_valid, certificate_hashes,
}
use go_ibft.Certificate.Valid.{In}
use go_ibft.Backend.{Backend}
use go_ibft.Rounds.{build_proposal, is_valid_round_change}
use go_ibft.Rounds.Faults.{build_proposal-panic}
use go_ibft.Rounds.Offered.{EntryOf, Prepared}
use go_ibft.Rounds.Reproposing.{HaveOneHash}
use go_ibft.Tests.{address, a_hash, a_view, a_proposal, preprepare_from, backend}
use go_ibft.Tests.Proposers.{certificate, preparing}

abbrev pub round_two : View
round_two = record { height = 5; round = 2 }

-- The backend of the proposer.
abbrev pub leader : Backend
leader = record backend {
  id = some (address 1);
  build_preprepare_message = λ raw rcc v.
      message (some v) (some (address 1)) none preprepare
        (preprepare_data (some (record { raw_proposal = raw; round = v.round })) a_hash rcc);
}

abbrev pub with_nothing : ℕ → IbftMessage
with_nothing k =
    message (some round_two) (some (address k)) none round_change (round_change_data none nil_pc)

abbrev a_certificate : PreparedCertificate
a_certificate =
    prepared_certificate (message_ref (preprepare_from 1)) (slice (items_of certificate))

abbrev pub with_proposal : IbftMessage
with_proposal =
    message (some round_two) (some (address 3)) none round_change
      (round_change_data (some a_proposal) (pc_ref a_certificate))

abbrev pub gathered_messages : List IbftMessage
gathered_messages = with_nothing 2 ∷ with_proposal ∷ with_nothing 4 ∷ []

pub with_nothing-no_certificate :
    (k : ℕ) (cert : PreparedCertificate)
    → extract_latest_pc (with_nothing k) ≡ pc_ref cert
    → Prepared (with_nothing k) cert
unfolding extract_latest_pc
with_nothing-no_certificate k cert h = absurd cc

one_certificate :
    (cert : PreparedCertificate) → pc_ref a_certificate ≡ pc_ref cert → a_certificate ≡ cert
one_certificate cert e = cc

a_certificate-Prepared : Prepared with_proposal a_certificate
unfolding extract_proposal extract_last_prepared_proposal
a_certificate-Prepared = record {
  message = preprepare_from 1;
  has_message = refl;
  view = a_view;
  has_view = refl;
  proposal = a_proposal;
  has_proposal = refl;
  same_round = refl;
  last = a_proposal;
  has_last = refl;
  last_round = refl;
  has_bytes = refl;
}

pub with_proposal-one_certificate :
    (cert : PreparedCertificate)
    → extract_latest_pc with_proposal ≡ pc_ref cert
    → Prepared with_proposal cert
unfolding extract_latest_pc
with_proposal-one_certificate cert h =
    subst (Prepared with_proposal) (one_certificate cert h) a_certificate-Prepared

no_entry : (k : ℕ) (x : IbftMessage) (e : ℕ × Bytes) → x ≡ with_nothing k → ¬ EntryOf x e
unfolding extract_latest_pc
no_entry k x e same (cert, h, f) =
    let at_k : nil_pc ≡ pc_ref cert = ap extract_latest_pc (sym same) ∙ h in absurd cc

one_message :
    (m : IbftMessage) → message_ref (preprepare_from 1) ≡ message_ref m → preprepare_from 1 ≡ m
one_message m e = cc

entry_hash : (x : IbftMessage) (e : ℕ × Bytes) → In x gathered_messages → EntryOf x e → e.1 ≡ a_hash
unfolding extract_latest_pc extract_proposal_hash
entry_hash x e (inl i) f = absurd (no_entry 2 x e i f)
entry_hash x e (inr (inl i)) (cert, h, (p, same)) =
    let c = one_certificate cert (ap extract_latest_pc (sym i) ∙ h) in
    let m = one_message p.message (ap proposal_message_of c ∙ p.has_message) in
    ap (λ d. d.1) same ∙ ap extract_proposal_hash (sym m)
entry_hash x e (inr (inr (inl i))) f = absurd (no_entry 4 x e i f)
entry_hash x e (inr (inr (inr i))) f = absurd i

pub messages-HaveOneHash : HaveOneHash gathered_messages
messages-HaveOneHash x y e e' i j f g same = entry_hash x e i f ∙ sym (entry_hash y e' j g)

-- A certificate whose proposal message has a hash and no proposal.
abbrev empty_certificate : PreparedCertificate
empty_certificate =
    prepared_certificate
      (message_ref (
        message (some a_view) (some (address 1)) none preprepare
          (preprepare_data none a_hash nil_rcc)))
      (slice (items_of certificate))

abbrev with_empty : IbftMessage
with_empty =
    message (some round_two) (some (address 3)) none round_change
      (round_change_data (some a_proposal) (pc_ref empty_certificate))

passes_check : is_valid_round_change backend preparing 5 with_empty ≡ ok true
unfolding is_valid_round_change extract_latest_pc extract_last_prepared_proposal
    proposal_matches_certificate certificate_hashes all_hashes_valid extract_proposal_hash
    are_valid_pc_messages pc_messages_from pc_message_check extract_pc_message_hash
    extract_prepare_hash has_quorum power_from convert_message_to_address_set address_set_from
    valid_pc valid_pc_messages valid_proposer valid_signers all_prepare
passes_check = refl

build_proposal-panic_example :
    build_proposal leader round_two (some (with_nothing 2 ∷ with_empty ∷ [])) ≡ panic
unfolding extract_latest_pc extract_proposal
build_proposal-panic_example =
    build_proposal-panic leader round_two with_empty (with_nothing 2 ∷ with_empty ∷ [])
      (λ e. absurd (omega arith)) (inr (inl refl))
      (
        empty_certificate,
        message (some a_view) (some (address 1)) none preprepare
            (preprepare_data none a_hash nil_rcc),
        refl,
        refl,
        refl,
      )
