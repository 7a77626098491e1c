-- ===== src/Certificate/Made.antt =====
-- The certificate that `handlePrepare` makes, and what another node says of it (`validPC`,
-- `proposalMatchesCertificate`).
use go_ibft.Prelude.{
  ℕ, ◌<◌, ◌≡◌, refl, sym, ap, ◌∙◌, Bool, true, false, Option, none, some, List, [], ◌∷◌, map, Str,
  contains, str_eq, arith, All, All-map, ok, inl, inr, Result,
}
use go_ibft.Proto.{
  Bytes, View, Proposal, prepare, IbftMessage, sender, bytes_equal, to_string, items_list, items_of,
  slice, message_ref, prepared_certificate, pc_ref,
}
use go_ibft.Extract.{extract_proposal, extract_proposal_hash, extract_prepare_hash}
use go_ibft.Messages.{Messages, get_proto_messages}
use go_ibft.Messages.WellFormed.{IsWellFormed}
use go_ibft.Validators.Prepare.{senders, has_prepare_quorum-split}
use go_ibft.Backend.{Backend}
use go_ibft.Node.{Node, handle_prepare, pc_pointer}
use go_ibft.Node.Preparing.{valid_prepares, prepared, prepared_state, handle_prepare_cases}
use go_ibft.Certificate.{
  valid_pc, proposal_matches_certificate, all_hashes_valid, certificate_hashes,
}
use go_ibft.Certificate.Valid.{ValidPc, valid_pc_messages_iff}
use go_ibft.Certificate.Kept.{Accepted, others-no_proposer, preprepare_hash, prepares-Kept}

made-ValidPc :
    (b : Backend) (v : View) (n : Node) (m : IbftMessage) (h : Str) (limit : ℕ)
    → Accepted b v n m h
    → IsWellFormed n.messages
    → All (λ e. b.is_valid_validator e.1 ≡ true) (get_proto_messages v prepare n.messages)
    → ((x : Bytes)
        → b.is_valid_proposal_hash (extract_proposal m) x ≡ true
        → bytes_equal (some h) x ≡ true)
    → ((x : Bytes) → b.is_proposer x v.height v.round ≡ true → to_string x ≡ sender m)
    → v.round < limit
    → prepared b v n ≡ true
    → ValidPc b n.validator_manager m (valid_prepares b v n) limit v.height h
made-ValidPc b v n m h limit a w good one sole below q =
    let ps = valid_prepares b v n in
    let (kept, distinct) = prepares-Kept b v n m h a w good one in
    let (hash, pc) = preprepare_hash m a.is_preprepare in
    let split = (has_prepare_quorum-split n.validator_manager m ps).1 in
    let no_proposer : contains (senders ps) (sender m) ≡ false =
      ground (arith, split, a.accepted, q) in
    record {
      quorum = ground (arith, split, a.accepted, q);
      is_preprepare = a.is_preprepare;
      are_prepares = All-map (λ x k. k.is_prepare) ps kept;
      agreeing = record {
        round = v.round;
        below = below;
        in_pc = (
          record {
            view = v;
            has_view = a.of_view;
            same_height = refl;
            same_round = refl;
            is_pc_type = pc;
          },
          All-map (λ x k. k.in_pc) ps kept,
        );
        same_hash = (
          ap (λ x. bytes_equal (some h) x) hash
              ∙ one (extract_proposal_hash m) (rw a.has_hash a.valid_hash),
          All-map (λ x k. k.same_hash) ps kept,
        );
        distinct = (no_proposer, distinct);
      };
      from_proposer = a.from_proposer;
      valid_proposer = a.valid_proposer;
      valid_signers = All-map (λ x k. k.is_valid) ps kept;
      no_proposer = others-no_proposer b v m ps sole no_proposer;
    }

pub items_list-of : (ms : List IbftMessage) → items_list (items_of ms) ≡ ms
items_list-of [] = refl
items_list-of (m ∷ ms) = ap (λ l. m ∷ l) (items_list-of ms)

all_hashes_valid-made :
    (b : Backend) (p : Option Proposal) (ps : List IbftMessage)
    → All (λ x. b.is_valid_proposal_hash p (extract_prepare_hash x) ≡ true) ps
    → all_hashes_valid b p (map extract_prepare_hash ps) ≡ true
unfolding all_hashes_valid
all_hashes_valid-made b p [] a = refl
all_hashes_valid-made b p (x ∷ ps) a = ground (arith, all_hashes_valid-made b p ps a.1)

-- Both checks on the certificate, from its messages.
made_checks :
    (b : Backend) (v : View) (n : Node) (m : IbftMessage) (h : Str) (limit : ℕ)
    → Accepted b v n m h
    → IsWellFormed n.messages
    → All (λ e. b.is_valid_validator e.1 ≡ true) (get_proto_messages v prepare n.messages)
    → ((x : Bytes)
        → b.is_valid_proposal_hash (extract_proposal m) x ≡ true
        → bytes_equal (some h) x ≡ true)
    → ((x : Bytes) → b.is_proposer x v.height v.round ≡ true → to_string x ≡ sender m)
    → v.round < limit
    → prepared b v n ≡ true
    → let cert =
        pc_ref (prepared_certificate (message_ref m) (slice (items_of (valid_prepares b v n)))) in
      (valid_pc b n.validator_manager cert limit v.height ≡ ok true)
      × (proposal_matches_certificate b (extract_proposal m) cert ≡ ok true)
unfolding valid_pc proposal_matches_certificate certificate_hashes all_hashes_valid
made_checks b v n m h limit a w good one sole below q =
    let ps = valid_prepares b v n in
    let (hash, pc) = preprepare_hash m a.is_preprepare in
    let (kept, distinct) = prepares-Kept b v n m h a w good one in
    let hashes =
      all_hashes_valid-made b (extract_proposal m) ps (All-map (λ x k. k.valid_hash) ps kept) in
    (
      rw (items_list-of ps) (
          (valid_pc_messages_iff b n.validator_manager m ps limit v.height h (hash ∙ a.has_hash)).1
            (made-ValidPc b v n m h limit a w good one sole below q)),
      matches (extract_proposal m) (rw a.has_hash a.valid_hash) (rw (items_list-of ps) hashes),
    )
  where
    matches :
        (p : Option Proposal)
        → b.is_valid_proposal_hash p (extract_proposal_hash m) ≡ true
        → all_hashes_valid b p
            (map extract_prepare_hash (items_list (items_of (valid_prepares b v n))))
          ≡ true
        → proposal_matches_certificate b p (
            pc_ref (prepared_certificate (message_ref m) (slice (items_of (valid_prepares b v n)))))
          ≡ ok true
    matches none x y = ground (arith, x, y)
    matches (some p) x y = ground (arith, x, y)

-- A certificate that `handlePrepare` makes is accepted by `validPC`, for the height and every round above,
-- and by `proposalMatchesCertificate`, with the proposal that it is kept with: if the store is well
-- formed, the proposal accepted for the view is a valid one of the proposer, the stored prepare messages
-- of the view come from validators, no other hash is valid for the proposal, and no other sender
-- is the proposer.
pub handle_prepare-valid_pc :
    (b : Backend) (v : View) (n n' : Node) (m : IbftMessage) (h : Str) (limit : ℕ)
    → Accepted b v n m h
    → IsWellFormed n.messages
    → All (λ e. b.is_valid_validator e.1 ≡ true) (get_proto_messages v prepare n.messages)
    → ((x : Bytes)
        → b.is_valid_proposal_hash (extract_proposal m) x ≡ true
        → bytes_equal (some h) x ≡ true)
    → ((x : Bytes) → b.is_proposer x v.height v.round ≡ true → to_string x ≡ sender m)
    → v.round < limit
    → handle_prepare b v n ≡ ok (n', true)
    → (valid_pc b n.validator_manager (pc_pointer n'.state.latest_pc) limit v.height ≡ ok true)
      × (proposal_matches_certificate b n'.state.latest_prepared_proposal
            (pc_pointer n'.state.latest_pc)
          ≡ ok true)
unfolding get_proto_messages
handle_prepare-valid_pc b v n n' m h limit a w good one sole below run =
    let (store, after, out) = handle_prepare_cases b v n (w prepare v.height v.round).0 in
    elim out [
      | inl (q, ran) ↦ absurd (ground (arith, run, ran))
      | inr (m', q, p, ran) ↦
          let same : m ≡ m' = ground (arith, p, a.accepted) in
          let checks = made_checks b v n m h limit a w good one sole below q in
          go store m' same (sym ran ∙ run) checks
    ]
  where
    go :
        (store : Messages) (m' : IbftMessage)
        → m ≡ m'
        → ◌≡◌ {A = Result (Node × Bool)}
            (ok (
              record n {
                messages = store;
                sent = b.build_commit_message (extract_proposal_hash m') v ∷ n.sent;
                state = prepared_state b v n m';
              },
              true,
            ))
            (ok (n', true))
        → (valid_pc b n.validator_manager
              (pc_ref
                (prepared_certificate (message_ref m) (slice (items_of (valid_prepares b v n)))))
              limit
              v.height
            ≡ ok true)
          × (proposal_matches_certificate b (extract_proposal m) (
                pc_ref
                  (prepared_certificate (message_ref m) (slice (items_of (valid_prepares b v n)))))
              ≡ ok true)
        → (valid_pc b n.validator_manager (pc_pointer n'.state.latest_pc) limit v.height ≡ ok true)
          × (proposal_matches_certificate b n'.state.latest_prepared_proposal
                (pc_pointer n'.state.latest_pc)
              ≡ ok true)
    go store m' same e (x, y) =
        let cert : n'.state.latest_pc
            ≡ some
                (prepared_certificate (message_ref m) (slice (items_of (valid_prepares b v n)))) =
          ground (arith, same, e) in
        let kept : n'.state.latest_prepared_proposal ≡ extract_proposal m =
          ground (arith, same, e) in
        (rw cert x, rw (cert, kept) y)
