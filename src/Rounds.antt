-- ===== src/Rounds.antt =====
-- What happens in the rounds of a sequence (`startRound`, `runNewRound`, `buildProposal`,
-- `handleRoundChangeMessage` and the reactions of `RunSequence` of core/ibft.go). The main loop waits for
-- the workers of a round before it moves on, so its reactions and their handlers come one after the
-- other; deliveries interleave.
pub mod Invariant
pub mod Starting
pub mod Safety
pub mod Working
pub mod Proposing
pub mod Faults
pub mod Offered
pub mod Reproposing
pub mod Keeping
pub mod Carrying
pub mod Moves
pub mod Storing
pub mod Filed
pub mod Fitting
pub mod Sequence
pub mod Agreement
use go_ibft.Prelude.{
  ℕ, ◌+◌, ◌%◌, ◌^◌, Bool, true, false, Option, none, some, List, [], ◌∷◌, Result, ok, panic, ◌>>=◌,
  ◌≡◌, ◌&&◌, not, if◌then◌else◌, leb, ◌==◌, nat_eq,
}
use go_ibft.Proto.{
  Bytes, View, Proposal, round_change, IbftMessage, nil_rcc, rcc_ref, RoundChangeRef,
  RoundChangeCertificate, round_change_certificate, rcc_messages, slice, items_of, PreparedRef,
  nil_pc, pc_ref, proposal_message_of, MessageRef, nil_message, message_ref, view_of,
}
use go_ibft.Extract.{
  deref_view, extract_proposal, extract_latest_pc, extract_last_prepared_proposal,
}
use go_ibft.State.{
  State, StateType, new_round, prepare, commit, fin, get_view, get_proposal, set_proposal_message,
  change_state, set_round_started, start_round, reset,
}
use go_ibft.Validators.{init, InitError}
use go_ibft.Messages.{get_extended_rcc, prune_by_height}
use go_ibft.Backend.{Backend}
use go_ibft.Certificate.{valid_pc, proposal_matches_certificate}
use go_ibft.Node.{
  Node, has_quorum_by_msg_type, add_message, multicast, send_prepare_message,
  send_round_change_message, handle_prepare, handle_commit, insert_block, move_to_new_round,
  accept_proposal,
}
use go_ibft.Node.Listening.{subscribe, unsubscribe}
use go_ibft.Events.{SubscriptionDetails}
use go_ibft.Proposals.{handle_pre_prepare}

abbrev pub is_some {ℓ} : {A : Type ℓ} → Option A → Bool
is_some none = false
is_some (some a) = true

unfoldable pub is_valid_round_change : Backend → Node → ℕ → IbftMessage → Result Bool
is_valid_round_change b n height m = deref_view (view_of m) λ v. do
  good ← valid_pc b n.validator_manager (extract_latest_pc m) v.round height
  elim good [
    | false ↦ ok false
    | true ↦ proposal_matches_certificate b (extract_last_prepared_proposal m) (extract_latest_pc m)
  ]

-- A certificate for the node's own round counts only while no proposal is accepted.
unfoldable pub is_valid_rcc : Node → View → ℕ → List IbftMessage → Result Bool
is_valid_rcc n v round msgs = ok (
    if (round == v.round) && is_some (get_proposal n.state)
    then false
    else has_quorum_by_msg_type n msgs round_change)

unfoldable pub handle_round_change_message :
    Backend → View → Node → Result (Option (List IbftMessage))
handle_round_change_message b v n =
    get_extended_rcc v.height (is_valid_round_change b n v.height) (is_valid_rcc n v) n.messages

-- `ExtractProposal(latestPC.ProposalMessage)` and the read of its round.
unfoldable pub prepared_round : MessageRef → Result ℕ
prepared_round nil_message = panic
prepared_round (message_ref m) = elim (extract_proposal m) [ none ↦ panic | some p ↦ ok p.round ]

-- The loop of `buildProposal` over the previous proposal and its round.
unfoldable pub previous_proposal : Bytes → ℕ → List IbftMessage → Result Bytes
previous_proposal previous max_round [] = ok previous
previous_proposal previous max_round (m ∷ ms) = elim (extract_latest_pc m) [
  | nil_pc ↦ previous_proposal previous max_round ms
  | pc_ref cert ↦ do
    round ← prepared_round (proposal_message_of cert)
    elim (is_some previous && leb round max_round) [
      | true ↦ previous_proposal previous max_round ms
      | false ↦ elim (extract_last_prepared_proposal m) [
        | none ↦ previous_proposal previous max_round ms
        | some last_pb ↦ previous_proposal last_pb.raw_proposal round ms
      ]
    ]
]

-- `buildProposal`; `rcc` is what `waitForRCC` returned, `none` on a timeout.
unfoldable pub build_proposal :
    Backend → View → Option (List IbftMessage) → Result (Option IbftMessage)
build_proposal b v rcc =
    if v.round == 0
    then ok (some (b.build_preprepare_message (b.build_proposal v) nil_rcc v))
    else elim rcc [
      | none ↦ ok none
      | some msgs ↦ do
        previous ← previous_proposal none 0 msgs
        ok (
            some (
              b.build_preprepare_message
                (elim previous [ none ↦ b.build_proposal v | some raw ↦ some raw ])
                (rcc_ref (round_change_certificate (slice (items_of msgs)))) v))
    ]

-- `startRound` before it looks for a proposal to make.
unfoldable pub open_round : Node → Node
open_round n = record n { state = start_round n.state }

-- `startRound` once its proposal is built.
unfoldable pub propose : IbftMessage → Node → Node
propose m n = multicast m (accept_proposal (some m) n)

-- What `runNewRound` does with an event, and whether it is done then.
unfoldable pub take_proposal : Backend → View → Node → Result (Node × Bool)
take_proposal b v n = do
  (n', got) ← handle_pre_prepare b v n
  elim got [
    | none ↦ ok (n', false)
    | some m ↦ do
      sent ← send_prepare_message b v (record n' { state = set_proposal_message (some m) n'.state })
      ok (record sent { state = change_state prepare sent.state }, true)
  ]

-- What the worker of a state does with an event; that of the fin state takes none.
unfoldable pub handle_event : Backend → StateType → View → Node → Result (Node × Bool)
handle_event b new_round v n = take_proposal b v n
handle_event b prepare v n = handle_prepare b v n
handle_event b commit v n = handle_commit b v n
handle_event b fin v n = ok (n, true)

-- The cases of the select in `RunSequence`. `view` is the view at the start of the round.
unfoldable pub on_new_proposal : Backend → View → ℕ → IbftMessage → Node → Result Node
on_new_proposal b view round m n =
    let n' = accept_proposal (some m) (move_to_new_round round n) in
    send_prepare_message b view (record n' { state = set_round_started true n'.state })

unfoldable pub on_round_certificate : ℕ → Node → Node
on_round_certificate round n = move_to_new_round round n

-- `currentRound + 1` on 64 bits.
abbrev pub next_round : ℕ → ℕ
next_round round = (round + 1) % 2 ^ 64

unfoldable pub on_round_expired : Backend → ℕ → View → Node → Node
on_round_expired b h view n =
    send_round_change_message b h (next_round view.round)
      (move_to_new_round (next_round view.round) n)

-- The start of `RunSequence`, and the error that makes it return at once.
unfoldable pub begin_sequence : Backend → ℕ → Node → Node × Option InitError
begin_sequence b h n =
    let n' = record n { state = reset h n.state } in
    let (vm, err) = init b.get_voting_powers n'.validator_manager h in
    elim err [
      | some e ↦ (record n' { validator_manager = vm }, some e)
      | none ↦
          (record n' { validator_manager = vm; messages = prune_by_height h n'.messages }, none)
    ]

-- What the workers of a round do to the node, and `AddMessage`.
pub data WorkStep (b : Backend) (n : Node) (n' : Node) : Type 0 where
  deliver : (m : Option IbftMessage) → add_message b m n ≡ ok n' → WorkStep b n n'
  listen : (id : ℕ) (d : SubscriptionDetails) → subscribe id d n ≡ ok n' → WorkStep b n n'
  unlisten : (id : ℕ) → unsubscribe id n ≡ ok n' → WorkStep b n n'
  start : n' ≡ open_round n → WorkStep b n n'
  offer :
      (rcc : Option (List IbftMessage)) (m : IbftMessage)
      → build_proposal b (get_view n.state) rcc ≡ ok (some m)
      → n' ≡ propose m n
      → WorkStep b n n'
  run :
      (done : Bool)
      → handle_event b n.state.name (get_view n.state) n ≡ ok (n', done)
      → WorkStep b n n'
  watch :
      (v : View) (got : Option IbftMessage)
      → handle_pre_prepare b v n ≡ ok (n', got)
      → WorkStep b n n'

-- What can happen to a node within a sequence: work, or a reaction of the main loop. `view` is the view
-- at which the current round began, which the workers keep.
pub data Step (b : Backend) (n : Node) (n' : Node) : Type 0 where
  work : WorkStep b n n' → Step b n n'
  jump :
      (round : ℕ) (m : IbftMessage)
      → on_new_proposal b (get_view n.state) round m n ≡ ok n'
      → Step b n n'
  hop : (round : ℕ) → n' ≡ on_round_certificate round n → Step b n n'
  expire : n' ≡ on_round_expired b n.state.view.height (get_view n.state) n → Step b n n'
  finish : n.state.name ≡ fin → n' ≡ insert_block n → Step b n n'
