-- ===== src/Rounds/Carrying.antt =====
-- The round change message of a node that has prepared a proposal, and what another node says of it.
use go_ibft.Prelude.{ℕ, ◌<◌, ◌≡◌, ◌∙◌, refl, true, Option, some, ◌∷◌, Str, arith, All, ok, str_eq}
use go_ibft.Proto.{
  Bytes, View, Proposal, prepare, IbftMessage, PreparedRef, sender, view_of, bytes_equal, to_string,
}
use go_ibft.Extract.{extract_proposal, extract_latest_pc, extract_last_prepared_proposal}
use go_ibft.State.{change_state, set_proposal_message, set_view, set_round_started}
use go_ibft.Messages.{get_proto_messages}
use go_ibft.Messages.WellFormed.{IsWellFormed}
use go_ibft.Backend.{Backend}
use go_ibft.Node.{Node, handle_prepare, move_to_new_round, send_round_change_message, pc_pointer}
use go_ibft.Certificate.{valid_pc, proposal_matches_certificate}
use go_ibft.Certificate.Kept.{Accepted}
use go_ibft.Certificate.Same.{SameChecks, valid_pc-same, proposal_matches_certificate-same}
use go_ibft.Rounds.Keeping.{Continues, Continues-Holding, handle_prepare-Holding}
use go_ibft.Certificate.Made.{handle_prepare-valid_pc}
use go_ibft.Rounds.{on_round_expired, next_round, is_valid_round_change}

-- The round change message that the backend builds has the parts that it is given.
abbrev pub Carries : Backend → Type 0
Carries b =
    (p : Option Proposal) (c : PreparedRef) (w : View)
    → let x = b.build_round_change_message p c w in
      (view_of x ≡ some w) × (extract_latest_pc x ≡ c) × (extract_last_prepared_proposal x ≡ p)

is_valid_round_change-parts :
    (b : Backend) (n : Node) (height : ℕ) (w : View) (p : Option Proposal) (c : PreparedRef)
    (x : IbftMessage)
    → (view_of x ≡ some w) × (extract_latest_pc x ≡ c) × (extract_last_prepared_proposal x ≡ p)
    → (valid_pc b n.validator_manager c w.round height ≡ ok true)
      × (proposal_matches_certificate b p c ≡ ok true)
    → is_valid_round_change b n height x ≡ ok true
unfolding is_valid_round_change
is_valid_round_change-parts b n height w p c x (e, f, g) (valid, matches) =
    ground (arith, e, f, g, valid, matches)

on_round_expired-sent :
    (b : Backend) (h : ℕ) (v : View) (n : Node)
    → (on_round_expired b h v n).sent
      ≡ b.build_round_change_message n.state.latest_prepared_proposal
          (pc_pointer n.state.latest_pc)
          (record { height = h; round = next_round v.round })
        ∷ n.sent
unfolding on_round_expired send_round_change_message move_to_new_round change_state
    set_proposal_message set_view set_round_started
on_round_expired-sent b h v n = refl

-- When the timer of a round expires in which a node has prepared a proposal, and since then has gone on with
-- the round, its messages and its watchers, the round change message that it sends for the next round passes
-- the check of any node with the same validators whose backend has the same checks, if the backend
-- puts the parts that it is given into the message, the round is not the last one of 64 bits, and for the
-- certificate: the store was well formed, the proposal a valid one of the proposer, the prepare messages
-- from validators, no other hash valid for the proposal, and no other sender the proposer.
pub on_round_expired-valid :
    (b c : Backend) (v : View) (n n' k other : Node) (m : IbftMessage) (h : Str)
    → Accepted b v n m h
    → IsWellFormed n.messages
    → All (λ e. b.is_valid_validator e.1 ≡ true) (get_proto_messages v prepare n.messages)
    → ((x : Bytes)
        → b.is_valid_proposal_hash (extract_proposal m) x ≡ true
        → bytes_equal (some h) x ≡ true)
    → ((x : Bytes) → b.is_proposer x v.height v.round ≡ true → to_string x ≡ sender m)
    → v.round < next_round v.round
    → Carries b
    → SameChecks b c
    → other.validator_manager ≡ n.validator_manager
    → handle_prepare b v n ≡ ok (n', true)
    → Continues b n' k
    → (x : IbftMessage) × ((on_round_expired b v.height v k).sent ≡ x ∷ k.sent)
      × (view_of x ≡ some (record { height = v.height; round = next_round v.round }))
      × (is_valid_round_change c other v.height x ≡ ok true)
on_round_expired-valid b c v n n' k other m h a w good one sole below carries alike same run later =
    let next : View = record { height = v.height; round = next_round v.round } in
    let p = k.state.latest_prepared_proposal in
    let pc = pc_pointer k.state.latest_pc in
    let kept = Continues-Holding later (handle_prepare-Holding b v n n' run) in
    let checks =
      handle_prepare-valid_pc b v n n' m h (next_round v.round) a w good one sole below run in
    let parts = carries p pc next in
    (
      b.build_round_change_message p pc next,
      on_round_expired-sent b v.height v k,
      parts.0,
      is_valid_round_change-parts c other v.height next p pc
          (b.build_round_change_message p pc next) parts
          (
            valid_pc-same b c alike other.validator_manager pc next.round v.height
                ∙ rw (same, kept.latest_pc) checks.0,
            proposal_matches_certificate-same b c alike p pc
                ∙ rw (kept.latest_pc, kept.latest_prepared_proposal) checks.1,
          ),
    )
