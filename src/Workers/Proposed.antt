-- ===== src/Workers/Proposed.antt =====
-- `handlePrePrepare` and `runNewRound` are the same whatever the subscriptions are.
use mathlib.Core.Path.{fun_ext}
use go_ibft.Prelude.{
  ℕ, ◌≡◌, refl, ap, true, false, Option, none, some, List, [], ◌∷◌, nat_eq, str_eq, contains, arith,
  Result, ok, panic, ◌>>=◌, >>=-eq-ok, Bool, not, ◌==◌, if◌then◌else◌,
}
use go_ibft.Proto.{
  View, Proposal, IbftMessage, Bytes, view_of, round_change, preprepare, prepare, commit, pc_ref,
  nil_pc, PreparedRef,
}
use go_ibft.State.{new_round, get_view, State}
use go_ibft.State
use go_ibft.Extract.{
  extract_proposal, extract_round_change_certificate, deref_view, has_unique_senders,
  extract_proposal_hash, extract_latest_pc,
}
use go_ibft.Events.{EventManager}
use go_ibft.Events.Manager.{ids, IsCounted}
use go_ibft.Events.Open.{KeepsOpen}
use go_ibft.Messages.{Messages, get_valid_messages, get_proto_messages}
use go_ibft.Backend.{Backend}
use go_ibft.Node.{Node, has_quorum_by_msg_type, send_prepare_message, accept_proposal}
use go_ibft.Node.Listening.{set_event_manager}
use go_ibft.Proposals.{
  handle_pre_prepare, is_valid_preprepare, validate_proposal, validate_with_rcc, prepared_entries,
  prepared_entry, valid_round_changes, matches_prepared, validate_proposal0,
  validate_proposal_common, with_certificate,
}
use go_ibft.Rounds.{handle_event, take_proposal}
use go_ibft.Workers.{Event, ready, finished, run_worker}
use go_ibft.Node.Leaving.{Leaves}
use go_ibft.Workers.Turning.{run_worker_turn}

prepared_entry-same :
    (b : Backend) (em : EventManager) (n : Node) (limit height : ℕ) (pc : PreparedRef)
    → prepared_entry b (set_event_manager em n) limit height pc ≡ prepared_entry b n limit height pc
unfolding prepared_entry
prepared_entry-same b em n limit height nil_pc = refl
prepared_entry-same b em n limit height (pc_ref cert) = refl

prepared_entries-same :
    (b : Backend) (em : EventManager) (n : Node) (limit height : ℕ) (rcs : List IbftMessage)
    → prepared_entries b (set_event_manager em n) limit height rcs
      ≡ prepared_entries b n limit height rcs
unfolding prepared_entries
prepared_entries-same b em n limit height [] = refl
prepared_entries-same b em n limit height (rc ∷ rcs) = rw (
  prepared_entry-same b em n limit height (extract_latest_pc rc),
  prepared_entries-same b em n limit height rcs,
)

validate_with_rcc-same :
    (b : Backend) (em : EventManager) (n : Node) (m : IbftMessage) (v : View) (p : Proposal)
    (rcs : List IbftMessage)
    → validate_with_rcc b (set_event_manager em n) m v p rcs ≡ validate_with_rcc b n m v p rcs
unfolding validate_with_rcc has_quorum_by_msg_type
validate_with_rcc-same b em n m v p rcs =
    let same : prepared_entries b (set_event_manager em n) ≡ prepared_entries b n =
      fun_ext (λ limit. fun_ext (λ height. fun_ext (prepared_entries-same b em n limit height))) in
    ap
      (λ (entries : ℕ → ℕ → List IbftMessage → Result (List (ℕ × Bytes))).
        if not (has_unique_senders rcs)
        then ok false
        else if not (has_quorum_by_msg_type n rcs round_change)
        then ok false
        else if b.is_proposer b.id v.height v.round
        then ok false
        else do
          good ← valid_round_changes b v rcs
          elim good [
            | false ↦ ok false
            | true ↦
                deref_view (view_of m)
                  λ mv. do found ← entries mv.round v.height rcs; ok (matches_prepared b p found)
          ])
      same

is_valid_preprepare-same :
    (b : Backend) (em : EventManager) (n : Node) (v : View)
    → is_valid_preprepare b (set_event_manager em n) v ≡ is_valid_preprepare b n v
unfolding is_valid_preprepare validate_proposal
is_valid_preprepare-same b em n v =
    let same : validate_with_rcc b (set_event_manager em n) ≡ validate_with_rcc b n =
      fun_ext (λ m. fun_ext (λ w. fun_ext (λ p. fun_ext (validate_with_rcc-same b em n m w p)))) in
    ap {B = IbftMessage → Result Bool}
      (λ (f : IbftMessage → View → Proposal → List IbftMessage → Result Bool) m.
        if v.round == 0
        then validate_proposal0 b m v
        else validate_proposal_common b m v >>= λ common. elim (extract_proposal m) [
          | none ↦ panic
          | some p ↦
              if not common
              then ok false
              else with_certificate (extract_round_change_certificate m) (λ rcs. f m v p rcs)
        ])
      same

get_valid_messages-same :
    (v : View) (check : IbftMessage → Result Bool) (em : EventManager) (ms store : Messages)
    (l : List IbftMessage)
    → get_valid_messages v preprepare check ms ≡ ok (store, l)
    → get_valid_messages v preprepare check (record ms { event_manager = em })
      ≡ ok (record store { event_manager = em }, l)
unfolding get_valid_messages get_proto_messages
get_valid_messages-same v check em ms store l h = ground arith

-- The proposal that is found, and the store that is left.
handle_pre_prepare-same :
    (b : Backend) (v : View) (em : EventManager) (n n' : Node) (got : Option IbftMessage)
    → handle_pre_prepare b v n ≡ ok (n', got)
    → handle_pre_prepare b v (set_event_manager em n) ≡ ok (set_event_manager em n', got)
unfolding handle_pre_prepare
handle_pre_prepare-same b v em n n' got h =
    let ((store, msgs), run, e) =
      >>=-eq-ok (get_valid_messages v preprepare (is_valid_preprepare b n v) n.messages) _ h in
    let run' = get_valid_messages-same v (is_valid_preprepare b n v) em n.messages store msgs run in
    rw (is_valid_preprepare-same b em n v) (ground (arith, run', e))

handle_pre_prepare-Leaves :
    (b : Backend) (v : View) (n n' : Node) (got : Option IbftMessage)
    → handle_pre_prepare b v n ≡ ok (n', got)
    → Leaves prepare n n'
      × Leaves commit n n'
      × (n'.state ≡ n.state)
      × (n'.sent ≡ n.sent)
      × (n'.inserted ≡ n.inserted)
unfolding handle_pre_prepare get_valid_messages
handle_pre_prepare-Leaves b v n n' got h = (
  (ground arith, ground arith),
  (ground arith, ground arith),
  ground arith,
  ground arith,
  ground arith,
)

-- What a node is after a proposal that it has taken, but for the store of proposals and subscriptions.
abbrev pub Proposed : Backend → View → IbftMessage → Node → Node → Type 0
Proposed b v m n n' =
    (n'.state ≡ (accept_proposal (some m) n).state)
    × (n'.sent ≡ b.build_prepare_message (extract_proposal_hash m) v ∷ n.sent)
    × Leaves prepare n n'
    × Leaves commit n n'

take_proposal-takes :
    (b : Backend) (v : View) (em : EventManager) (n n' : Node) (m : IbftMessage)
    → handle_pre_prepare b v n ≡ ok (n', some m)
    → (x : Node) × (take_proposal b v (set_event_manager em n) ≡ ok (x, true))
      × (x.messages.event_manager ≡ em)
      × Proposed b v m n x
unfolding take_proposal send_prepare_message State.get_proposal_hash State.set_proposal_message
    State.change_state accept_proposal
take_proposal-takes b v em n n' m h =
    let (prepares, commits, same, out, blocks) = handle_pre_prepare-Leaves b v n n' (some m) h in
    let got = handle_pre_prepare-same b v em n n' (some m) h in
    (
      record n' {
        messages = record n'.messages { event_manager = em };
        state = record n'.state { proposal_message = some m; name = State.StateType.prepare };
        sent = b.build_prepare_message (extract_proposal_hash m) v ∷ n'.sent;
      },
      ground (arith, got),
      refl,
      (
        ap {B = State}
            (λ (s : State). record s { proposal_message = some m; name = State.StateType.prepare })
            same,
        ap (λ l. b.build_prepare_message (extract_proposal_hash m) v ∷ l) out,
        prepares,
        commits,
      ),
    )

-- Where a node in the new round state holds a proposal message of its view that passes the check,
-- `runNewRound` returns as soon as its subscription wakes it, has sent the prepare message, and leaves the
-- node in the prepare state with the proposal accepted: for a counted manager and a new identifier. Its
-- subscription is gone, and the others are open as before.
pub run_worker-proposes :
    (b : Backend) (id r : ℕ) (es : List Event) (n n₀ : Node) (m : IbftMessage)
    → IsCounted n.messages.event_manager
    → contains (ids n.messages.event_manager.subscriptions) id ≡ false
    → handle_pre_prepare b (get_view n.state) n ≡ ok (n₀, some m)
    → (n' : Node) × (run_worker b new_round id (ready r ∷ es) n ≡ ok (finished tt n' es))
      × Proposed b (get_view n.state) m n n'
      × KeepsOpen n.messages.event_manager n'.messages.event_manager
unfolding handle_event
run_worker-proposes b id r es n n₀ m c new h =
    run_worker_turn (Proposed b (get_view n.state) m n) b new_round id r es n refl c new
      (λ em x p. p) (λ em. take_proposal-takes b (get_view n.state) em n n₀ m h)
