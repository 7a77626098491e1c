-- ===== src/MainLoop/Finishing.antt =====
-- A round that ends with a block.
use mathlib.Core.Path.{subst, ap₂}
use go_ibft.Prelude.{
  ℕ, ◌≡◌, refl, ap, ◌∙◌, Option, true, false, some, List, [], ◌∷◌, map, ok, inl, inr, arith,
}
use go_ibft.Proto.{View, IbftMessage, nil_rcc}
use go_ibft.Extract.{extract_proposal_hash, extract_proposal, extract_committed_seal}
use go_ibft.State.{
  StateType, new_round, get_view, get_raw_data_from_proposal, get_proposal, set_proposal_message,
  change_state, State,
}
use go_ibft.Backend.{Backend}
use go_ibft.Node.{Node, Inserted, accept_proposal, insert_block}
use go_ibft.Node.Committing.{committed, valid_commits}
use go_ibft.Node.Preparing.{prepared}
use go_ibft.Node.Leaving.{finished_state}
use go_ibft.Proposals.{handle_pre_prepare}
use go_ibft.Rounds.{build_proposal, propose, open_round}
use go_ibft.Rounds.Invariant.{raw_of}
use go_ibft.Rounds.Working.{Works, Works-inserted}
use go_ibft.Workers.{Event, node_of, ready, finished, start_round, wait_and_build, run_states}
use go_ibft.Workers.Opening.{start_round_lem}
use go_ibft.Workers.Finishing.{IsReady, run_states-finishes, run_states-prepares}
use go_ibft.MainLoop.{Pass, pass, round_done, on_signal}

-- The subscription of each worker wakes it, and then the main loop takes the signal.
abbrev pub woken : List Event
woken = ready 0 ∷ ready 0 ∷ ready 0 ∷ ready 0 ∷ []

start_round-Works :
    (b : Backend) (id : ℕ) (sub : StateType → ℕ) (es : List Event) (n k : Node)
    → start_round b id sub 4 es n ≡ ok (some (finished tt k []))
    → Works b n k
start_round-Works b id sub es n k run = elim (start_round_lem b id sub es n) [
  | inl p ↦ absurd (ground (arith, run, p))
  | inr (out, e, w, f) ↦
      let same : out ≡ finished tt k [] = ground (arith, run, e) in
      subst (λ o. Works b n (node_of o)) same w
]

-- The block that a finished round inserts.
insert_block-finished :
    (b : Backend) (v : View) (n k : Node) (m : IbftMessage)
    → n.state.proposal_message ≡ some m
    → n.state.view ≡ v
    → k.state ≡ finished_state b v n m
    → (insert_block k).inserted
      ≡ record {
        proposal = record { raw_proposal = raw_of (extract_proposal m); round = v.round };
        seals = map extract_committed_seal (valid_commits b v n);
      }
        ∷ k.inserted
unfolding insert_block get_raw_data_from_proposal get_proposal extract_proposal
insert_block-finished b v n k m p at e =
    let inserted : State → List Inserted = λ s.
      record {
        proposal = record { raw_proposal = get_raw_data_from_proposal s; round = s.view.round };
        seals = s.seals;
      }
      ∷ k.inserted in
    ap inserted e
    ∙ ap₂
        (λ (o : Option IbftMessage) (w : View).
          record {
            proposal = record {
              raw_proposal = get_raw_data_from_proposal (record n.state { proposal_message = o });
              round = w.round;
            };
            seals = map extract_committed_seal (valid_commits b v n);
          }
          ∷ k.inserted)
        p at

-- A round that begins in the new round state, of a node that is not its proposer and that holds a proposal
-- message of the view that passes the check, and for this proposal a prepare quorum and a quorum of valid
-- commit messages: `startRound` returns once its workers are woken, and in the pass of `RunSequence` that
-- takes its signal, which is its last, one block is inserted. It has the raw proposal of the message, the
-- round, and the seals of these commit messages. The node has sent the prepare and the commit message for
-- the proposal. The store is well formed, the manager counted and the
-- identifiers of the subscriptions new.
pub Pass-inserts :
    (b : Backend) (h id : ℕ) (sub : StateType → ℕ) (n n₀ : Node) (m : IbftMessage)
    → let opened = open_round n in
      let v = get_view opened.state in
      let accepting = accept_proposal (some m) opened in
      IsReady sub n
      → opened.state.name ≡ new_round
      → b.is_proposer b.id v.height v.round ≡ false
      → handle_pre_prepare b v opened ≡ ok (n₀, some m)
      → prepared b v accepting ≡ true
      → committed b v accepting ≡ true
      → (k : Node) × (start_round b id sub 4 woken n ≡ ok (some (finished tt k [])))
        × Pass b h n (insert_block k) true
        × ((insert_block k).inserted
            ≡ record {
              proposal = record { raw_proposal = raw_of (extract_proposal m); round = v.round };
              seals = map extract_committed_seal (valid_commits b v accepting);
            }
              ∷ n.inserted)
        × ((insert_block k).sent
            ≡ b.build_commit_message (extract_proposal_hash m) v
              ∷ b.build_prepare_message (extract_proposal_hash m) v
              ∷ n.sent)
unfolding insert_block open_round on_signal accept_proposal set_proposal_message change_state
    get_view start_round
Pass-inserts b h id sub n n₀ m i e other got q c =
    let opened : Node = open_round n in
    let v : View = get_view opened.state in
    let accepting : Node = accept_proposal (some m) opened in
    let (k, run, state, sent) =
      run_states-finishes b sub 0 0 0 0 [] opened n₀ m
        (record { filed = i.filed; counted = i.counted; new = i.new }) e got q c in
    let ran : start_round b id sub 4 woken n ≡ ok (some (finished tt k [])) =
      rw (other, start_round) run in
    let works = start_round-Works b id sub woken n k ran in
    (
      k,
      ran,
      pass round_done k works (ap (λ s. s.name) state) refl,
      insert_block-finished b v accepting k m refl refl state
          ∙ ap
              (λ l.
                record {
                  proposal = record { raw_proposal = raw_of (extract_proposal m); round = v.round };
                  seals = map extract_committed_seal (valid_commits b v accepting);
                }
                ∷ l)
              (Works-inserted works),
      sent,
    )

wait_and_build-zero :
    (b : Backend) (id : ℕ) (v : View) (es : List Event) (n : Node)
    → v.round ≡ 0
    → wait_and_build b id v es n
      ≡ ok (finished (b.build_preprepare_message (b.build_proposal v) nil_rcc v) n es)
unfolding wait_and_build build_proposal
wait_and_build-zero b id v es n zero_round = rw (zero_round) refl

start_round-proposes :
    (b : Backend) (id : ℕ) (sub : StateType → ℕ) (es : List Event) (n' n : Node) (m : IbftMessage)
    → let v = get_view (open_round n).state in
      b.is_proposer b.id v.height v.round ≡ true
      → wait_and_build b id v es (open_round n) ≡ ok (finished m (open_round n) es)
      → run_states b sub 4 es (propose m (open_round n)) ≡ ok (some (finished tt n' []))
      → start_round b id sub 4 es n ≡ ok (some (finished tt n' []))
unfolding start_round
start_round-proposes b id sub es n' n m leads built run = rw (start_round, leads, built) run

-- A round 0 that begins with a node that is its proposer, and that holds a prepare quorum and a quorum of
-- valid commit messages for the proposal that it builds: `startRound` proposes, returns once its workers are
-- woken, and in the pass of `RunSequence` that takes its signal, which is its last, one block is inserted.
-- It has the raw proposal of the message built, round 0, and the seals of these commit messages. The node
-- has sent the proposal and the commit message for it. The store is well formed, the manager counted and
-- the identifiers of the subscriptions new.
pub Pass-inserts_own :
    (b : Backend) (h id : ℕ) (sub : StateType → ℕ) (n : Node)
    → let opened = open_round n in
      let v = get_view opened.state in
      let m = b.build_preprepare_message (b.build_proposal v) nil_rcc v in
      let accepting = accept_proposal (some m) opened in
      IsReady sub n
      → v.round ≡ 0
      → b.is_proposer b.id v.height v.round ≡ true
      → prepared b v accepting ≡ true
      → committed b v accepting ≡ true
      → (k : Node) × (start_round b id sub 4 (ready 0 ∷ ready 0 ∷ ready 0 ∷ []) n
          ≡ ok (some (finished tt k [])))
        × Pass b h n (insert_block k) true
        × ((insert_block k).inserted
            ≡ record {
              proposal = record { raw_proposal = raw_of (extract_proposal m); round = 0 };
              seals = map extract_committed_seal (valid_commits b v accepting);
            }
              ∷ n.inserted)
        × ((insert_block k).sent ≡ b.build_commit_message (extract_proposal_hash m) v ∷ m ∷ n.sent)
unfolding insert_block open_round on_signal accept_proposal set_proposal_message change_state
    get_view start_round propose wait_and_build build_proposal
Pass-inserts_own b h id sub n i zero_round leads q c =
    let opened : Node = open_round n in
    let v : View = get_view opened.state in
    let m = b.build_preprepare_message (b.build_proposal v) nil_rcc v in
    let accepting : Node = accept_proposal (some m) opened in
    let es = ready 0 ∷ ready 0 ∷ ready 0 ∷ [] in
    let built = wait_and_build-zero b id v es opened zero_round in
    let (k, run, state, sent) =
      run_states-prepares b sub 1 0 0 0 [] (propose m opened) v m
        (record { filed = i.filed; counted = i.counted; new = i.new }) refl refl refl q c in
    let ran : start_round b id sub 4 es n ≡ ok (some (finished tt k [])) =
      start_round-proposes b id sub es k n m leads built run in
    let works = start_round-Works b id sub es n k ran in
    (
      k,
      ran,
      pass round_done k works (ap (λ s. s.name) state) refl,
      insert_block-finished b v accepting k m refl refl state
          ∙ ap₂
              (λ (r : ℕ) (l : List Inserted).
                record {
                  proposal = record { raw_proposal = raw_of (extract_proposal m); round = r };
                  seals = map extract_committed_seal (valid_commits b v accepting);
                }
                ∷ l)
              zero_round (Works-inserted works),
      sent,
    )
