-- ===== src/Tests/Finishing.antt =====
-- A node that holds the proposal and a quorum of prepare and commit messages for it before its state
-- machine runs.
use mathlib.Core.Path.{subst}
use go_ibft.Prelude.{
  map, ◌≡◌, refl, true, none, some, List, [], ◌∷◌, ok, nat_eq, str_eq, Result, ◌>>=◌, >>=-eq-ok, ℕ,
}
use go_ibft.Proto.{IbftMessage, message, preprepare, preprepare_data, nil_rcc}
use go_ibft.State.{StateType, new_round, prepare, commit, fin, get_view}
use go_ibft.Backend.{Backend}
use go_ibft.Extract.{extract_proposal_hash, extract_proposal, extract_committed_seal}
use go_ibft.Messages.WellFormed.{IsWellFormed, new_messages-IsWellFormed}
use go_ibft.Node.{Node, new_ibft, add_message, accept_proposal, insert_block}
use go_ibft.Node.Committing.{committed, valid_commits}
use go_ibft.Node.Preparing.{prepared}
use go_ibft.Proposals.{handle_pre_prepare}
use go_ibft.Rounds.{deliver, start, open_round}
use go_ibft.Rounds.Safety
use go_ibft.Rounds.Working.{Works, here, next, Works-Reach}
use go_ibft.Rounds.Filed.{sequence-IsWellFormed}
use go_ibft.Workers.{finished, ready, start_round}
use go_ibft.MainLoop.{Pass}
use go_ibft.MainLoop.Finishing.{Pass-inserts, Pass-inserts_own, woken}
use go_ibft.Rounds.Invariant.{raw_of}
use go_ibft.Tests.{address, a_hash}
use go_ibft.Tests.Sequences.{begun, program}
use go_ibft.Tests.Sealing.{
  strict, round_zero, two_prepares, three_commits, commits, prepares, proposes, holding, shapes,
  starts,
}

new_store : IsWellFormed new_ibft.messages
unfolding program
new_store = new_messages-IsWellFormed

abbrev deliver_all : List IbftMessage → Node → Result Node
deliver_all [] n = ok n
deliver_all (m ∷ ms) n = add_message strict (some m) n >>= λ n'. deliver_all ms n'

ok-same : (n n' : Node) → ok n ≡ ok n' → n ≡ n'
ok-same n n' h = cc

deliver_all-Works :
    (ms : List IbftMessage) (n₀ n n' : Node)
    → Works strict n₀ n
    → deliver_all ms n ≡ ok n'
    → Works strict n₀ n'
deliver_all-Works [] n₀ n n' w h = subst (Works strict n₀) (ok-same n n' h) w
deliver_all-Works (m ∷ ms) n₀ n n' w h =
    let (k, run, rest) = >>=-eq-ok (add_message strict (some m) n) _ h in
    deliver_all-Works ms n₀ k n' (next w (deliver (some m) run)) rest

-- The messages of the others, the proposal last.
abbrev early_messages : List IbftMessage
early_messages = commits 2 ∷ commits 3 ∷ commits 4 ∷ prepares 2 ∷ prepares 3 ∷ proposes ∷ []

-- The round has begun.
abbrev holds_all : Node
holds_all = record begun {
  state = record begun.state { round_started = true };
  messages = holding two_prepares three_commits;
}

gets_all : deliver_all early_messages (open_round begun) ≡ ok holds_all
unfolding shapes
gets_all = refl

holds_all-IsWellFormed : IsWellFormed holds_all.messages
holds_all-IsWellFormed = sequence-IsWellFormed strict 5 new_ibft begun holds_all starts new_store (
    Works-Reach Safety.here (
      deliver_all-Works early_messages begun (open_round begun) holds_all
        (next {n' = begun} {n'' = open_round begun} here (start refl)) gets_all))

finds_proposal :
    handle_pre_prepare strict (get_view holds_all.state) holds_all ≡ ok (holds_all, some proposes)
unfolding shapes
finds_proposal = refl

enough_prepares :
    prepared strict (get_view holds_all.state) (accept_proposal (some proposes) holds_all) ≡ true
unfolding shapes accept_proposal
enough_prepares = refl

enough_commits :
    committed strict (get_view holds_all.state) (accept_proposal (some proposes) holds_all) ≡ true
unfolding shapes accept_proposal
enough_commits = refl

abbrev worker_ids : StateType → ℕ
worker_ids new_round = 6
worker_ids prepare = 7
worker_ids commit = 8
worker_ids fin = 9

-- The node before the round.
abbrev before : Node
before = record begun { messages = holding two_prepares three_commits }

is_opened : open_round before ≡ holds_all
unfolding shapes
is_opened = refl

Pass-inserts_example :
    let v = get_view (open_round before).state in
    let accepting = accept_proposal (some proposes) (open_round before) in
    (k : Node) × (start_round strict 5 worker_ids 4 woken before ≡ ok (some (finished tt k [])))
    × Pass strict 5 before (insert_block k) true
    × ((insert_block k).inserted
        ≡ record {
          proposal = record { raw_proposal = raw_of (extract_proposal proposes); round = v.round };
          seals = map extract_committed_seal (valid_commits strict v accepting);
        }
          ∷ before.inserted)
    × ((insert_block k).sent
        ≡ strict.build_commit_message (extract_proposal_hash proposes) v
          ∷ strict.build_prepare_message (extract_proposal_hash proposes) v
          ∷ before.sent)
unfolding shapes
Pass-inserts_example =
    Pass-inserts strict 5 5 worker_ids before holds_all proposes
      (record {
        filed = holds_all-IsWellFormed;
        counted = record { counted = refl; distinct = tt };
        new = λ t. refl;
      })
      refl refl finds_proposal enough_prepares enough_commits

-- The node of the first validator, which is the proposer.
abbrev leader : Backend
leader = record strict {
  id = some (address 1);
  build_preprepare_message = λ raw rcc v.
      message (some v) (some (address 1)) none preprepare
        (preprepare_data (some (record { raw_proposal = raw; round = v.round })) a_hash rcc);
}

abbrev own : IbftMessage
own = leader.build_preprepare_message (leader.build_proposal round_zero) nil_rcc round_zero

own_prepares :
    prepared leader (get_view holds_all.state) (accept_proposal (some own) holds_all) ≡ true
unfolding shapes accept_proposal
own_prepares = refl

own_commits :
    committed leader (get_view holds_all.state) (accept_proposal (some own) holds_all) ≡ true
unfolding shapes accept_proposal
own_commits = refl

Pass-inserts_own_example :
    let accepting = accept_proposal (some own) (open_round before) in
    (k : Node) × (start_round leader 5 worker_ids 4 (ready 0 ∷ ready 0 ∷ ready 0 ∷ []) before
      ≡ ok (some (finished tt k [])))
    × Pass leader 5 before (insert_block k) true
    × ((insert_block k).inserted
        ≡ record {
          proposal = record { raw_proposal = raw_of (extract_proposal own); round = 0 };
          seals = map extract_committed_seal (valid_commits leader round_zero accepting);
        }
          ∷ before.inserted)
    × ((insert_block k).sent
        ≡ leader.build_commit_message (extract_proposal_hash own) round_zero ∷ own ∷ before.sent)
unfolding shapes
Pass-inserts_own_example =
    Pass-inserts_own leader 5 5 worker_ids before
      (record {
        filed = holds_all-IsWellFormed;
        counted = record { counted = refl; distinct = tt };
        new = λ t. refl;
      })
      refl refl own_prepares own_commits
