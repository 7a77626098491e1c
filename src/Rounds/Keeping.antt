-- ===== src/Rounds/Keeping.antt =====
-- What a node that has prepared a proposal keeps until its round ends (`runCommit`, `runFin` of
-- core/ibft.go and what arrives meanwhile).
use go_ibft.Prelude.{◌≡◌, refl, sym, ◌∙◌, ◌⊎◌, inl, arith, Bool, true, Option, ok}
use go_ibft.Proto.{View, Proposal, PreparedCertificate}
use go_ibft.State.{
  StateType, new_round, prepare, commit, fin, change_state, set_committed_seals, get_view,
  finalize_prepare,
}
use go_ibft.Backend.{Backend}
use go_ibft.Node.{Node, handle_prepare, handle_commit, send_commit_message, notify_if_quorum}
use go_ibft.Node.Listening.{subscribe, unsubscribe}
use go_ibft.Rounds.{WorkStep, deliver, listen, unlisten, start, offer, run, watch, handle_event}
use go_ibft.Rounds.Invariant.{Keeps, add_message-Keeps}
use go_ibft.Rounds.Starting.{handle_pre_prepare-Keeps}

-- A step of work in a round that has begun, its proposal made.
abbrev pub IsUnderway : {b : Backend} {n n' : Node} → WorkStep b n n' → Type 0
IsUnderway (start e) = ⊥
IsUnderway (offer rcc m h e) = ⊥
IsUnderway s = Unit

-- The work in a round that has begun, its proposal made, from one node to another.
pub data Continues (b : Backend) (n : Node) : Node → Type 0 where
  here : Continues b n n
  next :
      {n' n'' : Node}
      → Continues b n n'
      → (s : WorkStep b n' n'') → IsUnderway s
      → Continues b n n''

-- The node waits for commit messages or is done, with that certificate and proposal.
pub record Holding (pc : Option PreparedCertificate) (p : Option Proposal) (n : Node) : Type 0 where
  pub waits : (n.state.name ≡ commit) ⊎ (n.state.name ≡ fin)
  pub latest_pc : n.state.latest_pc ≡ pc
  pub latest_prepared_proposal : n.state.latest_prepared_proposal ≡ p

Keeps-Holding :
    {pc : Option PreparedCertificate} {p : Option Proposal} (n n' : Node)
    → Keeps n n'
    → Holding pc p n
    → Holding pc p n'
Keeps-Holding n n' k i = record {
  waits = rw k.state i.waits;
  latest_pc = rw k.state i.latest_pc;
  latest_prepared_proposal = rw k.state i.latest_prepared_proposal;
}

handle_event-Holding :
    (b : Backend) {pc : Option PreparedCertificate} {p : Option Proposal} (t : StateType) (v : View)
    (n n' : Node) (done : Bool)
    → n.state.name ≡ t
    → handle_event b t v n ≡ ok (n', done)
    → Holding pc p n
    → Holding pc p n'
unfolding handle_event handle_commit change_state set_committed_seals
handle_event-Holding b new_round v n n' done e h i = absurd (ground (arith, i.waits))
handle_event-Holding b prepare v n n' done e h i = absurd (ground (arith, i.waits))
handle_event-Holding b commit v n n' done e h i = record {
  waits = ground arith;
  latest_pc = sym (ground arith) ∙ i.latest_pc;
  latest_prepared_proposal = sym (ground arith) ∙ i.latest_prepared_proposal;
}
handle_event-Holding b fin v n n' done e h i = Keeps-Holding n n' (ground arith) i

WorkStep-Holding :
    {b : Backend} {pc : Option PreparedCertificate} {p : Option Proposal} (n n' : Node)
    (s : WorkStep b n n')
    → IsUnderway s
    → Holding pc p n
    → Holding pc p n'
unfolding subscribe unsubscribe notify_if_quorum
WorkStep-Holding {b = b} n n' (deliver m h) u i =
    Keeps-Holding n n' (add_message-Keeps b m n n' h) i
WorkStep-Holding n n' (listen id d h) u i = Keeps-Holding n n' (ground arith) i
WorkStep-Holding n n' (unlisten id h) u i = Keeps-Holding n n' (ground arith) i
WorkStep-Holding n n' (start e) u i = absurd u
WorkStep-Holding n n' (offer rcc m h e) u i = absurd u
WorkStep-Holding {b = b} n n' (run done h) u i =
    handle_event-Holding b n.state.name (get_view n.state) n n' done refl h i
WorkStep-Holding {b = b} n n' (watch v got h) u i =
    Keeps-Holding n n' (handle_pre_prepare-Keeps b v n n' got h) i

pub Continues-Holding :
    {b : Backend} {pc : Option PreparedCertificate} {p : Option Proposal} {n n' : Node}
    → Continues b n n'
    → Holding pc p n
    → Holding pc p n'
Continues-Holding here i = i
Continues-Holding (next {n' = m} {n'' = m'} c s u) i =
    WorkStep-Holding m m' s u (Continues-Holding c i)

pub handle_prepare-Holding :
    (b : Backend) (v : View) (n n' : Node)
    → handle_prepare b v n ≡ ok (n', true)
    → Holding n'.state.latest_pc n'.state.latest_prepared_proposal n'
unfolding handle_prepare send_commit_message finalize_prepare
handle_prepare-Holding b v n n' h = record {
  waits = inl (ground arith);
  latest_pc = refl;
  latest_prepared_proposal = refl;
}
