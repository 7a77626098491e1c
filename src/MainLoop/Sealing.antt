-- ===== src/MainLoop/Sealing.antt =====
-- The blocks that a sequence inserts, and the views in which they were sealed.
use mathlib.Core.Path.{subst, ap₂}
use go_ibft.Prelude.{
  ℕ, ◌≡◌, ◌≢◌, sym, ap, ◌∙◌, Bool, true, none, some, [], arith, inl, inr, ok, All, Option-cases,
}
use go_ibft.Proto.{Proposal, IbftMessage}
use go_ibft.State.{
  State, fin, get_proposal, get_view, reset, change_state, set_proposal_message, set_view,
  set_round_started, get_raw_data_from_proposal,
}
use go_ibft.Validators.{ValidatorManager}
use go_ibft.Messages.WellFormed.{IsWellFormed}
use go_ibft.Messages.Only.{
  Only, add_message-Only, get_valid_messages-Only, prune_by_height-Only, signals-Only,
}
use go_ibft.Backend.{Backend}
use go_ibft.Node.{
  Node, insert_block, move_to_new_round, accept_proposal, send_prepare_message,
  send_round_change_message,
}
use go_ibft.Rounds.{on_new_proposal, on_round_certificate, on_round_expired, begin_sequence, work}
use go_ibft.Rounds.Invariant.{Inv}
use go_ibft.Rounds.Safety.{Reach, Reach-Inv}
use go_ibft.Rounds.Safety
use go_ibft.Rounds.Storing.{KeptByStore, Reach_kept, sequence_kept}
use go_ibft.Rounds.Sequence.{sequence-Inv}
use go_ibft.Rounds.Filed.{well_formed}
use go_ibft.Rounds.Working.{Works, here, next, Works-view}
use go_ibft.Rounds.Fitting.{
  HasRound, Builds, SealedIn, IsSealedIn, Fits, proposed-Fits, fresh-Fits,
  is_valid_preprepare-HasRound,
}
use go_ibft.MainLoop.{
  Signal, new_proposal, round_certificate, round_expired, round_done, sequence_cancelled, on_signal,
  Sent, pass, Runs, begun, again,
}
use go_ibft.MainLoop.Passes.{
  HasHeight, begin_sequence-HasHeight, on_signal-Reach, on_signal-HasHeight,
}
use go_ibft.MainLoop.Committed.{IsSound}
use go_ibft.MainLoop.Fitting.{WorkStep-Fits}

signed : (b : Backend) → KeptByStore b (Only (λ m. b.is_valid_validator m ≡ true))
signed b =
    let Q : IbftMessage → Type 0 = λ m. b.is_valid_validator m ≡ true in
    record {
      signals = signals-Only Q;
      adds = λ m ms ms' good. add_message-Only Q m ms ms' good;
      gets = get_valid_messages-Only Q;
      prunes = prune_by_height-Only Q;
    }

-- What is known of a node in a sequence.
pub record IsFit (b : Backend) (vm : ValidatorManager) (h : ℕ) (n : Node) : Type 0 where
  pub inv : Inv b vm n
  pub sound : IsSound b n
  pub fits : Fits b vm h n

Reach-IsFit :
    {b : Backend} {vm : ValidatorManager} {h : ℕ} {n n' : Node}
    → Reach b n n'
    → IsFit b vm h n
    → Fits b vm h n'
    → IsFit b vm h n'
Reach-IsFit {b = b} r i f = record {
  inv = Reach-Inv r i.inv;
  sound = record {
    filed = Reach_kept b IsWellFormed (well_formed b) r i.sound.filed;
    signed = Reach_kept b (Only (λ m. b.is_valid_validator m ≡ true)) (signed b) r i.sound.signed;
  };
  fits = f;
}

Works-IsFit :
    {b : Backend} {vm : ValidatorManager} {h : ℕ} {n n' : Node}
    → Builds b
    → Works b n n'
    → IsFit b vm h n
    → IsFit b vm h n'
Works-IsFit builds here i = i
Works-IsFit builds (next {n' = m} {n'' = m'} w s) i =
    let j = Works-IsFit builds w i in
    Reach-IsFit (Safety.next {n' = m} {n'' = m'} Safety.here (work s)) j
      (WorkStep-Fits m m' builds j.inv.same_validators s j.sound j.fits)

-- A proposal of its round is the one that the block is made of.
get_proposal-block :
    (s : State)
    → s.proposal_message ≢ none
    → ((m : IbftMessage) → s.proposal_message ≡ some m → HasRound s.view.round m)
    → get_proposal s
      ≡ some (record { raw_proposal = get_raw_data_from_proposal s; round = s.view.round })
unfolding get_raw_data_from_proposal get_proposal
get_proposal-block s has fits = elim (Option-cases s.proposal_message) [
  | inl q ↦ absurd (has q)
  | inr (m, q) ↦
      let (p, carried, of_round) = fits m q in
      let is : get_proposal s ≡ some p = ground (arith, q, carried) in
      let raw : get_raw_data_from_proposal s ≡ p.raw_proposal = ground (arith, q, carried) in
      is ∙ ap₂ (λ r k. some (record { raw_proposal = r; round = k })) (sym raw) of_round
]

-- The block of the final state has its proposal and its round.
insert_block-Fits :
    {b : Backend} {vm : ValidatorManager} {h : ℕ} (n : Node)
    → HasHeight h n
    → n.state.name ≡ fin
    → n.state.proposal_message ≢ none
    → Fits b vm h n
    → Fits b vm h (insert_block n)
unfolding insert_block
insert_block-Fits {b = b} {vm = vm} {h = h} n at e has f =
    let s = n.state in
    let block : Proposal = record {
      raw_proposal = get_raw_data_from_proposal s;
      round = s.view.round;
    } in
    let in_view : s.view ≡ record { height = h; round = s.view.round } =
      ap (λ x. record { height = x; round = s.view.round }) at in
    record {
      has_round = f.has_round;
      sealed = f.sealed;
      blocks = (
        subst (λ v. SealedIn b vm v (some block) s.seals) in_view
            (subst (λ o. SealedIn b vm s.view o s.seals) (get_proposal-block s has f.has_round)
              (f.sealed e)),
        f.blocks,
      );
    }

on_signal-Fits :
    {b : Backend} {vm : ValidatorManager} {h : ℕ} (n m n' : Node) (s : Signal) (returned : Bool)
    → HasHeight h m
    → Sent b n m s
    → on_signal b h (get_view n.state) s m ≡ ok (n', returned)
    → Inv b vm m
    → Fits b vm h m
    → Fits b vm h n'
unfolding on_signal get_view on_new_proposal on_round_certificate on_round_expired move_to_new_round
    accept_proposal send_prepare_message send_round_change_message set_proposal_message set_view
    change_state set_round_started
on_signal-Fits {b = b} n m n' (new_proposal p round) returned at (k, w, good) run inv f =
    let carried =
      is_valid_preprepare-HasRound b k (record { height = n.state.view.height; round = round }) p
        good in
    let round_of : n'.state.view.round ≡ round = ground arith in
    proposed-Fits m n' p (ground arith) (rw round_of carried) (ground arith) (ground arith) f
on_signal-Fits n m n' (round_certificate round) returned at sent run inv f =
    fresh-Fits m n' (ground arith) (ground arith) (ground arith) f
on_signal-Fits n m n' round_expired returned at sent run inv f =
    fresh-Fits m n' (ground arith) (ground arith) (ground arith) f
on_signal-Fits {b = b} {vm = vm} {h = h} n m n' round_done returned at sent run inv f =
    let same : insert_block m ≡ n' = ground arith in
    subst (Fits b vm h) same
      (insert_block-Fits m at sent (inv.has_proposal (ground (arith, sent))) f)
on_signal-Fits {b = b} {vm = vm} {h = h} n m n' sequence_cancelled returned at sent run inv f =
    let same : m ≡ n' = ground arith in subst (Fits b vm h) same f

pub runs-IsFit :
    {b : Backend} {vm : ValidatorManager} {h : ℕ} {n n' : Node} {returned : Bool}
    → Builds b
    → Runs b h n n' returned
    → HasHeight h n
    → IsFit b vm h n
    → IsFit b vm h n' × HasHeight h n'
runs-IsFit builds begun at i = (i, at)
runs-IsFit {b = b} {h = h} {n' = n'} {returned = returned} builds
      (again {m = m} rs (pass s k w sent run)) at i =
    let (j, at_m) = runs-IsFit builds rs at i in
    let jk = Works-IsFit builds w j in
    let at_k = ap (λ v. v.height) (Works-view w) ∙ at_m in
    (
      Reach-IsFit (on_signal-Reach b h k m k n' s returned at_m (Works-view w) Safety.here sent run)
          jk (on_signal-Fits m k n' s returned at_k sent run jk.inv jk.fits),
      on_signal-HasHeight b h (get_view m.state) k n' s returned at_k run,
    )

-- The start of a sequence.
begin_sequence-IsFit :
    (b : Backend) (h : ℕ) (n n' : Node)
    → begin_sequence b h n ≡ (n', none)
    → n.inserted ≡ []
    → IsSound b n
    → IsFit b n'.validator_manager h n'
unfolding begin_sequence reset
begin_sequence-IsFit b h n n' e empty s = record {
  inv = sequence-Inv b h n n' n' empty e Safety.here;
  sound = record {
    filed = sequence_kept b IsWellFormed (well_formed b) h n n' n' e s.filed Safety.here;
    signed =
        sequence_kept b (Only (λ m. b.is_valid_validator m ≡ true)) (signed b) h n n' n' e s.signed
          Safety.here;
  };
  fits = record {
    has_round = λ m q. absurd (ground (arith, e, q));
    sealed = λ q. absurd (ground (arith, e, q));
    blocks =
        let same : n'.inserted ≡ [] = ground (arith, e, empty) in
        subst (λ l. All (IsSealedIn b n'.validator_manager h) l) (sym same) tt;
  };
}

-- Where a node that had inserted nothing runs a sequence that started without an error, its store held
-- signed messages in their places, and its backend builds proposals of the round asked for: every block
-- that it inserts has seals of a quorum of signed commit messages in the view of the height and of
-- the block's round, each with a valid seal and with a hash that is valid for that very block.
pub run_sequence-IsSealedIn :
    (b : Backend) (h : ℕ) (n n' n'' : Node) (returned : Bool)
    → Builds b
    → begin_sequence b h n ≡ (n', none)
    → n.inserted ≡ []
    → IsSound b n
    → Runs b h n' n'' returned
    → All (IsSealedIn b n'.validator_manager h) n''.inserted
run_sequence-IsSealedIn b h n n' n'' returned builds e empty s rs =
    (runs-IsFit builds rs (begin_sequence-HasHeight b h n n' e)
      (begin_sequence-IsFit b h n n' e empty s)).0.fits.blocks
