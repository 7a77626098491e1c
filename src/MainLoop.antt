-- ===== src/MainLoop.antt =====
-- The main loop of `RunSequence` (core/ibft.go): the signal that its select receives from the workers of
-- the round, or the end of its context, and what it does after the teardown.
pub mod Passes
pub mod Turning
pub mod Committed
pub mod Fitting
pub mod Sealing
pub mod Agreeing
pub mod Finishing
pub mod Notifying
use go_ibft.Prelude.{
  ℕ, Bool, true, false, Option, none, some, List, [], ◌∷◌, Result, ok, ◌>>=◌, ◌≡◌,
}
use go_ibft.Proto.{View, IbftMessage}
use go_ibft.State.{fin, get_view}
use go_ibft.Backend.{Backend}
use go_ibft.Node.{Node, insert_block}
use go_ibft.Proposals.{is_valid_preprepare}
use go_ibft.Rounds.{on_new_proposal, on_round_certificate, on_round_expired}
use go_ibft.Rounds.Working.{Works}
use go_ibft.Workers.Watching.{IsChecked}
use go_ibft.Workers.Hopping.{Hops}

pub data Signal : Type 0 where
  new_proposal : IbftMessage → ℕ → Signal
  round_certificate : ℕ → Signal
  round_expired : Signal
  round_done : Signal
  sequence_cancelled : Signal

-- The cases of the select; the flag says that `RunSequence` returns.
unfoldable pub on_signal : Backend → ℕ → View → Signal → Node → Result (Node × Bool)
on_signal b h view (new_proposal m round) n =
    on_new_proposal b view round m n >>= λ n'. ok (n', false)
on_signal b h view (round_certificate round) n = ok (on_round_certificate round n, false)
on_signal b h view round_expired n = ok (on_round_expired b h view n, false)
on_signal b h view round_done n = ok (insert_block n, true)
on_signal b h view sequence_cancelled n = ok (n, true)

-- What a worker has seen that sends the signal, in a round that began with `n` and is torn down with `m`.
abbrev pub Sent : Backend → Node → Node → Signal → Type 0
Sent b n m (new_proposal p round) = IsChecked b n (p, round)
Sent b n m (round_certificate round) = (k : Node) × Works b n k × Hops b (get_view n.state) k round
Sent b n m round_expired = Unit
Sent b n m round_done = m.state.name ≡ fin
Sent b n m sequence_cancelled = Unit

-- One pass of the loop: the workers work until they are torn down, and the loop handles a signal.
pub data Pass (b : Backend) (h : ℕ) (n : Node) (n' : Node) (returned : Bool) : Type 0 where
  pass :
      (s : Signal) (m : Node)
      → Works b n m
      → Sent b n m s
      → on_signal b h (get_view n.state) s m ≡ ok (n', returned)
      → Pass b h n n' returned

-- The passes of a sequence that has begun; the last may have returned.
pub data Runs (b : Backend) (h : ℕ) (n : Node) : Node → Bool → Type 0 where
  begun : Runs b h n n false
  again :
      {m n' : Node} {returned : Bool}
      → Runs b h n m false
      → Pass b h m n' returned
      → Runs b h n n' returned

-- A call of the backend that only tells it how the sequence goes (`RoundStarts`, `SequenceCancelled`).
pub data Callback : Type 0 where
  round_starts sequence_was_cancelled : View → Callback

abbrev pub told_end : Signal → View → List Callback → List Callback
told_end sequence_cancelled v calls = sequence_was_cancelled v ∷ calls
told_end _ v calls = calls

-- The callbacks of the passes, the last first; their errors are only logged.
unfoldable pub callbacks :
    {b : Backend} {h : ℕ} {n n' : Node} {returned : Bool} → Runs b h n n' returned → List Callback
callbacks begun = []
callbacks (again {m = k} rs (pass s m w sent run)) =
    told_end s (get_view k.state) (round_starts (get_view k.state) ∷ callbacks rs)
