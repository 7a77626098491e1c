-- ===== src/Workers/Timing.antt =====
-- The timer of a round (`startRoundTimer` of core/ibft.go).
use mathlib.Core.Path.{subst}
use go_ibft.Prelude.{◌≡◌, refl, ◌∙◌, some, List, ok, arith}
use go_ibft.Backend.{Backend}
use go_ibft.Node.{Node}
use go_ibft.Rounds.{deliver}
use go_ibft.Rounds.Invariant.{add_message-Keeps}
use go_ibft.Rounds.Working.{Works, here, next}
use go_ibft.Workers.{Event, signal_main, start_round_timer}
use go_ibft.Workers.Ending.{Ends, poll-Ends, and_then-Ends}

-- The history of a worker that leaves the state alone.
abbrev Idles : Backend → Node → Node → Type 0
Idles b n m = Works b n m × (m.state ≡ n.state)

signal_main-Idles :
    (b : Backend) (n₀ : Node) (es : List Event) (n : Node)
    → Idles b n₀ n
    → Ends (Idles b n₀) (λ (u : Unit {0}). Idles b n₀) (signal_main b tt es n)
unfolding signal_main
signal_main-Idles b n₀ es n i =
    poll-Ends b (λ r n'. ok (n', some tt)) (Idles b n₀) (λ (u : Unit {0}). Idles b n₀)
      (λ m k k' h j. (next j.0 (deliver m h), (add_message-Keeps b m k k' h).state ∙ j.1))
      (λ r k k' h j. absurd (ground arith))
      (λ r k k' u h j. let same : k ≡ k' = ground arith in subst (Idles b n₀) same j) es n i

-- Whether the timer expires or the round ends first, the timer leaves the node's state alone: what
-- happens to the node meanwhile are deliveries.
start_round_timer-Idles :
    (b : Backend) (es : List Event) (n : Node)
    → Ends (Idles b n) (λ u. Idles b n) (start_round_timer b es n)
unfolding start_round_timer
start_round_timer-Idles b es n =
    and_then-Ends (Idles b n) (λ u. Idles b n) (λ u. Idles b n) (signal_main b tt es n)
      (λ u n' es'. signal_main b tt es' n') (signal_main-Idles b n es n (here, refl))
      (λ u m es' i. signal_main-Idles b n es' m i)
