-- ===== src/Tests/Callbacks.antt =====
-- A sequence whose first round expires and which is cancelled in the second.
use go_ibft.Prelude.{refl, true, nat_eq}
use go_ibft.State.{get_view}
use go_ibft.Node.{Node, new_ibft}
use go_ibft.Rounds.{on_round_expired}
use go_ibft.Rounds.Working.{here}
use go_ibft.MainLoop.{
  Runs, begun as no_pass, again, pass, round_expired, sequence_cancelled, callbacks, on_signal,
}
use go_ibft.MainLoop.Notifying.{Told, starts, run_sequence-Told}
use go_ibft.Tests.Sequences.{begun}
use go_ibft.Tests.Sealing.{strict, shapes}
use go_ibft.Tests.Sealing

abbrev expired : Node
expired = on_round_expired strict 5 (get_view begun.state) begun

cancelled_sequence : Runs strict 5 begun expired true
unfolding on_signal
cancelled_sequence =
    again (again no_pass (pass round_expired begun here tt refl))
      (pass sequence_cancelled expired here tt refl)

run_sequence-Told_example :
    Told 5 begun expired true (starts cancelled_sequence) (callbacks cancelled_sequence)
run_sequence-Told_example =
    run_sequence-Told strict 5 new_ibft begun expired true Sealing.starts cancelled_sequence
