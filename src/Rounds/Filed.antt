-- ===== src/Rounds/Filed.antt =====
-- What the store of a node keeps in the histories of a sequence: where messages stand, and under which
-- rounds.
use go_ibft.Prelude.{ℕ, ◌≡◌, none}
use go_ibft.Proto.{preprepare, prepare, commit, round_change, unknown}
use go_ibft.Events.{EventManager}
use go_ibft.Messages.{Messages}
use go_ibft.Messages.WellFormed.{
  IsWellFormed, add_message-IsWellFormed, prune_by_height-IsWellFormed,
  get_valid_messages-IsWellFormed,
}
use go_ibft.Messages.Keyed.{
  IsKeyed, add_message-IsKeyed, prune_by_height-IsKeyed, get_valid_messages-IsKeyed,
  signals-IsKeyed,
}
use go_ibft.Backend.{Backend}
use go_ibft.Node.{Node}
use go_ibft.Rounds.{begin_sequence}
use go_ibft.Rounds.Safety.{Reach}
use go_ibft.Rounds.Storing.{KeptByStore, sequence_kept}

signalled :
    (ms : Messages) (em : EventManager)
    → IsWellFormed ms
    → IsWellFormed (record ms { event_manager = em })
signalled ms em w preprepare h r = w preprepare h r
signalled ms em w prepare h r = w prepare h r
signalled ms em w commit h r = w commit h r
signalled ms em w round_change h r = w round_change h r
signalled ms em w (unknown n) h r = w (unknown n) h r

pub well_formed : (b : Backend) → KeptByStore b IsWellFormed
well_formed b = record {
  signals = signalled;
  adds = λ m ms ms' good. add_message-IsWellFormed m ms ms';
  gets = get_valid_messages-IsWellFormed;
  prunes = prune_by_height-IsWellFormed;
}

pub keyed : (b : Backend) → KeptByStore b IsKeyed
keyed b = record {
  signals = signals-IsKeyed;
  adds = λ m ms ms' good. add_message-IsKeyed m ms ms';
  gets = get_valid_messages-IsKeyed;
  prunes = prune_by_height-IsKeyed;
}

-- In a sequence that started without an error on a well-formed store, the store stays well formed
-- whatever happens: in each view every message stands under its sender, once, and has the type and
-- the view of the place.
pub sequence-IsWellFormed :
    (b : Backend) (h : ℕ) (n n' n'' : Node)
    → begin_sequence b h n ≡ (n', none)
    → IsWellFormed n.messages
    → Reach b n' n''
    → IsWellFormed n''.messages
sequence-IsWellFormed b h n n' n'' e w steps =
    sequence_kept b IsWellFormed (well_formed b) h n n' n'' e w steps

-- Nor does it get a second entry for a round of a height.
pub sequence-IsKeyed :
    (b : Backend) (h : ℕ) (n n' n'' : Node)
    → begin_sequence b h n ≡ (n', none)
    → IsKeyed n.messages
    → Reach b n' n''
    → IsKeyed n''.messages
sequence-IsKeyed b h n n' n'' e w steps = sequence_kept b IsKeyed (keyed b) h n n' n'' e w steps
