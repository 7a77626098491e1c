-- ===== src/MainLoop/Turning.antt =====
-- Why a sequence goes from one round to the next, and how it ends (`RunSequence` of core/ibft.go).
use go_ibft.Prelude.{ℕ, ◌≡◌, ◌⊎◌, Bool, true, false, none, some, ◌∷◌, ok}
use go_ibft.Proto.{IbftMessage}
use go_ibft.State.{new_round, prepare, fin}
use go_ibft.Backend.{Backend}
use go_ibft.Node.{Node, insert_block, pc_pointer}
use go_ibft.Proposals.{is_valid_preprepare}
use go_ibft.Rounds.{next_round}
use go_ibft.Rounds.Working.{Works}
use go_ibft.Workers.Hopping.{Hops}

-- The node is at the start of a round of the height.
abbrev pub Starts : ℕ → ℕ → Node → Type 0
Starts h round n =
    (n.state.view ≡ record { height = h; round = round })
    × (n.state.name ≡ new_round)
    × (n.state.proposal_message ≡ none)

-- The three ways in which a sequence goes on in another round, each with what led to it: the time of the
-- round is over, which the node tells the others with what it has prepared; some round has a certificate; or
-- there is a proposal for the round that passes its check, which the node then prepares.
abbrev pub Turned : Backend → ℕ → Node → Node → Type 0
Turned b h n n' =
    ((m : Node) × Works b n m
      × Starts h (next_round n.state.view.round) n'
      × (n'.sent
          ≡ b.build_round_change_message m.state.latest_prepared_proposal
              (pc_pointer m.state.latest_pc)
              (record { height = h; round = next_round n.state.view.round })
            ∷ m.sent))
    ⊎ ((k : Node) × (round : ℕ) × Works b n k × Hops b n.state.view k round × Starts h round n')
    ⊎ ((k : Node) × (round : ℕ) × (p : IbftMessage) × Works b n k
        × (is_valid_preprepare b k (record { height = h; round = round }) p ≡ ok true)
        × (n'.state.view ≡ record { height = h; round = round })
        × (n'.state.proposal_message ≡ some p)
        × (n'.state.name ≡ prepare))

-- The rounds of a sequence.
pub data Turns (b : Backend) (h : ℕ) (n : Node) : Node → Type 0 where
  here : Turns b h n n
  next : {m m' : Node} → Turns b h n m → Turned b h m m' → Turns b h n m'

-- The sequence goes on, or it has ended after the work of its last round: with the block of a round in the
-- final state, or without one.
abbrev pub Ended : Backend → Node → Node → Bool → Type 0
Ended b k n' false = n' ≡ k
Ended b k n' true =
    (m : Node) × Works b k m × ((m.state.name ≡ fin) × (n' ≡ insert_block m) ⊎ (n' ≡ m))

-- What a pass does that began in a round of the height.
abbrev PassTurns : Backend → ℕ → Node → Node → Bool → Type 0
PassTurns b h n n' false = Turned b h n n'
PassTurns b h n n' true = Ended b n n' true
