-- ===== src/Tests/Unmatched.antt =====
-- A proposer of round 2 whose store has a certificate for round 1 only.
use go_ibft.Prelude.{◌≡◌, ◌≢◌, refl, true, some, List, [], ◌∷◌, nat_eq, ok, arith}
use go_ibft.Proto.{IbftMessage, rcc_ref, round_change_certificate, slice, items_of}
use go_ibft.Extract.{extract_commit_hash}
use go_ibft.State.{prepare as prepare_state, get_view}
use go_ibft.Rounds.{on_round_expired, is_valid_round_change, is_valid_rcc}
use go_ibft.Rounds
use go_ibft.Workers.Hopping.{IsCertified}
use go_ibft.Workers.Unmatched.{handle_round_change_message-other_round}
use go_ibft.Rounds.Reproposing.{Builds}
use go_ibft.Proposals.{validate_proposal}
use go_ibft.Workers.Certifying.{look_for_certificate_iff}
use go_ibft.Tests.{round_change_from, backend}
use go_ibft.Tests.Handlers.{node_in}
use go_ibft.Tests.Watchers.{shapes, ahead, ahead-IsWellFormed, ahead-IsKeyed, hops_back}

ahead-IsCertified : IsCertified backend (get_view ahead.state) ahead 1
ahead-IsCertified =
    (look_for_certificate_iff backend (get_view ahead.state) 3 ahead ahead (some 1) 1
        ahead-IsWellFormed ahead-IsKeyed hops_back).0
      refl

-- The messages of round 1, and what is built from them for round 2.
abbrev found_messages : List IbftMessage
found_messages = round_change_from 1 ∷ round_change_from 3 ∷ round_change_from 4 ∷ []

abbrev unmatched : IbftMessage
unmatched =
    backend.build_preprepare_message (some (7 ∷ []))
      (rcc_ref (round_change_certificate (slice (items_of found_messages)))) ahead.state.view

finds_round_one :
    Rounds.handle_round_change_message backend (get_view ahead.state) ahead
    ≡ ok (some found_messages)
unfolding shapes get_view
finds_round_one = refl

builds_unmatched :
    Rounds.build_proposal backend (get_view ahead.state) (some found_messages) ≡ ok (some unmatched)
unfolding Rounds.build_proposal Rounds.previous_proposal get_view go_ibft.Extract.extract_latest_pc
builds_unmatched = refl

backend-Builds : Builds backend backend
unfolding go_ibft.Extract.extract_proposal go_ibft.Extract.extract_round_change_certificate
    go_ibft.Extract.extract_proposal_hash
backend-Builds raw rcc v = (refl, refl, refl, refl, refl)

handle_round_change_message-other_round_example :
    validate_proposal backend (node_in prepare_state) unmatched (get_view ahead.state) ≢ ok true
unfolding get_view
handle_round_change_message-other_round_example =
    handle_round_change_message-other_round backend backend (get_view ahead.state) ahead
      (node_in prepare_state) found_messages unmatched 1 ahead-IsWellFormed ahead-IsKeyed
      backend-Builds (λ e. absurd (omega arith)) ahead-IsCertified (λ e. absurd (omega arith))
      finds_round_one builds_unmatched
