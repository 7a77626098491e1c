-- ===== src/Tests/Watchers.antt =====
-- A node with a subscription, and the workers of its round.
use go_ibft.Prelude.{
  ◌≡◌, ◌↔◌, Str, ℕ, Option, refl, true, false, none, some, List, [], ◌∷◌, nat_eq, ok, if◌then◌else◌,
  arith,
}
use go_ibft.Prelude.Int.{pos}
use go_ibft.Proto.{preprepare, prepare, commit, round_change, unknown, IbftMessage}
use go_ibft.Extract.{extract_commit_hash}
use go_ibft.State.{prepare as prepare_state, get_view}
use go_ibft.Validators.{has_quorum, power_from, convert_message_to_address_set, address_set_from}
use go_ibft.Events.{
  SubscriptionDetails, EventSubscription, EventManager, waiting, event_supported, push_event,
  new_subscription,
}
use go_ibft.Events
use go_ibft.Events.Manager.{IsCounted}
use go_ibft.Messages.{rounds_at, get_proto_messages}
use go_ibft.Messages
use go_ibft.Node.{Node, add_message, has_quorum_by_msg_type, is_acceptable_message, new_ibft}
use go_ibft.Node
use go_ibft.Node.Listening.{subscribe}
use go_ibft.Node.Waking.{has_enough, subscription, add_message-signals, subscribe-pending}
use go_ibft.Rounds.{on_round_expired, is_valid_round_change, is_valid_rcc}
use go_ibft.Rounds
use go_ibft.Rounds.Working.{Works}
use go_ibft.Workers.{
  Event, cancelled, ready, delivered, Outcome, node_of, run_states, start_round,
  watch_for_future_proposal, watch_for_certificates, look_for_certificate,
}
use go_ibft.Workers
use go_ibft.Workers.Ending.{Ends}
use go_ibft.Workers.Opening.{Returns, start_round_lem}
use go_ibft.Workers.Watching.{IsChecked, watch_for_future_proposal-IsChecked}
use go_ibft.Workers.Hopping.{IsCertified}
use go_ibft.Workers.Certifying.{watch_for_certificates-IsCertified, look_for_certificate_iff}
use go_ibft.Messages.WellFormed.{IsWellFormed, new_messages-IsWellFormed, add_message-IsWellFormed}
use go_ibft.Messages.Keyed.{IsKeyed, new_messages-IsKeyed}
use go_ibft.Tests.{address, a_view, preprepare_from, commit_from, round_change_from, backend}
use go_ibft.Tests.Handlers.{node_in}
use go_ibft.Tests.Sequences.{begun}

unfoldable pub shapes : Unit {0}
unfolding has_quorum_by_msg_type has_quorum power_from convert_message_to_address_set
    address_set_from get_proto_messages add_message is_acceptable_message Node.notify_if_quorum
    Messages.add_message Messages.get_valid_messages Messages.sort_messages Events.signal_event
    Events.push_all Events.push_event event_supported Messages.get_view_messages
    Events.new_event_manager look_for_certificate Rounds.handle_round_change_message
    is_valid_round_change is_valid_rcc Messages.get_extended_rcc Messages.extended_rcc_from
    Messages.valid_of go_ibft.Certificate.valid_pc go_ibft.Certificate.proposal_matches_certificate
    go_ibft.Extract.extract_latest_pc go_ibft.Extract.extract_last_prepared_proposal
shapes = tt

-- A subscription to the commit messages of the round before the one that has them.
empty-IsCounted : IsCounted (node_in prepare_state).messages.event_manager
unfolding Events.new_event_manager
empty-IsCounted = record { counted = refl; distinct = tt }

subscribe-pending_example :
    (n' : Node) × (subscribe 7 (Workers.exact commit a_view) (node_in prepare_state) ≡ ok n')
    × (subscription 7 n'
        ≡ some (record (new_subscription (Workers.exact commit a_view)) {
          notify_ch = if has_enough (node_in prepare_state) a_view commit then some 1 else none;
        }))
unfolding Events.new_event_manager
subscribe-pending_example =
    subscribe-pending 7 (Workers.exact commit a_view) (node_in prepare_state) refl empty-IsCounted
      refl

abbrev listening : EventSubscription
listening = record {
  details = Workers.exact commit a_view;
  output_ch = none;
  done = false;
  notify_ch = none;
  worker = waiting;
}

abbrev listening_node : EventSubscription → Node
listening_node es = record (node_in prepare_state) {
  messages = record (node_in prepare_state).messages {
    event_manager = record { subscriptions = (7, es) ∷ []; num_subscriptions = pos 1 };
  };
}

commit_arrives :
    add_message backend (some (commit_from 2)) (listening_node listening)
    ≡ ok (listening_node (record listening { notify_ch = some 1 }))
unfolding shapes
commit_arrives = refl

commit_accepted : is_acceptable_message backend (listening_node listening) (commit_from 2) ≡ true
unfolding shapes
commit_accepted = refl

add_message-signals_example :
    let n' = listening_node (record listening { notify_ch = some 1 }) in
    subscription 7 n'
    ≡ some (if has_enough n' a_view commit then push_event commit a_view listening else listening)
add_message-signals_example =
    add_message-signals backend (listening_node listening)
      (listening_node (record listening { notify_ch = some 1 })) (commit_from 2) a_view 7 listening
      commit_accepted refl refl refl commit_arrives
      (record { counted = refl; distinct = (refl, tt) }) refl

-- What happens to a worker: a proposal arrives and the subscription wakes it, then the round ends.
abbrev happenings : List Event
happenings = delivered (some (preprepare_from 1)) ∷ ready 1 ∷ cancelled ∷ []

start_round_lem_example : Returns backend begun (start_round backend 6 (λ t. 7) 4 happenings begun)
start_round_lem_example = start_round_lem backend 6 (λ t. 7) happenings begun

watch_for_future_proposal-IsChecked_example :
    Ends
      (λ m. Works backend begun m)
      (λ ev m. Works backend begun m × IsChecked backend begun ev)
      (watch_for_future_proposal backend 7 happenings begun)
watch_for_future_proposal-IsChecked_example =
    watch_for_future_proposal-IsChecked backend 7 happenings begun

abbrev asked : List Event
asked =
    delivered (some (round_change_from 1))
    ∷ delivered (some (round_change_from 3))
    ∷ delivered (some (round_change_from 4))
    ∷ ready 1
    ∷ ready 1
    ∷ []

begun-IsWellFormed : IsWellFormed begun.messages
unfolding Messages.new_messages
begun-IsWellFormed = new_messages-IsWellFormed

begun-IsKeyed : IsKeyed begun.messages
unfolding Messages.new_messages
begun-IsKeyed = new_messages-IsKeyed

watch_for_certificates-IsCertified_example :
    Ends
      (λ m. Works backend begun m)
      (λ round m.
        Works backend begun m
        × ((k : Node) × Works backend begun k × IsCertified backend (get_view begun.state) k round))
      (watch_for_certificates backend 7 asked begun)
watch_for_certificates-IsCertified_example =
    watch_for_certificates-IsCertified backend 7 asked begun begun-IsWellFormed begun-IsKeyed

-- The store with these round change messages for round 1.
abbrev changes : List (Str × IbftMessage) → Messages.Messages
changes l = record begun.messages { round_change_messages = (5, (1, l) ∷ []) ∷ [] }

abbrev two_changes : List (Str × IbftMessage)
two_changes = (address 1, round_change_from 1) ∷ (address 3, round_change_from 3) ∷ []

abbrev three_changes : List (Str × IbftMessage)
three_changes =
    (address 1, round_change_from 1)
    ∷ (address 3, round_change_from 3)
    ∷ (address 4, round_change_from 4)
    ∷ []

-- A node in round 2 that still holds the round change messages for round 1.
abbrev pub ahead : Node
ahead = record begun {
  state = record begun.state { view = record { height = 5; round = 2 } };
  messages = changes three_changes;
}

stores_first :
    Messages.add_message (round_change_from 1) begun.messages
    ≡ ok (changes ((address 1, round_change_from 1) ∷ []))
unfolding shapes
stores_first = refl

stores_second :
    Messages.add_message (round_change_from 3) (changes ((address 1, round_change_from 1) ∷ []))
    ≡ ok (changes two_changes)
unfolding shapes
stores_second = refl

stores_third :
    Messages.add_message (round_change_from 4) (changes two_changes) ≡ ok (changes three_changes)
unfolding shapes
stores_third = refl

pub ahead-IsWellFormed : IsWellFormed ahead.messages
ahead-IsWellFormed =
    add_message-IsWellFormed (round_change_from 4) (changes two_changes) (changes three_changes)
      stores_third
      (add_message-IsWellFormed (round_change_from 3)
        (changes ((address 1, round_change_from 1) ∷ [])) (changes two_changes) stores_second
        (add_message-IsWellFormed (round_change_from 1) begun.messages
          (changes ((address 1, round_change_from 1) ∷ [])) stores_first begun-IsWellFormed))

pub ahead-IsKeyed : IsKeyed ahead.messages
ahead-IsKeyed preprepare h = tt
ahead-IsKeyed prepare h = tt
ahead-IsKeyed commit h = tt
ahead-IsKeyed round_change h = ground arith
ahead-IsKeyed (unknown k) h = tt

pub hops_back : look_for_certificate backend (get_view ahead.state) 3 ahead ≡ ok (ahead, some 1)
unfolding shapes get_view
hops_back = refl

abbrev hop_to_one : Option ℕ
hop_to_one = some 1

look_for_certificate_iff_example :
    (hop_to_one ≡ some 1) ↔ IsCertified backend (get_view ahead.state) ahead 1
look_for_certificate_iff_example =
    look_for_certificate_iff backend (get_view ahead.state) 3 ahead ahead (some 1) 1
      ahead-IsWellFormed ahead-IsKeyed hops_back
