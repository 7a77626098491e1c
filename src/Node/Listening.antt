-- ===== src/Node/Listening.antt =====
-- The subscriptions of a node: `subscribe` of core/ibft.go, and `Unsubscribe`, which its workers defer.
use go_ibft.Prelude.{ℕ, Result, ok, ◌>>=◌}
use go_ibft.Events
use go_ibft.Events.{SubscriptionDetails, EventManager, cancel_subscription}
use go_ibft.Node.{Node, notify_if_quorum}

abbrev pub set_event_manager : EventManager → Node → Node
set_event_manager em n = record n { messages = record n.messages { event_manager = em } }

-- The identifier comes from `uuid.New().ID()`. After the subscription is made the code asks for the
-- messages of the view and signals, as `AddMessage` does, if they are enough.
unfoldable pub subscribe : ℕ → SubscriptionDetails → Node → Result Node
subscribe id details n =
    notify_if_quorum details.view details.message_type
      (set_event_manager (Events.subscribe id details n.messages.event_manager) n)

unfoldable pub unsubscribe : ℕ → Node → Result Node
unsubscribe id n = do
  em ← cancel_subscription id n.messages.event_manager
  ok (set_event_manager em n)
