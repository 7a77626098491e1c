-- ===== src/Tests/Subscriptions.antt =====
-- A subscription to the prepare messages of a view.
use go_ibft.Prelude.{ℕ, ◌≡◌, refl, true, false, none, some, [], ◌∷◌, nat_eq, ok, panic, ◌⊎◌}
use go_ibft.Prelude.Int.{pos}
use go_ibft.Proto.{View, prepare}
use go_ibft.Events.{
  SubscriptionDetails, EventSubscription, EventManager, waiting, event_supported, push_event, close,
  cancel_subscription, close_manager, close_all,
}
use go_ibft.Events.Delivery.{Wanted, IsRelevant, Run, pushed_delivered}
use go_ibft.Events.Manager.{IsCounted, cancel_after_close}
use go_ibft.Tests.{a_view}

abbrev details : SubscriptionDetails
details = record {
  message_type = prepare;
  view = a_view;
  min_num_messages = 1;
  has_min_round = true;
}

abbrev later : View
later = record { height = 5; round = 4 }

abbrev fresh : EventSubscription
fresh = record {
  details = details;
  output_ch = none;
  done = false;
  notify_ch = none;
  worker = waiting;
}

abbrev em : EventManager
em = record { subscriptions = (8, fresh) ∷ []; num_subscriptions = pos 1 }

abbrev closed_em : EventManager
closed_em = record {
  subscriptions = (8, record fresh { done = true }) ∷ [];
  num_subscriptions = pos 0;
}

em-IsCounted : IsCounted em
em-IsCounted = record { counted = refl; distinct = (refl, tt) }

fresh-IsRelevant : IsRelevant fresh
fresh-IsRelevant = record { notified = tt; held = tt; out = tt }

supported : event_supported fresh prepare later ≡ true
unfolding event_supported
supported = refl

pushed_delivered_example :
    (r : ℕ) × ((push_event prepare later fresh).notify_ch ≡ some r)
    × Wanted details r
    × ((fresh.notify_ch ≡ some r) ⊎ (fresh.notify_ch ≡ none) × (r ≡ later.round))
    × ((es' : EventSubscription) × Run (push_event prepare later fresh) es'
        × (es'.output_ch ≡ some r))
pushed_delivered_example = pushed_delivered fresh prepare later fresh-IsRelevant (λ e. cc) supported

closed_run : close_manager em ≡ ok closed_em
unfolding close_manager close_all close
closed_run = refl

cancel_after_close_example : cancel_subscription 8 closed_em ≡ panic
cancel_after_close_example = cancel_after_close 8 em closed_em fresh closed_run refl
