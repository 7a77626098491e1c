-- ===== src/Events/Open.antt =====
-- The identifiers of the subscriptions that are open.
use go_ibft.Prelude.{
  ℕ, suc, ◌≡◌, refl, sym, ap, ◌∙◌, false, some, List, [], ◌∷◌, length, contains, nat_eq, ok, arith,
}
use go_ibft.Prelude.Int.{pos, negsuc, ◌+ℤ◌}
use go_ibft.Prelude.Assoc.{lookup, insert, erase}
use go_ibft.Proto.{MessageType, View}
use go_ibft.Events.{
  EventManager, EventSubscription, SubscriptionDetails, push_all, signal_event, subscribe,
  cancel_subscription, close, new_subscription,
}
use go_ibft.Events.Manager.{ids, IsCounted, pos-suc, pos-pred}

-- The open subscriptions and their number are the same.
pub record KeepsOpen (em : EventManager) (em' : EventManager) : Type 0 where
  pub same_ids : ids em'.subscriptions ≡ ids em.subscriptions
  pub same_number : em'.num_subscriptions ≡ em.num_subscriptions

ids-push_all :
    (t : MessageType) (v : View) (l : List (ℕ × EventSubscription)) → ids (push_all t v l) ≡ ids l
unfolding push_all
ids-push_all t v [] = refl
ids-push_all t v ((id, es) ∷ l) = ap (λ is. id ∷ is) (ids-push_all t v l)

pub signal_event-KeepsOpen :
    (t : MessageType) (v : View) (em : EventManager) → KeepsOpen em (signal_event t v em)
unfolding signal_event
signal_event-KeepsOpen t v em = record {
  same_ids = ground (arith, ids-push_all t v em.subscriptions);
  same_number = ground arith;
}

ids-length : (l l' : List (ℕ × EventSubscription)) → ids l ≡ ids l' → length l ≡ length l'
ids-length [] [] h = refl
ids-length [] (e ∷ l') h = cc
ids-length (e ∷ l) [] h = cc
ids-length (e ∷ l) (e' ∷ l') h =
    let tails : ids l ≡ ids l' = ground arith in ap (λ n. suc n) (ids-length l l' tails)

pub KeepsOpen-IsCounted : (em em' : EventManager) → KeepsOpen em em' → IsCounted em → IsCounted em'
KeepsOpen-IsCounted em em' k c = record {
  counted =
      k.same_number
      ∙ c.counted
      ∙ ap (λ n. pos n) (ids-length em.subscriptions em'.subscriptions (sym k.same_ids));
  distinct = rw k.same_ids c.distinct;
}

-- The end of a subscription that was new undoes it.
ids-erase_new :
    (id : ℕ) (es : EventSubscription) (l l' : List (ℕ × EventSubscription))
    → contains (ids l) id ≡ false
    → ids l' ≡ ids (insert id es l)
    → ids (erase id l') ≡ ids l
ids-erase_new id es [] [] new h = cc
ids-erase_new id es [] ((j, e) ∷ []) new h = ground arith
ids-erase_new id es [] ((j, e) ∷ (k ∷ l')) new h = absurd (ground arith)
ids-erase_new id es ((j, e) ∷ l) [] new h = absurd (ground arith)
ids-erase_new id es ((j, e) ∷ l) ((k, e') ∷ l') new h = ground (arith, ids-erase_new id es l l')

-- A subscription under a new identifier that is found and cancelled after any signals leaves the open
-- subscriptions as they were.
pub cancel_subscription-KeepsOpen :
    (id : ℕ) (d : SubscriptionDetails) (em em₁ em₂ : EventManager) (es : EventSubscription)
    → IsCounted em
    → contains (ids em.subscriptions) id ≡ false
    → KeepsOpen (subscribe id d em) em₁
    → lookup id em₁.subscriptions ≡ some es
    → es.done ≡ false
    → cancel_subscription id em₁ ≡ ok em₂
    → KeepsOpen em em₂
unfolding subscribe cancel_subscription close
cancel_subscription-KeepsOpen id d em em₁ em₂ es c new k held open_yet h =
    let subs : erase id em₁.subscriptions ≡ em₂.subscriptions = ground (arith, held, open_yet, h) in
    let number : em₁.num_subscriptions +ℤ negsuc 0 ≡ em₂.num_subscriptions =
      ground (arith, held, open_yet, h) in
    record {
      same_ids =
          ap ids (sym subs)
          ∙ ids-erase_new id (new_subscription d) em.subscriptions em₁.subscriptions new k.same_ids;
      same_number =
          sym number
          ∙ ap (λ n. n +ℤ negsuc 0)
              (k.same_number ∙ ap (λ n. n +ℤ pos 1) c.counted ∙ pos-suc (length em.subscriptions))
          ∙ pos-pred (length em.subscriptions)
          ∙ sym c.counted;
    }
