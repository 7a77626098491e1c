-- ===== src/Events/Manager.antt =====
-- The event manager (messages/event_manager.go).
use go_ibft.Prelude.{
  ok, panic, ap, >>=-eq-ok, ℕ, suc, ◌<◌, ◌≡◌, refl, ◌≢◌, ◌∙◌, ◌==◌, nat_eq, true, false, none, some,
  arith, if◌then◌else◌, List, [], ◌∷◌, length, contains, Distinct, map, beq_cases,
}
use go_ibft.Prelude.Int.{pos, negsuc, ◌+ℤ◌, int_laws}
use go_ibft.Prelude.Assoc.{lookup, insert, erase, lookup-insert}
use go_ibft.Proto.{MessageType, View}
use go_ibft.Events.{
  EventManager, EventSubscription, SubscriptionDetails, push_event, push_all, signal_event, close,
  close_all, close_manager, subscribe, cancel_subscription, new_subscription, new_event_manager,
}

module _ (t : MessageType) (v : View) where
  lookup-push_all :
      (id : ℕ) (l : List (ℕ × EventSubscription))
      → lookup id (push_all t v l)
        ≡ (elim (lookup id l) [ none ↦ none | some es ↦ some (push_event t v es) ])
  unfolding push_all
  lookup-push_all id [] = refl
  lookup-push_all id ((j, es) ∷ l) = ground (arith, lookup-push_all id l)

abbrev pub ids : List (ℕ × EventSubscription) → List ℕ
ids = map (λ e. e.0)

-- The counter is the number of subscriptions, whose identifiers are distinct.
pub record IsCounted (em : EventManager) : Type 0 where
  pub counted : em.num_subscriptions ≡ pos (length em.subscriptions)
  pub distinct : Distinct (ids em.subscriptions)

new-IsCounted : IsCounted new_event_manager
unfolding new_event_manager
new-IsCounted = record { counted = refl; distinct = tt }

length-insert_new :
    (id : ℕ) (es : EventSubscription) (l : List (ℕ × EventSubscription))
    → contains (ids l) id ≡ false
    → length (insert id es l) ≡ suc (length l)
length-insert_new id es [] h = refl
length-insert_new id es ((j, e) ∷ l) h = ground (arith, length-insert_new id es l)

contains-insert :
    (id k : ℕ) (es : EventSubscription) (l : List (ℕ × EventSubscription))
    → contains (ids l) k ≡ false
    → id ≢ k
    → contains (ids (insert id es l)) k ≡ false
contains-insert id k es [] h n = ground arith
contains-insert id k es ((j, e) ∷ l) h n = ground (arith, contains-insert id k es l)

insert-Distinct :
    (id : ℕ) (es : EventSubscription) (l : List (ℕ × EventSubscription))
    → Distinct (ids l)
    → contains (ids l) id ≡ false
    → Distinct (ids (insert id es l))
insert-Distinct id es [] d h = (refl, tt)
insert-Distinct id es ((j, e) ∷ l) d h =
    ground (arith, insert-Distinct id es l d.1, contains-insert id j es l d.0)

pub pos-suc : (n : ℕ) → pos n +ℤ pos 1 ≡ pos (suc n)
pos-suc n = omega int_laws

pub pos-pred : (n : ℕ) → pos (suc n) +ℤ negsuc 0 ≡ pos n
pos-pred n = omega int_laws

lookup-length :
    (id : ℕ) (l : List (ℕ × EventSubscription)) {es : EventSubscription}
    → lookup id l ≡ some es
    → 0 < length l
lookup-length id [] h = cc
lookup-length id (e ∷ l) h = omega arith

-- In a counted manager a subscription under a new identifier is found under it, leaves the others
-- alone, and is counted.
pub subscribe-IsCounted :
    (id : ℕ) (d : SubscriptionDetails) (em : EventManager)
    → IsCounted em
    → contains (ids em.subscriptions) id ≡ false
    → IsCounted (subscribe id d em)
      × ((j : ℕ)
          → lookup j (subscribe id d em).subscriptions
            ≡ (if id == j then some (new_subscription d) else lookup j em.subscriptions))
unfolding subscribe
subscribe-IsCounted id d em c h = (
  record {
    counted =
        rw (c.counted, length-insert_new id (new_subscription d) em.subscriptions h)
          (pos-suc (length em.subscriptions));
    distinct = insert-Distinct id (new_subscription d) em.subscriptions c.distinct h;
  },
  λ j. lookup-insert id j (new_subscription d) em.subscriptions,
)

-- In a counted manager a signal reaches every subscription as if it were alone.
pub lookup-signal_event :
    (id : ℕ) (t : MessageType) (v : View) (em : EventManager) (es : EventSubscription)
    → IsCounted em
    → lookup id em.subscriptions ≡ some es
    → lookup id (signal_event t v em).subscriptions ≡ some (push_event t v es)
unfolding signal_event
lookup-signal_event id t v em es c h =
    ground (
      arith,
      c.counted,
      lookup-length id em.subscriptions h,
      lookup-push_all t v id em.subscriptions,
    )

contains-erase :
    (id k : ℕ) (l : List (ℕ × EventSubscription))
    → contains (ids l) k ≡ false
    → contains (ids (erase id l)) k ≡ false
contains-erase id k [] h = refl
contains-erase id k ((j, e) ∷ l) h = ground (arith, contains-erase id k l)

erase-Distinct :
    (id : ℕ) (l : List (ℕ × EventSubscription)) → Distinct (ids l) → Distinct (ids (erase id l))
erase-Distinct id [] d = tt
erase-Distinct id ((j, e) ∷ l) d =
    ground (arith, erase-Distinct id l d.1, contains-erase id j l d.0)

erase_absent :
    (id : ℕ) (l : List (ℕ × EventSubscription)) → contains (ids l) id ≡ false → erase id l ≡ l
erase_absent id [] h = refl
erase_absent id ((j, e) ∷ l) h = ground (arith, erase_absent id l)

length-erase :
    (id : ℕ) (l : List (ℕ × EventSubscription)) (es : EventSubscription)
    → Distinct (ids l)
    → lookup id l ≡ some es
    → length l ≡ suc (length (erase id l))
length-erase id [] es d h = cc
length-erase id ((j, e) ∷ l) es d h =
    ground (arith, beq_cases j id, length-erase id l es d.1, erase_absent id l)

lookup-erase :
    (id j : ℕ) (l : List (ℕ × EventSubscription))
    → lookup j (erase id l) ≡ (if id == j then none else lookup j l)
lookup-erase id j [] = ground arith
lookup-erase id j ((k, e) ∷ l) = ground (arith, lookup-erase id j l)

-- In a counted manager a cancelled subscription that is open is no longer found or counted, and
-- the others stay.
cancel_subscription-IsCounted :
    (id : ℕ) (em : EventManager) (es : EventSubscription)
    → IsCounted em
    → lookup id em.subscriptions ≡ some es
    → es.done ≡ false
    → (em' : EventManager) × (cancel_subscription id em ≡ ok em')
      × IsCounted em'
      × ((j : ℕ)
          → lookup j em'.subscriptions ≡ (if id == j then none else lookup j em.subscriptions))
unfolding cancel_subscription close
cancel_subscription-IsCounted id em es c h d = (
  record {
    subscriptions = erase id em.subscriptions;
    num_subscriptions = em.num_subscriptions +ℤ negsuc 0;
  },
  ground arith,
  record {
    counted =
        ap (λ n. n +ℤ negsuc 0)
          (c.counted ∙ ap pos (length-erase id em.subscriptions es c.distinct h))
        ∙ pos-pred (length (erase id em.subscriptions));
    distinct = erase-Distinct id em.subscriptions c.distinct;
  },
  λ j. lookup-erase id j em.subscriptions,
)

close_all-lookup :
    (id : ℕ) (l l' : List (ℕ × EventSubscription)) (es : EventSubscription)
    → close_all l ≡ ok l'
    → lookup id l ≡ some es
    → lookup id l' ≡ some (record es { done = true })
unfolding close_all close
close_all-lookup id [] l' es c h = cc
close_all-lookup id ((j, e) ∷ l) l' es c h =
    let (e', ce, k) = >>=-eq-ok (close e) _ c in
    let (rest, cl, r) = >>=-eq-ok (close_all l) _ k in
    ground (arith, close_all-lookup id l rest es cl)

-- After the manager is closed without a panic, cancelling any subscription that it had panics.
pub cancel_after_close :
    (id : ℕ) (em em' : EventManager) (es : EventSubscription)
    → close_manager em ≡ ok em'
    → lookup id em.subscriptions ≡ some es
    → cancel_subscription id em' ≡ panic
unfolding close_manager cancel_subscription close
cancel_after_close id em em' es c h =
    let (l, cl, r) = >>=-eq-ok (close_all em.subscriptions) _ c in
    ground (arith, close_all-lookup id em.subscriptions l es cl h)
