-- ===== src/Workers/Ending.antt =====
-- How a worker ends: what its loop keeps while it waits, and what its result shows.
use go_ibft.Prelude.{
  ℕ, ◌≡◌, refl, ap, ◌∙◌, Option, none, some, List, [], ◌∷◌, Result, ok, panic, ◌>>=◌,
}
use go_ibft.Proto.{IbftMessage}
use go_ibft.Backend.{Backend}
use go_ibft.Node.{Node, add_message}
use go_ibft.Node.Listening.{subscribe, unsubscribe}
use go_ibft.Events.{SubscriptionDetails}
use go_ibft.Workers.{
  Event, cancelled, ready, delivered, Outcome, waiting, stopped, finished, poll, and_then,
  subscribed, close_subscription,
}

-- `P` holds of a node that waits or has stopped, and `Q` of a result and its node.
abbrev pub Ends : {A : Type 0} → (Node → Type 0) → (A → Node → Type 0) → Result (Outcome A) → Type 0
Ends P Q panic = Unit
Ends P Q (ok (waiting n)) = P n
Ends P Q (ok (stopped n es)) = P n
Ends P Q (ok (finished a n es)) = Q a n

pub bind-Ends :
    {X A : Type 0} (P : Node → Type 0) (Q : A → Node → Type 0) (o : Result X)
    (f : X → Result (Outcome A))
    → ((x : X) → o ≡ ok x → Ends P Q (f x))
    → Ends P Q (o >>= f)
bind-Ends P Q panic f h = tt
bind-Ends P Q (ok x) f h = h x refl

choose-Ends :
    {A : Type 0} (P : Node → Type 0) (Q : A → Node → Type 0) (got : Option A) (n : Node)
    (es : List Event) (rest : Result (Outcome A))
    → (got ≡ none → Ends P Q rest)
    → ((a : A) → got ≡ some a → Q a n)
    → Ends P Q (elim got [ none ↦ rest | some a ↦ ok (finished a n es) ])
choose-Ends P Q none n es rest h k = h refl
choose-Ends P Q (some a) n es rest h k = k a refl

-- What each event keeps holds where the loop ends without a result, and what an event with a result
-- shows holds where it has one.
pub poll-Ends :
    {A : Type 0} (b : Backend) (handle : ℕ → Node → Result (Node × Option A)) (I : Node → Type 0)
    (Q : A → Node → Type 0)
    → ((m : Option IbftMessage) (n n' : Node) → add_message b m n ≡ ok n' → I n → I n')
    → ((r : ℕ) (n n' : Node) → handle r n ≡ ok (n', none) → I n → I n')
    → ((r : ℕ) (n n' : Node) (a : A) → handle r n ≡ ok (n', some a) → I n → Q a n')
    → (es : List Event) (n : Node) → I n
    → Ends I Q (poll b handle es n)
unfolding poll
poll-Ends b handle I Q dl miss hit [] n i = i
poll-Ends b handle I Q dl miss hit (cancelled ∷ es) n i = i
poll-Ends b handle I Q dl miss hit (delivered m ∷ es) n i =
    bind-Ends I Q (add_message b m n) _
      (λ n' e. poll-Ends b handle I Q dl miss hit es n' (dl m n n' e i))
poll-Ends b handle I Q dl miss hit (ready r ∷ es) n i = bind-Ends I Q (handle r n) _ (λ out e.
    choose-Ends I Q out.1 out.0 es (poll b handle es out.0)
      (λ f.
        poll-Ends b handle I Q dl miss hit es out.0
          (miss r n out.0 (e ∙ ap (λ o. ok (out.0, o)) f) i))
      (λ a f. hit r n out.0 a (e ∙ ap (λ o. ok (out.0, o)) f) i))

-- A result that goes on to another wait.
pub and_then-Ends :
    {A B : Type 0} (P : Node → Type 0) (Q : A → Node → Type 0) (R : B → Node → Type 0)
    (o : Result (Outcome A)) (k : A → Node → List Event → Result (Outcome B))
    → Ends P Q o
    → ((a : A) (n : Node) (es : List Event) → Q a n → Ends P R (k a n es))
    → Ends P R (o >>= λ out. and_then out k)
and_then-Ends P Q R panic k h f = tt
and_then-Ends P Q R (ok (waiting n)) k h f = h
and_then-Ends P Q R (ok (stopped n es)) k h f = h
and_then-Ends P Q R (ok (finished a n es)) k h f = f a n es h

pub weaken-Ends :
    {A : Type 0} {P P' : Node → Type 0} {Q Q' : A → Node → Type 0} (o : Result (Outcome A))
    → ((n : Node) → P n → P' n)
    → ((a : A) (n : Node) → Q a n → Q' a n)
    → Ends P Q o
    → Ends P' Q' o
weaken-Ends panic f g h = tt
weaken-Ends (ok (waiting n)) f g h = f n h
weaken-Ends (ok (stopped n es)) f g h = f n h
weaken-Ends (ok (finished a n es)) f g h = g a n h

-- Between a subscription and its end.
pub subscribed-Ends :
    {A : Type 0} (P : Node → Type 0) (Q : A → Node → Type 0) (id : ℕ) (d : SubscriptionDetails)
    (body : List Event → Node → Result (Outcome A)) (es : List Event) (n : Node)
    → ((n' : Node) → subscribe id d n ≡ ok n' → Ends P Q (body es n'))
    → ((m m' : Node) → unsubscribe id m ≡ ok m' → P m → P m')
    → ((a : A) (m m' : Node) → unsubscribe id m ≡ ok m' → Q a m → Q a m')
    → Ends P Q (subscribed id d body es n)
unfolding subscribed
subscribed-Ends {A = A} P Q id d body es n h p q =
    bind-Ends P Q (subscribe id d n) _ (λ n' e. closed (body es n') (h n' e))
  where
    closed :
        (o : Result (Outcome A)) → Ends P Q o → Ends P Q (o >>= λ out. close_subscription id out)
    closed panic f = tt
    closed (ok (waiting m)) f = f
    closed (ok (stopped m es')) f = bind-Ends P Q (unsubscribe id m) _ (λ m' e. p m m' e f)
    closed (ok (finished a m es')) f = bind-Ends P Q (unsubscribe id m) _ (λ m' e. q a m m' e f)
