-- ===== src/Workers/Watching.antt =====
-- What the watchers tell the main loop.
use go_ibft.Prelude.{
  ℕ, ◌≡◌, sym, ap, ◌∙◌, Bool, true, Option, none, some, List, [], ◌∷◌, Result, ok, ◌>>=◌, arith,
  >>=-eq-ok, All, Bool-cases, inl, inr, Str,
}
use mathlib.Core.Path.{subst}
use go_ibft.Proto
use go_ibft.Proto.{View, IbftMessage}
use go_ibft.State.{get_view}
use go_ibft.Backend.{Backend}
use go_ibft.Messages.{ProtoMessages, sort_messages, get_valid_messages, get_proto_messages}
use go_ibft.Node.{Node}
use go_ibft.Proposals.{handle_pre_prepare, is_valid_preprepare, first}
use go_ibft.Rounds.{next_round, deliver, listen, unlisten, watch}
use go_ibft.Rounds.Working.{Works, here, next}
use go_ibft.Workers.{
  Event, Outcome, poll, from_round, and_then, signal_main, watch_for_future_proposal,
  look_for_proposal, with_round,
}
use go_ibft.Workers.Ending.{Ends, poll-Ends, weaken-Ends, subscribed-Ends, and_then-Ends}

sort_messages-valid :
    (check : IbftMessage → Result Bool) (pm : ProtoMessages) (l : List IbftMessage) (ks : List Str)
    → sort_messages check pm ≡ ok (l, ks)
    → All (λ m. check m ≡ ok true) l
unfolding sort_messages
sort_messages-valid check [] l ks h =
    let e : [] ≡ l = ground arith in subst (All (λ m. check m ≡ ok true)) e tt
sort_messages-valid check ((k, m) ∷ pm) l ks h =
    let (good, checked, h') = >>=-eq-ok (check m) _ h in
    let ((l', ks'), got, e) = >>=-eq-ok (sort_messages check pm) _ h' in
    let ih = sort_messages-valid check pm l' ks' got in
    elim (Bool-cases good) [
      | inl t ↦
          let e : m ∷ l' ≡ l = ground arith in
          subst (All (λ x. check x ≡ ok true)) e (checked ∙ ap ok t, ih)
      | inr f ↦ let e : l' ≡ l = ground arith in subst (All (λ x. check x ≡ ok true)) e ih
    ]

-- The proposal that `handlePrePrepare` returns has passed its checks.
pub handle_pre_prepare-valid :
    (b : Backend) (v : View) (n n' : Node) (m : IbftMessage)
    → handle_pre_prepare b v n ≡ ok (n', some m)
    → is_valid_preprepare b n v m ≡ ok true
unfolding handle_pre_prepare get_valid_messages
handle_pre_prepare-valid b v n n' m h =
    let pm = get_proto_messages v Proto.MessageType.preprepare n.messages in
    let ((store, l), got, e) =
      >>=-eq-ok
        (get_valid_messages v Proto.MessageType.preprepare (is_valid_preprepare b n v) n.messages) _
        h in
    let ((l', ks), sorted, e') = >>=-eq-ok (sort_messages (is_valid_preprepare b n v) pm) _ got in
    let same : l' ≡ l = ground arith in
    go l
      (subst (All (λ x. is_valid_preprepare b n v x ≡ ok true)) same
        (sort_messages-valid (is_valid_preprepare b n v) pm l' ks sorted))
      (ground arith)
  where
    go :
        (l : List IbftMessage)
        → All (λ x. is_valid_preprepare b n v x ≡ ok true) l
        → first l ≡ some m
        → is_valid_preprepare b n v m ≡ ok true
    go [] a f = cc
    go (x ∷ l) a f =
        let e : x ≡ m = ground arith in subst (λ y. is_valid_preprepare b n v y ≡ ok true) e a.0

-- A proposal that has passed the checks for a round of the height, at some point of a history.
abbrev pub IsChecked : Backend → Node → IbftMessage × ℕ → Type 0
IsChecked b n ev =
    (k : Node) × Works b n k
    × (is_valid_preprepare b k (record { height = n.state.view.height; round = ev.1 }) ev.0
        ≡ ok true)

-- A send changes nothing but what is delivered meanwhile.
signal_main-Ends :
    {A : Type 0} (b : Backend) (n₀ : Node) (a : A) (es : List Event) (n : Node)
    → Works b n₀ n
    → Ends (λ m. Works b n₀ m) (λ a' m. (a' ≡ a) × Works b n₀ m) (signal_main b a es n)
unfolding signal_main
signal_main-Ends {A = A} b n₀ a es n r =
    poll-Ends b (λ r' n'. ok (n', some a)) (λ m. Works b n₀ m) (λ a' m. (a' ≡ a) × Works b n₀ m)
      (λ m k k' h i. next i (deliver m h)) (λ r' k k' h i. absurd (ground arith))
      (λ r' k k' a' h i.
        let same : k ≡ k' = ground arith in (ground arith, subst (λ x. Works b n₀ x) same i))
      es n r

look_for_proposal-misses :
    (b : Backend) (h r : ℕ) (k k' : Node)
    → look_for_proposal b h r k ≡ ok (k', none)
    → handle_pre_prepare b (record { height = h; round = r }) k ≡ ok (k', none)
unfolding look_for_proposal
look_for_proposal-misses b h r k k' e =
    let ((k₁, got), run, out) =
      >>=-eq-ok (handle_pre_prepare b (record { height = h; round = r }) k) _ e in
    go k₁ got run out
  where
    go :
        (k₁ : Node) (got : Option IbftMessage)
        → handle_pre_prepare b (record { height = h; round = r }) k ≡ ok (k₁, got)
        → ◌≡◌ {A = Result (Node × Option (IbftMessage × ℕ))}
            (ok (k₁, with_round r got))
            (ok (k', none))
        → handle_pre_prepare b (record { height = h; round = r }) k ≡ ok (k', none)
    go k₁ none run out = let same : k₁ ≡ k' = ground arith in run ∙ ap (λ x. ok (x, none)) same
    go k₁ (some m) run out = absurd (ground arith)

look_for_proposal-finds :
    (b : Backend) (h r : ℕ) (k k' : Node) (ev : IbftMessage × ℕ)
    → look_for_proposal b h r k ≡ ok (k', some ev)
    → (handle_pre_prepare b (record { height = h; round = ev.1 }) k ≡ ok (k', some ev.0))
      × (ev.1 ≡ r)
unfolding look_for_proposal
look_for_proposal-finds b h r k k' ev e =
    let ((k₁, got), run, out) =
      >>=-eq-ok (handle_pre_prepare b (record { height = h; round = r }) k) _ e in
    go k₁ got run out
  where
    go :
        (k₁ : Node) (got : Option IbftMessage)
        → handle_pre_prepare b (record { height = h; round = r }) k ≡ ok (k₁, got)
        → ◌≡◌ {A = Result (Node × Option (IbftMessage × ℕ))}
            (ok (k₁, with_round r got))
            (ok (k', some ev))
        → (handle_pre_prepare b (record { height = h; round = ev.1 }) k ≡ ok (k', some ev.0))
          × (ev.1 ≡ r)
    go k₁ none run out = absurd (ground arith)
    go k₁ (some m) run out =
        let same : k₁ ≡ k' = ground arith in
        let pair : (m, r) ≡ ev = ground arith in
        (
          subst
              (λ (x : IbftMessage × ℕ).
                handle_pre_prepare b (record { height = h; round = x.1 }) k ≡ ok (k', some x.0))
              pair (run ∙ ap (λ x. ok (x, some m)) same),
          ap (λ x. x.1) (sym pair),
        )

-- A watcher sends on what it has found.
pub sends_on-Ends :
    {A : Type 0} (b : Backend) (n₀ : Node) (S : A → Type 0) (o : Result (Outcome A))
    → Ends (λ m. Works b n₀ m) (λ a m. Works b n₀ m × S a) o
    → Ends
        (λ m. Works b n₀ m)
        (λ a m. Works b n₀ m × S a)
        (o >>= λ out. and_then out (λ a n es. signal_main b a es n))
sends_on-Ends {A = A} b n₀ S o h =
    let P : Node → Type 0 = λ m. Works b n₀ m in
    let Q : A → Node → Type 0 = λ a m. Works b n₀ m × S a in
    and_then-Ends P Q Q o (λ a n es. signal_main b a es n) h
      (λ a n es q.
        weaken-Ends {P = P} {P' = P} {Q = λ a' m. (a' ≡ a) × Works b n₀ m} {Q' = Q}
          (signal_main b a es n) (λ m i. i) (λ a' m w. (w.1, subst S (sym w.0) q.1))
          (signal_main-Ends b n₀ a es n q.0))

-- What `watchForFutureProposal` hands to the main loop has passed the checks of a proposal for
-- its round and the height of the view at the start, at some point of the work since then.
-- Whether it hands over anything or not, what it does to the node is a history of the work of a
-- round.
pub watch_for_future_proposal-IsChecked :
    (b : Backend) (id : ℕ) (es : List Event) (n : Node)
    → Ends
        (λ m. Works b n m)
        (λ ev m. Works b n m × IsChecked b n ev)
        (watch_for_future_proposal b id es n)
unfolding watch_for_future_proposal get_view
watch_for_future_proposal-IsChecked b id es n =
    let P : Node → Type 0 = λ m. Works b n m in
    let Q : IbftMessage × ℕ → Node → Type 0 = λ ev m. Works b n m × IsChecked b n ev in
    let v : View = n.state.view in
    let d =
      from_round Proto.MessageType.preprepare
        (record { height = v.height; round = next_round v.round }) in
    subscribed-Ends P Q id d
      (λ es' n'. poll b (look_for_proposal b v.height) es' n' >>= λ out.
        and_then out (λ ev n₁ es₁. signal_main b ev es₁ n₁))
      es n
      (λ n' l. sends_on-Ends b n (IsChecked b n) (poll b (look_for_proposal b v.height) es n') (
        poll-Ends b (look_for_proposal b v.height) P Q (λ m k k' h i. next i (deliver m h)) miss hit
          es n' (next here (listen id d l))))
      (λ m m' h i. next i (unlisten id h)) (λ ev m m' h q. (next q.0 (unlisten id h), q.1))
  where
    miss :
        (r : ℕ) (k k' : Node)
        → look_for_proposal b n.state.view.height r k ≡ ok (k', none)
        → Works b n k
        → Works b n k'
    miss r k k' e i =
        let h = n.state.view.height in
        next i
          (watch (record { height = h; round = r }) none (look_for_proposal-misses b h r k k' e))

    hit :
        (r : ℕ) (k k' : Node) (ev : IbftMessage × ℕ)
        → look_for_proposal b n.state.view.height r k ≡ ok (k', some ev)
        → Works b n k
        → Works b n k' × IsChecked b n ev
    hit r k k' ev e i =
        let h = n.state.view.height in
        let at_round : View = record { height = h; round = ev.1 } in
        let found = (look_for_proposal-finds b h r k k' ev e).0 in
        (
          next i (watch at_round (some ev.0) found),
          (k, i, handle_pre_prepare-valid b at_round k k' ev.0 found),
        )
