-- ===== src/MainLoop/Agreeing.antt =====
-- What the blocks have in common that two nodes insert at one height.
use mathlib.Core.Path.{subst}
use go_ibft.Prelude.{
  ℕ, some, refl, ◌<◌, ◌*◌, ◌≡◌, sym, ap, ◌∙◌, Bool, true, false, Option, none, List, [], ◌∷◌, Str,
  contains, str_eq, arith, All, All-map, inl, inr,
}
use go_ibft.Proto.{View, Bytes, Proposal, IbftMessage, sender}
use go_ibft.Extract.{CommittedSeal, extract_commit_hash, extract_committed_seal}
use go_ibft.Validators.{VotingPowers, ValidatorManager, init, set_current_voting_power}
use go_ibft.Validators.Quorum.{
  IsRegular, IsReady, weight, total_weight, set_current_voting_power_cases,
}
use go_ibft.Backend.{Backend}
use go_ibft.Certificate.Valid.{All-In}
use go_ibft.Node.{Node, Inserted}
use go_ibft.Rounds.{begin_sequence}
use go_ibft.Rounds.Agreement.{SealedBy-agree}
use go_ibft.MainLoop.{Runs}
use go_ibft.MainLoop.Committed.{IsSound}
use go_ibft.MainLoop.Sealing.{run_sequence-IsSealedIn}
use go_ibft.Rounds.Fitting.{Builds, FromValidator, SealedIn, IsSealedIn}

begin_sequence-IsReady :
    (b : Backend) (h : ℕ) (powers : VotingPowers) (n n' : Node)
    → b.get_voting_powers h ≡ inr powers
    → IsRegular powers
    → begin_sequence b h n ≡ (n', none)
    → IsReady n'.validator_manager powers
unfolding begin_sequence init
begin_sequence-IsReady b h powers n n' p r e =
    elim (set_current_voting_power_cases n.validator_manager powers r) [
      | inl (pos, fine, ready) ↦
          let same : (set_current_voting_power n.validator_manager powers).0
              ≡ n'.validator_manager =
            ground (arith, p, fine, e) in
          subst (λ vm. IsReady vm powers) same ready
      | inr (zero, wrong, kept) ↦ absurd (ground (arith, p, wrong, e))
    ]

IsReady-unique :
    (vm vm' : ValidatorManager) (powers : VotingPowers)
    → IsReady vm powers
    → IsReady vm' powers
    → vm' ≡ vm
IsReady-unique vm vm' powers r r' =
    ap (λ q. record { quorum_size = q; validators_voting_power = vm'.validators_voting_power })
      (r'.quorum ∙ sym r.quorum)
    ∙ ap (λ p. record { quorum_size = vm.quorum_size; validators_voting_power = p })
        (r'.powers ∙ sym r.powers)

-- The two backends verify hashes, seals and senders alike.
pub record VerifiesAlike (b b' : Backend) : Type 0 where
  pub hash :
      (p : Option Proposal) (x : Bytes)
      → b'.is_valid_proposal_hash p x ≡ b.is_valid_proposal_hash p x
  pub seal :
      (x : Bytes) (s : Option CommittedSeal)
      → b'.is_valid_committed_seal x s ≡ b.is_valid_committed_seal x s
  pub validator : (m : IbftMessage) → b'.is_valid_validator m ≡ b.is_valid_validator m

SealedIn-alike :
    (b b' : Backend) (vm vm' : ValidatorManager) (v : View) (p : Option Proposal)
    (seals : List (Option CommittedSeal))
    → VerifiesAlike b b'
    → vm' ≡ vm
    → SealedIn b' vm' v p seals
    → SealedIn b vm v p seals
SealedIn-alike b b' vm vm' v p seals alike same (s, from) = (
  record {
    commits = s.commits;
    quorum = rw same at s.quorum;
    from_commits = s.from_commits;
    valid_hashes =
        All-map (λ m t. sym (alike.hash p (extract_commit_hash m)) ∙ t) s.commits s.valid_hashes;
    valid_seals =
        All-map (λ m t. sym (alike.seal (extract_commit_hash m) (extract_committed_seal m)) ∙ t)
          s.commits s.valid_seals;
  },
  All-map (λ m (at, kind, t). (at, kind, sym (alike.validator m) ∙ t)) s.commits from,
)

-- The seal of the message is valid for its hash.
abbrev pub HasSeal : Backend → IbftMessage → Type 0
HasSeal b m = b.is_valid_committed_seal (extract_commit_hash m) (extract_committed_seal m) ≡ true

-- The sender commits to one hash in the view: that of each of its valid commit messages.
abbrev pub CommitsTo : Backend → View → Str → Bytes → Type 0
CommitsTo b v a hash =
    (m : IbftMessage)
    → FromValidator b v m
    → HasSeal b m
    → sender m ≡ a
    → extract_commit_hash m ≡ hash

SealedIn-agree :
    (b : Backend) (vm : ValidatorManager) (powers : VotingPowers) (faulty : List Str)
    (sealed : Str → Bytes) (v : View) (p p' : Option Proposal)
    (seals seals' : List (Option CommittedSeal))
    → IsRegular powers
    → IsReady vm powers
    → weight powers (contains faulty) * 3 < total_weight powers
    → ((a : Str) → contains faulty a ≡ false → CommitsTo b v a (sealed a))
    → SealedIn b vm v p seals
    → SealedIn b vm v p' seals'
    → (hash : Bytes) × (b.is_valid_proposal_hash p hash ≡ true)
      × (b.is_valid_proposal_hash p' hash ≡ true)
SealedIn-agree b vm powers faulty sealed v p p' seals seals' r ready few honest (s, from)
      (s', from') =
    SealedBy-agree powers faulty p p' seals seals' r ready few s s' (λ m m' i j f good.
      honest (sender m) good m (All-In (FromValidator b v) m s.commits from i)
        (All-In (HasSeal b) m s.commits s.valid_seals i) refl
      ∙ sym (
          honest (sender m) good m' (All-In (FromValidator b v) m' s'.commits from' j)
            (All-In (HasSeal b) m' s'.commits s'.valid_seals j) (sym f)))

-- Where the validators outside a set with less than a third of a regular map of voting powers have one hash
-- each in their signed commit messages with a valid seal in the view of a height and a round: if two
-- nodes that had inserted nothing run a sequence for this height that started without an error, with
-- these voting powers and with backends that verify alike and build proposals of the round asked for, and
-- their stores held signed messages in their places, and each has inserted a block of this round, then
-- there is a hash that is valid for both blocks.
pub run_sequences-agree :
    (b b' : Backend) (h : ℕ) (powers : VotingPowers) (faulty : List Str) (sealed : Str → Bytes)
    (n n₁ n₂ k k₁ k₂ : Node) (returned returned' : Bool) (x y : Inserted)
    → b.get_voting_powers h ≡ inr powers
    → b'.get_voting_powers h ≡ inr powers
    → VerifiesAlike b b'
    → Builds b
    → Builds b'
    → IsRegular powers
    → weight powers (contains faulty) * 3 < total_weight powers
    → ((a : Str)
        → contains faulty a ≡ false
        → CommitsTo b (record { height = h; round = x.proposal.round }) a (sealed a))
    → n.inserted ≡ []
    → k.inserted ≡ []
    → IsSound b n
    → IsSound b' k
    → begin_sequence b h n ≡ (n₁, none)
    → begin_sequence b' h k ≡ (k₁, none)
    → Runs b h n₁ n₂ returned
    → Runs b' h k₁ k₂ returned'
    → n₂.inserted ≡ x ∷ []
    → k₂.inserted ≡ y ∷ []
    → y.proposal.round ≡ x.proposal.round
    → (hash : Bytes) × (b.is_valid_proposal_hash (some x.proposal) hash ≡ true)
      × (b.is_valid_proposal_hash (some y.proposal) hash ≡ true)
run_sequences-agree b b' h powers faulty sealed n n₁ n₂ k k₁ k₂ returned returned' x y powers_of
      powers_of' alike builds builds' r few honest e e' sound sound' start start' runs runs' ins
      ins' round =
    let ready = begin_sequence-IsReady b h powers n n₁ powers_of r start in
    let ready' = begin_sequence-IsReady b' h powers k k₁ powers_of' r start' in
    let same = IsReady-unique n₁.validator_manager k₁.validator_manager powers ready ready' in
    let s =
      (subst (λ l. All (IsSealedIn b n₁.validator_manager h) l) ins
        (run_sequence-IsSealedIn b h n n₁ n₂ returned builds start e sound runs)).0 in
    let s' =
      (subst (λ l. All (IsSealedIn b' k₁.validator_manager h) l) ins'
        (run_sequence-IsSealedIn b' h k k₁ k₂ returned' builds' start' e' sound' runs')).0 in
    let v : View = record { height = h; round = x.proposal.round } in
    SealedIn-agree b n₁.validator_manager powers faulty sealed v (some x.proposal) (some y.proposal)
      x.seals y.seals r ready few honest s
      (SealedIn-alike b b' n₁.validator_manager k₁.validator_manager v (some y.proposal) y.seals
        alike same
        (subst
          (λ q.
            SealedIn b' k₁.validator_manager (record { height = h; round = q }) (some y.proposal)
              y.seals)
          round s'))
