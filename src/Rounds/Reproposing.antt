-- ===== src/Rounds/Reproposing.antt =====
-- The proposal that a proposer builds after a round change, before `validateProposal` of another node.
use go_ibft.Prelude.{
  ℕ, ◌≡◌, ◌≢◌, refl, sym, ap, ◌∙◌, true, false, Option, none, some, List, [], ◌∷◌, map, arith, inl,
  inr, ◌⊎◌, ok, Bool-cases, ◌&&◌, leb, Distinct, str_eq, nat_eq, All, All-map,
}
use go_ibft.Proto.{
  Bytes, View, Proposal, IbftMessage, PreparedRef, nil_pc, pc_ref, proposal_message_of, rcc_ref,
  round_change_certificate, slice, items_of, sender, view_of, from_of, RoundChangeRef, rcc_messages,
  RoundChangeCertificate,
}
use go_ibft.Extract.{
  extract_latest_pc, extract_proposal, extract_proposal_hash, extract_round_change_certificate,
}
use go_ibft.Validators.{has_quorum, convert_message_to_address_set}
use go_ibft.Backend.{Backend}
use go_ibft.Node.{Node}
use go_ibft.Certificate.Made.{items_list-of}
use go_ibft.Certificate.Valid.{In, All-In}
use go_ibft.Proposals.{validate_proposal}
use go_ibft.Proposals.Accepted.{InView, AcceptedProposal}
use go_ibft.Proposals.Complete.{IsOneHash, AcceptedProposal-validate_proposal}
use go_ibft.Rounds.{build_proposal, previous_proposal, prepared_round, is_some}
use go_ibft.Rounds.Proposing.{Offers, Below, build_proposal-Highest}
use go_ibft.Rounds.Offered.{
  EntryOf, Sound, EntriesOf, prepared_entries-EntriesOf, Prepared-Offers, Offers-Prepared,
  chosen-KeepsHighest,
}

-- The loop over the messages does not panic.
previous_proposal-returns :
    (b : Backend) (n : Node) (v : View) (previous : Bytes) (max_round : ℕ) (msgs : List IbftMessage)
    → All (Sound b n v) msgs
    → (out : Bytes) × (previous_proposal previous max_round msgs ≡ ok out)
unfolding previous_proposal
previous_proposal-returns b n v previous max_round [] a = (previous, refl)
previous_proposal-returns b n v previous max_round (x ∷ msgs) ((valid, matches, one), a) =
    go (λ old r. previous_proposal-returns b n v old r msgs a) (extract_latest_pc x) refl
  where
    go :
        ((old : Bytes) (r : ℕ) → (out : Bytes) × (previous_proposal old r msgs ≡ ok out))
        → (c : PreparedRef) → extract_latest_pc x ≡ c
        → (out : Bytes) × (previous_proposal previous max_round (x ∷ msgs) ≡ ok out)
    go rest nil_pc h = let (out, run) = rest previous max_round in (out, ground (arith, h, run))
    go rest (pc_ref cert) h =
        let p = one cert h in
        let (c, l, h', round, has, e) = Prepared-Offers x cert p h in
        let known : prepared_round (proposal_message_of cert) ≡ ok p.view.round =
          ground (arith, p.has_message, p.has_proposal, p.same_round) in
        elim (Bool-cases (is_some previous && leb p.view.round max_round)) [
          | inl low ↦
              let (out, run) = rest previous max_round in (out, ground (arith, h, known, low, run))
          | inr high ↦
              let (out, run) = rest p.last.raw_proposal p.view.round in
              (out, ground (arith, h, known, high, p.has_last, run))
        ]

-- What the backend builds holds what it is given, is from the node, and has a valid hash for another.
abbrev pub Builds : Backend → Backend → Type 0
Builds b other =
    (raw : Bytes) (rcc : RoundChangeRef) (v : View)
    → let x = b.build_preprepare_message raw rcc v in
      let p : Proposal = record { raw_proposal = raw; round = v.round } in
      (view_of x ≡ some v)
      × (from_of x ≡ b.id)
      × (extract_proposal x ≡ some p)
      × (extract_round_change_certificate x ≡ rcc)
      × (other.is_valid_proposal_hash (some p) (extract_proposal_hash x) ≡ true)

-- Round change messages of a view that make a certificate for a node.
pub record Gathered (b : Backend) (n : Node) (v : View) (msgs : List IbftMessage) : Type 0 where
  pub some_messages : msgs ≢ []
  pub distinct : Distinct (map (λ x. sender x) msgs)
  pub quorum : has_quorum n.validator_manager (convert_message_to_address_set msgs) ≡ true
  pub in_view : All (InView b v) msgs
  pub sound : All (Sound b n v) msgs

-- The certificates of one round have one hash.
abbrev pub HaveOneHash : List IbftMessage → Type 0
HaveOneHash msgs =
    (x y : IbftMessage) (e e' : ℕ × Bytes)
    → In x msgs
    → In y msgs
    → EntryOf x e
    → EntryOf y e'
    → e.0 ≡ e'.0
    → e.1 ≡ e'.1

entries-IsOneHash :
    (msgs : List IbftMessage) (entries : List (ℕ × Bytes))
    → EntriesOf msgs entries
    → HaveOneHash msgs
    → IsOneHash entries
entries-IsOneHash msgs entries of one e e' i i' same =
    let (x, j, f) = of.0 e i in let (y, j', f') = of.0 e' i' in one x y e e' j j' f f' same

-- What is offered has bytes.
Sound-offered :
    (b : Backend) (n : Node) (v : View) (x : IbftMessage)
    → Sound b n v x
    → (r : ℕ) (raw : Bytes) → Offers x r raw
    → is_some raw ≡ true
Sound-offered b n v x (valid, matches, one) r raw w =
    let (c, l, h, f, has, bytes) = w in
    let p = one c h in
    let (at, made) = Offers-Prepared x c r raw p h w in
    ap is_some (ap (λ q. q.raw_proposal) (sym made)) ∙ p.has_bytes

-- The block that is chosen is valid.
chosen_valid :
    (b other : Backend) (v : View) (raw : Bytes) (msgs : List IbftMessage)
    → other.is_valid_proposal (b.build_proposal v) ≡ true
    → All (λ x. (r : ℕ) (raw : Bytes) → Offers x r raw → other.is_valid_proposal raw ≡ true) msgs
    → ((raw ≡ b.build_proposal v) × All (λ m. (r : ℕ) (offered : Bytes) → ¬ Offers m r offered) msgs
        ⊎ ((m : IbftMessage) × (round : ℕ) × In m msgs × Offers m round raw × Below round msgs))
    → other.is_valid_proposal raw ≡ true
chosen_valid b other v raw msgs fresh kept (inl (e, a)) = ap other.is_valid_proposal e ∙ fresh
chosen_valid b other v raw msgs fresh kept (inr (m, r, i, w, below)) =
    All-In (λ x. (r : ℕ) (raw : Bytes) → Offers x r raw → other.is_valid_proposal raw ≡ true) m msgs
      kept i r raw w

-- The message with the chosen block meets the checks.
chosen_accepted :
    (b other : Backend) (n : Node) (v : View) (raw : Bytes) (msgs : List IbftMessage)
    → Builds b other
    → other.is_proposer b.id v.height v.round ≡ true
    → other.is_proposer other.id v.height v.round ≡ false
    → other.is_valid_proposal raw ≡ true
    → Gathered other n v msgs
    → HaveOneHash msgs
    → All (λ m. (r : ℕ) (offered : Bytes) → ¬ Offers m r offered) msgs
      ⊎ ((m : IbftMessage) × (round : ℕ) × In m msgs × Offers m round raw × Below round msgs)
    → validate_proposal other n
        (b.build_preprepare_message raw
          (rcc_ref (round_change_certificate (slice (items_of msgs))))
          v)
        v
      ≡ ok true
chosen_accepted b other n v raw msgs builds leads follows valid g one choice =
    let cert : RoundChangeCertificate = round_change_certificate (slice (items_of msgs)) in
    let m = b.build_preprepare_message raw (rcc_ref cert) v in
    let p : Proposal = record { raw_proposal = raw; round = v.round } in
    let (of_view, sent, has, has_cert, hash) = builds raw (rcc_ref cert) v in
    let same : rcc_messages cert ≡ msgs = items_list-of msgs in
    let (entries, run, of) = prepared_entries-EntriesOf other n v msgs g.sound in
    let a : AcceptedProposal other n m v = record {
      proposal = p;
      has_proposal = has;
      same_round = refl;
      from_proposer = ap (λ x. other.is_proposer x v.height v.round) sent ∙ leads;
      valid_hash = hash;
      valid_block = valid;
      not_proposer = follows;
      certificate = cert;
      has_certificate = has_cert;
      some_messages = rw same g.some_messages;
      distinct = rw same g.distinct;
      quorum = rw same g.quorum;
      in_view = rw same g.in_view;
      message_view = v;
      has_view = of_view;
      entries = entries;
      prepared = rw same run;
      keeps_highest = chosen-KeepsHighest other n v msgs g.sound entries of p choice;
    } in
    AcceptedProposal-validate_proposal other n m v a (entries-IsOneHash msgs entries of one)

-- In a round above 0, what the proposer builds from round change messages that make a certificate is a
-- proposal message, and `validateProposal` of a node that is not the proposer accepts it: where these
-- messages are of the view, from distinct validators with a quorum, and each passes the check, with a
-- certificate, if it has one, of one round only; where the certificates of one round have one hash; where the
-- backend builds messages from what it is given; and where the node takes the sender for the proposer, and
-- for valid the blocks that the messages hold or the proposer would build anew.
pub build_proposal-validate_proposal :
    (b other : Backend) (n : Node) (v : View) (msgs : List IbftMessage)
    → v.round ≢ 0
    → Builds b other
    → other.is_proposer b.id v.height v.round ≡ true
    → other.is_proposer other.id v.height v.round ≡ false
    → other.is_valid_proposal (b.build_proposal v) ≡ true
    → All (λ x. (r : ℕ) (raw : Bytes) → Offers x r raw → other.is_valid_proposal raw ≡ true) msgs
    → Gathered other n v msgs
    → HaveOneHash msgs
    → (m : IbftMessage) × (build_proposal b v (some msgs) ≡ ok (some m))
      × (validate_proposal other n m v ≡ ok true)
unfolding build_proposal
build_proposal-validate_proposal b other n v msgs later builds leads follows fresh kept g one =
    let rcc = rcc_ref (round_change_certificate (slice (items_of msgs))) in
    let (out, run) = previous_proposal-returns other n v none 0 msgs g.sound in
    let made : Option IbftMessage = some (
      b.build_preprepare_message (elim out [ none ↦ b.build_proposal v | some raw ↦ some raw ]) rcc
        v) in
    let ran : build_proposal b v (some msgs) ≡ ok made = ground (arith, later, run) in
    let (raw, e, choice) =
      build_proposal-Highest b v msgs made later (All-map (Sound-offered other n v) msgs g.sound)
        ran in
    (
      b.build_preprepare_message raw rcc v,
      ran ∙ ap (λ x. ok x) e,
      chosen_accepted b other n v raw msgs builds leads follows
          (chosen_valid b other v raw msgs fresh kept choice) g one
          (elim choice [ inl x ↦ inl x.1 | inr y ↦ inr y ]),
    )
