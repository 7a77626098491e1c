-- ===== src/Workers/Matched.antt =====
-- A proposer that has received the certificate of its round, from its store to what the others say of its
-- proposal.
use go_ibft.Prelude.{
  ℕ, ◌≡◌, ◌≢◌, refl, ap, ◌∙◌, true, false, some, List, [], ◌∷◌, arith, inl, inr, nat_eq, str_eq,
  All, All-map, Option-cases, ok,
}
use go_ibft.Proto.{Bytes, View, IbftMessage, PreparedCertificate, round_change, view_of, pc_ref}
use go_ibft.Extract.{extract_latest_pc, extract_last_prepared_proposal}
use go_ibft.Validators.{has_quorum, convert_message_to_address_set}
use go_ibft.Backend.{Backend}
use go_ibft.Certificate.Same.{SameChecks, valid_pc-same, proposal_matches_certificate-same}
use go_ibft.Node.{Node, has_quorum_by_msg_type}
use go_ibft.Messages.{ProtoMessages, rounds_at}
use go_ibft.Messages.WellFormed.{IsWellFormed, IsFiled, IsFiledOnce}
use go_ibft.Messages.Keyed.{IsKeyed}
use go_ibft.Proposals.{validate_proposal}
use go_ibft.Proposals.Accepted.{InView}
use go_ibft.Rounds.{
  handle_round_change_message, build_proposal, is_valid_round_change, is_valid_rcc,
}
use go_ibft.Rounds.Proposing.{Offers}
use go_ibft.Rounds.Offered.{Prepared, Sound}
use go_ibft.Rounds.Reproposing.{Builds, Gathered, HaveOneHash, build_proposal-validate_proposal}
use go_ibft.Workers.Hopping.{IsCertified, Holds-All, valid_of-All}
use go_ibft.Workers.Certifying.{entries-All}
use go_ibft.Workers.Unmatched.{handle_round_change_message-entry}
use go_ibft.Messages.Passing.{valid_of-passed, valid_of-Distinct}

-- The messages of each round stand once under their senders.
filed_once :
    (n : Node) (h : ℕ)
    → IsWellFormed n.messages
    → IsKeyed n.messages
    → All (λ e. IsFiledOnce round_change h e.0 e.1) (rounds_at n.messages.round_change_messages h)
filed_once n h w k =
    entries-All (λ r pm. IsFiledOnce round_change h r pm)
      (rounds_at n.messages.round_change_messages h) (k round_change h) (λ r i. w round_change h r)

-- What the check says of a message, and that it is about one round, makes it sound.
checked-Sound :
    (b : Backend) (n : Node) (v : View) (x : IbftMessage)
    → view_of x ≡ some v
    → is_valid_round_change b n v.height x ≡ ok true
    → ((cert : PreparedCertificate) → extract_latest_pc x ≡ pc_ref cert → Prepared x cert)
    → Sound b n v x
unfolding is_valid_round_change
checked-Sound b n v x e h one = (ground (arith, e, h), ground (arith, e, h), one)

is_valid_round_change-same :
    (b other : Backend) (n k : Node) (height : ℕ) (x : IbftMessage)
    → k.validator_manager ≡ n.validator_manager
    → SameChecks b other
    → is_valid_round_change other k height x ≡ is_valid_round_change b n height x
unfolding is_valid_round_change
is_valid_round_change-same b other n k height x powers same = elim (Option-cases (view_of x)) [
  | inl e ↦ ground (arith, e)
  | inr (v, e) ↦ ground (
    arith,
    e,
    powers,
    valid_pc-same b other same n.validator_manager (extract_latest_pc x) v.round height,
    proposal_matches_certificate-same b other same (extract_last_prepared_proposal x)
        (extract_latest_pc x),
  )
]

is_valid_rcc-quorum :
    (n : Node) (v : View) (round : ℕ) (msgs : List IbftMessage)
    → is_valid_rcc n v round msgs ≡ ok true
    → has_quorum n.validator_manager (convert_message_to_address_set msgs) ≡ true
unfolding is_valid_rcc has_quorum_by_msg_type
is_valid_rcc-quorum n v round msgs h = ground arith

-- The stored messages of the height are from validators.
abbrev pub FromValidators : Backend → View → Node → Type 0
FromValidators b v n =
    All (λ e. All (λ m. b.is_valid_validator m.1 ≡ true) e.1)
      (rounds_at n.messages.round_change_messages v.height)

filed-InView :
    (b : Backend) (v : View) (pm : ProtoMessages)
    → All (IsFiled round_change v.height v.round) pm
    → All (λ m. b.is_valid_validator m.1 ≡ true) pm
    → All (λ m. InView b v m.1) pm
filed-InView b v [] f a = tt
filed-InView b v (m ∷ pm) (f, fs) (g, gs) = (
  record {
    is_round_change = f.of_type;
    view = record { height = v.height; round = v.round };
    has_view = f.of_view;
    same_height = refl;
    same_round = refl;
    valid_sender = g;
  },
  filed-InView b v pm fs gs,
)

-- Each certificate that the messages carry is of one round.
abbrev pub HaveOneRound : List IbftMessage → Type 0
HaveOneRound msgs =
    All (λ x. (cert : PreparedCertificate) → extract_latest_pc x ≡ pc_ref cert → Prepared x cert)
      msgs

messages-Sound :
    (b : Backend) (n : Node) (v : View) (msgs : List IbftMessage)
    → All (λ x. view_of x ≡ some (record { height = v.height; round = v.round })) msgs
    → All (λ x. is_valid_round_change b n v.height x ≡ ok true) msgs
    → HaveOneRound msgs
    → All (Sound b n v) msgs
messages-Sound b n v [] e h one = tt
messages-Sound b n v (x ∷ msgs) (e, es) (h, hs) (one, ones) =
    (checked-Sound b n v x e h one, messages-Sound b n v msgs es hs ones)

-- What a proposer finds in its store for its round makes a certificate for every node that makes the same
-- checks.
found-Gathered :
    (b other : Backend) (v : View) (n k : Node) (msgs : List IbftMessage)
    → IsWellFormed n.messages
    → IsKeyed n.messages
    → FromValidators other v n
    → k.validator_manager ≡ n.validator_manager
    → SameChecks b other
    → IsCertified b v n v.round
    → handle_round_change_message b v n ≡ ok (some msgs)
    → msgs ≢ []
    → HaveOneRound msgs
    → Gathered other k v msgs
found-Gathered b other v n k msgs w keyed good powers same certified h some_messages one =
    let check = is_valid_round_change b n v.height in
    let rs = rounds_at n.messages.round_change_messages v.height in
    let (pm, hold, valid, quorum) =
      handle_round_change_message-entry b v n msgs v.round h certified in
    let (distinct, filed) =
      Holds-All (λ p i. IsFiledOnce round_change v.height i p) rs v.round pm
        (filed_once n v.height w keyed) hold in
    let from =
      Holds-All (λ p i. All (λ m. other.is_valid_validator m.1 ≡ true) p) rs v.round pm good hold in
    let views =
      valid_of-All (λ x. view_of x ≡ some (record { height = v.height; round = v.round })) check pm
        msgs valid (All-map (λ e f. f.of_view) pm filed) in
    record {
      some_messages = some_messages;
      distinct = valid_of-Distinct check pm msgs (All-map (λ e f. f.key) pm filed) distinct valid;
      quorum =
          ap (λ vm. has_quorum vm (convert_message_to_address_set msgs)) powers
          ∙ is_valid_rcc-quorum n v v.round msgs quorum;
      in_view =
          valid_of-All (InView other v) check pm msgs valid (filed-InView other v pm filed from);
      sound =
          messages-Sound other k v msgs views
            (All-map
              (λ x passed. is_valid_round_change-same b other n k v.height x powers same ∙ passed)
              msgs (valid_of-passed check pm msgs valid))
            one;
    }

-- A proposer in a round above 0, whose round is the highest that has a certificate in its store, builds a
-- proposal message from the messages that it is given for it, and `validateProposal` of every other node
-- with the same validators and the same checks in its backend accepts it. The store is well formed
-- with one entry for each round, the stored messages of the height are from validators and there are some;
-- each prepared certificate among them is of one round, and those of one round have one hash; the backend
-- builds messages from what it is given; and the other node takes the sender for the proposer, not itself,
-- and for valid the blocks that the messages hold or the proposer would build anew.
pub handle_round_change_message-validate_proposal :
    (b other : Backend) (v : View) (n k : Node) (msgs : List IbftMessage)
    → IsWellFormed n.messages
    → IsKeyed n.messages
    → FromValidators other v n
    → v.round ≢ 0
    → IsCertified b v n v.round
    → handle_round_change_message b v n ≡ ok (some msgs)
    → msgs ≢ []
    → HaveOneRound msgs
    → HaveOneHash msgs
    → Builds b other
    → k.validator_manager ≡ n.validator_manager
    → SameChecks b other
    → other.is_proposer b.id v.height v.round ≡ true
    → other.is_proposer other.id v.height v.round ≡ false
    → other.is_valid_proposal (b.build_proposal v) ≡ true
    → All (λ x. (r : ℕ) (raw : Bytes) → Offers x r raw → other.is_valid_proposal raw ≡ true) msgs
    → (m : IbftMessage) × (build_proposal b v (some msgs) ≡ ok (some m))
      × (validate_proposal other k m v ≡ ok true)
handle_round_change_message-validate_proposal b other v n k msgs w keyed good later certified h
      some_messages one hash builds powers same leads follows fresh kept =
    build_proposal-validate_proposal b other k v msgs later builds leads follows fresh kept
      (found-Gathered b other v n k msgs w keyed good powers same certified h some_messages one)
      hash
