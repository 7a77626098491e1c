-- ===== src/Rounds/Faults.antt =====
-- Where `buildProposal` faults.
use mathlib.Core.Path.{subst}
use go_ibft.Prelude.{
  ℕ, ◌≡◌, ◌≢◌, refl, Option, none, some, List, [], ◌∷◌, arith, inl, inr, nat_eq, Result, ok, panic,
}
use go_ibft.Proto.{
  Bytes, View, IbftMessage, Proposal, PreparedRef, PreparedCertificate, nil_pc, pc_ref,
  proposal_message_of, message_ref,
}
use go_ibft.Extract.{extract_latest_pc, extract_proposal, extract_last_prepared_proposal}
use go_ibft.Backend.{Backend}
use go_ibft.Certificate.Valid.{In}
use go_ibft.Rounds.{build_proposal, previous_proposal, prepared_round}

-- The message has a certificate whose proposal message carries no proposal.
abbrev pub HasEmptyPc : IbftMessage → Type 0
HasEmptyPc x =
    (cert : PreparedCertificate) × (m : IbftMessage) × (extract_latest_pc x ≡ pc_ref cert)
    × (proposal_message_of cert ≡ message_ref m)
    × (extract_proposal m ≡ none)

previous_proposal-here :
    (previous : Bytes) (max_round : ℕ) (x : IbftMessage) (msgs : List IbftMessage)
    → HasEmptyPc x
    → previous_proposal previous max_round (x ∷ msgs) ≡ panic
unfolding previous_proposal prepared_round
previous_proposal-here previous max_round x msgs (cert, m, h, of, nothing) =
    ground (arith, h, of, nothing)

previous_proposal-there :
    (previous : Bytes) (max_round : ℕ) (x : IbftMessage) (msgs : List IbftMessage)
    → ((old : Bytes) (r : ℕ) → previous_proposal old r msgs ≡ panic)
    → previous_proposal previous max_round (x ∷ msgs) ≡ panic
unfolding previous_proposal
previous_proposal-there previous max_round x msgs rest = go (extract_latest_pc x) refl
  where
    chosen :
        (cert : PreparedCertificate) (r : ℕ)
        → extract_latest_pc x ≡ pc_ref cert
        → prepared_round (proposal_message_of cert) ≡ ok r
        → (o : Option Proposal) → extract_last_prepared_proposal x ≡ o
        → previous_proposal previous max_round (x ∷ msgs) ≡ panic
    chosen cert r h f none e = ground (arith, h, f, e, rest previous max_round)
    chosen cert r h f (some p) e =
        ground (arith, h, f, e, rest previous max_round, rest p.raw_proposal r)

    go :
        (c : PreparedRef)
        → extract_latest_pc x ≡ c
        → previous_proposal previous max_round (x ∷ msgs) ≡ panic
    go nil_pc h = ground (arith, h, rest previous max_round)
    go (pc_ref cert) h = reads (prepared_round (proposal_message_of cert)) refl
      where
        reads :
            (o : Result ℕ)
            → prepared_round (proposal_message_of cert) ≡ o
            → previous_proposal previous max_round (x ∷ msgs) ≡ panic
        reads panic f = ground (arith, h, f)
        reads (ok r) f = chosen cert r h f (extract_last_prepared_proposal x) refl

previous_proposal-panic :
    (previous : Bytes) (max_round : ℕ) (x : IbftMessage) (msgs : List IbftMessage)
    → In x msgs
    → HasEmptyPc x
    → previous_proposal previous max_round msgs ≡ panic
previous_proposal-panic previous max_round x [] i w = absurd i
previous_proposal-panic previous max_round x (y ∷ msgs) (inl e) w =
    previous_proposal-here previous max_round y msgs (subst HasEmptyPc e w)
previous_proposal-panic previous max_round x (y ∷ msgs) (inr i) w =
    previous_proposal-there previous max_round y msgs
      (λ old r. previous_proposal-panic old r x msgs i w)

-- In a round above 0, `buildProposal` panics on a round change certificate in which the prepared certificate
-- of some message has a proposal message that carries no proposal.
pub build_proposal-panic :
    (b : Backend) (v : View) (x : IbftMessage) (msgs : List IbftMessage)
    → v.round ≢ 0
    → In x msgs
    → HasEmptyPc x
    → build_proposal b v (some msgs) ≡ panic
unfolding build_proposal
build_proposal-panic b v x msgs later i w =
    ground (arith, later, previous_proposal-panic none 0 x msgs i w)
