-- ===== src/Certificate/Same.antt =====
-- Two backends with the same checks give the same answers on certificates.
use mathlib.Core.Path.{fun_ext}
use go_ibft.Prelude.{
  ℕ, ◌≡◌, refl, ap, Bool, Option, none, some, List, [], ◌∷◌, arith, inl, inr, Option-cases, ok,
  ◌>>=◌, nat_eq, str_eq,
}
use go_ibft.Proto.{
  Bytes, Proposal, IbftMessage, PreparedRef, nil_pc, pc_ref, prepared_certificate, message_ref,
  nil_message, slice, nil_slice, items_list, view_of, from_of,
}
use go_ibft.Validators.{ValidatorManager}
use go_ibft.Backend.{Backend}
use go_ibft.Certificate.{
  valid_signers, valid_proposer, valid_pc_messages, valid_pc, all_hashes_valid, certificate_hashes,
  proposal_matches_certificate,
}

pub record SameChecks (b : Backend) (c : Backend) : Type 0 where
  pub validator : (m : IbftMessage) → c.is_valid_validator m ≡ b.is_valid_validator m
  pub proposer : (id : Bytes) (h r : ℕ) → c.is_proposer id h r ≡ b.is_proposer id h r
  pub hash :
      (p : Option Proposal) (x : Bytes)
      → c.is_valid_proposal_hash p x ≡ b.is_valid_proposal_hash p x

module _ (b c : Backend) (same : SameChecks b c) where
  valid_signers-same : (ms : List IbftMessage) → valid_signers c ms ≡ valid_signers b ms
  unfolding valid_signers
  valid_signers-same [] = refl
  valid_signers-same (m ∷ ms) = elim (Option-cases (view_of m)) [
    | inl e ↦ ground (arith, e, same.validator m)
    | inr (v, e) ↦ ground (
      arith,
      e,
      same.validator m,
      same.proposer (from_of m) v.height v.round,
      valid_signers-same ms,
    )
  ]

  valid_proposer-same :
      (m : IbftMessage) (ps : List IbftMessage) → valid_proposer c m ps ≡ valid_proposer b m ps
  unfolding valid_proposer
  valid_proposer-same m ps = elim (Option-cases (view_of m)) [
    | inl e ↦ ground (arith, e)
    | inr (v, e) ↦ ground (
      arith,
      e,
      same.validator m,
      same.proposer (from_of m) v.height v.round,
      valid_signers-same ps,
    )
  ]

  pub valid_pc-same :
      (vm : ValidatorManager) (pc : PreparedRef) (limit height : ℕ)
      → valid_pc c vm pc limit height ≡ valid_pc b vm pc limit height
  unfolding valid_pc valid_pc_messages
  valid_pc-same vm nil_pc limit height = refl
  valid_pc-same vm (pc_ref (prepared_certificate nil_message ps)) limit height = refl
  valid_pc-same vm (pc_ref (prepared_certificate (message_ref m) nil_slice)) limit height = refl
  valid_pc-same vm (pc_ref (prepared_certificate (message_ref m) (slice ps))) limit height =
      ground (arith, valid_proposer-same m (items_list ps))

  all_hashes_valid-same :
      (p : Option Proposal) (hs : List Bytes) → all_hashes_valid c p hs ≡ all_hashes_valid b p hs
  unfolding all_hashes_valid
  all_hashes_valid-same p [] = refl
  all_hashes_valid-same p (h ∷ hs) = ground (arith, same.hash p h, all_hashes_valid-same p hs)

  pub proposal_matches_certificate-same :
      (p : Option Proposal) (pc : PreparedRef)
      → proposal_matches_certificate c p pc ≡ proposal_matches_certificate b p pc
  unfolding proposal_matches_certificate
  proposal_matches_certificate-same none nil_pc = refl
  proposal_matches_certificate-same (some p) nil_pc = refl
  proposal_matches_certificate-same p (pc_ref (prepared_certificate m ps)) =
      ap (λ (f : List Bytes → Bool). certificate_hashes m ps >>= λ hashes. ok (f hashes))
        (fun_ext (all_hashes_valid-same p))
