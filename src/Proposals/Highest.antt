-- ===== src/Proposals/Highest.antt =====
-- The highest prepared round among the messages of a certificate (the end of `validateProposal`).
use mathlib.Core.Path.{subst}
use go_ibft.Prelude.{
  ℕ, ◌≤◌, ◌≡◌, refl, sym, ap, Bool, true, some, List, [], ◌∷◌, if◌then◌else◌, arith, ◌⊎◌, inl, inr,
  str_eq, All, Bool-cases, leb,
}
use go_ibft.Proto.{Bytes, Proposal}
use go_ibft.Backend.{Backend}
use go_ibft.Proposals.{max_from, matches_prepared}

abbrev pub Among : ℕ × Bytes → List (ℕ × Bytes) → Type 0
Among x [] = ⊥
Among x (e ∷ es) = (x ≡ e) ⊎ Among x es

-- The outcome is an entry, or what the loop began with, and no entry has a higher round.
abbrev pub Highest : ℕ → Bytes → List (ℕ × Bytes) → ℕ × Bytes → Type 0
Highest r h es out = (r ≤ out.0) × All (λ e. e.0 ≤ out.0) es × ((out ≡ (r, h)) ⊎ Among out es)

pub max_from-Highest :
    (r : ℕ) (h : Bytes) (es : List (ℕ × Bytes)) → Highest r h es (max_from r h es)
unfolding max_from
max_from-Highest r h [] = (omega arith, tt, inl refl)
max_from-Highest r h ((r', h') ∷ es) = elim (Bool-cases (leb r r')) [
  | inl t ↦
      let (low, all, from) = max_from-Highest r' h' es in
      subst (Highest r h ((r', h') ∷ es)) (sym (next t)) (ground arith, (low, all), inr from)
  | inr t ↦
      let (low, all, from) = max_from-Highest r h es in
      subst (Highest r h ((r', h') ∷ es)) (sym (next t)) (low, (ground arith, all), later from)
]
  where
    next :
        {b : Bool}
        → leb r r' ≡ b
        → max_from r h ((r', h') ∷ es) ≡ max_from (if b then r' else r) (if b then h' else h) es
    next = ap (λ b. max_from (if b then r' else r) (if b then h' else h) es)

    later :
        {out : ℕ × Bytes}
        → (out ≡ (r, h)) ⊎ Among out es
        → (out ≡ (r, h)) ⊎ Among out ((r', h') ∷ es)
    later (inl e) = inl e
    later (inr i) = inr (inr i)

-- The raw proposal has the hash of an entry of the highest round, if there is any entry.
abbrev pub KeepsHighest : Backend → Proposal → List (ℕ × Bytes) → Type 0
KeepsHighest b p entries =
    (entries ≡ [])
    ⊎ ((e : ℕ × Bytes) × Among e entries
        × All (λ x. x.0 ≤ e.0) entries
        × (b.is_valid_proposal_hash (some (record { raw_proposal = p.raw_proposal; round = e.0 }))
              e.1
            ≡ true))

pub matches_prepared-KeepsHighest :
    (b : Backend) (p : Proposal) (entries : List (ℕ × Bytes))
    → matches_prepared b p entries ≡ true
    → KeepsHighest b p entries
unfolding matches_prepared max_from
matches_prepared-KeepsHighest b p [] h = inl refl
matches_prepared-KeepsHighest b p ((r, x) ∷ es) h =
    let (low, all, from) = max_from-Highest r x es in
    inr (max_from r x es, among from, (low, all), ground arith)
  where
    among :
        (max_from r x es ≡ (r, x)) ⊎ Among (max_from r x es) es
        → Among (max_from r x es) ((r, x) ∷ es)
    among f = f
