-- ===== src/Extract/Seals.antt =====
-- `ExtractCommittedSeals` and `HasUniqueSenders` of messages/helpers.go.
use go_ibft.Prelude.{
  ◌≡◌, refl, sym, ap, ◌↔◌, Bool, true, false, Option, none, some, List, [], ◌∷◌, ◌++◌, map, Str,
  if◌then◌else◌, contains, Distinct, str_eq, beq_refl, beq_cases, arith, ◌≢◌,
}
use mathlib.Core.List.{append_assoc, append-nil}
use go_ibft.Proto.{IbftMessage, sender, type_of, same_type, commit}
use go_ibft.Extract.{
  CommittedSeal, extract_committed_seal, extract_seals_from, extract_committed_seals,
  unique_senders_from, has_unique_senders,
}

abbrev pub all_of_type_commit : List IbftMessage → Bool
all_of_type_commit [] = true
all_of_type_commit (m ∷ ms) = if same_type (type_of m) commit then all_of_type_commit ms else false

seals_from-split :
    (acc : List (Option CommittedSeal)) (ms : List IbftMessage)
    → extract_seals_from acc ms
      ≡ (if all_of_type_commit ms then some (acc ++ map extract_committed_seal ms) else none)
unfolding extract_seals_from
seals_from-split acc [] = ap some (sym (append-nil acc))
seals_from-split acc (m ∷ ms) = ground (
  arith,
  seals_from-split (acc ++ extract_committed_seal m ∷ []) ms,
  append_assoc acc (extract_committed_seal m ∷ []) (map extract_committed_seal ms),
)

-- The seals of commit messages come out one for one and in order; any other message is an error.
pub extract_committed_seals-map :
    (ms : List IbftMessage)
    → extract_committed_seals ms
      ≡ (if all_of_type_commit ms then some (map extract_committed_seal ms) else none)
unfolding extract_committed_seals
extract_committed_seals-map ms = seals_from-split [] ms

-- The messages come from distinct senders, none of whom is in `seen`.
abbrev pub Fresh : List Str → List IbftMessage → Type 0
Fresh seen [] = Unit
Fresh seen (m ∷ ms) = (contains seen (sender m) ≡ false) × Fresh (sender m ∷ seen) ms

unique_from-Fresh :
    (seen : List Str) (ms : List IbftMessage) → unique_senders_from seen ms ≡ true → Fresh seen ms
unfolding unique_senders_from
unique_from-Fresh seen [] h = tt
unique_from-Fresh seen (m ∷ ms) h =
    (ground arith, unique_from-Fresh (sender m ∷ seen) ms (ground arith))

Fresh-unique_from :
    (seen : List Str) (ms : List IbftMessage) → Fresh seen ms → unique_senders_from seen ms ≡ true
unfolding unique_senders_from
Fresh-unique_from seen [] h = refl
Fresh-unique_from seen (m ∷ ms) h = rw h.0 (Fresh-unique_from (sender m ∷ seen) ms h.1)

-- What is met later differs from what was seen.
Fresh-contains :
    (seen : List Str) (ms : List IbftMessage) (a : Str)
    → Fresh seen ms
    → contains seen a ≡ true
    → contains (map (λ m. sender m) ms) a ≡ false
Fresh-contains seen [] a h c = refl
Fresh-contains seen (m ∷ ms) a h c =
    ground (arith, beq_cases (sender m) a, Fresh-contains (sender m ∷ seen) ms a h.1)

pub Fresh-Distinct :
    (seen : List Str) (ms : List IbftMessage) → Fresh seen ms → Distinct (map (λ m. sender m) ms)
Fresh-Distinct seen [] h = tt
Fresh-Distinct seen (m ∷ ms) h = (
  Fresh-contains (sender m ∷ seen) ms (sender m) h.1 (ground (arith, beq_refl (sender m))),
  Fresh-Distinct (sender m ∷ seen) ms h.1,
)

pub Distinct-Fresh :
    (seen : List Str) (ms : List IbftMessage)
    → Distinct (map (λ m. sender m) ms)
    → ((a : Str) → contains seen a ≡ true → contains (map (λ m. sender m) ms) a ≡ false)
    → Fresh seen ms
Distinct-Fresh seen [] d h = tt
Distinct-Fresh seen (m ∷ ms) d h = (
  ground (arith, h (sender m), beq_refl (sender m)),
  Distinct-Fresh (sender m ∷ seen) ms d.1 (λ a c. ground (arith, beq_cases (sender m) a, h a)),
)

-- `HasUniqueSenders` is true exactly if there are messages and no two have one sender.
pub has_unique_senders_iff :
    (ms : List IbftMessage)
    → (has_unique_senders ms ≡ true) ↔ ((ms ≢ []) × Distinct (map (λ m. sender m) ms))
unfolding has_unique_senders
has_unique_senders_iff [] = (λ h. cc, λ h. absurd (h.0 refl))
has_unique_senders_iff (m ∷ ms) = (
  λ h. (λ e. cc, Fresh-Distinct [] (m ∷ ms) (unique_from-Fresh [] (m ∷ ms) h)),
  λ h. Fresh-unique_from [] (m ∷ ms) (Distinct-Fresh [] (m ∷ ms) h.1 (λ a c. cc)),
)
