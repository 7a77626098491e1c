-- ===== src/Validators.antt =====
-- The validator manager (core/validator_manager.go). Addresses are byte strings, a `big.Int` is an
-- integer of any size, and `GetVotingPowers` of the backend is a parameter.
pub mod Power
pub mod Quorum
pub mod Prepare
use go_ibft.Prelude.{
  ℕ, Bool, false, Option, none, some, List, [], ◌∷◌, Str, ◌⊎◌, inl, inr, if◌then◌else◌, add, str_eq,
}
use go_ibft.Prelude.Int.{ℤ, pos, ◌+ℤ◌, ◌*ℤ◌, ◌/ℤ◌, leb_ℤ}
use go_ibft.Prelude.Assoc.{lookup}
use go_ibft.Proto.{IbftMessage, sender, bytes_equal, from_of}

-- `map[string]*big.Int`.
abbrev pub VotingPowers : Type 0
VotingPowers = List (Str × ℤ)

pub record ValidatorManager : Type 0 where
  pub quorum_size : ℤ
  pub validators_voting_power : Option VotingPowers

-- `err_backend` stands for whatever error the backend returns.
pub data InitError : Type 0 where
  err_voting_power_not_correct err_backend : InitError

unfoldable pub new_validator_manager : ValidatorManager
new_validator_manager = record { quorum_size = pos 0; validators_voting_power = none }

unfoldable pub calculate_quorum : ℤ → ℤ
unfolding ◌*ℤ◌ ◌/ℤ◌ ◌+ℤ◌
calculate_quorum total = total *ℤ pos 2 /ℤ 3 +ℤ pos 1

unfoldable pub total_from : ℤ → VotingPowers → ℤ
unfolding ◌+ℤ◌
total_from acc [] = acc
total_from acc ((_, power) ∷ m) = total_from (acc +ℤ power) m

unfoldable pub calculate_total_voting_power : VotingPowers → ℤ
calculate_total_voting_power m = total_from (pos 0) m

-- The manager after the call, and the error if there is one.
unfoldable pub set_current_voting_power :
    ValidatorManager → VotingPowers → ValidatorManager × Option InitError
set_current_voting_power vm powers =
    let total = calculate_total_voting_power powers in
    if leb_ℤ total (pos 0) then (vm, some err_voting_power_not_correct) else (
      record vm { validators_voting_power = some powers; quorum_size = calculate_quorum total },
      none,
    )

unfoldable pub init :
    (ℕ → InitError ⊎ VotingPowers) → ValidatorManager → ℕ → ValidatorManager × Option InitError
init get_voting_powers vm height = elim (get_voting_powers height) [
  | inl err ↦ (vm, some err)
  | inr powers ↦ set_current_voting_power vm powers
]

-- The loop of `HasQuorum`.
unfoldable pub power_from : ℤ → VotingPowers → List Str → ℤ
unfolding ◌+ℤ◌
power_from acc powers [] = acc
power_from acc powers (from ∷ rest) =
    power_from (elim (lookup from powers) [ none ↦ acc | some vote ↦ acc +ℤ vote ]) powers rest

unfoldable pub has_quorum : ValidatorManager → List Str → Bool
has_quorum vm senders = elim vm.validators_voting_power [
  | none ↦ false
  | some powers ↦ leb_ℤ vm.quorum_size (power_from (pos 0) powers senders)
]

-- The loop of `HasPrepareQuorum`: `none` where the proposer is among the signers.
unfoldable pub prepare_senders : IbftMessage → List Str → List IbftMessage → Option (List Str)
prepare_senders proposal senders [] = some senders
prepare_senders proposal senders (m ∷ ms) =
    let rest = prepare_senders proposal (add (sender m) senders) ms in
    if bytes_equal (from_of m) (from_of proposal) then none else rest

-- The state's name only decides what is logged.
unfoldable pub has_prepare_quorum : ValidatorManager → Option IbftMessage → List IbftMessage → Bool
has_prepare_quorum vm none msgs = false
has_prepare_quorum vm (some proposal) msgs =
    elim (prepare_senders proposal (sender proposal ∷ []) msgs) [
      | none ↦ false
      | some senders ↦ has_quorum vm senders
    ]

unfoldable pub address_set_from : List Str → List IbftMessage → List Str
address_set_from result [] = result
address_set_from result (x ∷ xs) = address_set_from (add (sender x) result) xs

unfoldable pub convert_message_to_address_set : List IbftMessage → List Str
convert_message_to_address_set ms = address_set_from [] ms
