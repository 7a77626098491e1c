-- ===== src/Validators/Prepare.antt =====
-- The senders of messages (`convertMessageToAddressSet`) and the prepare quorum (`HasPrepareQuorum`).
use go_ibft.Prelude.{
  ◌≡◌, refl, false, ◌||◌, none, some, List, [], ◌∷◌, map, Str, if◌then◌else◌, contains, Distinct,
  add, contains-add, add-Distinct, str_eq, arith,
}
use go_ibft.Proto.{IbftMessage, sender}
use go_ibft.Validators.{
  ValidatorManager, has_quorum, prepare_senders, has_prepare_quorum, address_set_from,
  convert_message_to_address_set,
}

abbrev pub senders : List IbftMessage → List Str
senders = map (λ m. sender m)

address_set_from-Distinct :
    (s : List Str) (ms : List IbftMessage) → Distinct s → Distinct (address_set_from s ms)
unfolding address_set_from
address_set_from-Distinct s [] d = d
address_set_from-Distinct s (m ∷ ms) d =
    address_set_from-Distinct (add (sender m) s) ms (add-Distinct (sender m) s d)

contains-address_set_from :
    (s : List Str) (ms : List IbftMessage) (a : Str)
    → contains (address_set_from s ms) a ≡ (contains (senders ms) a || contains s a)
unfolding address_set_from
contains-address_set_from s [] a = refl
contains-address_set_from s (m ∷ ms) a =
    ground (arith, contains-address_set_from (add (sender m) s) ms a, contains-add (sender m) a s)

pub convert-Distinct : (ms : List IbftMessage) → Distinct (convert_message_to_address_set ms)
unfolding convert_message_to_address_set
convert-Distinct ms = address_set_from-Distinct [] ms tt

-- The set has exactly the senders of the messages.
pub contains-convert :
    (ms : List IbftMessage) (a : Str)
    → contains (convert_message_to_address_set ms) a ≡ contains (senders ms) a
unfolding convert_message_to_address_set
contains-convert ms a = ground (arith, contains-address_set_from [] ms a)

prepare_senders-split :
    (p : IbftMessage) (s : List Str) (ms : List IbftMessage)
    → prepare_senders p s ms
      ≡ (if contains (senders ms) (sender p) then none else some (address_set_from s ms))
unfolding prepare_senders address_set_from
prepare_senders-split p s [] = refl
prepare_senders-split p s (m ∷ ms) = ground (arith, prepare_senders-split p (add (sender m) s) ms)

-- The prepare quorum: a proposal is there, its proposer sent none of the messages, and the proposer
-- and the senders together have a quorum.
pub has_prepare_quorum-split :
    (vm : ValidatorManager) (p : IbftMessage) (ms : List IbftMessage)
    → (has_prepare_quorum vm none ms ≡ false)
      × (has_prepare_quorum vm (some p) ms ≡ (
          if contains (senders ms) (sender p)
          then false
          else has_quorum vm (convert_message_to_address_set (p ∷ ms))))
unfolding has_prepare_quorum convert_message_to_address_set address_set_from
has_prepare_quorum-split vm p ms =
    (refl, ground (arith, prepare_senders-split p (sender p ∷ []) ms))
