-- ===== src/Tests/Certificates.antt =====
-- Prepared certificates of the four validators.
use go_ibft.Prelude.{
  ℕ, ◌≡◌, refl, sym, ◌∙◌, ◌↔◌, true, some, List, [], ◌∷◌, Str, str_eq, arith, All, ok,
}
use go_ibft.Proto.{IbftMessage, to_string}
use go_ibft.Extract.{
  are_valid_pc_messages, extract_pc_message_hash, extract_proposal_hash, extract_prepare_hash,
}
use go_ibft.Extract.Pc.{InPc, AgreeingPc, pc_hash, are_valid_pc_messages_iff}
use go_ibft.Validators.{has_quorum, power_from, convert_message_to_address_set, address_set_from}
use go_ibft.Certificate.{valid_pc_messages, valid_pc}
use go_ibft.Certificate.Valid.{ValidPc, In, All-In, valid_pc_messages_iff}
use go_ibft.Certificate.Agreeing.{certificate_of, valid_pc-agree}
use go_ibft.Tests.{address, powers, manager, a_view, preprepare_from, prepare_from, backend}
use go_ibft.Tests.Quorums.{powers-IsRegular, manager-IsReady, few_faulty}

abbrev h9 : Str
h9 = 9 ∷ []

abbrev prepares : List IbftMessage
prepares = prepare_from 2 ∷ prepare_from 3 ∷ []

abbrev prepares' : List IbftMessage
prepares' = prepare_from 3 ∷ prepare_from 4 ∷ []

InPc-of_preprepare : (k : ℕ) → InPc 5 1 (preprepare_from k)
unfolding extract_pc_message_hash extract_proposal_hash
InPc-of_preprepare k = record {
  view = a_view;
  has_view = refl;
  same_height = refl;
  same_round = refl;
  is_pc_type = refl;
}

InPc-of_prepare : (k : ℕ) → InPc 5 1 (prepare_from k)
unfolding extract_pc_message_hash extract_prepare_hash
InPc-of_prepare k = record {
  view = a_view;
  has_view = refl;
  same_height = refl;
  same_round = refl;
  is_pc_type = refl;
}

a_pc : AgreeingPc 5 2 (9 ∷ []) (preprepare_from 1 ∷ prepares)
unfolding extract_pc_message_hash extract_proposal_hash extract_prepare_hash
a_pc = record {
  round = 1;
  below = omega arith;
  in_pc = (InPc-of_preprepare 1, (InPc-of_prepare 2, (InPc-of_prepare 3, tt)));
  same_hash = (refl, (refl, (refl, tt)));
  distinct = (refl, (refl, (refl, tt)));
}

another_pc : AgreeingPc 5 2 (9 ∷ []) (preprepare_from 1 ∷ prepares')
unfolding extract_pc_message_hash extract_proposal_hash extract_prepare_hash
another_pc = record {
  round = 1;
  below = omega arith;
  in_pc = (InPc-of_preprepare 1, (InPc-of_prepare 3, (InPc-of_prepare 4, tt)));
  same_hash = (refl, (refl, (refl, tt)));
  distinct = (refl, (refl, (refl, tt)));
}

preprepare_hash : pc_hash (preprepare_from 1) ≡ some (9 ∷ [])
unfolding extract_pc_message_hash extract_proposal_hash
preprepare_hash = refl

are_valid_pc_messages_iff_example :
    (are_valid_pc_messages (preprepare_from 1 ∷ prepares) 5 2 ≡ ok true)
    ↔ AgreeingPc 5 2 (9 ∷ []) (preprepare_from 1 ∷ prepares)
are_valid_pc_messages_iff_example =
    are_valid_pc_messages_iff (preprepare_from 1) prepares 5 2 (9 ∷ []) preprepare_hash

valid_pc_messages_iff_example :
    (valid_pc_messages backend manager (preprepare_from 1) prepares 2 5 ≡ ok true)
    ↔ ValidPc backend manager (preprepare_from 1) prepares 2 5 (9 ∷ [])
valid_pc_messages_iff_example =
    valid_pc_messages_iff backend manager (preprepare_from 1) prepares 2 5 (9 ∷ []) preprepare_hash

prepares_quorum :
    has_quorum manager (convert_message_to_address_set (preprepare_from 1 ∷ prepares)) ≡ true
unfolding has_quorum power_from convert_message_to_address_set address_set_from
prepares_quorum = refl

prepares'_quorum :
    has_quorum manager (convert_message_to_address_set (preprepare_from 1 ∷ prepares')) ≡ true
unfolding has_quorum power_from convert_message_to_address_set address_set_from
prepares'_quorum = refl

first-ValidPc : ValidPc backend manager (preprepare_from 1) prepares 2 5 (9 ∷ [])
first-ValidPc = record {
  quorum = prepares_quorum;
  is_preprepare = refl;
  are_prepares = (refl, (refl, tt));
  agreeing = a_pc;
  from_proposer = refl;
  valid_proposer = refl;
  valid_signers = (refl, (refl, tt));
  no_proposer = (refl, (refl, tt));
}

second-ValidPc : ValidPc backend manager (preprepare_from 1) prepares' 2 5 (9 ∷ [])
second-ValidPc = record {
  quorum = prepares'_quorum;
  is_preprepare = refl;
  are_prepares = (refl, (refl, tt));
  agreeing = another_pc;
  from_proposer = refl;
  valid_proposer = refl;
  valid_signers = (refl, (refl, tt));
  no_proposer = (refl, (refl, tt));
}

prepares-hash : All (λ x. to_string (pc_hash x) ≡ 9 ∷ []) (preprepare_from 1 ∷ prepares)
unfolding extract_pc_message_hash extract_proposal_hash extract_prepare_hash
prepares-hash = (refl, (refl, (refl, tt)))

prepares'-hash : All (λ x. to_string (pc_hash x) ≡ 9 ∷ []) (preprepare_from 1 ∷ prepares')
unfolding extract_pc_message_hash extract_proposal_hash extract_prepare_hash
prepares'-hash = (refl, (refl, (refl, tt)))

one_hash :
    (x y : IbftMessage)
    → In x (preprepare_from 1 ∷ prepares)
    → In y (preprepare_from 1 ∷ prepares')
    → to_string (pc_hash x) ≡ to_string (pc_hash y)
one_hash x y i j =
    All-In (λ x. to_string (pc_hash x) ≡ 9 ∷ []) x (preprepare_from 1 ∷ prepares) prepares-hash i
    ∙ sym (
        All-In (λ x. to_string (pc_hash x) ≡ 9 ∷ []) y (preprepare_from 1 ∷ prepares')
          prepares'-hash j)

is_valid : valid_pc backend manager (certificate_of (preprepare_from 1) prepares) 2 5 ≡ ok true
unfolding valid_pc
is_valid =
    (valid_pc_messages_iff backend manager (preprepare_from 1) prepares 2 5 h9 preprepare_hash).1
      first-ValidPc

is_valid' : valid_pc backend manager (certificate_of (preprepare_from 1) prepares') 2 5 ≡ ok true
unfolding valid_pc
is_valid' =
    (valid_pc_messages_iff backend manager (preprepare_from 1) prepares' 2 5 h9 preprepare_hash).1
      second-ValidPc

valid_pc-agree_example : h9 ≡ h9
valid_pc-agree_example =
    valid_pc-agree backend manager powers (address 2 ∷ []) (preprepare_from 1) (preprepare_from 1)
      prepares prepares' 2 2 5 h9 h9 a_view a_view powers-IsRegular manager-IsReady few_faulty
      is_valid is_valid' preprepare_hash preprepare_hash refl refl refl
      (λ x y i j e good a b. one_hash x y i j)
