-- ===== src/MainLoop/Committed.antt =====
-- The seals that `handleCommit` takes come from validators, in the view of the node.
use mathlib.Core.Path.{subst}
use go_ibft.Prelude.{
  ℕ, ◌≡◌, refl, Bool, true, false, Option, none, some, List, [], ◌∷◌, arith, inl, inr, Result, ok,
  >>=-eq-ok, All, All-map, Bool-cases, nat_eq, str_eq,
}
use go_ibft.Proto.{View, MessageType, IbftMessage}
use go_ibft.Extract.{CommittedSeal, extract_committed_seals}
use go_ibft.Extract.Seals.{extract_committed_seals-map}
use go_ibft.State.{commit, fin, get_proposal, change_state, set_committed_seals}
use go_ibft.Validators.{ValidatorManager, has_quorum, convert_message_to_address_set}
use go_ibft.Messages.{Messages, get_valid_messages, get_proto_messages}
use go_ibft.Messages.WellFormed.{IsWellFormed}
use go_ibft.Messages.Only.{Only, get_valid_messages-OnlyIn}
use go_ibft.Backend.{Backend}
use go_ibft.Node.{Node, has_quorum_by_msg_type, is_valid_commit, handle_commit}
use go_ibft.Rounds.Starting.{commits-All}
use go_ibft.Rounds.Fitting.{FromValidator, Fits, Keeps-Fits}

-- The messages of the store come from validators and stand in their views.
pub record IsSound (b : Backend) (n : Node) : Type 0 where
  pub filed : IsWellFormed n.messages
  pub signed : Only (λ m. b.is_valid_validator m ≡ true) n.messages

zip-All :
    {A : Type 0} {P Q R : A → Type 0}
    → ((a : A) → P a → Q a → R a)
    → (xs : List A) → All P xs
    → All Q xs
    → All R xs
zip-All f [] p q = tt
zip-All f (x ∷ xs) p q = (f x p.0 q.0, zip-All f xs p.1 q.1)

commits-FromValidator :
    (b : Backend) (n : Node) (v : View) (check : IbftMessage → Result Bool) (ms' : Messages)
    (l : List IbftMessage)
    → IsSound b n
    → get_valid_messages v MessageType.commit check n.messages ≡ ok (ms', l)
    → All (FromValidator b v) l
unfolding get_proto_messages
commits-FromValidator b n v check ms' l s got =
    get_valid_messages-OnlyIn (FromValidator b v) v MessageType.commit check n.messages ms' l got (
      zip-All (λ e f g. (f.of_view, f.of_type, g))
        (get_proto_messages v MessageType.commit n.messages)
        (s.filed MessageType.commit v.height v.round).1
        (s.signed MessageType.commit v.height v.round))

pub handle_commit-Fits :
    {b : Backend} {vm : ValidatorManager} {h : ℕ} (n n' : Node) (done : Bool)
    → n.validator_manager ≡ vm
    → n.state.name ≡ commit
    → handle_commit b n.state.view n ≡ ok (n', done)
    → IsSound b n
    → Fits b vm h n
    → Fits b vm h n'
unfolding handle_commit has_quorum_by_msg_type change_state set_committed_seals get_proposal
handle_commit-Fits {b = b} {vm = vm} {h = height} n n' done same e h s f =
    let v : View = n.state.view in
    let ((store, l), got, rest) = >>=-eq-ok (get_valid_messages v _ _ n.messages) _ h in
    elim (Bool-cases
      (has_quorum_by_msg_type (record n { messages = store }) l MessageType.commit)) [
        | inl q ↦
            go store l q (commits-All (is_valid_commit b n.state) v n.messages store l got)
              (commits-FromValidator b n v _ store l s got) (ground (arith, rest))
              (extract_committed_seals l) refl
        | inr q ↦ Keeps-Fits n n' (ground arith) f
      ]
  where
    next : Messages → List IbftMessage → Result (Node × Bool)
    next store l = ok (elim (extract_committed_seals l) [
      | none ↦ (record n { messages = store }, false)
      | some seals ↦ (
        record n { messages = store; state = change_state fin (set_committed_seals seals n.state) },
        true,
      )
    ])

    go :
        (store : Messages) (l : List IbftMessage)
        → has_quorum n.validator_manager (convert_message_to_address_set l) ≡ true
        → All (λ m. is_valid_commit b n.state m ≡ true) l
        → All (FromValidator b n.state.view) l
        → next store l ≡ ok (n', done)
        → (o : Option (List (Option CommittedSeal))) → extract_committed_seals l ≡ o
        → Fits b vm height n'
    go store l q all from k none g = Keeps-Fits n n' (ground arith) f
    go store l q all from k (some seals) g = subst (Fits b vm height) end' fits
      where
        after : Node
        after = record n {
          messages = store;
          state = change_state fin (set_committed_seals seals n.state);
        }

        end' : after ≡ n'
        end' = ground arith

        fits : Fits b vm height after
        fits = record {
          has_round = f.has_round;
          sealed = λ _. (
            record {
              commits = l;
              quorum = rw same at q;
              from_commits = ground (arith, extract_committed_seals-map l);
              valid_hashes = All-map (λ m t. ground arith) l all;
              valid_seals = All-map (λ m t. ground arith) l all;
            },
            from,
          );
          blocks = f.blocks;
        }
