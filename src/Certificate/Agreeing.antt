-- ===== src/Certificate/Agreeing.antt =====
-- What two certificates that `validPC` accepts for one round have in common.
use go_ibft.Prelude.{
  ◌<◌, ◌*◌, ◌≡◌, sym, ap, ◌∙◌, true, false, some, List, ◌∷◌, Str, ℕ, contains, str_eq, ok, arith,
}
use go_ibft.Proto.{
  View, IbftMessage, PreparedRef, pc_ref, prepared_certificate, message_ref, slice, items_of,
  sender, view_of, to_string,
}
use go_ibft.Extract.Pc.{InPc, pc_hash}
use go_ibft.Validators.{ValidatorManager, VotingPowers}
use go_ibft.Validators.Quorum.{IsRegular, IsReady, weight, total_weight}
use go_ibft.Backend.{Backend}
use go_ibft.Certificate.{valid_pc}
use go_ibft.Certificate.Valid.{ValidPc, In, valid_pc_messages_iff, ValidPc-agree}
use go_ibft.Certificate.Made.{items_list-of}

-- The pointer to a certificate of a proposal message and prepare messages.
abbrev pub certificate_of : IbftMessage → List IbftMessage → PreparedRef
certificate_of m ps = pc_ref (prepared_certificate (message_ref m) (slice (items_of ps)))

valid_pc-ValidPc :
    (b : Backend) (vm : ValidatorManager) (m : IbftMessage) (ps : List IbftMessage)
    (limit height : ℕ) (h : Str)
    → pc_hash m ≡ some h
    → valid_pc b vm (certificate_of m ps) limit height ≡ ok true
    → ValidPc b vm m ps limit height h
unfolding valid_pc
valid_pc-ValidPc b vm m ps limit height h e valid =
    (valid_pc_messages_iff b vm m ps limit height h e).0 (rw (items_list-of ps) at valid)

round_of-InPc :
    (m : IbftMessage) (v : View) (height round : ℕ)
    → view_of m ≡ some v
    → InPc height round m
    → v.round ≡ round
round_of-InPc m v height round e i =
    let same : v ≡ i.view = ground (arith, e, i.has_view) in ap (λ w. w.round) same ∙ i.same_round

-- For a manager that is ready with a regular map of voting powers: two certificates that `validPC`
-- accepts for one height, whose proposals carry a hash each and are of one round, have the same hash, if
-- the validators outside a set with less than a third of the power sent one hash each in the messages
-- of that height and round among the two.
pub valid_pc-agree :
    (b : Backend) (vm : ValidatorManager) (powers : VotingPowers) (faulty : List Str)
    (m m' : IbftMessage) (ps ps' : List IbftMessage) (limit limit' height : ℕ) (h h' : Str)
    (v v' : View)
    → IsRegular powers
    → IsReady vm powers
    → weight powers (contains faulty) * 3 < total_weight powers
    → valid_pc b vm (certificate_of m ps) limit height ≡ ok true
    → valid_pc b vm (certificate_of m' ps') limit' height ≡ ok true
    → pc_hash m ≡ some h
    → pc_hash m' ≡ some h'
    → view_of m ≡ some v
    → view_of m' ≡ some v'
    → v.round ≡ v'.round
    → ((x y : IbftMessage)
        → In x (m ∷ ps)
        → In y (m' ∷ ps')
        → sender x ≡ sender y
        → contains faulty (sender x) ≡ false
        → InPc height v.round x
        → InPc height v.round y
        → to_string (pc_hash x) ≡ to_string (pc_hash y))
    → h ≡ h'
valid_pc-agree b vm powers faulty m m' ps ps' limit limit' height h h' v v' r ready few valid valid'
      e e' at at' same honest =
    let a = valid_pc-ValidPc b vm m ps limit height h e valid in
    let a' = valid_pc-ValidPc b vm m' ps' limit' height h' e' valid' in
    let first = round_of-InPc m v height a.agreeing.round at a.agreeing.in_pc.0 in
    let second = round_of-InPc m' v' height a'.agreeing.round at' a'.agreeing.in_pc.0 in
    ValidPc-agree powers faulty m m' ps ps' r ready few a a' (sym first ∙ same ∙ second)
      (λ x y i j s good p q. honest x y i j s good (rw (← first) at p) (rw (← first) at q))
