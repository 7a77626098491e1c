-- ===== src/Timer/Checks.antt =====
-- The default base of ten seconds.
use go_ibft.Prelude.{ℕ, ◌*◌, ◌^◌, ◌+◌, ◌≡◌, refl, arith}
use go_ibft.Timer.{
  get_round_timeout, IsNegative, get_round_timeout-exact, get_round_timeout-overflow,
}

abbrev default_base : ℕ
default_base = 10000000000

get_round_timeout-exact_example :
    (get_round_timeout (λ r. 2 ^ r) default_base 5 29 ≡ default_base * 2 ^ 29 + 5)
    × ¬ IsNegative (get_round_timeout (λ r. 2 ^ r) default_base 5 29)
get_round_timeout-exact_example =
    get_round_timeout-exact (λ r. 2 ^ r) default_base 5 29 refl (omega arith)

get_round_timeout-overflow_example : IsNegative (get_round_timeout (λ r. 2 ^ r) default_base 0 30)
get_round_timeout-overflow_example =
    get_round_timeout-overflow (λ r. 2 ^ r) default_base 30 refl (omega arith) (omega arith)
