-- ===== src/Timer.antt =====
-- The round timer (`getRoundTimeout` of core/ibft.go). A `time.Duration` is a signed 64-bit number of
-- nanoseconds, kept as its bit pattern; `int(math.Pow(2, float64(round)))` is a parameter.
mod Checks
use go_ibft.Prelude.{ℕ, suc, ◌+◌, ◌*◌, ◌%◌, ◌^◌, ◌≤◌, ◌<◌, ◌≡◌, arith}
use native.Mathlib.Nat.{mod-eq_of_lt, pow-suc}

abbrev pub int64 : ℕ → ℕ
int64 x = x % 2 ^ 64

unfoldable pub get_round_timeout : (ℕ → ℕ) → ℕ → ℕ → ℕ → ℕ
get_round_timeout pow_of_two base_round_timeout additional_timeout round =
    let round_factor = pow_of_two round in
    let round_timeout = int64 (base_round_timeout * round_factor) in
    int64 (round_timeout + additional_timeout)

-- The two timeouts of an engine, and what sets them.
pub record Timeouts : Type 0 where
  pub additional_timeout : ℕ
  pub base_round_timeout : ℕ

-- Ten seconds, `DefaultBaseRoundTimeout`.
abbrev default_timeouts : Timeouts
default_timeouts = record { additional_timeout = 0; base_round_timeout = 10000000000 }

unfoldable extend_round_timeout : ℕ → Timeouts → Timeouts
extend_round_timeout amount t = record t { additional_timeout = amount }

unfoldable set_base_round_timeout : ℕ → Timeouts → Timeouts
set_base_round_timeout base t = record t { base_round_timeout = base }

-- The timeout with which `startRoundTimer` makes its timer.
unfoldable round_timeout : (ℕ → ℕ) → Timeouts → ℕ → ℕ
round_timeout pow_of_two t round =
    get_round_timeout pow_of_two t.base_round_timeout t.additional_timeout round

-- The sign bit.
abbrev pub IsNegative : ℕ → Type 0
IsNegative x = 2 ^ 63 ≤ x

-- While the conversion is exact and the sum fits, the timeout is the base doubled once for each
-- round, with the addition on top, and is not negative.
pub get_round_timeout-exact :
    (pow_of_two : ℕ → ℕ) (base additional round : ℕ)
    → pow_of_two round ≡ 2 ^ round
    → base * 2 ^ round + additional < 2 ^ 63
    → (get_round_timeout pow_of_two base additional round ≡ base * 2 ^ round + additional)
      × ¬ IsNegative (get_round_timeout pow_of_two base additional round)
unfolding get_round_timeout
get_round_timeout-exact pow_of_two base additional round e h = rw e (omega arith, omega arith)

-- Where the conversion is exact and the base doubled once for each round is past the range, by
-- less than the range, the timeout without an addition is negative.
pub get_round_timeout-overflow :
    (pow_of_two : ℕ → ℕ) (base round : ℕ)
    → pow_of_two round ≡ 2 ^ round
    → 2 ^ 63 ≤ base * 2 ^ round
    → base * 2 ^ round < 2 ^ 64
    → IsNegative (get_round_timeout pow_of_two base 0 round)
unfolding get_round_timeout
get_round_timeout-overflow pow_of_two base round e h k = rw e (omega arith)

-- While the conversion is exact and the sum fits, the next round has the timeout of this one and again
-- what it has beyond the addition; the addition is what was set last, and so is the base.
round_timeout-next :
    (pow_of_two : ℕ → ℕ) (base amount round : ℕ) (t : Timeouts)
    → ((r : ℕ) → r ≤ suc round → pow_of_two r ≡ 2 ^ r)
    → base * 2 ^ (suc round) + amount < 2 ^ 63
    → let t' = extend_round_timeout amount (set_base_round_timeout base t) in
      round_timeout pow_of_two t' (suc round) + amount
      ≡ round_timeout pow_of_two t' round + round_timeout pow_of_two t' round
unfolding round_timeout extend_round_timeout set_base_round_timeout
round_timeout-next pow_of_two base amount round t e h =
    let twice : 2 ^ suc round ≡ 2 ^ round * 2 = pow-suc 2 round in
    let product : base * 2 ^ (suc round) ≡ base * 2 ^ round + base * 2 ^ round =
      rw twice (grind arith) in
    let now =
      (get_round_timeout-exact pow_of_two base amount round (e round (omega arith))
        (omega arith)).0 in
    let later =
      (get_round_timeout-exact pow_of_two base amount (suc round) (e (suc round) (omega arith))
        h).0 in
    omega arith
