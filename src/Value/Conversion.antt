-- ===== src/Value/Conversion.antt =====
-- Python's `float(v)` and truth of a value. An integer is rounded to 53 bits, half to even; what
-- lies beyond the largest double raises OverflowError. How a text is read is the runtime's, an
-- argument: `none` where `float` raises ValueError.
use insurance_claim_ai.Prelude.{
  ℕ, zero, suc, ◌+◌, ◌-◌, ◌*◌, ◌/◌, ◌%◌, ◌^◌, ◌<◌, ◌≤◌, ◌≡◌, refl, String, Bool, true, false, ◌||◌,
  ◌&&◌, Option, arith, ltb, nat_eq, if◌then◌else◌, not, ◌==◌,
}
use insurance_claim_ai.Prelude.Int.{ℤ, pos, negsuc, eqbℤ}
use insurance_claim_ai.Domain.Errors.{
  Result, ok, err, require, value_error, type_error, overflow_error,
}
use insurance_claim_ai.Value.{
  Value, Float, null, bool, int, float, str, list, dict, nil, end, finite, whole, int_of_bool,
}

-- How many binary digits `n` has past the first 53; 971 rounds see every finite double.
unfoldable pub extra_bits : ℕ → ℕ → ℕ
extra_bits zero n = 0
extra_bits (suc fuel) n =
    let more = suc (extra_bits fuel (n / 2)) in if ltb n (2 ^ 53) then 0 else more

unfoldable pub round_at : ℕ → ℕ → ℕ
round_at zero n = n
round_at (suc k) n =
    let low = n % 2 ^ suc k in
    let high = n / 2 ^ suc k in
    if ltb (2 ^ k) low || (nat_eq low (2 ^ k) && nat_eq (high % 2) 1)
    then (high + 1) * 2 ^ suc k
    else high * 2 ^ suc k

-- The double nearest to an integer.
unfoldable pub round_to_double : ℕ → ℕ
round_to_double n = round_at (extra_bits 971 n) n

-- From here on an integer rounds past the largest double.
unfoldable pub overflow_bound : ℕ
overflow_bound = 2 ^ 1024 - 2 ^ 970

unfoldable pub float_of_int : ℤ → Result Float
float_of_int (pos n) =
    if ltb n overflow_bound then ok (whole (pos (round_to_double n))) else err overflow_error
float_of_int (negsuc n) =
    if ltb (suc n) overflow_bound
    then ok (whole (negsuc (round_to_double (suc n) - 1)))
    else err overflow_error

unfoldable pub to_float : (String → Option Float) → Value → Result Float
to_float read (bool b) = ok (whole (int_of_bool b))
to_float read (int n) = float_of_int n
to_float read (float x) = ok x
to_float read (str s) = require (read s) value_error
to_float read _ = err type_error

-- `bool(v)`
abbrev pub truth_float : Float → Bool
truth_float (finite a) = not (eqbℤ a (pos 0))
truth_float _ = true

abbrev pub truth : Value → Bool
truth null = false
truth (bool b) = b
truth (int n) = not (eqbℤ n (pos 0))
truth (float x) = truth_float x
truth (str s) = not (s == "")
truth (list nil) = false
truth (list xs) = true
truth (dict end) = false
truth (dict d) = true

extra_bits-small : (fuel n : ℕ) → n < 2 ^ 53 → extra_bits fuel n ≡ 0
unfolding extra_bits
extra_bits-small zero n h = refl
extra_bits-small (suc fuel) n h = ground arith

round_to_double-small : (n : ℕ) → n < 2 ^ 53 → round_to_double n ≡ n
unfolding round_to_double round_at
round_to_double-small n h = rw (extra_bits-small 971 n h) refl

overflow_bound-large : 2 ^ 53 < overflow_bound
unfolding overflow_bound
overflow_bound-large = omega arith

-- An integer below 2 ^ 53 is its own double.
pub float_of_int-exact : (n : ℕ) → n < 2 ^ 53 → float_of_int (pos n) ≡ ok (whole (pos n))
unfolding float_of_int
float_of_int-exact n h = ground (arith, round_to_double-small n h, overflow_bound-large)

-- An integer past the largest double has no float.
pub float_of_int-overflow : (n : ℕ) → overflow_bound ≤ n → float_of_int (pos n) ≡ err overflow_error
unfolding float_of_int
float_of_int-overflow n h = ground arith

rounds_even : (round_to_double (2 ^ 53 + 1) ≡ 2 ^ 53) × (round_to_double (2 ^ 54 + 6) ≡ 2 ^ 54 + 8)
unfolding round_to_double extra_bits round_at
rounds_even = (refl, refl)
