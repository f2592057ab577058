-- ===== src/Utils.antt =====
-- utils.c: numbers as text. Strings are lists of bytes without the final zero.
pub mod Decimal
mod Tests
use openwrt_helloworld.Prelude.{
  ℕ, zero, suc, ◌+◌, ◌-◌, ◌/◌, ◌%◌, ◌^◌, Bool, true, false, List, [], ◌∷◌, ltb, leb, ◌==◌,
  if◌then◌else◌, length, take,
}
use openwrt_helloworld.Prelude.Text.{is_digit}

-- The places before the final zero in the buffer of `ss_itoa`.
abbrev pub int_digits : ℕ
int_digits = 19

-- The do-while loop of `ss_itoa`: the digits of `i` before the text that is there. `room` is how
-- many bytes of the buffer are left; the loop ends before it is used up.
unfoldable pub itoa_loop : ℕ → ℕ → List ℕ → List ℕ
itoa_loop zero i p = p
itoa_loop (suc room) i p =
    let q = (48 + i % 10) ∷ p in
    let more = itoa_loop room (i / 10) q in if i / 10 == 0 then q else more

-- `ss_itoa` of an `int`, a pattern of 32 bits. For a negative one, `i % 10` and `i / 10` have the
-- digits of its magnitude.
unfoldable pub ss_itoa : ℕ → List ℕ
unfolding itoa_loop
ss_itoa i =
    if ltb i (2 ^ 31)
    then itoa_loop (int_digits + 1) i []
    else 45 ∷ itoa_loop (int_digits + 1) (2 ^ 32 - i) []

unfoldable pub all_digits : List ℕ → Bool
all_digits [] = true
all_digits (c ∷ s) = if is_digit c then all_digits s else false

-- A NULL string is an empty one.
unfoldable pub ss_isnumeric : List ℕ → Bool
unfolding all_digits
ss_isnumeric [] = false
ss_isnumeric (c ∷ s) = all_digits (c ∷ s)

-- `ss_strndup`: the first `n` bytes, or the whole string where it is not longer.
unfoldable pub ss_strndup : List ℕ → ℕ → List ℕ
ss_strndup s n = if leb (length s) n then s else take n s
