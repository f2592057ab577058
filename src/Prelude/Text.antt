-- ===== src/Prelude/Text.antt =====
-- C strings and keys as lists of bytes, without the final zero.
use Prim.Native.Nat.{ℕ, ◌-◌, ◌+◌, ◌*◌}
use Prim.Native.Char.{code}
use Prim.Native.String.{String}
use mathlib.Core.Path.{◌≡◌, refl}
use mathlib.Core.Logic.{◌↔◌}
use mathlib.Core.Bool.{Bool, true, false, ◌&&◌, ◌||◌}
use mathlib.Core.List.{List, [], ◌∷◌}
use mathlib.Core.Option.{Option, none, some}
use native.Mathlib.Omega.{arith}
use openwrt_helloworld.Prelude.Tests.{◌==◌, leb, if◌then◌else◌}

-- The bytes of an ASCII literal.
abbrev pub codes : String → List ℕ
codes String.[] = []
codes (String.◌∷◌ c s) = code c ∷ codes s

-- `strcmp(a, b) == 0`, and the comparison of two keys of given lengths.
unfoldable pub same_key : List ℕ → List ℕ → Bool
same_key [] [] = true
same_key [] (y ∷ ys) = false
same_key (x ∷ xs) [] = false
same_key (x ∷ xs) (y ∷ ys) = x == y && same_key xs ys

pub same_key_iff : (a b : List ℕ) → (same_key a b ≡ true) ↔ (a ≡ b)
unfolding same_key
same_key_iff [] [] = (λ _. refl, λ _. refl)
same_key_iff [] (y ∷ ys) = ground arith
same_key_iff (x ∷ xs) [] = ground arith
same_key_iff (x ∷ xs) (y ∷ ys) = ground (arith, same_key_iff xs ys)

pub same_key_sym : (a b : List ℕ) → same_key b a ≡ false → same_key a b ≡ false
same_key_sym a b h = ground (arith, same_key_iff a b, same_key_iff b a)

-- `isspace` in the C locale.
unfoldable pub isspace : ℕ → Bool
isspace c = (leb 9 c && leb c 13) || c == 32

unfoldable pub drop_spaces : List ℕ → List ℕ
drop_spaces [] = []
drop_spaces (c ∷ s) = elim (isspace c) [ true ↦ drop_spaces s | false ↦ c ∷ s ]

abbrev pub is_digit : ℕ → Bool
is_digit c = leb 48 c && leb c 57

unfoldable pub read_digits : ℕ → List ℕ → ℕ
read_digits n [] = n
read_digits n (c ∷ s) = elim (is_digit c) [ true ↦ read_digits (n * 10 + (c - 48)) s | false ↦ n ]

-- `atoi` behind the sign: `none` is a negative number.
unfoldable pub atoi_sign : List ℕ → Option ℕ
unfolding read_digits
atoi_sign [] = some 0
atoi_sign (c ∷ s) =
    if c == b'-'
    then (let n = read_digits 0 s in if n == 0 then some 0 else none)
    else if c == b'+'
    then some (read_digits 0 s)
    else some (read_digits 0 (c ∷ s))

-- `atoi`, whose result is undefined where the number leaves the range of `int`.
unfoldable pub atoi : List ℕ → Option ℕ
unfolding drop_spaces atoi_sign
atoi s = atoi_sign (drop_spaces s)
