-- ===== src/Prelude/Bits.antt =====
-- Laws of `^` and `&` at variables. Each is proved of `digits`, the recursion that the native
-- operation stands for, at any count of digits that is large enough.
use Prim.Native.Nat.{ℕ, zero, suc, ◌+◌, ◌-◌, ◌*◌, ◌/◌, ◌%◌, ◌^◌, ◌≤◌, ◌<◌, min}
use Prim.Native.Nat.{bit_and, bit_xor, differ, digits, bit_and-bitwise, bit_xor-bitwise}
use mathlib.Core.Path.{◌≡◌, refl, sym, ◌∙◌, ap}
use native.Mathlib.Nat.{pow-suc, one-le-pow}
use native.Mathlib.Omega.{arith}

abbrev xor_digits : ℕ → ℕ → ℕ → ℕ
xor_digits = digits (λ b. b) differ

abbrev and_digits : ℕ → ℕ → ℕ → ℕ
and_digits = digits (λ b. 0) min

differ_self : (n : ℕ) → differ n n ≡ 0
differ_self zero = refl
differ_self (suc n) = differ_self n

differ-zero : (n : ℕ) → differ n 0 ≡ n
differ-zero zero = refl
differ-zero (suc n) = refl

differ-lt : (k m n : ℕ) → m < k → n < k → differ m n < k
differ-lt k zero n p q = q
differ-lt k (suc m) zero p q = p
differ-lt k (suc m) (suc n) p q = differ-lt k m n (omega arith) (omega arith)

double_pow : (k : ℕ) → 2 ^ suc k ≡ 2 * 2 ^ k
double_pow k = omega (arith, pow-suc 2 k)

-- The number with the digits of `q` above `k` digits.
double_shift : (q k : ℕ) → q * 2 ^ suc k ≡ 2 * (q * 2 ^ k)
double_shift q k = omega (arith, ap (λ (t : ℕ). q * t) (double_pow k))

xor_digits-zero : (n a : ℕ) → a ≤ n → xor_digits n a 0 ≡ a
xor_digits-zero zero a h = omega arith
xor_digits-zero (suc n) zero h = refl
xor_digits-zero (suc n) (suc a) h =
    ground (arith, differ-zero (suc a % 2), xor_digits-zero n (suc a / 2) (omega arith))

xor_digits-low :
    (n k q r a : ℕ) → a ≡ q * 2 ^ k + r → r < 2 ^ k → a ≤ n → xor_digits n a r ≡ q * 2 ^ k
xor_digits-low zero k q r a e fits h = omega arith
xor_digits-low (suc n) k q r zero e fits h = omega arith
xor_digits-low (suc n) zero q r (suc a) e fits h =
    let none_left : r ≡ 0 = omega arith in
    ap (xor_digits (suc n) (suc a)) none_left ∙ xor_digits-zero (suc n) (suc a) h ∙ omega arith
xor_digits-low (suc n) (suc k) q r (suc a) e fits h =
    let same : suc a % 2 ≡ r % 2 = omega (arith, double_shift q k) in
    let half : suc a / 2 ≡ q * 2 ^ k + r / 2 = omega (arith, double_shift q k) in
    ground (
      arith,
      same,
      differ_self (r % 2),
      double_shift q k,
      xor_digits-low n k q (r / 2) (suc a / 2) half (omega (arith, double_pow k)) (omega arith),
    )

xor_digits-lt : (n k a b : ℕ) → a ≤ n → a < 2 ^ k → b < 2 ^ k → xor_digits n a b < 2 ^ k
xor_digits-lt zero k a b h p q = q
xor_digits-lt (suc n) k zero b h p q = q
xor_digits-lt (suc n) zero (suc a) b h p q = absurd (omega arith)
xor_digits-lt (suc n) (suc k) (suc a) b h p q = omega (
  arith,
  differ-lt 2 (suc a % 2) (b % 2) (omega arith) (omega arith),
  double_pow k,
  xor_digits-lt n k (suc a / 2) (b / 2) (omega arith) (omega (arith, double_pow k))
      (omega (arith, double_pow k)),
)

and_digits-zero : (n a : ℕ) → and_digits n a 0 ≡ 0
and_digits-zero zero a = refl
and_digits-zero (suc n) zero = refl
and_digits-zero (suc n) (suc a) = omega (arith, and_digits-zero n (suc a / 2))

and_digits-mask :
    (n k q r a : ℕ) → a ≡ q * 2 ^ k + r → r < 2 ^ k → a ≤ n → and_digits n a (2 ^ k - 1) ≡ r
and_digits-mask zero k q r a e fits h = omega arith
and_digits-mask (suc n) k q r zero e fits h = omega arith
and_digits-mask (suc n) zero q r (suc a) e fits h = and_digits-zero (suc n) (suc a) ∙ omega arith
and_digits-mask (suc n) (suc k) q r (suc a) e fits h =
    let ones : (2 ^ suc k - 1) / 2 ≡ 2 ^ k - 1 = omega (arith, double_pow k, one-le-pow k 2) in
    let odd : (2 ^ suc k - 1) % 2 ≡ 1 = omega (arith, double_pow k, one-le-pow k 2) in
    let same : suc a % 2 ≡ r % 2 = omega (arith, double_shift q k) in
    let half : suc a / 2 ≡ q * 2 ^ k + r / 2 = omega (arith, double_shift q k) in
    ground (
      arith,
      ones,
      odd,
      same,
      and_digits-mask n k q (r / 2) (suc a / 2) half (omega (arith, double_pow k)) (omega arith),
    )

-- Zero on the left.
pub zero-bit_xor : (b : ℕ) → bit_xor 0 b ≡ b
zero-bit_xor b = bit_xor-bitwise 0 b

-- The low `k` bits, cancelled by themselves.
pub bit_xor-low : (k q r : ℕ) → r < 2 ^ k → bit_xor (q * 2 ^ k + r) r ≡ q * 2 ^ k
bit_xor-low k q r fits =
    let a = q * 2 ^ k + r in bit_xor-bitwise a r ∙ xor_digits-low a k q r a refl fits (omega arith)

-- `^` of two numbers below `2 ^ k` is below `2 ^ k`.
pub bit_xor-lt : (k a b : ℕ) → a < 2 ^ k → b < 2 ^ k → bit_xor a b < 2 ^ k
bit_xor-lt k a b p q = rw bit_xor-bitwise (xor_digits-lt a k a b (omega arith) p q)

-- A mask of `k` low bits is the remainder by `2 ^ k`.
pub bit_and_mask : (k a : ℕ) → bit_and a (2 ^ k - 1) ≡ a % 2 ^ k
bit_and_mask k a =
    bit_and-bitwise a (2 ^ k - 1)
    ∙ and_digits-mask a k (a / 2 ^ k) (a % 2 ^ k) a (grind (arith, one-le-pow k 2))
        (grind (arith, one-le-pow k 2)) (omega arith)

-- A mask of all bits but the flag 0x10, and the three lowest bits.
and_digits-first : (n a : ℕ) → and_digits n a 0x3B % 2 ≡ and_digits n a 0x1
and_digits-first zero a = refl
and_digits-first (suc n) zero = refl
and_digits-first (suc n) (suc a) = omega (arith, and_digits-zero n (suc a / 2))

and_digits-second : (n a : ℕ) → and_digits n a 0x77 % 4 ≡ and_digits n a 0x3
and_digits-second zero a = refl
and_digits-second (suc n) zero = refl
and_digits-second (suc n) (suc a) = omega (arith, and_digits-first n (suc a / 2))

and_digits-third : (n a : ℕ) → and_digits n a 0xEF % 8 ≡ and_digits n a 0x7
and_digits-third zero a = refl
and_digits-third (suc n) zero = refl
and_digits-third (suc n) (suc a) = omega (arith, and_digits-second n (suc a / 2))

pub bit_and-low : (a : ℕ) → bit_and a 0xEF % 8 ≡ bit_and a 0x7
bit_and-low a =
    ap (λ n. n % 8) (bit_and-bitwise a 0xEF) ∙ and_digits-third a a ∙ sym (bit_and-bitwise a 0x7)
