-- ===== src/Utils/Decimal.antt =====
-- What `ss_itoa` prints, `atoi` reads back, and `ss_isnumeric` accepts.
use native.Mathlib.Omega.{pow_step}
use openwrt_helloworld.Prelude.{
  ℕ, zero, suc, ◌+◌, ◌*◌, ◌/◌, ◌%◌, ◌^◌, ◌<◌, ◌≡◌, refl, sym, ap, ◌∙◌, arith, true, List, [], ◌∷◌,
  some, ◌==◌, Bool-cases, inl, inr, lt→ltb, subst, ==_iff,
}
use openwrt_helloworld.Prelude.Text.{read_digits, atoi, atoi_sign, drop_spaces, isspace}
use openwrt_helloworld.Utils.{itoa_loop, ss_itoa, all_digits, ss_isnumeric}

div_lt : (i b : ℕ) → i < 10 * b → i / 10 < b
div_lt i b h = omega arith

read_digits-cons :
    (n d : ℕ) (p : List ℕ) → d < 10 → read_digits n ((48 + d) ∷ p) ≡ read_digits (n * 10 + d) p
unfolding read_digits
read_digits-cons n d p h = ground arith

units : (i : ℕ) → i / 10 ≡ 0 → 0 * 10 + i % 10 ≡ i
units i h = omega arith

-- Reading the digits continues as if the number had been read.
read_digits-itoa_loop :
    (room i : ℕ) (p : List ℕ)
    → i < 10 ^ suc room
    → read_digits 0 (itoa_loop (suc room) i p) ≡ read_digits i p
unfolding itoa_loop
read_digits-itoa_loop zero i p h =
    rw ((==_iff (i / 10) 0).1 (omega arith))
      (read_digits-cons 0 (i % 10) p (omega arith) ∙ ap (λ n. read_digits n p) (omega arith))
read_digits-itoa_loop (suc room) i p h = elim (Bool-cases (i / 10 == 0)) [
  | inl last ↦ rw last (
      read_digits-cons 0 (i % 10) p (omega arith)
      ∙ ap (λ n. read_digits n p) (units i ((==_iff (i / 10) 0).0 last)))
  | inr more ↦ rw more (
      read_digits-itoa_loop room (i / 10) ((48 + i % 10) ∷ p)
        (div_lt i (10 ^ suc room) (subst (λ n. i < n) (pow_step 10 (suc room)) h))
      ∙ read_digits-cons (i / 10) (i % 10) p (omega arith)
      ∙ ap (λ n. read_digits n p) (omega arith))
]

-- The text begins with a digit.
itoa_loop-cons :
    (room i : ℕ) (p : List ℕ)
    → (d : ℕ) × (s : List ℕ) × (itoa_loop (suc room) i p ≡ (48 + d) ∷ s) × (d < 10)
unfolding itoa_loop
itoa_loop-cons zero i p = (i % 10, p, ground arith, omega arith)
itoa_loop-cons (suc room) i p = elim (Bool-cases (i / 10 == 0)) [
  | inl last ↦ (i % 10, p, rw last refl, omega arith)
  | inr more ↦
      let (d, s, e, h) = itoa_loop-cons room (i / 10) ((48 + i % 10) ∷ p) in (d, s, rw more e, h)
]

all_digits-itoa_loop :
    (room i : ℕ) (p : List ℕ) → all_digits p ≡ true → all_digits (itoa_loop room i p) ≡ true
unfolding itoa_loop all_digits
all_digits-itoa_loop zero i p h = h
all_digits-itoa_loop (suc room) i p h = elim (Bool-cases (i / 10 == 0)) [
  | inl last ↦ rw last (ground (arith, h))
  | inr more ↦ rw more (all_digits-itoa_loop room (i / 10) ((48 + i % 10) ∷ p) (ground (arith, h)))
]

atoi-digit :
    (d : ℕ) (s : List ℕ) → d < 10 → atoi ((48 + d) ∷ s) ≡ some (read_digits 0 ((48 + d) ∷ s))
unfolding atoi drop_spaces isspace atoi_sign
atoi-digit d s h = ground arith

-- What `ss_itoa` prints of an `int` that is not negative is a number to `ss_isnumeric`, and `atoi`
-- reads the `int` back.
pub atoi-ss_itoa :
    (i : ℕ) → i < 2 ^ 31 → (ss_isnumeric (ss_itoa i) ≡ true) × (atoi (ss_itoa i) ≡ some i)
unfolding ss_itoa ss_isnumeric read_digits all_digits
atoi-ss_itoa i h =
    let (d, s, e, small) = itoa_loop-cons 19 i [] in
    let reads = read_digits-itoa_loop 19 i [] (omega arith) in
    let digits : all_digits ((48 + d) ∷ s) ≡ true =
      ap all_digits (sym e) ∙ all_digits-itoa_loop 20 i [] refl in
    rw (lt→ltb i (2 ^ 31) h, e)
      (digits, atoi-digit d s small ∙ ap some (ap (read_digits 0) (sym e) ∙ reads))
