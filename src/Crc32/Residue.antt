-- ===== src/Crc32/Residue.antt =====
-- The residue of a CRC-32: a buffer that `fillcrc32` has completed leaves the register at zero.
use openwrt_helloworld.Prelude.{
  ℕ, ◌-◌, ◌/◌, ◌*◌, ◌%◌, ◌^◌, ◌<◌, ◌≡◌, refl, ◌∙◌, ap, arith, true, List, [], ◌∷◌, ◌++◌, some,
  bit_and, bit_xor, ltb, length, get_or, take, replicate, passes, passes-true, ltb→lt,
}
use openwrt_helloworld.Prelude.Bits.{bit_xor-low, bit_and_mask, zero-bit_xor, bit_xor-lt}
use openwrt_helloworld.Prelude.Words.{u8, ◌>>>◌}
use openwrt_helloworld.Crc32.{init_crc32_table, crc_step, crc_loop, crc32, le32, fillcrc32}

-- The table that the program computes with, from the zeros of the static array.
unfoldable pub crc32_table : List ℕ
unfolding init_crc32_table
crc32_table = init_crc32_table (replicate 256 0)

table-zero : get_or crc32_table 0 0 ≡ 0
unfolding crc32_table init_crc32_table
table-zero = refl

table_below : passes (λ i. ltb (get_or crc32_table i 0) (2 ^ 32)) 256 ≡ true
unfolding passes crc32_table init_crc32_table
table_below = refl

table-lt : (i : ℕ) → i < 256 → get_or crc32_table i 0 < 2 ^ 32
table-lt i h = ltb→lt _ _ (passes-true _ 256 i h table_below)

crc_step-lt : (crc b : ℕ) → crc < 2 ^ 32 → crc_step crc32_table crc b < 2 ^ 32
unfolding crc_step
crc_step-lt crc b h =
    bit_xor-lt 32 _ _
      (table-lt (bit_and (bit_xor crc b) 0xff) (omega (arith, bit_and_mask 8 (bit_xor crc b))))
      (omega arith)

crc_loop-lt : (bs : List ℕ) (crc : ℕ) → crc < 2 ^ 32 → crc_loop crc32_table crc bs < 2 ^ 32
unfolding crc_loop
crc_loop-lt [] crc h = h
crc_loop-lt (b ∷ bs) crc h = crc_loop-lt bs (crc_step crc32_table crc b) (crc_step-lt crc b h)

crc_loop-append :
    (table : List ℕ) (xs ys : List ℕ) (crc : ℕ)
    → crc_loop table crc (xs ++ ys) ≡ crc_loop table (crc_loop table crc xs) ys
unfolding crc_loop
crc_loop-append table [] ys crc = refl
crc_loop-append table (x ∷ xs) ys crc = crc_loop-append table xs ys (crc_step table crc x)

-- A register that is fed its own low byte is shifted by a byte.
crc_step_low : (crc : ℕ) → crc_step crc32_table crc (crc % 256) ≡ crc / 256
unfolding crc_step
crc_step_low crc = rw (index, table-zero, zero-bit_xor)
  where
    cancel : bit_xor crc (crc % 256) ≡ crc / 256 * 256
    cancel =
        ap (λ t. bit_xor t (crc % 256)) (omega arith)
        ∙ bit_xor-low 8 (crc / 256) (crc % 256) (omega arith)

    index : bit_and (bit_xor crc (crc % 256)) 0xff ≡ 0
    index = rw cancel (omega (arith, bit_and_mask 8 (crc / 256 * 256)))

-- Fed with its own four bytes, a register is shifted out.
pub crc_loop-le32 : (crc : ℕ) → crc < 2 ^ 32 → crc_loop crc32_table crc (le32 crc) ≡ 0
unfolding crc_loop
crc_loop-le32 crc h =
    rw
      (
        crc_step_low crc,
        second,
        crc_step_low (crc / 256),
        third,
        crc_step_low,
        fourth,
        crc_step_low,
      )
      (omega arith)
  where
    second : u8 (crc >>> 8) ≡ crc / 256 % 256
    second = omega arith

    third : u8 (crc >>> 16) ≡ crc / 256 / 256 % 256
    third = omega arith

    fourth : u8 (crc >>> 24) ≡ crc / 256 / 256 / 256 % 256
    fourth = omega arith

-- The check of a completed buffer: `crc32` is all ones, which the callers compare with -1.
pub crc32-fillcrc32 :
    (buffer : List ℕ) {out : List ℕ}
    → fillcrc32 crc32_table buffer ≡ some out
    → crc32 crc32_table out ≡ 0xffffffff
unfolding crc32 fillcrc32
crc32-fillcrc32 buffer {out} e =
    let body = take (length buffer - 4) buffer in
    let crc = crc_loop crc32_table 0xffffffff body in
    ground (
      arith,
      crc_loop-append crc32_table body (le32 crc) 0xffffffff,
      crc_loop-le32 crc (crc_loop-lt body 0xffffffff (omega arith)),
      zero-bit_xor 0xffffffff,
    )
