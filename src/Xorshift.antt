-- ===== src/Xorshift.antt =====
-- obfsutil.c: the pseudo-random generator of the obfuscation plugins. Its state is threaded through
-- its callers.
use openwrt_helloworld.Prelude.{ℕ, ◌+◌, ◌%◌, ◌^◌, bit_or, bit_xor, Bool, true, false, if◌then◌else◌}
use openwrt_helloworld.Prelude.Words.{◌<<<◌, ◌>>>◌}

-- `shift128plus_s` and `shift128plus_init_flag`.
pub record Xorshift : Type 0 where
  pub init_flag : Bool
  pub s0 : ℕ
  pub s1 : ℕ

-- The static initial values.
abbrev pub static_state : Xorshift
static_state = record { init_flag = false; s0 = 0x10000000; s1 = 0xffffffff }

-- `now` is `time(NULL)`.
unfoldable pub init_shift128plus : ℕ → Xorshift → Xorshift
init_shift128plus now g =
    let seed = now % 2 ^ 32 in
    if g.init_flag
    then g
    else record { init_flag = true; s0 = bit_or seed 0x100000000; s1 = bit_or (seed <<< 32) 0x1 }

unfoldable pub xorshift128plus : Xorshift → ℕ × Xorshift
xorshift128plus g =
    let y = g.s1 in
    let x1 = bit_xor g.s0 (g.s0 <<< 23 % 2 ^ 64) in
    let x2 = bit_xor x1 (x1 >>> 17) in
    let x3 = bit_xor x2 (bit_xor y (y >>> 26)) in ((x3 + y) % 2 ^ 64, record g { s0 = y; s1 = x3 })
