-- ===== src/HeadSize/Header.antt =====
-- What `get_head_size` makes of the header that server.c reads.
use openwrt_helloworld.Prelude.{
  ℕ, suc, ◌+◌, ◌≤◌, ◌≡◌, ap, arith, Bool, false, ◌&&◌, not, List, ◌∷◌, ◌++◌, some, ltb, bit_and,
  ltb_of_le, if◌then◌else◌, length, length-append, Bool-cases, inl, inr,
}
use openwrt_helloworld.Prelude.Bits.{bit_and-low}
use openwrt_helloworld.Relay.{addr_type}
use openwrt_helloworld.Relay.Header.{Target, ipv4, name, ipv6, address_bytes, IsTarget, IsTypeOf}
use openwrt_helloworld.HeadSize.{ℤ, pos, sub_int, plus_char, get_head_size}

-- The header without its authentication.
abbrev pub header_size : Target → ℕ
header_size t = 1 + length (address_bytes t) + 2

-- A name whose length is no char.
abbrev pub is_long : Target → Bool
is_long (ipv4 a) = false
is_long (name a) = not (ltb (length a) 128)
is_long (ipv6 a) = false

-- The three lowest bits of the type byte are its type.
head_type_lem : (atyp k : ℕ) → addr_type atyp ≡ k → k ≤ 7 → bit_and atyp 0x7 ≡ k
unfolding addr_type
head_type_lem atyp k e h = omega (arith, e, bit_and-low atyp)

-- The size of a complete header, whatever follows it, is its length without its authentication,
-- less 256 where `char` is signed and the header names a host of 128 bytes or more.
pub get_head_size-header_size :
    (char_signed : Bool) (atyp : ℕ) (t : Target) (rest : List ℕ) (def_size : ℤ)
    → IsTypeOf atyp t
    → IsTarget t
    → get_head_size char_signed (some (atyp ∷ (address_bytes t ++ rest))) def_size
      ≡ (if is_long t && char_signed then sub_int (header_size t) 256 else pos (header_size t))
unfolding get_head_size plus_char
get_head_size-header_size char_signed atyp (ipv4 a) rest def_size e h =
    rw
      (
        get_head_size,
        ltb_of_le (suc (length (a ++ rest))) 2 (omega (arith, h, length-append a rest)),
        head_type_lem atyp 1 e (omega arith),
      )
      (ap pos (omega (arith, h)))
get_head_size-header_size char_signed atyp (ipv6 a) rest def_size e h =
    rw
      (
        get_head_size,
        ltb_of_le (suc (length (a ++ rest))) 2 (omega (arith, h, length-append a rest)),
        head_type_lem atyp 4 e (omega arith),
      )
      (ap pos (omega (arith, h)))
get_head_size-header_size char_signed atyp (name a) rest def_size e h =
    let size : 4 + length a ≡ header_size (name a) = omega arith in
    let enough = ltb_of_le (suc (suc (length (a ++ rest)))) 2 (omega arith) in
    elim (Bool-cases (ltb (length a) 128)) [
      | inl f ↦ ground (arith, get_head_size, enough, head_type_lem atyp 3 e (omega arith), f, size)
      | inr f ↦ ground (arith, get_head_size, enough, head_type_lem atyp 3 e (omega arith), f, size)
    ]
