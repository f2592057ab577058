-- ===== src/Relay/Header.antt =====
-- The length of a header, and when it is complete.
use openwrt_helloworld.Prelude.{
  ℕ, ◌+◌, ◌<◌, ◌≡◌, refl, sym, ap, arith, Bool, ◌||◌, List, ◌∷◌, ◌++◌, some, leb, ltb,
  if◌then◌else◌, length, Bool-cases, inl, inr, ltb→lt, lt→leb_false,
}
use openwrt_helloworld.Relay.{
  addr_type, has_auth_flag, complete, incomplete, enough, is_header_complete, onetimeauth_bytes,
}

-- The bytes of an address, by its type: a length stands in front of a name.
pub data Target : Type 0 where
  ipv4 name ipv6 : List ℕ → Target

abbrev pub type_of : Target → ℕ
type_of (ipv4 a) = 1
type_of (name a) = 3
type_of (ipv6 a) = 4

abbrev pub address_bytes : Target → List ℕ
address_bytes (ipv4 a) = a
address_bytes (name a) = length a ∷ a
address_bytes (ipv6 a) = a

abbrev pub IsTarget : Target → Type 0
IsTarget (ipv4 a) = length a ≡ 4
IsTarget (name a) = length a < 256
IsTarget (ipv6 a) = length a ≡ 16

-- The header behind its type byte.
abbrev pub header_tail : Target → List ℕ → List ℕ
header_tail t port = address_bytes t ++ port

-- The length of a header with its authentication, where there is one.
abbrev pub header_len : Bool → ℕ → Target → ℕ
header_len auth atyp t =
    1 + length (address_bytes t) + 2 + (if auth || has_auth_flag atyp then onetimeauth_bytes else 0)

-- The type byte is that of the target, whatever its flags.
abbrev pub IsTypeOf : ℕ → Target → Type 0
IsTypeOf atyp t = addr_type atyp ≡ type_of t

enough_lem :
    (auth : Bool) (atyp n k : ℕ) (t : Target)
    → k ≡ 1 + length (address_bytes t) + 2
    → enough auth atyp n k ≡ (if leb (header_len auth atyp t) n then complete else incomplete)
unfolding enough
enough_lem auth atyp n k t e = elim (Bool-cases (auth || has_auth_flag atyp)) [
  | inl f ↦ rw (f, e) refl
  | inr f ↦ rw (f, e) (ap (λ m. if leb m n then complete else incomplete) (omega arith))
]

-- A header is complete exactly from its length on, whatever bytes follow it in the memory.
pub is_header_complete-header_len :
    (auth : Bool) (atyp n : ℕ) (t : Target) (rest : List ℕ)
    → IsTypeOf atyp t
    → IsTarget t
    → is_header_complete auth (record { array = atyp ∷ (address_bytes t ++ rest); len = n })
      ≡ some (if leb (header_len auth atyp t) n then complete else incomplete)
unfolding is_header_complete
is_header_complete-header_len auth atyp n (ipv4 a) rest e h =
    rw (e) (ap some (enough_lem auth atyp n 7 (ipv4 a) (omega arith)))
is_header_complete-header_len auth atyp n (name a) rest e h = elim (Bool-cases (ltb n 2)) [
  | inl f ↦
      rw (e, f)
        (ap (λ b. some (if b then complete else incomplete))
          (sym (lt→leb_false (header_len auth atyp (name a)) n (omega (arith, ltb→lt n 2 f)))))
  | inr f ↦
      rw (e, f) (ap some (enough_lem auth atyp n (1 + (length a + 1) + 2) (name a) (omega arith)))
]
is_header_complete-header_len auth atyp n (ipv6 a) rest e h =
    rw (e) (ap some (enough_lem auth atyp n 19 (ipv6 a) (omega arith)))
