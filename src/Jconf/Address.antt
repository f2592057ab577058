-- ===== src/Jconf/Address.antt =====
-- `parse_addr` reads back an address that is written in one of the usual ways.
use openwrt_helloworld.Prelude.{
  ℕ, suc, ◌+◌, ◌-◌, ◌<◌, ◌≡◌, ◌≢◌, refl, sym, ap, ◌∙◌, arith, Bool, true, false, List, [], ◌∷◌,
  ◌++◌, Option, none, some, ltb, ◌==◌, All, length, drop, get_or, append_assoc, lt→ltb,
  lt→leb_false, length-append, Bool-cases, inl, inr, take-append,
}
use openwrt_helloworld.Utils.{ss_strndup}
use openwrt_helloworld.Jconf.Value.{Addr, addr_at, parse_addr, colons, port_colon}

abbrev pub NoColon : List ℕ → Type 0
NoColon s = All (λ c. c ≢ b':') s

-- The ways to write an address: a host, a host with a port, and an IPv6 address in brackets with a
-- port.
pub data Written : Type 0 where
  host_only : List ℕ → Written
  host_port : List ℕ → List ℕ → Written
  bracketed : List ℕ → List ℕ → List ℕ → Written

-- The IPv6 address stands before and behind one of its colons.
abbrev pub text_of : Written → List ℕ
text_of (host_only h) = h
text_of (host_port h p) = h ++ (b':' ∷ p)
text_of (bracketed a b p) = b'[' ∷ ((a ++ (b':' ∷ b)) ++ (b']' ∷ b':' ∷ p))

abbrev pub addr_of : Written → Addr
addr_of (host_only h) = record { host = h; port = none }
addr_of (host_port h p) = record { host = h; port = some p }
addr_of (bracketed a b p) = record { host = a ++ (b':' ∷ b); port = some p }

abbrev pub IsWritten : Written → Type 0
IsWritten (host_only h) = NoColon h
IsWritten (host_port h p) = NoColon h × NoColon p
IsWritten (bracketed a b p) = NoColon p

colons-none : (s : List ℕ) → NoColon s → colons s ≡ (0, none)
unfolding colons
colons-none [] h = refl
colons-none (c ∷ s) h = rw (colons-none s h.1) (ground (arith, h.0))

colons-last :
    (s p : List ℕ) → NoColon p → colons (s ++ (b':' ∷ p)) ≡ ((colons s).0 + 1, some (length s))
unfolding colons
colons-last [] p h = rw (colons-none p h) refl
colons-last (c ∷ s) p h = elim (Bool-cases (c == b':')) [
  | inl e ↦ rw (colons-last s p h, e) (ap (λ n. ((colons s).0 + 1 + 1, some n)) (omega arith))
  | inr e ↦ rw (colons-last s p h, e) (ap (λ n. ((colons s).0 + 1, some n)) (omega arith))
]

colons-append : (s t : List ℕ) → (colons (s ++ t)).0 ≡ (colons s).0 + (colons t).0
unfolding colons
colons-append [] t = omega arith
colons-append (c ∷ s) t = elim (Bool-cases (c == b':')) [
  | inl e ↦ rw e (omega (arith, colons-append s t))
  | inr e ↦ rw e (colons-append s t)
]

ss_strndup-append : (s t : List ℕ) (n : ℕ) → n ≡ length s → 0 < length t → ss_strndup (s ++ t) n ≡ s
unfolding ss_strndup
ss_strndup-append s t n e h =
    rw (lt→leb_false (length (s ++ t)) n (omega (arith, length-append s t))) (take-append n s t e)

shift : (n : ℕ) → suc n + 1 ≡ suc (n + 1)
shift n = omega arith

drop_past : (s p : List ℕ) (c n : ℕ) → n ≡ length s + 1 → drop n (s ++ (c ∷ p)) ≡ p
drop_past [] p c n e = rw e refl
drop_past (x ∷ s) p c n e =
    ap (λ k. drop k ((x ∷ s) ++ (c ∷ p))) e
    ∙ ap (λ k. drop k ((x ∷ s) ++ (c ∷ p))) (shift (length s))
    ∙ drop_past s p c (length s + 1) refl

get_or_at : (s p : List ℕ) (c n d : ℕ) → n ≡ length s → get_or (s ++ (c ∷ p)) n d ≡ c
get_or_at [] p c n d e = rw e refl
get_or_at (x ∷ s) p c n d e = rw e (get_or_at s p c (length s) d refl)

parse_addr-colons :
    (is_ip : List ℕ → Bool) (str : List ℕ) (n : ℕ) (last : Option ℕ)
    → is_ip str ≡ false
    → colons str ≡ (n, last)
    → parse_addr is_ip str ≡ addr_at str (ltb 1 n) (port_colon str n last)
unfolding parse_addr
parse_addr-colons is_ip str n last not_ip e =
    rw not_ip (ap (λ x. addr_at str (ltb 1 x.0) (port_colon str x.0 x.1)) e)

bracketed_many : (a b : List ℕ) → 1 < (colons (b'[' ∷ ((a ++ (b':' ∷ b)) ++ (b']' ∷ [])))).0 + 1
unfolding colons
bracketed_many a b =
    let inner = colons-append a (b':' ∷ b) in
    let outer = colons-append (a ++ (b':' ∷ b)) (b']' ∷ []) in omega (arith, inner, outer)

-- An address that is written as a host, as a host and a port with a colon between, or as an IPv6
-- address in brackets with a colon and a port, is read back, where the whole text is no address and
-- neither a host without brackets nor the port holds a colon.
pub parse_addr-text_of :
    (is_ip : List ℕ → Bool) (w : Written)
    → IsWritten w
    → is_ip (text_of w) ≡ false
    → parse_addr is_ip (text_of w) ≡ addr_of w
unfolding addr_at port_colon
parse_addr-text_of is_ip (host_only h) no_colon not_ip =
    parse_addr-colons is_ip h 0 none not_ip (colons-none h no_colon)
parse_addr-text_of is_ip (host_port h p) (no_colon, port) not_ip =
    let str = h ++ (b':' ∷ p) in
    let one : (colons h).0 ≡ 0 = ap (λ x. x.0) (colons-none h no_colon) in
    parse_addr-colons is_ip str 1 (some (length h)) not_ip
      (colons-last h p port ∙ ap (λ n. (n + 1, some (length h))) one)
    ∙ rw
        (
          ss_strndup-append h (b':' ∷ p) (length h) refl (omega arith),
          drop_past h p b':' (length h + 1) refl,
        )
        refl
parse_addr-text_of is_ip (bracketed a b p) port not_ip =
    let v = a ++ (b':' ∷ b) in
    let str = b'[' ∷ (v ++ (b']' ∷ b':' ∷ p)) in
    let s = b'[' ∷ (v ++ (b']' ∷ [])) in
    let whole : str ≡ s ++ (b':' ∷ p) =
      ap (λ t. b'[' ∷ t) (sym (append_assoc v (b']' ∷ []) (b':' ∷ p))) in
    let size : length s ≡ length v + 2 = omega (arith, length-append v (b']' ∷ [])) in
    let many : ltb 1 ((colons s).0 + 1) ≡ true = lt→ltb 1 ((colons s).0 + 1) (bracketed_many a b) in
    let bracket : get_or str (length s - 1) 0 ≡ b']' =
      get_or_at (b'[' ∷ v) (b':' ∷ p) b']' (length s - 1) 0 (omega arith) in
    let host : ss_strndup (v ++ (b']' ∷ b':' ∷ p)) (length s - 2) ≡ v =
      ss_strndup-append v (b']' ∷ b':' ∷ p) (length s - 2) (omega arith) (omega arith) in
    let rest : drop (length s + 1) str ≡ p =
      ap (drop (length s + 1)) whole ∙ drop_past s p b':' (length s + 1) refl in
    parse_addr-colons is_ip str ((colons s).0 + 1) (some (length s)) not_ip
      (ap colons whole ∙ colons-last s p port)
    ∙ rw (many, bracket, host, rest) refl
