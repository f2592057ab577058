-- ===== src/Ticket/Decoding.antt =====
-- A round of `server_decode` on a record, whole or in part.
use openwrt_helloworld.Prelude.{
  ℕ, zero, suc, ◌+◌, ◌-◌, ◌/◌, ◌%◌, ◌^◌, ◌≤◌, ◌<◌, ◌≡◌, inl, inr, refl, ap, ◌∙◌, arith, false, List,
  [], ◌∷◌, ◌++◌, ltb, length, take, length-append, take-append, drop-append, drop-append_right,
  Bool-cases, lt→ltb, ltb_of_le,
}
use openwrt_helloworld.Ticket.{opened, put_first, record_size, is_other, decode_loop}

-- The first bytes of a record's header.
abbrev pub headed : List ℕ → List ℕ → List ℕ
headed r rest = 0x17 ∷ 0x3 ∷ 0x3 ∷ (length r / 2 ^ 8 % 2 ^ 8) ∷ (length r % 2 ^ 8) ∷ rest

pub take-headed :
    (n : ℕ) (r rest : List ℕ) → 5 ≤ n → take n (headed r rest) ≡ headed r (take (n - 5) rest)
take-headed zero r rest h = absurd (omega arith)
take-headed (suc zero) r rest h = absurd (omega arith)
take-headed (suc (suc zero)) r rest h = absurd (omega arith)
take-headed (suc (suc (suc zero))) r rest h = absurd (omega arith)
take-headed (suc (suc (suc (suc zero)))) r rest h = absurd (omega arith)
take-headed (suc (suc (suc (suc (suc n))))) r rest h =
    ap (λ m. headed r (take m rest)) (omega arith)

pub is_other-headed : (r rest : List ℕ) → is_other (headed r rest) ≡ false
unfolding is_other
is_other-headed r rest = refl

pub record_size-headed :
    (r rest : List ℕ) → length r < 2 ^ 16 → record_size (headed r rest) ≡ length r
unfolding record_size
record_size-headed r rest h = omega arith

-- The two ways of a round.
pub decode_loop-short :
    (fuel : ℕ) (b : List ℕ) → length b ≤ 5 → decode_loop (suc fuel) b ≡ opened [] b
unfolding decode_loop
decode_loop-short fuel b h = rw (decode_loop, ltb_of_le 5 (length b) h) refl

pub decode_loop-part :
    (fuel : ℕ) (r rest : List ℕ)
    → length r < 2 ^ 16
    → length rest < length r
    → decode_loop (suc fuel) (headed r rest) ≡ opened [] (headed r rest)
unfolding decode_loop
decode_loop-part fuel r rest small h = elim (Bool-cases (ltb 5 (length (headed r rest)))) [
  | inr e ↦ rw (decode_loop, e) refl
  | inl e ↦
      rw
        (
          decode_loop,
          e,
          is_other-headed r rest,
          record_size-headed r rest small,
          lt→ltb (length (headed r rest)) (length r + 5) (omega arith),
        )
        refl
]

pub decode_loop-record :
    (fuel : ℕ) (r rest : List ℕ)
    → 0 < length r
    → length r < 2 ^ 16
    → decode_loop (suc fuel) (headed r (r ++ rest)) ≡ put_first r (decode_loop fuel rest)
unfolding decode_loop
decode_loop-record fuel r rest pos small =
    let size : length (r ++ rest) ≡ length r + length rest = length-append r rest in
    rw
      (
        decode_loop,
        lt→ltb 5 (length (headed r (r ++ rest))) (omega (arith, size)),
        is_other-headed r (r ++ rest),
        record_size-headed r (r ++ rest) small,
        ltb_of_le (length (headed r (r ++ rest))) (length r + 5) (omega (arith, size)),
        take-append (length r) r rest refl,
      )
      (ap (λ x. put_first r (decode_loop fuel x))
        (drop-append_right (headed r []) (r ++ rest) (length r) (5 + length r) refl
          ∙ drop-append (length r) r rest refl))
