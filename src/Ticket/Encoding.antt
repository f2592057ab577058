-- ===== src/Ticket/Encoding.antt =====
-- The records that `client_encode` makes.
use openwrt_helloworld.Prelude.{
  ℕ, zero, suc, ◌+◌, ◌%◌, ◌^◌, ◌≤◌, ◌<◌, ◌≡◌, inl, inr, refl, sym, ap, ◌∙◌, arith, false, List, [],
  ◌∷◌, ◌++◌, append-nil, ltb, length, take, drop, length-take, length-drop, take-append-drop,
  Bool-cases, ltb→lt, ltb_false→le, All,
}
use openwrt_helloworld.Xorshift.{Xorshift, xorshift128plus}
use openwrt_helloworld.Ticket.{pack_record, random_len, encode_loop, encode_ready}

unfoldable pub concat : List (List ℕ) → List ℕ
concat [] = []
concat (x ∷ xs) = x ++ concat xs

unfoldable pub wire : List (List ℕ) → List ℕ
wire [] = []
wire (r ∷ rs) = pack_record r ++ wire rs

-- Records that are not empty, with a length of 16 bits.
abbrev pub AreRecords : List (List ℕ) → Type 0
AreRecords = All (λ r. (0 < length r) × (length r < 2 ^ 16))

-- The encoder makes such records of the data.
random_len-bounds :
    (number left : ℕ)
    → 2048 < left
    → (0 < random_len number left)
      × (random_len number left < 2 ^ 16)
      × (random_len number left ≤ left)
unfolding random_len
random_len-bounds number left h = elim (Bool-cases (ltb left (number % 4096 + 100))) [
  | inl e ↦ rw (e) (omega arith, omega (arith, ltb→lt left (number % 4096 + 100) e), omega arith)
  | inr e ↦ rw (e) (omega arith, omega arith, ltb_false→le left (number % 4096 + 100) e)
]

empty_bytes : (bytes : List ℕ) → ltb 0 (length bytes) ≡ false → [] ≡ bytes
empty_bytes [] h = refl
empty_bytes (x ∷ bytes) h = absurd (omega (arith, ltb_false→le 0 (suc (length bytes)) h))

encode_loop-records :
    (fuel : ℕ) (bytes : List ℕ) (g : Xorshift)
    → length bytes < fuel
    → (rs : List (List ℕ)) × ((encode_loop fuel bytes g).0 ≡ wire rs)
      × (concat rs ≡ bytes)
      × AreRecords rs
unfolding encode_loop wire concat
encode_loop-records zero bytes g h = absurd (omega arith)
encode_loop-records (suc fuel) bytes g h = elim (Bool-cases (ltb 2048 (length bytes))) [
  | inl e ↦
      let len : ℕ = random_len (xorshift128plus g).0 (length bytes) in
      let bounds =
        random_len-bounds (xorshift128plus g).0 (length bytes) (ltb→lt 2048 (length bytes) e) in
      let size : length (take len bytes) ≡ len = omega (arith, length-take len bytes, bounds.2) in
      let (rs, w, c, a) =
        encode_loop-records fuel (drop len bytes) (xorshift128plus g).1
          (omega (arith, length-drop len bytes, bounds.0, bounds.2)) in
      rw (e) (
        take len bytes ∷ rs,
        ap (λ x. pack_record (take len bytes) ++ x) w,
        ap (λ x. take len bytes ++ x) c ∙ take-append-drop len bytes,
        ((omega (arith, size, bounds.0), omega (arith, size, bounds.1)), a),
      )
  | inr e ↦ elim (Bool-cases (ltb 0 (length bytes))) [
    | inl k ↦
        rw (e, k)
          (
            bytes ∷ [],
            sym (append-nil (pack_record bytes)),
            append-nil bytes,
            ((ltb→lt 0 (length bytes) k, omega (arith, ltb_false→le 2048 (length bytes) e)), tt),
          )
    | inr k ↦ rw (e, k) ([], refl, empty_bytes bytes k, tt)
  ]
]

pub encode_ready-records :
    (bytes : List ℕ) (g : Xorshift)
    → 0 < length bytes
    → (rs : List (List ℕ)) × ((encode_ready bytes g).0 ≡ wire rs)
      × (concat rs ≡ bytes)
      × AreRecords rs
unfolding encode_ready wire concat
encode_ready-records bytes g h = elim (Bool-cases (ltb (length bytes) 1024)) [
  | inl e ↦ rw (e) (
    bytes ∷ [],
    sym (append-nil (pack_record bytes)),
    append-nil bytes,
    ((h, omega (arith, ltb→lt (length bytes) 1024 e)), tt),
  )
  | inr e ↦ rw (e) (encode_loop-records (suc (length bytes)) bytes g (omega arith))
]
