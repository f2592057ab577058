-- ===== src/Chunk/Stream.antt =====
-- The chunks as a consumer of bytes, with no buffers: what it has of the chunk that is not complete
-- yet, and the counter.
use openwrt_helloworld.Prelude.{
  ℕ, ◌+◌, ◌%◌, ◌^◌, ◌≡◌, refl, sym, ap, Bool, true, false, ◌&&◌, List, [], ◌∷◌, ◌++◌, leb, ◌==◌,
  if◌then◌else◌, length, take, drop, append_assoc, Bool-cases, inl, inr,
}
use openwrt_helloworld.Chunk.{
  Settings, Checked, wrong_hash, passed, chunk_hash, safe_memcmp, read_be16, auth_bytes, clen_bytes,
  onetimeauth_bytes,
}

unfoldable pub is_full : List ℕ → Bool
is_full acc = leb clen_bytes (length acc) && (length acc == read_be16 acc + auth_bytes)

-- The data that comes out, what is left of the last chunk, and the counter.
abbrev pub Consumed : Type 0
Consumed = Checked (List ℕ × List ℕ × ℕ)

unfoldable pub put_first : List ℕ → Consumed → Consumed
put_first bytes wrong_hash = wrong_hash
put_first bytes (passed (out, acc, counter)) = passed (bytes ++ out, acc, counter)

-- A chunk that is complete has the right hash.
unfoldable pub is_wrong : Settings → ℕ → List ℕ → Bool
is_wrong s counter acc =
    safe_memcmp (chunk_hash s counter (drop auth_bytes acc))
      (take onetimeauth_bytes (drop clen_bytes acc))

unfoldable pub consume : Settings → List ℕ → ℕ → List ℕ → Consumed
consume s acc counter [] = passed ([], acc, counter)
consume s acc counter (c ∷ cs) = elim (is_full (acc ++ (c ∷ []))) [
  | false ↦ consume s (acc ++ (c ∷ [])) counter cs
  | true ↦
      if is_wrong s counter (acc ++ (c ∷ []))
      then wrong_hash
      else put_first (drop auth_bytes (acc ++ (c ∷ []))) (consume s [] ((counter + 1) % 2 ^ 32) cs)
]

-- Then the bytes of a second segment.
unfoldable pub then_consume : Settings → Consumed → List ℕ → Consumed
then_consume s wrong_hash ys = wrong_hash
then_consume s (passed (out, acc, counter)) ys = put_first out (consume s acc counter ys)

pub put_first-append :
    (a b : List ℕ) (r : Consumed) → put_first a (put_first b r) ≡ put_first (a ++ b) r
unfolding put_first
put_first-append a b wrong_hash = refl
put_first-append a b (passed (out, acc, counter)) =
    ap (λ o. passed (o, acc, counter)) (sym (append_assoc a b out))

pub put_first-nil : (r : Consumed) → put_first [] r ≡ r
unfolding put_first
put_first-nil wrong_hash = refl
put_first-nil (passed (out, acc, counter)) = refl

then_consume-put_first :
    (s : Settings) (a : List ℕ) (r : Consumed) (ys : List ℕ)
    → put_first a (then_consume s r ys) ≡ then_consume s (put_first a r) ys
unfolding then_consume put_first
then_consume-put_first s a wrong_hash ys = refl
then_consume-put_first s a (passed (out, acc, counter)) ys =
    put_first-append a out (consume s acc counter ys)

-- The three outcomes of a byte.
module _ (s : Settings) (acc : List ℕ) (counter c : ℕ) (cs : List ℕ) where
  pub consume-more :
      is_full (acc ++ (c ∷ [])) ≡ false
      → consume s acc counter (c ∷ cs) ≡ consume s (acc ++ (c ∷ [])) counter cs
  unfolding consume
  consume-more e = rw (consume, e) refl

  pub consume-wrong :
      is_full (acc ++ (c ∷ [])) ≡ true
      → is_wrong s counter (acc ++ (c ∷ [])) ≡ true
      → consume s acc counter (c ∷ cs) ≡ wrong_hash
  unfolding consume
  consume-wrong e w = rw (consume, e, w) refl

  pub consume-chunk :
      is_full (acc ++ (c ∷ [])) ≡ true
      → is_wrong s counter (acc ++ (c ∷ [])) ≡ false
      → consume s acc counter (c ∷ cs)
        ≡ put_first (drop auth_bytes (acc ++ (c ∷ []))) (consume s [] ((counter + 1) % 2 ^ 32) cs)
  unfolding consume
  consume-chunk e w = rw (consume, e, w) refl

-- A stream that arrives in two segments gives what it gives in one.
pub consume-append :
    (s : Settings) (acc : List ℕ) (counter : ℕ) (xs ys : List ℕ)
    → consume s acc counter (xs ++ ys) ≡ then_consume s (consume s acc counter xs) ys
unfolding consume then_consume
consume-append s acc counter [] ys = sym (put_first-nil (consume s acc counter ys))
consume-append s acc counter (c ∷ xs) ys = elim (Bool-cases (is_full (acc ++ (c ∷ [])))) [
  | inr e ↦
      rw (consume-more s acc counter c (xs ++ ys) e, consume-more s acc counter c xs e)
        (consume-append s (acc ++ (c ∷ [])) counter xs ys)
  | inl e ↦ elim (Bool-cases (is_wrong s counter (acc ++ (c ∷ [])))) [
    | inl w ↦
        rw (consume-wrong s acc counter c (xs ++ ys) e w, consume-wrong s acc counter c xs e w) refl
    | inr w ↦
        rw
          (
            consume-chunk s acc counter c (xs ++ ys) e w,
            consume-chunk s acc counter c xs e w,
            consume-append s [] ((counter + 1) % 2 ^ 32) xs ys,
          )
          (then_consume-put_first s (drop auth_bytes (acc ++ (c ∷ [])))
            (consume s [] ((counter + 1) % 2 ^ 32) xs) ys)
  ]
]
