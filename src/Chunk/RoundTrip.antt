-- ===== src/Chunk/RoundTrip.antt =====
-- The chunks that `ss_gen_hash` makes, sent in any segments, through `ss_check_hash`.
use openwrt_helloworld.Prelude.{
  ℕ, suc, ◌+◌, ◌%◌, ◌^◌, ◌≤◌, ◌<◌, ◌≡◌, refl, sym, ap, ap₂, ◌∙◌, subst, arith, true, false, List,
  [], ◌∷◌, ◌++◌, Option, none, some, bit_xor, length, take, drop, append_assoc, IsBytes, All-split,
  length-append, length-take, take-append, drop-append, take-append-drop, Bool-cases, inl, inr, ltb,
  ltb→lt, ltb_false→le, lt→leb_false, le→leb, ==_refl, ==_less,
}
use openwrt_helloworld.Prelude.Bits.{bit_xor-low}
use openwrt_helloworld.Chunk.{
  Settings, Checked, wrong_hash, passed, chunk_hash, difference, safe_memcmp, read_be16, auth_bytes,
  onetimeauth_bytes, be16, be32, Chunk, ss_check_hash, ss_gen_hash,
}
use openwrt_helloworld.Chunk.Stream.{
  is_full, Consumed, consume, put_first, is_wrong, then_consume, consume-append, consume-more,
  consume-chunk,
}
use openwrt_helloworld.Chunk.Memory.{read_be16-append}
use openwrt_helloworld.Chunk.Refine.{IsHeld, Delivers, ss_check_hash-consume}

-- What the relay relies on of HMAC-SHA1.
abbrev pub IsDigest : Settings → Type 0
IsDigest s = (key bytes : List ℕ) → (length (s.hmac key bytes) ≡ 20) × IsBytes (s.hmac key bytes)

difference_self : (xs : List ℕ) → IsBytes xs → difference 0 xs xs ≡ 0
unfolding difference
difference_self [] h = refl
difference_self (x ∷ xs) h =
    let same : bit_xor x x ≡ 0 = ap (λ n. bit_xor n x) (omega arith) ∙ bit_xor-low 8 0 x h.0 in
    rw (same) (difference_self xs h.1)

safe_memcmp_self : (xs : List ℕ) → IsBytes xs → safe_memcmp xs xs ≡ false
unfolding safe_memcmp
safe_memcmp_self xs h = rw (difference_self xs h) refl

-- A proper part of a chunk is not full.
part_lem :
    (whole part : List ℕ) (c : ℕ) (rest : List ℕ)
    → length whole ≡ read_be16 whole + auth_bytes
    → whole ≡ part ++ (c ∷ rest)
    → is_full part ≡ false
unfolding is_full
part_lem whole part c rest size e = elim (Bool-cases (ltb (length part) 2)) [
  | inl k ↦ rw (lt→leb_false 2 (length part) (ltb→lt (length part) 2 k)) refl
  | inr k ↦
      let big : 2 ≤ length part = ltb_false→le (length part) 2 k in
      let more : length whole ≡ length part + suc (length rest) =
        ap length e ∙ length-append part (c ∷ rest) in
      let same : read_be16 whole ≡ read_be16 part =
        ap read_be16 e ∙ read_be16-append part (c ∷ rest) big in
      rw (le→leb 2 (length part) big)
        (==_less (length part) (read_be16 part + auth_bytes) (omega (arith, more, same, size)))
]

full_lem : (whole : List ℕ) → length whole ≡ read_be16 whole + auth_bytes → is_full whole ≡ true
unfolding is_full
full_lem whole size =
    rw (le→leb 2 (length whole) (omega (arith, size)), size)
      (==_refl (read_be16 whole + auth_bytes))

-- The bytes of a chunk with the right hash give its data.
consume-whole :
    (s : Settings) (counter : ℕ) (whole acc : List ℕ) (c : ℕ) (q rest : List ℕ)
    → length whole ≡ read_be16 whole + auth_bytes
    → is_wrong s counter whole ≡ false
    → whole ≡ acc ++ (c ∷ q)
    → consume s acc counter ((c ∷ q) ++ rest)
      ≡ put_first (drop auth_bytes whole) (consume s [] ((counter + 1) % 2 ^ 32) rest)
consume-whole s counter whole acc c [] rest size right e =
    consume-chunk s acc counter c rest (ap is_full (sym e) ∙ full_lem whole size)
      (ap (is_wrong s counter) (sym e) ∙ right)
    ∙ ap (λ w. put_first (drop auth_bytes w) (consume s [] ((counter + 1) % 2 ^ 32) rest)) (sym e)
consume-whole s counter whole acc c (d ∷ q) rest size right e =
    let next : whole ≡ (acc ++ (c ∷ [])) ++ (d ∷ q) = e ∙ sym (append_assoc acc (c ∷ []) (d ∷ q)) in
    consume-more s acc counter c ((d ∷ q) ++ rest) (part_lem whole (acc ++ (c ∷ [])) d q size next)
    ∙ consume-whole s counter whole (acc ++ (c ∷ [])) d q rest size right next

-- The chunks of some data, with the counter from the first on.
unfoldable pub chunks : Settings → ℕ → List (List ℕ) → List ℕ
chunks s counter [] = []
chunks s counter (bytes ∷ more) =
    (ss_gen_hash s bytes counter).0 ++ chunks s (ss_gen_hash s bytes counter).1 more

unfoldable pub concat : List (List ℕ) → List ℕ
concat [] = []
concat (x ∷ xs) = x ++ concat xs

unfoldable pub count : ℕ → List (List ℕ) → ℕ
count counter [] = counter
count counter (x ∷ xs) = count ((counter + 1) % 2 ^ 32) xs

-- The length of a chunk's data fits 16 bits.
abbrev pub AreChunks : List (List ℕ) → Type 0
AreChunks [] = Unit
AreChunks (x ∷ xs) = (length x < 2 ^ 16) × AreChunks xs

length-hash :
    (s : Settings)
    → IsDigest s
    → (counter : ℕ) (bytes : List ℕ) → length (chunk_hash s counter bytes) ≡ 10
unfolding chunk_hash
length-hash s d counter bytes = omega (
  arith,
  length-take onetimeauth_bytes (s.hmac (s.iv ++ be32 counter) bytes),
  (d (s.iv ++ be32 counter) bytes).0,
)

hash-IsBytes :
    (s : Settings)
    → IsDigest s
    → (counter : ℕ) (bytes : List ℕ) → IsBytes (chunk_hash s counter bytes)
unfolding chunk_hash
hash-IsBytes s d counter bytes =
    let digest : List ℕ = s.hmac (s.iv ++ be32 counter) bytes in
    (All-split (λ b. b < 256) (take onetimeauth_bytes digest) (drop onetimeauth_bytes digest)
      (subst IsBytes (sym (take-append-drop onetimeauth_bytes digest))
        (d (s.iv ++ be32 counter) bytes).1)).0

-- A chunk that was made.
module _ (s : Settings) (d : IsDigest s) (counter : ℕ) (bytes : List ℕ)
    (small : length bytes < 2 ^ 16) where
  abbrev made : List ℕ
  made = be16 (length bytes) ++ (chunk_hash s counter bytes ++ bytes)

  made-len : read_be16 made ≡ length bytes
  unfolding read_be16
  made-len = omega arith

  made-size : length made ≡ read_be16 made + auth_bytes
  made-size = omega (
    arith,
    made-len,
    length-append (chunk_hash s counter bytes) bytes,
    length-hash s d counter bytes,
  )

  made-bytes : drop auth_bytes made ≡ bytes
  made-bytes =
      drop-append 10 (chunk_hash s counter bytes) bytes (sym (length-hash s d counter bytes))

  made-right : is_wrong s counter made ≡ false
  unfolding is_wrong
  made-right =
      rw
        (
          made-bytes,
          take-append 10 (chunk_hash s counter bytes) bytes (sym (length-hash s d counter bytes)),
        )
        (safe_memcmp_self (chunk_hash s counter bytes) (hash-IsBytes s d counter bytes))

consume-nil :
    (s : Settings) (acc : List ℕ) (counter : ℕ)
    → consume s acc counter [] ≡ passed ([], acc, counter)
unfolding consume
consume-nil s acc counter = refl

put_first-passed :
    (bytes out acc : List ℕ) (counter : ℕ)
    → put_first bytes (passed (out, acc, counter)) ≡ passed (bytes ++ out, acc, counter)
unfolding put_first
put_first-passed bytes out acc counter = refl

consume-chunks :
    (s : Settings) (counter : ℕ) (datas : List (List ℕ))
    → IsDigest s
    → AreChunks datas
    → consume s [] counter (chunks s counter datas) ≡ passed (concat datas, [], count counter datas)
unfolding chunks concat count ss_gen_hash
consume-chunks s counter [] d h = consume-nil s [] counter
consume-chunks s counter (bytes ∷ more) d h =
    consume-whole s counter (made s d counter bytes h.0) [] _ _
      (chunks s ((counter + 1) % 2 ^ 32) more) (made-size s d counter bytes h.0)
      (made-right s d counter bytes h.0) refl
    ∙ ap₂ put_first (made-bytes s d counter bytes h.0)
        (consume-chunks s ((counter + 1) % 2 ^ 32) more d h.1)
    ∙ put_first-passed bytes (concat more) [] (count ((counter + 1) % 2 ^ 32) more)

-- The callback's use of `ss_check_hash`: a call for each segment, on a buffer with `slack` behind
-- it; the data that the calls leave at the front of the buffer is sent on.
abbrev pub Received : Type 0
Received = Option (Checked (List ℕ × Chunk))

unfoldable pub sent_first : List ℕ → Received → Received
sent_first bytes none = none
sent_first bytes (some wrong_hash) = some wrong_hash
sent_first bytes (some (passed (out, chunk))) = some (passed (bytes ++ out, chunk))

unfoldable pub after : Option (Checked (List ℕ × ℕ × Chunk)) → (Chunk → Received) → Received
after none k = none
after (some wrong_hash) k = some wrong_hash
after (some (passed (memory, len, next))) k = sent_first (take len memory) (k next)

unfoldable pub receive : Settings → List ℕ → Chunk → List (List ℕ) → Received
receive s slack chunk [] = some (passed ([], chunk))
receive s slack chunk (segment ∷ more) =
    after (ss_check_hash s (segment ++ slack) (length segment) chunk)
      (λ next. receive s slack next more)

abbrev Receives : Received → Consumed → Type 0
Receives none r = ⊥
Receives (some wrong_hash) wrong_hash = Unit
Receives (some wrong_hash) (passed r) = ⊥
Receives (some (passed r)) wrong_hash = ⊥
Receives (some (passed (sent, chunk))) (passed (out, acc, counter)) =
    (sent ≡ out) × IsHeld chunk acc counter

sent_first-Receives :
    (bytes out : List ℕ) (r : Received) (c : Consumed)
    → bytes ≡ out
    → Receives r c
    → Receives (sent_first bytes r) (put_first out c)
unfolding sent_first put_first
sent_first-Receives bytes out none c e h = h
sent_first-Receives bytes out (some wrong_hash) wrong_hash e h = h
sent_first-Receives bytes out (some wrong_hash) (passed r) e h = h
sent_first-Receives bytes out (some (passed r)) wrong_hash e h = h
sent_first-Receives bytes out (some (passed (sent, chunk))) (passed (o, acc, counter)) e h =
    (ap₂ (λ x y. x ++ y) e h.0, h.1)

after-Receives :
    (s : Settings) (r : Option (Checked (List ℕ × ℕ × Chunk))) (c : Consumed) (k : Chunk → Received)
    (ys : List ℕ)
    → Delivers r c
    → ((chunk : Chunk) (acc : List ℕ) (counter : ℕ)
        → IsHeld chunk acc counter
        → Receives (k chunk) (consume s acc counter ys))
    → Receives (after r k) (then_consume s c ys)
unfolding after then_consume
after-Receives s none c k ys h f = absurd h
after-Receives s (some wrong_hash) wrong_hash k ys h f = h
after-Receives s (some wrong_hash) (passed r) k ys h f = absurd h
after-Receives s (some (passed r)) wrong_hash k ys h f = absurd h
after-Receives s (some (passed (memory, len, chunk))) (passed (out, acc, counter)) k ys h f =
    sent_first-Receives (take len memory) out (k chunk) (consume s acc counter ys) h.0
      (f chunk acc counter h.2)

receive-consume :
    (s : Settings) (slack : List ℕ) (chunk : Chunk) (acc : List ℕ) (counter : ℕ)
    (segments : List (List ℕ))
    → 2 ≤ s.capacity
    → IsHeld chunk acc counter
    → Receives (receive s slack chunk segments) (consume s acc counter (concat segments))
unfolding receive concat
receive-consume s slack chunk acc counter [] cap h =
    subst (Receives (some (passed ([], chunk)))) (sym (consume-nil s acc counter)) (refl, h)
receive-consume s slack chunk acc counter (segment ∷ more) cap h =
    let first : Delivers (ss_check_hash s (segment ++ slack) (length segment) chunk)
        (consume s acc counter segment) =
      subst
        (λ b.
          Delivers (ss_check_hash s (segment ++ slack) (length segment) chunk)
            (consume s acc counter b))
        (take-append (length segment) segment slack refl)
        (ss_check_hash-consume s (segment ++ slack) (length segment) chunk acc counter cap
          (omega (arith, length-append segment slack)) h) in
    rw (consume-append s acc counter segment (concat more)) (
      after-Receives s (ss_check_hash s (segment ++ slack) (length segment) chunk)
        (consume s acc counter segment) (λ next. receive s slack next more) (concat more) first
        (λ next acc counter held. receive-consume s slack next acc counter more cap held))

-- `chunk_t` as `new_server` makes it.
abbrev pub new_chunk : Chunk
new_chunk = record { idx = 0; len = 0; counter = 0; buf = [] }

-- The whole stream went out, and the next chunk starts.
abbrev pub IsSent : Received → List ℕ → ℕ → Type 0
IsSent none bytes counter = ⊥
IsSent (some wrong_hash) bytes counter = ⊥
IsSent (some (passed (sent, chunk))) bytes counter =
    (sent ≡ bytes) × (chunk.idx ≡ 0) × (chunk.counter ≡ counter)

Receives-IsSent :
    (r : Received) (bytes : List ℕ) (counter : ℕ)
    → Receives r (passed (bytes, [], counter))
    → IsSent r bytes counter
Receives-IsSent none bytes counter h = h
Receives-IsSent (some wrong_hash) bytes counter h = h
Receives-IsSent (some (passed (sent, chunk))) bytes counter h = (h.0, h.1.0, h.1.2)

-- The chunks that `ss_gen_hash` makes of some data arrive whole, in whatever segments the stream
-- comes: no call refuses or leaves its buffers, the data that the calls leave is the data sent, and
-- the counters agree. The HMAC gives 20 bytes, and the data of a chunk has fewer than 2 ^ 16.
pub receive-chunks :
    (s : Settings) (slack : List ℕ) (datas segments : List (List ℕ))
    → 2 ≤ s.capacity
    → IsDigest s
    → AreChunks datas
    → concat segments ≡ chunks s 0 datas
    → IsSent (receive s slack new_chunk segments) (concat datas) (count 0 datas)
receive-chunks s slack datas segments cap d h e =
    Receives-IsSent (receive s slack new_chunk segments) (concat datas) (count 0 datas) (
      subst (Receives (receive s slack new_chunk segments))
        (ap (consume s [] 0) e ∙ consume-chunks s 0 datas d h)
        (receive-consume s slack new_chunk [] 0 segments cap
          (refl, refl, refl, omega arith, λ k. absurd (omega arith))))
