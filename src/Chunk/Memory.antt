-- ===== src/Chunk/Memory.antt =====
-- Reads and writes of memory that holds known bytes.
use openwrt_helloworld.Prelude.{
  ℕ, zero, suc, ◌+◌, ◌-◌, ◌≤◌, ◌<◌, ◌≡◌, refl, sym, ap, ap₂, ◌∙◌, arith, List, [], ◌∷◌, ◌++◌, some,
  ltb, get_elem?, length, take, drop, replicate, append_assoc, Bool-cases, inl, inr, length-append,
  length-take, length-drop, length-replicate, le→leb, take-append, drop-append, take-append_le,
  drop-append_le, get_or-append, get_elem?-append_right, drop-append_right, ltb→lt, ltb_false→le,
}
use openwrt_helloworld.Chunk.{read_be16, bytes_at, write_at, brealloc, ◌>>=◌}

pub bytes_at_lem :
    (memory : List ℕ) (i n : ℕ)
    → i + n ≤ length memory
    → bytes_at memory i n ≡ some (take n (drop i memory))
unfolding bytes_at
bytes_at_lem memory i n h = rw (le→leb (i + n) (length memory) h) refl

pub write_at_lem :
    (memory : List ℕ) (i : ℕ) (xs : List ℕ)
    → i + length xs ≤ length memory
    → write_at memory i xs ≡ some (take i memory ++ (xs ++ drop (i + length xs) memory))
unfolding write_at
write_at_lem memory i xs h = rw (le→leb (i + length xs) (length memory) h) refl

-- A read inside the bytes that are known of a memory.
pub bytes_at-prefix :
    (acc spare : List ℕ) (i n : ℕ)
    → i + n ≤ length acc
    → bytes_at (acc ++ spare) i n ≡ some (take n (drop i acc))
bytes_at-prefix acc spare i n h =
    bytes_at_lem (acc ++ spare) i n (omega (arith, length-append acc spare))
    ∙ ap (λ l. some (take n l)) (drop-append_le i acc spare (omega arith))
    ∙ ap some (take-append_le n (drop i acc) spare (omega (arith, length-drop i acc)))

-- The next byte behind `front`.
pub get_elem?-front :
    (front rest : List ℕ) (c i : ℕ) → i ≡ length front → get_elem? (front ++ (c ∷ rest)) i ≡ some c
get_elem?-front front rest c i e = get_elem?-append_right front (c ∷ rest) 0 i (omega arith)

pub write_at-next :
    (acc spare : List ℕ) (c i : ℕ)
    → i ≡ length acc
    → 0 < length spare
    → write_at (acc ++ spare) i (c ∷ []) ≡ some ((acc ++ (c ∷ [])) ++ drop 1 spare)
write_at-next acc spare c i e h =
    write_at_lem (acc ++ spare) i (c ∷ []) (omega (arith, length-append acc spare))
    ∙ ap₂ (λ a b. some (a ++ (c ∷ b))) (take-append i acc spare e)
        (drop-append_right acc spare 1 (i + 1) (omega arith))
    ∙ ap some (sym (append_assoc acc (c ∷ []) (drop 1 spare)))

pub take-take : (i m : ℕ) (xs : List ℕ) → i ≤ m → take i (take m xs) ≡ take i xs
take-take zero m xs h = refl
take-take (suc i) zero xs h = absurd (omega arith)
take-take (suc i) (suc m) [] h = refl
take-take (suc i) (suc m) (x ∷ xs) h = ap (λ l. x ∷ l) (take-take i m xs (omega arith))

-- `memmove` of the unread bytes, then `memcpy` of the data in front of them.
pub moved_lem :
    (out m bytes unread : List ℕ) (j : ℕ)
    → j ≡ length out
    → take j m ≡ out
    → j + length bytes + length unread ≤ length m
    → (write_at m (j + length bytes) unread >>= λ moved. write_at moved j bytes)
      ≡ some ((out ++ bytes) ++ (unread ++ drop (j + length bytes + length unread) m))
moved_lem out m bytes unread j e t h =
    let size : length (take (j + length bytes) m) ≡ j + length bytes =
      omega (arith, length-take (j + length bytes) m) in
    rw (write_at_lem m (j + length bytes) unread h) (
      write_at_lem _ j bytes (
        omega (
          arith,
          size,
          length-append (take (j + length bytes) m)
              (unread ++ drop (j + length bytes + length unread) m),
        ))
      ∙ ap₂ (λ a b. some (a ++ (bytes ++ b)))
          (take-append_le j (take (j + length bytes) m) _ (omega arith)
            ∙ take-take j (j + length bytes) m (omega arith)
            ∙ t)
          (drop-append (j + length bytes) (take (j + length bytes) m) _ (sym size))
      ∙ ap some (sym (append_assoc out bytes _)))

pub read_be16-append :
    (acc spare : List ℕ) → 2 ≤ length acc → read_be16 (acc ++ spare) ≡ read_be16 acc
unfolding read_be16
read_be16-append acc spare h =
    rw (get_or-append 0 acc spare 0 (omega arith), get_or-append 1 acc spare 0 (omega arith)) refl

pub grow-lengths :
    (junk : ℕ) (memory : List ℕ) (len capacity n : ℕ)
    → len ≤ n
    → capacity ≤ n
    → (len ≤ length (memory ++ replicate (n - length memory) junk))
      × (capacity ≤ length (memory ++ replicate (n - length memory) junk))
      × (length memory ≤ length (memory ++ replicate (n - length memory) junk))
grow-lengths junk memory len capacity n a b =
    let size : length (memory ++ replicate (n - length memory) junk)
        ≡ length memory + (n - length memory) =
      length-append memory (replicate (n - length memory) junk)
      ∙ ap (λ k. length memory + k) (length-replicate (n - length memory) junk) in
    (omega arith, omega arith, omega arith)

pub length-brealloc :
    (junk : ℕ) (memory : List ℕ) (len capacity : ℕ)
    → (len ≤ length (brealloc junk memory len capacity))
      × (capacity ≤ length (brealloc junk memory len capacity))
      × (length memory ≤ length (brealloc junk memory len capacity))
unfolding brealloc
length-brealloc junk memory len capacity = elim (Bool-cases (ltb len capacity)) [
  | inl e ↦ rw (e) (
      grow-lengths junk memory len capacity capacity (omega (arith, ltb→lt len capacity e))
        (omega arith))
  | inr e ↦ rw (e) (
      grow-lengths junk memory len capacity len (omega arith)
        (omega (arith, ltb_false→le len capacity e)))
]

pub brealloc-append :
    (junk : ℕ) (memory : List ℕ) (len capacity : ℕ)
    → (new : List ℕ) × (brealloc junk memory len capacity ≡ memory ++ new)
unfolding brealloc
brealloc-append junk memory len capacity = (_, refl)
