-- ===== src/Chunk/Round.antt =====
-- A byte of the buffer goes to the chunk's buffer.
use openwrt_helloworld.Prelude.{
  ==_iff, ==_ne, ℕ, ◌+◌, ◌≤◌, ◌<◌, ◌≡◌, refl, sym, ap, ◌∙◌, subst, arith, List, [], ◌∷◌, ◌++◌, some,
  ltb, ◌==◌, length, drop, append_assoc, Bool-cases, inl, inr, length-append, length-drop, ltb→lt,
  ltb_false→le,
}
use openwrt_helloworld.Chunk.{
  Settings, read_be16, auth_bytes, clen_bytes, brealloc, Loop, read_len, take_byte,
}
use openwrt_helloworld.Chunk.Memory.{
  get_elem?-front, write_at-next, read_be16-append, length-brealloc, brealloc-append,
}

-- What is known of a memory of the chunk's buffer that holds the bytes `acc` of a chunk which is not
-- complete.
abbrev pub IsOpen : ℕ → List ℕ → List ℕ → Type 0
IsOpen chunk_len memory acc =
    (length acc < chunk_len + auth_bytes)
    × (2 ≤ length memory)
    × (2 ≤ length acc → (chunk_len ≡ read_be16 acc) × (chunk_len + auth_bytes ≤ length memory))

-- The loop's variables: `out` is what came out, `gap` bytes of the buffer are read but not written,
-- and there is room for the data of the chunk.
pub record In (l : Loop) (out gap input slack acc spare : List ℕ) (counter : ℕ) : Type 0 where
  pub on_array : l.array ≡ out ++ (gap ++ (input ++ slack))
  pub on_j : l.j ≡ length out
  pub on_k : l.k ≡ length out + length gap
  pub on_cidx : l.cidx ≡ length acc
  pub on_buf : l.chunk_buf ≡ acc ++ spare
  pub on_counter : l.counter ≡ counter
  pub room : length acc ≤ length gap + length slack + 11
  pub is_open : IsOpen l.chunk_len l.chunk_buf acc

-- After a byte, with the length read: the chunk may be complete.
pub record Taken (l : Loop) (out gap input slack acc spare : List ℕ) (counter : ℕ) : Type 0 where
  pub on_array : l.array ≡ out ++ (gap ++ (input ++ slack))
  pub on_j : l.j ≡ length out
  pub on_k : l.k ≡ length out + length gap
  pub on_cidx : l.cidx ≡ length acc
  pub on_buf : l.chunk_buf ≡ acc ++ spare
  pub on_counter : l.counter ≡ counter
  pub room : length acc ≤ length gap + length slack + 11
  pub at_most : length acc ≤ l.chunk_len + auth_bytes
  pub two : 2 ≤ length l.chunk_buf
  pub on_len :
      2 ≤ length acc
      → (l.chunk_len ≡ read_be16 acc) × (l.chunk_len + auth_bytes ≤ length l.chunk_buf)

-- The chunk's buffer has a place for the next byte.
spare-pos :
    (chunk_len : ℕ) (acc spare : List ℕ) → IsOpen chunk_len (acc ++ spare) acc → 0 < length spare
spare-pos chunk_len acc spare h = elim (Bool-cases (ltb (length acc) 2)) [
  | inl e ↦ omega (arith, ltb→lt (length acc) 2 e, h.1, length-append acc spare)
  | inr e ↦
      let k : (chunk_len ≡ read_be16 acc) × (chunk_len + auth_bytes ≤ length (acc ++ spare)) =
        h.2 (ltb_false→le (length acc) 2 e) in
      omega (arith, k.1, h.0, length-append acc spare)
]

-- The loop after `take_byte`.
abbrev pub with_byte : Loop → List ℕ → List ℕ → ℕ → Loop
with_byte l acc spare c = record l {
  chunk_buf = (acc ++ (c ∷ [])) ++ drop 1 spare;
  cidx = l.cidx + 1;
  k = l.k + 1;
}

pub take_byte-In :
    (l : Loop) (out gap input slack acc spare : List ℕ) (counter c : ℕ)
    → In l out gap (c ∷ input) slack acc spare counter
    → take_byte l ≡ some (with_byte l acc spare c)
unfolding take_byte
take_byte-In l out gap input slack acc spare counter c i =
    rw
      (
        i.on_array,
        sym (append_assoc out gap (c ∷ (input ++ slack))),
        get_elem?-front (out ++ gap) (input ++ slack) c l.k
            (omega (arith, i.on_k, length-append out gap)),
        i.on_buf,
        write_at-next acc spare c l.cidx i.on_cidx (
            spare-pos l.chunk_len acc spare
              (subst (λ m. IsOpen l.chunk_len m acc) i.on_buf i.is_open)),
      )
      refl

-- What the two cases of `read_len` share.
taken :
    (l : Loop) (out gap input slack acc spare spare' : List ℕ) (counter c n : ℕ) (memory : List ℕ)
    → In l out gap (c ∷ input) slack acc spare counter
    → memory ≡ (acc ++ (c ∷ [])) ++ spare'
    → length acc + 1 ≤ n + auth_bytes
    → 2 ≤ length memory
    → (2 ≤ length acc + 1 → (n ≡ read_be16 (acc ++ (c ∷ []))) × (n + auth_bytes ≤ length memory))
    → Taken
        (record (with_byte l acc spare c) { chunk_buf = memory; chunk_len = n })
        out
        (gap ++ (c ∷ []))
        input
        slack
        (acc ++ (c ∷ []))
        spare'
        counter
taken l out gap input slack acc spare spare' counter c n memory i m most two len =
    let la : length (acc ++ (c ∷ [])) ≡ length acc + 1 = length-append acc (c ∷ []) in
    let lg : length (gap ++ (c ∷ [])) ≡ length gap + 1 = length-append gap (c ∷ []) in
    record {
      on_array = i.on_array ∙ ap (λ x. out ++ x) (sym (append_assoc gap (c ∷ []) (input ++ slack)));
      on_j = i.on_j;
      on_k = omega (arith, i.on_k);
      on_cidx = omega (arith, i.on_cidx);
      on_buf = m;
      on_counter = i.on_counter;
      room = omega (arith, i.room);
      at_most = omega arith;
      two = two;
      on_len = λ h. len (omega arith);
    }

memory_size :
    (acc spare : List ℕ) (c : ℕ)
    → 0 < length spare
    → length ((acc ++ (c ∷ [])) ++ drop 1 spare) ≡ length (acc ++ spare)
memory_size acc spare c h = omega (
  arith,
  length-append (acc ++ (c ∷ [])) (drop 1 spare),
  length-append acc (c ∷ []),
  length-append acc spare,
  length-drop 1 spare,
)

pub read_len-Taken :
    (s : Settings) (l : Loop) (out gap input slack acc spare : List ℕ) (counter c : ℕ)
    → In l out gap (c ∷ input) slack acc spare counter
    → (spare' : List ℕ) × Taken
        (read_len s (with_byte l acc spare c))
        out
        (gap ++ (c ∷ []))
        input
        slack
        (acc ++ (c ∷ []))
        spare'
        counter
unfolding read_len
read_len-Taken s l out gap input slack acc spare counter c i =
    let opened : IsOpen l.chunk_len (acc ++ spare) acc =
      subst (λ m. IsOpen l.chunk_len m acc) i.on_buf i.is_open in
    let size : length ((acc ++ (c ∷ [])) ++ drop 1 spare) ≡ length (acc ++ spare) =
      memory_size acc spare c (spare-pos l.chunk_len acc spare opened) in
    let front : length (acc ++ (c ∷ [])) ≡ length acc + 1 = length-append acc (c ∷ []) in
    let memory : List ℕ = (acc ++ (c ∷ [])) ++ drop 1 spare in
    elim (Bool-cases (l.cidx + 1 == clen_bytes)) [
      | inl e ↦
          let idx : l.cidx + 1 ≡ 2 = (==_iff (l.cidx + 1) 2).0 e in
          let (new, grown) =
            brealloc-append s.junk memory (read_be16 memory + auth_bytes) s.capacity in
          let lens = length-brealloc s.junk memory (read_be16 memory + auth_bytes) s.capacity in
          rw (e) (
            drop 1 spare ++ new,
            taken l out gap input slack acc spare (drop 1 spare ++ new) counter c (read_be16 memory)
                (brealloc s.junk memory (read_be16 memory + auth_bytes) s.capacity) i
                (grown ∙ append_assoc (acc ++ (c ∷ [])) (drop 1 spare) new)
                (omega (arith, idx, i.on_cidx)) (omega (arith, lens.2, size, opened.1))
                (λ h. (
                  read_be16-append (acc ++ (c ∷ [])) (drop 1 spare)
                      (omega (arith, front, idx, i.on_cidx)),
                  lens.0,
                )),
          )
      | inr e ↦ rw (e) (
        drop 1 spare,
        taken l out gap input slack acc spare (drop 1 spare) counter c l.chunk_len memory i refl
            (omega (arith, opened.0)) (omega (arith, size, opened.1))
            (λ h.
              let more : 2 ≤ length acc = omega (arith, ==_ne (l.cidx + 1) 2 e, i.on_cidx) in
              let known : (l.chunk_len ≡ read_be16 acc)
                  × (l.chunk_len + auth_bytes ≤ length (acc ++ spare)) =
                opened.2 more in
              (known.0 ∙ sym (read_be16-append acc (c ∷ []) more), omega (arith, known.1, size))),
      )
    ]
