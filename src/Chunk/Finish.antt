-- ===== src/Chunk/Finish.antt =====
-- A chunk that is complete: its hash, and its data at the front of the buffer.
use openwrt_helloworld.Prelude.{
  ==_iff, ℕ, ◌+◌, ◌%◌, ◌^◌, ◌≤◌, ◌<◌, ◌≡◌, refl, sym, ap, ◌∙◌, arith, true, false, List, [], ◌++◌,
  some, ltb, ◌==◌, length, take, drop, append_assoc, Bool-cases, inl, inr, length-append,
  length-drop, le→leb, take-append, drop-append, take_all, lt→leb_false, ltb→lt, ltb_false→le,
}
use openwrt_helloworld.Chunk.{
  Settings, wrong_hash, passed, auth_bytes, clen_bytes, onetimeauth_bytes, bytes_at, Loop,
  finish_chunk, move_data,
}
use openwrt_helloworld.Chunk.Stream.{is_full, is_wrong}
use openwrt_helloworld.Chunk.Memory.{bytes_at_lem, bytes_at-prefix, moved_lem}
use openwrt_helloworld.Chunk.Round.{In, Taken}

pub is_full-Taken :
    (l : Loop) (out gap input slack acc spare : List ℕ) (counter : ℕ)
    → Taken l out gap input slack acc spare counter
    → (l.cidx == l.chunk_len + auth_bytes) ≡ is_full acc
unfolding is_full
is_full-Taken l out gap input slack acc spare counter t = elim (Bool-cases (ltb (length acc) 2)) [
  | inl e ↦
      let small : length acc < 2 = ltb→lt (length acc) 2 e in
      rw (t.on_cidx, lt→leb_false 2 (length acc) small) (ground arith)
  | inr e ↦
      let big : 2 ≤ length acc = ltb_false→le (length acc) 2 e in
      rw (t.on_cidx, le→leb 2 (length acc) big, (t.on_len big).0) refl
]

module _ (s : Settings) (l : Loop) (out gap input slack acc spare : List ℕ) (counter : ℕ)
    (t : Taken l out gap input slack acc spare counter) (full : is_full acc ≡ true) where
  full-size : length acc ≡ l.chunk_len + auth_bytes
  full-size =
      let e : l.cidx ≡ l.chunk_len + auth_bytes =
        (==_iff l.cidx (l.chunk_len + auth_bytes)).0
          (is_full-Taken l out gap input slack acc spare counter t ∙ full) in
      omega (arith, e, t.on_cidx)

  chunk_bytes : bytes_at l.chunk_buf auth_bytes l.chunk_len ≡ some (drop auth_bytes acc)
  chunk_bytes =
      rw (t.on_buf, bytes_at-prefix acc spare auth_bytes l.chunk_len (omega (arith, full-size)))
        (ap some (
          take_all l.chunk_len (drop auth_bytes acc)
            (omega (arith, full-size, length-drop auth_bytes acc))))

  chunk_mac :
      bytes_at l.chunk_buf clen_bytes onetimeauth_bytes
      ≡ some (take onetimeauth_bytes (drop clen_bytes acc))
  chunk_mac =
      rw (t.on_buf)
        (bytes_at-prefix acc spare clen_bytes onetimeauth_bytes (omega (arith, full-size)))

  pub finish_chunk-wrong :
      is_wrong s counter acc ≡ true → finish_chunk s (length input) l ≡ some wrong_hash
  unfolding finish_chunk is_wrong
  finish_chunk-wrong w = rw (chunk_bytes, chunk_mac, t.on_counter, w) refl

  unread_bytes : bytes_at l.array l.k (length input) ≡ some input
  unread_bytes =
      rw (t.on_array, sym (append_assoc out gap (input ++ slack)))
        (bytes_at_lem ((out ++ gap) ++ (input ++ slack)) l.k (length input) (
            omega (
              arith,
              t.on_k,
              length-append (out ++ gap) (input ++ slack),
              length-append out gap,
              length-append input slack,
            ))
          ∙ ap (λ m. some (take (length input) m))
              (drop-append l.k (out ++ gap) (input ++ slack)
                (omega (arith, t.on_k, length-append out gap)))
          ∙ ap some (take-append (length input) input slack refl))

  array-size : length l.array ≡ length out + (length gap + (length input + length slack))
  array-size =
      ap length t.on_array
      ∙ omega (
        arith,
        length-append out (gap ++ (input ++ slack)),
        length-append gap (input ++ slack),
        length-append input slack,
      )

  -- What stands behind the unread bytes afterwards.
  abbrev pub behind : List ℕ
  behind = drop (l.j + length (drop auth_bytes acc) + length input) l.array

  abbrev pub finished : Loop
  finished = record l {
    array = (out ++ drop auth_bytes acc) ++ (input ++ behind);
    j = l.j + l.chunk_len;
    k = l.j + l.chunk_len;
    cidx = 0;
    counter = (counter + 1) % 2 ^ 32;
  }

  moved_data :
      move_data l.array l.j l.k (length input) l.chunk_len (drop auth_bytes acc)
      ≡ some ((out ++ drop auth_bytes acc) ++ (input ++ behind))
  unfolding move_data
  moved_data =
      let size : length (drop auth_bytes acc) ≡ l.chunk_len =
        omega (arith, full-size, length-drop auth_bytes acc) in
      let whole : length l.array ≡ length out + (length gap + (length input + length slack)) =
        array-size in
      rw (unread_bytes, ← size)
        (moved_lem out l.array (drop auth_bytes acc) input l.j t.on_j
          (ap (take l.j) t.on_array ∙ take-append l.j out (gap ++ (input ++ slack)) t.on_j)
          (omega (arith, whole, size, full-size, t.on_j, t.room)))

  pub finish_chunk-passed :
      is_wrong s counter acc ≡ false → finish_chunk s (length input) l ≡ some (passed finished)
  unfolding finish_chunk is_wrong
  finish_chunk-passed w = rw (chunk_bytes, chunk_mac, t.on_counter, w, moved_data) refl

  pub finished-In :
      In finished
        (out ++ drop auth_bytes acc)
        []
        input
        behind
        []
        l.chunk_buf
        ((counter + 1) % 2 ^ 32)
  finished-In =
      let size : length (drop auth_bytes acc) ≡ l.chunk_len =
        omega (arith, full-size, length-drop auth_bytes acc) in
      let front : length (out ++ drop auth_bytes acc) ≡ l.j + l.chunk_len =
        omega (arith, size, t.on_j, length-append out (drop auth_bytes acc)) in
      record {
        on_array = refl;
        on_j = omega (arith, front);
        on_k = omega (arith, front);
        on_cidx = refl;
        on_buf = refl;
        on_counter = refl;
        room = omega arith;
        is_open = (omega arith, t.two, λ h. absurd (omega arith));
      }
