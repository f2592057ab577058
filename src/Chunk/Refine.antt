-- ===== src/Chunk/Refine.antt =====
-- `ss_check_hash` on its buffers does what the consumer does on bytes.
use openwrt_helloworld.Prelude.{
  ==_ne, ℕ, suc, ◌+◌, ◌%◌, ◌^◌, ◌≤◌, ◌<◌, ◌≡◌, ◌≢◌, refl, sym, ap, ◌∙◌, subst, arith, false, List,
  [], ◌∷◌, ◌++◌, Option, none, some, length, take, drop, append_assoc, append-nil, Bool-cases, inl,
  inr, length-append, length-take, take-append-drop, take-append,
}
use openwrt_helloworld.Chunk.{
  Settings, Checked, wrong_hash, passed, read_be16, auth_bytes, brealloc, Loop, Chunk, read_len,
  check_round, check_loop, start_loop, check_result, ss_check_hash,
}
use openwrt_helloworld.Chunk.Stream.{is_full, Consumed, consume, put_first, is_wrong}
use openwrt_helloworld.Chunk.Memory.{length-brealloc, brealloc-append}
use openwrt_helloworld.Chunk.Round.{In, Taken, with_byte, take_byte-In, read_len-Taken}
use openwrt_helloworld.Chunk.Finish.{
  is_full-Taken, finish_chunk-wrong, finish_chunk-passed, finished-In, finished,
}
use openwrt_helloworld.Chunk.Stream.{
  consume-more, consume-wrong, consume-chunk, put_first-append, put_first-nil,
}

-- Taken without a complete chunk, the loop goes on.
Taken-In :
    (l : Loop) (out gap input slack acc spare : List ℕ) (counter : ℕ)
    → Taken l out gap input slack acc spare counter
    → is_full acc ≡ false
    → In l out gap input slack acc spare counter
Taken-In l out gap input slack acc spare counter t part =
    let ne : l.cidx ≢ l.chunk_len + auth_bytes =
      ==_ne l.cidx (l.chunk_len + auth_bytes)
        (is_full-Taken l out gap input slack acc spare counter t ∙ part) in
    record {
      on_array = t.on_array;
      on_j = t.on_j;
      on_k = t.on_k;
      on_cidx = t.on_cidx;
      on_buf = t.on_buf;
      on_counter = t.on_counter;
      room = t.room;
      is_open = (omega (arith, ne, t.at_most, t.on_cidx), t.two, t.on_len);
    }

-- The loop ends as the consumer does.
abbrev Matches : Option (Checked Loop) → Consumed → Type 0
Matches none r = ⊥
Matches (some wrong_hash) wrong_hash = Unit
Matches (some wrong_hash) (passed r) = ⊥
Matches (some (passed l)) wrong_hash = ⊥
Matches (some (passed l)) (passed (out, acc, counter)) =
    (gap : List ℕ) × (slack : List ℕ) × (spare : List ℕ) × In l out gap [] slack acc spare counter

check_loop-round :
    (s : Settings) (rest : ℕ) (l l' : Loop)
    → check_round s rest l ≡ some (passed l')
    → check_loop s (suc rest) l ≡ check_loop s rest l'
unfolding check_loop
check_loop-round s rest l l' e = rw (check_loop, e) refl

check_loop-wrong :
    (s : Settings) (rest : ℕ) (l : Loop)
    → check_round s rest l ≡ some wrong_hash
    → check_loop s (suc rest) l ≡ some wrong_hash
unfolding check_loop
check_loop-wrong s rest l e = rw (check_loop, e) refl

check_loop-consume :
    (s : Settings) (l : Loop) (out gap input slack acc spare : List ℕ) (counter : ℕ)
    → In l out gap input slack acc spare counter
    → Matches (check_loop s (length input) l) (put_first out (consume s acc counter input))
unfolding check_loop check_round consume put_first
check_loop-consume s l out gap [] slack acc spare counter i =
    (gap, slack, spare, subst (λ o. In l o gap [] slack acc spare counter) (sym (append-nil out)) i)
check_loop-consume s l out gap (c ∷ input) slack acc spare counter i =
    let (spare', t) = read_len-Taken s l out gap input slack acc spare counter c i in
    let l' : Loop = read_len s (with_byte l acc spare c) in
    let full =
      is_full-Taken l' out (gap ++ (c ∷ [])) input slack (acc ++ (c ∷ [])) spare' counter t in
    let byte = take_byte-In l out gap input slack acc spare counter c i in
    elim (Bool-cases (is_full (acc ++ (c ∷ [])))) [
      | inr e ↦
          rw
            (
              check_loop-round s (length input) l l' (rw (byte, full, e) refl),
              consume-more s acc counter c input e,
            )
            (check_loop-consume s l' out (gap ++ (c ∷ [])) input slack (acc ++ (c ∷ [])) spare'
              counter
              (Taken-In l' out (gap ++ (c ∷ [])) input slack (acc ++ (c ∷ [])) spare' counter t e))
      | inl e ↦ elim (Bool-cases (is_wrong s counter (acc ++ (c ∷ [])))) [
        | inl w ↦
            rw
              (
                check_loop-wrong s (length input) l (
                    rw (byte, full, e)
                      (finish_chunk-wrong s l' out (gap ++ (c ∷ [])) input slack (acc ++ (c ∷ []))
                        spare' counter t e w)),
                consume-wrong s acc counter c input e w,
              )
              tt
        | inr w ↦
            rw
              (
                check_loop-round s (length input) l
                    (finished s l' out (gap ++ (c ∷ [])) input slack (acc ++ (c ∷ [])) spare'
                      counter t e)
                    (rw (byte, full, e)
                      (finish_chunk-passed s l' out (gap ++ (c ∷ [])) input slack (acc ++ (c ∷ []))
                        spare' counter t e w)),
                consume-chunk s acc counter c input e w,
                put_first-append out (drop auth_bytes (acc ++ (c ∷ [])))
                    (consume s [] ((counter + 1) % 2 ^ 32) input),
              )
              (check_loop-consume s _ (out ++ drop auth_bytes (acc ++ (c ∷ []))) [] input _ [] _
                ((counter + 1) % 2 ^ 32)
                (finished-In s l' out (gap ++ (c ∷ [])) input slack (acc ++ (c ∷ [])) spare' counter
                  t e))
      ]
    ]

-- The chunk keeps the bytes `acc` of a chunk that is not complete.
abbrev pub IsHeld : Chunk → List ℕ → ℕ → Type 0
IsHeld chunk acc counter =
    (chunk.idx ≡ length acc)
    × (take (length acc) chunk.buf ≡ acc)
    × (chunk.counter ≡ counter)
    × (length acc < chunk.len + auth_bytes)
    × (2 ≤ length acc → (chunk.len ≡ read_be16 acc) × (chunk.len + auth_bytes ≤ length chunk.buf))

-- The function ends as the consumer does, with its data at the front of the buffer.
abbrev pub Delivers : Option (Checked (List ℕ × ℕ × Chunk)) → Consumed → Type 0
Delivers none r = ⊥
Delivers (some wrong_hash) wrong_hash = Unit
Delivers (some wrong_hash) (passed r) = ⊥
Delivers (some (passed r)) wrong_hash = ⊥
Delivers (some (passed (memory, len, chunk))) (passed (out, acc, counter)) =
    (take len memory ≡ out) × (len ≤ length memory) × IsHeld chunk acc counter

Matches-Delivers :
    (r : Option (Checked Loop)) (c : Consumed) → Matches r c → Delivers (check_result r) c
unfolding check_result
Matches-Delivers none c h = h
Matches-Delivers (some wrong_hash) wrong_hash h = h
Matches-Delivers (some wrong_hash) (passed r) h = h
Matches-Delivers (some (passed l)) wrong_hash h = h
Matches-Delivers (some (passed l)) (passed (out, acc, counter)) (gap, slack, spare, i) = (
  ap (take l.j) i.on_array ∙ take-append l.j out (gap ++ ([] ++ slack)) i.on_j,
  omega (arith, ap length i.on_array, length-append out (gap ++ ([] ++ slack)), i.on_j),
  (
    i.on_cidx,
    ap (take (length acc)) i.on_buf ∙ take-append (length acc) acc spare refl,
    i.on_counter,
    i.is_open.0,
    i.is_open.2,
  ),
)

-- The buffers at the start of the loop.
start-In :
    (s : Settings) (memory : List ℕ) (blen : ℕ) (chunk : Chunk) (acc : List ℕ) (counter : ℕ)
    → 2 ≤ s.capacity
    → blen ≤ length memory
    → IsHeld chunk acc counter
    → (slack : List ℕ) × (spare : List ℕ) × In
        (start_loop s memory blen chunk)
        []
        []
        (take blen memory)
        slack
        acc
        spare
        counter
start-In s memory blen chunk acc counter cap b h =
    let (new, grown) = brealloc-append s.junk memory (chunk.len + blen) s.capacity in
    let sizes = length-brealloc s.junk memory (chunk.len + blen) s.capacity in
    let (more, wider) = brealloc-append s.junk chunk.buf (chunk.len + blen) s.capacity in
    let lens = length-brealloc s.junk chunk.buf (chunk.len + blen) s.capacity in
    let whole : brealloc s.junk memory (chunk.len + blen) s.capacity
        ≡ take blen memory ++ (drop blen memory ++ new) =
      grown
      ∙ ap (λ m. m ++ new) (sym (take-append-drop blen memory))
      ∙ append_assoc (take blen memory) (drop blen memory) new in
    (
      drop blen memory ++ new,
      drop (length acc) chunk.buf ++ more,
      record {
        on_array = whole;
        on_j = refl;
        on_k = refl;
        on_cidx = h.0;
        on_buf =
            wider
            ∙ ap (λ m. m ++ more) (sym (take-append-drop (length acc) chunk.buf))
            ∙ append_assoc (take (length acc) chunk.buf) (drop (length acc) chunk.buf) more
            ∙ ap (λ a. a ++ (drop (length acc) chunk.buf ++ more)) h.1;
        on_counter = h.2;
        room = omega (
          arith,
          h.3,
          sizes.0,
          ap length whole,
          length-take blen memory,
          length-append (take blen memory) (drop blen memory ++ new),
        );
        is_open = (h.3, omega (arith, lens.1), λ k. ((h.4 k).0, omega (arith, (h.4 k).1, lens.2)));
      },
    )

-- On any memory, with `blen` bytes in use, and a chunk that is not complete, `ss_check_hash` reads
-- and writes only inside its two buffers, and it does what the consumer of a stream does: it refuses
-- exactly when a chunk that becomes complete has a wrong hash, else the data of the chunks that
-- became complete stands at the front of the buffer, and the bytes of the next one are kept.
pub ss_check_hash-consume :
    (s : Settings) (memory : List ℕ) (blen : ℕ) (chunk : Chunk) (acc : List ℕ) (counter : ℕ)
    → 2 ≤ s.capacity
    → blen ≤ length memory
    → IsHeld chunk acc counter
    → Delivers (ss_check_hash s memory blen chunk) (consume s acc counter (take blen memory))
unfolding ss_check_hash
ss_check_hash-consume s memory blen chunk acc counter cap b h =
    let (slack, spare, i) = start-In s memory blen chunk acc counter cap b h in
    let size : length (take blen memory) ≡ blen = omega (arith, length-take blen memory) in
    Matches-Delivers _ (consume s acc counter (take blen memory)) (
      subst
        (λ n.
          Matches (check_loop s n (start_loop s memory blen chunk))
            (consume s acc counter (take blen memory)))
        size
        (subst (Matches (check_loop s (length (take blen memory)) (start_loop s memory blen chunk)))
          (put_first-nil (consume s acc counter (take blen memory)))
          (check_loop-consume s _ [] [] (take blen memory) slack acc spare counter i)))
