-- ===== src/Ticket/RoundTrip.antt =====
-- What `client_encode` sends, in any segments, through `server_decode`.
use openwrt_helloworld.Prelude.{
  ℕ, suc, ◌+◌, ◌≤◌, ◌<◌, ◌≡◌, refl, sym, ap, ◌∙◌, arith, List, [], ◌∷◌, ◌++◌, append_assoc, length,
  take, drop, length-append, length-take, length-drop, take-append, drop-append, take-append-drop,
}
use openwrt_helloworld.Xorshift.{Xorshift}
use openwrt_helloworld.Ticket.{
  pack_record, encode_ready, Opened, refused, no_fuel, opened, put_first, decode_loop, decode_ready,
}
use openwrt_helloworld.Ticket.Encoding.{concat, wire, AreRecords, encode_ready-records}
use openwrt_helloworld.Ticket.Left.{IsPart, put_first-opened, length-pack, decode-Left}

-- The calls of `server_decode` on the segments that come.
unfoldable pub after : Opened → (List ℕ → Opened) → Opened
after refused k = refused
after no_fuel k = no_fuel
after (opened out recv) k = put_first out (k recv)

unfoldable pub decode_segments : List ℕ → List (List ℕ) → Opened
decode_segments recv [] = opened [] recv
decode_segments recv (segment ∷ more) =
    after (decode_ready recv segment) (λ next. decode_segments next more)

-- Nothing is left of the stream: the last record is complete.
no_part :
    (rs : List (List ℕ)) (kept : ℕ)
    → IsPart kept rs
    → drop kept (wire rs) ≡ []
    → opened [] (take kept (wire rs)) ≡ opened (concat rs) []
unfolding wire concat
no_part [] kept h e = ap (λ n. opened [] (take n [])) h
no_part (r ∷ rs) kept h e = absurd (
    omega
      (arith, h, length-pack r (wire rs), length-drop kept (pack_record r ++ wire rs), ap length e))

after-opened :
    (o : Opened) (out recv : List ℕ) (k : List ℕ → Opened)
    → o ≡ opened out recv
    → after o k ≡ put_first out (k recv)
unfolding after
after-opened o out recv k e = ap (λ x. after x k) e

IsPart-zero : (rs : List (List ℕ)) → IsPart 0 rs
IsPart-zero [] = refl
IsPart-zero (r ∷ rs) = omega arith

decode_segments-left :
    (segments rs : List (List ℕ)) (kept : ℕ)
    → AreRecords rs
    → kept ≤ length (wire rs)
    → IsPart kept rs
    → drop kept (wire rs) ≡ concat segments
    → decode_segments (take kept (wire rs)) segments ≡ opened (concat rs) []
unfolding decode_segments concat decode_ready
decode_segments-left [] rs kept a b h e = no_part rs kept h e
decode_segments-left (segment ∷ more) rs kept a b h e =
    let kept_size : length (take kept (wire rs)) ≡ kept =
      omega (arith, length-take kept (wire rs)) in
    let whole : wire rs ≡ (take kept (wire rs) ++ segment) ++ concat more =
      sym (take-append-drop kept (wire rs))
      ∙ ap (λ x. take kept (wire rs) ++ x) e
      ∙ sym (append_assoc (take kept (wire rs)) segment (concat more)) in
    let size : length (take kept (wire rs) ++ segment) ≡ kept + length segment =
      omega (arith, kept_size, length-append (take kept (wire rs)) segment) in
    let n : ℕ = kept + length segment in
    let come : take n (wire rs) ≡ take kept (wire rs) ++ segment =
      ap (take n) whole ∙ take-append n (take kept (wire rs) ++ segment) (concat more) (sym size) in
    let left : drop n (wire rs) ≡ concat more =
      ap (drop n) whole ∙ drop-append n (take kept (wire rs) ++ segment) (concat more) (sym size) in
    let l =
      decode-Left (suc (length (take kept (wire rs) ++ segment))) n rs a (omega (arith, size)) (
        omega (
          arith,
          size,
          ap length whole,
          length-append (take kept (wire rs) ++ segment) (concat more),
        )) in
    after-opened _ l.out (take l.kept (wire l.rest)) (λ next. decode_segments next more)
      (ap (decode_loop (suc (length (take kept (wire rs) ++ segment)))) (sym come) ∙ l.result)
    ∙ ap (put_first l.out) (
        decode_segments-left more l.rest l.kept l.are_records l.bound l.is_part
          (sym l.unread ∙ left))
    ∙ put_first-opened l.out (concat l.rest) []
    ∙ ap (λ x. opened x []) (sym l.data_split)

-- Whatever data is sent, whatever the generator gives, and in whatever segments the bytes come: the
-- decoder refuses nothing, its loop ends, it gives the data back, and its buffer is empty at the end.
pub decode_segments-encode_ready :
    (bytes : List ℕ) (g : Xorshift) (segments : List (List ℕ))
    → 0 < length bytes
    → concat segments ≡ (encode_ready bytes g).0
    → decode_segments [] segments ≡ opened bytes []
unfolding concat
decode_segments-encode_ready bytes g segments h e =
    let (rs, w, c, a) = encode_ready-records bytes g h in
    decode_segments-left segments rs 0 a (omega arith) (IsPart-zero rs) (sym (e ∙ w))
    ∙ ap (λ x. opened x []) c
