-- ===== src/Ticket/Left.antt =====
-- What a call of `server_decode` leaves of a stream of records.
use openwrt_helloworld.Prelude.{
  ℕ, zero, suc, ◌+◌, ◌-◌, ◌^◌, ◌≤◌, ◌<◌, ◌≡◌, inl, inr, refl, sym, ap, ◌∙◌, arith, List, [], ◌∷◌,
  ◌++◌, append_assoc, ltb, length, take, drop, length-append, length-take, drop-append_right,
  Bool-cases, ltb→lt, ltb_false→le,
}
use openwrt_helloworld.Ticket.{pack_record, opened, put_first, decode_loop}
use openwrt_helloworld.Ticket.Encoding.{concat, wire, AreRecords}
use openwrt_helloworld.Ticket.Decoding.{
  headed, take-headed, decode_loop-short, decode_loop-part, decode_loop-record,
}

-- What is kept is less than the next record.
abbrev pub IsPart : ℕ → List (List ℕ) → Type 0
IsPart n [] = n ≡ 0
IsPart n (r ∷ rs) = n < 5 + length r

-- What a call leaves of a stream of records, of which `n` bytes had come.
pub record Left (fuel n : ℕ) (rs : List (List ℕ)) : Type 0 where
  pub out : List ℕ
  pub rest : List (List ℕ)
  pub kept : ℕ
  pub result : decode_loop fuel (take n (wire rs)) ≡ opened out (take kept (wire rest))
  pub data_split : concat rs ≡ out ++ concat rest
  pub unread : drop n (wire rs) ≡ drop kept (wire rest)
  pub bound : kept ≤ length (wire rest)
  pub are_records : AreRecords rest
  pub is_part : IsPart kept rest

pub put_first-opened :
    (a out recv : List ℕ) → put_first a (opened out recv) ≡ opened (a ++ out) recv
unfolding put_first
put_first-opened a out recv = refl

pub length-pack : (r rest : List ℕ) → length (pack_record r ++ rest) ≡ 5 + length r + length rest
unfolding pack_record
length-pack r rest = omega (arith, length-append r rest)

decode_part :
    (fuel n : ℕ) (r rest : List ℕ)
    → length r < 2 ^ 16
    → n < 5 + length r
    → decode_loop (suc fuel) (take n (pack_record r ++ rest))
      ≡ opened [] (take n (pack_record r ++ rest))
unfolding pack_record
decode_part fuel n r rest small h = elim (Bool-cases (ltb 5 n)) [
  | inr e ↦
      decode_loop-short fuel (take n (headed r (r ++ rest)))
        (omega (arith, length-take n (headed r (r ++ rest)), ltb_false→le 5 n e))
  | inl e ↦
      let big : 5 < n = ltb→lt 5 n e in
      rw (take-headed n r (r ++ rest) (omega arith)) (
        decode_loop-part fuel r (take (n - 5) (r ++ rest)) small
          (omega (arith, length-take (n - 5) (r ++ rest))))
]

take_past : (xs ys : List ℕ) (k : ℕ) → take (length xs + k) (xs ++ ys) ≡ xs ++ take k ys
take_past [] ys k = ap (λ n. take n ys) (omega arith)
take_past (x ∷ xs) ys k =
    let more : suc (length xs) + k ≡ suc (length xs + k) = omega arith in
    ap (λ n. take n (x ∷ (xs ++ ys))) more ∙ ap (λ l. x ∷ l) (take_past xs ys k)

take-pack :
    (r rest : List ℕ) (k n : ℕ)
    → n ≡ 5 + length r + k
    → take n (pack_record r ++ rest) ≡ headed r (r ++ take k rest)
unfolding pack_record
take-pack r rest k n e =
    take-headed n r (r ++ rest) (omega arith)
    ∙ ap (headed r) (ap (λ m. take m (r ++ rest)) (omega arith) ∙ take_past r rest k)

drop-pack :
    (r rest : List ℕ) (k n : ℕ)
    → n ≡ 5 + length r + k
    → drop n (pack_record r ++ rest) ≡ drop k rest
unfolding pack_record
drop-pack r rest k n e =
    drop-append_right (headed r []) (r ++ rest) (length r + k) n (omega arith)
    ∙ drop-append_right r rest k (length r + k) refl

pub decode-Left :
    (fuel n : ℕ) (rs : List (List ℕ))
    → AreRecords rs
    → n < fuel
    → n ≤ length (wire rs)
    → Left fuel n rs
unfolding wire concat
decode-Left zero n rs a h b = absurd (omega arith)
decode-Left (suc fuel) n [] a h b = record {
  out = [];
  rest = [];
  kept = n;
  result = decode_loop-short fuel (take n []) (omega (arith, length-take {A = ℕ} n []));
  data_split = refl;
  unread = refl;
  bound = b;
  are_records = tt;
  is_part = omega arith;
}
decode-Left (suc fuel) n (r ∷ rs) a h b = elim (Bool-cases (ltb n (5 + length r))) [
  | inl e ↦ record {
    out = [];
    rest = r ∷ rs;
    kept = n;
    result = decode_part fuel n r (wire rs) a.0.1 (ltb→lt n (5 + length r) e);
    data_split = refl;
    unread = refl;
    bound = b;
    are_records = a;
    is_part = ltb→lt n (5 + length r) e;
  }
  | inr e ↦
      let enough : 5 + length r ≤ n = ltb_false→le n (5 + length r) e in
      let k : ℕ = n - (5 + length r) in
      let l = decode-Left fuel k rs a.1 (omega arith) (omega (arith, length-pack r (wire rs))) in
      record {
        out = r ++ l.out;
        rest = l.rest;
        kept = l.kept;
        result =
            ap (decode_loop (suc fuel)) (take-pack r (wire rs) k n (omega arith))
            ∙ decode_loop-record fuel r (take k (wire rs)) a.0.0 a.0.1
            ∙ ap (put_first r) l.result
            ∙ put_first-opened r l.out (take l.kept (wire l.rest));
        data_split = ap (λ x. r ++ x) l.data_split ∙ sym (append_assoc r l.out (concat l.rest));
        unread = drop-pack r (wire rs) k n (omega arith) ∙ l.unread;
        bound = l.bound;
        are_records = l.are_records;
        is_part = l.is_part;
      }
]
