-- ===== src/VerifySimple/RoundTrip.antt =====
-- What `pre_encrypt` sends, `post_decrypt` delivers.
use openwrt_helloworld.Prelude.{
  ℕ, zero, suc, ◌+◌, ◌-◌, ◌*◌, ◌≤◌, ltb, if◌then◌else◌, ◌<◌, ◌≡◌, refl, sym, ◌∙◌, ap, subst, arith,
  List, [], ◌∷◌, ◌++◌, append-nil, append_assoc, Option, some, length, get_or, take, drop,
  take-append, drop-append, length-append, length-take, length-drop, lt→ltb, drop-append_le,
  take-append_le, get_or-append, take-append-drop,
}
use native.Mathlib.Decide.{dec_lt}
use openwrt_helloworld.Crc32.Residue.{crc32_table}
use openwrt_helloworld.Xorshift.{Xorshift}
use openwrt_helloworld.VerifySimple.{
  pack_data, pack_units, done, overrun, deliver, unpack, round, client_pre_encrypt,
  server_post_decrypt, delivered, refused, grow,
}
use openwrt_helloworld.VerifySimple.Packet.{IsPacket, Packed, pack_data-Packed}

-- A whole packet at the front of the stream is delivered, and the loop goes on behind it.
unpack-packet :
    (fuel : ℕ) {source packet : List ℕ} (rest : List ℕ)
    → IsPacket source packet
    → unpack crc32_table (suc fuel) (packet ++ rest) ≡ deliver source (unpack crc32_table fuel rest)
unfolding unpack round
unpack-packet fuel {source} {packet} rest p =
    let first : (b : ℕ) → b < 3 → get_or (packet ++ rest) b 0 ≡ get_or packet b 0 =
      λ b h. get_or-append b packet rest 0 (omega (arith, p.large)) in
    ground (
      arith,
      p.size,
      p.small,
      p.large,
      p.padded,
      p.checked,
      p.payload,
      first 0 (omega arith),
      first 1 (omega arith),
      first 2 (omega arith),
      length-append packet rest,
      take-append (length packet) packet rest refl,
      drop-append (length packet) packet rest refl,
      drop-append_le (get_or packet 2 0 + 2) packet rest (omega (arith, p.padded)),
      take-append_le (length packet - get_or packet 2 0 - 6) (drop (get_or packet 2 0 + 2) packet)
          rest (omega (arith, p.padded, length-drop (get_or packet 2 0 + 2) packet)),
    )

-- The outcome of the sending loop for `source`: it does not leave the memory, and a receiver with
-- an empty buffer gets the data back.
pub record Sent (source : List ℕ) (result : Option (List ℕ × Xorshift)) : Type 0 where
  pub out : List ℕ
  pub generator : Xorshift
  pub returns : result ≡ some (out, generator)
  pub longer : length source ≤ length out
  pub bounded : length out ≤ 2 * length source + 22
  pub arrives : (fuel : ℕ) → length source < fuel → unpack crc32_table fuel out ≡ done source []
  pub in_front :
      (more : List ℕ)
      → ((n : ℕ) → 0 < n → unpack crc32_table n more ≡ overrun)
      → (fuel : ℕ) → length source < fuel
      → unpack crc32_table fuel (out ++ more) ≡ overrun

unpack-nil : (fuel : ℕ) → 0 < fuel → unpack crc32_table fuel [] ≡ done [] []
unfolding unpack round
unpack-nil zero h = absurd (omega arith)
unpack-nil (suc fuel) h = refl

IsPacket-longer : {source packet : List ℕ} → IsPacket source packet → length source ≤ length packet
IsPacket-longer {source} {packet} p = omega (
  arith,
  ap length p.payload,
  length-take (length packet - get_or packet 2 0 - 6) (drop (get_or packet 2 0 + 2) packet),
)

module _ {source buffer : List ℕ} {result : Option (List ℕ × List ℕ × Xorshift)}
    (nonempty : 0 < length source) (first : Packed source buffer result) where
  Sent-last : Sent source (some (first.packet, first.generator))
  Sent-last = record {
    out = first.packet;
    generator = first.generator;
    returns = refl;
    longer = IsPacket-longer first.is_packet;
    bounded = omega (arith, first.overhead);
    arrives = last_arrives;
    in_front = last_in_front;
  }
    where
      last_in_front :
          (more : List ℕ)
          → ((n : ℕ) → 0 < n → unpack crc32_table n more ≡ overrun)
          → (fuel : ℕ) → length source < fuel
          → unpack crc32_table fuel (first.packet ++ more) ≡ overrun
      last_in_front more h zero k = absurd (omega arith)
      last_in_front more h (suc fuel) k =
          unpack-packet fuel more first.is_packet ∙ ap (deliver source) (h fuel (omega arith))

      last_arrives :
          (fuel : ℕ) → length source < fuel → unpack crc32_table fuel first.packet ≡ done source []
      last_arrives zero h = absurd (omega arith)
      last_arrives (suc fuel) h =
          ap (unpack crc32_table (suc fuel)) (sym (append-nil first.packet))
          ∙ rw (unpack-packet fuel [] first.is_packet, unpack-nil fuel (omega arith), append-nil)

  Sent-more :
      {others : List ℕ} {later : Option (List ℕ × Xorshift)}
      → (rest : Sent others later) → 22 ≤ length source
      → Sent (source ++ others) (some (first.packet ++ rest.out, rest.generator))
  Sent-more {others} rest big = record {
    out = first.packet ++ rest.out;
    generator = rest.generator;
    returns = refl;
    longer = omega (
      arith,
      length-append source others,
      length-append first.packet rest.out,
      IsPacket-longer first.is_packet,
      rest.longer,
    );
    bounded = omega (
      arith,
      length-append source others,
      length-append first.packet rest.out,
      first.overhead,
      rest.bounded,
    );
    arrives = more_arrive;
    in_front = more_in_front;
  }
    where
      more_in_front :
          (more : List ℕ)
          → ((n : ℕ) → 0 < n → unpack crc32_table n more ≡ overrun)
          → (fuel : ℕ) → length (source ++ others) < fuel
          → unpack crc32_table fuel ((first.packet ++ rest.out) ++ more) ≡ overrun
      more_in_front more h zero k = absurd (omega arith)
      more_in_front more h (suc fuel) k =
          ap (unpack crc32_table (suc fuel)) (append_assoc first.packet rest.out more)
          ∙ unpack-packet fuel (rest.out ++ more) first.is_packet
          ∙ ap (deliver source)
              (rest.in_front more h fuel (omega (arith, length-append source others)))

      more_arrive :
          (fuel : ℕ)
          → length (source ++ others) < fuel
          → unpack crc32_table fuel (first.packet ++ rest.out) ≡ done (source ++ others) []
      more_arrive zero h = absurd (omega arith)
      more_arrive (suc fuel) h = rw (
        unpack-packet fuel rest.out first.is_packet,
        rest.arrives fuel (omega (arith, length-append source others)),
      )

Sent-nil : (g : Xorshift) (source : List ℕ) → length source ≡ 0 → Sent source (some ([], g))
Sent-nil g [] e = record {
  out = [];
  generator = g;
  returns = refl;
  longer = omega arith;
  bounded = omega arith;
  arrives = unpack-nil;
  in_front = λ more h fuel k. h fuel (omega arith);
}
Sent-nil g (x ∷ source) e = absurd (omega arith)

Sent-of :
    {source : List ℕ} {result other : Option (List ℕ × Xorshift)}
    → result ≡ other
    → Sent source other
    → Sent source result
Sent-of e s = record {
  out = s.out;
  generator = s.generator;
  returns = e ∙ s.returns;
  longer = s.longer;
  bounded = s.bounded;
  arrives = s.arrives;
  in_front = s.in_front;
}

module _ (fuel : ℕ) (g : Xorshift) (source buffer : List ℕ) {packet rest : List ℕ}
    {g' : Xorshift} where
  pack_units-more :
      {out : List ℕ} {g'' : Xorshift}
      → 2000 < length source
      → pack_data crc32_table g (take 2000 source) buffer ≡ some (packet, rest, g')
      → pack_units crc32_table fuel g' (drop 2000 source) rest ≡ some (out, g'')
      → pack_units crc32_table (suc fuel) g source buffer ≡ some (packet ++ out, g'')
  unfolding pack_units
  pack_units-more big first others = rw (lt→ltb _ _ big, pack_units) (rw (first, others))

  pack_units-last :
      0 < length source
      → length source ≤ 2000
      → pack_data crc32_table g source buffer ≡ some (packet, rest, g')
      → pack_units crc32_table (suc fuel) g source buffer ≡ some (packet, g')
  unfolding pack_units
  pack_units-last pos small first = ground arith

pack_units-none :
    (fuel : ℕ) (g : Xorshift) (source buffer : List ℕ)
    → length source ≡ 0
    → pack_units crc32_table (suc fuel) g source buffer ≡ some ([], g)
unfolding pack_units
pack_units-none fuel g source buffer e = ground arith

-- Enough fuel and the memory that `pre_encrypt` allocates are enough for the loop.
pub pack_units-Sent :
    (fuel : ℕ) (g : Xorshift) (source buffer : List ℕ)
    → length source < fuel
    → 2 * length source + 22 ≤ length buffer
    → Sent source (pack_units crc32_table fuel g source buffer)
pack_units-Sent zero g source buffer enough room = absurd (omega arith)
pack_units-Sent (suc fuel) g source buffer enough room = elim (dec_lt 2000 (length source)) [
  | yes big ↦
      let taken = length-take 2000 source in
      let first =
        pack_data-Packed g (take 2000 source) buffer (omega (arith, taken))
          (omega (arith, taken)) in
      let rest =
        pack_units-Sent fuel first.generator (drop 2000 source) first.rest
          (omega (arith, length-drop 2000 source))
          (omega (arith, length-drop 2000 source, first.rest_length, first.overhead, taken)) in
      subst (λ s. Sent s (pack_units crc32_table (suc fuel) g source buffer))
        (take-append-drop 2000 source)
        (Sent-of (pack_units-more fuel g source buffer big first.returns rest.returns)
          (Sent-more (omega (arith, taken)) first rest (omega (arith, taken))))
  | no small ↦ elim (dec_lt 0 (length source)) [
    | yes pos ↦
        let first = pack_data-Packed g source buffer (omega arith) (omega arith) in
        Sent-of (pack_units-last fuel g source buffer pos (omega arith) first.returns)
          (Sent-last pos first)
    | no none_left ↦
        Sent-of (pack_units-none fuel g source buffer (omega arith))
          (Sent-nil g source (omega arith))
  ]
]

-- Whatever is sent, `pre_encrypt` returns, and never leaves the memory that it allocates, of twice the
-- data's length and 32 bytes. Where the bytes sent are at most 16384, a receiver with an empty buffer
-- gets exactly the data, and keeps nothing; else it refuses them, and keeps its buffer.
pub post_decrypt-pre_encrypt :
    (g : Xorshift) (plaindata out_buffer : List ℕ) (capacity capacity' : ℕ)
    → length out_buffer ≡ 2 * length plaindata + 32
    → (sent : List ℕ) × (g' : Xorshift) × (client_pre_encrypt crc32_table g out_buffer plaindata
          capacity
        ≡ some (sent, grow capacity (length sent), g'))
      × (length sent ≤ 2 * length plaindata + 22)
      × (server_post_decrypt crc32_table [] sent capacity' ≡ (
          if ltb 16384 (length sent)
          then refused []
          else delivered plaindata (grow capacity' (length plaindata)) []))
unfolding client_pre_encrypt server_post_decrypt
post_decrypt-pre_encrypt g plaindata out_buffer capacity capacity' allocated =
    let s =
      pack_units-Sent (suc (length plaindata)) g plaindata out_buffer (omega arith) (omega arith) in
    (
      s.out,
      s.generator,
      rw s.returns,
      s.bounded,
      ground (arith, s.arrives (suc (length s.out)) (omega (arith, s.longer))),
    )
