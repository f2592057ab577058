-- ===== src/VerifySimple/Safety.antt =====
-- The receive buffer of `verify_simple`: its bound, the refusals, and the `memmove` that leaves it.
use openwrt_helloworld.Prelude.{
  ℕ, zero, suc, ◌+◌, ◌-◌, ◌*◌, ◌^◌, ◌≤◌, ◌<◌, ◌≡◌, refl, sym, ap, ◌∙◌, subst, arith, List, [], ◌∷◌,
  ◌++◌, length-append, length, get_or, take, drop, if◌then◌else◌, length-drop, length-take, lt→ltb,
  ltb_of_le,
}
use native.Mathlib.Decide.{dec_lt}
use openwrt_helloworld.Crc32.{crc32}
use openwrt_helloworld.VerifySimple.{
  Unpacked, done, bad, overrun, no_fuel, deliver, unpack, Round, wait, wrong, negative, packet,
  round, recv_buffer_cap, Decrypted, delivered, refused, fault, no_end, decrypted,
  server_post_decrypt,
}

-- A whole packet with a right checksum whose padding byte is larger than the packet lets it be.
pub record IsOverrun (table recv : List ℕ) (len : ℕ) : Type 0 where
  pub size : len ≡ get_or recv 0 0 * 2 ^ 8 + get_or recv 1 0
  pub large : 7 ≤ len
  pub small : len < 8192
  pub whole : len ≤ length recv
  pub checked : crc32 table (take len recv) ≡ 0xffffffff
  pub overruns : len < get_or recv 2 0 + 6

-- Such a packet stands somewhere in the bytes.
abbrev pub HasOverrun : List ℕ → List ℕ → Type 0
HasOverrun table recv = (at len : ℕ) × (at + len ≤ length recv) × IsOverrun table (drop at recv) len

drop-nil : (n : ℕ) → drop {A = ℕ} n [] ≡ []
drop-nil zero = refl
drop-nil (suc n) = refl

drop-drop : (n at : ℕ) (l : List ℕ) → drop at (drop n l) ≡ drop (n + at) l
drop-drop zero at l = ap (λ k. drop k l) (omega arith)
drop-drop (suc n) at [] = drop-nil at ∙ sym (drop-nil (suc n + at))
drop-drop (suc n) at (x ∷ l) =
    let more : suc n + at ≡ suc (n + at) = omega arith in
    drop-drop n at l ∙ sym (ap (λ k. drop k (x ∷ l)) more)

-- What the loop keeps is an end of what it was given; the delivered bytes and those kept together
-- are no more than it was given.
abbrev pub Shrinks : List ℕ → List ℕ → Unpacked → Type 0
Shrinks table recv (done out kept) = length out + length kept ≤ length recv
Shrinks table recv bad = Unit
Shrinks table recv overrun = HasOverrun table recv
Shrinks table recv no_fuel = ⊥

deliver-Shrinks :
    (table recv : List ℕ) (len : ℕ) (bytes : List ℕ) (u : Unpacked)
    → Shrinks table (drop len recv) u
    → length bytes + length (drop len recv) ≤ length recv
    → len ≤ length recv
    → Shrinks table recv (deliver bytes u)
deliver-Shrinks table recv n bytes (done out kept) s h w = omega (arith, length-append bytes out)
deliver-Shrinks table recv n bytes bad s h w = tt
deliver-Shrinks table recv n bytes overrun (at, len, fits, o) h w = (
  n + at,
  len,
  omega (arith, length-drop n recv),
  subst (λ l. IsOverrun table l len) (drop-drop n at recv) o,
)
deliver-Shrinks table recv n bytes no_fuel s h w = s

-- A packet that the tests let through lies inside the received bytes, and its data inside it.
round-packet :
    (table recv : List ℕ) (len pad : ℕ)
    → round table recv ≡ packet len pad
    → (7 ≤ len) × (len ≤ length recv) × (pad + 6 ≤ len)
unfolding round
round-packet table recv len pad e = ground arith

-- A negative size comes from such a packet in front.
round-negative :
    (table recv : List ℕ)
    → round table recv ≡ negative
    → IsOverrun table recv (get_or recv 0 0 * 2 ^ 8 + get_or recv 1 0)
unfolding round
round-negative table recv e = record {
  size = refl;
  large = ground arith;
  small = ground arith;
  whole = ground arith;
  checked = ground arith;
  overruns = ground arith;
}

round-overrun :
    (table recv : List ℕ) (len : ℕ) → IsOverrun table recv len → round table recv ≡ negative
unfolding round
round-overrun table recv len o =
    ground (arith, o.size, o.large, o.small, o.whole, o.checked, o.overruns)

-- Such a packet in front makes the loop end there.
pub unpack-overrun :
    (table recv : List ℕ) (len fuel : ℕ)
    → IsOverrun table recv len
    → 0 < fuel
    → unpack table fuel recv ≡ overrun
unfolding unpack
unpack-overrun table recv len zero o h = absurd (omega arith)
unpack-overrun table recv len (suc fuel) o h = rw (unpack, round-overrun table recv len o) refl

-- One fuel for each byte is enough: every round takes at least 7 bytes.
pub unpack-Shrinks :
    (table : List ℕ) (fuel : ℕ) (recv : List ℕ)
    → length recv < fuel
    → Shrinks table recv (unpack table fuel recv)
unpack-Shrinks table zero recv h = absurd (omega arith)
unpack-Shrinks table (suc fuel) recv h = go (unpack-Shrinks table fuel) (round table recv) refl
  where
    go :
        ((kept : List ℕ) → length kept < fuel → Shrinks table kept (unpack table fuel kept))
        → (r : Round) → round table recv ≡ r
        → Shrinks table recv (unpack table (suc fuel) recv)
    go ih wait e = unfold unpack in rw (e, unpack) (omega arith)
    go ih wrong e = unfold unpack in rw (e, unpack) tt
    go ih negative e =
        let o = round-negative table recv e in
        unfold unpack in rw (e, unpack) (0, _, omega (arith, o.whole), o)
    go ih (packet len pad) e =
        let (least, within, room) = round-packet table recv len pad e in
        let kept = drop len recv in
        let bytes = take (len - pad - 6) (drop (pad + 2) recv) in
        unfold unpack in
        rw (e, unpack)
          (deliver-Shrinks table recv len bytes (unpack table fuel kept)
            (ih kept (omega (arith, length-drop len recv)))
            (omega (arith, length-drop len recv, length-take (len - pad - 6) (drop (pad + 2) recv)))
            within)

-- What a result may keep and deliver, when the bytes `all` were held or received; and what there is
-- in them where `memmove` gets a negative size.
abbrev pub IsBounded : List ℕ → List ℕ → Decrypted → Type 0
IsBounded table all (delivered out capacity kept) =
    (length kept ≤ recv_buffer_cap)
    × (length out + length kept ≤ length all)
    × (length out ≤ capacity)
IsBounded table all (refused kept) = length kept ≤ recv_buffer_cap
IsBounded table all fault = HasOverrun table all
IsBounded table all no_end = ⊥

decrypted-IsBounded :
    (table all : List ℕ) (capacity : ℕ) (u : Unpacked)
    → Shrinks table all u
    → length all ≤ recv_buffer_cap
    → IsBounded table all (decrypted capacity u)
unfolding decrypted
decrypted-IsBounded table all capacity (done out kept) s k =
    (omega arith, omega arith, ground arith)
decrypted-IsBounded table all capacity bad s k = omega arith
decrypted-IsBounded table all capacity overrun s k = s
decrypted-IsBounded table all capacity no_fuel s k = s

-- Where at most 16384 bytes are held: the loop ends, the receive buffer never holds more than its
-- 16384 bytes, what is delivered and kept is no more than what was held and received, and what is
-- delivered fits the capacity that is reported; `memmove` gets a negative size only where the bytes
-- held and received contain a whole packet with a right checksum whose length is less than its
-- padding byte and 6.
pub post_decrypt-IsBounded :
    (table recv plaindata : List ℕ) (capacity : ℕ)
    → length recv ≤ recv_buffer_cap
    → IsBounded table (recv ++ plaindata) (server_post_decrypt table recv plaindata capacity)
unfolding server_post_decrypt
post_decrypt-IsBounded table recv plaindata capacity held =
    elim (dec_lt recv_buffer_cap (length recv + length plaindata)) [
      | yes full ↦ rw (lt→ltb _ _ full, if◌then◌else◌) held
      | no fits ↦
          let all = recv ++ plaindata in
          rw
            (
              ltb_of_le recv_buffer_cap (length recv + length plaindata) (omega arith),
              if◌then◌else◌,
            )
            (decrypted-IsBounded table all capacity (unpack table (suc (length all)) all)
              (unpack-Shrinks table (suc (length all)) all (omega arith))
              (omega (arith, length-append recv plaindata)))
    ]
