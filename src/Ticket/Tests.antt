-- ===== src/Ticket/Tests.antt =====
-- A record in two segments.
use openwrt_helloworld.Prelude.{ℕ, ◌≡◌, refl, arith, List, [], ◌∷◌}
use openwrt_helloworld.Xorshift.{static_state}
use openwrt_helloworld.Ticket.{encode_ready, pack_record, opened}
use openwrt_helloworld.Ticket.Encoding.{concat}
use openwrt_helloworld.Ticket.RoundTrip.{decode_segments, decode_segments-encode_ready}

abbrev segments : List (List ℕ)
segments = (0x17 ∷ 3 ∷ 3 ∷ []) ∷ (0 ∷ 2 ∷ 104 ∷ 105 ∷ []) ∷ []

decode_segments-encode_ready_example : decode_segments [] segments ≡ opened (104 ∷ 105 ∷ []) []
unfolding concat encode_ready pack_record
decode_segments-encode_ready_example =
    decode_segments-encode_ready (104 ∷ 105 ∷ []) static_state segments (omega arith) refl
