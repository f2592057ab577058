-- ===== src/VerifySimple/Tests.antt =====
-- Runs of `verify_simple`, and its theorems at concrete data.
use openwrt_helloworld.Prelude.{
  ℕ, ◌≤◌, ◌≡◌, ltb, if◌then◌else◌, refl, arith, List, [], ◌∷◌, length, some, replicate,
}
use openwrt_helloworld.Crc32.Residue.{crc32_table}
use openwrt_helloworld.Xorshift.{Xorshift, static_state}
use openwrt_helloworld.VerifySimple.{
  client_pre_encrypt, server_post_decrypt, delivered, refused, grow,
}
use openwrt_helloworld.VerifySimple.RoundTrip.{post_decrypt-pre_encrypt}
use openwrt_helloworld.VerifySimple.Safety.{post_decrypt-IsBounded, IsBounded}

abbrev greeting : List ℕ
greeting = 104 ∷ 105 ∷ []

abbrev memory : List ℕ
memory = replicate 36 0

post_decrypt-pre_encrypt_example :
    (sent : List ℕ) × (g' : Xorshift) × (client_pre_encrypt crc32_table static_state memory greeting
        64
      ≡ some (sent, grow 64 (length sent), g'))
    × (length sent ≤ 26)
    × (server_post_decrypt crc32_table [] sent 64
        ≡ (if ltb 16384 (length sent) then refused [] else delivered greeting 64 []))
post_decrypt-pre_encrypt_example = post_decrypt-pre_encrypt static_state greeting memory 64 64 refl

post_decrypt-IsBounded_example :
    IsBounded crc32_table greeting (server_post_decrypt crc32_table [] greeting 64)
post_decrypt-IsBounded_example = post_decrypt-IsBounded crc32_table [] greeting 64 (omega arith)

-- A packet of 7 bytes that claims 255 bytes of padding, before and after its checksum.
abbrev body : List ℕ
body = 0 ∷ 7 ∷ 255 ∷ 0 ∷ 0 ∷ 0 ∷ 0 ∷ []

abbrev attack : List ℕ
attack = 0 ∷ 7 ∷ 255 ∷ 167 ∷ 95 ∷ 253 ∷ 98 ∷ []
