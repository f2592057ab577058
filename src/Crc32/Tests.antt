-- ===== src/Crc32/Tests.antt =====
-- Runs of the checksums, and the theorem on the residue at a packet.
use openwrt_helloworld.Prelude.{◌≡◌, refl, List, [], ◌∷◌, some}
use openwrt_helloworld.Prelude.{ℕ}
use openwrt_helloworld.Crc32.{crc_step, crc_loop, crc32, fillcrc32}
use openwrt_helloworld.Crc32.Residue.{crc32_table, crc32-fillcrc32}

-- "123456789"
abbrev digits : List ℕ
digits = 49 ∷ 50 ∷ 51 ∷ 52 ∷ 53 ∷ 54 ∷ 55 ∷ 56 ∷ 57 ∷ []

abbrev sample : List ℕ
sample = 0 ∷ 9 ∷ 1 ∷ 65 ∷ 66 ∷ 0 ∷ 0 ∷ 0 ∷ 0 ∷ []

-- The check value of CRC-32.
crc32-digits : crc32 crc32_table digits ≡ 0xcbf43926
unfolding crc32 crc_loop crc_step crc32_table
crc32-digits = refl

abbrev sealed : List ℕ
sealed = 0 ∷ 9 ∷ 1 ∷ 65 ∷ 66 ∷ 167 ∷ 115 ∷ 167 ∷ 52 ∷ []

fillcrc32-sample : fillcrc32 crc32_table sample ≡ some sealed
unfolding fillcrc32 crc_loop crc_step crc32_table
fillcrc32-sample = refl

crc32-fillcrc32_example : crc32 crc32_table sealed ≡ 0xffffffff
crc32-fillcrc32_example = crc32-fillcrc32 sample fillcrc32-sample
