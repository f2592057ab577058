-- ===== src/Utils/Tests.antt =====
-- Numbers as text.
use openwrt_helloworld.Prelude.{◌≡◌, refl, arith, true, some}
use openwrt_helloworld.Prelude.Text.{atoi, codes}
use openwrt_helloworld.Utils.{ss_itoa, ss_isnumeric}
use openwrt_helloworld.Utils.Decimal.{atoi-ss_itoa}

atoi-ss_itoa_example : (ss_isnumeric (ss_itoa 8388) ≡ true) × (atoi (ss_itoa 8388) ≡ some 8388)
atoi-ss_itoa_example = atoi-ss_itoa 8388 (omega arith)

ss_itoa_run :
    (ss_itoa 8388 ≡ codes "8388") × (ss_itoa 4294967289 ≡ codes "-7") × (ss_itoa 0 ≡ codes "0")
unfolding ss_itoa
ss_itoa_run = (refl, refl, refl)
