-- ===== src/VerifySimple/Attack.antt =====
-- A packet that makes the receiver of `verify_simple` call `memmove` with a negative size.
use openwrt_helloworld.Xorshift.{Xorshift}
