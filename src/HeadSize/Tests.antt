-- ===== src/HeadSize/Tests.antt =====
-- The header of a request for the host "ab".
use openwrt_helloworld.Prelude.{true, ◌≡◌, refl, arith, [], ◌∷◌, some}
use openwrt_helloworld.Relay.{addr_type}
use openwrt_helloworld.Relay.Header.{name}
use openwrt_helloworld.HeadSize.{pos, get_head_size}
use openwrt_helloworld.HeadSize.Header.{get_head_size-header_size}

get_head_size-header_size_example :
    get_head_size true (some (3 ∷ 2 ∷ 97 ∷ 98 ∷ 0 ∷ 80 ∷ [])) (pos 30) ≡ pos 6
unfolding addr_type
get_head_size-header_size_example =
    get_head_size-header_size true 3 (name (97 ∷ 98 ∷ [])) (0 ∷ 80 ∷ []) (pos 30) refl (omega arith)
