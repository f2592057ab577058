-- ===== src/Netutils/Tests.antt =====
-- A host name with an underscore and a trailing dot.
use openwrt_helloworld.Prelude.{◌≡◌, arith, [], ◌∷◌, ◌++◌, some, length}
use openwrt_helloworld.Prelude.Text.{codes}
use openwrt_helloworld.Netutils.{validate_hostname}
use openwrt_helloworld.Netutils.Hostname.{is_host_name, validate_hostname-is_host_name}

validate_hostname-is_host_name_example :
    validate_hostname (codes "a_b.c-d." ++ (0 ∷ 0 ∷ [])) (length (codes "a_b.c-d."))
    ≡ some (is_host_name (codes "a_b.c-d."))
validate_hostname-is_host_name_example =
    validate_hostname-is_host_name (codes "a_b.c-d.") (0 ∷ []) (omega arith)
