-- ===== src/Obfs/Plugins.antt =====
-- What `new_obfs_class` stores, for every name.
use openwrt_helloworld.Prelude.{
  ℕ, ◌≡◌, ◌⊎◌, refl, inl, inr, arith, Bool, true, List, Option, none, some,
}
use openwrt_helloworld.Prelude.Text.{codes, same_key_iff}
use openwrt_helloworld.Obfs.{
  Slot, unset, null, stored, ObfsClass, Plugin, origin_plugin, plain_plugin, unknown_plugin,
  http_simple_plugin, http_post_plugin, tls12_ticket_auth_plugin, verify_simple_plugin,
  auth_simple_plugin, auth_sha1_plugin, auth_sha1_v2_plugin, auth_sha1_v4_plugin,
  auth_aes128_md5_plugin, auth_aes128_sha1_plugin, plugin_of, class_of, sets_up, new_obfs_class,
}

-- The pointer was written, and is a function.
abbrev pub IsStored : Slot → Type 0
IsStored unset = ⊥
IsStored null = ⊥
IsStored (stored f) = Unit

abbrev pub IsWritten : Slot → Type 0
IsWritten unset = ⊥
IsWritten null = Unit
IsWritten (stored f) = Unit

-- The functions that each plugin has, and those of a plugin for obfuscation or for a protocol.
abbrev pub HasBase : ObfsClass → Type 0
HasBase p =
    IsStored p.init_data
    × IsStored p.new_obfs
    × IsStored p.get_server_info
    × IsStored p.set_server_info
    × IsStored p.dispose

abbrev pub IsObfs : ObfsClass → Type 0
IsObfs p =
    IsStored p.client_encode
    × IsStored p.client_decode
    × IsStored p.server_encode
    × IsStored p.server_decode

abbrev pub IsProtocol : ObfsClass → Type 0
IsProtocol p =
    IsStored p.client_pre_encrypt
    × IsStored p.client_post_decrypt
    × IsWritten p.client_udp_pre_encrypt
    × IsWritten p.client_udp_post_decrypt

abbrev pub IsUsable : Bool → Option ObfsClass → Type 0
IsUsable tables none = Unit
IsUsable tables (some p) = (tables ≡ true) × HasBase p × (IsObfs p ⊎ IsProtocol p)

class_of-IsUsable : (k : Plugin) → IsUsable (sets_up k) (class_of k)
unfolding class_of sets_up
class_of-IsUsable origin_plugin = tt
class_of-IsUsable plain_plugin = tt
class_of-IsUsable unknown_plugin = tt
class_of-IsUsable http_simple_plugin = (refl, (tt, tt, tt, tt, tt), inl (tt, tt, tt, tt))
class_of-IsUsable http_post_plugin = (refl, (tt, tt, tt, tt, tt), inl (tt, tt, tt, tt))
class_of-IsUsable tls12_ticket_auth_plugin = (refl, (tt, tt, tt, tt, tt), inl (tt, tt, tt, tt))
class_of-IsUsable verify_simple_plugin = (refl, (tt, tt, tt, tt, tt), inr (tt, tt, tt, tt))
class_of-IsUsable auth_simple_plugin = (refl, (tt, tt, tt, tt, tt), inr (tt, tt, tt, tt))
class_of-IsUsable auth_sha1_plugin = (refl, (tt, tt, tt, tt, tt), inr (tt, tt, tt, tt))
class_of-IsUsable auth_sha1_v2_plugin = (refl, (tt, tt, tt, tt, tt), inr (tt, tt, tt, tt))
class_of-IsUsable auth_sha1_v4_plugin = (refl, (tt, tt, tt, tt, tt), inr (tt, tt, tt, tt))
class_of-IsUsable auth_aes128_md5_plugin = (refl, (tt, tt, tt, tt, tt), inr (tt, tt, tt, tt))
class_of-IsUsable auth_aes128_sha1_plugin = (refl, (tt, tt, tt, tt, tt), inr (tt, tt, tt, tt))

-- Whatever name is asked for: where a plugin is made, the tables are set up, the functions that make
-- and release its data are stored, and so are those for both directions of both sides of an
-- obfuscation, or those of the client of a protocol.
pub new_obfs_class-IsUsable :
    (name : Option (List ℕ)) → let (tables, made) = new_obfs_class name in IsUsable tables made
unfolding new_obfs_class
new_obfs_class-IsUsable none = tt
new_obfs_class-IsUsable (some name) = class_of-IsUsable (plugin_of name)

verify_simple-name :
    (name : List ℕ) → plugin_of name ≡ verify_simple_plugin → name ≡ codes "verify_simple"
unfolding plugin_of
verify_simple-name name h = ground (arith, h, same_key_iff name (codes "verify_simple"))

server_hook :
    (k : Plugin) (p : ObfsClass)
    → class_of k ≡ some p
    → (k ≡ verify_simple_plugin) ⊎ (p.server_post_decrypt ≡ unset) × (p.server_pre_encrypt ≡ unset)
unfolding class_of
server_hook origin_plugin p h = ground (arith, h)
server_hook plain_plugin p h = ground (arith, h)
server_hook unknown_plugin p h = ground (arith, h)
server_hook http_simple_plugin p h = ground (arith, h)
server_hook http_post_plugin p h = ground (arith, h)
server_hook tls12_ticket_auth_plugin p h = ground (arith, h)
server_hook verify_simple_plugin p h = inl refl
server_hook auth_simple_plugin p h = ground (arith, h)
server_hook auth_sha1_plugin p h = ground (arith, h)
server_hook auth_sha1_v2_plugin p h = ground (arith, h)
server_hook auth_sha1_v4_plugin p h = ground (arith, h)
server_hook auth_aes128_md5_plugin p h = ground (arith, h)
server_hook auth_aes128_sha1_plugin p h = ground (arith, h)

-- Every plugin but verify_simple leaves the pointers to the functions of a protocol's server as
-- `malloc` gave them.
pub new_obfs_class-unset :
    (name : List ℕ) (p : ObfsClass)
    → (new_obfs_class (some name)).1 ≡ some p
    → (name ≡ codes "verify_simple")
      ⊎ (p.server_post_decrypt ≡ unset) × (p.server_pre_encrypt ≡ unset)
unfolding new_obfs_class
new_obfs_class-unset name p h = elim (server_hook (plugin_of name) p h) [
  | inl e ↦ inl (verify_simple-name name e)
  | inr e ↦ inr e
]
