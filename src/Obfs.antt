-- ===== src/Obfs.antt =====
-- obfs.c: the table of functions of each plugin. A function is named as the source names it, with
-- `_fn` behind.
pub mod Plugins
mod Tests
use openwrt_helloworld.Prelude.{
  ℕ, Bool, true, false, List, [], ◌∷◌, Option, none, some, if◌then◌else◌,
}
use openwrt_helloworld.Prelude.Text.{codes, same_key}

-- The functions that `new_obfs_class` stores.
pub data Function : Type 0 where
  init_data_fn http_simple_new_obfs_fn : Function
  get_server_info_fn set_server_info_fn : Function
  http_simple_dispose_fn http_simple_client_encode_fn : Function
  http_simple_client_decode_fn http_simple_server_encode_fn : Function
  http_simple_server_decode_fn http_post_client_encode_fn : Function
  tls12_ticket_auth_init_data_fn tls12_ticket_auth_new_obfs_fn : Function
  tls12_ticket_auth_dispose_fn tls12_ticket_auth_client_encode_fn : Function
  tls12_ticket_auth_client_decode_fn tls12_ticket_auth_server_encode_fn : Function
  tls12_ticket_auth_server_decode_fn verify_simple_new_obfs_fn : Function
  verify_simple_dispose_fn verify_simple_client_pre_encrypt_fn : Function
  verify_simple_client_post_decrypt_fn verify_simple_server_pre_encrypt_fn : Function
  verify_simple_server_post_decrypt_fn auth_simple_init_data_fn : Function
  auth_simple_new_obfs_fn auth_simple_dispose_fn : Function
  auth_simple_client_pre_encrypt_fn auth_simple_client_post_decrypt_fn : Function
  auth_sha1_client_pre_encrypt_fn auth_sha1_client_post_decrypt_fn : Function
  auth_sha1_v2_client_pre_encrypt_fn auth_sha1_v2_client_post_decrypt_fn : Function
  auth_sha1_v4_client_pre_encrypt_fn auth_sha1_v4_client_post_decrypt_fn : Function
  auth_aes128_md5_new_obfs_fn auth_aes128_sha1_client_pre_encrypt_fn : Function
  auth_aes128_sha1_client_post_decrypt_fn auth_aes128_sha1_client_udp_pre_encrypt_fn : Function
  auth_aes128_sha1_client_udp_post_decrypt_fn auth_aes128_sha1_new_obfs_fn : Function

-- A pointer of the structure: what `malloc` left there, NULL, or a function.
pub data Slot : Type 0 where
  unset null : Slot
  stored : Function → Slot

-- `obfs_class`.
pub record ObfsClass : Type 0 where
  pub init_data : Slot
  pub new_obfs : Slot
  pub get_server_info : Slot
  pub set_server_info : Slot
  pub dispose : Slot
  pub client_pre_encrypt : Slot
  pub client_encode : Slot
  pub client_decode : Slot
  pub client_post_decrypt : Slot
  pub client_udp_pre_encrypt : Slot
  pub client_udp_post_decrypt : Slot
  pub server_pre_encrypt : Slot
  pub server_post_decrypt : Slot
  pub server_udp_pre_encrypt : Slot
  pub server_udp_post_decrypt : Slot
  pub server_encode : Slot
  pub server_decode : Slot

-- The structure as `malloc` gives it.
abbrev pub allocated : ObfsClass
allocated = record {
  init_data = unset;
  new_obfs = unset;
  get_server_info = unset;
  set_server_info = unset;
  dispose = unset;
  client_pre_encrypt = unset;
  client_encode = unset;
  client_decode = unset;
  client_post_decrypt = unset;
  client_udp_pre_encrypt = unset;
  client_udp_post_decrypt = unset;
  server_pre_encrypt = unset;
  server_post_decrypt = unset;
  server_udp_pre_encrypt = unset;
  server_udp_post_decrypt = unset;
  server_encode = unset;
  server_decode = unset;
}

-- The names that are compared with.
pub data Plugin : Type 0 where
  origin_plugin plain_plugin unknown_plugin : Plugin
  http_simple_plugin http_post_plugin tls12_ticket_auth_plugin : Plugin
  verify_simple_plugin auth_simple_plugin auth_sha1_plugin : Plugin
  auth_sha1_v2_plugin auth_sha1_v4_plugin auth_aes128_md5_plugin : Plugin
  auth_aes128_sha1_plugin : Plugin

unfoldable pub plugin_of : List ℕ → Plugin
plugin_of name =
    if same_key name (codes "origin")
    then origin_plugin
    else if same_key name (codes "plain")
    then plain_plugin
    else if same_key name (codes "http_simple")
    then http_simple_plugin
    else if same_key name (codes "http_post")
    then http_post_plugin
    else if same_key name (codes "tls1.2_ticket_auth")
    then tls12_ticket_auth_plugin
    else if same_key name (codes "verify_simple")
    then verify_simple_plugin
    else if same_key name (codes "auth_simple")
    then auth_simple_plugin
    else if same_key name (codes "auth_sha1")
    then auth_sha1_plugin
    else if same_key name (codes "auth_sha1_v2")
    then auth_sha1_v2_plugin
    else if same_key name (codes "auth_sha1_v4")
    then auth_sha1_v4_plugin
    else if same_key name (codes "auth_aes128_md5")
    then auth_aes128_md5_plugin
    else if same_key name (codes "auth_aes128_sha1")
    then auth_aes128_sha1_plugin
    else unknown_plugin

-- What is stored for each.
unfoldable pub class_of : Plugin → Option ObfsClass
class_of origin_plugin = none
class_of plain_plugin = none
class_of http_simple_plugin = some (record allocated {
  init_data = stored init_data_fn;
  new_obfs = stored http_simple_new_obfs_fn;
  get_server_info = stored get_server_info_fn;
  set_server_info = stored set_server_info_fn;
  dispose = stored http_simple_dispose_fn;
  client_encode = stored http_simple_client_encode_fn;
  client_decode = stored http_simple_client_decode_fn;
  server_encode = stored http_simple_server_encode_fn;
  server_decode = stored http_simple_server_decode_fn;
})
class_of http_post_plugin = some (record allocated {
  init_data = stored init_data_fn;
  new_obfs = stored http_simple_new_obfs_fn;
  get_server_info = stored get_server_info_fn;
  set_server_info = stored set_server_info_fn;
  dispose = stored http_simple_dispose_fn;
  client_encode = stored http_post_client_encode_fn;
  client_decode = stored http_simple_client_decode_fn;
  server_encode = stored http_simple_server_encode_fn;
  server_decode = stored http_simple_server_decode_fn;
})
class_of tls12_ticket_auth_plugin = some (record allocated {
  init_data = stored tls12_ticket_auth_init_data_fn;
  new_obfs = stored tls12_ticket_auth_new_obfs_fn;
  get_server_info = stored get_server_info_fn;
  set_server_info = stored set_server_info_fn;
  dispose = stored tls12_ticket_auth_dispose_fn;
  client_encode = stored tls12_ticket_auth_client_encode_fn;
  client_decode = stored tls12_ticket_auth_client_decode_fn;
  server_encode = stored tls12_ticket_auth_server_encode_fn;
  server_decode = stored tls12_ticket_auth_server_decode_fn;
})
class_of verify_simple_plugin = some (record allocated {
  init_data = stored init_data_fn;
  new_obfs = stored verify_simple_new_obfs_fn;
  get_server_info = stored get_server_info_fn;
  set_server_info = stored set_server_info_fn;
  dispose = stored verify_simple_dispose_fn;
  client_pre_encrypt = stored verify_simple_client_pre_encrypt_fn;
  client_post_decrypt = stored verify_simple_client_post_decrypt_fn;
  client_udp_pre_encrypt = null;
  client_udp_post_decrypt = null;
  server_pre_encrypt = stored verify_simple_server_pre_encrypt_fn;
  server_post_decrypt = stored verify_simple_server_post_decrypt_fn;
  server_udp_pre_encrypt = null;
  server_udp_post_decrypt = null;
})
class_of auth_simple_plugin = some (record allocated {
  init_data = stored auth_simple_init_data_fn;
  new_obfs = stored auth_simple_new_obfs_fn;
  get_server_info = stored get_server_info_fn;
  set_server_info = stored set_server_info_fn;
  dispose = stored auth_simple_dispose_fn;
  client_pre_encrypt = stored auth_simple_client_pre_encrypt_fn;
  client_post_decrypt = stored auth_simple_client_post_decrypt_fn;
  client_udp_pre_encrypt = null;
  client_udp_post_decrypt = null;
})
class_of auth_sha1_plugin = some (record allocated {
  init_data = stored auth_simple_init_data_fn;
  new_obfs = stored auth_simple_new_obfs_fn;
  get_server_info = stored get_server_info_fn;
  set_server_info = stored set_server_info_fn;
  dispose = stored auth_simple_dispose_fn;
  client_pre_encrypt = stored auth_sha1_client_pre_encrypt_fn;
  client_post_decrypt = stored auth_sha1_client_post_decrypt_fn;
  client_udp_pre_encrypt = null;
  client_udp_post_decrypt = null;
})
class_of auth_sha1_v2_plugin = some (record allocated {
  init_data = stored auth_simple_init_data_fn;
  new_obfs = stored auth_simple_new_obfs_fn;
  get_server_info = stored get_server_info_fn;
  set_server_info = stored set_server_info_fn;
  dispose = stored auth_simple_dispose_fn;
  client_pre_encrypt = stored auth_sha1_v2_client_pre_encrypt_fn;
  client_post_decrypt = stored auth_sha1_v2_client_post_decrypt_fn;
  client_udp_pre_encrypt = null;
  client_udp_post_decrypt = null;
})
class_of auth_sha1_v4_plugin = some (record allocated {
  init_data = stored auth_simple_init_data_fn;
  new_obfs = stored auth_simple_new_obfs_fn;
  get_server_info = stored get_server_info_fn;
  set_server_info = stored set_server_info_fn;
  dispose = stored auth_simple_dispose_fn;
  client_pre_encrypt = stored auth_sha1_v4_client_pre_encrypt_fn;
  client_post_decrypt = stored auth_sha1_v4_client_post_decrypt_fn;
  client_udp_pre_encrypt = null;
  client_udp_post_decrypt = null;
})
class_of auth_aes128_md5_plugin = some (record allocated {
  init_data = stored auth_simple_init_data_fn;
  new_obfs = stored auth_aes128_md5_new_obfs_fn;
  get_server_info = stored get_server_info_fn;
  set_server_info = stored set_server_info_fn;
  dispose = stored auth_simple_dispose_fn;
  client_pre_encrypt = stored auth_aes128_sha1_client_pre_encrypt_fn;
  client_post_decrypt = stored auth_aes128_sha1_client_post_decrypt_fn;
  client_udp_pre_encrypt = stored auth_aes128_sha1_client_udp_pre_encrypt_fn;
  client_udp_post_decrypt = stored auth_aes128_sha1_client_udp_post_decrypt_fn;
})
class_of auth_aes128_sha1_plugin = some (record allocated {
  init_data = stored auth_simple_init_data_fn;
  new_obfs = stored auth_aes128_sha1_new_obfs_fn;
  get_server_info = stored get_server_info_fn;
  set_server_info = stored set_server_info_fn;
  dispose = stored auth_simple_dispose_fn;
  client_pre_encrypt = stored auth_aes128_sha1_client_pre_encrypt_fn;
  client_post_decrypt = stored auth_aes128_sha1_client_post_decrypt_fn;
  client_udp_pre_encrypt = stored auth_aes128_sha1_client_udp_pre_encrypt_fn;
  client_udp_post_decrypt = stored auth_aes128_sha1_client_udp_post_decrypt_fn;
})
class_of unknown_plugin = none

-- Whether a plugin was asked for that is not the plain stream: then the tables of crc32.c and the
-- generator of obfsutil.c are set up.
unfoldable pub sets_up : Plugin → Bool
sets_up origin_plugin = false
sets_up plain_plugin = false
sets_up _ = true

-- The tables are set up or not, and the plugin; `none` is NULL.
unfoldable pub new_obfs_class : Option (List ℕ) → Bool × Option ObfsClass
unfolding class_of sets_up
new_obfs_class none = (false, none)
new_obfs_class (some name) = (sets_up (plugin_of name), class_of (plugin_of name))
