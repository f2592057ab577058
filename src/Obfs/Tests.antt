-- ===== src/Obfs/Tests.antt =====
-- The plugins, for two names.
use openwrt_helloworld.Prelude.{◌≡◌, ◌⊎◌, refl, some}
use openwrt_helloworld.Prelude.Text.{codes, same_key}
use openwrt_helloworld.Obfs.{
  ObfsClass, allocated, unset, null, stored, new_obfs_class, plugin_of,
  auth_sha1_v4_client_post_decrypt_fn, auth_sha1_v4_client_pre_encrypt_fn, auth_simple_dispose_fn,
  auth_simple_init_data_fn, auth_simple_new_obfs_fn, get_server_info_fn, set_server_info_fn,
}
use openwrt_helloworld.Obfs.Plugins.{IsUsable, new_obfs_class-IsUsable, new_obfs_class-unset}

abbrev auth_sha1_v4 : ObfsClass
auth_sha1_v4 = record allocated {
  init_data = stored auth_simple_init_data_fn;
  new_obfs = stored auth_simple_new_obfs_fn;
  get_server_info = stored get_server_info_fn;
  set_server_info = stored set_server_info_fn;
  dispose = stored auth_simple_dispose_fn;
  client_pre_encrypt = stored auth_sha1_v4_client_pre_encrypt_fn;
  client_post_decrypt = stored auth_sha1_v4_client_post_decrypt_fn;
  client_udp_pre_encrypt = null;
  client_udp_post_decrypt = null;
}

new_obfs_class-IsUsable_example :
    let (tables, made) = new_obfs_class (some (codes "http_post")) in IsUsable tables made
new_obfs_class-IsUsable_example = new_obfs_class-IsUsable (some (codes "http_post"))

new_obfs_class-unset_example :
    (codes "auth_sha1_v4" ≡ codes "verify_simple")
    ⊎ (auth_sha1_v4.server_post_decrypt ≡ unset) × (auth_sha1_v4.server_pre_encrypt ≡ unset)
unfolding new_obfs_class plugin_of same_key
new_obfs_class-unset_example = new_obfs_class-unset (codes "auth_sha1_v4") auth_sha1_v4 refl
