-- ===== src/Relay/Tests.antt =====
-- A header of each kind, and a connection through its events.
use openwrt_helloworld.Prelude.{
  ◌≡◌, refl, arith, true, false, [], ◌∷◌, ◌++◌, none, some, leb, replicate, if◌then◌else◌,
}
use openwrt_helloworld.Prelude.Text.{codes}
use openwrt_helloworld.Relay.{
  Buffer, is_header_complete, complete, incomplete, addr_type, has_auth_flag, enough,
}
use openwrt_helloworld.Relay.Request.{Services, parse_request}
use openwrt_helloworld.Relay.Header.{Target, name, header_len, is_header_complete-header_len}
use openwrt_helloworld.Relay.Safety.{Holds, IsCut, parse_request-IsCut}
use openwrt_helloworld.Relay.Callbacks.{Server, Calls, fast_open_off, got, sent, Stage}
use openwrt_helloworld.Relay.Receive.{
  handshake_step, server_recv_cb, recv_into, received, decode_steps, obfs_step, decrypt_done,
  protocol_step, headed, header_step, init_tested, handshake_into, handshake_appended,
  handshake_tested, append_header,
}
use openwrt_helloworld.Chunk.{write_at, brealloc}
use openwrt_helloworld.Relay.Transfer.{new_server}
use openwrt_helloworld.Relay.Lifetime.{
  HasRefused, client_readable, timed_out, run, Reach, here, further, by, run-IsFine,
}
use openwrt_helloworld.Relay.Stages.{IsFine}
use openwrt_helloworld.Relay.Directions.{IsBalanced, Reach-IsBalanced}

-- An HMAC is wrong where it is not zero.
abbrev toy_services : Services
toy_services = record {
  auth = false;
  onetimeauth_fails = λ header. false;
  outbound_blocked = λ host. false;
  ip_version = λ host. none;
  pton = λ host. host;
  pton6 = λ host. host;
}

abbrev toy_calls : Calls
toy_calls = record {
  services = toy_services;
  settings = record { hmac = λ key bytes. replicate 20 0; iv = []; junk = 170; capacity = 8 };
  iv_len = 0;
  obfs_compatible = false;
  protocol_compatible = false;
  server_decode = none;
  ss_decrypt = λ buf. some buf;
  server_post_decrypt = none;
  connecting = λ addr. record {
    blocked = false;
    socket_ready = true;
    fast_open = fast_open_off;
    connects = true;
    memory = replicate 8 0;
  };
  resolver = record {
    ipv4_only = false;
    ipv6_only = false;
    dns_submit_a4 = λ host. true;
    dns_submit_a6 = λ host. true;
  };
  server_pre_encrypt = none;
  ss_encrypt = λ buf. some buf;
  server_encode = none;
}

abbrev host : Target
host = name (codes "a.b")

is_header_complete-header_len_example :
    is_header_complete false (record { array = 3 ∷ (3 ∷ (codes "a.b" ++ (0 ∷ 80 ∷ []))); len = 7 })
    ≡ some (if leb (header_len false 3 host) 7 then complete else incomplete)
unfolding addr_type
is_header_complete-header_len_example =
    is_header_complete-header_len false 3 7 host (0 ∷ 80 ∷ []) refl (omega arith)

-- A name whose length is more than there is.
abbrev short : Buffer
short = record { array = 3 ∷ 200 ∷ 97 ∷ 98 ∷ 99 ∷ 100 ∷ []; len = 5 }

parse_request-IsCut_example : Holds (IsCut short) (parse_request toy_services false short)
parse_request-IsCut_example =
    parse_request-IsCut toy_services false short (omega arith) (omega arith)

-- A first segment that is no complete header.
abbrev first : Server
first = new_server (replicate 8 0) (replicate 8 0)

abbrev second : Server
second = record first {
  stage = Stage.stage_handshake;
  buf = record { array = 3 ∷ 9 ∷ 97 ∷ 0 ∷ 0 ∷ 0 ∷ 0 ∷ 0 ∷ []; len = 0 };
  header_buf = some (record { array = 3 ∷ 9 ∷ 97 ∷ 0 ∷ 0 ∷ 0 ∷ 0 ∷ 0 ∷ []; len = 3 });
}

reached : Reach first second
unfolding new_server server_recv_cb recv_into received decode_steps obfs_step decrypt_done
    protocol_step headed header_step init_tested handshake_step handshake_into handshake_appended
    handshake_tested append_header is_header_complete enough addr_type has_auth_flag write_at
    brealloc
reached =
    further here (by toy_calls (client_readable (got (3 ∷ 9 ∷ 97 ∷ [])) (sent 0)) none refl refl)

run-IsFine_example : IsFine Unit (run toy_calls (timed_out true) second)
unfolding new_server
run-IsFine_example =
    run-IsFine (replicate 8 0) (replicate 8 0) second toy_calls (timed_out true) reached tt

Reach-IsBalanced_example : IsBalanced (HasRefused reached) second
unfolding new_server
Reach-IsBalanced_example = Reach-IsBalanced (replicate 8 0) (replicate 8 0) second reached

-- The header of a client that is complete, but for a newest segment that looks like another name.
abbrev newest : Server
newest = record second {
  buf = record { array = 3 ∷ 9 ∷ 97 ∷ 0 ∷ 0 ∷ 0 ∷ 0 ∷ 0 ∷ []; len = 2 };
  header_buf = some (record { array = 1 ∷ 9 ∷ 9 ∷ 9 ∷ 9 ∷ 0 ∷ 80 ∷ 0 ∷ []; len = 7 });
}
