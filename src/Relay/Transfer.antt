-- ===== src/Relay/Transfer.antt =====
-- server.c: the other callbacks of a connection, and the server that is made for it.
use openwrt_helloworld.Prelude.{
  ℕ, ◌+◌, ◌-◌, Bool, true, false, List, [], Option, none, some, ltb, ◌==◌, if◌then◌else◌, length,
}
use openwrt_helloworld.Relay.{Buffer}
use openwrt_helloworld.Relay.Request.{Level, SockAddr}
use openwrt_helloworld.Relay.Callbacks.{
  Stage, stage_error, stage_init, stage_handshake, stage_stream, Remote, Server, Recv, got,
  recv_closed, recv_again, recv_failed, Sent, sent, send_again, send_failed, Calls, After, alive,
  fault, null_pointer, close_server, close_both, emptied, hand_over, on_pointer, connect_to_remote,
}
use openwrt_helloworld.Chunk.{write_at}

-- `server_send_cb` behind `send`: the watcher of the remote starts again when all is sent.
unfoldable pub server_sent : Server → Remote → Sent → After
server_sent s r send_again = alive none s
server_sent s r send_failed = close_both none (some r) s
server_sent s r (sent n) =
    if ltb n s.buf.len
    then alive none
        (record s { buf = record { array = s.buf.array; len = s.buf.len - n }; idx = s.idx + n })
    else alive none
        (record (emptied s) { send_io = false; remote = some (record r { recv_io = true }) })

unfoldable pub server_send_cb : Sent → Server → After
server_send_cb n s =
    on_pointer s.remote (close_server none s)
      (λ r. if s.buf.len == 0 then close_both none (some r) s else server_sent s r n)

-- `stage < STAGE_PARSE`, and a stage that is not 0.
abbrev pub is_in_header : Stage → Bool
is_in_header stage_error = true
is_in_header stage_init = true
is_in_header stage_handshake = true
is_in_header _ = false

-- With `verbose`, the length of the header so far is logged: `header_buf` is read, but for
-- STAGE_INIT.
unfoldable pub logged_len : Stage → Server → Option ℕ
logged_len stage_init s = some s.buf.len
logged_len _ s = elim s.header_buf [ none ↦ none | some header ↦ some header.len ]

unfoldable pub server_timeout_cb : Bool → Server → After
server_timeout_cb verbose s =
    if is_in_header s.stage
    then if verbose
      then (elim (logged_len s.stage s) [
        | none ↦ null_pointer
        | some len ↦ close_both (some Level.suspicious) s.remote s
      ])
      else close_both (some Level.suspicious) s.remote s
    else close_both none s.remote s

unfoldable pub resolve_connected : Option Server → After
resolve_connected none = fault
resolve_connected (some s) = alive none s

-- `server_resolve_cb`, with the address that was found.
unfoldable pub server_resolve_cb : Calls → Option SockAddr → Server → After
server_resolve_cb c none s = close_server none (record s { query = false })
server_resolve_cb c (some addr) s =
    let asked : Server = record s { query = false } in
    elim (connect_to_remote (c.connecting addr) s.buf s.idx) [
      | none ↦ close_server none asked
      | some (buf, idx, memory) ↦
          resolve_connected (hand_over memory idx (record asked { buf = buf; idx = idx }))
    ]

-- The plugins and the cipher on the answer of a remote.
abbrev pub through : Option (Buffer → Buffer) → Bool → Buffer → Buffer
through none state buf = buf
through (some f) state buf = if state then buf else f buf

unfoldable pub answer : Calls → Server → Buffer → Option Buffer
answer c s buf = elim (c.ss_encrypt (through c.server_pre_encrypt s.obfs_compatible_state buf)) [
  | none ↦ none
  | some cipher ↦ some (through c.server_encode s.obfs_compatible_state cipher)
]

unfoldable pub remote_answered : Server → Remote → Sent → After
remote_answered s r send_again =
    alive none (record s { idx = 0; send_io = true; remote = some (record r { recv_io = false }) })
remote_answered s r send_failed = close_both none (some r) s
remote_answered s r (sent n) =
    if ltb n s.buf.len
    then alive none (record s {
      buf = record { array = s.buf.array; len = s.buf.len - n };
      idx = n;
      send_io = true;
      remote = some (record r { recv_io = false });
    })
    else alive none s

unfoldable pub remote_received : Calls → Recv → Sent → Server → Remote → After
remote_received c recv_closed n s r = close_both none (some r) s
remote_received c recv_again n s r = alive none s
remote_received c recv_failed n s r = close_both none (some r) s
remote_received c (got bytes) n s r = elim (write_at s.buf.array 0 bytes) [
  | none ↦ fault
  | some array ↦ elim (answer c s (record { array = array; len = length bytes })) [
    | none ↦ close_both none (some r) s
    | some buf ↦ remote_answered (record s { buf = buf }) r n
  ]
]

-- `remote_recv_cb`: `remote->server` is the server that has the remote.
unfoldable pub remote_recv_cb : Calls → Recv → Sent → Server → After
remote_recv_cb c received n s = on_pointer s.remote null_pointer (remote_received c received n s)

-- `remote_send_cb` behind the test of the connection.
abbrev pub to_stream : Stage → Bool → Bool
to_stream stage_stream recv_io = recv_io
to_stream _ recv_io = true

unfoldable pub remote_sent : Server → Remote → Sent → After
remote_sent s r send_again = alive none (record s { remote = some r })
remote_sent s r send_failed = close_both none (some r) s
remote_sent s r (sent n) =
    if ltb n r.buf.len
    then alive none (record s {
      remote =
          some (record r {
            buf = record { array = r.buf.array; len = r.buf.len - n };
            idx = r.idx + n;
          });
    })
    else alive none (record s {
      recv_io = true;
      stage = stage_stream;
      remote = some (record r {
        buf = record { array = r.buf.array; len = 0 };
        idx = 0;
        send_io = false;
        recv_io = to_stream s.stage r.recv_io;
      });
    })

unfoldable pub remote_pending : Server → Remote → Sent → After
remote_pending s r n = if r.buf.len == 0 then close_both none (some r) s else remote_sent s r n

-- The first call: `getpeername` says whether the connection stands.
unfoldable pub remote_ready : Bool → Server → Remote → Sent → After
remote_ready getpeername_ok s r n =
    if r.connected
    then remote_pending s r n
    else if getpeername_ok
    then (if r.buf.len == 0
        then alive none (record s {
          stage = stage_stream;
          recv_io = true;
          remote = some (record r { connected = true; send_io = false; recv_io = true });
        })
        else remote_pending s (record r { connected = true }) n)
    else close_both none (some r) s

unfoldable pub remote_send_cb : Bool → Sent → Server → After
remote_send_cb getpeername_ok n s =
    on_pointer s.remote null_pointer (λ r. remote_ready getpeername_ok s r n)

-- `new_server`, with the memory of the two buffers and of the chunk's, and the watcher that
-- `accept_cb` starts.
unfoldable pub new_server : List ℕ → List ℕ → Server
new_server memory header_memory = record {
  stage = stage_init;
  buf = record { array = memory; len = 0 };
  idx = 0;
  header_buf = some (record { array = header_memory; len = 0 });
  auth = false;
  chunk = record { idx = 0; len = 0; counter = 0; buf = [] };
  query = false;
  remote = none;
  recv_io = true;
  send_io = false;
  obfs_compatible_state = false;
  protocol_compatible_state = false;
}
