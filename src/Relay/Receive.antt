-- ===== src/Relay/Receive.antt =====
-- server.c: `server_recv_cb`.
use openwrt_helloworld.Prelude.{
  ℕ, ◌+◌, ◌-◌, Bool, true, false, ◌||◌, List, ◌++◌, Option, none, some, leb, ltb, ◌==◌,
  if◌then◌else◌, length, take, drop,
}
use openwrt_helloworld.Relay.{
  Buffer, is_header_complete, Completeness, complete, incomplete, malformed,
}
use openwrt_helloworld.Relay.Request.{Level, Request, Outcome, SockAddr, parse_request}
use openwrt_helloworld.Relay.Callbacks.{
  Stage, stage_error, stage_init, stage_handshake, stage_parse, stage_resolve, stage_stream, Remote,
  Server, Recv, got, recv_closed, recv_again, recv_failed, Sent, sent, send_again, send_failed,
  Decoded, decode_refused, decoded, Posted, post_refused, posted, Calls, After, alive, fault,
  null_pointer, fatal, no_fuel, buf_size, close_server, close_both, Flow, next, stop, ◌>>=◌,
  emptied, hand_over, on_pointer, connect_to_remote, resolv_query,
}
use openwrt_helloworld.Chunk.{Chunk, Checked, wrong_hash, passed, ss_check_hash, brealloc, write_at}

-- `buf`: the buffer of the remote where the stage is behind STAGE_PARSE, else of the server.
abbrev pub is_behind_parse : Stage → Bool
is_behind_parse stage_resolve = true
is_behind_parse stage_stream = true
is_behind_parse _ = false

abbrev pub put_remote : Option Remote → Buffer → Option Remote
put_remote none buf = none
put_remote (some r) buf = some (record r { buf = buf })

abbrev pub put_buf : Server → Buffer → Server
put_buf s buf =
    if is_behind_parse s.stage
    then record s { remote = put_remote s.remote buf }
    else record s { buf = buf }

-- The variable `remote` of the callback.
abbrev pub remote_of : Server → Option Remote
remote_of s = if is_behind_parse s.stage then s.remote else none

-- The stream plugin. The buffer that was saved is written back: where the memory was moved, its
-- pointer is of memory that is freed.
unfoldable pub obfs_decoded : Calls → Server → Buffer → Decoded → Flow (Server × Buffer)
obfs_decoded c s buf (decoded new needsendback) =
    if needsendback then stop (alive none (put_buf s new)) else next (s, new)
obfs_decoded c s buf (decode_refused moved array needsendback) =
    if c.obfs_compatible
    then if moved
      then stop fault
      else (let back : Buffer = record { array = array; len = buf.len } in
          let marked : Server = record s { obfs_compatible_state = true } in
          if needsendback then stop (alive none (put_buf marked back)) else next (marked, back))
    else stop (close_both none (remote_of s) s)

unfoldable pub obfs_step : Calls → Server → Buffer → Flow (Server × Buffer)
obfs_step c s buf = elim c.server_decode [
  | none ↦ next (s, buf)
  | some decode ↦ obfs_decoded c s buf (decode buf)
]

-- The protocol plugin. A saved buffer whose length is 0 is written back and freed a second time.
unfoldable pub protocol_posted : Calls → Server → Buffer → Posted → Flow (Server × Buffer)
protocol_posted c s buf (posted moved new) =
    if new.len == 0
    then (if c.protocol_compatible
        then if moved
          then stop fault
          else next (
            record s { protocol_compatible_state = true },
            record { array = new.array; len = buf.len },
          )
        else stop (alive none (put_buf s new)))
    else next (s, new)
protocol_posted c s buf (post_refused moved array) =
    if c.protocol_compatible
    then if moved || buf.len == 0
      then stop fault
      else next
          (record s { protocol_compatible_state = true }, record { array = array; len = buf.len })
    else stop (close_both none (remote_of s) s)

unfoldable pub protocol_step : Calls → Server → Buffer → Flow (Server × Buffer)
protocol_step c s buf = elim c.server_post_decrypt [
  | none ↦ next (s, buf)
  | some post ↦ protocol_posted c s buf (post buf)
]

-- The header goes to `server->buf`.
unfoldable pub copied_header : Calls → Buffer → Buffer → Buffer
copied_header c header buf =
    let grown : List ℕ = brealloc c.settings.junk buf.array header.len c.settings.capacity in
    record { array = take header.len header.array ++ drop header.len grown; len = header.len }

-- The stage of a handshake: the bytes go behind those in `header_buf`, and the test reads
-- `server->buf`.
unfoldable pub handshake_tested : Calls → Server → Buffer → Option Completeness → Flow Server
handshake_tested c s header none = stop fault
handshake_tested c s header (some complete) =
    next (record s { buf = copied_header c header s.buf; header_buf = none; stage = stage_parse })
handshake_tested c s header (some malformed) =
    stop (alive none (record (emptied s) { header_buf = some header; stage = stage_error }))
handshake_tested c s header (some incomplete) =
    stop (alive none (record (emptied s) { header_buf = some header }))

unfoldable pub append_header : Calls → Buffer → Buffer → Option Buffer
append_header c header buf =
    elim (write_at
      (brealloc c.settings.junk header.array (buf.len + header.len) c.settings.capacity) header.len
      (take buf.len buf.array)) [
        | none ↦ none
        | some array ↦ some (record { array = array; len = buf.len + header.len })
      ]

unfoldable pub handshake_appended : Calls → Server → Option Buffer → Flow Server
handshake_appended c s none = stop fault
handshake_appended c s (some longer) =
    handshake_tested c s longer (is_header_complete c.services.auth s.buf)

unfoldable pub handshake_into : Calls → Server → Option Buffer → Flow Server
handshake_into c s none = stop null_pointer
handshake_into c s (some header) = handshake_appended c s (append_header c header s.buf)

unfoldable pub handshake_step : Calls → Server → Flow Server
handshake_step c s = handshake_into c s s.header_buf

-- The first test of a header.
unfoldable pub init_tested : Calls → Server → Option Completeness → Flow Server
init_tested c s none = stop fault
init_tested c s (some complete) = next (record s { header_buf = none; stage = stage_parse })
init_tested c s (some malformed) =
    stop (alive (some Level.malformed) (record (emptied s) { stage = stage_error }))
init_tested c s (some incomplete) = handshake_step c (record s { stage = stage_handshake })

-- Part 2 of the incomplete header, by the stage.
unfoldable pub header_step : Calls → Server → Stage → Flow Server
header_step c s stage_init = init_tested c s (is_header_complete c.services.auth s.buf)
header_step c s stage_handshake = handshake_step c s
header_step c s stage_error = next s
header_step c s stage_parse = next s
header_step c s stage_resolve = next s
header_step c s stage_stream = next s

-- `ss_check_hash` where the connection is authenticated.
unfoldable pub check_hash : Calls → Bool → Buffer → Chunk → Option (Checked (Buffer × Chunk))
check_hash c auth buf chunk =
    if auth
    then (elim (ss_check_hash c.settings buf.array buf.len chunk) [
      | none ↦ none
      | some wrong_hash ↦ some wrong_hash
      | some (passed (array, len, new)) ↦ some (passed (record { array = array; len = len }, new))
    ])
    else some (passed (buf, chunk))

-- `send` to the remote.
unfoldable pub stream_sent : Server → Remote → Sent → After
stream_sent s r send_again =
    alive none (record s { remote = some (record r { idx = 0; send_io = true }); recv_io = false })
stream_sent s r send_failed = close_both none (some r) s
stream_sent s r (sent n) =
    if ltb n r.buf.len
    then alive none (record s {
      remote = some (record r {
        buf = record { array = r.buf.array; len = r.buf.len - n };
        idx = n;
        send_io = true;
      });
      recv_io = false;
    })
    else alive none (record s { remote = some r })

unfoldable pub stream_checked : Server → Remote → Sent → Option (Checked (Buffer × Chunk)) → After
stream_checked s r n none = fault
stream_checked s r n (some wrong_hash) = close_both (some Level.bad) (some r) s
stream_checked s r n (some (passed (buf, chunk))) =
    stream_sent (record s { chunk = chunk }) (record r { buf = buf }) n

unfoldable pub stream_step : Calls → Server → Sent → After
stream_step c s n =
    on_pointer s.remote null_pointer (λ r. stream_checked s r n (check_hash c s.auth r.buf s.chunk))

unfoldable pub parse_connected : Option Server → After
parse_connected none = fault
parse_connected (some s) = alive none (record s { recv_io = false })

-- The end of STAGE_PARSE: connect, or ask for the name.
unfoldable pub parse_targeted : Calls → Server → SockAddr → Option (List ℕ) → After
parse_targeted c s info none = elim (connect_to_remote (c.connecting info) s.buf s.idx) [
  | none ↦ close_server none s
  | some (buf, idx, memory) ↦
      parse_connected (hand_over memory 0 (record s { buf = buf; idx = idx }))
]
parse_targeted c s info (some host) =
    alive none
      (record s { stage = stage_resolve; query = resolv_query c.resolver host; recv_io = false })

unfoldable pub parse_checked : Calls → Server → Request → Option (Checked (Buffer × Chunk)) → After
parse_checked c s r none = fault
parse_checked c s r (some wrong_hash) = close_server (some Level.bad) s
parse_checked c s r (some (passed (buf, chunk))) =
    parse_targeted c (record s { buf = buf; chunk = chunk }) r.info r.need_query

unfoldable pub parse_step : Calls → Server → Outcome Request → After
parse_step c s (Outcome.closed level) = close_server level s
parse_step c s Outcome.fault = fault
parse_step c s Outcome.no_fuel = no_fuel
parse_step c s (Outcome.ok r) =
    let taken : Server = record s { auth = r.auth; buf = r.buf } in
    parse_checked c taken r (check_hash c r.auth r.buf taken.chunk)

-- The last part, by the stage; another one ends the program: FATAL.
unfoldable pub last_step : Calls → Sent → Server → Stage → After
last_step c n s stage_stream = stream_step c s n
last_step c n s stage_parse = parse_step c s (parse_request c.services s.auth s.buf)
last_step c n s stage_error = fatal
last_step c n s stage_init = fatal
last_step c n s stage_handshake = fatal
last_step c n s stage_resolve = fatal

-- From the plugins on.
unfoldable pub headed : Calls → Sent → Server → After
headed c n s = header_step c s s.stage >>= λ t. last_step c n t t.stage

unfoldable pub decrypt_done : Calls → Sent → Server → Option Buffer → After
decrypt_done c n s none = close_both (some Level.malicious) (remote_of s) s
decrypt_done c n s (some plain) = protocol_step c s plain >>= λ q. headed c n (put_buf q.0 q.1)

unfoldable pub decode_steps : Calls → Sent → Server → Buffer → After
decode_steps c n s buf = obfs_step c s buf >>= λ p. decrypt_done c n p.0 (c.ss_decrypt p.1)

-- The bytes are in the buffer; part 1 of the incomplete header.
unfoldable pub received : Calls → Sent → Server → Buffer → ℕ → Stage → After
received c n s buf r stage_error = alive none (emptied (record s { buf = buf }))
received c n s buf r stage_init =
    let more : Buffer = record { array = buf.array; len = buf.len + r } in
    if leb more.len (c.iv_len + 1)
    then alive none (record s { buf = more })
    else decode_steps c n s more
received c n s buf r stage_handshake = decode_steps c n s (record { array = buf.array; len = r })
received c n s buf r stage_parse = decode_steps c n s (record { array = buf.array; len = r })
received c n s buf r stage_resolve = decode_steps c n s (record { array = buf.array; len = r })
received c n s buf r stage_stream = decode_steps c n s (record { array = buf.array; len = r })

-- `recv` into `buf`, behind `len` bytes.
unfoldable pub recv_into : Calls → Recv → Sent → Server → Buffer → ℕ → After
recv_into c recv_closed n s buf len = close_both none (remote_of s) s
recv_into c recv_again n s buf len = alive none s
recv_into c recv_failed n s buf len = close_both none (remote_of s) s
recv_into c (got bytes) n s buf len = elim (write_at buf.array len bytes) [
  | none ↦ fault
  | some array ↦ received c n s (record { array = array; len = buf.len }) (length bytes) s.stage
]

unfoldable pub server_recv_cb : Calls → Recv → Sent → Server → After
server_recv_cb c r n s =
    if is_behind_parse s.stage
    then on_pointer s.remote null_pointer (λ remote. recv_into c r n s remote.buf 0)
    else if ltb buf_size s.buf.len
    then close_both none none s
    else recv_into c r n s s.buf s.buf.len
