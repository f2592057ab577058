-- ===== src/Relay/Callbacks.antt =====
-- server.c: the state of a connection, and what the callbacks share.
use openwrt_helloworld.Prelude.{
  ℕ, ◌+◌, ◌-◌, Bool, true, false, not, ◌&&◌, ◌||◌, List, Option, none, some, leb, ltb,
  if◌then◌else◌, take, drop,
}
use openwrt_helloworld.Relay.{Buffer}
use openwrt_helloworld.Relay.Request.{Services, Level, SockAddr}
use openwrt_helloworld.Chunk.{Settings, Chunk, write_at}

-- STAGE_ERROR, STAGE_INIT, STAGE_HANDSHAKE, STAGE_PARSE, STAGE_RESOLVE and STAGE_STREAM, in their
-- order.
pub data Stage : Type 0 where
  stage_error stage_init stage_handshake stage_parse stage_resolve stage_stream : Stage

-- `remote_t`: its buffer with the index, whether the watchers are active, and `connected` of its
-- `send_ctx`.
pub record Remote : Type 0 where
  pub buf : Buffer
  pub idx : ℕ
  pub recv_io : Bool
  pub send_io : Bool
  pub connected : Bool

-- `server_t`; `query` is whether a query is pending.
pub record Server : Type 0 where
  pub stage : Stage
  pub buf : Buffer
  pub idx : ℕ
  pub header_buf : Option Buffer
  pub auth : Bool
  pub chunk : Chunk
  pub query : Bool
  pub remote : Option Remote
  pub recv_io : Bool
  pub send_io : Bool
  pub obfs_compatible_state : Bool
  pub protocol_compatible_state : Bool

-- What `recv` and `send` return.
pub data Recv : Type 0 where
  got : List ℕ → Recv
  recv_closed recv_again recv_failed : Recv

pub data Sent : Type 0 where
  sent : ℕ → Sent
  send_again send_failed : Sent

-- What `server_decode` does: a negative length, with the memory as it is then and whether `realloc`
-- moved it, or a new buffer; and `needsendback`.
pub data Decoded : Type 0 where
  decode_refused : Bool → List ℕ → Bool → Decoded
  decoded : Buffer → Bool → Decoded

-- `server_post_decrypt`, with whether `realloc` moved the memory.
pub data Posted : Type 0 where
  post_refused : Bool → List ℕ → Posted
  posted : Bool → Buffer → Posted

-- What `sendto` does for `connect_to_remote`: it is not called, since `fast_open` is 0; or it is in
-- progress or fails; or it is not supported, which sets `fast_open` to 0; or it sends some bytes.
pub data FastOpen : Type 0 where
  fast_open_off fast_open_waits fast_open_unsupported : FastOpen
  fast_open_sent : ℕ → FastOpen

-- What `connect_to_remote` calls: whether the access lists block the address; whether the socket is
-- made and bound; `sendto`; whether `connect` starts; and the memory of the new remote's buffer.
pub record Connecting : Type 0 where
  pub blocked : Bool
  pub socket_ready : Bool
  pub fast_open : FastOpen
  pub connects : Bool
  pub memory : List ℕ

-- What `resolv_query` calls: the mode is that of both families, unless one is switched off; and
-- whether the queries of a name can be submitted, which are of udns.
pub record Resolver : Type 0 where
  pub ipv4_only : Bool
  pub ipv6_only : Bool
  pub dns_submit_a4 : List ℕ → Bool
  pub dns_submit_a6 : List ℕ → Bool

-- What the callbacks call. A plugin or its function may be missing. `ss_decrypt` and `ss_encrypt`
-- fail with `none`.
pub record Calls : Type 0 where
  pub services : Services
  pub settings : Settings
  pub iv_len : ℕ
  pub obfs_compatible : Bool
  pub protocol_compatible : Bool
  pub server_decode : Option (Buffer → Decoded)
  pub ss_decrypt : Buffer → Option Buffer
  pub server_post_decrypt : Option (Buffer → Posted)
  pub connecting : SockAddr → Connecting
  pub resolver : Resolver
  pub server_pre_encrypt : Option (Buffer → Buffer)
  pub ss_encrypt : Buffer → Option Buffer
  pub server_encode : Option (Buffer → Buffer)

-- The end of a callback: the connection goes on; or the server is freed, with a remote that is left
-- over; memory outside of a buffer is used (`fault`), or a NULL pointer; the program ends (FATAL); a
-- loop is out of fuel. The level is that of a report.
pub data After : Type 0 where
  alive : Option Level → Server → After
  freed : Option Level → Option Remote → After
  fault null_pointer fatal no_fuel : After

abbrev pub buf_size : ℕ
buf_size = 2048

-- The server's buffer with its index, of a new remote.
abbrev pub Connected : Type 0
Connected = Buffer × ℕ × List ℕ

-- The end of `connect_to_remote`.
abbrev pub connect_done : Connecting → Buffer → ℕ → Option Connected
connect_done k buf idx = if k.connects then some (buf, idx, k.memory) else none

-- What is sent with the opening of the connection leaves the server's buffer.
unfoldable pub fast_opened : Connecting → Buffer → ℕ → FastOpen → Option Connected
fast_opened k buf idx fast_open_off = connect_done k buf idx
fast_opened k buf idx fast_open_unsupported = connect_done k buf idx
fast_opened k buf idx fast_open_waits = some (buf, idx, k.memory)
fast_opened k buf idx (fast_open_sent n) =
    if leb n buf.len
    then some (record { array = buf.array; len = buf.len - n }, idx + n, k.memory)
    else some (record { array = buf.array; len = 0 }, 0, k.memory)

-- `none` is NULL.
unfoldable pub connect_to_remote : Connecting → Buffer → ℕ → Option Connected
connect_to_remote k buf idx =
    if k.blocked || not k.socket_ready then none else fast_opened k buf idx k.fast_open

-- Whether `resolv_query` returns a query; it returns NULL when none could be submitted.
unfoldable pub resolv_query : Resolver → List ℕ → Bool
resolv_query r host =
    (not r.ipv6_only && r.dns_submit_a4 host) || (not r.ipv4_only && r.dns_submit_a6 host)

-- `close_and_free_server` alone.
abbrev pub close_server : Option Level → Server → After
close_server level s = freed level s.remote

-- `close_and_free_remote` of a variable, which may be NULL, and `close_and_free_server`, in either
-- order.
abbrev pub close_both : Option Level → Option Remote → Server → After
close_both level none s = freed level s.remote
close_both level (some r) s = freed level none

-- A step of a callback goes on, or the callback returns.
pub data Flow {ℓ} (A : Type ℓ) : Type ℓ where
  next : A → Flow A
  stop : After → Flow A

infixl 5 ◌>>=◌
abbrev pub ◌>>=◌ {ℓ} : {A : Type ℓ} → Flow A → (A → After) → After
next a >>= f = f a
stop r >>= f = r

-- A pointer that is NULL, or not.
abbrev pub on_pointer : {A : Type 0} → Option A → After → (A → After) → After
on_pointer none r f = r
on_pointer (some a) r f = f a

-- `len` and `idx` are set to 0.
abbrev pub emptied : Server → Server
emptied s = record s { buf = record { array = s.buf.array; len = 0 }; idx = 0 }

-- A remote that was made, and whose `send_ctx` is started.
abbrev pub made_remote : Buffer → Remote
made_remote buf = record { buf = buf; idx = 0; recv_io = false; send_io = true; connected = false }

-- The bytes that wait in the server's buffer, from `from` on, go to the buffer of the remote, whose
-- memory is `memory`; `none` is a copy that does not fit.
unfoldable pub hand_over : List ℕ → ℕ → Server → Option Server
hand_over memory from s =
    if ltb 0 s.buf.len
    then (elim (write_at memory 0 (take s.buf.len (drop from s.buf.array))) [
      | none ↦ none
      | some array ↦ some (record (emptied s) {
        remote = some (made_remote (record { array = array; len = s.buf.len }));
      })
    ])
    else some (record s { remote = some (made_remote (record { array = memory; len = 0 })) })
