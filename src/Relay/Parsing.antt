-- ===== src/Relay/Parsing.antt =====
-- `server_recv_cb` keeps a connection sound: from the header on.
use openwrt_helloworld.Prelude.{
  ℕ, ◌≡◌, ◌⊎◌, refl, sym, ◌∙◌, subst, true, false, not, List, Option, none, some, ltb, Option-cases,
  inl, inr,
}
use openwrt_helloworld.Relay.{
  Buffer, is_header_complete, Completeness, complete, incomplete, malformed,
}
use openwrt_helloworld.Relay.Request.{Level, Request, Outcome, SockAddr}
use openwrt_helloworld.Relay.Callbacks.{
  stage_init, stage_handshake, stage_parse, stage_stream, Remote, Server, Sent, sent, send_again,
  send_failed, Calls, hand_over, made_remote, connect_to_remote,
}
use openwrt_helloworld.Chunk.{Chunk, Checked, wrong_hash, passed}
use openwrt_helloworld.Relay.Receive.{
  put_buf, obfs_step, protocol_step, handshake_tested, append_header, handshake_appended,
  handshake_into, handshake_step, init_tested, header_step, stream_sent, stream_checked,
  stream_step, parse_connected, parse_targeted, parse_checked, parse_step, last_step, headed,
  decrypt_done, decode_steps,
}
use openwrt_helloworld.Relay.Stages.{
  Submits, Waits, Streams, IsFine, Keeps, bind-IsFine, IsSound-of, on_pointer-IsFine, if-IsFine,
}
use openwrt_helloworld.Relay.Watchers.{IsHanded, hand_over-IsHanded}
use openwrt_helloworld.Relay.Reception.{
  Hears, put_buf-Hears, close-IsFine, Hears-close, obfs_step-Keeps, protocol_step-Keeps,
}

-- A header that is complete, before a remote is made.
abbrev HasHeader : Server → Type 0
HasHeader s = (s.stage ≡ stage_parse) × (s.remote ≡ none) × (s.query ≡ false) × (s.send_io ≡ false)

abbrev Proceeds : Server → Type 0
Proceeds s = HasHeader s ⊎ ((s.stage ≡ stage_stream) × Streams s)

handshake_tested-Keeps :
    (U : Type 0)
    → (c : Calls) (s : Server) (header : Buffer) (o : Option Completeness)
    → s.stage ≡ stage_handshake
    → Waits s
    → Keeps U Proceeds (handshake_tested c s header o)
unfolding handshake_tested
handshake_tested-Keeps U c s header none e (h, a, b, d, f, g) = tt
handshake_tested-Keeps U c s header (some complete) e (h, a, b, d, f, g) = inl (refl, b, d, g)
handshake_tested-Keeps U c s header (some malformed) e (h, a, b, d, f, g) =
    (header, refl, b, d, f, g)
handshake_tested-Keeps U c s header (some incomplete) e (h, a, b, d, f, g) =
    IsSound-of U stage_handshake _ e (header, refl, b, d, f, g)

handshake_appended-Keeps :
    (U : Type 0)
    → (c : Calls) (s : Server) (o : Option Buffer) → s.stage ≡ stage_handshake
    → Waits s
    → Keeps U Proceeds (handshake_appended c s o)
unfolding handshake_appended
handshake_appended-Keeps U c s none e w = tt
handshake_appended-Keeps U c s (some longer) e w =
    handshake_tested-Keeps U c s longer (is_header_complete c.services.auth s.buf) e w

handshake_step-Keeps :
    (U : Type 0)
    → (c : Calls) (s : Server) → s.stage ≡ stage_handshake
    → Waits s
    → Keeps U Proceeds (handshake_step c s)
unfolding handshake_step handshake_into
handshake_step-Keeps U c s e w =
    subst (λ o. Keeps U Proceeds (handshake_into c s o)) (sym w.1)
      (handshake_appended-Keeps U c s (append_header c w.0 s.buf) e w)

init_tested-Keeps :
    (U : Type 0)
    → (c : Calls) (s : Server) (o : Option Completeness) → s.stage ≡ stage_init
    → Waits s
    → Keeps U Proceeds (init_tested c s o)
unfolding init_tested
init_tested-Keeps U c s none e w = tt
init_tested-Keeps U c s (some complete) e (h, a, b, d, f, g) = inl (refl, b, d, g)
init_tested-Keeps U c s (some malformed) e w = w
init_tested-Keeps U c s (some incomplete) e w =
    handshake_step-Keeps U c (record s { stage = stage_handshake }) refl w

header_step-Keeps :
    (U : Type 0) → (c : Calls) (s : Server) → Hears s → Keeps U Proceeds (header_step c s s.stage)
unfolding header_step
header_step-Keeps U c s (inl (inl e, w)) =
    subst (λ st. Keeps U Proceeds (header_step c s st)) (sym e)
      (init_tested-Keeps U c s (is_header_complete c.services.auth s.buf) e w)
header_step-Keeps U c s (inl (inr e, w)) =
    subst (λ st. Keeps U Proceeds (header_step c s st)) (sym e) (handshake_step-Keeps U c s e w)
header_step-Keeps U c s (inr (e, w)) =
    subst (λ st. Keeps U Proceeds (header_step c s st)) (sym e) (inr (e, w))

-- The remote takes what the client sent.
stream_sent-IsFine :
    (U : Type 0)
    → (s : Server) (r : Remote) (n : Sent) → s.stage ≡ stage_stream
    → s.recv_io ≡ not r.send_io
    → s.send_io ≡ not r.recv_io
    → s.query ≡ false
    → r.connected ≡ true
    → IsFine U (stream_sent s r n)
unfolding stream_sent
stream_sent-IsFine U s r send_again e a b c g =
    IsSound-of U stage_stream _ e (record r { idx = 0; send_io = true }, refl, refl, b, c, g)
stream_sent-IsFine U s r send_failed e a b c g = refl
stream_sent-IsFine U s r (sent n) e a b c g =
    if-IsFine U (ltb n r.buf.len) _ _ (λ k. IsSound-of U stage_stream _ e (_, refl, refl, b, c, g))
      (λ k. IsSound-of U stage_stream _ e (r, refl, a, b, c, g))

stream_checked-IsFine :
    (U : Type 0)
    → (s : Server) (r : Remote) (n : Sent) (o : Option (Checked (Buffer × Chunk)))
    → s.stage ≡ stage_stream
    → s.recv_io ≡ not r.send_io
    → s.send_io ≡ not r.recv_io
    → s.query ≡ false
    → r.connected ≡ true
    → IsFine U (stream_checked s r n o)
unfolding stream_checked
stream_checked-IsFine U s r n none e a b c g = tt
stream_checked-IsFine U s r n (some wrong_hash) e a b c g = refl
stream_checked-IsFine U s r n (some (passed (buf, chunk))) e a b c g =
    stream_sent-IsFine U (record s { chunk = chunk }) (record r { buf = buf }) n e a b c g

-- The end of STAGE_PARSE.
parse_connected-IsFine :
    (U : Type 0)
    → (s : Server) (o : Option Server) → HasHeader s
    → IsHanded s o
    → IsFine U (parse_connected o)
unfolding parse_connected
parse_connected-IsFine U s none h k = tt
parse_connected-IsFine U s (some t) (e, a, q, g) (buf, m, st, tq, tr, ts) =
    IsSound-of U stage_parse (record t { recv_io = false }) (st ∙ e)
      (made_remote buf, m, refl, refl, tq ∙ q, refl, ts ∙ g)

parse_targeted-IsFine :
    (U : Type 0)
    → (c : Calls) (asks : Submits U c) (s : Server) (info : SockAddr) (host : Option (List ℕ))
    → HasHeader s
    → IsFine U (parse_targeted c s info host)
unfolding parse_targeted
parse_targeted-IsFine U c asks s info (some host) (e, a, q, g) = inl (a, refl, g, asks host)
parse_targeted-IsFine U c asks s info none h =
    elim (Option-cases (connect_to_remote (c.connecting info) s.buf s.idx)) [
      | inl k ↦ rw (parse_targeted, k) h.1
      | inr ((buf, idx, memory), k) ↦
          let taken : Server = record s { buf = buf; idx = idx } in
          rw (parse_targeted, k)
            (parse_connected-IsFine U taken (hand_over memory 0 taken) h
              (hand_over-IsHanded memory 0 taken))
    ]

parse_checked-IsFine :
    (U : Type 0)
    → (c : Calls) (asks : Submits U c) (s : Server) (r : Request)
      (o : Option (Checked (Buffer × Chunk)))
    → HasHeader s
    → IsFine U (parse_checked c s r o)
unfolding parse_checked
parse_checked-IsFine U c asks s r none h = tt
parse_checked-IsFine U c asks s r (some wrong_hash) (e, a, q, g) = a
parse_checked-IsFine U c asks s r (some (passed (buf, chunk))) h =
    parse_targeted-IsFine U c asks (record s { buf = buf; chunk = chunk }) r.info r.need_query h

parse_step-IsFine :
    (U : Type 0)
    → (c : Calls) (asks : Submits U c) (s : Server) (o : Outcome Request) → HasHeader s
    → IsFine U (parse_step c s o)
unfolding parse_step
parse_step-IsFine U c asks s (Outcome.ok r) h =
    parse_checked-IsFine U c asks (record s { auth = r.auth; buf = r.buf }) r _ h
parse_step-IsFine U c asks s (Outcome.closed level) (e, a, q, g) = a
parse_step-IsFine U c asks s Outcome.fault h = tt
parse_step-IsFine U c asks s Outcome.no_fuel h = tt

last_step-IsFine :
    (U : Type 0)
    → (c : Calls) (asks : Submits U c) (n : Sent) (s : Server) → Proceeds s
    → IsFine U (last_step c n s s.stage)
unfolding last_step stream_step
last_step-IsFine U c asks n s (inl h) =
    subst (λ st. IsFine U (last_step c n s st)) (sym h.0) (parse_step-IsFine U c asks s _ h)
last_step-IsFine U c asks n s (inr (e, (r, a, b, d, f, g))) =
    subst (λ st. IsFine U (last_step c n s st)) (sym e)
      (on_pointer-IsFine U s.remote r _ _ a (stream_checked-IsFine U s r n _ e b d f g))

headed-IsFine :
    (U : Type 0)
    → (c : Calls) (asks : Submits U c) (n : Sent) (s : Server) → Hears s
    → IsFine U (headed c n s)
unfolding headed
headed-IsFine U c asks n s h =
    bind-IsFine U Proceeds (header_step c s s.stage) _ (header_step-Keeps U c s h)
      (last_step-IsFine U c asks n)

decrypt_done-IsFine :
    (U : Type 0)
    → (c : Calls) (asks : Submits U c) (n : Sent) (s : Server) (o : Option Buffer) → Hears s
    → IsFine U (decrypt_done c n s o)
unfolding decrypt_done
decrypt_done-IsFine U c asks n s none h = close-IsFine U (some Level.malicious) s (Hears-close s h)
decrypt_done-IsFine U c asks n s (some plain) h =
    bind-IsFine U (λ q. Hears q.0) (protocol_step c s plain) _ (protocol_step-Keeps U c s plain h)
      (λ q k. headed-IsFine U c asks n (put_buf q.0 q.1) (put_buf-Hears q.0 q.1 k))

pub decode_steps-IsFine :
    (U : Type 0)
    → (c : Calls) (asks : Submits U c) (n : Sent) (s : Server) (buf : Buffer) → Hears s
    → IsFine U (decode_steps c n s buf)
unfolding decode_steps
decode_steps-IsFine U c asks n s buf h =
    bind-IsFine U (λ p. Hears p.0) (obfs_step c s buf) _ (obfs_step-Keeps U c s buf h)
      (λ p k. decrypt_done-IsFine U c asks n p.0 (c.ss_decrypt p.1) k)
