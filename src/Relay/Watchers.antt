-- ===== src/Relay/Watchers.antt =====
-- The callbacks of `Relay.Transfer` keep a connection sound.
use openwrt_helloworld.Prelude.{
  ℕ, ◌≡◌, refl, sym, ap, ◌∙◌, arith, Bool, true, false, not, List, Option, none, some, ltb, ◌==◌,
  if◌then◌else◌, length, take, drop, Bool-cases, Option-cases, inl, inr,
}
use openwrt_helloworld.Relay.{Buffer}
use openwrt_helloworld.Relay.Request.{Level, SockAddr}
use openwrt_helloworld.Relay.Callbacks.{
  Stage, stage_error, stage_init, stage_handshake, stage_parse, stage_resolve, stage_stream, Remote,
  Server, Recv, got, recv_closed, recv_again, recv_failed, Sent, sent, send_again, send_failed,
  Calls, close_both, hand_over, made_remote, connect_to_remote,
}
use openwrt_helloworld.Chunk.{write_at}
use openwrt_helloworld.Relay.Transfer.{
  server_sent, server_send_cb, is_in_header, logged_len, server_timeout_cb, resolve_connected,
  server_resolve_cb, answer, remote_answered, remote_received, remote_recv_cb, to_stream,
  remote_sent, remote_pending, remote_ready, remote_send_cb,
}
use openwrt_helloworld.Relay.Stages.{
  Connects, Streams, FitsStage, IsSound, IsFine, IsSound-of, send_io-Streams, query-Asks,
  on_pointer-IsFine, close_both-IsFine, true≢false, if-IsFine,
}

server_sent-IsFine :
    (U : Type 0)
    → (s : Server) (r : Remote) (n : Sent) → s.stage ≡ stage_stream
    → s.remote ≡ some r
    → s.recv_io ≡ not r.send_io
    → s.send_io ≡ not r.recv_io
    → s.query ≡ false
    → r.connected ≡ true
    → IsFine U (server_sent s r n)
unfolding server_sent
server_sent-IsFine U s r send_again e a b c d g = IsSound-of U stage_stream s e (r, a, b, c, d, g)
server_sent-IsFine U s r send_failed e a b c d g = refl
server_sent-IsFine U s r (sent n) e a b c d g = elim (Bool-cases (ltb n s.buf.len)) [
  | inl k ↦ rw (k) (IsSound-of U stage_stream _ e (r, a, b, c, d, g))
  | inr k ↦
      rw (k) (IsSound-of U stage_stream _ e (record r { recv_io = true }, refl, b, refl, d, g))
]

pub server_send_cb-IsFine :
    (U : Type 0)
    → (n : Sent) (s : Server) → IsSound U s
    → s.send_io ≡ true
    → IsFine U (server_send_cb n s)
unfolding server_send_cb
server_send_cb-IsFine U n s h e =
    let (k, (r, a, b, c, d, g)) = send_io-Streams U s.stage s h e in
    on_pointer-IsFine U s.remote r _ _ a (elim (Bool-cases (s.buf.len == 0)) [
      | inl z ↦ rw (z) refl
      | inr z ↦ rw (z) (server_sent-IsFine U s r n k a b c d g)
    ])

-- The watchers of the remote, where there is one.
abbrev pub recv_active : Option Remote → Bool
recv_active none = false
recv_active (some r) = r.recv_io

abbrev pub send_active : Option Remote → Bool
send_active none = false
send_active (some r) = r.send_io

abbrev is_some : Option Remote → Bool
is_some none = false
is_some (some r) = true

abbrev is_connected : Option Remote → Bool
is_connected none = false
is_connected (some r) = r.connected

no_remote :
    {A : Type 0} (s : Server) (f : Option Remote → Bool)
    → s.remote ≡ none
    → f none ≡ false
    → f s.remote ≡ true
    → A
no_remote s f e k h = true≢false (f s.remote) h (ap f e ∙ k)

connecting_recv : {A : Type 0} (s : Server) → Connects s → recv_active s.remote ≡ true → A
connecting_recv s h e = true≢false (recv_active s.remote) e (ap recv_active h.1 ∙ h.3)

remote_recv-Streams :
    (U : Type 0)
    → (stage : Stage) (s : Server) → FitsStage U stage s
    → recv_active s.remote ≡ true
    → (stage ≡ stage_stream) × Streams s
remote_recv-Streams U stage_error s h e = no_remote s recv_active h.2 refl e
remote_recv-Streams U stage_init s h e = no_remote s recv_active h.2 refl e
remote_recv-Streams U stage_handshake s h e = no_remote s recv_active h.2 refl e
remote_recv-Streams U stage_parse s h e = connecting_recv s h e
remote_recv-Streams U stage_resolve s (inl h) e = no_remote s recv_active h.0 refl e
remote_recv-Streams U stage_resolve s (inr h) e = connecting_recv s h e
remote_recv-Streams U stage_stream s h e = (refl, h)

remote_answered-IsFine :
    (U : Type 0)
    → (s : Server) (r : Remote) (n : Sent) → s.stage ≡ stage_stream
    → s.remote ≡ some r
    → s.recv_io ≡ not r.send_io
    → s.send_io ≡ not r.recv_io
    → s.query ≡ false
    → r.connected ≡ true
    → IsFine U (remote_answered s r n)
unfolding remote_answered
remote_answered-IsFine U s r send_again e a b c d g =
    IsSound-of U stage_stream _ e (record r { recv_io = false }, refl, b, refl, d, g)
remote_answered-IsFine U s r send_failed e a b c d g = refl
remote_answered-IsFine U s r (sent n) e a b c d g = elim (Bool-cases (ltb n s.buf.len)) [
  | inl k ↦
      rw (k) (IsSound-of U stage_stream _ e (record r { recv_io = false }, refl, b, refl, d, g))
  | inr k ↦ rw (k) (IsSound-of U stage_stream _ e (r, a, b, c, d, g))
]

remote_received-IsFine :
    (U : Type 0)
    → (c : Calls) (v : Recv) (n : Sent) (s : Server) (r : Remote) → s.stage ≡ stage_stream
    → s.remote ≡ some r
    → s.recv_io ≡ not r.send_io
    → s.send_io ≡ not r.recv_io
    → s.query ≡ false
    → r.connected ≡ true
    → IsFine U (remote_received c v n s r)
unfolding remote_received
remote_received-IsFine U c recv_closed n s r e a b f d g = refl
remote_received-IsFine U c recv_again n s r e a b f d g =
    IsSound-of U stage_stream s e (r, a, b, f, d, g)
remote_received-IsFine U c recv_failed n s r e a b f d g = refl
remote_received-IsFine U c (got bytes) n s r e a b f d g =
    elim (Option-cases (write_at s.buf.array 0 bytes)) [
      | inl k ↦ rw (remote_received, k) tt
      | inr (array, k) ↦
          elim (Option-cases (answer c s (record { array = array; len = length bytes }))) [
            | inl m ↦ rw (remote_received, k, m) refl
            | inr (buf, m) ↦
                rw (remote_received, k, m)
                  (remote_answered-IsFine U (record s { buf = buf }) r n e a b f d g)
          ]
    ]

pub remote_recv_cb-IsFine :
    (U : Type 0)
    → (c : Calls) (v : Recv) (n : Sent) (s : Server) → IsSound U s
    → recv_active s.remote ≡ true
    → IsFine U (remote_recv_cb c v n s)
unfolding remote_recv_cb
remote_recv_cb-IsFine U c v n s h e =
    let (k, (r, a, b, f, d, g)) = remote_recv-Streams U s.stage s h e in
    on_pointer-IsFine U s.remote r _ _ a (remote_received-IsFine U c v n s r k a b f d g)

-- `header_buf` is there in the stages whose length is logged.
logged_len-some :
    (U : Type 0)
    → (stage : Stage) (s : Server) → FitsStage U stage s
    → is_in_header stage ≡ true
    → (len : ℕ) × (logged_len stage s ≡ some len)
unfolding logged_len
logged_len-some U stage_error s h k = (h.0.len, rw (h.1) refl)
logged_len-some U stage_init s h k = (s.buf.len, refl)
logged_len-some U stage_handshake s h k = (h.0.len, rw (h.1) refl)
logged_len-some U stage_parse s h k = absurd (ground arith)
logged_len-some U stage_resolve s h k = absurd (ground arith)
logged_len-some U stage_stream s h k = absurd (ground arith)

pub server_timeout_cb-IsFine :
    (U : Type 0)
    → (verbose : Bool) (s : Server) → IsSound U s
    → IsFine U (server_timeout_cb verbose s)
unfolding server_timeout_cb
server_timeout_cb-IsFine U verbose s h = elim (Bool-cases (is_in_header s.stage)) [
  | inr e ↦ rw (e) (close_both-IsFine U none s.remote s refl)
  | inl e ↦
      let (len, k) = logged_len-some U s.stage s h e in
      rw (e, k)
        (elim verbose
          as (λ v. IsFine U (
            if v
            then close_both (some Level.suspicious) s.remote s
            else close_both (some Level.suspicious) s.remote s)) [
              | true ↦ close_both-IsFine U (some Level.suspicious) s.remote s refl
              | false ↦ close_both-IsFine U (some Level.suspicious) s.remote s refl
            ])
]

-- What `hand_over` makes of a server.
abbrev pub IsHanded : Server → Option Server → Type 0
IsHanded s none = Unit
IsHanded s (some t) =
    (buf : Buffer) × (t.remote ≡ some (made_remote buf))
    × (t.stage ≡ s.stage)
    × (t.query ≡ s.query)
    × (t.recv_io ≡ s.recv_io)
    × (t.send_io ≡ s.send_io)

pub hand_over-IsHanded :
    (memory : List ℕ) (from : ℕ) (s : Server) → IsHanded s (hand_over memory from s)
unfolding hand_over
hand_over-IsHanded memory from s = elim (Bool-cases (ltb 0 s.buf.len)) [
  | inr e ↦ rw (e) (_, refl, refl, refl, refl, refl)
  | inl e ↦ elim (Option-cases (write_at memory 0 (take s.buf.len (drop from s.buf.array)))) [
    | inl k ↦ rw (hand_over, e, k) tt
    | inr (array, k) ↦ rw (hand_over, e, k) (_, refl, refl, refl, refl, refl)
  ]
]

resolve_connected-IsFine :
    (U : Type 0)
    → (s : Server) (o : Option Server) → s.stage ≡ stage_resolve
    → s.recv_io ≡ false
    → s.send_io ≡ false
    → s.query ≡ false
    → IsHanded s o
    → IsFine U (resolve_connected o)
unfolding resolve_connected
resolve_connected-IsFine U s none e a b q h = tt
resolve_connected-IsFine U s (some t) e a b q h =
    IsSound-of U stage_resolve t (h.2 ∙ e)
      (inr (made_remote h.0, h.1, refl, refl, h.3 ∙ q, h.4 ∙ a, h.5 ∙ b))

pub server_resolve_cb-IsFine :
    (U : Type 0)
    → (c : Calls) (addr : Option SockAddr) (s : Server) → IsSound U s
    → s.query ≡ true
    → IsFine U (server_resolve_cb c addr s)
unfolding server_resolve_cb
server_resolve_cb-IsFine U c none s h e = (query-Asks U s.stage s h e).1.0
server_resolve_cb-IsFine U c (some addr) s h e =
    let (k, a) = query-Asks U s.stage s h e in
    elim (Option-cases (connect_to_remote (c.connecting addr) s.buf s.idx)) [
      | inl n ↦ rw (server_resolve_cb, n) a.0
      | inr ((buf, idx, memory), n) ↦
          let asked : Server = record s { query = false; buf = buf; idx = idx } in
          rw (server_resolve_cb, n)
            (resolve_connected-IsFine U asked _ k a.1 a.2 refl
              (hand_over-IsHanded memory idx asked))
    ]

-- A remote whose watchers stand as they did, and that is connected.
abbrev StaysSound : (U : Type 0) → Stage → Server → Remote → Type 0
StaysSound U stage s r =
    (q : Remote)
    → q.recv_io ≡ r.recv_io
    → q.send_io ≡ r.send_io
    → q.connected ≡ true
    → FitsStage U stage (record s { remote = some q })

-- The end of the sending: both directions are open.
remote_sent-IsFine :
    (U : Type 0)
    → (s : Server) (r : Remote) (n : Sent) → StaysSound U s.stage s r
    → r.connected ≡ true
    → s.send_io ≡ not (to_stream s.stage r.recv_io)
    → s.query ≡ false
    → IsFine U (remote_sent s r n)
unfolding remote_sent
remote_sent-IsFine U s r send_again h g io q = h r refl refl g
remote_sent-IsFine U s r send_failed h g io q = refl
remote_sent-IsFine U s r (sent n) h g io q = elim (Bool-cases (ltb n r.buf.len)) [
  | inl k ↦ rw (k) (h _ refl refl g)
  | inr k ↦ rw (k) (_, refl, refl, io, q, g)
]

remote_pending-IsFine :
    (U : Type 0)
    → (s : Server) (r : Remote) (n : Sent) → StaysSound U s.stage s r
    → r.connected ≡ true
    → s.send_io ≡ not (to_stream s.stage r.recv_io)
    → s.query ≡ false
    → IsFine U (remote_pending s r n)
unfolding remote_pending
remote_pending-IsFine U s r n h g io q = elim (Bool-cases (r.buf.len == 0)) [
  | inl z ↦ rw (z) refl
  | inr z ↦ rw (z) (remote_sent-IsFine U s r n h g io q)
]

Connects-stays :
    (s : Server) (r : Remote)
    → Connects s
    → s.remote ≡ some r
    → (q : Remote) → q.recv_io ≡ r.recv_io
    → q.send_io ≡ r.send_io
    → Connects (record s { remote = some q })
Connects-stays s r (p, a, b, c, d, e, f) k q x y =
    (q, refl, y ∙ ap send_active (sym k ∙ a) ∙ b, x ∙ ap recv_active (sym k ∙ a) ∙ c, d, e, f)

-- Where the remote's `send_ctx` is active.
sending :
    (U : Type 0)
    → (stage : Stage) (s : Server) (r : Remote) → FitsStage U stage s
    → s.remote ≡ some r
    → (s.send_io ≡ not (to_stream stage r.recv_io)) × (s.query ≡ false) × StaysSound U stage s r
sending U stage_error s r h e = no_remote s is_some h.2 refl (ap is_some e)
sending U stage_init s r h e = no_remote s is_some h.2 refl (ap is_some e)
sending U stage_handshake s r h e = no_remote s is_some h.2 refl (ap is_some e)
sending U stage_parse s r h e = (h.6, h.4, λ q x y z. Connects-stays s r h e q x y)
sending U stage_resolve s r (inl h) e = no_remote s is_some h.0 refl (ap is_some e)
sending U stage_resolve s r (inr h) e = (h.6, h.4, λ q x y z. inr (Connects-stays s r h e q x y))
sending U stage_stream s r (p, a, b, c, d, g) e =
    let same_recv : r.recv_io ≡ p.recv_io = ap recv_active (sym e ∙ a) in
    let same_send : r.send_io ≡ p.send_io = ap send_active (sym e ∙ a) in
    (
      c ∙ ap not (sym same_recv),
      d,
      λ q x y z.
          (q, refl, b ∙ ap not (sym (y ∙ same_send)), c ∙ ap not (sym (x ∙ same_recv)), d, z),
    )

-- A remote that is not connected yet is being connected to.
unconnected :
    (U : Type 0)
    → (stage : Stage) (s : Server) (r : Remote) → FitsStage U stage s
    → s.remote ≡ some r
    → r.connected ≡ false
    → s.send_io ≡ false
unconnected U stage_error s r h e k = h.5
unconnected U stage_init s r h e k = h.5
unconnected U stage_handshake s r h e k = h.5
unconnected U stage_parse s r h e k = h.6
unconnected U stage_resolve s r (inl h) e k = h.2
unconnected U stage_resolve s r (inr h) e k = h.6
unconnected U stage_stream s r (p, a, b, c, d, g) e k =
    true≢false r.connected (ap is_connected (sym e) ∙ ap is_connected a ∙ g) k

remote_ready-IsFine :
    (U : Type 0)
    → (ok : Bool) (s : Server) (r : Remote) (n : Sent) → IsSound U s
    → s.remote ≡ some r
    → IsFine U (remote_ready ok s r n)
unfolding remote_ready
remote_ready-IsFine U ok s r n h e =
    let (io, q, stays) = sending U s.stage s r h e in
    if-IsFine U r.connected _ _ (λ k. remote_pending-IsFine U s r n stays k io q)
      (λ k.
        if-IsFine U ok _ _
          (λ m.
            if-IsFine U (r.buf.len == 0) _ _
              (λ z. (
                record r { connected = true; send_io = false; recv_io = true },
                refl,
                refl,
                unconnected U s.stage s r h e k,
                q,
                refl,
              ))
              (λ z. remote_pending-IsFine U s (record r { connected = true }) n stays refl io q))
          (λ m. refl))

pub remote_send_cb-IsFine :
    (U : Type 0)
    → (ok : Bool) (n : Sent) (s : Server) → IsSound U s
    → send_active s.remote ≡ true
    → IsFine U (remote_send_cb ok n s)
unfolding remote_send_cb
remote_send_cb-IsFine U ok n s h e = elim (Option-cases s.remote) [
  | inl k ↦ no_remote s send_active k refl e
  | inr (r, k) ↦ on_pointer-IsFine U s.remote r _ _ k (remote_ready-IsFine U ok s r n h k)
]
