-- ===== src/Relay/Lifetime.antt =====
-- A connection, from the server that is made for it through any events.
use openwrt_helloworld.Prelude.{
  Bool-cases, ℕ, ◌+◌, ◌≡◌, ◌⊎◌, refl, sym, ap, subst, Bool, true, false, List, Option, none, some,
  leb, ltb, length, Option-cases, inl, inr,
}
use openwrt_helloworld.Relay.{Buffer}
use openwrt_helloworld.Relay.Request.{Level, SockAddr}
use openwrt_helloworld.Relay.Callbacks.{
  resolv_query, Stage, stage_error, stage_init, stage_handshake, stage_parse, stage_resolve,
  stage_stream, Remote, Server, Recv, got, recv_closed, recv_again, recv_failed, Sent, Calls, After,
  alive, buf_size,
}
use openwrt_helloworld.Chunk.{write_at}
use openwrt_helloworld.Relay.Receive.{is_behind_parse, received, recv_into, server_recv_cb}
use openwrt_helloworld.Relay.Stages.{
  Submits, Waits, FitsStage, IsSound, IsFine, IsSound-of, on_pointer-IsFine, true≢false, if-IsFine,
}
use openwrt_helloworld.Relay.Transfer.{
  server_send_cb, server_timeout_cb, server_resolve_cb, remote_recv_cb, remote_send_cb, new_server,
}
use openwrt_helloworld.Relay.Watchers.{
  server_send_cb-IsFine, server_timeout_cb-IsFine, server_resolve_cb-IsFine, remote_recv_cb-IsFine,
  remote_send_cb-IsFine, recv_active, send_active,
}
use openwrt_helloworld.Relay.Reception.{Hears, Hears-IsSound, close-IsFine, Hears-close}
use openwrt_helloworld.Relay.Parsing.{decode_steps-IsFine}

-- Bytes of the client are awaited: after an error too, where they are thrown away.
abbrev Listens : Server → Type 0
Listens s = ((s.stage ≡ stage_error) × Waits s) ⊎ Hears s

recv_io-Listens :
    (U : Type 0)
    → (stage : Stage) (s : Server) → s.stage ≡ stage
    → FitsStage U stage s
    → s.recv_io ≡ true
    → Listens s
recv_io-Listens U stage_error s e h k = inl (e, h)
recv_io-Listens U stage_init s e h k = inr (inl (inl e, h))
recv_io-Listens U stage_handshake s e h k = inr (inl (inr e, h))
recv_io-Listens U stage_parse s e h k = true≢false s.recv_io k h.5
recv_io-Listens U stage_resolve s e (inl h) k = true≢false s.recv_io k h.1
recv_io-Listens U stage_resolve s e (inr h) k = true≢false s.recv_io k h.5
recv_io-Listens U stage_stream s e h k = inr (inr (e, h))

Listens-IsSound : (U : Type 0) → (s : Server) → Listens s → IsSound U s
Listens-IsSound U s (inl (e, w)) = IsSound-of U stage_error s e w
Listens-IsSound U s (inr h) = Hears-IsSound U s h

Listens-close : (s : Server) → Listens s → is_behind_parse s.stage ≡ false → s.remote ≡ none
Listens-close s (inl (e, w)) k = w.2
Listens-close s (inr h) k = Hears-close s h k

received-IsFine :
    (U : Type 0)
    → (c : Calls) (asks : Submits U c) (n : Sent) (s : Server) (buf : Buffer) (r : ℕ) → Listens s
    → IsFine U (received c n s buf r s.stage)
unfolding received
received-IsFine U c asks n s buf r (inl (e, w)) =
    subst (λ st. IsFine U (received c n s buf r st)) (sym e) (IsSound-of U stage_error _ e w)
received-IsFine U c asks n s buf r (inr (inl (inl e, w))) =
    subst (λ st. IsFine U (received c n s buf r st)) (sym e)
      (if-IsFine U (leb (buf.len + r) (c.iv_len + 1)) _ _ (λ k. IsSound-of U stage_init _ e w)
        (λ k. decode_steps-IsFine U c asks n s _ (inl (inl e, w))))
received-IsFine U c asks n s buf r (inr (inl (inr e, w))) =
    subst (λ st. IsFine U (received c n s buf r st)) (sym e)
      (decode_steps-IsFine U c asks n s _ (inl (inr e, w)))
received-IsFine U c asks n s buf r (inr (inr (e, w))) =
    subst (λ st. IsFine U (received c n s buf r st)) (sym e)
      (decode_steps-IsFine U c asks n s _ (inr (e, w)))

recv_into-IsFine :
    (U : Type 0)
    → (c : Calls) (asks : Submits U c) (r : Recv) (n : Sent) (s : Server) (buf : Buffer) (len : ℕ)
    → Listens s
    → IsFine U (recv_into c r n s buf len)
unfolding recv_into
recv_into-IsFine U c asks recv_closed n s buf len h = close-IsFine U none s (Listens-close s h)
recv_into-IsFine U c asks recv_again n s buf len h = Listens-IsSound U s h
recv_into-IsFine U c asks recv_failed n s buf len h = close-IsFine U none s (Listens-close s h)
recv_into-IsFine U c asks (got bytes) n s buf len h =
    elim (Option-cases (write_at buf.array len bytes)) [
      | inl k ↦ rw (recv_into, k) tt
      | inr (array, k) ↦
          rw (recv_into, k)
            (received-IsFine U c asks n s (record { array = array; len = buf.len }) (length bytes)
              h)
    ]

behind_parse-remote :
    (s : Server) → Listens s → is_behind_parse s.stage ≡ true → (r : Remote) × (s.remote ≡ some r)
behind_parse-remote s (inl (e, w)) k = true≢false (is_behind_parse s.stage) k (ap is_behind_parse e)
behind_parse-remote s (inr (inl (inl e, w))) k =
    true≢false (is_behind_parse s.stage) k (ap is_behind_parse e)
behind_parse-remote s (inr (inl (inr e, w))) k =
    true≢false (is_behind_parse s.stage) k (ap is_behind_parse e)
behind_parse-remote s (inr (inr (e, w))) k = (w.0, w.1)

pub server_recv_cb-IsFine :
    (U : Type 0)
    → (c : Calls) (asks : Submits U c) (r : Recv) (n : Sent) (s : Server) → IsSound U s
    → s.recv_io ≡ true
    → IsFine U (server_recv_cb c r n s)
unfolding server_recv_cb
server_recv_cb-IsFine U c asks r n s h e =
    let l = recv_io-Listens U s.stage s refl h e in
    if-IsFine U (is_behind_parse s.stage) _ _
      (λ k.
        let (m, a) = behind_parse-remote s l k in
        on_pointer-IsFine U s.remote m _ _ a (recv_into-IsFine U c asks r n s m.buf 0 l))
      (λ k.
        if-IsFine U (ltb buf_size s.buf.len) _ _ (λ j. Listens-close s l k)
          (λ j. recv_into-IsFine U c asks r n s s.buf s.buf.len l))

-- What libev and the resolver report of a connection, with the results of the calls on its sockets.
pub data SocketEvent : Type 0 where
  client_readable : Recv → Sent → SocketEvent
  client_writable : Sent → SocketEvent
  remote_readable : Recv → Sent → SocketEvent
  remote_writable : Bool → Sent → SocketEvent
  resolved : Option SockAddr → SocketEvent
  timed_out : Bool → SocketEvent

-- Only an active watcher reports.
abbrev pub IsEnabled : SocketEvent → Server → Type 0
IsEnabled (client_readable r n) s = s.recv_io ≡ true
IsEnabled (client_writable n) s = s.send_io ≡ true
IsEnabled (remote_readable r n) s = recv_active s.remote ≡ true
IsEnabled (remote_writable ok n) s = send_active s.remote ≡ true
IsEnabled (resolved addr) s = s.query ≡ true
IsEnabled (timed_out verbose) s = Unit

abbrev pub run : Calls → SocketEvent → Server → After
run c (client_readable r n) s = server_recv_cb c r n s
run c (client_writable n) s = server_send_cb n s
run c (remote_readable r n) s = remote_recv_cb c r n s
run c (remote_writable ok n) s = remote_send_cb ok n s
run c (resolved addr) s = server_resolve_cb c addr s
run c (timed_out verbose) s = server_timeout_cb verbose s

-- A step, whatever the plugins and the cipher do in it.
pub data Step (s : Server) : Server → Type 0 where
  by :
      {t : Server} (c : Calls) (e : SocketEvent) (level : Option Level)
      → IsEnabled e s
      → run c e s ≡ alive level t
      → Step s t

pub data Reach (s : Server) : Server → Type 0 where
  here : Reach s s
  further : {t u : Server} → Reach s t → Step t u → Reach s u

run_lem :
    (U : Type 0)
    → (c : Calls) (asks : Submits U c) (e : SocketEvent) (s : Server) → IsSound U s
    → IsEnabled e s
    → IsFine U (run c e s)
run_lem U c asks (client_readable r n) s h k = server_recv_cb-IsFine U c asks r n s h k
run_lem U c asks (client_writable n) s h k = server_send_cb-IsFine U n s h k
run_lem U c asks (remote_readable r n) s h k = remote_recv_cb-IsFine U c r n s h k
run_lem U c asks (remote_writable ok n) s h k = remote_send_cb-IsFine U ok n s h k
run_lem U c asks (resolved addr) s h k = server_resolve_cb-IsFine U c addr s h k
run_lem U c asks (timed_out verbose) s h k = server_timeout_cb-IsFine U verbose s h

-- `resolv_query` returns NULL for a name, by the calls of a step; and in one of the steps.
abbrev pub Refuses : {s t : Server} → Step s t → Type 0
Refuses (by c e level k r) = (host : List ℕ) × (resolv_query c.resolver host ≡ false)

abbrev pub HasRefused : {s t : Server} → Reach s t → Type 0
HasRefused here = ⊥
HasRefused (further r st) = HasRefused r ⊎ Refuses st

Submits-cases :
    (U : Type 0) (c : Calls)
    → ((host : List ℕ) → resolv_query c.resolver host ≡ false → U)
    → Submits U c
Submits-cases U c f host = elim (Bool-cases (resolv_query c.resolver host)) [
  | inl e ↦ inl e
  | inr e ↦ inr (f host e)
]

Step-IsSound :
    (U : Type 0) {s t : Server} (st : Step s t) → (Refuses st → U) → IsSound U s → IsSound U t
Step-IsSound U {s = s} (by c e level k r) f h =
    subst (IsFine U) r (run_lem U c (Submits-cases U c (λ host n. f (host, n))) e s h k)

pub Reach-IsSound :
    (U : Type 0) {s t : Server} → IsSound U s → (r : Reach s t) → (HasRefused r → U) → IsSound U t
Reach-IsSound U h here f = h
Reach-IsSound U h (further r st) f =
    Step-IsSound U st (λ n. f (inr n)) (Reach-IsSound U h r (λ n. f (inl n)))

pub new_server-IsSound :
    (U : Type 0) (memory header_memory : List ℕ) → IsSound U (new_server memory header_memory)
unfolding new_server
new_server-IsSound U memory header_memory = (_, refl, refl, refl, refl, refl)

-- In every state that a connection comes to, by whatever events in whatever order, and whatever the
-- sockets, the plugins and the cipher return: the callback of an event that can be reported uses no
-- NULL pointer and does not end the program; and where it frees the server, no remote is left over.
pub run-IsFine :
    (memory header_memory : List ℕ) (s : Server) (c : Calls) (e : SocketEvent)
    → Reach (new_server memory header_memory) s
    → IsEnabled e s
    → IsFine Unit (run c e s)
run-IsFine memory header_memory s c e r k =
    run_lem Unit c (λ host. inr tt) e s
      (Reach-IsSound Unit (new_server-IsSound Unit memory header_memory) r (λ n. tt)) k
