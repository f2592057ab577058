-- ===== src/Relay/Stages.antt =====
-- The stages of a connection: which watchers are active, and which pointers are set.
use openwrt_helloworld.Prelude.{
  ◌≡◌, ◌⊎◌, refl, sym, subst, arith, Bool, true, false, not, Option, none, some, List, ℕ,
  if◌then◌else◌, inl, inr,
}
use openwrt_helloworld.Relay.{Buffer}
use openwrt_helloworld.Relay.Request.{Level}
use openwrt_helloworld.Relay.Callbacks.{
  Stage, stage_error, stage_init, stage_handshake, stage_parse, stage_resolve, stage_stream, Remote,
  Server, Calls, resolv_query, After, alive, freed, fault, null_pointer, fatal, no_fuel, close_both,
  Flow, next, stop, ◌>>=◌, on_pointer,
}

-- The header is awaited: `header_buf` is there, and only the client is listened to.
abbrev pub Waits : Server → Type 0
Waits s =
    (h : Buffer) × (s.header_buf ≡ some h)
    × (s.remote ≡ none)
    × (s.query ≡ false)
    × (s.recv_io ≡ true)
    × (s.send_io ≡ false)

-- A remote is being connected to.
abbrev pub Connects : Server → Type 0
Connects s =
    (r : Remote) × (s.remote ≡ some r)
    × (r.send_io ≡ true)
    × (r.recv_io ≡ false)
    × (s.query ≡ false)
    × (s.recv_io ≡ false)
    × (s.send_io ≡ false)

-- The names that the calls are asked for have a query, or `U` holds.
abbrev pub Submits : Type 0 → Calls → Type 0
Submits U c = (host : List ℕ) → (resolv_query c.resolver host ≡ true) ⊎ U

-- A name is asked for; or it should be, and `U` holds, which says that `resolv_query` may have
-- returned NULL.
abbrev pub Asks : (U : Type 0) → Server → Type 0
Asks U s = (s.remote ≡ none) × (s.recv_io ≡ false) × (s.send_io ≡ false) × ((s.query ≡ true) ⊎ U)

-- Data goes both ways: in each direction either the reader or the writer is active.
abbrev pub Streams : Server → Type 0
Streams s =
    (r : Remote) × (s.remote ≡ some r)
    × (s.recv_io ≡ not r.send_io)
    × (s.send_io ≡ not r.recv_io)
    × (s.query ≡ false)
    × (r.connected ≡ true)

abbrev pub FitsStage : (U : Type 0) → Stage → Server → Type 0
FitsStage U stage_error s = Waits s
FitsStage U stage_init s = Waits s
FitsStage U stage_handshake s = Waits s
FitsStage U stage_parse s = Connects s
FitsStage U stage_resolve s = Asks U s ⊎ Connects s
FitsStage U stage_stream s = Streams s

abbrev pub IsSound : (U : Type 0) → Server → Type 0
IsSound U s = FitsStage U s.stage s

-- A callback leaves a sound connection, or frees all of it; it uses no NULL pointer, and does not
-- end the program. `Unit` for `U` asks nothing of `resolv_query`.
abbrev pub IsFine : (U : Type 0) → After → Type 0
IsFine U (alive level s) = IsSound U s
IsFine U (freed level left) = left ≡ none
IsFine U fault = Unit
IsFine U null_pointer = ⊥
IsFine U fatal = ⊥
IsFine U no_fuel = Unit

-- A step goes on with the property, or stops fine.
abbrev pub Keeps {ℓ} : (U : Type 0) → {A : Type ℓ} → (A → Type 0) → Flow A → Type 0
Keeps U P (next a) = P a
Keeps U P (stop r) = IsFine U r

pub bind-IsFine {ℓ} :
    (U : Type 0)
    → {A : Type ℓ} (P : A → Type 0) (m : Flow A) (f : A → After) → Keeps U P m
    → ((a : A) → P a → IsFine U (f a))
    → IsFine U (m >>= f)
bind-IsFine U P (next a) f h k = k a h
bind-IsFine U P (stop r) f h k = h

pub close_both-IsFine :
    (U : Type 0)
    → (level : Option Level) (o : Option Remote) (s : Server) → s.remote ≡ o
    → IsFine U (close_both level o s)
close_both-IsFine U level none s e = e
close_both-IsFine U level (some r) s e = refl

pub IsSound-of :
    (U : Type 0)
    → (stage : Stage) (s : Server) → s.stage ≡ stage
    → FitsStage U stage s
    → IsSound U s
IsSound-of U stage s e h = subst (λ st. FitsStage U st s) (sym e) h

-- Which stages have a watcher, or a query, that is active.
pub true≢false : {A : Type 0} (b : Bool) → b ≡ true → b ≡ false → A
true≢false b e k = absurd (ground arith)

pub send_io-Streams :
    (U : Type 0)
    → (stage : Stage) (s : Server) → FitsStage U stage s
    → s.send_io ≡ true
    → (stage ≡ stage_stream) × Streams s
send_io-Streams U stage_error s h e = true≢false s.send_io e h.5
send_io-Streams U stage_init s h e = true≢false s.send_io e h.5
send_io-Streams U stage_handshake s h e = true≢false s.send_io e h.5
send_io-Streams U stage_parse s h e = true≢false s.send_io e h.6
send_io-Streams U stage_resolve s (inl h) e = true≢false s.send_io e h.2
send_io-Streams U stage_resolve s (inr h) e = true≢false s.send_io e h.6
send_io-Streams U stage_stream s h e = (refl, h)

pub query-Asks :
    (U : Type 0)
    → (stage : Stage) (s : Server) → FitsStage U stage s
    → s.query ≡ true
    → (stage ≡ stage_resolve) × Asks U s
query-Asks U stage_error s h e = true≢false s.query e h.3
query-Asks U stage_init s h e = true≢false s.query e h.3
query-Asks U stage_handshake s h e = true≢false s.query e h.3
query-Asks U stage_parse s h e = true≢false s.query e h.4
query-Asks U stage_resolve s (inl h) e = (refl, h)
query-Asks U stage_resolve s (inr h) e = true≢false s.query e h.4
query-Asks U stage_stream s h e = true≢false s.query e h.4

-- A remote is only there while one is connected to or data goes both ways.
pub remote-Connects :
    (U : Type 0)
    → (stage : Stage) (s : Server) (r : Remote) → FitsStage U stage s
    → s.remote ≡ some r
    → Connects s ⊎ ((stage ≡ stage_stream) × Streams s)
remote-Connects U stage_error s r h e = absurd (ground (arith, h.2, e))
remote-Connects U stage_init s r h e = absurd (ground (arith, h.2, e))
remote-Connects U stage_handshake s r h e = absurd (ground (arith, h.2, e))
remote-Connects U stage_parse s r h e = inl h
remote-Connects U stage_resolve s r (inl h) e = absurd (ground (arith, h.0, e))
remote-Connects U stage_resolve s r (inr h) e = inl h
remote-Connects U stage_stream s r h e = inr (refl, h)

pub on_pointer-IsFine :
    (U : Type 0)
    → {A : Type 0} (o : Option A) (a : A) (r : After) (f : A → After) → o ≡ some a
    → IsFine U (f a)
    → IsFine U (on_pointer o r f)
on_pointer-IsFine U o a r f e h = subst (λ x. IsFine U (on_pointer x r f)) (sym e) h

pub if-IsFine :
    (U : Type 0)
    → (b : Bool) (x y : After) → (b ≡ true → IsFine U x)
    → (b ≡ false → IsFine U y)
    → IsFine U (if b then x else y)
if-IsFine U true x y p q = p refl
if-IsFine U false x y p q = q refl
