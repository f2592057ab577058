-- ===== src/Relay/Directions.antt =====
-- The two directions of a connection.
use openwrt_helloworld.Prelude.{
  ℕ, ◌≡◌, refl, sym, ap, ◌∙◌, Bool, true, false, not, List, ◌&&◌, ◌||◌, ◌⊎◌, none, Bool-cases, inl,
  inr,
}
use openwrt_helloworld.Relay.Callbacks.{
  Stage, stage_error, stage_init, stage_handshake, stage_parse, stage_resolve, stage_stream, Server,
}
use openwrt_helloworld.Relay.Stages.{FitsStage, true≢false}
use openwrt_helloworld.Relay.Transfer.{new_server}
use openwrt_helloworld.Relay.Watchers.{recv_active, send_active}
use openwrt_helloworld.Relay.Lifetime.{HasRefused, Reach, Reach-IsSound, new_server-IsSound}

-- A watcher of the client or of the remote is active, or a query is pending.
abbrev pub is_watched : Server → Bool
is_watched s =
    s.recv_io || (s.send_io || (s.query || (recv_active s.remote || send_active s.remote)))

-- A name is to be looked up, no query of it is pending, and `U` holds.
abbrev pub IsUnasked : Type 0 → Server → Type 0
IsUnasked U s = (s.stage ≡ stage_resolve) × (s.query ≡ false) × (s.remote ≡ none) × U

-- Nothing is read into a buffer while its bytes wait to be sent, in either direction, and something
-- is waited for, but for a name that is not looked up.
abbrev pub IsBalanced : Type 0 → Server → Type 0
IsBalanced U s =
    (s.recv_io && send_active s.remote ≡ false)
    × (s.send_io && recv_active s.remote ≡ false)
    × ((is_watched s ≡ true) ⊎ IsUnasked U s)

-- The same of the five flags, with `U` for such a name.
abbrev AreBalanced : Type 0 → Bool → Bool → Bool → Bool → Bool → Type 0
AreBalanced U a b q x y =
    (a && y ≡ false) × (b && x ≡ false) × ((a || (b || (q || (x || y))) ≡ true) ⊎ U)

any_true : (q x : Bool) → q || (x || true) ≡ true
any_true true x = refl
any_true false true = refl
any_true false false = refl

waiting :
    {U : Type 0} (a b q x y : Bool) → a ≡ true → b ≡ false → y ≡ false → AreBalanced U a b q x y
waiting a b q x y ea eb ey = rw (ea, eb, ey) (refl, refl, inl refl)

asking :
    {U : Type 0} (a b q x y : Bool)
    → a ≡ false
    → b ≡ false
    → (q ≡ true) ⊎ U
    → AreBalanced U a b q x y
asking a b q x y ea eb (inl eq) = rw (ea, eb, eq) (refl, refl, inl refl)
asking a b q x y ea eb (inr u) = rw (ea, eb) (refl, refl, inr u)

connecting :
    {U : Type 0} (a b q x y : Bool) → a ≡ false → b ≡ false → y ≡ true → AreBalanced U a b q x y
connecting a b q x y ea eb ey = rw (ea, eb, ey) (refl, refl, inl (any_true q x))

streaming : {U : Type 0} (a b q x y : Bool) → a ≡ not y → b ≡ not x → AreBalanced U a b q x y
streaming a b q true true ea eb = rw (ea, eb) (refl, refl, inl (any_true q true))
streaming a b q true false ea eb = rw (ea, eb) (refl, refl, inl refl)
streaming a b q false true ea eb = rw (ea, eb) (refl, refl, inl refl)
streaming a b q false false ea eb = rw (ea, eb) (refl, refl, inl refl)

FitsStage-IsBalanced :
    (U : Type 0) (stage : Stage) (s : Server)
    → s.stage ≡ stage
    → FitsStage U stage s
    → IsBalanced U s
FitsStage-IsBalanced U stage_error s k h = waiting _ _ _ _ _ h.4 h.5 (ap send_active h.2)
FitsStage-IsBalanced U stage_init s k h = waiting _ _ _ _ _ h.4 h.5 (ap send_active h.2)
FitsStage-IsBalanced U stage_handshake s k h = waiting _ _ _ _ _ h.4 h.5 (ap send_active h.2)
FitsStage-IsBalanced U stage_parse s k h = connecting _ _ _ _ _ h.5 h.6 (ap send_active h.1 ∙ h.2)
FitsStage-IsBalanced U stage_resolve s k (inl h) = elim (Bool-cases s.query) [
  | inl e ↦ asking _ _ _ _ _ h.1 h.2 (inl e)
  | inr e ↦ elim h.3 [
    | inl q ↦ true≢false s.query q e
    | inr u ↦ asking _ _ _ _ _ h.1 h.2 (inr (k, e, h.0, u))
  ]
]
FitsStage-IsBalanced U stage_resolve s k (inr h) =
    connecting _ _ _ _ _ h.5 h.6 (ap send_active h.1 ∙ h.2)
FitsStage-IsBalanced U stage_stream s k h =
    streaming _ _ _ _ _ (h.2 ∙ ap not (sym (ap send_active h.1)))
      (h.3 ∙ ap not (sym (ap recv_active h.1)))

-- In every state that a connection comes to, by whatever events: nothing is read from the client
-- while bytes for the remote wait to be sent, nothing is read from the remote while bytes for the
-- client wait to be sent, and some watcher or query is active; or, where in one of the steps
-- `resolv_query` returns NULL for a name, a name is to be looked up with no query and no remote: then
-- only the time-out is left.
pub Reach-IsBalanced :
    (memory header_memory : List ℕ) (s : Server)
    → (r : Reach (new_server memory header_memory) s) → IsBalanced (HasRefused r) s
Reach-IsBalanced memory header_memory s r = FitsStage-IsBalanced (HasRefused r) s.stage s refl (
    Reach-IsSound (HasRefused r) (new_server-IsSound (HasRefused r) memory header_memory) r
      (λ n. n))
