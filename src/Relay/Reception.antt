-- ===== src/Relay/Reception.antt =====
-- `server_recv_cb` keeps a connection sound.
use openwrt_helloworld.Prelude.{
  ◌||◌, ◌≡◌, ◌⊎◌, refl, sym, ap, subst, Bool, true, false, Option, none, ◌==◌, if◌then◌else◌,
  Bool-cases, Option-cases, inl, inr,
}
use openwrt_helloworld.Relay.{Buffer}
use openwrt_helloworld.Relay.Request.{Level}
use openwrt_helloworld.Relay.Callbacks.{
  stage_init, stage_handshake, stage_stream, Server, Decoded, decode_refused, decoded, Posted,
  post_refused, posted, Calls, close_both, Flow,
}
use openwrt_helloworld.Relay.Receive.{
  is_behind_parse, put_remote, put_buf, remote_of, obfs_decoded, obfs_step, protocol_posted,
  protocol_step,
}
use openwrt_helloworld.Relay.Stages.{
  Waits, Streams, IsSound, IsFine, Keeps, IsSound-of, close_both-IsFine, true≢false,
}

-- The states in which bytes of the client are decoded.
abbrev pub Hears : Server → Type 0
Hears s =
    (((s.stage ≡ stage_init) ⊎ (s.stage ≡ stage_handshake)) × Waits s)
    ⊎ ((s.stage ≡ stage_stream) × Streams s)

pub Hears-IsSound : (U : Type 0) → (s : Server) → Hears s → IsSound U s
Hears-IsSound U s (inl (inl e, w)) = IsSound-of U stage_init s e w
Hears-IsSound U s (inl (inr e, w)) = IsSound-of U stage_handshake s e w
Hears-IsSound U s (inr (e, w)) = IsSound-of U stage_stream s e w

if_either :
    (P : Server → Type 0) (b : Bool) (x y : Server)
    → (b ≡ true → P x)
    → (b ≡ false → P y)
    → P (if b then x else y)
if_either P true x y p q = p refl
if_either P false x y p q = q refl

put_remote-Streams :
    (s : Server) (buf : Buffer)
    → Streams s
    → Streams (record s { remote = put_remote s.remote buf })
put_remote-Streams s buf (r, a, b, c, d, g) =
    (record r { buf = buf }, ap (λ o. put_remote o buf) a, b, c, d, g)

pub put_buf-Hears : (s : Server) (buf : Buffer) → Hears s → Hears (put_buf s buf)
put_buf-Hears s buf (inl (inl e, w)) =
    if_either Hears (is_behind_parse s.stage) _ _
      (λ k. true≢false (is_behind_parse s.stage) k (ap is_behind_parse e)) (λ k. inl (inl e, w))
put_buf-Hears s buf (inl (inr e, w)) =
    if_either Hears (is_behind_parse s.stage) _ _
      (λ k. true≢false (is_behind_parse s.stage) k (ap is_behind_parse e)) (λ k. inl (inr e, w))
put_buf-Hears s buf (inr (e, w)) =
    if_either Hears (is_behind_parse s.stage) _ _ (λ k. inr (e, put_remote-Streams s buf w))
      (λ k. true≢false (is_behind_parse s.stage) (ap is_behind_parse e) k)

-- Closing frees all of the connection.
pub close-IsFine :
    (U : Type 0)
    → (level : Option Level) (s : Server) → ((is_behind_parse s.stage ≡ false) → s.remote ≡ none)
    → IsFine U (close_both level (remote_of s) s)
close-IsFine U level s h = elim (Bool-cases (is_behind_parse s.stage)) [
  | inl k ↦
      subst (λ b. IsFine U (close_both level (if b then s.remote else none) s)) (sym k)
        (close_both-IsFine U level s.remote s refl)
  | inr k ↦ subst (λ b. IsFine U (close_both level (if b then s.remote else none) s)) (sym k) (h k)
]

pub Hears-close : (s : Server) → Hears s → is_behind_parse s.stage ≡ false → s.remote ≡ none
Hears-close s (inl (e, w)) k = w.2
Hears-close s (inr (e, w)) k = true≢false (is_behind_parse s.stage) (ap is_behind_parse e) k

if-Keeps {ℓ} :
    (U : Type 0)
    → {A : Type ℓ} (P : A → Type 0) (b : Bool) (x y : Flow A) → Keeps U P x
    → Keeps U P y
    → Keeps U P (if b then x else y)
if-Keeps U P true x y p q = p
if-Keeps U P false x y p q = q

-- The plugins.
obfs_decoded-Keeps :
    (U : Type 0)
    → (c : Calls) (s : Server) (buf : Buffer) (d : Decoded) → Hears s
    → Keeps U (λ p. Hears p.0) (obfs_decoded c s buf d)
unfolding obfs_decoded
obfs_decoded-Keeps U c s buf (decoded new back) h =
    if-Keeps U (λ p. Hears p.0) back _ _ (Hears-IsSound U (put_buf s new) (put_buf-Hears s new h)) h
obfs_decoded-Keeps U c s buf (decode_refused moved array back) h =
    if-Keeps U (λ p. Hears p.0) c.obfs_compatible _ _
      (if-Keeps U (λ p. Hears p.0) moved _ _ tt
        (if-Keeps U (λ p. Hears p.0) back _ _
          (Hears-IsSound U _ (put_buf-Hears (record s { obfs_compatible_state = true }) _ h)) h))
      (close-IsFine U none s (Hears-close s h))

protocol_posted-Keeps :
    (U : Type 0)
    → (c : Calls) (s : Server) (buf : Buffer) (d : Posted) → Hears s
    → Keeps U (λ p. Hears p.0) (protocol_posted c s buf d)
unfolding protocol_posted
protocol_posted-Keeps U c s buf (posted moved new) h =
    if-Keeps U (λ p. Hears p.0) (new.len == 0) _ _
      (if-Keeps U (λ p. Hears p.0) c.protocol_compatible _ _
        (if-Keeps U (λ p. Hears p.0) moved _ _ tt h)
        (Hears-IsSound U (put_buf s new) (put_buf-Hears s new h)))
      h
protocol_posted-Keeps U c s buf (post_refused moved array) h =
    if-Keeps U (λ p. Hears p.0) c.protocol_compatible _ _
      (if-Keeps U (λ p. Hears p.0) (moved || buf.len == 0) _ _ tt h)
      (close-IsFine U none s (Hears-close s h))

pub obfs_step-Keeps :
    (U : Type 0)
    → (c : Calls) (s : Server) (buf : Buffer) → Hears s
    → Keeps U (λ p. Hears p.0) (obfs_step c s buf)
unfolding obfs_step obfs_decoded
obfs_step-Keeps U c s buf h = elim (Option-cases c.server_decode) [
  | inl e ↦ rw (e) h
  | inr (f, e) ↦ rw (e) (obfs_decoded-Keeps U c s buf (f buf) h)
]

pub protocol_step-Keeps :
    (U : Type 0)
    → (c : Calls) (s : Server) (buf : Buffer) → Hears s
    → Keeps U (λ p. Hears p.0) (protocol_step c s buf)
unfolding protocol_step protocol_posted
protocol_step-Keeps U c s buf h = elim (Option-cases c.server_post_decrypt) [
  | inl e ↦ rw (e) h
  | inr (f, e) ↦ rw (e) (protocol_posted-Keeps U c s buf (f buf) h)
]
