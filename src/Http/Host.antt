-- ===== src/Http/Host.antt =====
-- A well-formed request gives its host.
use openwrt_helloworld.Prelude.{
  ℕ, suc, ◌+◌, ◌≤◌, ◌<◌, ◌≡◌, ◌≢◌, refl, ap, ◌∙◌, arith, true, false, List, [], ◌∷◌, ◌++◌, Option,
  none, some, ltb, ◌==◌, All, length, take, drop, map, take-append, length-append, append_assoc,
  append-nil, lt→ltb, drop-append,
}
use openwrt_helloworld.Prelude.Text.{codes, same_key}
use openwrt_helloworld.Http.{
  Parsed, hostname, lower, is_host, isblank, drop_blanks, copied, get_header, last_colon, cut_port,
  parse_http_header,
}
use openwrt_helloworld.Http.Headers.{
  IsLine, IsOther, lines_text, host_value, header_loop-lines, lines_length,
}

drop_blanks-append :
    (b v : List ℕ) → All (λ c. isblank c ≡ true) b → drop_blanks v ≡ v → drop_blanks (b ++ v) ≡ v
unfolding drop_blanks
drop_blanks-append [] v h e = e
drop_blanks-append (c ∷ b) v h e = rw (drop_blanks, h.0) (drop_blanks-append b v h.1 e)

not_zero : (c : ℕ) → c ≢ 0 → (c == 0) ≡ false
not_zero c h = ground arith

copied_same : (s : List ℕ) → All (λ c. c ≢ 0) s → copied false s ≡ s
unfolding copied
copied_same [] h = refl
copied_same (c ∷ s) h = rw (not_zero c h.0) (ap (λ t. c ∷ t) (copied_same s h.1))

last_colon-none : (s : List ℕ) → All (λ c. c ≢ b':') s → last_colon s ≡ none
unfolding last_colon
last_colon-none [] h = refl
last_colon-none (c ∷ s) h = ground (arith, h.0, last_colon-none s h.1)

last_colon-append :
    (s p : List ℕ) → All (λ c. c ≢ b':') p → last_colon (s ++ (b':' ∷ p)) ≡ some (length s)
unfolding last_colon
last_colon-append [] p h = rw (last_colon-none p h) refl
last_colon-append (c ∷ s) p h = rw (last_colon-append s p h) (ap some (omega arith))

-- A port behind the name, or none.
abbrev pub port_text : Option (List ℕ) → List ℕ
port_text none = []
port_text (some p) = b':' ∷ p

abbrev pub IsPort : Option (List ℕ) → Type 0
IsPort none = Unit
IsPort (some p) = All (λ c. c ≢ b':') p

-- The name that the caller has: as many bytes as the result says.
abbrev pub name_of : Parsed → Option (List ℕ)
name_of (hostname s n) = some (take n s)
name_of _ = none

cut_port-name :
    (name : List ℕ) (port : Option (List ℕ)) (end : List ℕ)
    → All (λ c. c ≢ b':') name
    → IsPort port
    → name_of
        (cut_port (hostname ((name ++ port_text port) ++ end) (length (name ++ port_text port))))
      ≡ some name
unfolding cut_port
cut_port-name name none end h k =
    let v = name ++ [] in
    let whole : take (length v) (v ++ end) ≡ name =
      take-append (length v) v end refl ∙ append-nil name in
    let none_there : last_colon (take (length v) (v ++ end)) ≡ none =
      ap last_colon whole ∙ last_colon-none name h in
    rw (cut_port, none_there) (ap some whole)
cut_port-name name (some p) end h k =
    let v = name ++ (b':' ∷ p) in
    let there : last_colon (take (length v) (v ++ end)) ≡ some (length name) =
      ap last_colon (take-append (length v) v end refl) ∙ last_colon-append name p k in
    let front : take (length name) (v ++ end) ≡ name =
      ap (take (length name)) (append_assoc name (b':' ∷ p) end)
      ∙ take-append (length name) name ((b':' ∷ p) ++ end) refl in
    rw (cut_port, there)
      (ap some (
        ap (λ t. take (length name) (t ++ (0 ∷ drop (length name + 1) (v ++ end)))) front
        ∙ take-append (length name) name (0 ∷ drop (length name + 1) (v ++ end)) refl))

text_size :
    (first : List ℕ) (t : List ℕ) (k : ℕ)
    → k ≤ length t
    → ((length (first ++ (13 ∷ 10 ∷ t)) == 0) ≡ false) × (k < suc (length (first ++ (13 ∷ 10 ∷ t))))
text_size first t k h =
    let size = length-append first (13 ∷ 10 ∷ t) in (ground (arith, size), omega (arith, size))

drop_blanks-name : (m : ℕ) (s : List ℕ) → isblank m ≡ false → drop_blanks (m ∷ s) ≡ m ∷ s
unfolding drop_blanks
drop_blanks-name m s h = rw (drop_blanks, h) refl

module _ (c : ℕ) (f blanks : List ℕ) (m : ℕ) (ms : List ℕ) (port : Option (List ℕ)) where
  -- The value of the Host header: the name `m ∷ ms` and the port.
  abbrev pub value_of : List ℕ
  value_of = (m ∷ ms) ++ port_text port

  -- The line of the Host header: the field `c ∷ f` with its colon, blanks and the value.
  abbrev pub host_line : List ℕ
  host_line = (c ∷ f) ++ (blanks ++ value_of)

  -- The field is "Host:" in any case, the name begins with no blank and holds no colon, and nothing
  -- in the line ends it or a C string.
  pub record IsHostLine : Type 0 where
    pub five : 5 ≡ length (c ∷ f)
    pub field_name : same_key (map lower (c ∷ f)) (codes "host:") ≡ true
    pub blank : All (λ b. isblank b ≡ true) blanks
    pub no_blank : isblank m ≡ false
    pub no_colon : All (λ x. x ≢ b':') (m ∷ ms)
    pub is_port : IsPort port
    pub one_line : IsLine host_line
    pub no_zero : All (λ x. x ≢ 0) value_of

  module _ (w : IsHostLine) where
    is_host-host_line : is_host (length host_line) host_line ≡ true
    unfolding is_host
    is_host-host_line =
        let long : ltb 5 (length host_line) ≡ true = lt→ltb 5 (length host_line) (
          omega (
            arith,
            w.five,
            length-append (c ∷ f) (blanks ++ value_of),
            length-append blanks value_of,
          )) in
        let field : take 5 host_line ≡ c ∷ f = take-append 5 (c ∷ f) (blanks ++ value_of) w.five in
        rw long (ap (λ s. same_key (map lower s) (codes "host:")) field ∙ w.field_name)

    host_value-host_line : host_value host_line ≡ hostname (value_of ++ (0 ∷ [])) (length value_of)
    host_value-host_line =
        let behind : drop 5 host_line ≡ blanks ++ value_of =
          drop-append 5 (c ∷ f) (blanks ++ value_of) w.five in
        let value : drop_blanks (drop 5 host_line) ≡ value_of =
          ap drop_blanks behind
          ∙ drop_blanks-append blanks value_of w.blank
              (drop_blanks-name m (ms ++ port_text port) w.no_blank) in
        ap (λ s. hostname (copied false s ++ (0 ∷ [])) (length s)) value
        ∙ ap (λ s. hostname (s ++ (0 ∷ [])) (length value_of)) (copied_same value_of w.no_zero)

    -- A request gives the name of its Host header, which has no colon and begins with no blank,
    -- without the port: after the request line and other headers, whatever follows, where `malloc`
    -- does not fail.
    pub parse_http_header-name :
        (first : List ℕ) (others : List (List ℕ)) (rest : List ℕ)
        → IsLine first
        → All IsOther others
        → name_of (
            parse_http_header true true
              (first ++ (13 ∷ 10 ∷ lines_text others (host_line ++ (13 ∷ 10 ∷ rest)))))
          ≡ some (m ∷ ms)
    unfolding parse_http_header get_header
    parse_http_header-name first others rest line headers =
        let text = lines_text others (host_line ++ (13 ∷ 10 ∷ rest)) in
        let (not_empty_text, fuel) =
          text_size first text (length others)
            (lines_length others (host_line ++ (13 ∷ 10 ∷ rest))) in
        let found =
          header_loop-lines (suc (length (first ++ (13 ∷ 10 ∷ text)))) first others c
            (f ++ (blanks ++ value_of)) rest fuel line headers w.one_line is_host-host_line in
        rw not_empty_text (
          ap (λ p. name_of (cut_port p)) (found ∙ host_value-host_line)
          ∙ cut_port-name (m ∷ ms) port (0 ∷ []) w.no_colon w.is_port)
