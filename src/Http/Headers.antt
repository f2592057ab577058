-- ===== src/Http/Headers.antt =====
-- The loop over the headers finds the line of the Host header.
use openwrt_helloworld.Prelude.{
  ℕ, zero, suc, ◌≤◌, ◌<◌, ◌≡◌, ◌≢◌, refl, ap, ◌∙◌, arith, true, false, List, [], ◌∷◌, ◌++◌, some,
  ltb, ◌==◌, All, length, take, drop, take-append, take-append_le, length-append, Bool-cases, inl,
  inr,
}
use openwrt_helloworld.Http.{
  Parsed, hostname, skip_line, line_len, past_end, next_header, is_host, drop_blanks, copied,
  header_round, header_loop,
}

-- A line holds neither CR nor LF.
abbrev pub IsLine : List ℕ → Type 0
IsLine s = All (λ c. (c ≢ 13) × (c ≢ 10)) s

skip_line-append :
    (s : List ℕ) (c : ℕ) (rest : List ℕ)
    → IsLine s
    → skip_line (s ++ (13 ∷ 10 ∷ c ∷ rest)) ≡ 13 ∷ 10 ∷ c ∷ rest
unfolding skip_line
skip_line-append [] c rest h = refl
skip_line-append (a ∷ []) c rest h = ground (arith, h.0)
skip_line-append (a ∷ b ∷ []) c rest h =
    ground (arith, h.0, h.1.0, skip_line-append (b ∷ []) c rest h.1)
skip_line-append (a ∷ b ∷ d ∷ s) c rest h =
    ground (arith, h.0, h.1.0, skip_line-append (b ∷ d ∷ s) c rest h.1)

line_len-append : (s rest : List ℕ) → IsLine s → line_len (s ++ (13 ∷ 10 ∷ rest)) ≡ length s
unfolding line_len
line_len-append [] rest h = refl
line_len-append (a ∷ []) rest h = ground (arith, h.0)
line_len-append (a ∷ b ∷ s) rest h = ground (arith, h.0, h.1.0, line_len-append (b ∷ s) rest h.1)

next_header-append :
    (s : List ℕ) (c : ℕ) (h rest : List ℕ)
    → IsLine s
    → IsLine (c ∷ h)
    → next_header (s ++ (13 ∷ 10 ∷ c ∷ (h ++ (13 ∷ 10 ∷ rest))))
      ≡ (suc (length h), some (c ∷ (h ++ (13 ∷ 10 ∷ rest))))
unfolding next_header
next_header-append s c h rest line other =
    rw
      (
        next_header,
        skip_line-append s c (h ++ (13 ∷ 10 ∷ rest)) line,
        past_end,
        line_len-append (c ∷ h) rest other,
      )
      refl

is_host-append : (h t : List ℕ) → is_host (length h) (h ++ t) ≡ is_host (length h) h
unfolding is_host
is_host-append h t = elim (Bool-cases (ltb 5 (length h))) [
  | inl long ↦ rw (take-append_le 5 h t (ground (arith, long))) refl
  | inr short ↦ rw short refl
]

-- A header that is not the Host header.
abbrev pub IsOther : List ℕ → Type 0
IsOther [] = ⊥
IsOther (c ∷ h) = IsLine (c ∷ h) × (is_host (length (c ∷ h)) (c ∷ h) ≡ false)

-- Lines, each with its end, before a text.
abbrev pub lines_text : List (List ℕ) → List ℕ → List ℕ
lines_text [] t = t
lines_text (h ∷ hs) t = h ++ (13 ∷ 10 ∷ lines_text hs t)

-- What `get_header` makes of the line that it looks for.
abbrev pub host_value : List ℕ → Parsed
host_value h =
    let value = drop_blanks (drop 5 h) in hostname (copied false value ++ (0 ∷ [])) (length value)

not_empty : (n : ℕ) → (suc n == 0) ≡ false
not_empty n = ground arith

header_round-host :
    (again : List ℕ → Parsed) (c : ℕ) (h rest : List ℕ)
    → is_host (length (c ∷ h)) (c ∷ h) ≡ true
    → header_round true again (suc (length h)) (some (c ∷ (h ++ (13 ∷ 10 ∷ rest))))
      ≡ host_value (c ∷ h)
unfolding header_round
header_round-host again c h rest is =
    let t = 13 ∷ 10 ∷ rest in
    let there : is_host (suc (length h)) (c ∷ (h ++ t)) ≡ true = is_host-append (c ∷ h) t ∙ is in
    let line : take (suc (length h)) (c ∷ (h ++ t)) ≡ c ∷ h =
      take-append (length (c ∷ h)) (c ∷ h) t refl in
    rw (header_round, not_empty (length h), there)
      (ap
        (λ l.
          hostname (copied false (drop_blanks (drop 5 l)) ++ (0 ∷ []))
            (length (drop_blanks (drop 5 l))))
        line)

header_round-other :
    (again : List ℕ → Parsed) (c : ℕ) (h rest : List ℕ)
    → is_host (length (c ∷ h)) (c ∷ h) ≡ false
    → header_round true again (suc (length h)) (some (c ∷ (h ++ (13 ∷ 10 ∷ rest))))
      ≡ again (c ∷ (h ++ (13 ∷ 10 ∷ rest)))
unfolding header_round
header_round-other again c h rest is =
    let t = 13 ∷ 10 ∷ rest in
    let other : is_host (suc (length h)) (c ∷ (h ++ t)) ≡ false = is_host-append (c ∷ h) t ∙ is in
    rw (header_round, not_empty (length h), other) refl

pub header_loop-lines :
    (fuel : ℕ) (s : List ℕ) (hs : List (List ℕ)) (c : ℕ) (h rest : List ℕ)
    → length hs < fuel
    → IsLine s
    → All IsOther hs
    → IsLine (c ∷ h)
    → is_host (length (c ∷ h)) (c ∷ h) ≡ true
    → header_loop fuel true (s ++ (13 ∷ 10 ∷ lines_text hs ((c ∷ h) ++ (13 ∷ 10 ∷ rest))))
      ≡ host_value (c ∷ h)
unfolding header_loop
header_loop-lines zero s hs c h rest below line others host is = absurd (omega arith)
header_loop-lines (suc fuel) s [] c h rest below line others host is =
    ap (λ x. header_round true (header_loop fuel true) x.0 x.1)
      (next_header-append s c h rest line host)
    ∙ header_round-host (header_loop fuel true) c h rest is
header_loop-lines (suc fuel) s ([] ∷ hs) c h rest below line others host is = absurd others.0
header_loop-lines (suc fuel) s ((d ∷ g) ∷ hs) c h rest below line others host is =
    let more = lines_text hs ((c ∷ h) ++ (13 ∷ 10 ∷ rest)) in
    ap (λ x. header_round true (header_loop fuel true) x.0 x.1)
      (next_header-append s d g more line others.0.0)
    ∙ header_round-other (header_loop fuel true) d g more others.0.1
    ∙ header_loop-lines fuel (d ∷ g) hs c h rest (omega arith) others.0.0 others.1 host is

pub lines_length : (hs : List (List ℕ)) (t : List ℕ) → length hs ≤ length (lines_text hs t)
lines_length [] t = omega arith
lines_length (h ∷ hs) t =
    omega (arith, lines_length hs t, length-append h (13 ∷ 10 ∷ lines_text hs t))
