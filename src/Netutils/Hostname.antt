-- ===== src/Netutils/Hostname.antt =====
-- A description of the host names that are let through, label by label.
use openwrt_helloworld.Prelude.{
  ℕ, zero, suc, ◌+◌, ◌-◌, ◌≤◌, ◌<◌, ◌≡◌, refl, sym, ap, ap₂, subst, All-split, append_assoc, ◌∙◌,
  arith, Bool, not, get_or-append, drop-append_right, length-append, true, false, ◌&&◌, List, [],
  ◌∷◌, ◌++◌, none, some, leb, ltb, ◌==◌, if◌then◌else◌, get_or, drop, length, All, Bool-cases, inl,
  inr, ==_iff, ==_false,
}
use openwrt_helloworld.Netutils.{
  strchr, is_valid_label_byte, strspn, is_label, label_length, labels_loop, validate_hostname,
}

-- The pieces between the dots.
unfoldable pub in_front : ℕ → List (List ℕ) → List (List ℕ)
in_front c [] = (c ∷ []) ∷ []
in_front c (p ∷ ps) = (c ∷ p) ∷ ps

unfoldable pub pieces : List ℕ → List (List ℕ)
pieces [] = [] ∷ []
pieces (c ∷ cs) = if c == b'.' then [] ∷ pieces cs else in_front c (pieces cs)

unfoldable pub all_valid : List ℕ → Bool
all_valid [] = true
all_valid (c ∷ cs) = is_valid_label_byte c && all_valid cs

-- 1 to 63 letters, digits, underscores and hyphens, with no hyphen at an end.
unfoldable pub good_label : List ℕ → Bool
good_label p =
    leb 1 (length p)
    && leb (length p) 63
    && not (get_or p 0 0 == b'-')
    && not (get_or p (length p - 1) 0 == b'-')
    && all_valid p

-- Every piece is a label; the name may end in a dot.
unfoldable pub good_pieces : List (List ℕ) → Bool
good_pieces [] = true
good_pieces ([] ∷ []) = true
good_pieces (p ∷ ps) = good_label p && good_pieces ps

unfoldable pub is_host_name : List ℕ → Bool
is_host_name name = leb 1 (length name) && leb (length name) 255 && good_pieces (pieces name)

suc-ltb : (a b : ℕ) → ltb (suc a) (suc b) ≡ ltb a b
suc-ltb a b = ground arith

good_pieces_one : (p : List ℕ) → 0 < length p → good_pieces (p ∷ []) ≡ good_label p
unfolding good_pieces
good_pieces_one [] h = absurd (omega arith)
good_pieces_one (c ∷ p) h = ground arith

good_pieces_more :
    (p q : List ℕ) (ps : List (List ℕ))
    → good_pieces (p ∷ q ∷ ps) ≡ good_label p && good_pieces (q ∷ ps)
unfolding good_pieces
good_pieces_more [] q ps = refl
good_pieces_more (c ∷ p) q ps = refl

in_front-cons :
    (c : ℕ) (ps : List (List ℕ)) → (q : List ℕ) × (qs : List (List ℕ)) × (in_front c ps ≡ q ∷ qs)
unfolding in_front
in_front-cons c [] = (c ∷ [], [], refl)
in_front-cons c (p ∷ ps) = (c ∷ p, ps, refl)

pieces-cons : (r : List ℕ) → (q : List ℕ) × (qs : List (List ℕ)) × (pieces r ≡ q ∷ qs)
unfolding pieces
pieces-cons [] = ([], [], refl)
pieces-cons (c ∷ r) = elim (Bool-cases (c == b'.')) [
  | inl e ↦ ([], pieces r, rw (e) refl)
  | inr e ↦ let (q, qs, h) = in_front-cons c (pieces r) in (q, qs, rw (e) h)
]

good_pieces-pieces :
    (p r : List ℕ) → good_pieces (p ∷ pieces r) ≡ good_label p && good_pieces (pieces r)
good_pieces-pieces p r = let (q, qs, h) = pieces-cons r in rw (h) (good_pieces_more p q qs)

length-first : (l r r' : List ℕ) → r ≡ l ++ (b'.' ∷ r') → length r ≡ length l + suc (length r')
length-first l r r' e = ap length e ∙ length-append l (b'.' ∷ r')

-- The memory behind the bytes.
module _ (pad : List ℕ) where
  abbrev stored : List ℕ → List ℕ
  stored r = r ++ (0 ∷ pad)

  strspn-valid : (p t : List ℕ) → ltb (strspn (p ++ t)) (length p) ≡ not (all_valid p)
  unfolding strspn all_valid
  strspn-valid [] t = ground arith
  strspn-valid (c ∷ p) t = elim (Bool-cases (is_valid_label_byte c)) [
    | inl e ↦ rw (e) (suc-ltb (strspn (p ++ t)) (length p) ∙ strspn-valid p t)
    | inr e ↦ rw (e) (ground arith)
  ]

  is_label-good :
      (p t : List ℕ) (left : ℕ) → length p ≤ left → is_label (p ++ t) (length p) left ≡ good_label p
  unfolding is_label good_label
  is_label-good [] t left h = ground arith
  is_label-good (c ∷ p) t left h =
      ground (arith, strspn-valid (c ∷ p) t, get_or-append (length p) (c ∷ p) t 0 (omega arith))

  -- The first piece ends at a dot, or it is all.
  data Cut (r : List ℕ) : Type 0 where
    last_piece : strchr (stored r) b'.' ≡ none → pieces r ≡ r ∷ [] → Cut r
    first_piece :
        (l r' : List ℕ)
        → r ≡ l ++ (b'.' ∷ r')
        → strchr (stored r) b'.' ≡ some (length l)
        → pieces r ≡ l ∷ pieces r'
        → Cut r

  in_label : (c : ℕ) (r : List ℕ) → (c == b'.') ≡ false → (c == 0) ≡ false → Cut r → Cut (c ∷ r)
  unfolding strchr pieces in_front
  in_label c r e z (last_piece none_left one) =
      last_piece (rw (e, z, none_left) refl) (rw (e, one) refl)
  in_label c r e z (first_piece l r' whole dot more) =
      first_piece (c ∷ l) r' (ap (λ k. c ∷ k) whole) (rw (e, z, dot) refl) (rw (e, more) refl)

  cut : (r : List ℕ) → All (λ c. 0 < c) r → Cut r
  unfolding strchr pieces in_front
  cut [] h = last_piece refl refl
  cut (c ∷ r) h = elim (Bool-cases (c == b'.')) [
    | inl e ↦ first_piece [] r (ap (λ k. k ∷ r) ((==_iff c b'.').0 e)) (rw (e) refl) (rw (e) refl)
    | inr e ↦ in_label c r e (==_false c 0 (omega (arith, h.0))) (cut r h.1)
  ]

  -- A round of the loop, by the label's length and the verdict on it.
  loop-stop :
      (fuel : ℕ) (label : List ℕ) (n left : ℕ)
      → label_length label (suc left) ≡ n
      → is_label label n (suc left) ≡ false
      → labels_loop (suc fuel) label (suc left) ≡ some false
  unfolding labels_loop
  loop-stop fuel label n left e g = rw (labels_loop, e, g) refl

  loop-next :
      (fuel : ℕ) (label : List ℕ) (n left : ℕ)
      → label_length label (suc left) ≡ n
      → is_label label n (suc left) ≡ true
      → labels_loop (suc fuel) label (suc left)
        ≡ labels_loop fuel (drop (n + 1) label) (suc left - (n + 1))
  unfolding labels_loop
  loop-next fuel label n left e g = rw (labels_loop, e, g, e) refl

  loop-end :
      (fuel : ℕ) (label : List ℕ) (left : ℕ) → left ≡ 0 → labels_loop fuel label left ≡ some true
  unfolding labels_loop
  loop-end fuel label zero e = refl
  loop-end fuel label (suc left) e = absurd (omega arith)

  -- The verdict on the last piece.
  loop-last :
      (fuel : ℕ) (c : ℕ) (r : List ℕ)
      → strchr (stored (c ∷ r)) b'.' ≡ none
      → labels_loop (suc fuel) (stored (c ∷ r)) (suc (length r)) ≡ some (good_label (c ∷ r))
  unfolding label_length
  loop-last fuel c r none_left = elim (Bool-cases (good_label (c ∷ r))) [
    | inl g ↦
        loop-next fuel (stored (c ∷ r)) (length (c ∷ r)) (length r)
          (rw (label_length, none_left) refl)
          (is_label-good (c ∷ r) (0 ∷ pad) (suc (length r)) (omega arith) ∙ g)
        ∙ loop-end fuel _ _ (omega arith)
        ∙ ap some (sym g)
    | inr g ↦
        loop-stop fuel (stored (c ∷ r)) (length (c ∷ r)) (length r)
          (rw (label_length, none_left) refl)
          (is_label-good (c ∷ r) (0 ∷ pad) (suc (length r)) (omega arith) ∙ g)
        ∙ ap some (sym g)
  ]

  -- A round on a piece with a dot behind it.
  loop-first :
      (fuel left : ℕ) (l r' label : List ℕ)
      → label ≡ l ++ (b'.' ∷ stored r')
      → suc left ≡ length l + suc (length r')
      → strchr label b'.' ≡ some (length l)
      → labels_loop fuel (stored r') (length r') ≡ some (good_pieces (pieces r'))
      → labels_loop (suc fuel) label (suc left) ≡ some (good_label l && good_pieces (pieces r'))
  unfolding label_length
  loop-first fuel left l r' label whole size dot rest = elim (Bool-cases (good_label l)) [
    | inl g ↦
        loop-next fuel label (length l) left (rw (label_length, dot) refl)
          (rw (whole) (is_label-good l (b'.' ∷ stored r') (suc left) (omega arith)) ∙ g)
        ∙ ap₂ (labels_loop fuel)
            (ap (drop (length l + 1)) whole
              ∙ drop-append_right l (b'.' ∷ stored r') 1 (length l + 1) refl)
            (omega arith)
        ∙ rest
        ∙ rw (g) refl
    | inr g ↦
        loop-stop fuel label (length l) left (rw (label_length, dot) refl)
          (rw (whole) (is_label-good l (b'.' ∷ stored r') (suc left) (omega arith)) ∙ g)
        ∙ rw (g) refl
  ]

  loop-pieces :
      (fuel : ℕ) (r : List ℕ)
      → All (λ c. 0 < c) r
      → length r ≤ fuel
      → labels_loop fuel (stored r) (length r) ≡ some (good_pieces (pieces r))
  unfolding labels_loop pieces good_pieces
  loop-pieces fuel [] h b = refl
  loop-pieces zero (c ∷ r) h b = absurd (omega arith)
  loop-pieces (suc fuel) (c ∷ r) h b = elim (cut (c ∷ r) h) [
    | last_piece none_left one ↦
        loop-last fuel c r none_left
        ∙ rw (one) (ap some (sym (good_pieces_one (c ∷ r) (omega arith))))
    | first_piece l r' whole dot more ↦
        let size : suc (length r) ≡ length l + suc (length r') = length-first l (c ∷ r) r' whole in
        loop-first fuel (length r) l r' (stored (c ∷ r))
          (ap stored whole ∙ append_assoc l (b'.' ∷ r') (0 ∷ pad)) size dot
          (loop-pieces fuel r' (All-split _ l (b'.' ∷ r') (subst (All (λ c. 0 < c)) whole h)).1.1
            (omega (arith, size)))
        ∙ rw (more) (ap some (sym (good_pieces-pieces l r')))
  ]

front_dot : (c : ℕ) (r : List ℕ) → (c == b'.') ≡ true → good_pieces (pieces (c ∷ r)) ≡ false
unfolding pieces good_label
front_dot c r e = rw (e) (good_pieces-pieces [] r)

-- The test lets a name through exactly when it has 1 to 255 bytes, and its pieces between the dots
-- are labels, of which the last may be empty. Its loop ends on every name without a zero.
pub validate_hostname-is_host_name :
    (name pad : List ℕ)
    → All (λ c. 0 < c) name
    → validate_hostname (name ++ (0 ∷ pad)) (length name) ≡ some (is_host_name name)
unfolding validate_hostname is_host_name
validate_hostname-is_host_name [] pad h = ground arith
validate_hostname-is_host_name (c ∷ r) pad h = elim (Bool-cases (c == b'.')) [
  | inl e ↦ ground (arith, front_dot c r e)
  | inr e ↦ ground (arith, loop-pieces pad (length (c ∷ r)) (c ∷ r) h (omega arith))
]
