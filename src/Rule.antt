-- ===== src/Rule.antt =====
-- rule.c: the regular expressions of an access list. PCRE2 and the list of libcork are parameters.
use openwrt_helloworld.Prelude.{
  ℕ, Bool, true, false, ◌&&◌, List, [], ◌∷◌, Option, none, some, if◌then◌else◌,
}

-- What rule.c calls of PCRE2: compiling a pattern, getting a match block (which can fail), and
-- whether a match of a subject is found (`pcre2_match(...) >= 0`).
pub record Pcre : Type 1 where
  pub Regex : Type 0
  pub compile : List ℕ → Option Regex
  pub match_block : Regex → Bool
  pub finds : Regex → List ℕ → Bool

module _ (pcre : Pcre) where
  open pcre use {Regex, compile, match_block, finds}

  -- `rule_t`: NULL pointers are `none`, and `false` for the match block.
  pub record Rule : Type 0 where
    pub pattern_text : Option (List ℕ)
    pub pattern_re : Option Regex
    pub match_data : Bool

  -- `malloc_ok` is false when `calloc` returns NULL.
  unfoldable pub new_rule : Bool → Option Rule
  new_rule malloc_ok =
      if malloc_ok
      then some (record { pattern_text = none; pattern_re = none; match_data = false })
      else none

  -- The result is true for 1 and false for -1.
  unfoldable pub accept_rule_arg : Bool → Rule → List ℕ → Bool × Rule
  accept_rule_arg strdup_ok rule arg = elim rule.pattern_text [
    | some _ ↦ (false, rule)
    | none ↦ if strdup_ok then (true, record rule { pattern_text = some arg }) else (false, rule)
  ]

  -- Compiling the pattern, when there is one; the result is true for 1 and false for 0.
  unfoldable pub init_rule : Rule → Bool × Rule
  init_rule rule = elim rule.pattern_re [
    | some _ ↦ (true, rule)
    | none ↦ elim rule.pattern_text [
      | none ↦ (false, rule)
      | some text ↦ elim (compile text) [
        | none ↦ (false, rule)
        | some re ↦
            (match_block re, record rule { pattern_re = some re; match_data = match_block re })
      ]
    ]
  ]

  -- `pcre2_match` with a NULL pattern or match block reports an error, which is no match.
  unfoldable pub rule_finds : Rule → List ℕ → Bool
  rule_finds rule name = elim rule.pattern_re [
    | none ↦ false
    | some re ↦ rule.match_data && finds re name
  ]

  -- The first rule of the list that matches. A NULL name is the empty one.
  unfoldable pub lookup_rule : List Rule → List ℕ → Option Rule
  lookup_rule [] name = none
  lookup_rule (rule ∷ rules) name =
      let rest = lookup_rule rules name in if rule_finds rule name then some rule else rest
