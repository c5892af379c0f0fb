-- ===== src/Reader/Punct.antt =====
-- `getTokenFromCode` and the `readToken_*` methods of packages/horchata/src/lexer/index.js: the token
-- that the next characters make.
pub mod Regexp
pub mod Code
pub mod Lossless
pub mod Switch
pub mod Fetch
use tacoscript.Prelude.{
  ℕ, zero, suc, ◌+◌, Bool, true, false, not, ◌&&◌, ◌||◌, Option, none, some, List, [], ◌∷◌,
  if◌then◌else◌, ltb, leb, ◌==◌, length, take,
}
use tacoscript.Token.{
  TokType, newline, paren_l, paren_r, comma, bracket_l, bracket_r, brace_l, brace_r, double_colon,
  colon, question, at, back_quote, modulo, bitwise_or, bitwise_and, bitwise_xor, bitwise_not, arrow,
  eq, dot, ellipsis, equality, excl, assign, bit_shift, relational, inc_dec, plus_min, semi,
  doublesemi, slash, star,
}
use tacoscript.Text.{Chars, is_code, is_newline}
use tacoscript.Text.Ident.{IdentifierData}
use tacoscript.Reader.{
  Cursor, peek, advance, new_line, Env, Result, ok, raise, ◌>>=◌, unexpected_character,
}
use tacoscript.Reader.Number.{Number, read_number, read_radix_number}
use tacoscript.Reader.Quoted.{read_string}
use tacoscript.Reader.Punct.Regexp.{RegexpToken, read_regexp}

-- What the reader does at the end: `finishToken(type, val)`, where `none` is the type's label, or a
-- line comment whose opening is so many characters, behind which the next token is read. `finished_silently` is a
-- token that is finished while the method returns `undefined`.
pub data Fetched : Type 0 where
  finished finished_silently : TokType → Option Chars → Cursor → Fetched
  number : Number → Cursor → Fetched
  text : Chars → Cursor → Fetched
  pattern : RegexpToken → Cursor → Fetched
  line_comment : ℕ → Cursor → Fetched

-- `this.finishToken(type)` behind `n` characters
abbrev pub plain : TokType → ℕ → Cursor → Fetched
plain type n c = finished type none (advance n c)

-- `this.finishToken(type, this.input.slice(start, this.state.pos))` behind `n` characters
abbrev pub sliced : TokType → ℕ → Cursor → Fetched
sliced type n c = finished type (some (take n c.rest)) (advance n c)

-- `finishArrow(len)`: =>/=>>
unfoldable pub finish_arrow : ℕ → Cursor → Fetched
finish_arrow len c =
    if is_code (peek c len) 62 then sliced arrow (len + 1) c else sliced arrow len c

-- `finishEqOrType(type)`
unfoldable pub finish_eq_or_type : TokType → Cursor → Fetched
finish_eq_or_type type c = if is_code (peek c 1) 61 then sliced eq 2 c else plain type 1 c

-- `finishTokenMaybe_equality(prefix, next)` at `next`, where the prefix is read; `none` is false
unfoldable pub finish_token_maybe_equality : ℕ → Cursor → Option Fetched
finish_token_maybe_equality prefix c =
    if is_code (peek c 0) 61
    then some (
        if is_code (peek c 1) 61
        then finished equality (some (prefix ∷ 61 ∷ 61 ∷ [])) (advance 2 c)
        else finished equality (some (prefix ∷ 61 ∷ [])) (advance 1 c))
    else none

abbrev pub digit? : Option ℕ → Bool
digit? none = false
digit? (some ch) = leb 48 ch && leb ch 57

-- `readToken_dot`, where no digit follows
unfoldable pub read_token_dot : Cursor → Fetched
read_token_dot c =
    if is_code (peek c 1) 46 && is_code (peek c 2) 46 then plain ellipsis 3 c else plain dot 1 c

-- The token is finished, and then the method returns nothing.
abbrev pub silently : Fetched → Fetched
silently (finished type val c) = finished_silently type val c
silently f = f

-- `if (f) return; return g`
abbrev pub silently_or : Option Fetched → Fetched → Fetched
silently_or none g = g
silently_or (some f) g = silently f

-- `readToken_eq`. `finishTokenMaybe_equality` looks at `state.pos + 1` for the third character.
unfoldable pub read_token_eq : Cursor → Fetched
unfolding finish_arrow finish_token_maybe_equality
read_token_eq c =
    if is_code (peek c 1) 62
    then finish_arrow 2 c
    else silently_or (finish_token_maybe_equality 61 (advance 1 c))
        (finished eq (some (61 ∷ [])) (advance 1 c))

unfoldable pub read_token_excl : Cursor → Fetched
unfolding finish_token_maybe_equality
read_token_excl c = silently_or (finish_token_maybe_equality 33 (advance 1 c)) (plain excl 1 c)

-- `readToken_lt_gt(code)`
unfoldable pub read_token_lt_gt : Bool → ℕ → Cursor → Fetched
read_token_lt_gt in_module code c =
    let size = (if code == 62 && is_code (peek c 2) 62 then 3 else 2) in
    if is_code (peek c 1) code
    then (if is_code (peek c size) 61 then sliced assign (size + 1) c else sliced bit_shift size c)
    else if not in_module
        && is_code (peek c 1) 33
        && code == 60
        && is_code (peek c 2) 45
        && is_code (peek c 3) 45
    then line_comment 4 c
    else sliced relational (if is_code (peek c 1) 61 then 2 else 1) c

-- `readToken_plus_min(code)`; `after_line_break` is whether a line break stands between the
-- previous token and this one
unfoldable pub read_token_plus_min : Bool → Bool → ℕ → Cursor → Fetched
unfolding finish_arrow
read_token_plus_min in_module after_line_break code c =
    if is_code (peek c 1) code
    then (if not in_module && is_code (peek c 1) 45 && is_code (peek c 2) 62 && after_line_break
        then line_comment 3 c
        else finished inc_dec (some (if is_code (peek c 1) 45 then 45 ∷ 45 ∷ [] else 43 ∷ 43 ∷ []))
            (advance 2 c))
    else if is_code (peek c 1) 61
    then (if code == 43 && is_code (peek c 2) 62
        then finish_arrow 3 c
        else finished assign (some (if code == 45 then 45 ∷ 61 ∷ [] else 43 ∷ 61 ∷ []))
            (advance 2 c))
    else if is_code (peek c 1) 62
    then finish_arrow 2 c
    else finished plus_min (some (if code == 45 then 45 ∷ [] else 43 ∷ [])) (advance 1 c)

unfoldable pub read_token_semi : Cursor → Fetched
read_token_semi c = if is_code (peek c 1) 59 then plain doublesemi 2 c else plain semi 1 c

-- `readToken_slash`, where no expression may begin
unfoldable pub read_token_slash : Cursor → Fetched
read_token_slash c =
    if is_code (peek c 1) 61
    then finished assign (some (47 ∷ 61 ∷ [])) (advance 2 c)
    else finished slash (some (47 ∷ [])) (advance 1 c)

unfoldable pub read_token_star : Cursor → Fetched
read_token_star c =
    if is_code (peek c 1) 61 && not (is_code (peek c 2) 62) then sliced eq 2 c else plain star 1 c

-- The case of a line break.
unfoldable pub read_newline : ℕ → Cursor → Fetched
read_newline code c =
    finished newline none
      (new_line (advance (if code == 13 && is_code (peek c 1) 10 then 2 else 1) c))

-- What the methods consult besides the input.
pub record Mode : Type 0 where
  pub env : Env
  pub in_module : Bool
  pub expr_allowed : Bool
  pub after_line_break : Bool

-- The cases of the operators.
unfoldable pub operator_token : Mode → ℕ → Cursor → Option Fetched
unfolding finish_eq_or_type read_token_eq read_token_lt_gt read_token_plus_min read_token_slash
    read_token_star
operator_token m code c =
    if code == 47
    then (if m.expr_allowed then none else some (read_token_slash c))
    else if code == 37
    then some (finish_eq_or_type modulo c)
    else if code == 124
    then some (finish_eq_or_type bitwise_or c)
    else if code == 38
    then some (finish_eq_or_type bitwise_and c)
    else if code == 94
    then some (finish_eq_or_type bitwise_xor c)
    else if code == 42
    then some (read_token_star c)
    else if code == 43 || code == 45
    then some (read_token_plus_min m.in_module m.after_line_break code c)
    else if code == 60 || code == 62
    then some (read_token_lt_gt m.in_module code c)
    else if code == 61
    then some (read_token_eq c)
    else if code == 126
    then some (plain bitwise_not 1 c)
    else none

-- The cases of `getTokenFromCode` that punctuation makes; `none` falls to the cases below.
unfoldable pub punctuation : Mode → ℕ → Cursor → Option Fetched
unfolding read_token_dot read_token_excl read_token_semi read_newline operator_token
punctuation m code c =
    if is_newline code
    then some (read_newline code c)
    else if code == 46
    then (if digit? (peek c 1) then none else some (read_token_dot c))
    else if code == 40
    then some (plain paren_l 1 c)
    else if code == 41
    then some (plain paren_r 1 c)
    else if code == 44
    then some (plain comma 1 c)
    else if code == 91
    then some (plain bracket_l 1 c)
    else if code == 93
    then some (plain bracket_r 1 c)
    else if code == 123
    then some (plain brace_l 1 c)
    else if code == 125
    then some (plain brace_r 1 c)
    else if code == 59
    then some (read_token_semi c)
    else if code == 33
    then some (read_token_excl c)
    else if code == 58
    then some (
        if is_code (peek c 1) 58
        then finished double_colon (some (58 ∷ 58 ∷ [])) (advance 2 c)
        else plain colon 1 c)
    else if code == 63
    then some (plain question 1 c)
    else if code == 64
    then some (plain at 1 c)
    else if code == 96
    then some (plain back_quote 1 c)
    else operator_token m code c

-- `120, 88`, `111, 79` and `98, 66` behind a zero
abbrev radix : Option ℕ → Option ℕ
radix none = none
radix (some ch) =
    if ch == 120 || ch == 88
    then some 16
    else if ch == 111 || ch == 79
    then some 8
    else if ch == 98 || ch == 66
    then some 2
    else none

module _ (d : IdentifierData) where
  -- The cases of numbers, strings and regular expressions, and the error behind them.
  literal : Mode → ℕ → Cursor → Result Fetched
  unfolding read_number read_radix_number read_string read_regexp
  literal m code c =
      let dotted = (read_number d true c >>= λ (n, c'). ok (number n c')) in
      let decimal = (read_number d false c >>= λ (n, c'). ok (number n c')) in
      if code == 46
      then dotted
      else if leb 48 code && leb code 57
      then (elim (if code == 48 then radix (peek c 1) else none) [
        | none ↦ decimal
        | some r ↦ read_radix_number d r c >>= λ (n, c'). ok (number n c')
      ])
      else if code == 34 || code == 39
      then (read_string m.env code c >>= λ (s, c'). ok (text s c'))
      else if code == 47
      then (read_regexp d (advance 1 c) >>= λ (r, c'). ok (pattern r c'))
      else raise (some c.pos) unexpected_character

  -- `getTokenFromCode(code)`
  unfoldable pub get_token_from_code : Mode → ℕ → Cursor → Result Fetched
  unfolding punctuation literal
  get_token_from_code m code c = elim (punctuation m code c) [
    | some f ↦ ok f
    | none ↦ literal m code c
  ]
