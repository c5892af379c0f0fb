-- ===== src/Reader/Punct/Regexp.antt =====
-- `readRegexp` of packages/horchata/src/lexer/index.js.
use tacoscript.Prelude.{
  ℕ, ◌+◌, Bool, true, false, not, ◌&&◌, ◌||◌, Option, none, some, [], ◌∷◌, if◌then◌else◌, ◌==◌,
  length,
}
use tacoscript.Text.{Chars, is_newline}
use tacoscript.Text.Ident.{IdentifierData}
use tacoscript.Reader.{
  Cursor, advance, Result, ok, raise, ◌>>=◌, unterminated_regexp, invalid_regexp_flag,
}
use tacoscript.Reader.Word.{read_word_single}

-- The value of the token.
pub record RegexpToken : Type 0 where
  pub pattern : Chars
  pub flags : Chars

-- The loop, from the suffix on: the characters up to the slash that ends the pattern, or `none` at
-- the end of the line or of the input.
unfoldable pub pattern_from : Bool → Bool → Chars → Option Chars
pattern_from escaped in_class [] = none
pattern_from escaped in_class (ch ∷ cs) =
    let after_escape = add (pattern_from false in_class cs) in
    let opened = add (pattern_from false true cs) in
    let closed = add (pattern_from false false cs) in
    let next = add (pattern_from (ch == 92) in_class cs) in
    if is_newline ch
    then none
    else if escaped
    then after_escape
    else if ch == 91
    then opened
    else if ch == 93 && in_class
    then closed
    else if ch == 47 && not in_class
    then some []
    else next
  where
    add : Option Chars → Option Chars
    add none = none
    add (some p) = some (ch ∷ p)

-- `/^[gmsiyu]*$/.test(flags)`
unfoldable pub valid_flags : Chars → Bool
valid_flags [] = true
valid_flags (f ∷ fs) =
    (f == b'g' || f == b'm' || f == b's' || f == b'i' || f == b'y' || f == b'u') && valid_flags fs

abbrev pub to_result : Option Chars → ℕ → Result Chars
to_result none start = raise (some start) unterminated_regexp
to_result (some p) start = ok p

-- `readRegexp()` behind the slash
unfoldable pub read_regexp : IdentifierData → Cursor → Result (RegexpToken × Cursor)
unfolding pattern_from valid_flags read_word_single
read_regexp d c = to_result (pattern_from false false c.rest) c.pos >>= λ p.
    (read_word_single d true (advance (length p + 1) c) >>= λ (w, c').
    (if valid_flags w.word
      then ok (record { pattern = p; flags = w.word }, c')
      else raise (some c.pos) invalid_regexp_flag))
