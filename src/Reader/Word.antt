-- ===== src/Reader/Word.antt =====
-- `readWord` and `readWordSingle` of packages/horchata/src/lexer/index.js, and the code of a name in
-- packages/horchata/src/lexer/serialization.js.
pub mod RoundTrip
use tacoscript.Prelude.{
  ℕ, zero, suc, ◌+◌, ◌-◌, Bool, true, false, not, ◌&&◌, ◌||◌, Option, none, some, List, [], ◌∷◌,
  ◌++◌, if◌then◌else◌, leb, ◌==◌, length, take,
}
use tacoscript.Token.{TokType, name}
use tacoscript.Token.Keyword.{keyword_type, is_strict_reserved}
use tacoscript.Text.{Chars, is_code}
use tacoscript.Text.Utf16.{full_char_code, code_point_to_string}
use tacoscript.Text.Ident.{IdentifierData, is_identifier_start, is_identifier_char}
use tacoscript.Reader.{
  Cursor, peek, advance, Result, ok, raise, out_of_fuel, ◌>>=◌, expected_unicode_escape,
  invalid_unicode_escape, invalid_identifier,
}
use tacoscript.Reader.Escape.{read_code_point}

-- The word with its escapes replaced, and `state.containsEsc`.
pub record Word : Type 0 where
  pub word : Chars
  pub contains_esc : Bool

-- The token of a word: the keyword's, or a name's with `value` and `raw`.
pub data WordToken : Type 0 where
  keyword_token : TokType → Chars → WordToken
  name_token : Chars → Chars → WordToken

abbrev pub is_escape : Option ℕ → Bool
is_escape code = is_code code 92

module _ (d : IdentifierData) where
  abbrev pub is_part : Option ℕ → Bool
  is_part none = false
  is_part (some ch) = is_identifier_char d ch

  -- `ch <= 0xffff ? 1 : 2`; a NaN is no identifier character
  abbrev pub width : Option ℕ → ℕ
  width none = 2
  width (some ch) = if leb ch 0xffff then 1 else 2

  -- `(first ? isIdentifierStart : isIdentifierChar)(esc)`
  abbrev pub may_stand : Bool → ℕ → Bool
  may_stand first esc = if first then is_identifier_start d esc else is_identifier_char d esc

  -- The loop of `readWordSingle`: `chunk` is the input from `chunkStart` to the cursor.
  unfoldable pub read_word_from : ℕ → Bool → Bool → Chars → Chars → Cursor → Result (Word × Cursor)
  read_word_from zero first esc word chunk c = out_of_fuel
  read_word_from (suc fuel) first esc word chunk c =
      let ch = full_char_code c.rest in
      let n = width ch in
      let part = read_word_from fuel false esc word (chunk ++ take n c.rest) (advance n c) in
      let skipped = read_word_from fuel false true (word ++ chunk) [] (advance 2 c) in
      let escape =
        (read_code_point (advance 2 c) >>= λ (code, c').
        (let rest =
            read_word_from fuel false true ((word ++ chunk) ++ code_point_to_string code) [] c' in
          if may_stand first code then rest else raise (some c.pos) invalid_unicode_escape)) in
      if is_part ch
      then part
      else if is_escape ch
      then (if first && is_code (peek c 1) 36
          then skipped
          else if not (is_code (peek c 1) 117)
          then raise (some (c.pos + 1)) expected_unicode_escape
          else escape)
      else ok (record { word = word ++ chunk; contains_esc = esc }, c)

  -- `readWordSingle(allowEmpty)`
  unfoldable pub read_word_single : Bool → Cursor → Result (Word × Cursor)
  unfolding read_word_from
  read_word_single allow_empty c =
      read_word_from (length c.rest + 1) true false [] [] c >>= λ (w, c').
      (if not allow_empty && length w.word == 0
        then raise (some c'.pos) invalid_identifier
        else ok (w, c'))

  -- `finishKeyword`, or a name: by the word's keyword type and whether it has an escape
  abbrev pub token_of : Option TokType → Bool → Chars → Chars → WordToken
  token_of none esc raw word = name_token word raw
  token_of (some t) true raw word = name_token word raw
  token_of (some t) false raw word = keyword_token t word

  -- `readWord()`, where the token starts
  unfoldable pub read_word : Cursor → Result (WordToken × Cursor)
  unfolding read_word_single
  read_word c = read_word_single false c >>= λ (w, c'). ok (
    token_of (keyword_type w.word) w.contains_esc (take (length c.rest - length c'.rest) c.rest)
        w.word,
    c',
  )

-- `keywords.hasOwnProperty(code)`
abbrev pub is_some : Option TokType → Bool
is_some none = false
is_some (some t) = true

abbrev pub is_keyword : Chars → Bool
is_keyword w = is_some (keyword_type w)

-- `tt.name.toCode` of a token with the given `value.value` and `value.standalone`, and neither
-- `code` nor `raw`
unfoldable pub name_to_code : Chars → Bool → Chars
name_to_code w standalone =
    if (is_keyword w || is_strict_reserved w) && standalone then 92 ∷ 36 ∷ w else w
