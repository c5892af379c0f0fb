-- ===== src/Examples.antt =====
-- Runs of the model at concrete inputs, at which the theorems' hypotheses hold: the lexer's
-- context, characters and literals. The other parts have theirs in the modules below.
pub mod Layout
pub mod Tree
pub mod Lexing
pub mod Codes
pub mod Attach
use tacoscript.Prelude.{
  ℕ, ◌+◌, ◌*◌, ◌^◌, ◌<◌, ◌≡◌, ◌≢◌, ◌⊎◌, ◌↔◌, inl, inr, refl, Bool, true, false, Option, none, some,
  List, [], ◌∷◌, ◌++◌, length, take, drop, replicate, ◌≤◌, arith, ltb, leb, ◌==◌,
}
use tacoscript.Token.{
  TokType, eof, dot, name, excl, eq, modulo, arrow, plus_min, kw_if, kw_return, kw_function,
  brace_r, dedent, brace_l, back_quote, inc_dec,
}
use tacoscript.Token.Conf.{type_of}
use tacoscript.Token.Keyword.{keyword_type, keyword_table, is_strict_reserved}
use tacoscript.Context.{
  TokContext, stmt, tmpl_str, ContextState, initial, update_context, update_contexts,
  update_by_type,
}
use tacoscript.Context.Stack.{IsGrounded, update_contexts-initial}
use tacoscript.Context.Meta.{update_contexts-meta_if}
use tacoscript.Text.{Chars}
use tacoscript.Text.Utf16.{
  full_char_code, code_point_to_string, full_char_code-code_point_to_string, full_char_code_private,
}
use tacoscript.Text.Ident.{
  IdentifierData, is_identifier_start, is_identifier_char, is_in_astral_set, InRanges,
  is_identifier_char-start, is_in_astral_set_iff,
}
use tacoscript.Reader.{Cursor, advance, Env, ok, raise, out_of_fuel, unterminated_string}
use tacoscript.Reader.Double.{exact, infinity, double, next_total, scale_of}
use tacoscript.Reader.Number.{exactly, read_digits, digit_below, digit_value, read_number_int}
use tacoscript.Reader.Number.Value.{of_digits, Stops, read_digits_lem, read_number_int-exactly}
use tacoscript.Reader.Quoted.{read_string, string_to_code}
use tacoscript.Reader.Quoted.RoundTrip.{read_string-string_to_code, read_string_separator}
use tacoscript.Reader.Quoted.Fuel.{read_string-ne-out_of_fuel}
use tacoscript.Reader.Word.{WordToken, keyword_token, name_token, read_word, name_to_code}
use tacoscript.Reader.Word.RoundTrip.{read_word-name_to_code}
use tacoscript.Reader.Punct.{
  Mode, Fetched, finished, punctuation, operator_token, read_token_plus_min, finish_arrow,
  finish_eq_or_type,
}
use tacoscript.Reader.Punct.Code.{to_code, punctuation_code}
use tacoscript.Reader.Punct.Lossless.{Consumes, at_front}
use tacoscript.Reader.Punct.Switch.{punctuation-Consumes}

abbrev no_data : IdentifierData
no_data = record {
  non_ascii_start = λ _. false;
  non_ascii_part = λ _. false;
  astral_start = 0 ∷ 11 ∷ 2 ∷ 25 ∷ [];
  astral_part = [];
}

abbrev sloppy : Env
sloppy = record { locations = true; strict = false }

abbrev script_mode : Mode
script_mode = record {
  env = sloppy;
  in_module = false;
  expr_allowed = false;
  after_line_break = false;
}

abbrev at_start : Chars → Cursor
at_start cs = record { pos = 0; rest = cs; cur_line = 1; line_start = 0 }

update_contexts-initial_example :
    (s : ContextState) × (update_contexts eof (name ∷ brace_l ∷ name ∷ brace_r ∷ []) initial
      ≡ some s)
    × IsGrounded s.context
update_contexts-initial_example =
    update_contexts-initial (name ∷ brace_l ∷ name ∷ brace_r ∷ []) refl

update_contexts-meta_if_example :
    (s' : ContextState) × (update_contexts dot (kw_if ∷ excl ∷ []) initial ≡ some s')
    × (s'.context ≡ [])
    × (update_context brace_r excl s' ≡ none)
    × (update_context dedent excl s' ≡ none)
update_contexts-meta_if_example = update_contexts-meta_if stmt initial refl

full_char_code-code_point_to_string_example :
    full_char_code (code_point_to_string 0x1f600 ++ 33 ∷ []) ≡ some 0x1f600
full_char_code-code_point_to_string_example =
    full_char_code-code_point_to_string 0x1f600 (33 ∷ []) (omega arith) (inr (omega arith))

full_char_code_private_example :
    (full_char_code (code_point_to_string 0xe000) ≡ none)
    × (full_char_code (code_point_to_string 0xe000 ++ 97 ∷ []) ≡ some (97 + 0x202400))
    × (0x10ffff < 97 + 0x202400)
full_char_code_private_example = full_char_code_private 97 []

is_in_astral_set_iff_example :
    (is_in_astral_set 0x10005 (0 ∷ 11 ∷ 2 ∷ 25 ∷ []) ≡ true)
    ↔ InRanges 0x10005 0x10000 (0 ∷ 11 ∷ 2 ∷ 25 ∷ [])
is_in_astral_set_iff_example = is_in_astral_set_iff 0x10005 (0 ∷ 11 ∷ 2 ∷ 25 ∷ [])

is_identifier_char-start_example : is_identifier_char no_data 97 ≡ true
unfolding is_identifier_start
is_identifier_char-start_example = is_identifier_char-start no_data 97 refl

read_string-string_to_code_example :
    read_string sloppy 34 (at_start (string_to_code (97 ∷ 34 ∷ 10 ∷ []) ++ 59 ∷ []))
    ≡ ok (
      97 ∷ 34 ∷ 10 ∷ [],
      record {
        pos = 0 + length (string_to_code (97 ∷ 34 ∷ 10 ∷ []));
        rest = 59 ∷ [];
        cur_line = 1;
        line_start = 0;
      },
    )
read_string-string_to_code_example =
    read_string-string_to_code sloppy (97 ∷ 34 ∷ 10 ∷ []) 0 1 0 (59 ∷ []) (refl, (refl, (refl, tt)))

read_string_separator_example :
    read_string sloppy 34 (at_start (string_to_code (97 ∷ 0x2028 ∷ 98 ∷ []) ++ []))
    ≡ raise (some 0) unterminated_string
read_string_separator_example =
    read_string_separator sloppy (97 ∷ []) (98 ∷ []) 0x2028 0 1 0 [] (refl, tt) refl

read_string-ne-out_of_fuel_example :
    read_string sloppy 39 (at_start (39 ∷ 92 ∷ b'u' ∷ 97 ∷ [])) ≢ out_of_fuel
read_string-ne-out_of_fuel_example =
    read_string-ne-out_of_fuel sloppy 39 (at_start (39 ∷ 92 ∷ b'u' ∷ 97 ∷ []))

-- Up to the bracket: `ff`.
read_digits_lem_example :
    (n : ℕ) × (of_digits 16
        (take (read_digits 16 (b'f' ∷ b'f' ∷ b'}' ∷ []) 0).1 (b'f' ∷ b'f' ∷ b'}' ∷ []))
        0
      ≡ some n)
    × (((read_digits 16 (b'f' ∷ b'f' ∷ b'}' ∷ []) 0).0 ≡ n) ⊎ (exact < n))
    × Stops 16 (drop (read_digits 16 (b'f' ∷ b'f' ∷ b'}' ∷ []) 0).1 (b'f' ∷ b'f' ∷ b'}' ∷ []))
    × ((read_digits 16 (b'f' ∷ b'f' ∷ b'}' ∷ []) 0).1 ≤ 3)
read_digits_lem_example = read_digits_lem 16 (b'f' ∷ b'f' ∷ b'}' ∷ []) 0

-- Fourteen digits `F` are rounded up, and a very long run of digits is Infinity.
fourteen_digits : (read_digits 16 (replicate 14 b'F') 0).0 ≡ 16 ^ 14
unfolding read_digits digit_below digit_value next_total double scale_of
fourteen_digits = refl

many_digits : (read_digits 16 (replicate 257 b'F') 0).0 ≡ infinity
unfolding read_digits digit_below digit_value next_total double scale_of
many_digits = refl

read_number_int-exactly_example :
    (of_digits 16 (take 2 (52 ∷ 49 ∷ 125 ∷ [])) 0 ≡ some 65)
    × (65 < 16 ^ 2)
    × ((read_number_int 16 (exactly 2) (at_start (52 ∷ 49 ∷ 125 ∷ []))).1
        ≡ advance 2 (at_start (52 ∷ 49 ∷ 125 ∷ [])))
unfolding read_number_int read_digits digit_below digit_value next_total double
read_number_int-exactly_example =
    read_number_int-exactly 16 2 (at_start (52 ∷ 49 ∷ 125 ∷ [])) 65 (omega arith) refl

-- The word `if`, which is a keyword.
read_word-name_to_code_example :
    (read_word no_data (at_start (name_to_code (105 ∷ 102 ∷ []) true ++ 32 ∷ []))
      ≡ ok (
        name_token (105 ∷ 102 ∷ []) (name_to_code (105 ∷ 102 ∷ []) true),
        record {
          pos = 0 + length (name_to_code (105 ∷ 102 ∷ []) true);
          rest = 32 ∷ [];
          cur_line = 1;
          line_start = 0;
        },
      ))
    × ((t : TokType)
        → keyword_type (105 ∷ 102 ∷ []) ≡ some t
        → read_word no_data (at_start (105 ∷ 102 ∷ 32 ∷ []))
          ≡ ok (
            keyword_token t (105 ∷ 102 ∷ []),
            record { pos = 0 + 2; rest = 32 ∷ []; cur_line = 1; line_start = 0 },
          ))
unfolding is_identifier_char full_char_code
read_word-name_to_code_example =
    read_word-name_to_code no_data 0 1 0 (105 ∷ 102 ∷ []) (32 ∷ [])
      ((omega arith, refl), ((omega arith, refl), tt)) (omega arith) (refl, refl)

-- `+=>` and what follows it.
punctuation-Consumes_example : Consumes (at_front 0 1 0 (61 ∷ 62 ∷ 32 ∷ []) 43) (
    finished arrow
      (some (43 ∷ 61 ∷ 62 ∷ []))
      (record { pos = 0 + 3; rest = 32 ∷ []; cur_line = 1; line_start = 0 }))
unfolding punctuation operator_token read_token_plus_min finish_arrow
punctuation-Consumes_example =
    punctuation-Consumes script_mode 0 1 0 43 (61 ∷ 62 ∷ 32 ∷ [])
      (finished arrow (some (43 ∷ 61 ∷ 62 ∷ []))
        (record { pos = 0 + 3; rest = 32 ∷ []; cur_line = 1; line_start = 0 }))
      refl refl

-- `%=`, whose token is printed as `=`.
percent_eq :
    (finish_eq_or_type modulo (at_front 0 1 0 (61 ∷ 49 ∷ []) 37)
      ≡ finished eq (some (37 ∷ 61 ∷ [])) (advance 2 (at_front 0 1 0 (61 ∷ 49 ∷ []) 37)))
    × (to_code eq (some (37 ∷ 61 ∷ [])) ≡ 61 ∷ [])
unfolding finish_eq_or_type to_code punctuation_code
percent_eq = (refl, refl)
