-- ===== src/Examples/Lexing.antt =====
-- Runs of the lexer model at concrete inputs.
use tacoscript.Prelude.{◌≡◌, ◌≢◌, refl, true, false, Option, some, List, [], ◌∷◌, map, arith}
use tacoscript.Token.{TokType, name, newline, eof, indent, dedent}
use tacoscript.Token.Key.{◌===◌}
use tacoscript.Token.Conf.{type_of}
use tacoscript.Text.{Chars}
use tacoscript.Text.Utf16.{full_char_code}
use tacoscript.Text.Ident.{IdentifierData, is_identifier_start, is_identifier_char}
use tacoscript.Token.Keyword.{keyword_type}
use tacoscript.Context.{preserve_space}
use tacoscript.Indentation.{scan_loop, detect_round, is_comment_start}
use tacoscript.Reader.{Result, ok, ◌>>=◌, out_of_fuel}
use tacoscript.Lexer.{place_holder, State, Setup, init, Token, label}
use tacoscript.Lexer.Run.{read_next_token, next_token, finish, finish_token, read_tokens}
use tacoscript.Lexer.Stored.{InStep, in_step}
use tacoscript.Lexer.Reachable.{
  start, step, fetching, Reachable-InStep, read_next_token-ne-out_of_fuel,
}
use tacoscript.Lexer.Comment.{
  canonical, skip_block_comment, closes, escape_terminator, unescape_from,
}
use tacoscript.Lexer.Comment.Escapes.{is_free}
use tacoscript.Printer.Comment.{comment_code, ReadsAs, skip_block_comment-comment_code}
use tacoscript.Lexer.Joining.{Joined, finish_token-Joined}
use tacoscript.Lexer.Closing.Finish.{ReachesEnd, read_again, read_again-ReachesEnd}

abbrev ascii : IdentifierData
ascii = record {
  non_ascii_start = λ c. false;
  non_ascii_part = λ c. false;
  astral_start = [];
  astral_part = [];
}

abbrev setup : Chars → Setup
setup input = record {
  input = input;
  env = record { locations = false; strict = true };
  identifiers = ascii;
}

-- "a" in a line, and "b" in a block.
abbrev block : Setup
block = setup (97 ∷ 10 ∷ 32 ∷ 32 ∷ 98 ∷ [])

abbrev types_of : Result State → Result (List TokType)
types_of r = r >>= λ s. ok (map (λ t. t.type) s.tokens)

-- The tokens of the block, the last first.
lexes_block :
    types_of (read_again 5 block (init block))
    ≡ ok (eof ∷ dedent ∷ newline ∷ name ∷ newline ∷ indent ∷ name ∷ [])
unfolding read_next_token init preserve_space full_char_code is_identifier_start is_identifier_char
    keyword_type ◌===◌ scan_loop detect_round is_comment_start
lexes_block = refl

abbrev or_state : State → Result State → State
or_state d (ok s) = s
or_state d _ = d

-- The state behind the first token.
abbrev first : State
first = or_state (init block) (next_token block (init block))

first_lem : next_token block (init block) ≡ ok first
unfolding next_token init preserve_space full_char_code is_identifier_start is_identifier_char
    keyword_type ◌===◌
first_lem = refl

Reachable-InStep_example : InStep first
Reachable-InStep_example = Reachable-InStep block first (step start (fetching first_lem))

read_next_token-ne-out_of_fuel_example : read_next_token block first ≢ out_of_fuel
read_next_token-ne-out_of_fuel_example =
    read_next_token-ne-out_of_fuel block first (step start (fetching first_lem))

-- The state behind the tokens of the block, at the end of the input.
abbrev behind_block : State
behind_block = or_state (init block) (read_again 4 block (init block))

read_again-ReachesEnd_example : ReachesEnd behind_block.indents.indentation block behind_block
unfolding read_next_token init preserve_space full_char_code is_identifier_start is_identifier_char
    keyword_type ◌===◌ scan_loop detect_round is_comment_start
read_again-ReachesEnd_example = read_again-ReachesEnd block behind_block refl refl refl refl

-- "a", and ".b" in the next line.
abbrev chain : Setup
chain = setup (97 ∷ 10 ∷ 46 ∷ 98 ∷ [])

-- The state in which the line break is finished.
abbrev at_break : State
at_break = record (or_state (init chain) (read_again 1 chain (init chain))) {
  cursor = record { pos = 2; rest = 46 ∷ 98 ∷ []; cur_line = 2; line_start = 2 };
}

abbrev none_found : Token × State
none_found = (place_holder, at_break)

abbrev or_pair : Result (Token × State) → Token × State
or_pair (ok p) = p
or_pair _ = none_found

abbrev or_token : Result (Option Token × State) → Token × State
or_token (ok (some t, s)) = (t, s)
or_token _ = none_found

abbrev break_token : Token × State
break_token = or_pair (finish newline (label "newline") at_break)

abbrev dot_token : Token × State
dot_token = or_token (read_tokens 6 chain break_token.1)

finish_token-Joined_example :
    Joined dot_token.0 at_break
      (finish_token chain (read_tokens 6 chain) newline (label "newline") at_break)
unfolding read_next_token init finish preserve_space full_char_code is_identifier_start
    is_identifier_char keyword_type ◌===◌ type_of
finish_token-Joined_example =
    finish_token-Joined 6 chain at_break (label "newline") break_token.0 break_token.1 dot_token.0
      dot_token.1 (in_step refl (λ h. (refl, refl))) (omega arith, λ w. omega arith) refl refl refl

-- The comment with the value "a* /", which is printed "a*/".
abbrev commented : Setup
commented = setup (35 ∷ 42 ∷ 97 ∷ 42 ∷ 47 ∷ 42 ∷ 35 ∷ 10 ∷ [])

skip_block_comment-comment_code_example :
    ReadsAs
      (97 ∷ 42 ∷ 32 ∷ 47 ∷ [])
      (10 ∷ [])
      (init commented)
      (skip_block_comment commented canonical (init commented))
unfolding init comment_code escape_terminator unescape_from is_free closes
skip_block_comment-comment_code_example =
    skip_block_comment-comment_code commented (init commented) (97 ∷ 42 ∷ 32 ∷ 47 ∷ []) (10 ∷ [])
      refl refl refl
