-- ===== src/Lexer.antt =====
-- The lexer of packages/horchata/src/lexer: `State` of state.js, `Token` of token.js, and how tokens are
-- stored. The modules below have the parts of lexer/index.js that work on the whole state.
pub mod Comment
pub mod Skip
pub mod Template
pub mod Fetch
pub mod Run
pub mod Fits
pub mod Stored
pub mod Invariant
pub mod Reachable
pub mod Joining
pub mod Closing
pub mod FromCode
use tacoscript.Prelude.{
  ℕ, ◌+◌, String, Bool, true, false, Option, none, some, List, [], ◌∷◌, length, ◌-◌, take, drop,
}
use tacoscript.Token.{TokType, eof, unknown}
use tacoscript.Text.{Chars}
use tacoscript.Text.Ident.{IdentifierData}
use tacoscript.Reader.{Cursor, Env, advance}
use tacoscript.Reader.Number.{Number}
use tacoscript.Reader.Punct.Regexp.{RegexpToken}
use tacoscript.Indentation.{IndentState}
use tacoscript.Context.{ContextState, initial}

-- The `value` of a token: the label of its type where none is given, a text, or an object.
pub data TokenValue : Type 0 where
  nothing : TokenValue
  label : String → TokenValue
  chars : Chars → TokenValue
  number_value : Number → TokenValue
  pattern_value : RegexpToken → TokenValue
  name_value : Chars → Chars → TokenValue
  code_value : Chars → TokenValue
  level_value : ℕ → TokenValue
  comment_value : Chars → Chars → Option Chars → ℕ → TokenValue

-- A `Token`, without `loc`. `place` is where it stands in `sourceElementsTokens`: each token is
-- pushed there once, so equal places are the same object. `index` is `none` for -1, and
-- `continued` is `meta.continuedPreviousLine`.
pub record Token : Type 0 where
  pub type : TokType
  pub value : TokenValue
  pub start : ℕ
  pub end_ : ℕ
  pub index : Option ℕ
  pub place : ℕ
  pub continued : Bool

-- `state.lex`: the token that is being read.
pub record Lex : Type 0 where
  pub type : TokType
  pub value : TokenValue
  pub start : ℕ
  pub end_ : ℕ
  pub index : ℕ

-- The node of a comment. `is_line` tells "CommentLine" from "CommentBlock".
pub record CommentNode : Type 0 where
  pub is_line : Bool
  pub value : Chars
  pub start : ℕ
  pub end_ : ℕ
  pub token_start : ℕ
  pub token_end : ℕ
  pub index : ℕ

-- `State`, as far as the lexer reads it. The arrays have their last element first. `indents` and
-- `context` are its parts that indentation.js and context.js work on; the position is that of
-- `cursor`.
pub record State : Type 0 where
  pub cursor : Cursor
  pub indents : IndentState
  pub context : ContextState
  pub lex : Lex
  pub prev_lex_type : TokType
  pub tokens : List Token
  pub source_elements : List Token
  pub comments : List CommentNode
  pub index : ℕ
  pub prev : Token
  pub cur : Token
  pub next : Token

-- What the lexer is given: the file's input, the options, and the tables of identifiers.
pub record Setup : Type 0 where
  pub input : Chars
  pub env : Env
  pub identifiers : IdentifierData

-- `new Token(tt.eof, null, 0, 0, ...)` of `State.init`, whose index is set to 0; it stands in no array
abbrev pub place_holder : Token
place_holder = record {
  type = eof;
  value = nothing;
  start = 0;
  end_ = 0;
  index = some 0;
  place = 0;
  continued = false;
}

-- `resetNext()`; a start and end of -1 are 0
abbrev pub null_token : Token
null_token = record place_holder { type = unknown; index = none }

-- `State.init(options, file)`. The position -1 is 0, and `eolPos`, which is not set, is a position
-- behind the input.
unfoldable pub init : Setup → State
init e = record {
  cursor = record { pos = 0; rest = e.input; cur_line = 1; line_start = 0 };
  indents = record {
    pos = 0;
    in_module = e.env.strict;
    eol = true;
    eol_pos = length e.input + 1;
    indentation = 0;
    next_indentation = 0;
    indent_string = none;
    indent_char_code = none;
    indent_repeat = 0;
    indent_start = 0;
    indent_end = 0;
    format = none;
  };
  context = initial;
  lex = record { type = eof; value = nothing; start = 0; end_ = 0; index = 0 };
  prev_lex_type = eof;
  tokens = [];
  source_elements = [];
  comments = [];
  index = 0;
  prev = place_holder;
  cur = place_holder;
  next = place_holder;
}

-- `endNonToken(new Token(type, value, start, end, ...))`
abbrev pub end_non_token : TokType → TokenValue → ℕ → ℕ → State → State
end_non_token type value start end_ s = record s {
  source_elements =
      record {
        type = type;
        value = value;
        start = start;
        end_ = end_;
        index = none;
        place = length s.source_elements;
        continued = false;
      }
      ∷ s.source_elements;
}

-- `++this.state.pos`, `n` times
abbrev pub move : ℕ → State → State
move n s = record s { cursor = advance n s.cursor }

-- `input.slice(start, this.state.pos)`
abbrev pub slice_from : Setup → ℕ → State → Chars
slice_from e start s = take (s.cursor.pos - start) (drop start e.input)
