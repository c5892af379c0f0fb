-- ===== src/Lexer/Run.antt =====
-- The loop of the lexer in packages/horchata/src/lexer/index.js: `readNextToken` with `finishToken` and
-- its look behind a line break, and what the parser calls: `next`, `nextToken`, `ensureLookahead`.
use tacoscript.Prelude.{
  ℕ, zero, suc, ◌+◌, ◌-◌, Bool, true, false, ◌&&◌, Option, none, some, List, [], ◌∷◌, if◌then◌else◌,
  ◌==◌, leb, ltb, length, take, drop, get_elem?,
}
use tacoscript.Token.{TokType, newline, indent, dedent, whitespace, unknown}
use tacoscript.Token.Key.{◌===◌}
use tacoscript.Token.Conf.{type_of}
use tacoscript.Reader.{Result, ok, raise, type_error, out_of_fuel, ◌>>=◌, assertion_failed}
use tacoscript.Context.{ContextState, update_context}
use tacoscript.Lexer.{State, Setup, Token, TokenValue, code_value, null_token}
use tacoscript.Lexer.Comment.{skip_line_comment}
use tacoscript.Lexer.Skip.{skip_non_tokens}
use tacoscript.Lexer.Fetch.{Next, finishing, commenting, stopping, next_token_of}

-- `finishTokenLex(type, val)`
abbrev pub finish_token_lex : TokType → TokenValue → State → State
finish_token_lex type val s = record s {
  lex = record {
    type = type;
    value = val;
    start = s.lex.start;
    end_ = s.cursor.pos;
    index = length s.tokens;
  };
}

-- The new level: up by one at `indent`, down by one at `dedent`.
abbrev pub level_behind : TokType → ℕ → ℕ
level_behind indent n = n + 1
level_behind dedent n = n - 1
level_behind _ n = n

-- `Token.fromState(this.state.lex)`
abbrev pub from_lex : State → Token
from_lex s = record {
  type = s.lex.type;
  value = s.lex.value;
  start = s.lex.start;
  end_ = s.lex.end_;
  index = some s.lex.index;
  place = length s.source_elements;
  continued = false;
}

-- `endToken(token)`
abbrev pub end_token : Token → State → State
end_token t s = record s { tokens = t ∷ s.tokens; source_elements = t ∷ s.source_elements }

-- The level and the token, where the context is updated.
abbrev pub store_token : TokType → TokenValue → State → Option ContextState → Result (Token × State)
store_token type val s none = type_error
store_token type val s (some context) =
    let s₁ = record (finish_token_lex type val s) {
      context = context;
      indents = record s.indents { indentation = level_behind type s.indents.indentation };
    } in
    ok (from_lex s₁, end_token (from_lex s₁) s₁)

-- `finishToken(type, val)` up to `endToken`
unfoldable pub finish : TokType → TokenValue → State → Result (Token × State)
unfolding update_context
finish type val s = store_token type val s (update_context type s.lex.type s.context)

-- The token at the place becomes white space.
abbrev pub to_whitespace : Setup → Token → Token
to_whitespace e t = record t {
  type = whitespace;
  value = code_value (take (t.end_ - t.start) (drop t.start e.input));
}

unfoldable pub convert : Setup → ℕ → List Token → List Token
convert e place [] = []
convert e place (t ∷ ts) =
    let rest = convert e place ts in (if t.place == place then to_whitespace e t else t) ∷ rest

-- `this.assert(this.state.tokens.pop() === ...)`, twice: the tokens below, if the two on top are
-- these objects.
unfoldable pub pop_both : Token → Token → List Token → Option (List Token)
pop_both after_ token [] = none
pop_both after_ token (t ∷ []) = none
pop_both after_ token (t ∷ u ∷ ts) =
    if t.place == after_.place && u.place == token.place then some ts else none

-- A token that continues the line before the line break takes the place of the line break.
abbrev pub replace_newline :
    Setup → Token → Token → State → Option (List Token) → Result (Token × State)
replace_newline e token after_ s none = raise (some s.cursor.pos) assertion_failed
replace_newline e token after_ s (some ts) =
    let t = record after_ { continued = true } in
    ok (
      t,
      record s {
        tokens = t ∷ ts;
        source_elements = mark t (convert e token.place s.source_elements);
      },
    )
  where
    mark : Token → List Token → List Token
    mark t [] = []
    mark t (u ∷ us) = (if u.place == t.place then t else u) ∷ mark t us

-- Behind the look at the token after the line break `token`. Where there is none, its type cannot be
-- read.
abbrev pub join_line : Setup → Token → Option Token × State → Result (Token × State)
join_line e token (none, s) = type_error
join_line e token (some after_, s) =
    let joined = replace_newline e token after_ s (pop_both after_ token s.tokens) in
    if (type_of after_.type).continues_previous_line then joined else ok (token, s)

-- `finishToken(type, val)`, where `read` is `readNextToken`
unfoldable pub finish_token :
    Setup
    → (State → Result (Option Token × State))
    → TokType
    → TokenValue
    → State
    → Result (Token × State)
unfolding finish
finish_token e read type val s = finish type val s >>= λ (token, s').
    (let joined = (read s' >>= join_line e token) in
      if type === newline then joined else ok (token, s'))

abbrev pub returned : Bool → Token × State → Option Token × State
returned b (t, s) = ((if b then some t else none), s)

abbrev pub run_next :
    Setup → (State → Result (Option Token × State)) → Next → Result (Option Token × State)
run_next e read (finishing b type val s) = finish_token e read type val s >>= λ r. ok (returned b r)
run_next e read (commenting n s) =
    skip_non_tokens e (length e.input) (skip_line_comment e n s) >>= read
run_next e read (stopping s) = ok (none, s)

-- `readNextToken()`, with fuel
unfoldable pub read_tokens : ℕ → Setup → State → Result (Option Token × State)
unfolding next_token_of finish_token
read_tokens zero e s = out_of_fuel
read_tokens (suc fuel) e s = next_token_of e s >>= run_next e (read_tokens fuel e)

unfoldable pub read_next_token : Setup → State → Result (Option Token × State)
unfolding read_tokens
read_next_token e s = read_tokens (length s.cursor.rest + 2) e s

-- `readNextTokens(count)`, whose loop runs from `count` down to 0
unfoldable pub read_next_tokens : ℕ → Setup → State → Result State
unfolding read_next_token
read_next_tokens zero e s = read_next_token e s >>= λ (_, s'). ok s'
read_next_tokens (suc n) e s = read_next_token e s >>= λ (_, s'). read_next_tokens n e s'

-- `this.state.tokens[i]`; `undefined` is `none`
abbrev pub token_at : ℕ → State → Option Token
token_at i s =
    if ltb i (length s.tokens) then get_elem? s.tokens (length s.tokens - 1 - i) else none

-- `prev`, `cur` and `next` of the token at `index`. Where it is `undefined`, behind the `eof`, the
-- TypeError of the parser's next look at `cur.type` is thrown here.
abbrev pub place_cur : State → Option Token → Result State
place_cur s none = type_error
place_cur s (some t) =
    ok (record s { prev = s.cur; cur = t; next = or_null (token_at (s.index + 1) s) })
  where
    or_null : Option Token → Token
    or_null none = null_token
    or_null (some t) = t

-- `nextToken()`
unfoldable pub next_token : Setup → State → Result State
unfolding read_next_token
next_token e s =
    let read = (read_next_token e s >>= λ (_, s'). ok s') in
    (if leb (length s.tokens) s.index then read else ok s) >>= λ s'.
    place_cur s' (token_at s'.index s')

-- `next()`
unfoldable pub advance_token : Setup → State → Result State
unfolding next_token
advance_token e s = next_token e (record s { index = s.index + 1 })

-- The lookahead that was unknown; an `undefined` one fails like `cur`.
abbrev pub set_next : State → Option Token → Result State
set_next s none = type_error
set_next s (some t) = ok (record s { next = t })

abbrev pub place_next : State → Result State
place_next s = if s.next.type === unknown then set_next s (token_at (s.index + 1) s) else ok s

-- `ensureLookahead(count)`: `needed` is the index wanted less the last index that is read
unfoldable pub ensure_lookahead : ℕ → Setup → State → Result State
unfolding read_next_tokens
ensure_lookahead count e s =
    let needed = s.index + count + 1 - length s.tokens in
    let read = (read_next_tokens needed e s >>= place_next) in if ltb 0 needed then read else ok s
