-- ===== src/Lexer/Reachable.antt =====
-- The states that the parser's calls reach: `nextToken`, `next` and `ensureLookahead`.
use tacoscript.Prelude.{
  ℕ, zero, suc, ◌+◌, ◌-◌, ◌≡◌, ◌≢◌, refl, Option, none, some, ltb, leb, length, arith,
}
use tacoscript.Token.{unknown}
use tacoscript.Token.Key.{◌===◌}
use tacoscript.Reader.{ok, out_of_fuel}
use tacoscript.Reader.Ends.{Ends, value, thrown, Ends-if, Ends-bind, Ends-ok, Ends-ne-out_of_fuel}
use tacoscript.Lexer.{State, Setup, Token, init}
use tacoscript.Lexer.Stored.{InStep, in_step, Read, read_token, read_nothing}
use tacoscript.Lexer.Invariant.{read_tokens-Ends}
use tacoscript.Lexer.Run.{
  read_next_token, read_next_tokens, token_at, place_cur, next_token, advance_token, place_next,
  set_next, ensure_lookahead,
}

module _ (e : Setup) where
  read_next_token-Ends : (s : State) → InStep s → Ends (Read s) (read_next_token e s)
  unfolding read_next_token
  read_next_token-Ends s b =
      read_tokens-Ends (length s.cursor.rest + 2) e s b (omega arith, λ w. omega arith)

  Read-InStep : {s : State} {q : Option Token × State} → Read s q → InStep q.1
  Read-InStep (read_token us y z b) = b
  Read-InStep (read_nothing b) = b

  read_next_tokens-Ends : (n : ℕ) (s : State) → InStep s → Ends InStep (read_next_tokens n e s)
  unfolding read_next_tokens
  read_next_tokens-Ends zero s b =
      Ends-bind _ (read_next_token-Ends s b) (λ q r. value (Read-InStep r))
  read_next_tokens-Ends (suc n) s b =
      Ends-bind _ (read_next_token-Ends s b) (λ q r. read_next_tokens-Ends n q.1 (Read-InStep r))

  place_cur-Ends : (s : State) (o : Option Token) → InStep s → Ends InStep (place_cur s o)
  place_cur-Ends s none b = thrown
  place_cur-Ends s (some t) (in_step c h) = value (in_step c h)

  next_token-Ends : (s : State) → InStep s → Ends InStep (next_token e s)
  unfolding next_token
  next_token-Ends s b =
      Ends-bind _
        (Ends-if (leb (length s.tokens) s.index)
          (λ k. Ends-bind _ (read_next_token-Ends s b) (λ q r. value (Read-InStep r)))
          (λ k. value b))
        (λ t k. place_cur-Ends t (token_at t.index t) k)

  advance_token-Ends : (s : State) → InStep s → Ends InStep (advance_token e s)
  unfolding advance_token
  advance_token-Ends s (in_step c h) =
      next_token-Ends (record s { index = s.index + 1 }) (in_step c h)

  set_next-Ends : (s : State) (o : Option Token) → InStep s → Ends InStep (set_next s o)
  set_next-Ends s none b = thrown
  set_next-Ends s (some t) (in_step c h) = value (in_step c h)

  place_next-Ends : (s : State) → InStep s → Ends InStep (place_next s)
  place_next-Ends s b =
      Ends-if (s.next.type === unknown) (λ k. set_next-Ends s (token_at (s.index + 1) s) b)
        (λ k. value b)

  ensure_lookahead-Ends :
      (count : ℕ) (s : State) → InStep s → Ends InStep (ensure_lookahead count e s)
  unfolding ensure_lookahead
  ensure_lookahead-Ends n s b =
      Ends-if (ltb 0 (s.index + n + 1 - length s.tokens))
        (λ k.
          Ends-bind _ (read_next_tokens-Ends (s.index + n + 1 - length s.tokens) s b)
            (λ t c. place_next-Ends t c))
        (λ k. value b)

-- A call of the parser that returns.
pub data Step (e : Setup) : State → State → Type 0 where
  fetching : {s s' : State} → next_token e s ≡ ok s' → Step e s s'
  advancing : {s s' : State} → advance_token e s ≡ ok s' → Step e s s'
  looking : {s s' : State} (count : ℕ) → ensure_lookahead count e s ≡ ok s' → Step e s s'

pub data Reachable (e : Setup) : State → Type 0 where
  start : Reachable e (init e)
  step : {s s' : State} → Reachable e s → Step e s s' → Reachable e s'

Step-InStep : (e : Setup) {s s' : State} → Step e s s' → InStep s → InStep s'
Step-InStep e (fetching h) b = Ends-ok (next_token-Ends e _ b) h
Step-InStep e (advancing h) b = Ends-ok (advance_token-Ends e _ b) h
Step-InStep e (looking n h) b = Ends-ok (ensure_lookahead-Ends e n _ b) h

init-InStep : (e : Setup) → InStep (init e)
unfolding init
init-InStep e = in_step refl (λ h. (refl, refl))

-- In every state that the parser's calls reach from the initial one, the `indent` tokens of the array
-- and the level are in step: there are as many of them as there are `dedent` tokens and open levels, and
-- there is no open level before an indentation character is known.
pub Reachable-InStep : (e : Setup) (s : State) → Reachable e s → InStep s
Reachable-InStep e s start = init-InStep e
Reachable-InStep e s (step h k) = Step-InStep e k (Reachable-InStep e _ h)

-- From every reachable state, on every input, `readNextToken` returns or throws an error of the
-- source: the fuel of the loop, two more than the characters that are left, never runs out.
pub read_next_token-ne-out_of_fuel :
    (e : Setup) (s : State) → Reachable e s → read_next_token e s ≢ out_of_fuel
read_next_token-ne-out_of_fuel e s h =
    Ends-ne-out_of_fuel (read_next_token-Ends e s (Reachable-InStep e s h))
