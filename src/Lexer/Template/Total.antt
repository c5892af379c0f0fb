-- ===== src/Lexer/Template/Total.antt =====
-- `readTmplToken` ends on every input, and leaves the cursor no further back.
use tacoscript.Prelude.{
  ℕ, zero, suc, ◌+◌, ◌≤◌, ◌<◌, Bool, true, false, ◌&&◌, ◌||◌, [], ◌∷◌, ◌++◌, if◌then◌else◌, ◌==◌,
  length, length-drop, drop, arith,
}
use tacoscript.Text.{Chars, is_newline, is_code}
use tacoscript.Reader.{Cursor, peek, Env}
use tacoscript.Reader.Ends.{Ends, value, raised, Ends-if, Ends-bind, Ends-map, Within}
use tacoscript.Reader.Quoted.Fuel.{Leaves-Ends, length-advance, read_escaped_char-Leaves}
use tacoscript.Lexer.Template.{
  read_tmpl_from, TmplToken, tmpl_text, tmpl_brace, tmpl_end, read_tmpl_token,
}

read_tmpl_from-Ends :
    (fuel : ℕ) (env : Env) (out chunk : Chars) (p l s : ℕ) (cs : Chars)
    → length cs < fuel
    → Ends (Within (length cs)) (
        read_tmpl_from fuel env out chunk
          (record { pos = p; rest = cs; cur_line = l; line_start = s }))
unfolding read_tmpl_from
read_tmpl_from-Ends zero env out chunk p l s cs h = absurd (omega arith)
read_tmpl_from-Ends (suc fuel) env out chunk p l s [] h = raised
read_tmpl_from-Ends (suc fuel) env out chunk p l s (ch ∷ cs) h =
    let c : Cursor = record { pos = p; rest = ch ∷ cs; cur_line = l; line_start = s } in
    let k : ℕ = (if ch == 13 && is_code (peek c 1) 10 then 2 else 1) in
    Ends-if (ch == 96 || ch == 36 && is_code (peek c 1) 123) (λ e. value (omega arith))
      (λ e.
        Ends-if (ch == 92)
          (λ e. Ends-bind _ (Leaves-Ends (read_escaped_char-Leaves env true p ch l s cs)) (λ r m.
            Ends-map
              (read_tmpl_from-Ends fuel env ((out ++ chunk) ++ r.0) [] r.1.pos r.1.cur_line
                r.1.line_start r.1.rest (omega arith))
              (λ v w. omega arith)))
          (λ e.
            Ends-if (is_newline ch)
              (λ e.
                Ends-map
                  (read_tmpl_from-Ends fuel env
                    ((out ++ chunk) ++ (if ch == 13 then 10 else ch) ∷ []) [] (p + k) (l + 1)
                    (p + k) (drop k (ch ∷ cs))
                    (omega (arith, break-lt (ch == 13 && is_code (peek c 1) 10) ch cs)))
                  (λ v w. omega (arith, break-lt (ch == 13 && is_code (peek c 1) 10) ch cs)))
              (λ e.
                Ends-map
                  (read_tmpl_from-Ends fuel env out (chunk ++ ch ∷ []) (p + 1) l s cs (omega arith))
                  (λ v w. omega arith))))
  where
    break-lt :
        (b : Bool) (ch : ℕ) (cs : Chars) → length (drop (if b then 2 else 1) (ch ∷ cs)) ≤ length cs
    break-lt true ch cs = omega (arith, length-drop 1 cs)
    break-lt false ch cs = omega arith

-- The cursor of the token is no further back than `n` characters before the end.
pub data TmplWithin (n : ℕ) : TmplToken → Type 0 where
  a_text : {cs : Chars} {c : Cursor} → length c.rest ≤ n → TmplWithin n (tmpl_text cs c)
  a_brace : {c : Cursor} → length c.rest ≤ n → TmplWithin n (tmpl_brace c)
  a_close : {c : Cursor} → length c.rest ≤ n → TmplWithin n (tmpl_end c)

pub read_tmpl_token-Ends :
    (env : Env) (b : Bool) (c : Cursor)
    → Ends (TmplWithin (length c.rest)) (read_tmpl_token env b c)
unfolding read_tmpl_token
read_tmpl_token-Ends env b c =
    Ends-if (b && is_code (peek c 0) 36 && is_code (peek c 1) 123)
      (λ h. value (a_brace (length-advance 2 c)))
      (λ h.
        Ends-if (b && is_code (peek c 0) 96) (λ k. value (a_close (length-advance 1 c)))
          (λ k.
            Ends-bind _
              (read_tmpl_from-Ends (length c.rest + 1) env [] [] c.pos c.cur_line c.line_start
                c.rest (omega arith))
              (λ r m. value (a_text m))))
