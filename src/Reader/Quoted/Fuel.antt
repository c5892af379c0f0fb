-- ===== src/Reader/Quoted/Fuel.antt =====
-- `readString` ends on every input: each round moves the cursor, so the fuel is enough.
use tacoscript.Prelude.{
  ℕ, zero, suc, ◌+◌, ◌≤◌, ◌<◌, ◌≢◌, Bool, true, false, ◌||◌, ◌&&◌, Option, none, some, [], ◌∷◌,
  ◌++◌, if◌then◌else◌, ltb, leb, ◌==◌, length, length-drop, drop, arith,
}
use tacoscript.Text.{Chars, is_newline, is_code}
use tacoscript.Reader.{
  Cursor, peek, advance, Env, Result, ok, raise, type_error, out_of_fuel, ◌>>=◌, Message,
}
use tacoscript.Reader.Ends.{Ends, value, raised, thrown, Within}
use tacoscript.Reader.Number.{Limit, read_number_int, read_digits, within, rejects}
use tacoscript.Reader.Escape.{
  read_escaped_char, read_escaped, read_code_point, read_hex_char, hex_result, read_octal,
  read_continuation, octal_text,
}
use tacoscript.Reader.Quoted.{read_string_from, read_string}

-- The run ends without lack of fuel, and no further back than at `n` characters before the end.
pub data Leaves {A : Type 0} (n : ℕ) : Result (A × Cursor) → Type 0 where
  leaves : {a : A} {c : Cursor} → length c.rest ≤ n → Leaves n (ok (a, c))
  leaves_raise : {p : Option ℕ} {m : Message} → Leaves n (raise p m)
  leaves_throw : Leaves n type_error

module _ {A : Type 0} {n : ℕ} where
  Leaves-ne-out_of_fuel : {r : Result (A × Cursor)} → Leaves n r → r ≢ out_of_fuel
  Leaves-ne-out_of_fuel (leaves h) = cc
  Leaves-ne-out_of_fuel leaves_raise = cc
  Leaves-ne-out_of_fuel leaves_throw = cc

  Leaves-le : {m : ℕ} {r : Result (A × Cursor)} → Leaves m r → m ≤ n → Leaves n r
  Leaves-le (leaves h) k = leaves (omega arith)
  Leaves-le leaves_raise k = leaves_raise
  Leaves-le leaves_throw k = leaves_throw

  Leaves-bind :
      {B : Type 0} {k : ℕ} {m : Result (B × Cursor)} (f : B × Cursor → Result (A × Cursor))
      → Leaves k m
      → ((b : B) (c : Cursor) → length c.rest ≤ k → Leaves n (f (b, c)))
      → Leaves n (m >>= f)
  Leaves-bind f (leaves {a} {c} h) g = g a c h
  Leaves-bind f leaves_raise g = leaves_raise
  Leaves-bind f leaves_throw g = leaves_throw

  Leaves-if :
      (b : Bool) {x y : Result (A × Cursor)}
      → Leaves n x
      → Leaves n y
      → Leaves n (if b then x else y)
  Leaves-if true h k = h
  Leaves-if false h k = k

pub Leaves-Ends : {A : Type 0} {n : ℕ} {r : Result (A × Cursor)} → Leaves n r → Ends (Within n) r
Leaves-Ends (leaves h) = value h
Leaves-Ends leaves_raise = raised
Leaves-Ends leaves_throw = thrown

pub length-advance : (n : ℕ) (c : Cursor) → length (advance n c).rest ≤ length c.rest
length-advance n c = omega (arith, length-drop n c.rest)

hex_result-Leaves :
    (b : Bool) (c : Cursor) (n k : ℕ)
    → Leaves (length c.rest) (hex_result (if b then none else some n, advance k c))
hex_result-Leaves true c n k = leaves_raise
hex_result-Leaves false c n k = leaves (length-advance k c)

read_hex_char-Leaves : (len : Limit) (c : Cursor) → Leaves (length c.rest) (read_hex_char len c)
unfolding read_hex_char read_number_int
read_hex_char-Leaves len c =
    let r = read_digits 16 (within len c.rest) 0 in hex_result-Leaves (rejects len r.1) c r.0 r.1

pub read_code_point-Leaves : (c : Cursor) → Leaves (length c.rest) (read_code_point c)
unfolding read_code_point
read_code_point-Leaves c =
    Leaves-if (is_code (peek c 0) 123)
      (Leaves-bind _ (read_hex_char-Leaves _ (advance 1 c)) (λ code c' h.
        Leaves-if (ltb 0x10ffff code) leaves_raise
          (leaves (omega (arith, length-advance 1 c', length-advance 1 c)))))
      (read_hex_char-Leaves _ c)

read_continuation-le :
    (env : Env) (ch : ℕ) (c : Cursor) → length (read_continuation env ch c).rest ≤ length c.rest
unfolding read_continuation
read_continuation-le env ch c = ground (arith, length-drop 1 c.rest)

read_octal-Leaves :
    (env : Env) (t : Bool) (c : Cursor) → Leaves (length c.rest) (read_octal env t c)
unfolding read_octal
read_octal-Leaves env t c =
    Leaves-if _ leaves_raise (leaves (length-advance (length (octal_text c.rest)) c))

read_escaped-Leaves :
    (env : Env) (t : Bool) (ch : ℕ) (c : Cursor) → Leaves (length c.rest) (read_escaped env t ch c)
unfolding read_escaped
read_escaped-Leaves env t ch c =
    let step = length-advance 1 c in
    Leaves-if (ch == b'n') (leaves step) (
      Leaves-if (ch == b'r') (leaves step) (
        Leaves-if (ch == b'x')
          (Leaves-bind _ (read_hex_char-Leaves _ (advance 1 c)) (λ _ _ h. leaves (omega arith)))
          (Leaves-if (ch == b'u')
            (Leaves-bind _ (read_code_point-Leaves (advance 1 c)) (λ _ _ h. leaves (omega arith)))
            (Leaves-if (ch == b't') (leaves step) (
              Leaves-if (ch == b'b') (leaves step) (
                Leaves-if (ch == b'v') (leaves step) (
                  Leaves-if (ch == b'f') (leaves step) (
                    Leaves-if (ch == 13 || ch == 10)
                      (leaves (omega (arith, read_continuation-le env ch (advance 1 c))))
                      (Leaves-if (leb 48 ch && leb ch 55) (read_octal-Leaves env t c)
                        (leaves step))))))))))

pub read_escaped_char-Leaves :
    (env : Env) (t : Bool) (p ch l s : ℕ) (cs : Chars)
    → Leaves
        (length cs)
        (read_escaped_char env t (record { pos = p; rest = ch ∷ cs; cur_line = l; line_start = s }))
unfolding read_escaped_char
read_escaped_char-Leaves env t p ch l s [] = leaves (omega arith)
read_escaped_char-Leaves env t p ch l s (d ∷ cs) =
    read_escaped-Leaves env t d
      (record { pos = p + 1; rest = d ∷ cs; cur_line = l; line_start = s })

-- The loop, with more fuel than characters.
pub read_string_from-Leaves :
    (fuel : ℕ) (env : Env) (quote start : ℕ) (out chunk : Chars) (p l s : ℕ) (cs : Chars)
    → length cs < fuel
    → Leaves (length cs) (
        read_string_from fuel env quote start out chunk
          (record { pos = p; rest = cs; cur_line = l; line_start = s }))
unfolding read_string_from
read_string_from-Leaves zero env quote start out chunk p l s cs h = absurd (omega arith)
read_string_from-Leaves (suc fuel) env quote start out chunk p l s [] h = leaves_raise
read_string_from-Leaves (suc fuel) env quote start out chunk p l s (ch ∷ cs) h =
    Leaves-if (ch == quote) (leaves (omega arith)) (
      Leaves-if (ch == 92)
        (Leaves-bind _ (read_escaped_char-Leaves env false p ch l s cs) (λ e c' k.
          Leaves-le
            (read_string_from-Leaves fuel env quote start ((out ++ chunk) ++ e) [] c'.pos
              c'.cur_line c'.line_start c'.rest (omega arith))
            (omega arith)))
        (Leaves-if (is_newline ch) leaves_raise (
          Leaves-le
            (read_string_from-Leaves fuel env quote start out (chunk ++ ch ∷ []) (p + 1) l s cs
              (omega arith))
            (omega arith))))

-- On every input, from every position and for either quote, `readString` returns or raises an
-- error: the model's fuel never runs out.
pub read_string-ne-out_of_fuel :
    (env : Env) (quote : ℕ) (c : Cursor) → read_string env quote c ≢ out_of_fuel
unfolding read_string
read_string-ne-out_of_fuel env quote c = Leaves-ne-out_of_fuel (
    read_string_from-Leaves (length c.rest + 1) env quote c.pos [] [] (c.pos + 1) c.cur_line
      c.line_start (drop 1 c.rest) (omega (arith, length-drop 1 c.rest)))
