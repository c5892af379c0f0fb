-- ===== src/Reader/Punct/Fetch.antt =====
-- What `getTokenFromCode` finishes: no token of the layout but a line break, which moves the cursor.
use tacoscript.Prelude.{
  ℕ, ◌+◌, ◌≤◌, ◌<◌, ◌≡◌, refl, Bool, true, false, not, ◌&&◌, ◌||◌, Option, none, some, [], ◌∷◌,
  if◌then◌else◌, leb, ◌==◌, length, length-drop, arith,
}
use tacoscript.Token.{
  is_layout, TokType, newline, paren_l, paren_r, comma, bracket_l, bracket_r, brace_l, brace_r,
  double_colon, colon, question, at, back_quote, modulo, bitwise_or, bitwise_and, bitwise_xor,
  bitwise_not, arrow, eq, dot, ellipsis, equality, excl, assign, bit_shift, relational, inc_dec,
  plus_min, semi, doublesemi, slash, star,
}
use tacoscript.Text.{Chars, is_newline, is_code}
use tacoscript.Text.Ident.{IdentifierData}
use tacoscript.Reader.{Cursor, peek, advance, Result, ok, ◌>>=◌}
use tacoscript.Reader.Ends.{Ends, value, raised, Ends-if, Ends-bind}
use tacoscript.Reader.Quoted.Fuel.{length-advance}
use tacoscript.Reader.Number.{Number, read_number, read_radix_number}
use tacoscript.Reader.Number.Total.{read_number-Ends, read_radix_number-Ends}
use tacoscript.Reader.Total.{read_string-Ends, read_regexp-Ends}
use tacoscript.Reader.Punct.Regexp.{RegexpToken}
use tacoscript.Reader.Punct.{
  Fetched, finished, finished_silently, number, text, pattern, line_comment, finish_arrow,
  finish_eq_or_type, finish_token_maybe_equality, read_token_dot, read_token_eq, read_token_excl,
  read_token_lt_gt, read_token_plus_min, read_token_semi, read_token_slash, read_token_star,
  read_newline, Mode, operator_token, punctuation, literal, get_token_from_code, plain, digit?,
  silently_or, radix,
}

-- A token that is no part of the layout, a line break that moves the cursor from `n` characters
-- before the end, or a comment. The cursor is no further back.
pub data Fetches (n : ℕ) : Fetched → Type 0 where
  fetches_token :
      {t : TokType} {v : Option Chars} {c : Cursor}
      → is_layout t ≡ false
      → length c.rest ≤ n
      → Fetches n (finished t v c)
  fetches_silently :
      {t : TokType} {v : Option Chars} {c : Cursor}
      → is_layout t ≡ false
      → length c.rest ≤ n
      → Fetches n (finished_silently t v c)
  fetches_break :
      {v : Option Chars} {c : Cursor} → length c.rest < n → Fetches n (finished newline v c)
  fetches_number : {m : Number} {c : Cursor} → length c.rest ≤ n → Fetches n (number m c)
  fetches_text : {cs : Chars} {c : Cursor} → length c.rest ≤ n → Fetches n (text cs c)
  fetches_pattern : {r : RegexpToken} {c : Cursor} → length c.rest ≤ n → Fetches n (pattern r c)
  fetches_comment : {k : ℕ} {c : Cursor} → 0 < k → length c.rest ≡ n → Fetches n (line_comment k c)

-- The same of a case that may be left to the cases below.
data Fetches? (n : ℕ) : Option Fetched → Type 0 where
  left : Fetches? n none
  taken : {f : Fetched} → Fetches n f → Fetches? n (some f)

module _ {n : ℕ} where
  Fetches-if :
      (b : Bool) {x y : Fetched} → Fetches n x → Fetches n y → Fetches n (if b then x else y)
  Fetches-if true h k = h
  Fetches-if false h k = k

  Fetches?-if :
      (b : Bool) {x y : Option Fetched}
      → Fetches? n x
      → Fetches? n y
      → Fetches? n (if b then x else y)
  Fetches?-if true h k = h
  Fetches?-if false h k = k

  some-if :
      (b : Bool) {x y : Fetched}
      → Fetches n x
      → Fetches n y
      → Fetches? n (some (if b then x else y))
  some-if true h k = taken h
  some-if false h k = taken k

module _ (c : Cursor) where
  abbrev F : Fetched → Type 0
  F = Fetches (length c.rest)

  plain-Fetches : (t : TokType) (k : ℕ) → is_layout t ≡ false → F (plain t k c)
  plain-Fetches t k e = fetches_token e (length-advance k c)

  finished-Fetches :
      (t : TokType) (v : Option Chars) (k : ℕ)
      → is_layout t ≡ false
      → F (finished t v (advance k c))
  finished-Fetches t v k e = fetches_token e (length-advance k c)

  finish_arrow-Fetches : (k : ℕ) → F (finish_arrow k c)
  unfolding finish_arrow
  finish_arrow-Fetches k =
      Fetches-if (is_code (peek c k) 62) (finished-Fetches arrow _ (k + 1) refl)
        (finished-Fetches arrow _ k refl)

  finish_eq_or_type-Fetches : (t : TokType) → is_layout t ≡ false → F (finish_eq_or_type t c)
  unfolding finish_eq_or_type
  finish_eq_or_type-Fetches t e =
      Fetches-if (is_code (peek c 1) 61) (finished-Fetches eq _ 2 refl) (plain-Fetches t 1 e)

  read_token_dot-Fetches : F (read_token_dot c)
  unfolding read_token_dot
  read_token_dot-Fetches =
      Fetches-if (is_code (peek c 1) 46 && is_code (peek c 2) 46) (plain-Fetches ellipsis 3 refl)
        (plain-Fetches dot 1 refl)

  maybe_equality-Fetches :
      (prefix : ℕ) (g : Fetched)
      → F g
      → F (silently_or (finish_token_maybe_equality prefix (advance 1 c)) g)
  unfolding finish_token_maybe_equality
  maybe_equality-Fetches prefix g h =
      by_codes (is_code (peek (advance 1 c) 0) 61) (is_code (peek (advance 1 c) 1) 61)
    where
      further : (k : ℕ) → length (advance k (advance 1 c)).rest ≤ length c.rest
      further k = omega (arith, length-advance k (advance 1 c), length-advance 1 c)

      by_codes :
          (a b : Bool)
          → F (
              silently_or
                (if a
                  then some (
                      if b
                      then finished equality
                          (some (prefix ∷ 61 ∷ 61 ∷ []))
                          (advance 2 (advance 1 c))
                      else finished equality (some (prefix ∷ 61 ∷ [])) (advance 1 (advance 1 c)))
                  else none)
                g)
      by_codes true true = fetches_silently refl (further 2)
      by_codes true false = fetches_silently refl (further 1)
      by_codes false b = h

  read_token_eq-Fetches : F (read_token_eq c)
  unfolding read_token_eq
  read_token_eq-Fetches =
      Fetches-if (is_code (peek c 1) 62) (finish_arrow-Fetches 2)
        (maybe_equality-Fetches 61 _ (finished-Fetches eq _ 1 refl))

  read_token_excl-Fetches : F (read_token_excl c)
  unfolding read_token_excl
  read_token_excl-Fetches = maybe_equality-Fetches 33 _ (plain-Fetches excl 1 refl)

  read_token_lt_gt-Fetches : (b : Bool) (code : ℕ) → F (read_token_lt_gt b code c)
  unfolding read_token_lt_gt
  read_token_lt_gt-Fetches b code =
      let size = (if code == 62 && is_code (peek c 2) 62 then 3 else 2) in
      Fetches-if (is_code (peek c 1) code)
        (Fetches-if (is_code (peek c size) 61) (finished-Fetches assign _ (size + 1) refl)
          (finished-Fetches bit_shift _ size refl))
        (Fetches-if
          (not b
            && is_code (peek c 1) 33
            && code == 60
            && is_code (peek c 2) 45
            && is_code (peek c 3) 45)
          (fetches_comment (omega arith) (omega arith))
          (finished-Fetches relational _ (if is_code (peek c 1) 61 then 2 else 1) refl))

  read_token_plus_min-Fetches : (b a : Bool) (code : ℕ) → F (read_token_plus_min b a code c)
  unfolding read_token_plus_min
  read_token_plus_min-Fetches b a code =
      Fetches-if (is_code (peek c 1) code)
        (Fetches-if (not b && is_code (peek c 1) 45 && is_code (peek c 2) 62 && a)
          (fetches_comment (omega arith) (omega arith)) (finished-Fetches inc_dec _ 2 refl))
        (Fetches-if (is_code (peek c 1) 61)
          (Fetches-if (code == 43 && is_code (peek c 2) 62) (finish_arrow-Fetches 3)
            (finished-Fetches assign _ 2 refl))
          (Fetches-if (is_code (peek c 1) 62) (finish_arrow-Fetches 2)
            (finished-Fetches plus_min _ 1 refl)))

  read_token_semi-Fetches : F (read_token_semi c)
  unfolding read_token_semi
  read_token_semi-Fetches =
      Fetches-if (is_code (peek c 1) 59) (plain-Fetches doublesemi 2 refl)
        (plain-Fetches semi 1 refl)

  read_token_slash-Fetches : F (read_token_slash c)
  unfolding read_token_slash
  read_token_slash-Fetches =
      Fetches-if (is_code (peek c 1) 61) (finished-Fetches assign _ 2 refl)
        (finished-Fetches slash _ 1 refl)

  read_token_star-Fetches : F (read_token_star c)
  unfolding read_token_star
  read_token_star-Fetches =
      Fetches-if (is_code (peek c 1) 61 && not (is_code (peek c 2) 62))
        (finished-Fetches eq _ 2 refl) (plain-Fetches star 1 refl)

  read_newline-Fetches : (code : ℕ) → 0 < length c.rest → F (read_newline code c)
  unfolding read_newline
  read_newline-Fetches code h = fetches_break (moves (code == 13 && is_code (peek c 1) 10))
    where
      moves : (b : Bool) → length (advance (if b then 2 else 1) c).rest < length c.rest
      moves true = omega (arith, length-drop 2 c.rest)
      moves false = omega (arith, length-drop 1 c.rest)

  operator_token-Fetches? :
      (m : Mode) (code : ℕ) → Fetches? (length c.rest) (operator_token m code c)
  unfolding operator_token
  operator_token-Fetches? m code =
      Fetches?-if (code == 47) (Fetches?-if m.expr_allowed left (taken read_token_slash-Fetches)) (
        Fetches?-if (code == 37) (taken (finish_eq_or_type-Fetches modulo refl)) (
          Fetches?-if (code == 124) (taken (finish_eq_or_type-Fetches bitwise_or refl)) (
            Fetches?-if (code == 38) (taken (finish_eq_or_type-Fetches bitwise_and refl)) (
              Fetches?-if (code == 94) (taken (finish_eq_or_type-Fetches bitwise_xor refl)) (
                Fetches?-if (code == 42) (taken read_token_star-Fetches) (
                  Fetches?-if (code == 43 || code == 45)
                    (taken (read_token_plus_min-Fetches m.in_module m.after_line_break code))
                    (Fetches?-if (code == 60 || code == 62)
                      (taken (read_token_lt_gt-Fetches m.in_module code))
                      (Fetches?-if (code == 61) (taken read_token_eq-Fetches) (
                        Fetches?-if (code == 126) (taken (plain-Fetches bitwise_not 1 refl))
                          left)))))))))

  punctuation-Fetches? :
      (m : Mode) (code : ℕ) → 0 < length c.rest → Fetches? (length c.rest) (punctuation m code c)
  unfolding punctuation
  punctuation-Fetches? m code h =
      Fetches?-if (is_newline code) (taken (read_newline-Fetches code h)) (
        Fetches?-if (code == 46)
          (Fetches?-if (digit? (peek c 1)) left (taken read_token_dot-Fetches))
          (Fetches?-if (code == 40) (taken (plain-Fetches paren_l 1 refl)) (
            Fetches?-if (code == 41) (taken (plain-Fetches paren_r 1 refl)) (
              Fetches?-if (code == 44) (taken (plain-Fetches comma 1 refl)) (
                Fetches?-if (code == 91) (taken (plain-Fetches bracket_l 1 refl)) (
                  Fetches?-if (code == 93) (taken (plain-Fetches bracket_r 1 refl)) (
                    Fetches?-if (code == 123) (taken (plain-Fetches brace_l 1 refl)) (
                      Fetches?-if (code == 125) (taken (plain-Fetches brace_r 1 refl))
                        (behind_braces m code)))))))))
    where
      symbols :
          (m : Mode) (code : ℕ)
          → Fetches? (length c.rest) (
              if code == 63
              then some (plain question 1 c)
              else if code == 64
              then some (plain at 1 c)
              else if code == 96
              then some (plain back_quote 1 c)
              else operator_token m code c)
      symbols m code = Fetches?-if (code == 63) (taken (plain-Fetches question 1 refl)) (
          Fetches?-if (code == 64) (taken (plain-Fetches at 1 refl)) (
            Fetches?-if (code == 96) (taken (plain-Fetches back_quote 1 refl))
              (operator_token-Fetches? m code)))

      behind_braces :
          (m : Mode) (code : ℕ)
          → Fetches? (length c.rest) (
              if code == 59
              then some (read_token_semi c)
              else if code == 33
              then some (read_token_excl c)
              else if code == 58
              then some (
                  if is_code (peek c 1) 58
                  then finished double_colon (some (58 ∷ 58 ∷ [])) (advance 2 c)
                  else plain colon 1 c)
              else if code == 63
              then some (plain question 1 c)
              else if code == 64
              then some (plain at 1 c)
              else if code == 96
              then some (plain back_quote 1 c)
              else operator_token m code c)
      behind_braces m code = Fetches?-if (code == 59) (taken read_token_semi-Fetches) (
          Fetches?-if (code == 33) (taken read_token_excl-Fetches) (
            Fetches?-if (code == 58)
              (some-if (is_code (peek c 1) 58) (finished-Fetches double_colon _ 2 refl)
                (plain-Fetches colon 1 refl))
              (symbols m code)))

module _ (d : IdentifierData) (m : Mode) (code : ℕ) (c : Cursor) where
  decimal-Ends :
      (dotted : Bool)
      → Ends (Fetches (length c.rest)) (read_number d dotted c >>= λ (n, c'). ok (number n c'))
  decimal-Ends dotted = Ends-bind _ (read_number-Ends d dotted c) (λ r h. value (fetches_number h))

  radix-Ends :
      (o : Option ℕ)
      → Ends (Fetches (length c.rest)) (elim o as (λ _. Result Fetched) [
        | none ↦ read_number d false c >>= λ (n, c'). ok (number n c')
        | some r ↦ read_radix_number d r c >>= λ (n, c'). ok (number n c')
      ])
  radix-Ends none = decimal-Ends false
  radix-Ends (some r) = Ends-bind _ (read_radix_number-Ends d r c) (λ v h. value (fetches_number h))

  literal-Ends : Ends (Fetches (length c.rest)) (literal d m code c)
  unfolding literal
  literal-Ends =
      Ends-if (code == 46) (λ h. decimal-Ends true)
        (λ h.
          Ends-if (leb 48 code && leb code 57)
            (λ h. radix-Ends (if code == 48 then radix (peek c 1) else none))
            (λ h.
              Ends-if (code == 34 || code == 39)
                (λ h. Ends-bind _ (read_string-Ends m.env code c) (λ v k. value (fetches_text k)))
                (λ h.
                  Ends-if (code == 47)
                    (λ h.
                      Ends-bind _ (read_regexp-Ends d (advance 1 c))
                        (λ v k. value (fetches_pattern (omega (arith, length-advance 1 c)))))
                    (λ h. raised))))

  by_case-Ends :
      (o : Option Fetched)
      → Fetches? (length c.rest) o
      → Ends
          (Fetches (length c.rest))
          (elim o as (λ _. Result Fetched) [ some f ↦ ok f | none ↦ literal d m code c ])
  by_case-Ends none left = literal-Ends
  by_case-Ends (some f) (taken h) = value h

  -- The token that `getTokenFromCode` finishes.
  pub get_token_from_code-Ends :
      0 < length c.rest → Ends (Fetches (length c.rest)) (get_token_from_code d m code c)
  unfolding get_token_from_code
  get_token_from_code-Ends h = by_case-Ends (punctuation m code c) (punctuation-Fetches? c m code h)
