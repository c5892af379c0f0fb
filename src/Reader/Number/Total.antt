-- ===== src/Reader/Number/Total.antt =====
-- The readers of numbers leave the cursor no further back.
use tacoscript.Prelude.{
  ℕ, ◌+◌, ◌-◌, ◌≤◌, Bool, true, false, not, ◌||◌, Option, none, some, if◌then◌else◌, ◌==◌, length,
  take, arith, Bool-cases, inl, inr,
}
use tacoscript.Text.{Chars, is_code}
use tacoscript.Text.Ident.{IdentifierData}
use tacoscript.Reader.{
  Cursor, peek, advance, Result, ok, raise, ◌>>=◌, invalid_number, expected_radix_number,
}
use tacoscript.Reader.Ends.{Ends, value, raised, Within, Ends-if, Ends-bind, Ends-map}
use tacoscript.Reader.Quoted.Fuel.{length-advance}
use tacoscript.Reader.Number.{
  Number, Limit, unlimited, read_number_int, read_digits, within, read_fraction, read_exponent,
  number_value, int, end_number, starts_identifier, read_radix_number, read_number_rest,
  read_number, has_8_or_9, is_octal_valid,
}

read_number_int-le :
    (radix : ℕ) (len : Limit) (c : Cursor)
    → length (read_number_int radix len c).1.rest ≤ length c.rest
unfolding read_number_int
read_number_int-le radix len c = length-advance (read_digits radix (within len c.rest) 0).1 c

read_fraction-le : (c : Cursor) → length (read_fraction c).1.rest ≤ length c.rest
unfolding read_fraction
read_fraction-le c = elim (Bool-cases (is_code (peek c 0) 46)) [
  | inl h ↦ rw h (omega (arith, read_number_int-le 10 unlimited (advance 1 c), length-advance 1 c))
  | inr h ↦ rw h (omega arith)
]

-- No exponent without digits, or one behind which no more is left.
abbrev Shorter : ℕ → Option (Bool × Cursor) → Type 0
Shorter n none = Unit
Shorter n (some (b, c)) = length c.rest ≤ n

Shorter-if :
    (n : ℕ) (b : Bool) (x y : Option (Bool × Cursor))
    → Shorter n x
    → Shorter n y
    → Shorter n (if b then x else y)
Shorter-if n true x y h k = h
Shorter-if n false x y h k = k

signed-le : (b : Bool) (c : Cursor) → length (if b then advance 1 c else c).rest ≤ length c.rest
signed-le true c = length-advance 1 c
signed-le false c = omega arith

exponent-Shorter :
    (o : Option ℕ) (c : Cursor) (n : ℕ)
    → length c.rest ≤ n
    → Shorter n (elim o as (λ _. Option (Bool × Cursor)) [ none ↦ none | some _ ↦ some (true, c) ])
exponent-Shorter none c n h = tt
exponent-Shorter (some v) c n h = h

read_exponent-Shorter : (c : Cursor) → Shorter (length c.rest) (read_exponent c)
unfolding read_exponent
read_exponent-Shorter c =
    let c' = advance 1 c in
    let signed = is_code (peek c' 0) 43 || is_code (peek c' 0) 45 in
    let c'' : Cursor = (if signed then advance 1 c' else c') in
    Shorter-if (length c.rest) (is_code (peek c 0) 69 || is_code (peek c 0) 101) _ (some (false, c))
      (exponent-Shorter (read_number_int 10 unlimited c'').0 (read_number_int 10 unlimited c'').1
        (length c.rest)
        (omega
          (arith, read_number_int-le 10 unlimited c'', signed-le signed c', length-advance 1 c)))
      (omega arith)

number_value-Ends :
    (start : ℕ) (f o : Bool) (str : Chars) → Ends (λ n. Unit {0}) (number_value start f o str)
unfolding number_value
number_value-Ends start f o str =
    Ends-if f (λ h. value tt)
      (λ h.
        Ends-if (not o || length str == 1) (λ h. value tt)
          (λ h. Ends-if (has_8_or_9 str || not is_octal_valid) (λ h. raised) (λ h. value tt)))

module _ (d : IdentifierData) where
  end_number-Ends :
      {A : Type 0} (a : A) (c : Cursor) (n : ℕ)
      → length c.rest ≤ n
      → Ends (Within n) (end_number d a c)
  end_number-Ends a c n l = Ends-if (starts_identifier d c) (λ h. raised) (λ h. value l)

  radix_result-Ends :
      (start : ℕ) (o : Option ℕ) (c : Cursor) (n : ℕ)
      → length c.rest ≤ n
      → Ends (Within n) (elim o as (λ _. Result (Number × Cursor)) [
        | none ↦ raise (some (start + 2)) expected_radix_number
        | some v ↦ end_number d (int v) c
      ])
  radix_result-Ends start none c n l = raised
  radix_result-Ends start (some v) c n l = end_number-Ends (int v) c n l

  pub read_radix_number-Ends :
      (radix : ℕ) (c : Cursor) → Ends (Within (length c.rest)) (read_radix_number d radix c)
  unfolding read_radix_number
  read_radix_number-Ends radix c =
      radix_result-Ends c.pos (read_number_int radix unlimited (advance 2 c)).0
        (read_number_int radix unlimited (advance 2 c)).1 (length c.rest)
        (omega (arith, read_number_int-le radix unlimited (advance 2 c), length-advance 2 c))

  rest-Ends :
      (octal f : Bool) (start : Cursor) (o : Option (Bool × Cursor)) (n : ℕ)
      → Shorter n o
      → Ends (Within n) (elim o as (λ _. Result (Number × Cursor)) [
        | none ↦ raise (some start.pos) invalid_number
        | some (exponent, c₂) ↦ end_number d {A = Unit {0}} tt c₂ >>= λ (_, c₃).
            number_value start.pos (f || exponent) octal (take (c₃.pos - start.pos) start.rest)
            >>= λ n. ok (n, c₃)
      ])
  rest-Ends octal f start none n l = raised
  rest-Ends octal f start (some (x, c)) n l = Ends-bind _ (end_number-Ends tt c n l) (λ r k.
      Ends-bind _
        (number_value-Ends start.pos (f || x) octal (take (r.1.pos - start.pos) start.rest))
        (λ v u. value k))

  read_number_rest-Ends :
      (octal : Bool) (start c : Cursor)
      → Ends (Within (length c.rest)) (read_number_rest d octal start c)
  unfolding read_number_rest
  read_number_rest-Ends octal start c =
      let c₁ = (read_fraction c).1 in
      Ends-map
        (rest-Ends octal (read_fraction c).0 start (read_exponent c₁) (length c₁.rest)
          (read_exponent-Shorter c₁))
        (λ r h. omega (arith, read_fraction-le c))

  by_digits-Ends :
      (octal : Bool) (start : ℕ) (o : Option ℕ) (r : Result (Number × Cursor)) (n : ℕ)
      → Ends (Within n) r
      → Ends (Within n) (elim o as (λ _. Result (Number × Cursor)) [
        | none ↦ raise (some start) invalid_number
        | some _ ↦ r
      ])
  by_digits-Ends octal start none r n h = raised
  by_digits-Ends octal start (some v) r n h = h

  pub read_number-Ends :
      (dotted : Bool) (c : Cursor) → Ends (Within (length c.rest)) (read_number d dotted c)
  unfolding read_number
  read_number-Ends dotted c =
      let octal = is_code (peek c 0) 48 in
      let c' = (read_number_int 10 unlimited c).1 in
      Ends-if dotted (λ h. read_number_rest-Ends octal c c)
        (λ h. by_digits-Ends octal c.pos (read_number_int 10 unlimited c).0 _ (length c.rest) (
          Ends-map (read_number_rest-Ends octal c c')
            (λ r k. omega (arith, read_number_int-le 10 unlimited c))))
