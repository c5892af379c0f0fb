-- ===== src/Reader/Punct/Lossless.antt =====
-- What a punctuation token consumes is what its code says.
use tacoscript.Prelude.{
  ℕ, zero, suc, ◌+◌, ◌≡◌, refl, sym, Bool, true, false, not, ◌&&◌, Option, none, some, [], ◌∷◌,
  ◌++◌, if◌then◌else◌, ◌==◌, take, drop, get_elem?, arith,
}
use tacoscript.Token.{TokType, eq, arrow, equality, assign, bit_shift, relational}
use tacoscript.Text.{Chars, is_code}
use tacoscript.Reader.{Cursor, peek, advance}
use tacoscript.Reader.Punct.{
  Fetched, finished, finished_silently, line_comment, finish_arrow, finish_eq_or_type,
  finish_token_maybe_equality, read_token_dot, read_token_eq, read_token_excl, read_token_lt_gt,
  read_token_plus_min, read_token_semi, read_token_slash, read_token_star, sliced, silently_or,
}
use tacoscript.Reader.Punct.Code.{to_code, punctuation_code}

-- What the source text of the token is: its value, or else its code.
abbrev pub spelling : TokType → Option Chars → Chars
spelling type (some v) = v
spelling type none = to_code type none

-- Behind the token stands what is left of the text when the spelling is taken off; a line comment
-- leaves the cursor.
pub data Consumes (c : Cursor) : Fetched → Type 0 where
  spelled :
      {type : TokType} {val : Option Chars} {c' : Cursor}
      → c.rest ≡ spelling type val ++ c'.rest
      → Consumes c (finished type val c')
  spelled_silently :
      {type : TokType} {val : Option Chars} {c' : Cursor}
      → c.rest ≡ spelling type val ++ c'.rest
      → Consumes c (finished_silently type val c')
  unmoved : {n : ℕ} → Consumes c (line_comment n c)

take-drop : (n : ℕ) (cs : Chars) → cs ≡ take n cs ++ drop n cs
take-drop zero cs = refl
take-drop (suc n) [] = refl
take-drop (suc n) (c ∷ cs) = λ i. c ∷ take-drop n cs i

sliced-Consumes : (type : TokType) (n : ℕ) (c : Cursor) → Consumes c (sliced type n c)
sliced-Consumes type n c = spelled (take-drop n c.rest)

-- The character at the front of a text.
pub front : (cs : Chars) (x : ℕ) → is_code (get_elem? cs 0) x ≡ true → cs ≡ x ∷ drop 1 cs
front [] x e = absurd cc
front (c ∷ cs) x e = ground arith

pub Consumes-if :
    {c : Cursor} (b : Bool) {f g : Fetched}
    → (b ≡ true → Consumes c f)
    → (b ≡ false → Consumes c g)
    → Consumes c (if b then f else g)
Consumes-if true h k = h refl
Consumes-if false h k = k refl

and-both : (a b : Bool) → (a && b) ≡ true → (a ≡ true) × (b ≡ true)
and-both true b e = (refl, e)
and-both false b e = absurd cc

-- The two characters at the front of a text.
front-two :
    (cs : Chars) (x y : ℕ)
    → (is_code (get_elem? cs 0) x && is_code (get_elem? cs 1) y) ≡ true
    → cs ≡ x ∷ y ∷ drop 2 cs
front-two [] x y e = absurd cc
front-two (c ∷ []) x y e = absurd (ground arith)
front-two (c ∷ d ∷ cs) x y e = ground arith

module _ (p l s : ℕ) (cs : Chars) where
  abbrev pub at_front : ℕ → Cursor
  at_front ch = record { pos = p; rest = ch ∷ cs; cur_line = l; line_start = s }

  pub finish_arrow-Consumes : (len ch : ℕ) → Consumes (at_front ch) (finish_arrow len (at_front ch))
  unfolding finish_arrow
  finish_arrow-Consumes len ch =
      Consumes-if (is_code (peek (at_front ch) len) 62)
        (λ _. sliced-Consumes arrow (len + 1) (at_front ch))
        (λ _. sliced-Consumes arrow len (at_front ch))

  pub finish_eq_or_type-Consumes :
      (type : TokType) (ch : ℕ)
      → to_code type none ≡ ch ∷ []
      → Consumes (at_front ch) (finish_eq_or_type type (at_front ch))
  unfolding finish_eq_or_type
  finish_eq_or_type-Consumes type ch e =
      Consumes-if (is_code (get_elem? cs 0) 61) (λ _. sliced-Consumes eq 2 (at_front ch))
        (λ _. spelled (λ i. sym e i ++ cs))

  pub read_token_dot-Consumes : Consumes (at_front 46) (read_token_dot (at_front 46))
  unfolding read_token_dot to_code punctuation_code
  read_token_dot-Consumes =
      Consumes-if (is_code (get_elem? cs 0) 46 && is_code (get_elem? cs 1) 46)
        (λ e. spelled (λ i. 46 ∷ front-two cs 46 46 e i)) (λ _. spelled refl)

  pub maybe_equality-Consumes :
      (ch : ℕ) (g : Fetched)
      → Consumes (at_front ch) g
      → Consumes
          (at_front ch)
          (silently_or (finish_token_maybe_equality ch (advance 1 (at_front ch))) g)
  unfolding finish_token_maybe_equality
  maybe_equality-Consumes ch g h =
      by_cases (is_code (get_elem? cs 0) 61) (is_code (get_elem? cs 1) 61) (λ e. front cs 61 e)
        (λ e k. front-two cs 61 61 (rw (e, k) refl))
    where
      by_cases :
          (a b : Bool)
          → (a ≡ true → cs ≡ 61 ∷ drop 1 cs)
          → (a ≡ true → b ≡ true → cs ≡ 61 ∷ 61 ∷ drop 2 cs)
          → Consumes (at_front ch) (
              silently_or
                (if a
                  then some (
                      if b
                      then finished equality
                          (some (ch ∷ 61 ∷ 61 ∷ []))
                          (advance 2 (advance 1 (at_front ch)))
                      else finished equality
                          (some (ch ∷ 61 ∷ []))
                          (advance 1 (advance 1 (at_front ch))))
                  else none)
                g)
      by_cases true true h k = spelled_silently (λ i. ch ∷ k refl refl i)
      by_cases true false h k = spelled_silently (λ i. ch ∷ h refl i)
      by_cases false b h' k = h

  pub read_token_eq-Consumes : Consumes (at_front 61) (read_token_eq (at_front 61))
  unfolding read_token_eq
  read_token_eq-Consumes =
      Consumes-if (is_code (get_elem? cs 0) 62) (λ _. finish_arrow-Consumes 2 61)
        (λ _. maybe_equality-Consumes 61 _ (spelled refl))

  pub read_token_excl-Consumes : Consumes (at_front 33) (read_token_excl (at_front 33))
  unfolding read_token_excl to_code punctuation_code
  read_token_excl-Consumes = maybe_equality-Consumes 33 _ (spelled refl)

  pub read_token_lt_gt-Consumes :
      (in_module : Bool) (ch : ℕ)
      → Consumes (at_front ch) (read_token_lt_gt in_module ch (at_front ch))
  unfolding read_token_lt_gt
  read_token_lt_gt-Consumes in_module ch =
      Consumes-if (is_code (get_elem? cs 0) ch)
        (λ _.
          Consumes-if (is_code (peek (at_front ch) (size ch)) 61)
            (λ _. sliced-Consumes assign (size ch + 1) (at_front ch))
            (λ _. sliced-Consumes bit_shift (size ch) (at_front ch)))
        (λ _.
          Consumes-if
            (not in_module
              && is_code (get_elem? cs 0) 33
              && ch == 60
              && is_code (get_elem? cs 1) 45
              && is_code (get_elem? cs 2) 45)
            (λ _. unmoved)
            (λ _.
              sliced-Consumes relational (if is_code (get_elem? cs 0) 61 then 2 else 1)
                (at_front ch)))
    where
      size : ℕ → ℕ
      size ch = if ch == 62 && is_code (get_elem? cs 1) 62 then 3 else 2

  pub read_token_semi-Consumes : Consumes (at_front 59) (read_token_semi (at_front 59))
  unfolding read_token_semi to_code punctuation_code
  read_token_semi-Consumes =
      Consumes-if (is_code (get_elem? cs 0) 59) (λ e. spelled (λ i. 59 ∷ front cs 59 e i))
        (λ _. spelled refl)

  pub read_token_slash-Consumes : Consumes (at_front 47) (read_token_slash (at_front 47))
  unfolding read_token_slash
  read_token_slash-Consumes =
      Consumes-if (is_code (get_elem? cs 0) 61) (λ e. spelled (λ i. 47 ∷ front cs 61 e i))
        (λ _. spelled refl)

  pub read_token_star-Consumes : Consumes (at_front 42) (read_token_star (at_front 42))
  unfolding read_token_star to_code punctuation_code
  read_token_star-Consumes =
      Consumes-if (is_code (get_elem? cs 0) 61 && not (is_code (get_elem? cs 1) 62))
        (λ _. sliced-Consumes eq 2 (at_front 42)) (λ _. spelled refl)

  pub read_token_plus-Consumes :
      (in_module after : Bool)
      → Consumes (at_front 43) (read_token_plus_min in_module after 43 (at_front 43))
  unfolding read_token_plus_min
  read_token_plus-Consumes in_module after =
      Consumes-if (is_code (get_elem? cs 0) 43)
        (λ e.
          Consumes-if
            (not in_module && is_code (get_elem? cs 0) 45 && is_code (get_elem? cs 1) 62 && after)
            (λ _. unmoved)
            (λ _. spelled (rw (no_minus (get_elem? cs 0) e) (λ i. 43 ∷ front cs 43 e i))))
        (λ _.
          Consumes-if (is_code (get_elem? cs 0) 61)
            (λ e.
              Consumes-if (is_code (get_elem? cs 1) 62) (λ _. finish_arrow-Consumes 3 43)
                (λ _. spelled (λ i. 43 ∷ front cs 61 e i)))
            (λ _.
              Consumes-if (is_code (get_elem? cs 0) 62) (λ _. finish_arrow-Consumes 2 43)
                (λ _. spelled refl)))
    where
      no_minus : (o : Option ℕ) → is_code o 43 ≡ true → is_code o 45 ≡ false
      no_minus none e = absurd cc
      no_minus (some d) e = ground arith

  pub read_token_minus-Consumes :
      (in_module after : Bool)
      → Consumes (at_front 45) (read_token_plus_min in_module after 45 (at_front 45))
  unfolding read_token_plus_min
  read_token_minus-Consumes in_module after =
      Consumes-if (is_code (get_elem? cs 0) 45)
        (λ e.
          Consumes-if
            (not in_module && is_code (get_elem? cs 0) 45 && is_code (get_elem? cs 1) 62 && after)
            (λ _. unmoved) (λ _. spelled (rw e (λ i. 45 ∷ front cs 45 e i))))
        (λ _.
          Consumes-if (is_code (get_elem? cs 0) 61) (λ e. spelled (λ i. 45 ∷ front cs 61 e i))
            (λ _.
              Consumes-if (is_code (get_elem? cs 0) 62) (λ _. finish_arrow-Consumes 2 45)
                (λ _. spelled refl)))
