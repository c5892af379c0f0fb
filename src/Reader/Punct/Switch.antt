-- ===== src/Reader/Punct/Switch.antt =====
-- The switch of `getTokenFromCode` consumes what the token spells, in every case of punctuation.
use tacoscript.Prelude.{
  ℕ, ◌≡◌, refl, sym, subst, ==_iff, Bool, true, false, ◌||◌, Option, none, some, [], ◌∷◌,
  if◌then◌else◌, ◌==◌, get_elem?, inl, inr, Bool-cases,
}
use tacoscript.Token.{
  paren_l, paren_r, comma, bracket_l, bracket_r, brace_l, brace_r, double_colon, colon, question,
  at, back_quote, modulo, bitwise_or, bitwise_and, bitwise_xor, bitwise_not,
}
use tacoscript.Text.{Chars, is_code, is_newline}
use tacoscript.Reader.{Cursor, peek, advance}
use tacoscript.Reader.Punct.{
  Fetched, finished, finish_eq_or_type, read_token_dot, read_token_eq, read_token_excl,
  read_token_plus_min, read_token_semi, read_token_slash, read_token_star, read_newline, Mode,
  punctuation, operator_token, plain, digit?,
}
use tacoscript.Reader.Punct.Code.{to_code, punctuation_code}
use tacoscript.Reader.Punct.Lossless.{
  Consumes, spelled, Consumes-if, front, at_front, finish_eq_or_type-Consumes,
  read_token_dot-Consumes, read_token_eq-Consumes, read_token_excl-Consumes,
  read_token_lt_gt-Consumes, read_token_semi-Consumes, read_token_slash-Consumes,
  read_token_star-Consumes, read_token_plus-Consumes, read_token_minus-Consumes,
}

-- The same of a case that may be left to the cases below.
data Consumes? (c : Cursor) : Option Fetched → Type 0 where
  left : Consumes? c none
  taken : {f : Fetched} → Consumes c f → Consumes? c (some f)

-- A case of the switch.
module _ (p l s code : ℕ) where
  case-Consumes? :
      (n : ℕ) (cs : Chars) (here : Cursor → Option Fetched) {rest : Option Fetched}
      → Consumes? (at_front p l s cs n) (here (at_front p l s cs n))
      → Consumes? (at_front p l s cs code) rest
      → Consumes?
          (at_front p l s cs code)
          (if code == n then here (at_front p l s cs code) else rest)
  case-Consumes? n cs here h k = elim (Bool-cases (code == n)) [
    | inl e ↦ rw e (
        subst (λ ch. Consumes? (at_front p l s cs ch) (here (at_front p l s cs ch)))
          (sym ((==_iff code n).0 e)) h)
    | inr e ↦ rw e k
  ]

  case2-Consumes? :
      (n o : ℕ) (cs : Chars) (here : ℕ → Cursor → Option Fetched) {rest : Option Fetched}
      → Consumes? (at_front p l s cs n) (here n (at_front p l s cs n))
      → Consumes? (at_front p l s cs o) (here o (at_front p l s cs o))
      → Consumes? (at_front p l s cs code) rest
      → Consumes?
          (at_front p l s cs code)
          (if code == n || code == o then here code (at_front p l s cs code) else rest)
  case2-Consumes? n o cs here h h' k = elim (Bool-cases (code == n)) [
    | inl e ↦ rw e (
        subst (λ ch. Consumes? (at_front p l s cs ch) (here ch (at_front p l s cs ch)))
          (sym ((==_iff code n).0 e)) h)
    | inr e ↦ rw e (elim (Bool-cases (code == o)) [
      | inl e' ↦ rw e' (
          subst (λ ch. Consumes? (at_front p l s cs ch) (here ch (at_front p l s cs ch)))
            (sym ((==_iff code o).0 e')) h')
      | inr e' ↦ rw e' k
    ])
  ]

either-Consumes? :
    {c : Cursor} (b : Bool) {x y : Option Fetched}
    → Consumes? c x
    → Consumes? c y
    → Consumes? c (if b then x else y)
either-Consumes? true h k = h
either-Consumes? false h k = k

unless-Consumes? :
    {c : Cursor} (b : Bool) (x : Option Fetched) {y : Option Fetched}
    → b ≡ false
    → Consumes? c y
    → Consumes? c (if b then x else y)
unless-Consumes? true x e h = absurd cc
unless-Consumes? false x e h = h

if-Consumes? :
    {c : Cursor} (b : Bool) {f : Fetched} → Consumes c f → Consumes? c (if b then none else some f)
if-Consumes? true h = left
if-Consumes? false h = taken h

module _ (m : Mode) (p l s code : ℕ) (cs : Chars) where
  operator_token-Consumes? :
      Consumes? (at_front p l s cs code) (operator_token m code (at_front p l s cs code))
  unfolding operator_token to_code punctuation_code
  operator_token-Consumes? =
      case-Consumes? p l s code 47 cs
        (λ c. if m.expr_allowed then none else some (read_token_slash c))
        (if-Consumes? m.expr_allowed (read_token_slash-Consumes p l s cs))
        (case-Consumes? p l s code 37 cs (λ c. some (finish_eq_or_type modulo c))
          (taken (finish_eq_or_type-Consumes p l s cs modulo 37 refl))
          (case-Consumes? p l s code 124 cs (λ c. some (finish_eq_or_type bitwise_or c))
            (taken (finish_eq_or_type-Consumes p l s cs bitwise_or 124 refl))
            (case-Consumes? p l s code 38 cs (λ c. some (finish_eq_or_type bitwise_and c))
              (taken (finish_eq_or_type-Consumes p l s cs bitwise_and 38 refl))
              (case-Consumes? p l s code 94 cs (λ c. some (finish_eq_or_type bitwise_xor c))
                (taken (finish_eq_or_type-Consumes p l s cs bitwise_xor 94 refl))
                (case-Consumes? p l s code 42 cs (λ c. some (read_token_star c))
                  (taken (read_token_star-Consumes p l s cs))
                  (case2-Consumes? p l s code 43 45 cs
                    (λ ch c. some (read_token_plus_min m.in_module m.after_line_break ch c))
                    (taken (read_token_plus-Consumes p l s cs m.in_module m.after_line_break))
                    (taken (read_token_minus-Consumes p l s cs m.in_module m.after_line_break))
                    (either-Consumes? (code == 60 || code == 62)
                      (taken (read_token_lt_gt-Consumes p l s cs m.in_module code))
                      (case-Consumes? p l s code 61 cs (λ c. some (read_token_eq c))
                        (taken (read_token_eq-Consumes p l s cs))
                        (case-Consumes? p l s code 126 cs (λ c. some (plain bitwise_not 1 c))
                          (taken (spelled refl)) left)))))))))

  not_a_break-Consumes? :
      is_newline code ≡ false
      → Consumes? (at_front p l s cs code) (punctuation m code (at_front p l s cs code))
  unfolding punctuation to_code punctuation_code
  not_a_break-Consumes? h =
      unless-Consumes? (is_newline code) (some (read_newline code (at_front p l s cs code))) h (
        case-Consumes? p l s code 46 cs
          (λ c. if digit? (peek c 1) then none else some (read_token_dot c))
          (if-Consumes? (digit? (get_elem? cs 0)) (read_token_dot-Consumes p l s cs))
          (case-Consumes? p l s code 40 cs (λ c. some (plain paren_l 1 c)) (taken (spelled refl))
            (case-Consumes? p l s code 41 cs (λ c. some (plain paren_r 1 c)) (taken (spelled refl))
              (case-Consumes? p l s code 44 cs (λ c. some (plain comma 1 c)) (taken (spelled refl))
                (case-Consumes? p l s code 91 cs (λ c. some (plain bracket_l 1 c))
                  (taken (spelled refl))
                  (case-Consumes? p l s code 93 cs (λ c. some (plain bracket_r 1 c))
                    (taken (spelled refl))
                    (case-Consumes? p l s code 123 cs (λ c. some (plain brace_l 1 c))
                      (taken (spelled refl))
                      (case-Consumes? p l s code 125 cs (λ c. some (plain brace_r 1 c))
                        (taken (spelled refl))
                        (case-Consumes? p l s code 59 cs (λ c. some (read_token_semi c))
                          (taken (read_token_semi-Consumes p l s cs))
                          (case-Consumes? p l s code 33 cs (λ c. some (read_token_excl c))
                            (taken (read_token_excl-Consumes p l s cs))
                            (case-Consumes? p l s code 58 cs
                              (λ c. some (
                                if is_code (peek c 1) 58
                                then finished double_colon (some (58 ∷ 58 ∷ [])) (advance 2 c)
                                else plain colon 1 c))
                              (taken (
                                Consumes-if (is_code (get_elem? cs 0) 58)
                                  (λ e. spelled (λ i. 58 ∷ front cs 58 e i)) (λ _. spelled refl)))
                              (case-Consumes? p l s code 63 cs (λ c. some (plain question 1 c))
                                (taken (spelled refl))
                                (case-Consumes? p l s code 64 cs (λ c. some (plain at 1 c))
                                  (taken (spelled refl))
                                  (case-Consumes? p l s code 96 cs
                                    (λ c. some (plain back_quote 1 c)) (taken (spelled refl))
                                    operator_token-Consumes?))))))))))))))

taken-Consumes :
    {c : Cursor} {o : Option Fetched} {f : Fetched} → Consumes? c o → o ≡ some f → Consumes c f
taken-Consumes left e = absurd cc
taken-Consumes (taken h) e = subst (Consumes _) (some-injective e) h
  where
    some-injective : {f g : Fetched} → some f ≡ some g → f ≡ g
    some-injective e = cc

-- Where `getTokenFromCode` reads punctuation, at a character that is no line break, the text from
-- the cursor on is the spelling of the token, its value or else its code, followed by the text
-- behind the new cursor; or a line comment begins, and the cursor has not moved.
pub punctuation-Consumes :
    (m : Mode) (p l s code : ℕ) (cs : Chars) (f : Fetched)
    → is_newline code ≡ false
    → punctuation m code (at_front p l s cs code) ≡ some f
    → Consumes (at_front p l s cs code) f
punctuation-Consumes m p l s code cs f h e =
    taken-Consumes (not_a_break-Consumes? m p l s code cs h) e
