-- ===== src/Lexer/Comment/Escapes.antt =====
-- The escapes of the terminator in the text of a block comment.
use tacoscript.Prelude.{
  ℕ, ◌≡◌, ◌∙◌, refl, sym, ap, Bool, true, false, false≢true, ◌&&◌, [], ◌∷◌, if◌then◌else◌, ◌==◌,
  ==_iff, arith, Bool-cases, inl, inr, if-true, if-false,
}
use tacoscript.Text.{Chars}
use tacoscript.Lexer.Comment.{
  closes, escape_terminator, unescape_from, unescape_terminator, space_first,
}

pub escape-added :
    (t c : ℕ) (cs : Chars)
    → (c == 42 && closes t cs) ≡ true
    → escape_terminator t (c ∷ cs) ≡ c ∷ 32 ∷ escape_terminator t cs
unfolding escape_terminator
escape-added t c cs h = if-true (c == 42 && closes t cs) _ _ h

pub escape-kept :
    (t c : ℕ) (cs : Chars)
    → (c == 42 && closes t cs) ≡ false
    → escape_terminator t (c ∷ cs) ≡ c ∷ escape_terminator t cs
unfolding escape_terminator
escape-kept t c cs h = if-false (c == 42 && closes t cs) _ _ h

star-only : (b c : Bool) → (b && c) ≡ true → b ≡ true
star-only true c h = refl
star-only false c h = absurd (false≢true h)

closes-cons :
    (t c : ℕ) (xs ys : Chars) → closes t xs ≡ closes t ys → closes t (c ∷ xs) ≡ closes t (c ∷ ys)
unfolding closes
closes-cons t c xs ys h = ap (λ b. if c == 32 then b else c == t) h

closes-other : (t c : ℕ) (xs : Chars) → (c == 32) ≡ false → closes t (c ∷ xs) ≡ (c == t)
unfolding closes
closes-other t c xs h = if-false (c == 32) _ _ h

star→not-space : (c : ℕ) → (c == 42) ≡ true → (c == 32) ≡ false
star→not-space c h = ground arith

-- Whether spaces and the character follow does not change.
pub closes-escape : (t : ℕ) (cs : Chars) → closes t (escape_terminator t cs) ≡ closes t cs
closes-escape t [] = unfold escape_terminator in refl
closes-escape t (c ∷ cs) = elim (Bool-cases (c == 42 && closes t cs)) [
  | inl h ↦
      let k = star→not-space c (star-only (c == 42) (closes t cs) h) in
      ap (closes t) (escape-added t c cs h) ∙ closes-other t c _ k ∙ sym (closes-other t c cs k)
  | inr h ↦
      ap (closes t) (escape-kept t c cs h)
      ∙ closes-cons t c (escape_terminator t cs) cs (closes-escape t cs)
]

-- The flag of `unescape_from` behind `c`.
abbrev drops : ℕ → ℕ → Chars → Bool
drops t c cs = c == 42 && space_first cs && closes t cs

unescape-cons :
    (t c : ℕ) (cs : Chars) → unescape_terminator t (c ∷ cs) ≡ c ∷ unescape_from t (drops t c cs) cs
unfolding unescape_from
unescape-cons t c cs = refl

unescape-drop : (t c : ℕ) (cs : Chars) → unescape_from t true (c ∷ cs) ≡ unescape_terminator t cs
unfolding unescape_from
unescape-drop t c cs = refl

and-true : (a b : Bool) → a ≡ true → b ≡ true → (a && b) ≡ true
and-true true b h k = k
and-true false b h k = absurd (false≢true h)

closes-space : (t : ℕ) (cs : Chars) → closes t (32 ∷ cs) ≡ closes t cs
unfolding closes
closes-space t cs = refl

drops-kept : (a s b : Bool) → (a && b) ≡ false → (a && s && b) ≡ false
drops-kept true true b h = h
drops-kept true false b h = refl
drops-kept false s b h = refl

drops-space : (a b : Bool) → (a && true && b) ≡ (a && b)
drops-space true b = refl
drops-space false b = refl

-- The escapes are undone.
pub unescape-escape : (t : ℕ) (cs : Chars) → unescape_terminator t (escape_terminator t cs) ≡ cs
unescape-escape t [] = unfold escape_terminator unescape_from in refl
unescape-escape t (c ∷ cs) = elim (Bool-cases (c == 42 && closes t cs)) [
  | inl h ↦
      ap (unescape_terminator t) (escape-added t c cs h)
      ∙ unescape-cons t c (32 ∷ escape_terminator t cs)
      ∙ ap (λ b. c ∷ unescape_from t b (32 ∷ escape_terminator t cs))
          (drops-space (c == 42) _
            ∙ ap (λ b. c == 42 && b) (closes-space t (escape_terminator t cs) ∙ closes-escape t cs)
            ∙ h)
      ∙ ap (λ xs. c ∷ xs) (unescape-drop t 32 (escape_terminator t cs) ∙ unescape-escape t cs)
  | inr h ↦
      ap (unescape_terminator t) (escape-kept t c cs h)
      ∙ unescape-cons t c (escape_terminator t cs)
      ∙ ap (λ b. c ∷ unescape_from t b (escape_terminator t cs))
          (drops-kept (c == 42) (space_first (escape_terminator t cs)) _
            (ap (λ b. c == 42 && b) (closes-escape t cs) ∙ h))
      ∙ ap (λ xs. c ∷ xs) (unescape-escape t cs)
]

-- Whether no `*` stands right before the character.
unfoldable pub is_free : ℕ → Chars → Bool
is_free t [] = true
is_free t (c ∷ []) = true
is_free t (c ∷ d ∷ cs) = let rest = is_free t (d ∷ cs) in if c == 42 && d == t then false else rest

is_free-cons :
    (t c d : ℕ) (cs : Chars)
    → (c == 42 && d == t) ≡ false
    → is_free t (c ∷ d ∷ cs) ≡ is_free t (d ∷ cs)
unfolding is_free
is_free-cons t c d cs h = if-false (c == 42 && d == t) _ _ h

pub is_free-tail : (t c : ℕ) (cs : Chars) → is_free t (c ∷ cs) ≡ true → is_free t cs ≡ true
unfolding is_free
is_free-tail t c [] h = refl
is_free-tail t c (d ∷ cs) h = elim (Bool-cases (c == 42 && d == t)) [
  | inl k ↦ absurd (false≢true (sym (if-true (c == 42 && d == t) _ _ k) ∙ h))
  | inr k ↦ sym (if-false (c == 42 && d == t) _ _ k) ∙ h
]

-- Where no `*` stands right before the character, the spaces before it are at least one.
free-spaced :
    (t c d : ℕ) (cs : Chars)
    → is_free t (c ∷ d ∷ cs) ≡ true
    → (c == 42 && closes t (d ∷ cs)) ≡ true
    → drops t c (d ∷ cs) ≡ true
unfolding is_free closes
free-spaced t c d cs h k = by_tests (c == 42) (d == 32) (closes t cs) (d == t) _ h k
  where
    by_tests :
        (a s z e r : Bool)
        → (if a && e then false else r) ≡ true
        → (a && (if s then z else e)) ≡ true
        → (a && s && (if s then z else e)) ≡ true
    by_tests false s z e r h k = k
    by_tests true true z e r h k = k
    by_tests true false z true r h k = h
    by_tests true false z false r h k = k

space→not-star : (c : ℕ) → (c == 32) ≡ true → (c == 42) ≡ false
space→not-star c h = ground arith

closes-unescape : (t : ℕ) (cs : Chars) → closes t (unescape_terminator t cs) ≡ closes t cs
closes-unescape t [] = unfold unescape_from in refl
closes-unescape t (c ∷ cs) = elim (Bool-cases (c == 32)) [
  | inl h ↦
      ap (closes t) (
        unescape-cons t c cs
        ∙ ap (λ b. c ∷ unescape_from t (b && space_first cs && closes t cs) cs)
            (space→not-star c h))
      ∙ closes-cons t c (unescape_terminator t cs) cs (closes-unescape t cs)
  | inr h ↦
      ap (closes t) (unescape-cons t c cs) ∙ closes-other t c _ h ∙ sym (closes-other t c cs h)
]

-- The flag is set at a `*` in front of a space, with the rest behind the space.
drops-parts : (a s b : Bool) → (a && s && b) ≡ true → (s ≡ true) × ((a && b) ≡ true)
drops-parts true true b h = (refl, h)
drops-parts true false b h = absurd (false≢true h)
drops-parts false s b h = absurd (false≢true h)

space-closes : (t d : ℕ) (cs : Chars) → (d == 32) ≡ true → closes t (d ∷ cs) ≡ closes t cs
unfolding closes
space-closes t d cs h = if-true (d == 32) _ _ h

-- What was unescaped is escaped again, where the terminator does not stand in the text.
pub escape-unescape :
    (t : ℕ) (cs : Chars) → is_free t cs ≡ true → escape_terminator t (unescape_terminator t cs) ≡ cs
escape-unescape t [] h = unfold escape_terminator unescape_from in refl
escape-unescape t (c ∷ []) h =
    ap (escape_terminator t) (unescape-cons t c [])
    ∙ unfold escape_terminator closes unescape_from in
      if-false (c == 42 && false) _ _ (and-false (c == 42))
  where
    and-false : (a : Bool) → (a && false) ≡ false
    and-false true = refl
    and-false false = refl
escape-unescape t (c ∷ d ∷ cs) h = elim (Bool-cases (drops t c (d ∷ cs))) [
  | inl k ↦
      let (s, a) = drops-parts (c == 42) (d == 32) (closes t (d ∷ cs)) k in
      ap (escape_terminator t) (
        unescape-cons t c (d ∷ cs)
        ∙ ap (λ b. c ∷ unescape_from t b (d ∷ cs)) k
        ∙ ap (λ xs. c ∷ xs) (unescape-drop t d cs))
      ∙ escape-added t c (unescape_terminator t cs)
          (ap (λ b. c == 42 && b) (closes-unescape t cs ∙ sym (space-closes t d cs s)) ∙ a)
      ∙ ap (λ xs. c ∷ 32 ∷ xs)
          (escape-unescape t cs (is_free-tail t d cs (is_free-tail t c (d ∷ cs) h)))
      ∙ ap (λ n. c ∷ n ∷ cs) (sym ((==_iff d 32).0 s))
  | inr k ↦
      ap (escape_terminator t)
        (unescape-cons t c (d ∷ cs) ∙ ap (λ b. c ∷ unescape_from t b (d ∷ cs)) k)
      ∙ escape-kept t c (unescape_terminator t (d ∷ cs))
          (ap (λ b. c == 42 && b) (closes-unescape t (d ∷ cs)) ∙ not_closing k)
      ∙ ap (λ xs. c ∷ xs) (escape-unescape t (d ∷ cs) (is_free-tail t c (d ∷ cs) h))
]
  where
    not_closing : drops t c (d ∷ cs) ≡ false → (c == 42 && closes t (d ∷ cs)) ≡ false
    not_closing k = elim (Bool-cases (c == 42 && closes t (d ∷ cs))) [
      | inl q ↦ absurd (false≢true (sym k ∙ free-spaced t c d cs h q))
      | inr q ↦ q
    ]
