-- ===== src/Printer/Comment.antt =====
-- The text that `printComment` of packages/tacotruck/src/printer/index.js makes of a block comment, and
-- how the lexer reads it back.
use tacoscript.Prelude.{
  ℕ, zero, suc, ◌+◌, ◌-◌, ◌≡◌, ◌∙◌, refl, sym, ap, Bool, true, false, false≢true, ◌&&◌, some, [],
  ◌∷◌, ◌++◌, map, if◌then◌else◌, ◌==◌, length, take, drop, arith, Bool-cases, inl, inr, if-true,
  if-false, subst, drop-append-length,
}
use tacoscript.Text.{Chars}
use tacoscript.Reader.{Result, ok}
use tacoscript.Indentation.{find_text, begins}
use tacoscript.Lexer.{State, Setup}
use tacoscript.Lexer.Comment.{
  closes, escape_terminator, unescape_terminator, canonical, block_value, skip_block_comment,
  skip_found, skip_block_to,
}
use tacoscript.Lexer.Comment.Escapes.{
  is_free-tail, closes-escape, escape-added, escape-kept, unescape-escape, escape-unescape, is_free,
}

-- The text of the token `blockCommentBody` for the value of a comment: the escapes of a JavaScript
-- comment are undone, and then those of a tacoscript comment made.
unfoldable pub comment_code : Chars → Chars
comment_code v = escape_terminator b'#' (unescape_terminator b'/' v)

-- The lexer's value of the text.
block_value-comment_code :
    (v : Chars) → is_free b'/' v ≡ true → block_value canonical (comment_code v) ≡ v
unfolding block_value comment_code
block_value-comment_code v h =
    ap (escape_terminator b'/') (unescape-escape b'#' (unescape_terminator b'/' v))
    ∙ escape-unescape b'/' v h

abbrev first_is : ℕ → Chars → Bool
first_is t [] = false
first_is t (d ∷ xs) = d == t

is_free-prepend :
    (t c : ℕ) (xs : Chars)
    → is_free t xs ≡ true
    → (c == 42 && first_is t xs) ≡ false
    → is_free t (c ∷ xs) ≡ true
unfolding is_free
is_free-prepend t c [] h k = refl
is_free-prepend t c (d ∷ xs) h k = if-false (c == 42 && d == t) _ _ k ∙ h

closes→first :
    (t c : ℕ) (xs : Chars)
    → (32 == t) ≡ false
    → (c == 42 && closes t xs) ≡ false
    → (c == 42 && first_is t xs) ≡ false
unfolding closes
closes→first t c [] n k = k
closes→first t c (d ∷ xs) n k = by_tests (c == 42) (d == 32) (d == t) _ k (λ a. ground arith)
  where
    by_tests :
        (a s e z : Bool)
        → (a && (if s then z else e)) ≡ false
        → (s ≡ true → e ≡ false)
        → (a && e) ≡ false
    by_tests false s e z k f = refl
    by_tests true true e z k f = f refl
    by_tests true false e z k f = k

and-false : (a b : Bool) → b ≡ false → (a && b) ≡ false
and-false true b h = h
and-false false b h = refl

-- Behind the escape, the terminator does not stand in the text.
escape-free : (t : ℕ) (cs : Chars) → (32 == t) ≡ false → is_free t (escape_terminator t cs) ≡ true
escape-free t [] n = unfold escape_terminator is_free in refl
escape-free t (c ∷ cs) n = elim (Bool-cases (c == 42 && closes t cs)) [
  | inl h ↦
      ap (is_free t) (escape-added t c cs h)
      ∙ is_free-prepend t c (32 ∷ escape_terminator t cs)
          (is_free-prepend t 32 (escape_terminator t cs) (escape-free t cs n) refl)
          (and-false (c == 42) (32 == t) n)
  | inr h ↦
      ap (is_free t) (escape-kept t c cs h)
      ∙ is_free-prepend t c (escape_terminator t cs) (escape-free t cs n) (
          closes→first t c (escape_terminator t cs) n
            (ap (λ b. c == 42 && b) (closes-escape t cs) ∙ h))
]

begins-pair :
    (t c d : ℕ) (cs : Chars)
    → (c == 42 && d == t) ≡ false
    → begins (42 ∷ t ∷ []) (c ∷ d ∷ cs) ≡ false
unfolding begins
begins-pair t c d cs h = ground (arith, h)

find_text-step :
    (p xs : Chars) (c i : ℕ)
    → begins p (c ∷ xs) ≡ false
    → find_text p (c ∷ xs) i ≡ find_text p xs (i + 1)
unfolding find_text
find_text-step p xs c i h = if-false (begins p (c ∷ xs)) _ _ h

is_free-head :
    (t c d : ℕ) (cs : Chars) → is_free t (c ∷ d ∷ cs) ≡ true → (c == 42 && d == t) ≡ false
unfolding is_free
is_free-head t c d cs h = elim (Bool-cases (c == 42 && d == t)) [
  | inl k ↦ absurd (false≢true (sym (if-true (c == 42 && d == t) _ _ k) ∙ h))
  | inr k ↦ k
]

some-add : (i n : ℕ) → some (i + 1 + n) ≡ some (i + suc n)
some-add i n = ap some (shift i n)
  where
    shift : (i n : ℕ) → i + 1 + n ≡ i + suc n
    shift i n = omega arith

-- The terminator is found behind a text in which it does not stand.
find_text-free :
    (t : ℕ) (body rest : Chars) (i : ℕ)
    → (42 == t) ≡ false
    → is_free t body ≡ true
    → find_text (42 ∷ t ∷ []) (body ++ 42 ∷ t ∷ rest) i ≡ some (i + length body)
find_text-free t [] rest i n h =
    unfold find_text in
    if-true (begins (42 ∷ t ∷ []) (42 ∷ t ∷ rest)) _ _ (unfold begins in ground arith)
    ∙ ap some (zero_added i)
  where
    zero_added : (i : ℕ) → i ≡ i + 0
    zero_added i = omega arith
find_text-free t (c ∷ []) rest i n h =
    find_text-step (42 ∷ t ∷ []) (42 ∷ t ∷ rest) c i
      (begins-pair t c 42 (t ∷ rest) (and-false (c == 42) (42 == t) n))
    ∙ find_text-free t [] rest (i + 1) n (unfold is_free in refl)
    ∙ some-add i 0
find_text-free t (c ∷ d ∷ cs) rest i n h =
    find_text-step (42 ∷ t ∷ []) (d ∷ cs ++ 42 ∷ t ∷ rest) c i
      (begins-pair t c d (cs ++ 42 ∷ t ∷ rest) (is_free-head t c d cs h))
    ∙ find_text-free t (d ∷ cs) rest (i + 1) n (is_free-tail t c (d ∷ cs) h)
    ∙ some-add i (length (d ∷ cs))

-- What `skipBlockComment` makes of a comment with this value.
abbrev pub ReadsAs : Chars → Chars → State → Result State → Type 0
ReadsAs v rest s r =
    (s' : State) × (r ≡ ok s')
    × (s'.cursor.rest ≡ rest)
    × (map (λ n. n.value) s'.comments ≡ v ∷ map (λ n. n.value) s.comments)

take-length-append : (xs ys : Chars) → take (length xs) (xs ++ ys) ≡ xs
take-length-append [] ys = refl
take-length-append (x ∷ xs) ys = ap (◌∷◌ x) (take-length-append xs ys)

drop-add : (m n : ℕ) (xs : Chars) → drop (m + n) xs ≡ drop n (drop m xs)
drop-add zero n xs = ap (λ k. drop k xs) (none_added n)
  where
    none_added : (n : ℕ) → 0 + n ≡ n
    none_added n = omega arith
drop-add (suc m) n [] = none_left (suc m + n) ∙ sym (none_left n)
  where
    none_left : (n : ℕ) → drop {A = ℕ} n [] ≡ []
    none_left zero = refl
    none_left (suc n) = refl
drop-add (suc m) n (x ∷ xs) = ap (λ k. drop k (x ∷ xs)) (suc_add m n) ∙ drop-add m n xs
  where
    suc_add : (m n : ℕ) → suc m + n ≡ suc (m + n)
    suc_add m n = omega arith

skip_block_to-ReadsAs :
    (e : Setup) (s : State) (body rest : Chars)
    → s.cursor.rest ≡ b'#' ∷ b'*' ∷ body ++ b'*' ∷ b'#' ∷ rest
    → drop s.cursor.pos e.input ≡ s.cursor.rest
    → ReadsAs
        (block_value canonical body)
        rest
        s
        (ok (skip_block_to e canonical (s.cursor.pos + 2 + length body) s))
skip_block_to-ReadsAs e s body rest h k = (
  _,
  refl,
  ap (λ cs. drop 2 (drop count (drop 2 cs))) h
      ∙ ap (λ n. drop 2 (drop n text)) counted
      ∙ ap (drop 2) (drop-append-length body (b'*' ∷ b'#' ∷ rest)),
  ap (λ cs. block_value canonical cs ∷ map (λ n. n.value) s.comments) raw,
)
  where
    text : Chars
    text = body ++ b'*' ∷ b'#' ∷ rest

    count : ℕ
    count = s.cursor.pos + 2 + length body - (s.cursor.pos + 2)

    counted : count ≡ length body
    counted = omega arith

    sliced : s.cursor.pos + 2 + count - (s.cursor.pos + 2) ≡ length body
    sliced = omega arith

    raw :
        take (s.cursor.pos + 2 + count - (s.cursor.pos + 2)) (drop (s.cursor.pos + 2) e.input)
        ≡ body
    raw =
        ap (λ n. take n (drop (s.cursor.pos + 2) e.input)) sliced
        ∙ ap (take (length body)) (drop-add s.cursor.pos 2 e.input ∙ ap (drop 2) (k ∙ h))
        ∙ take-length-append body (b'*' ∷ b'#' ∷ rest)

-- A block comment that is printed is read back: where the cursor stands at `#*`, the text that
-- `printComment` makes of the value, and `*#`, `skipBlockComment` ends behind it and adds a comment
-- node with that value, for every value in which `*/` does not stand. The cursor is in step with
-- the input.
pub skip_block_comment-comment_code :
    (e : Setup) (s : State) (v rest : Chars)
    → is_free b'/' v ≡ true
    → s.cursor.rest ≡ b'#' ∷ b'*' ∷ comment_code v ++ b'*' ∷ b'#' ∷ rest
    → drop s.cursor.pos e.input ≡ s.cursor.rest
    → ReadsAs v rest s (skip_block_comment e canonical s)
unfolding skip_block_comment
skip_block_comment-comment_code e s v rest f h k =
    subst (λ o. ReadsAs v rest s (skip_found e canonical s o)) (sym found)
      (subst
        (λ w.
          ReadsAs w rest s
            (skip_found e canonical s (some (s.cursor.pos + 2 + length (comment_code v)))))
        (block_value-comment_code v f) (skip_block_to-ReadsAs e s (comment_code v) rest h k))
  where
    found :
        find_text (b'*' ∷ b'#' ∷ []) (drop 2 s.cursor.rest) (s.cursor.pos + 2)
        ≡ some (s.cursor.pos + 2 + length (comment_code v))
    found =
        ap (λ cs. find_text (b'*' ∷ b'#' ∷ []) (drop 2 cs) (s.cursor.pos + 2)) h
        ∙ find_text-free b'#' (comment_code v) rest (s.cursor.pos + 2) refl
            (unfold comment_code in escape-free b'#' (unescape_terminator b'/' v) refl)
