-- ===== src/Lexer/Skip/Frame.antt =====
-- Skipping white space and comments ends, and changes nothing but the cursor, the tokens that are no
-- part of `tokens`, and the comments.
use tacoscript.Prelude.{
  ℕ, zero, suc, ◌+◌, ◌-◌, ◌≤◌, ◌<◌, ◌≡◌, ◌∙◌, refl, Bool, true, false, not, ◌&&◌, ◌||◌, Option,
  none, some, if◌then◌else◌, ◌==◌, ltb, length, length-drop, drop, arith, Bool-cases, ◌⊎◌, inl, inr,
}
use tacoscript.Token.Conf.{type_of}
use tacoscript.Text.{Chars, is_newline, is_newline?, is_code}
use tacoscript.Reader.{Cursor, peek, Result}
use tacoscript.Reader.Ends.{Ends, value, raised, Ends-if, Ends-bind, Ends-map}
use tacoscript.Indentation.{is_space}
use tacoscript.Indentation.Fuel.{get_elem?-lt}
use tacoscript.Lexer.{State, Setup}
use tacoscript.Lexer.Comment.{
  BlockKind, canonical, directive, commented, skip_line_comment, skip_block_comment, skip_found,
  skip_block_to,
}
use tacoscript.Lexer.Skip.{
  Skipped, space, line_comment, block_comment, token_start, store_whitespace, find_skipped,
  comment_at, skip_space, skip_round, skip_char, skip_rounds, skip_non_tokens, take_indentation,
  skip_indentation,
}

-- The state `s'` is `s` but for what white space may change; its cursor is not further back.
pub data Same (s s' : State) : Type 0 where
  same :
      s'.tokens ≡ s.tokens
      → s'.indents.indentation ≡ s.indents.indentation
      → s'.indents.next_indentation ≡ s.indents.next_indentation
      → s'.indents.indent_char_code ≡ s.indents.indent_char_code
      → s'.lex.type ≡ s.lex.type
      → s'.context ≡ s.context
      → s'.prev_lex_type ≡ s.prev_lex_type
      → length s'.cursor.rest ≤ length s.cursor.rest
      → Same s s'

pub Same_refl : (s : State) → Same s s
Same_refl s = same refl refl refl refl refl refl refl (omega arith)

pub Same_trans : {s t u : State} → Same s t → Same t u → Same s u
Same_trans (same a b c d e f x g) (same a' b' c' d' e' f' x' g') =
    same (a' ∙ a) (b' ∙ b) (c' ∙ c) (d' ∙ d) (e' ∙ e) (f' ∙ f) (x' ∙ x) (omega arith)

pub Same-le : {s s' : State} → Same s s' → length s'.cursor.rest ≤ length s.cursor.rest
Same-le (same a b c d e f x g) = g

store_whitespace-Same : (e : Setup) (i : ℕ) (s : State) → Same s (store_whitespace e i s)
store_whitespace-Same e i s = elim (Bool-cases (ltb i s.cursor.pos)) [
  | inl h ↦ rw h (same refl refl refl refl refl refl refl (omega arith))
  | inr h ↦ rw h (Same_refl s)
]

store_whitespace-cursor :
    (e : Setup) (i : ℕ) (s : State) → (store_whitespace e i s).cursor ≡ s.cursor
store_whitespace-cursor e i s = elim (Bool-cases (ltb i s.cursor.pos)) [
  | inl h ↦ rw h refl
  | inr h ↦ rw h refl
]

-- A comment moves the cursor, where there is a character.
pub skip_line_comment-le :
    (e : Setup) (n : ℕ) (s : State)
    → length (skip_line_comment e n s).cursor.rest ≤ length s.cursor.rest - n
unfolding skip_line_comment
skip_line_comment-le e n s =
    omega (arith, length-drop n s.cursor.rest, length-drop _ (drop n s.cursor.rest))

pub skip_line_comment-Same : (e : Setup) (n : ℕ) (s : State) → Same s (skip_line_comment e n s)
skip_line_comment-Same e n s =
    same (unfold skip_line_comment in refl) (unfold skip_line_comment in refl)
      (unfold skip_line_comment in refl) (unfold skip_line_comment in refl)
      (unfold skip_line_comment in refl) (unfold skip_line_comment in refl)
      (unfold skip_line_comment in refl) (omega (arith, skip_line_comment-le e n s))

-- Behind the first character of what is left, there is less.
data Past (s : State) (s' : State) : Type 0 where
  past : Same s s' → length s'.cursor.rest < length s.cursor.rest → Past s s'

Past-Same : {s t u : State} → Past s t → Same t u → Same s u
Past-Same (past p m) q = Same_trans p q

Past-lt : {s t : State} → Past s t → length t.cursor.rest < length s.cursor.rest
Past-lt (past p m) = m

Same-Past : {s t u : State} → Same s t → Past t u → Past s u
Same-Past p (past q m) = past (Same_trans p q) (omega (arith, Same-le p))

store-line-Past :
    (e : Setup) (i : ℕ) (s : State)
    → 0 < length s.cursor.rest
    → Past s (skip_line_comment e 1 (store_whitespace e i s))
store-line-Past e i s h =
    let w = store_whitespace-Same e i s in
    past (Same_trans w (skip_line_comment-Same e 1 (store_whitespace e i s)))
      (omega (arith, skip_line_comment-le e 1 (store_whitespace e i s), Same-le w))

drops-le : (k j n : ℕ) (xs : Chars) → length (drop k (drop j (drop n xs))) ≤ length xs - n
drops-le k j n xs =
    omega (arith, length-drop n xs, length-drop j (drop n xs), length-drop k (drop j (drop n xs)))

skip_block_to-Past :
    (e : Setup) (kind : BlockKind) (j : ℕ) (s : State)
    → 0 < length s.cursor.rest
    → Past s (skip_block_to e kind j s)
skip_block_to-Past e canonical j s h =
    past
      (same refl refl refl refl refl refl refl
        (omega (arith, drops-le 2 (j - (s.cursor.pos + 2)) 2 s.cursor.rest)))
      (omega (arith, drops-le 2 (j - (s.cursor.pos + 2)) 2 s.cursor.rest))
skip_block_to-Past e directive j s h =
    past
      (same refl refl refl refl refl refl refl
        (omega (arith, drops-le 2 (j - (s.cursor.pos + 2)) 2 s.cursor.rest)))
      (omega (arith, drops-le 2 (j - (s.cursor.pos + 2)) 2 s.cursor.rest))
skip_block_to-Past e commented j s h =
    past
      (same refl refl refl refl refl refl refl
        (omega (arith, drops-le 2 (j - (s.cursor.pos + 3)) 3 s.cursor.rest)))
      (omega (arith, drops-le 2 (j - (s.cursor.pos + 3)) 3 s.cursor.rest))

skip_found-Ends :
    (e : Setup) (kind : BlockKind) (s : State) (o : Option ℕ)
    → 0 < length s.cursor.rest
    → Ends (Past s) (skip_found e kind s o)
skip_found-Ends e kind s none h = raised
skip_found-Ends e kind s (some j) h = value (skip_block_to-Past e kind j s h)

store-block-Ends :
    (e : Setup) (kind : BlockKind) (i : ℕ) (s : State)
    → 0 < length s.cursor.rest
    → Ends (Past s) (skip_block_comment e kind (store_whitespace e i s))
unfolding skip_block_comment
store-block-Ends e kind i s h =
    let t = store_whitespace e i s in
    let w = store_whitespace-Same e i s in
    Ends-map (skip_found-Ends e kind t _ (rw (store_whitespace-cursor e i s) h))
      (λ u p. Same-Past w p)

-- What is found takes a character at least.
data Wide : Skipped → Type 0 where
  wide : {b : Bool} {n : ℕ} → 0 < n → Wide (space b n)
  a_line : Wide line_comment
  a_block : {kind : BlockKind} → Wide (block_comment kind)
  a_token : Wide token_start

Wide-if : (b : Bool) {x y : Skipped} → Wide x → Wide y → Wide (if b then x else y)
Wide-if true h k = h
Wide-if false h k = k

comment_at-Wide : (c : Cursor) → Wide (comment_at c)
unfolding comment_at
comment_at-Wide c = Wide-if (is_code (peek c 1) 42) a_block (
    Wide-if (is_code (peek c 1) 37) a_block (
      Wide-if (is_code (peek c 1) 35 && is_code (peek c 2) 35 && is_newline? (peek c 3)) a_block
        a_line))

find_skipped-Wide : (b : Bool) (ch : ℕ) (c : Cursor) → Wide (find_skipped b ch c)
unfolding find_skipped
find_skipped-Wide b ch c = Wide-if (ch == 92 && is_newline? (peek c 1)) (wide (ground arith)) (
    Wide-if ((not (is_newline ch) || b) && is_space ch) (wide (omega arith))
      (Wide-if (ch == 35) (comment_at-Wide c) a_token))

skip_space-Past :
    (b : Bool) (n : ℕ) (s : State) → 0 < n → 0 < length s.cursor.rest → Past s (skip_space b n s)
skip_space-Past true n s h k =
    past (same refl refl refl refl refl refl refl (omega (arith, length-drop n s.cursor.rest)))
      (omega (arith, length-drop n s.cursor.rest))
skip_space-Past false n s h k =
    past (same refl refl refl refl refl refl refl (omega (arith, length-drop n s.cursor.rest)))
      (omega (arith, length-drop n s.cursor.rest))

peek-lt : (c : Cursor) (ch : ℕ) → peek c 0 ≡ some ch → 0 < length c.rest
peek-lt c ch e = get_elem?-lt c.rest 0 ch e

module _ (e : Setup) (rest : ℕ → State → Result State) (s : State) where
  -- The rest of the loop ends from every state that is further on.
  abbrev RestEnds : Type 0
  RestEnds =
      (j : ℕ) (t : State) → length t.cursor.rest < length s.cursor.rest → Ends (Same t) (rest j t)

  behind-Past : {t : State} (j : ℕ) → RestEnds → Past s t → Ends (Same s) (rest j t)
  behind-Past j h p = Ends-map (h j _ (Past-lt p)) (λ u q. Past-Same p q)

  skip_round-Ends :
      (i : ℕ) (k : Skipped)
      → 0 < length s.cursor.rest
      → RestEnds
      → Wide k
      → Ends (Same s) (skip_round e rest i k s)
  skip_round-Ends i (space b n) l h (wide w) = behind-Past i h (skip_space-Past b n s w l)
  skip_round-Ends i line_comment l h w =
      behind-Past (skip_line_comment e 1 (store_whitespace e i s)).cursor.pos h
        (store-line-Past e i s l)
  skip_round-Ends i (block_comment kind) l h w =
      Ends-bind _ (store-block-Ends e kind i s l) (λ t p. behind-Past t.cursor.pos h p)
  skip_round-Ends i token_start l h w = value (store_whitespace-Same e i s)

  skip_char-Ends :
      (i : ℕ) (o : Option ℕ)
      → peek s.cursor 0 ≡ o
      → RestEnds
      → Ends (Same s) (skip_char e rest i s o)
  skip_char-Ends i none p h = value (store_whitespace-Same e i s)
  skip_char-Ends i (some ch) p h =
      skip_round-Ends i (find_skipped (type_of s.lex.type).continues_expr ch s.cursor)
        (peek-lt s.cursor ch p) h (find_skipped-Wide _ ch s.cursor)

skip_rounds-Ends :
    (fuel : ℕ) (e : Setup) (end_ i : ℕ) (s : State)
    → length s.cursor.rest < fuel
    → Ends (Same s) (skip_rounds fuel e end_ i s)
unfolding skip_rounds
skip_rounds-Ends zero e end_ i s h = absurd omega arith
skip_rounds-Ends (suc fuel) e end_ i s h =
    Ends-if (ltb s.cursor.pos end_)
      (λ b.
        skip_char-Ends e (skip_rounds fuel e end_) s i (peek s.cursor 0) refl
          (λ j t l. skip_rounds-Ends fuel e end_ j t (omega arith)))
      (λ b. value (store_whitespace-Same e i s))

pub skip_non_tokens-Ends :
    (e : Setup) (end_ : ℕ) (s : State) → Ends (Same s) (skip_non_tokens e end_ s)
unfolding skip_non_tokens
skip_non_tokens-Ends e end_ s =
    skip_rounds-Ends (length s.cursor.rest + 1) e end_ s.cursor.pos s (omega arith)

pub take_indentation-Same : (s : State) → Same s (take_indentation s)
take_indentation-Same s =
    by_tests (Bool-cases (ltb s.indents.indent_start s.indents.indent_end))
      (Bool-cases (ltb s.cursor.pos s.indents.indent_end))
  where
    by_tests :
        (ltb s.indents.indent_start s.indents.indent_end ≡ true)
          ⊎ (ltb s.indents.indent_start s.indents.indent_end ≡ false)
        → (ltb s.cursor.pos s.indents.indent_end ≡ true)
          ⊎ (ltb s.cursor.pos s.indents.indent_end ≡ false)
        → Same s (take_indentation s)
    by_tests (inl h) (inl k) =
        rw (h, k)
          (same refl refl refl refl refl refl refl
            (omega (arith, length-drop (s.indents.indent_end - s.cursor.pos) s.cursor.rest)))
    by_tests (inl h) (inr k) = rw (h, k) (same refl refl refl refl refl refl refl (omega arith))
    by_tests (inr h) (inl k) =
        rw (h, k)
          (same refl refl refl refl refl refl refl
            (omega (arith, length-drop (s.indents.indent_end - s.cursor.pos) s.cursor.rest)))
    by_tests (inr h) (inr k) = rw (h, k) (same refl refl refl refl refl refl refl (omega arith))

pub skip_indentation-Ends : (e : Setup) (s : State) → Ends (Same s) (skip_indentation e s)
unfolding skip_indentation
skip_indentation-Ends e s =
    Ends-bind _
      (Ends-if (ltb s.cursor.pos s.indents.indent_start)
        (λ h. skip_non_tokens-Ends e s.indents.indent_start s) (λ h. value (Same_refl s)))
      (λ t p. value (Same_trans p (take_indentation-Same t)))
