-- ===== src/Printer/Separation.antt =====
-- The buffer keeps adjacent words apart.
use tacoscript.Prelude.{
  ◌+◌, ◌≡◌, refl, ap, sym, subst, ◌∙◌, ◌≢◌, ◌⊎◌, Bool, true, false, ◌||◌, none, some, [], ◌∷◌,
  Bool-cases, inl, inr, arith,
}
use tacoscript.Token.{
  TokType, name, num, string, newline, whitespace, mapping_mark, block_comment_body, template,
}
use tacoscript.Token.Key.{◌===◌, ===_iff}
use tacoscript.Token.Conf.{type_of}
use tacoscript.Printer.{code, PrintToken, is_keyword_type}
use tacoscript.Printer.Space.{
  Entry, missing, always, holds, before_keyword, plain_entry, entry_or, force_entry, force_keyword,
  needs_force_space,
}
use tacoscript.Printer.Buffer.{
  Buffer, token, is_mark, last, last_is_newline, is_newline_token, remember, start_token,
  insert_space, breaks, add_token, push,
}

-- A keyword or a name.
unfoldable pub is_word : TokType → Bool
is_word t = is_keyword_type t || t === name

word-name : (t : TokType) → is_word t ≡ true → is_keyword_type t ≡ false → t ≡ name
unfolding is_word
word-name t h e = (===_iff t name).0 (or-right (is_keyword_type t) (t === name) h e)
  where
    or-right : (a b : Bool) → (a || b) ≡ true → a ≡ false → b ≡ true
    or-right a b e f = ground arith

-- For the entry of a left type: a keyword has the table's entry for keywords, and a name its own.
after_word :
    (e : Entry) (l : TokType)
    → is_word l ≡ true
    → (l ≡ name → e ≡ always)
    → (e ≡ missing) ⊎ (e ≡ always)
    → holds (entry_or e (is_keyword_type l) always) ≡ true
after_word e l h k (inr a) = rw a refl
after_word e l h k (inl a) = elim (Bool-cases (is_keyword_type l)) [
  | inl b ↦ rw (a, b) refl
  | inr b ↦ rw (k (word-name l h b)) refl
]

before_keyword-cases : (l : TokType) → (before_keyword l ≡ missing) ⊎ (before_keyword l ≡ always)
before_keyword-cases name = inr refl
before_keyword-cases num = inr refl
before_keyword-cases string = inr refl
before_keyword-cases _ = inl refl

plain_entry-cases :
    (left right : PrintToken) (l : TokType)
    → (plain_entry left right name l ≡ missing) ⊎ (plain_entry left right name l ≡ always)
plain_entry-cases left right name = inr refl
plain_entry-cases left right _ = inl refl

-- Two words need a space between them, whatever their values.
words-need_space :
    (left right : PrintToken)
    → is_word left.type ≡ true
    → is_word right.type ≡ true
    → needs_force_space (some left) right ≡ true
words-need_space left right h k = elim (Bool-cases (is_keyword_type right.type)) [
  | inl e ↦
      unfold needs_force_space force_entry force_keyword in
      rw e (
        after_word (before_keyword left.type) left.type h (λ n. ap before_keyword n)
          (before_keyword-cases left.type))
  | inr e ↦
      unfold needs_force_space force_entry force_keyword in
      rw e (
        subst
          (λ r.
            holds (
              entry_or (plain_entry left right r left.type) (is_keyword_type left.type)
                (before_keyword r))
            ≡ true)
          (sym (word-name right.type k e))
          (after_word (plain_entry left right name left.type) left.type h
            (λ n. ap (plain_entry left right name) n) (plain_entry-cases left right left.type)))
]

-- A word's type is none of the types that are no words.
word-other : (t u : TokType) → is_word t ≡ true → is_word u ≡ false → (t === u) ≡ false
word-other t u h k = elim (Bool-cases (t === u)) [
  | inl e ↦ absurd (true≢false (sym h ∙ ap is_word ((===_iff t u).0 e) ∙ k))
  | inr e ↦ e
]
  where
    true≢false : true ≢ false
    true≢false = cc

not_words :
    (is_word block_comment_body ≡ false)
    × (is_word template ≡ false)
    × (is_word string ≡ false)
    × (is_word newline ≡ false)
    × (is_word mapping_mark ≡ false)
unfolding is_word is_keyword_type ◌===◌ type_of
not_words = (refl, refl, refl, refl, refl)

word-breaks : (t : PrintToken) → is_word t.type ≡ true → breaks t ≡ some 0
unfolding breaks
word-breaks t h =
    rw
      (
        word-other t.type block_comment_body h not_words.0,
        word-other t.type template h not_words.1,
        word-other t.type string h not_words.2,
      )
      refl

start_token-plain :
    (t : PrintToken) (b : Buffer)
    → (t.type === newline) ≡ false
    → last_is_newline b ≡ false
    → start_token t b ≡ remember b
unfolding start_token
start_token-plain t b h k = rw (h, k) refl

insert_space-forced :
    (t : PrintToken) (b : Buffer)
    → needs_force_space (last b) t ≡ true
    → insert_space t b ≡ record b { tokens = token whitespace (code (32 ∷ [])) ∷ b.tokens }
unfolding insert_space
insert_space-forced t b h = rw h refl

push-plain :
    (t : PrintToken) (b : Buffer)
    → is_mark t ≡ false
    → push t b ≡ add_token t (breaks t) (insert_space t (start_token t b))
unfolding push
push-plain t b h = rw h refl

last-remember : (b : Buffer) (t : PrintToken) → last b ≡ some t → last (remember b) ≡ some t
unfolding last
last-remember b t h = rw h refl

-- Where the last token of the buffer is a keyword or a name, and a keyword or a name is pushed,
-- compact format or not, the push succeeds and sets a space between the two.
pub push-words :
    (left right : PrintToken) (b : Buffer)
    → last b ≡ some left
    → is_word left.type ≡ true
    → is_word right.type ≡ true
    → push right b
      ≡ some (record b {
        tokens = right ∷ token whitespace (code (32 ∷ [])) ∷ b.tokens;
        cache = none;
        cur_line = b.cur_line + 0;
      })
push-words left right b e h k =
    push-plain right b (word-other right.type mapping_mark k not_words.4)
    ∙ ap (λ c. add_token right (breaks right) (insert_space right c))
        (start_token-plain right b (word-other right.type newline k not_words.3)
          (ap is_newline_token e ∙ word-other left.type newline h not_words.3))
    ∙ ap (add_token right (breaks right)) (
        insert_space-forced right (remember b) (
          ap (λ o. needs_force_space o right) (last-remember b left e)
          ∙ words-need_space left right h k))
    ∙ ap
        (λ o.
          add_token right o
            (record (remember b) { tokens = token whitespace (code (32 ∷ [])) ∷ b.tokens }))
        (word-breaks right k)
