-- ===== src/Reader/Total.antt =====
-- The readers of words, strings, regular expressions and templates end on every input, and leave
-- the cursor no further back.
use tacoscript.Prelude.{
  ℕ, zero, suc, ◌+◌, ◌≤◌, ◌<◌, ◌≡◌, refl, Bool, true, false, not, ◌&&◌, Option, none, some, [], ◌∷◌,
  ◌++◌, if◌then◌else◌, ◌==◌, length, length-drop, drop, take, arith,
}
use tacoscript.Token.Keyword.{keyword_type}
use tacoscript.Text.{Chars, is_code}
use tacoscript.Text.Utf16.{full_char_code, code_point_to_string}
use tacoscript.Text.Ident.{IdentifierData}
use tacoscript.Reader.{Cursor, peek, advance, Env, ok, raise, ◌>>=◌, invalid_regexp_flag}
use tacoscript.Reader.Ends.{Ends, value, raised, Ends-if, Ends-bind, Ends-map, Within}
use tacoscript.Reader.Quoted.{read_string}
use tacoscript.Reader.Quoted.Fuel.{
  Leaves-Ends, length-advance, read_code_point-Leaves, read_string_from-Leaves,
}
use tacoscript.Reader.Word.{
  WordToken, is_part, is_escape, may_stand, width, read_word_from, read_word_single, read_word,
  token_of,
}
use tacoscript.Reader.Punct.Regexp.{RegexpToken, read_regexp, to_result, pattern_from, valid_flags}

pub read_string-Ends :
    (env : Env) (quote : ℕ) (c : Cursor) → Ends (Within (length c.rest)) (read_string env quote c)
unfolding read_string
read_string-Ends env quote c =
    Ends-map
      (Leaves-Ends (
        read_string_from-Leaves (length c.rest + 1) env quote c.pos [] [] (c.pos + 1) c.cur_line
          c.line_start (drop 1 c.rest) (omega (arith, length-drop 1 c.rest))))
      (λ r h. omega (arith, length-drop 1 c.rest))

module _ (d : IdentifierData) where
  width-ge : (o : Option ℕ) → 0 < width d o
  width-ge none = omega arith
  width-ge (some ch) = ground arith

  read_word_from-Ends :
      (fuel : ℕ) (first esc : Bool) (word chunk : Chars) (p l s : ℕ) (cs : Chars)
      → length cs < fuel
      → Ends (Within (length cs)) (
          read_word_from d fuel first esc word chunk
            (record { pos = p; rest = cs; cur_line = l; line_start = s }))
  unfolding read_word_from
  read_word_from-Ends zero first esc word chunk p l s cs h = absurd (omega arith)
  read_word_from-Ends (suc fuel) first esc word chunk p l s [] h =
      unfold full_char_code in
      value
        {v = (
          record { word = word ++ chunk; contains_esc = esc },
          record { pos = p; rest = []; cur_line = l; line_start = s },
        )}
        (omega arith)
  read_word_from-Ends (suc fuel) first esc word chunk p l s (x ∷ cs) h =
      let c : Cursor = record { pos = p; rest = x ∷ cs; cur_line = l; line_start = s } in
      let ch = full_char_code (x ∷ cs) in
      let n = width d ch in
      Ends-if (is_part d ch)
        (λ b.
          Ends-map
            (read_word_from-Ends fuel false esc word (chunk ++ take n (x ∷ cs)) (p + n) l s
              (drop n (x ∷ cs)) (omega (arith, length-drop n (x ∷ cs), width-ge ch)))
            (λ r k. omega (arith, length-drop n (x ∷ cs))))
        (λ b.
          Ends-if (is_escape ch)
            (λ b'.
              Ends-if (first && is_code (peek c 1) 36)
                (λ k.
                  Ends-map
                    (read_word_from-Ends fuel false true (word ++ chunk) [] (p + 2) l s (drop 1 cs)
                      (omega (arith, length-drop 1 cs)))
                    (λ r k. omega (arith, length-drop 1 cs)))
                (λ k.
                  Ends-if (not (is_code (peek c 1) 117)) (λ k'. raised)
                    (λ k'. Ends-bind _ (Leaves-Ends (read_code_point-Leaves (advance 2 c))) (λ r m.
                      Ends-if (may_stand d first r.0)
                        (λ q.
                          Ends-map
                            (read_word_from-Ends fuel false true
                              ((word ++ chunk) ++ code_point_to_string r.0) [] r.1.pos r.1.cur_line
                              r.1.line_start r.1.rest (omega (arith, length-drop 1 cs)))
                            (λ v w. omega (arith, length-drop 1 cs)))
                        (λ q. raised)))))
            (λ b'. value (omega arith)))

  read_word_single-Ends :
      (b : Bool) (c : Cursor) → Ends (Within (length c.rest)) (read_word_single d b c)
  unfolding read_word_single
  read_word_single-Ends b c =
      Ends-bind _
        (read_word_from-Ends (length c.rest + 1) true false [] [] c.pos c.cur_line c.line_start
          c.rest (omega arith))
        (λ r h. Ends-if (not b && length r.0.word == 0) (λ k. raised) (λ k. value h))

  -- A word is a name, or has a type of the keyword table.
  abbrev pub WordWithin : ℕ → WordToken × Cursor → Type 0
  WordWithin n (t, c) =
      ((w : Chars) × (esc : Bool) × (raw : Chars) × (t ≡ token_of d (keyword_type w) esc raw w))
      × (length c.rest ≤ n)

  pub read_word-Ends : (c : Cursor) → Ends (WordWithin (length c.rest)) (read_word d c)
  unfolding read_word
  read_word-Ends c =
      Ends-bind _ (read_word_single-Ends false c)
        (λ r h. value ((r.0.word, r.0.contains_esc, _, refl), h))

  flags-Ends :
      (o : Option Chars) (c : Cursor)
      → Ends (Within {A = RegexpToken} (length c.rest)) (
          to_result o c.pos >>= λ p.
          (read_word_single d true (advance (length p + 1) c) >>= λ (w, c').
          (if valid_flags w.word
            then ok (record { pattern = p; flags = w.word }, c')
            else raise (some c.pos) invalid_regexp_flag)))
  flags-Ends none c = raised
  flags-Ends (some p) c =
      Ends-bind _ (read_word_single-Ends true (advance (length p + 1) c)) (λ r h.
        Ends-if (valid_flags r.0.word) (λ k. value (omega (arith, length-advance (length p + 1) c)))
          (λ k. raised))

  pub read_regexp-Ends : (c : Cursor) → Ends (Within (length c.rest)) (read_regexp d c)
  unfolding read_regexp
  read_regexp-Ends c = flags-Ends (pattern_from false false c.rest) c
