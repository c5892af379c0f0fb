-- ===== src/Reader/Word/RoundTrip.antt =====
-- `readWord` reads back the code that is made for a name, keywords included.
use tacoscript.Prelude.{
  ℕ, zero, suc, ◌+◌, ◌-◌, ◌≤◌, ◌<◌, ◌≡◌, ◌∙◌, sym, ap, refl, Bool, true, false, ◌||◌, Option, none,
  some, [], ◌∷◌, ◌++◌, append_assoc, append-nil, leb, ◌==◌, length, length-append, take, All, arith,
  Bool-cases, inl, inr, ◌⊎◌,
}
use tacoscript.Token.{TokType}
use tacoscript.Token.Keyword.{keyword_type, is_strict_reserved}
use tacoscript.Text.{Chars}
use tacoscript.Text.Utf16.{full_char_code}
use tacoscript.Text.Ident.{IdentifierData, is_identifier_char}
use tacoscript.Reader.{Cursor, ok}
use tacoscript.Reader.Word.{
  Word, keyword_token, name_token, is_part, read_word_from, read_word_single, token_of, is_some,
  read_word, name_to_code, is_keyword, is_escape,
}

take-append-length : (w rest : Chars) → take (length (w ++ rest) - length rest) (w ++ rest) ≡ w
take-append-length w rest = ap (λ n. take n (w ++ rest)) (diff w rest) ∙ front w rest
  where
    diff : (w rest : Chars) → length (w ++ rest) - length rest ≡ length w
    diff w rest = omega (arith, length-append w rest)

    front : (w rest : Chars) → take (length w) (w ++ rest) ≡ w
    front [] rest = refl
    front (c ∷ w) rest = ap (◌∷◌ c) (front w rest)

module _ (d : IdentifierData) where
  -- A character of an identifier that is one code unit, below the surrogates or behind U+E000.
  abbrev pub Plain : ℕ → Type 0
  Plain c = ((c ≤ 0xd7ff) ⊎ ((0xe000 < c) × (c ≤ 0xffff))) × (is_identifier_char d c ≡ true)

  -- What ends a word: no identifier character and no backslash.
  abbrev pub Ends : Chars → Type 0
  Ends rest = (is_part d (full_char_code rest) ≡ false) × (is_escape (full_char_code rest) ≡ false)

  full_char_code_plain :
      (c : ℕ) (cs : Chars)
      → (c ≤ 0xd7ff) ⊎ ((0xe000 < c) × (c ≤ 0xffff))
      → full_char_code (c ∷ cs) ≡ some c
  unfolding full_char_code
  full_char_code_plain c cs h = ground arith

  leb_plain : (c : ℕ) → (c ≤ 0xd7ff) ⊎ ((0xe000 < c) × (c ≤ 0xffff)) → leb c 0xffff ≡ true
  leb_plain c h = ground arith

  module _ (fuel : ℕ) (first esc : Bool) (word chunk : Chars) (p l s : ℕ) where
    read_word_part :
        (c : ℕ) (cs : Chars)
        → Plain c
        → read_word_from d
            (suc fuel)
            first
            esc
            word
            chunk
            (record { pos = p; rest = c ∷ cs; cur_line = l; line_start = s })
          ≡ read_word_from d fuel false esc word
              (chunk ++ c ∷ [])
              (record { pos = p + 1; rest = cs; cur_line = l; line_start = s })
    unfolding read_word_from
    read_word_part c cs (h, k) = rw (full_char_code_plain c cs h, k, leb_plain c h) refl

    read_word_stop :
        (rest : Chars)
        → Ends rest
        → read_word_from d
            (suc fuel)
            first
            esc
            word
            chunk
            (record { pos = p; rest = rest; cur_line = l; line_start = s })
          ≡ ok (
            record { word = word ++ chunk; contains_esc = esc },
            record { pos = p; rest = rest; cur_line = l; line_start = s },
          )
    unfolding read_word_from
    read_word_stop rest (h, k) = rw (h, k) refl

  -- The loop over a run of plain characters, at whose end the word ends.
  read_word_from_lem :
      (fuel : ℕ) (first esc : Bool) (word chunk w rest : Chars) (p l s : ℕ)
      → All Plain w
      → Ends rest
      → length w < fuel
      → read_word_from d fuel first esc word chunk
          (record { pos = p; rest = w ++ rest; cur_line = l; line_start = s })
        ≡ ok (
          record { word = word ++ (chunk ++ w); contains_esc = esc },
          record { pos = p + length w; rest = rest; cur_line = l; line_start = s },
        )
  read_word_from_lem zero first esc word chunk w rest p l s h k lt = absurd (omega arith)
  read_word_from_lem (suc fuel) first esc word chunk [] rest p l s h k lt =
      read_word_stop fuel first esc word chunk p l s rest k ∙ λ i. ok (
        record { word = word ++ sym (append-nil chunk) i; contains_esc = esc },
        record { pos = p+0 i; rest = rest; cur_line = l; line_start = s },
      )
    where
      p+0 : p ≡ p + 0
      p+0 = omega arith
  read_word_from_lem (suc fuel) first esc word chunk (c ∷ w) rest p l s (h, hs) k lt =
      read_word_part fuel first esc word chunk p l s c (w ++ rest) h
      ∙ read_word_from_lem fuel false esc word (chunk ++ c ∷ []) w rest (p + 1) l s hs k
          (omega arith)
      ∙ λ i. ok (
        record { word = word ++ append_assoc chunk (c ∷ []) w i; contains_esc = esc },
        record { pos = one_by_one i; rest = rest; cur_line = l; line_start = s },
      )
    where
      one_by_one : p + 1 + length w ≡ p + suc (length w)
      one_by_one = omega arith

  -- The token of a word that the loop reads.
  finish :
      (c : Cursor) (w : Word) (c' : Cursor)
      → read_word_from d (length c.rest + 1) true false [] [] c ≡ ok (w, c')
      → 0 < length w.word
      → read_word d c
        ≡ ok (
          token_of d
              (keyword_type w.word)
              w.contains_esc
              (take (length c.rest - length c'.rest) c.rest)
              w.word,
          c',
        )
  unfolding read_word read_word_single
  finish c w c' e lt = rw (e, not_empty) refl
    where
      not_empty : (length w.word == 0) ≡ false
      not_empty = ground arith

  -- A word with an escape is a name, and so is one that is no keyword.
  token_of_escaped :
      (o : Option TokType) (raw w : Chars) → token_of d o true raw w ≡ name_token w raw
  token_of_escaped none raw w = refl
  token_of_escaped (some t) raw w = refl

  token_of_plain :
      (o : Option TokType) (raw w : Chars)
      → is_some o ≡ false
      → token_of d o false raw w ≡ name_token w raw
  token_of_plain none raw w e = refl
  token_of_plain (some t) raw w e = absurd cc

  module _ (p l s : ℕ) (rest : Chars) (w : Chars) (h : All Plain w) (k : Ends rest)
      (ne : 0 < length w) where
    abbrev at_word : Chars → Cursor
    at_word cs = record { pos = p; rest = cs; cur_line = l; line_start = s }

    skip_escape :
        read_word_from d
          (length (92 ∷ 36 ∷ w ++ rest) + 1)
          true
          false
          []
          []
          (at_word (92 ∷ 36 ∷ w ++ rest))
        ≡ read_word_from d
            (length (w ++ rest) + 2)
            false
            true
            []
            []
            (record { pos = p + 2; rest = w ++ rest; cur_line = l; line_start = s })
    unfolding read_word_from full_char_code is_identifier_char
    skip_escape = ap (λ f. read_word_from d f true false [] [] (at_word (92 ∷ 36 ∷ w ++ rest))) more
      where
        more : suc (suc (length (w ++ rest))) + 1 ≡ suc (length (w ++ rest) + 2)
        more = omega arith

    -- The token of a bare word.
    read_word_bare :
        read_word d (at_word (w ++ rest))
        ≡ ok (
          token_of d (keyword_type w) false w w,
          record { pos = p + length w; rest = rest; cur_line = l; line_start = s },
        )
    unfolding read_word read_word_single
    read_word_bare =
        finish (at_word (w ++ rest)) _ _
          (read_word_from_lem (length (w ++ rest) + 1) true false [] [] w rest p l s h k
            (omega (arith, length-append w rest)))
          ne
        ∙ ap
            (λ raw. ok (
              token_of d (keyword_type w) false raw w,
              record { pos = p + length w; rest = rest; cur_line = l; line_start = s },
            ))
            (take-append-length w rest)

    -- The token of a word behind `\$`.
    read_word_escaped :
        read_word d (at_word (92 ∷ 36 ∷ w ++ rest))
        ≡ ok (
          name_token w (92 ∷ 36 ∷ w),
          record { pos = p + suc (suc (length w)); rest = rest; cur_line = l; line_start = s },
        )
    unfolding read_word read_word_single
    read_word_escaped =
        finish (at_word (92 ∷ 36 ∷ w ++ rest)) _ _
          (skip_escape
            ∙ read_word_from_lem (length (w ++ rest) + 2) false true [] [] w rest (p + 2) l s h k
                (omega (arith, length-append w rest)))
          ne
        ∙ ap
            (λ raw. ok (
              token_of d (keyword_type w) true raw w,
              record { pos = p + 2 + length w; rest = rest; cur_line = l; line_start = s },
            ))
            (take-append-length (92 ∷ 36 ∷ w) rest)
        ∙ λ i. ok (
          token_of_escaped (keyword_type w) (92 ∷ 36 ∷ w) w i,
          record { pos = two_more i; rest = rest; cur_line = l; line_start = s },
        )
      where
        two_more : p + 2 + length w ≡ p + suc (suc (length w))
        two_more = omega arith

-- A nonempty word of identifier characters that are one code unit each, up to U+D7FF or above U+E000,
-- keyword or not, is read back from the code that is made for the standalone name of that value, in front of any text that goes on neither
-- with an identifier character nor with a backslash: `readWord` returns a name with that value
-- whose raw text is the code, and stands behind it. Where the word is a keyword, the bare word
-- would be the keyword's token.
pub read_word-name_to_code :
    (d : IdentifierData) (p l s : ℕ) (w rest : Chars)
    → All (Plain d) w
    → 0 < length w
    → Ends d rest
    → (read_word d
          (record { pos = p; rest = name_to_code w true ++ rest; cur_line = l; line_start = s })
        ≡ ok (
          name_token w (name_to_code w true),
          record {
            pos = p + length (name_to_code w true);
            rest = rest;
            cur_line = l;
            line_start = s;
          },
        ))
      × ((t : TokType)
          → keyword_type w ≡ some t
          → read_word d (record { pos = p; rest = w ++ rest; cur_line = l; line_start = s })
            ≡ ok (
              keyword_token t w,
              record { pos = p + length w; rest = rest; cur_line = l; line_start = s },
            ))
unfolding name_to_code
read_word-name_to_code d p l s w rest h ne k = (
  elim (Bool-cases (is_keyword w || is_strict_reserved w)) [
    | inl e ↦ rw e (read_word_escaped d p l s rest w h k ne)
    | inr e ↦ rw e (
        read_word_bare d p l s rest w h k ne
        ∙ ap (λ t. ok (t, record { pos = p + length w; rest = rest; cur_line = l; line_start = s }))
            (token_of_plain d (keyword_type w) w w
              (or-false (is_keyword w) (is_strict_reserved w) e)))
  ],
  λ t e.
      read_word_bare d p l s rest w h k ne
      ∙ ap
          (λ o. ok (
            token_of d o false w w,
            record { pos = p + length w; rest = rest; cur_line = l; line_start = s },
          ))
          e,
)
  where
    or-false : (a b : Bool) → (a || b) ≡ false → a ≡ false
    or-false false b e = refl
    or-false true b e = absurd cc
