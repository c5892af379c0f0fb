-- ===== src/Indentation/Frame.antt =====
-- What `hasIndentationChanged` changes: not the level, and the next level only once the indentation
-- character is known.
use tacoscript.Prelude.{
  ℕ, zero, suc, ◌+◌, ◌-◌, ◌<◌, ◌≡◌, ◌≢◌, ◌⊎◌, inl, inr, refl, Bool, true, false, not, ◌&&◌, Option,
  none, some, if◌then◌else◌, ◌==◌, ◌%◌, length, arith, Option-cases,
}
use tacoscript.Text.{Chars, is_newline, is_newline?}
use tacoscript.Reader.{Result, ok}
use tacoscript.Reader.Ends.{Ends, value, raised, thrown, Ends-if, Ends-bind, Ends-intro}
use tacoscript.Indentation.{
  Scan, Round, again, stop, char_at, is_space, is_space?, is_comment_start, skip_comment, end_here,
  is_char, one_more, detect_round, known_round, behind_round, scan_loop, start_scan, IndentState,
  settle, measure, find_indentation, has_indentation_changed,
}
use tacoscript.Indentation.Fuel.{
  Past, behind_it, no_end, no_kind, find_comment_end-Past, next_line-lt, get_elem?-lt,
  scan_loop-ne-out_of_fuel, known_round-Moves,
}

-- Where an indentation is counted, its character is known.
data Detected (s : Scan) : Type 0 where
  detected : (s.indent_len ≡ 0) ⊎ (s.char_code ≢ none) → Detected s

-- The round moves on behind `n`, or ends the loop.
data Seen (n : ℕ) : Round → Type 0 where
  further : {s : Scan} → n < s.pos → Detected s → Seen n (again s)
  last : {s : Scan} → Detected s → Seen n (stop s)

Past-Ends : {n : ℕ} {r : Result ℕ} → Past n r → Ends (λ p. n < p) r
Past-Ends (behind_it h) = value h
Past-Ends no_end = raised
Past-Ends no_kind = thrown

one_more-Detected : (s : Scan) → Detected s → s.char_code ≢ none → Detected (one_more s)
one_more-Detected s d h = detected (inr h)

module _ (input : Chars) (in_module : Bool) (at ch : ℕ) (s : Scan)
    (h : char_at input s.pos ≡ some ch) (d : Detected s) where
  end_here-Detected : (p : ℕ) → Detected (record (end_here s) { pos = p })
  end_here-Detected p = by_detected d
    where
      by_detected : Detected s → Detected (record (end_here s) { pos = p })
      by_detected (detected k) = detected k

  stop-or-again :
      (b : Bool) (t : Scan)
      → s.pos < t.pos
      → Detected t
      → Ends (Seen s.pos) (ok (if b then stop t else again t))
  stop-or-again true t lt k = value (last k)
  stop-or-again false t lt k = value (further lt k)

  skip_comment-Ends :
      is_newline ch ≡ false → Ends (Seen s.pos) (skip_comment input in_module at ch s)
  skip_comment-Ends k =
      Ends-bind _ (Past-Ends (find_comment_end-Past input in_module at ch s.pos h k)) (λ p lt.
        stop-or-again (not (is_newline? (char_at input p)) && is_space? (char_at input p)) _ lt
          (end_here-Detected p))

  first_or_other :
      (known : Option ℕ)
      → s.char_code ≡ known
      → Ends (Seen s.pos) (
          ok (
            again (elim known as (λ _. Scan) [
              | none ↦ record (one_more s) { char_code = some ch }
              | some _ ↦ record (one_more s) { inconsistent = true }
            ])))
  first_or_other none e = value (further (omega arith) (detected (inr cc)))
  first_or_other (some k) e = value (further (omega arith) (detected (inr (rw e cc))))

  known_char : (known : Option ℕ) → is_char known ch ≡ true → known ≢ none
  known_char none e = absurd cc
  known_char (some k) e = cc

  detect_round-Ends : Ends (Seen s.pos) (detect_round input in_module at ch s)
  unfolding detect_round
  detect_round-Ends =
      Ends-if (is_newline ch)
        (λ _. value (further (next_line-lt input none ch s) (detected (inl refl))))
        (λ k.
          Ends-if (is_char s.char_code ch)
            (λ e. value (further (omega arith) (detected (inr (known_char s.char_code e)))))
            (λ _.
              Ends-if (is_space ch) (λ _. first_or_other s.char_code refl)
                (λ _.
                  Ends-if (is_comment_start input in_module ch s.pos) (λ _. skip_comment-Ends k)
                    (λ _. value (last d)))))

behind_round-Ends :
    {n : ℕ} {r : Result Round} {rest : Scan → Result Scan}
    → Ends (Seen n) r
    → ((s : Scan) → n < s.pos → Detected s → Ends Detected (rest s))
    → Ends Detected (behind_round rest r)
behind_round-Ends (value (further {s} lt k)) h = h s lt k
behind_round-Ends (value (last k)) h = value k
behind_round-Ends raised h = raised
behind_round-Ends thrown h = thrown

detect-Ends :
    (fuel : ℕ) (input : Chars) (b : Bool) (at : ℕ) (s : Scan)
    → Detected s
    → length input - s.pos < fuel
    → Ends Detected (scan_loop fuel input (detect_round input b at) s)
unfolding scan_loop
detect-Ends zero input b at s d h = absurd (omega arith)
detect-Ends (suc fuel) input b at s d h = elim (Option-cases (char_at input s.pos)) [
  | inl e ↦ rw (e, scan_loop) (value d)
  | inr (ch, e) ↦
      rw (e, scan_loop)
        (behind_round-Ends (detect_round-Ends input b at ch s e d) (λ s' lt d'.
          detect-Ends fuel input b at s' d' (omega (arith, get_elem?-lt input s.pos ch e))))
]

-- The answer: the level is as it was. As long as no indentation character is known, none was before,
-- the next level is as it was, and the answer is no. Else a yes means that the levels differ.
pub data Looked (st : IndentState) : Bool × IndentState → Type 0 where
  looked :
      {b : Bool} {st' : IndentState}
      → st'.indentation ≡ st.indentation
      → (st'.indent_char_code ≡ none
          → (st.indent_char_code ≡ none)
            × (st'.next_indentation ≡ st.next_indentation)
            × (b ≡ false))
      → (b ≡ true
          → ((st.indent_char_code ≡ none) × (st'.next_indentation ≡ 1))
            ⊎ (st'.next_indentation ≢ st'.indentation))
      → Looked st (b, st')

settle-Ends :
    (input : Chars) (s : Scan) (st : IndentState)
    → st.indent_char_code ≡ none
    → Detected s
    → Ends (Looked st) (settle input 1 s st)
unfolding settle
settle-Ends input s st e (detected d) =
    Ends-if s.inconsistent (λ _. raised)
      (λ _.
        Ends-if (s.indent_len == 0)
          (λ _. value (looked refl (λ k. (k, refl, refl)) (λ k. absurd cc)))
          (λ k.
            Ends-if (not (s.indent_len % 1 == 0)) (λ _. raised)
              (λ _. value (looked refl (λ q. absurd (known d k q)) (λ _. inl (e, refl))))))
  where
    known :
        (s.indent_len ≡ 0) ⊎ (s.char_code ≢ none)
        → (s.indent_len == 0) ≡ false
        → s.char_code ≡ none
        → ⊥
    known (inl z) k q = ground arith
    known (inr c) k q = c q

measure-Ends :
    (s : Scan) (st : IndentState) (known : ℕ)
    → st.indent_char_code ≡ some known
    → Ends (Looked st) (measure s st)
unfolding measure
measure-Ends s st known e =
    Ends-if (not (s.indent_len % st.indent_repeat == 0)) (λ _. raised)
      (λ _. value (looked refl (λ k. absurd (some≢none (rw e at k))) (λ k. inr (ground arith))))
  where
    some≢none : {n : ℕ} → some n ≡ none → ⊥
    some≢none q = cc

find_indentation-Ends :
    (known : Option ℕ) (input : Chars) (nl : ℕ) (st : IndentState)
    → st.indent_char_code ≡ known
    → Ends (Looked st) (find_indentation known input nl 1 st)
unfolding find_indentation
find_indentation-Ends none input nl st e =
    Ends-bind _
      (detect-Ends (length input + 1) input st.in_module st.pos (start_scan input nl st)
        (detected (inl refl)) (omega arith))
      (λ s d. settle-Ends input s st e d)
find_indentation-Ends (some known) input nl st e =
    Ends-bind _
      (Ends-intro {P = λ s. Unit {0}} _
        (scan_loop-ne-out_of_fuel (length input + 1) input
          (known_round input st.in_module st.pos known) (start_scan input nl st)
          (λ ch t h. known_round-Moves input st.in_module st.pos ch t h known) (omega arith))
        (λ s k. tt))
      (λ s u. measure-Ends s st known e)

-- `hasIndentationChanged` with one expected level ends, and its answer is as `Looked` says.
pub has_indentation_changed-Ends :
    (input : Chars) (nl : ℕ) (st : IndentState)
    → Ends (Looked st) (has_indentation_changed input nl 1 st)
unfolding has_indentation_changed
has_indentation_changed-Ends input nl st =
    find_indentation-Ends st.indent_char_code input nl st refl
