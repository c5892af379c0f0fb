-- ===== src/Indentation/Levels.antt =====
-- What `hasIndentationChanged` finds once the indentation character is known.
use tacoscript.Prelude.{
  ℕ, zero, suc, ◌+◌, ◌*◌, ◌/◌, ◌%◌, ◌<◌, ◌≡◌, ◌≢◌, refl, sym, subst, ap, ◌∙◌, Bool, true, false,
  not, ◌&&◌, Option, none, some, if◌then◌else◌, ◌==◌, length, arith, Bool-cases, Option-cases, inl,
  inr, ◌⊎◌,
}
use native.Mathlib.Nat.{mod-add-div'}
use tacoscript.Text.{Chars, is_newline}
use tacoscript.Reader.{
  Result, ok, raise, type_error, out_of_fuel, ◌>>=◌, Message, invalid_indentation,
}
use tacoscript.Indentation.{
  Scan, Round, again, stop, known_round, scan_loop, char_at, skip_comment, IndentState,
  has_indentation_changed, behind_round, find_indentation, measure, is_comment_start, is_space,
  end_here, is_open, or_else, one_more, next_line, start_scan, end_of, found,
}

-- From `start` on, `n` characters are `k`.
abbrev pub AllAt : Chars → ℕ → ℕ → ℕ → Type 0
AllAt input k start n = (i : ℕ) → i < n → char_at input (start + i) ≡ some k

AllAt-suc :
    (input : Chars) (k start n : ℕ)
    → AllAt input k start n
    → char_at input (start + n) ≡ some k
    → AllAt input k start (suc n)
AllAt-suc input k start n h e i lt = elim (cases i n lt) [ inl l ↦ h i l | inr q ↦ rw q e ]
  where
    cases : (i n : ℕ) → i < suc n → (i < n) ⊎ (i ≡ n)
    cases i n lt = ground arith

ok-injective : {A : Type 0} {a b : A} → ok a ≡ ok b → a ≡ b
ok-injective e = cc

raise-ne-ok : {A : Type 0} {p : Option ℕ} {m : Message} {a : A} → raise p m ≢ ok a
raise-ne-ok = cc

-- Where the loop and what follows it return, the loop ends with some variables.
scan-returns :
    {answer : Bool × IndentState} {rest : Scan → Result (Bool × IndentState)} (loop : Result Scan)
    → (loop >>= rest) ≡ ok answer
    → (s : Scan) × (loop ≡ ok s) × (rest s ≡ ok answer)
scan-returns (ok s) returns = (s, refl, returns)
scan-returns (raise p m) returns = absurd cc
scan-returns type_error returns = absurd cc
scan-returns out_of_fuel returns = absurd cc

whole_lem : (n k : ℕ) → (n % k == 0) ≡ true → n / k * k ≡ n
whole_lem n k e = ground (arith, mod-add-div' n k)

module _ (s : Scan) (st : IndentState) where
  measure_whole :
      (s.indent_len % st.indent_repeat == 0) ≡ true
      → measure s st
        ≡ ok (
          not (s.indent_len / st.indent_repeat == st.indentation),
          record (found st.pos s st) { next_indentation = s.indent_len / st.indent_repeat },
        )
  unfolding measure
  measure_whole q = rw q refl

  measure_part :
      (s.indent_len % st.indent_repeat == 0) ≡ false
      → measure s st ≡ raise (some st.pos) invalid_indentation
  unfolding measure
  measure_part q = rw q refl

module _ (input : Chars) (known : ℕ) where
  -- The counted characters are the indentation character, and the indentation ends behind them.
  data Counted (s : Scan) : Type 0 where
    counted :
        end_of s ≡ s.indent_start + s.indent_len
        → AllAt input known s.indent_start s.indent_len
        → Counted s

  start_scan-Counted :
      (newline_code : ℕ) (st : IndentState) → Counted (start_scan input newline_code st)
  start_scan-Counted nl st = counted (omega arith) (λ i lt. absurd (omega arith))

  Counted-parts :
      (s : Scan)
      → Counted s
      → (end_of s ≡ s.indent_start + s.indent_len) × AllAt input known s.indent_start s.indent_len
  Counted-parts s (counted h k) = (h, k)

  data Keeps : Result Round → Type 0 where
    kept_on : {s : Scan} → Counted s → Keeps (ok (again s))
    kept : {s : Scan} → Counted s → Keeps (ok (stop s))
    raised : {p : Option ℕ} {m : Message} → Keeps (raise p m)
    thrown : Keeps type_error
    unfinished : Keeps out_of_fuel

  Keeps-if :
      (b : Bool) {x y : Result Round}
      → (b ≡ true → Keeps x)
      → (b ≡ false → Keeps y)
      → Keeps (if b then x else y)
  Keeps-if true h k = h refl
  Keeps-if false h k = k refl

  Keeps-again-stop : (b : Bool) {s : Scan} → Counted s → Keeps (ok (if b then stop s else again s))
  Keeps-again-stop true c = kept c
  Keeps-again-stop false c = kept_on c

  Keeps-bind : (m : Result ℕ) (f : ℕ → Result Round) → ((p : ℕ) → Keeps (f p)) → Keeps (m >>= f)
  Keeps-bind (ok p) f h = h p
  Keeps-bind (raise p m) f h = raised
  Keeps-bind type_error f h = thrown
  Keeps-bind out_of_fuel f h = unfinished

  Counted-end : (s : Scan) (p : ℕ) → Counted s → Counted (record (end_here s) { pos = p })
  Counted-end s p (counted h k) = counted h k

  skip_comment-Keeps :
      (in_module : Bool) (at ch : ℕ) (s : Scan)
      → Counted s
      → Keeps (skip_comment input in_module at ch s)
  skip_comment-Keeps in_module at ch s c =
      Keeps-bind _ _ (λ p. Keeps-again-stop _ (Counted-end s p c))

  next_line-Counted : (ch : ℕ) (s : Scan) → Counted (next_line input (some known) ch s)
  next_line-Counted ch s = counted (omega arith) (λ i lt. absurd (omega arith))

  one_more-Counted :
      (s : Scan) (ch : ℕ)
      → char_at input s.pos ≡ some ch
      → (ch == known && is_open s.indent_end) ≡ true
      → Counted s
      → Counted (one_more s)
  one_more-Counted s ch e b (counted h k) = by_end s.indent_end refl
    where
      by_end : (end_ : Option ℕ) → s.indent_end ≡ end_ → Counted (one_more s)
      by_end none q =
          let at_end : s.pos ≡ s.indent_start + s.indent_len =
            (sym (ap (λ o. or_else o s.pos) q)) ∙ h in
          counted (ap (λ o. or_else o (s.pos + 1)) q ∙ omega arith)
            (AllAt-suc input known s.indent_start s.indent_len k (rw (← at_end) (ground arith)))
      by_end (some p) q = absurd (ground arith)

  past-Counted :
      (s : Scan) → is_open s.indent_end ≡ false → Counted s → Counted (record s { pos = s.pos + 1 })
  past-Counted s b (counted h k) = counted (or_else-past s.indent_end b ∙ h) k
    where
      or_else-past : (o : Option ℕ) → is_open o ≡ false → or_else o (s.pos + 1) ≡ or_else o s.pos
      or_else-past none b = absurd cc
      or_else-past (some p) b = refl

  module _ (in_module : Bool) (at ch : ℕ) (s : Scan) (h : char_at input s.pos ≡ some ch) where
    known_round-Keeps : Counted s → Keeps (known_round input in_module at known ch s)
    unfolding known_round
    known_round-Keeps c =
        Keeps-if (is_newline ch) (λ _. kept_on (next_line-Counted ch s))
          (λ _.
            Keeps-if (ch == known && is_open s.indent_end)
              (λ b. kept_on (one_more-Counted s ch h b c))
              (λ _.
                Keeps-if (is_space ch)
                  (λ _.
                    Keeps-if (is_open s.indent_end) (λ _. raised)
                      (λ b. kept_on (past-Counted s b c)))
                  (λ _.
                    Keeps-if (is_comment_start input in_module ch s.pos)
                      (λ _. skip_comment-Keeps in_module at ch s c) (λ _. kept c))))

  behind_round-Counted :
      {r : Result Round} {rest : Scan → Result Scan} {s' : Scan}
      → Keeps r
      → ((s : Scan) → Counted s → rest s ≡ ok s' → Counted s')
      → behind_round rest r ≡ ok s'
      → Counted s'
  behind_round-Counted (kept_on {s} c) h e = h s c e
  behind_round-Counted (kept {s} c) h e = subst Counted (ok-injective e) c
  behind_round-Counted raised h e = absurd cc
  behind_round-Counted thrown h e = absurd cc
  behind_round-Counted unfinished h e = absurd cc

  scan_loop_end :
      (fuel : ℕ) (body : ℕ → Scan → Result Round) (s : Scan)
      → char_at input s.pos ≡ none
      → scan_loop (suc fuel) input body s ≡ ok s
  unfolding scan_loop
  scan_loop_end fuel body s q = rw (q, scan_loop) refl

  scan_loop_step :
      (fuel : ℕ) (body : ℕ → Scan → Result Round) (s : Scan) (ch : ℕ)
      → char_at input s.pos ≡ some ch
      → scan_loop (suc fuel) input body s ≡ behind_round (scan_loop fuel input body) (body ch s)
  unfolding scan_loop
  scan_loop_step fuel body s ch q = rw (q, scan_loop) refl

  scan_loop-Counted :
      (fuel : ℕ) (in_module : Bool) (at : ℕ) (s s' : Scan)
      → Counted s
      → scan_loop fuel input (known_round input in_module at known) s ≡ ok s'
      → Counted s'
  unfolding scan_loop
  scan_loop-Counted zero in_module at s s' c e = absurd cc
  scan_loop-Counted (suc fuel) in_module at s s' c e = elim (Option-cases (char_at input s.pos)) [
    | inl q ↦
        subst Counted
          (ok-injective (sym (scan_loop_end fuel (known_round input in_module at known) s q) ∙ e)) c
    | inr (ch, q) ↦
        behind_round-Counted (known_round-Keeps in_module at ch s q c)
          (λ t k e'. scan_loop-Counted fuel in_module at t s' k e')
          (sym (scan_loop_step fuel (known_round input in_module at known) s ch q) ∙ e)
  ]

-- Where the second mode succeeds, its level times the repeat is the count, and its answer compares
-- the level with the current one.
measure_lem :
    (s : Scan) (st st' : IndentState) (b : Bool)
    → measure s st ≡ ok (b, st')
    → (st'.next_indentation * st.indent_repeat ≡ s.indent_len)
      × (st'.indent_start ≡ s.indent_start)
      × (st'.indent_end ≡ end_of s)
      × (b ≡ not (st'.next_indentation == st.indentation))
unfolding measure
measure_lem s st st' b e = elim (Bool-cases (s.indent_len % st.indent_repeat == 0)) [
  | inl q ↦
      let found = ok-injective (sym (measure_whole s st q) ∙ e) in
      let state = ap (λ r. r.1) found in
      (
        ap (λ r. r.next_indentation * st.indent_repeat) (sym state)
            ∙ whole_lem s.indent_len st.indent_repeat q,
        ap (λ r. r.indent_start) (sym state),
        ap (λ r. r.indent_end) (sym state),
        sym (ap (λ r. r.0) found) ∙ ap (λ r. not (r.next_indentation == st.indentation)) state,
      )
  | inr q ↦ absurd (raise-ne-ok (sym (measure_part s st q) ∙ e))
]

-- With the indentation character known, where `hasIndentationChanged` returns: the indentation of
-- the line is as many times the unit as the new level says, it begins at the recorded start and
-- ends at the recorded end, each of its characters is the known one, and the answer is whether
-- the new level differs from the current one.
pub has_indentation_changed-level :
    (input : Chars) (newline_code levels known : ℕ) (st st' : IndentState) (b : Bool)
    → st.indent_char_code ≡ some known
    → has_indentation_changed input newline_code levels st ≡ ok (b, st')
    → (st'.indent_end ≡ st'.indent_start + st'.next_indentation * st.indent_repeat)
      × AllAt input known st'.indent_start (st'.next_indentation * st.indent_repeat)
      × (b ≡ not (st'.next_indentation == st.indentation))
unfolding has_indentation_changed find_indentation
has_indentation_changed-level input nl levels known st st' b h e =
    let (s, q, m) = scan-returns _ (ap (λ o. find_indentation o input nl levels st) (sym h) ∙ e) in
    let (len, start, end_, ans) = measure_lem s st st' b m in
    let (at_end, all) = Counted-parts input known s (
      scan_loop-Counted input known (length input + 1) st.in_module st.pos (start_scan input nl st)
        s (start_scan-Counted input known nl st) q) in
    (rw (end_, start, len) at_end, rw (start, len) all, ans)
