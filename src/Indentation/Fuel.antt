-- ===== src/Indentation/Fuel.antt =====
-- `hasIndentationChanged` ends on every input: each round that goes on moves the position.
use tacoscript.Prelude.{
  ℕ, zero, suc, ◌+◌, ◌-◌, ◌≤◌, ◌<◌, ◌≡◌, ◌≢◌, refl, Bool, true, false, ◌&&◌, Option, none, some,
  List, [], ◌∷◌, if◌then◌else◌, ◌==◌, length, drop, get_elem?, arith, Bool-cases, Option-cases, inl,
  inr,
}
use tacoscript.Text.{Chars, is_newline, line_break_at, exec_line_break}
use tacoscript.Reader.{Result, ok, raise, type_error, out_of_fuel, ◌>>=◌, Message}
use tacoscript.Indentation.{
  is_open, Scan, Round, again, stop, CommentKind, block, formatting, commented, line, find_text,
  begins, find_end_of_kind, find_comment_end, comment_kind, detect_round, known_round, scan_loop,
  char_at, skip_comment, IndentState, has_indentation_changed, behind_round, find_indentation,
  settle, measure, is_comment_start, is_space, is_char, one_more, next_line, behind, line_end,
  start_scan,
}

pub get_elem?-lt :
    {A : Type 0} (xs : List A) (i : ℕ) (a : A) → get_elem? xs i ≡ some a → i < length xs
get_elem?-lt [] i a e = absurd cc
get_elem?-lt (x ∷ xs) zero a e = omega arith
get_elem?-lt (x ∷ xs) (suc i) a e = omega (arith, get_elem?-lt xs i a e)

pub drop-get_elem? :
    {A : Type 0} (xs : List A) (i : ℕ) (a : A)
    → get_elem? xs i ≡ some a
    → drop i xs ≡ a ∷ drop (suc i) xs
drop-get_elem? [] i a e = absurd cc
drop-get_elem? (x ∷ xs) zero a e = cc
drop-get_elem? (x ∷ xs) (suc i) a e = drop-get_elem? xs i a e

find_text-le : (p cs : Chars) (i j : ℕ) → find_text p cs i ≡ some j → i ≤ j
unfolding find_text
find_text-le p [] i j e = ground arith
find_text-le p (c ∷ cs) i j e = elim (Bool-cases (begins p (c ∷ cs))) [
  | inl b ↦ ground arith
  | inr b ↦ let k = find_text-le p cs (i + 1) j in ground arith
]

exec_line_break-le : (cs : Chars) (i j n : ℕ) → exec_line_break cs i ≡ some (j, n) → i ≤ j
unfolding exec_line_break
exec_line_break-le [] i j n e = absurd cc
exec_line_break-le (c ∷ cs) i j n e = elim (Option-cases (line_break_at (c ∷ cs))) [
  | inl b ↦ let k = exec_line_break-le cs (i + 1) j n in ground arith
  | inr (m, b) ↦ ground arith
]

exec_line_break-lt :
    (ch : ℕ) (cs : Chars) (i j n : ℕ)
    → is_newline ch ≡ false
    → exec_line_break (ch ∷ cs) i ≡ some (j, n)
    → i < j
unfolding exec_line_break line_break_at
exec_line_break-lt ch cs i j n h e = let k = exec_line_break-le cs (i + 1) j n in ground arith

-- A position behind `n`, or an error of the source.
pub data Past (n : ℕ) : Result ℕ → Type 0 where
  behind_it : {p : ℕ} → n < p → Past n (ok p)
  no_end : {p : Option ℕ} {m : Message} → Past n (raise p m)
  no_kind : Past n type_error

-- A round that ends the loop, an error of the source, or one that moves on behind `n`.
pub data Moves (n : ℕ) : Result Round → Type 0 where
  moved : {s : Scan} → n < s.pos → Moves n (ok (again s))
  stopped : {s : Scan} → Moves n (ok (stop s))
  raised : {p : Option ℕ} {m : Message} → Moves n (raise p m)
  thrown : Moves n type_error

find_text-Past :
    (pos len : ℕ) (p cs : Chars) → 0 < len → Past pos (behind pos len (find_text p cs (pos + len)))
find_text-Past pos len p cs h = elim (Option-cases (find_text p cs (pos + len))) [
  | inl e ↦ rw e no_end
  | inr (j, e) ↦ rw e (behind_it (omega (arith, find_text-le p cs (pos + len) j e)))
]

line_end-Past :
    (input : Chars) (pos ch : ℕ)
    → char_at input pos ≡ some ch
    → is_newline ch ≡ false
    → Past pos (ok (line_end input (exec_line_break (drop pos input) pos)))
line_end-Past input pos ch h k = elim (Option-cases (exec_line_break (drop pos input) pos)) [
  | inl e ↦ rw e (behind_it (get_elem?-lt input pos ch h))
  | inr ((j, n), e) ↦ rw e (
      behind_it (
        exec_line_break-lt ch (drop (suc pos) input) pos j n k
          (rw (← drop-get_elem? input pos ch h) e)))
]

pub find_comment_end-Past :
    (input : Chars) (in_module : Bool) (at ch pos : ℕ)
    → char_at input pos ≡ some ch
    → is_newline ch ≡ false
    → Past pos (find_comment_end input in_module at ch pos)
unfolding find_comment_end find_end_of_kind
find_comment_end-Past input in_module at ch pos h k =
    by_kind (comment_kind input in_module at ch pos)
  where
    by_kind : (kind : CommentKind) → Past pos (find_end_of_kind kind input pos)
    by_kind block = find_text-Past pos 2 _ _ (omega arith)
    by_kind formatting = no_kind
    by_kind commented = find_text-Past pos 3 _ _ (omega arith)
    by_kind line = line_end-Past input pos ch h k

module _ {n : ℕ} where
  Moves-if :
      (b : Bool) {x y : Result Round}
      → (b ≡ true → Moves n x)
      → (b ≡ false → Moves n y)
      → Moves n (if b then x else y)
  Moves-if true h k = h refl
  Moves-if false h k = k refl

  Moves-bind :
      {m : Result ℕ} (f : ℕ → Result Round)
      → Past n m
      → ((p : ℕ) → n < p → Moves n (f p))
      → Moves n (m >>= f)
  Moves-bind f (behind_it {p} h) g = g p h
  Moves-bind f no_end g = raised
  Moves-bind f no_kind g = thrown

  stop-or-again : (b : Bool) (s t : Scan) → n < t.pos → Moves n (ok (if b then stop s else again t))
  stop-or-again true s t h = stopped
  stop-or-again false s t h = moved h

pub next_line-lt :
    (input : Chars) (known : Option ℕ) (ch : ℕ) (s : Scan)
    → s.pos < (next_line input known ch s).pos
next_line-lt input known ch s = ground arith

module _ (input : Chars) (in_module : Bool) (at ch : ℕ) (s : Scan)
    (h : char_at input s.pos ≡ some ch) where
  skip_comment-Moves : is_newline ch ≡ false → Moves s.pos (skip_comment input in_module at ch s)
  skip_comment-Moves k =
      Moves-bind _ (find_comment_end-Past input in_module at ch s.pos h k)
        (λ p lt. stop-or-again _ _ _ lt)

  detect_round-Moves : Moves s.pos (detect_round input in_module at ch s)
  unfolding detect_round
  detect_round-Moves =
      Moves-if (is_newline ch) (λ _. moved (next_line-lt input none ch s))
        (λ k.
          Moves-if (is_char s.char_code ch) (λ _. moved (omega arith))
            (λ _.
              Moves-if (is_space ch) (λ _. either_way s.char_code)
                (λ _.
                  Moves-if (is_comment_start input in_module ch s.pos) (λ _. skip_comment-Moves k)
                    (λ _. stopped))))
    where
      either_way :
          (known : Option ℕ)
          → Moves s.pos (
              ok (
                again (elim known [
                  | none ↦ record (one_more s) { char_code = some ch }
                  | some _ ↦ record (one_more s) { inconsistent = true }
                ])))
      either_way none = moved (omega arith)
      either_way (some k) = moved (omega arith)

  pub known_round-Moves : (known : ℕ) → Moves s.pos (known_round input in_module at known ch s)
  unfolding known_round
  known_round-Moves known =
      Moves-if (is_newline ch) (λ _. moved (next_line-lt input (some known) ch s))
        (λ k.
          Moves-if (ch == known && is_open s.indent_end) (λ _. moved (omega arith))
            (λ _.
              Moves-if (is_space ch)
                (λ _. Moves-if (is_open s.indent_end) (λ _. raised) (λ _. moved (omega arith)))
                (λ _.
                  Moves-if (is_comment_start input in_module ch s.pos) (λ _. skip_comment-Moves k)
                    (λ _. stopped))))

behind_round-ne-out_of_fuel :
    {n : ℕ} {r : Result Round} {rest : Scan → Result Scan}
    → Moves n r
    → ((s : Scan) → n < s.pos → rest s ≢ out_of_fuel)
    → behind_round rest r ≢ out_of_fuel
behind_round-ne-out_of_fuel (moved {s} lt) h = h s lt
behind_round-ne-out_of_fuel stopped h = cc
behind_round-ne-out_of_fuel raised h = cc
behind_round-ne-out_of_fuel thrown h = cc

-- More fuel than characters is enough.
pub scan_loop-ne-out_of_fuel :
    (fuel : ℕ) (input : Chars) (body : ℕ → Scan → Result Round) (s : Scan)
    → ((ch : ℕ) (t : Scan) → char_at input t.pos ≡ some ch → Moves t.pos (body ch t))
    → length input - s.pos < fuel
    → scan_loop fuel input body s ≢ out_of_fuel
unfolding scan_loop
scan_loop-ne-out_of_fuel zero input body s m h = absurd (omega arith)
scan_loop-ne-out_of_fuel (suc fuel) input body s m h = elim (Option-cases (char_at input s.pos)) [
  | inl e ↦ rw (e, scan_loop) cc
  | inr (ch, e) ↦
      rw (e, scan_loop)
        (behind_round-ne-out_of_fuel (m ch s e) (λ s' lt.
          scan_loop-ne-out_of_fuel fuel input body s' m
            (omega (arith, get_elem?-lt input s.pos ch e))))
]

settle-ne-out_of_fuel :
    (input : Chars) (levels : ℕ) (s : Scan) (st : IndentState)
    → settle input levels s st ≢ out_of_fuel
unfolding settle
settle-ne-out_of_fuel input levels s st = ground arith

measure-ne-out_of_fuel : (s : Scan) (st : IndentState) → measure s st ≢ out_of_fuel
unfolding measure
measure-ne-out_of_fuel s st = ground arith

bind-ne-out_of_fuel :
    {A B : Type 0} (m : Result A) (f : A → Result B)
    → m ≢ out_of_fuel
    → ((a : A) → f a ≢ out_of_fuel)
    → (m >>= f) ≢ out_of_fuel
bind-ne-out_of_fuel (ok a) f h g = g a
bind-ne-out_of_fuel (raise p m) f h g = cc
bind-ne-out_of_fuel type_error f h g = cc
bind-ne-out_of_fuel out_of_fuel f h g = absurd (h refl)

find_indentation-ne-out_of_fuel :
    (code : Option ℕ) (input : Chars) (newline_code levels : ℕ) (st : IndentState)
    → find_indentation code input newline_code levels st ≢ out_of_fuel
unfolding find_indentation
find_indentation-ne-out_of_fuel none input nl levels st =
    bind-ne-out_of_fuel _ _
      (scan_loop-ne-out_of_fuel (length input + 1) input (detect_round input st.in_module st.pos)
        (start_scan input nl st) (λ ch t h. detect_round-Moves input st.in_module st.pos ch t h)
        (omega arith))
      (λ s. settle-ne-out_of_fuel input levels s st)
find_indentation-ne-out_of_fuel (some known) input nl levels st =
    bind-ne-out_of_fuel _ _
      (scan_loop-ne-out_of_fuel (length input + 1) input
        (known_round input st.in_module st.pos known) (start_scan input nl st)
        (λ ch t h. known_round-Moves input st.in_module st.pos ch t h known) (omega arith))
      (λ s. measure-ne-out_of_fuel s st)

-- On every input and from every state, for each line break and each count of expected levels,
-- `hasIndentationChanged` returns or throws an error of the source: the fuel never runs out.
pub has_indentation_changed-ne-out_of_fuel :
    (input : Chars) (newline_code levels : ℕ) (st : IndentState)
    → has_indentation_changed input newline_code levels st ≢ out_of_fuel
unfolding has_indentation_changed
has_indentation_changed-ne-out_of_fuel input nl levels st =
    find_indentation-ne-out_of_fuel st.indent_char_code input nl levels st
