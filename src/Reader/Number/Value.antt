-- ===== src/Reader/Number/Value.antt =====
-- What `readNumber_int` returns: the positional value of a maximal run of digits.
use tacoscript.Prelude.{
  ℕ, suc, ◌+◌, ◌*◌, ◌^◌, ◌≤◌, ◌<◌, ◌≡◌, ◌∙◌, sym, inl, inr, ◌⊎◌, refl, Option, none, some, [], ◌∷◌,
  if◌then◌else◌, ◌||◌, not, ◌==◌, ap, take-take, length-take-le, length, take, drop, arith,
  Option-cases,
}
use native.Mathlib.Nat.{pow-suc, pow-zero, mul-le-mul_right}
use tacoscript.Text.{Chars}
use tacoscript.Reader.{Cursor, advance}
use tacoscript.Reader.Double.{exact, next_total, next_total-exact}
use tacoscript.Reader.Number.{digit_below, exactly, read_digits, read_number_int}

-- The number that a text of digits stands for, behind a prefix of value `total`; `none` if one of
-- the characters is no digit below the radix.
abbrev pub of_digits : ℕ → Chars → ℕ → Option ℕ
of_digits radix [] total = some total
of_digits radix (c ∷ cs) total = elim (digit_below radix c) [
  | none ↦ none
  | some v ↦ of_digits radix cs (total * radix + v)
]

-- The front of the text is no digit below the radix.
abbrev pub Stops : ℕ → Chars → Type 0
Stops radix [] = Unit
Stops radix (c ∷ _) = digit_below radix c ≡ none

module _ (radix c : ℕ) (cs : Chars) (total : ℕ) where
  pub read_digits_stop : digit_below radix c ≡ none → read_digits radix (c ∷ cs) total ≡ (total, 0)
  unfolding read_digits
  read_digits_stop e = rw (e, read_digits)

  pub read_digits_step :
      (v : ℕ)
      → digit_below radix c ≡ some v
      → let r = read_digits radix cs (next_total radix total v) in
        read_digits radix (c ∷ cs) total ≡ (r.0, suc r.1)
  unfolding read_digits
  read_digits_step v e = rw (e, read_digits)

  of_digits_step :
      (v : ℕ)
      → digit_below radix c ≡ some v
      → of_digits radix (c ∷ cs) total ≡ of_digits radix cs (total * radix + v)
  of_digits_step v e = rw (e, of_digits)

digit_below-lt : (radix c v : ℕ) → digit_below radix c ≡ some v → v < radix
unfolding digit_below
digit_below-lt radix c v h = ground arith

le_or_lt : (a b : ℕ) → (a ≤ b) ⊎ (b < a)
le_or_lt a b = ground arith

grows : (t r v n : ℕ) → v < r → t * r + v ≤ n → t ≤ n
grows t r v n h k = let le : 1 * t ≤ r * t = mul-le-mul_right t (omega arith) in omega arith

-- The characters that the loop reads are digits, whatever total it began with, and stand for no less
-- than what they stand behind.
digits_run :
    (radix : ℕ) (cs : Chars) (t u : ℕ)
    → (n : ℕ) × (of_digits radix (take (read_digits radix cs t).1 cs) u ≡ some n) × (u ≤ n)
digits_run radix [] t u = unfold read_digits in (u, refl, omega arith)
digits_run radix (c ∷ cs) t u = elim (Option-cases (digit_below radix c)) [
  | inl e ↦ rw (read_digits_stop radix c cs t e) (u, refl, omega arith)
  | inr (v, e) ↦
      let (n, same, le) = digits_run radix cs (next_total radix t v) (u * radix + v) in
      rw (read_digits_step radix c cs t v e) (
        n,
        of_digits_step radix c (take (read_digits radix cs (next_total radix t v)).1 cs) u v e
            ∙ same,
        grows u radix v n (digit_below-lt radix c v e) le,
      )
]

-- What the loop returns of the characters `cs` behind `total`: the total and the characters read.
data Reads (radix : ℕ) (cs : Chars) (total : ℕ) (r : ℕ × ℕ) : Type 0 where
  reads :
      (n : ℕ)
      → of_digits radix (take r.1 cs) total ≡ some n
      → (r.0 ≡ n) ⊎ (exact < n)
      → Stops radix (drop r.1 cs)
      → r.1 ≤ length cs
      → Reads radix cs total r

Reads-step :
    (radix c : ℕ) (cs : Chars) (total v : ℕ)
    → digit_below radix c ≡ some v
    → Reads radix cs (next_total radix total v) (read_digits radix cs (next_total radix total v))
    → Reads radix (c ∷ cs) total (
      (read_digits radix cs (next_total radix total v)).0,
      suc (read_digits radix cs (next_total radix total v)).1,
    )
Reads-step radix c cs total v e (reads m same value stop le) =
    let next : ℕ = total * radix + v in
    let count : ℕ = (read_digits radix cs (next_total radix total v)).1 in
    let step = of_digits_step radix c (take count cs) total v e in
    elim (le_or_lt next exact) [
      | inl small ↦
          reads m
            (step
              ∙ ap (of_digits radix (take count cs)) (sym (next_total-exact radix total v small))
              ∙ same)
            value stop (omega arith)
      | inr large ↦
          (let (n, same', le') = digits_run radix cs (next_total radix total v) next in
            reads n (step ∙ same') (inr (omega arith)) stop (omega arith))
    ]

read_digits-Reads :
    (radix : ℕ) (cs : Chars) (total : ℕ) → Reads radix cs total (read_digits radix cs total)
read_digits-Reads radix [] total =
    unfold read_digits in reads total refl (inl refl) tt (omega arith)
read_digits-Reads radix (c ∷ cs) total = elim (Option-cases (digit_below radix c)) [
  | inl e ↦ rw (read_digits_stop radix c cs total e) (reads total refl (inl refl) e (omega arith))
  | inr (v, e) ↦
      rw (read_digits_step radix c cs total v e)
        (Reads-step radix c cs total v e (read_digits-Reads radix cs (next_total radix total v)))
]

-- The loop reads a prefix, of the length that it reports, of digits only, and stops before a
-- character that is no digit or at the end. It returns the positional value of the prefix, unless
-- that is above 2 ^ 53.
pub read_digits_lem :
    (radix : ℕ) (cs : Chars) (total : ℕ)
    → (n : ℕ) × (of_digits radix (take (read_digits radix cs total).1 cs) total ≡ some n)
      × (((read_digits radix cs total).0 ≡ n) ⊎ (exact < n))
      × Stops radix (drop (read_digits radix cs total).1 cs)
      × ((read_digits radix cs total).1 ≤ length cs)
read_digits_lem radix cs total = parts (read_digits-Reads radix cs total)
  where
    parts :
        Reads radix cs total (read_digits radix cs total)
        → (n : ℕ) × (of_digits radix (take (read_digits radix cs total).1 cs) total ≡ some n)
          × (((read_digits radix cs total).0 ≡ n) ⊎ (exact < n))
          × Stops radix (drop (read_digits radix cs total).1 cs)
          × ((read_digits radix cs total).1 ≤ length cs)
    parts (reads n same value stop le) = (n, same, value, stop, le)

scale : (t r v p n : ℕ) → v < r → n < suc (t * r + v) * p → n < suc t * (p * r)
scale t r v p n h k =
    let le : suc (t * r + v) * p ≤ (suc t * r) * p = mul-le-mul_right p (omega arith) in omega arith

-- A text of digits behind a prefix of value `total` stands for less than what one more of the
-- prefix would.
pub of_digits-lt :
    (radix : ℕ) (cs : Chars) (total n : ℕ)
    → of_digits radix cs total ≡ some n
    → n < suc total * radix ^ length cs
of_digits-lt radix [] total n h = rw pow-zero (ground arith)
of_digits-lt radix (c ∷ cs) total n h = elim (Option-cases (digit_below radix c)) [
  | inl e ↦ absurd (none-ne (rw (e, of_digits) at h))
  | inr (v, e) ↦ rw pow-suc (
      scale total radix v (radix ^ length cs) n (digit_below-lt radix c v e) (
        of_digits-lt radix cs (total * radix + v) n
          (sym (of_digits_step radix c cs total v e) ∙ h)))
]
  where
    none-ne : none ≡ some n → ⊥
    none-ne x = cc

accepts :
    (len t k n : ℕ)
    → (if k == 0 || not (k == len) then none else some t) ≡ some n
    → (k ≡ len) × (t ≡ n)
accepts len t k n h = ground arith

same_value : (v m n p : ℕ) → (v ≡ m) ⊎ (exact < m) → v ≡ n → m < p → p ≤ exact → m ≡ n
same_value v m n p (inl e) h l k = omega arith
same_value v m n p (inr e) h l k = absurd (omega arith)

-- `readNumber_int(radix, len)` with a count, where `radix ^ len` is at most 2 ^ 53: if it returns a
-- number, then the next `len` characters are digits, it is their positional value, it is below
-- `radix ^ len`, and the cursor stands behind them.
pub read_number_int-exactly :
    (radix len : ℕ) (c : Cursor) (n : ℕ)
    → radix ^ len ≤ exact
    → (read_number_int radix (exactly len) c).0 ≡ some n
    → (of_digits radix (take len c.rest) 0 ≡ some n)
      × (n < radix ^ len)
      × ((read_number_int radix (exactly len) c).1 ≡ advance len c)
unfolding read_number_int
read_number_int-exactly radix len c n small h =
    let r = read_digits radix (take len c.rest) 0 in
    let (count, value) = accepts len r.0 r.1 n h in
    let (m, same, rounded, stop, le) = read_digits_lem radix (take len c.rest) 0 in
    let all : length (take len c.rest) ≡ len = omega (arith, length-take-le len c.rest) in
    let digits = rw (count, take-take) at same in
    let below : m < radix ^ len =
      omega (arith, rw all at (of_digits-lt radix (take len c.rest) 0 m digits)) in
    let same_m : m ≡ n = same_value r.0 m n (radix ^ len) rounded value below small in
    (digits ∙ ap some same_m, omega arith, ap (λ k. advance k c) count)
