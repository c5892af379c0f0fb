-- ===== src/Reader/Double.antt =====
-- The numbers of JavaScript that a loop of digits counts with: an integer is rounded to 53 bits.
use tacoscript.Prelude.{
  ℕ, zero, suc, ◌+◌, ◌*◌, ◌/◌, ◌%◌, ◌^◌, ◌≤◌, ◌≡◌, ◌∙◌, ap, true, false, ◌&&◌, ◌||◌, if◌then◌else◌,
  if-true, ltb, leb, ◌==◌, arith,
}

-- Up to here each integer is a number.
abbrev pub exact : ℕ
exact = 2 ^ 53

-- `Infinity`; the integers below it that are numbers are all below it by 2 ^ 971 at least.
abbrev pub infinity : ℕ
infinity = 2 ^ 1024

-- How often an integer is halved until it has 53 bits at most, with fuel.
unfoldable pub scale_of : ℕ → ℕ → ℕ
scale_of zero n = 0
scale_of (suc fuel) n = elim (ltb n exact) [ true ↦ 0 | false ↦ suc (scale_of fuel (n / 2)) ]

-- The nearest multiple of the unit, the even one of two.
abbrev pub round_by : ℕ → ℕ → ℕ
round_by unit n =
    let q = n / unit in
    let r = n % unit in
    if ltb unit (2 * r) || unit == 2 * r && q % 2 == 1 then (q + 1) * unit else q * unit

-- The number that an integer is rounded to. One below `Infinity` has 1024 bits at most.
unfoldable pub double : ℕ → ℕ
unfolding scale_of
double n =
    if leb n exact
    then n
    else elim (ltb n infinity) [ true ↦ round_by (2 ^ scale_of 971 n) n | false ↦ infinity ]

pub double-exact : (n : ℕ) → n ≤ exact → double n ≡ n
unfolding double
double-exact n h = if-true (leb n exact) _ _ (leb_exact n h)
  where
    leb_exact : (n : ℕ) → n ≤ exact → leb n exact ≡ true
    leb_exact n h = ground arith

-- `total * radix + val`
unfoldable pub next_total : ℕ → ℕ → ℕ → ℕ
unfolding double
next_total radix total v = double (double (total * radix) + v)

pub next_total-exact :
    (radix total v : ℕ) → total * radix + v ≤ exact → next_total radix total v ≡ total * radix + v
unfolding next_total
next_total-exact radix total v h =
    ap (λ n. double (n + v)) (double-exact (total * radix) (omega arith)) ∙ double-exact _ h
