-- ===== src/Reader/Ends.antt =====
-- Runs of a method that end, without lack of fuel, and of whose value a predicate holds.
use tacoscript.Prelude.{
  ◌≡◌, ◌≢◌, ◌≤◌, refl, subst, ℕ, Bool, true, false, Option, if◌then◌else◌, length,
}
use tacoscript.Reader.{Cursor, Result, ok, raise, type_error, out_of_fuel, ◌>>=◌, Message}

pub data Ends {V : Type 0} (P : V → Type 0) : Result V → Type 0 where
  value : {v : V} → P v → Ends P (ok v)
  raised : {p : Option ℕ} {m : Message} → Ends P (raise p m)
  thrown : Ends P type_error

module _ {V : Type 0} {P : V → Type 0} where
  pub Ends-ne-out_of_fuel : {r : Result V} → Ends P r → r ≢ out_of_fuel
  Ends-ne-out_of_fuel (value h) = cc
  Ends-ne-out_of_fuel raised = cc
  Ends-ne-out_of_fuel thrown = cc

  pub Ends-ok : {r : Result V} {v : V} → Ends P r → r ≡ ok v → P v
  Ends-ok (value h) e = subst P (ok-injective e) h
    where
      ok-injective : {a b : V} → ok a ≡ ok b → a ≡ b
      ok-injective e = cc
  Ends-ok raised e = absurd cc
  Ends-ok thrown e = absurd cc

  -- What ends and holds of every value that is returned.
  pub Ends-intro : (r : Result V) → r ≢ out_of_fuel → ((v : V) → r ≡ ok v → P v) → Ends P r
  Ends-intro (ok v) h k = value (k v refl)
  Ends-intro (raise p m) h k = raised
  Ends-intro type_error h k = thrown
  Ends-intro out_of_fuel h k = absurd (h refl)

  pub Ends-if :
      (b : Bool) {x y : Result V}
      → (b ≡ true → Ends P x)
      → (b ≡ false → Ends P y)
      → Ends P (if b then x else y)
  Ends-if true h k = h refl
  Ends-if false h k = k refl

  pub Ends-bind :
      {U : Type 0} {Q : U → Type 0} {m : Result U} (f : U → Result V)
      → Ends Q m
      → ((u : U) → Q u → Ends P (f u))
      → Ends P (m >>= f)
  Ends-bind f (value {v} h) g = g v h
  Ends-bind f raised g = raised
  Ends-bind f thrown g = thrown

  pub Ends-map : {Q : V → Type 0} {r : Result V} → Ends P r → ((v : V) → P v → Q v) → Ends Q r
  Ends-map (value {v} h) g = value (g v h)
  Ends-map raised g = raised
  Ends-map thrown g = thrown

-- What is left behind a value is no longer than `n`.
abbrev pub Within : {A : Type 0} → ℕ → A × Cursor → Type 0
Within n (a, c) = length c.rest ≤ n
