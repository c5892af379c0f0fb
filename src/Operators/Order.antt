-- ===== src/Operators/Order.antt =====
-- Precedences and associativity: what the conditions of the parser imply of each other.
use tacoscript.Prelude.{ℕ, ◌≡◌, refl, Bool, true, false, Option, none, some, arith}
use tacoscript.Operators.{above, min_of}

-- An operator that ends an expression does not bind tighter than the one before it, so whatever
-- lets it begin lets that one begin.
pub above_trans :
    (right : Bool) (p q m : Option ℕ)
    → above q none ≡ true
    → above p (min_of right q) ≡ false
    → above p m ≡ true
    → above q m ≡ true
above_trans right none q m h k l = absurd cc
above_trans right (some p) none m h k l = absurd cc
above_trans right (some p) (some q) none h k l = refl
above_trans true (some p) (some q) (some m) h k l = ground arith
above_trans false (some p) (some q) (some m) h k l = ground arith

-- What ends an expression on the right of an operator ends it inside that expression too.
pub above_ends :
    (right right' : Bool) (p q n : Option ℕ)
    → above q (min_of right p) ≡ true
    → above n (min_of right p) ≡ false
    → above n (min_of right' q) ≡ false
above_ends right right' p q none h k = refl
above_ends right right' p none (some n) h k = absurd cc
above_ends right right' none (some q) (some n) h k = absurd cc
above_ends true true (some p) (some q) (some n) h k = ground arith
above_ends true false (some p) (some q) (some n) h k = ground arith
above_ends false true (some p) (some q) (some n) h k = ground arith
above_ends false false (some p) (some q) (some n) h k = ground arith
