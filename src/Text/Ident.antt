-- ===== src/Text/Ident.antt =====
-- Identifier characters: packages/horchata/src/util/identifier.js.
use tacoscript.Prelude.{
  ℕ, ◌+◌, ◌≤◌, ◌≡◌, ◌⊎◌, ◌↔◌, inl, inr, Bool, true, false, ◌&&◌, ◌||◌, List, [], ◌∷◌, if◌then◌else◌,
  ltb, leb, ◌==◌, arith,
}

-- The tables that the build generates from the Unicode data (`_identifierStartData.js` and
-- `_identifierContData.js`).
pub record IdentifierData : Type 0 where
  pub non_ascii_start : ℕ → Bool
  pub non_ascii_part : ℕ → Bool
  pub astral_start : List ℕ
  pub astral_part : List ℕ

-- The loop of `isInAstralSet`. An odd last entry makes `pos` NaN, and no comparison holds of it.
unfoldable pub in_astral_from : ℕ → ℕ → List ℕ → Bool
in_astral_from code pos [] = false
in_astral_from code pos (a ∷ []) = false
in_astral_from code pos (a ∷ b ∷ set) =
    let rest = in_astral_from code (pos + a + b) set in
    if ltb code (pos + a) then false else if leb code (pos + a + b) then true else rest

unfoldable pub is_in_astral_set : ℕ → List ℕ → Bool
unfolding in_astral_from
is_in_astral_set code set = in_astral_from code 0x10000 set

module _ (d : IdentifierData) where
  unfoldable pub is_identifier_start : ℕ → Bool
  unfolding is_in_astral_set
  is_identifier_start code =
      if ltb code 65
      then code == 36
      else if ltb code 91
      then true
      else if ltb code 97
      then code == 95
      else if ltb code 123
      then true
      else if leb code 0xffff
      then leb 0xaa code && d.non_ascii_start code
      else is_in_astral_set code d.astral_start

  -- The second class of characters is the first with more characters.
  unfoldable pub is_identifier_char : ℕ → Bool
  unfolding is_in_astral_set
  is_identifier_char code =
      if ltb code 48
      then code == 36
      else if ltb code 58
      then true
      else if ltb code 65
      then false
      else if ltb code 91
      then true
      else if ltb code 97
      then code == 95
      else if ltb code 123
      then true
      else if leb code 0xffff
      then leb 0xaa code && (d.non_ascii_start code || d.non_ascii_part code)
      else is_in_astral_set code d.astral_start || is_in_astral_set code d.astral_part

  -- Whatever starts an identifier may also continue one.
  pub is_identifier_char-start :
      (code : ℕ) → is_identifier_start code ≡ true → is_identifier_char code ≡ true
  unfolding is_identifier_start is_identifier_char
  is_identifier_char-start code h = ground arith

-- `code` lies in one of the ranges that the set encodes, from `pos` on: each pair is the gap to the
-- next range, and its size.
abbrev pub InRanges : ℕ → ℕ → List ℕ → Type 0
InRanges code pos [] = ⊥
InRanges code pos (a ∷ []) = ⊥
InRanges code pos (a ∷ b ∷ set) =
    ((pos + a ≤ code) × (code ≤ pos + a + b)) ⊎ InRanges code (pos + a + b) set

InRanges-le : (code pos : ℕ) (set : List ℕ) → InRanges code pos set → pos ≤ code
InRanges-le code pos [] h = absurd h
InRanges-le code pos (a ∷ []) h = absurd h
InRanges-le code pos (a ∷ b ∷ set) (inl h) = omega arith
InRanges-le code pos (a ∷ b ∷ set) (inr h) = omega (arith, InRanges-le code (pos + a + b) set h)

in_astral_from_sound :
    (code pos : ℕ) (set : List ℕ) → in_astral_from code pos set ≡ true → InRanges code pos set
unfolding in_astral_from
in_astral_from_sound code pos [] h = cc
in_astral_from_sound code pos (a ∷ []) h = cc
in_astral_from_sound code pos (a ∷ b ∷ set) h =
    ground (arith, in_astral_from_sound code (pos + a + b) set)

in_astral_from_complete :
    (code pos : ℕ) (set : List ℕ) → InRanges code pos set → in_astral_from code pos set ≡ true
unfolding in_astral_from
in_astral_from_complete code pos [] h = absurd h
in_astral_from_complete code pos (a ∷ []) h = absurd h
in_astral_from_complete code pos (a ∷ b ∷ set) (inl h) = ground arith
in_astral_from_complete code pos (a ∷ b ∷ set) (inr h) =
    ground (
      arith,
      InRanges-le code (pos + a + b) set h,
      in_astral_from_complete code (pos + a + b) set h,
    )

-- The search with its early exit decides whether the code lies in one of the encoded ranges.
pub is_in_astral_set_iff :
    (code : ℕ) (set : List ℕ) → (is_in_astral_set code set ≡ true) ↔ InRanges code 0x10000 set
unfolding is_in_astral_set
is_in_astral_set_iff code set =
    (in_astral_from_sound code 0x10000 set, in_astral_from_complete code 0x10000 set)
