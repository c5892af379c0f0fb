-- ===== src/Lexer/FromCode.antt =====
-- `Token.stateFromCode` of packages/horchata/src/lexer/token.js, by which a printer makes tokens from codes.
use tacoscript.Prelude.{
  ℕ, zero, suc, ◌≡◌, ◌≢◌, refl, ap, subst, ◌∙◌, inl, inr, Bool, true, false, ◌||◌, Option, none,
  some, List, [], ◌∷◌, if◌then◌else◌, get_elem?, false≢true, Bool-cases, Option-cases, ◌==◌, ==_iff,
}
use tacoscript.Token.{
  TokType, arrow, assign, inc_dec, equality, relational, bit_shift, plus_min, semi, doublesemi,
}
use tacoscript.Token.Key.{all_types, index, get_elem?-index, ◌===◌}
use tacoscript.Token.Keyword.{same_text, keyword_table}
use tacoscript.Text.{Chars}
use tacoscript.Reader.Punct.Code.{punctuation_code, or_value}

-- The `type` and the `value` that a token is made with; `none` is a value that is not given.
pub record CodeState : Type 0 where
  pub type : TokType
  pub value : Option Chars

-- The `code` of a type: that of serialization.js, or the name that `kw` sets.
abbrev pub word_of : List (Chars × TokType) → TokType → Option Chars
word_of [] t = none
word_of ((w, u) ∷ table) t = if u === t then some w else word_of table t

unfoldable pub type_code : TokType → Option Chars
type_code t = of_code (punctuation_code t)
  where
    of_code : Option Chars → Option Chars
    of_code (some c) = some c
    of_code none = word_of keyword_table t

-- `toCode` of a type that has none of its own.
abbrev pub plain_code : CodeState → Chars
plain_code s = or_value (type_code s.type) s.value

abbrev pub is_code : Chars → Option Chars → Bool
is_code code none = false
is_code code (some c) = same_text c code

-- The first of the types with the code.
unfoldable pub find_code : List TokType → Chars → Option TokType
find_code [] code = none
find_code (t ∷ ts) code = if is_code code (type_code t) then some t else find_code ts code

abbrev pub one_of : List Chars → Chars → Bool
one_of [] code = false
one_of (c ∷ cs) code = same_text c code || one_of cs code

-- A case of the `switch`, with its type, and the cases below it.
unfoldable pub case_of : List Chars → TokType → Chars → Option CodeState → Option CodeState
case_of codes t code below =
    if one_of codes code then some (record { type = t; value = some code }) else below

unfoldable pub bare_case : Chars → TokType → Chars → Option CodeState → Option CodeState
bare_case c t code below =
    if same_text c code then some (record { type = t; value = none }) else below

abbrev pub default_state : Option TokType → Chars → Option CodeState
default_state (some t) code = some (record { type = t; value = some code })
default_state none code = none

unfoldable pub switch_code : Chars → Option CodeState → Option CodeState
switch_code code below =
    case_of
      ((b'=' ∷ b'>' ∷ [])
        ∷ (b'=' ∷ b'>' ∷ b'>' ∷ [])
        ∷ (b'-' ∷ b'>' ∷ [])
        ∷ (b'-' ∷ b'>' ∷ b'>' ∷ [])
        ∷ (b'+' ∷ b'>' ∷ [])
        ∷ (b'+' ∷ b'>' ∷ b'>' ∷ [])
        ∷ (b'+' ∷ b'=' ∷ b'>' ∷ [])
        ∷ (b'+' ∷ b'=' ∷ b'>' ∷ b'>' ∷ [])
        ∷ [])
      arrow code
      (case_of
        ((b'+' ∷ b'=' ∷ [])
          ∷ (b'-' ∷ b'=' ∷ [])
          ∷ (b'/' ∷ b'=' ∷ [])
          ∷ (b'*' ∷ b'=' ∷ [])
          ∷ (b'*' ∷ b'*' ∷ b'=' ∷ [])
          ∷ (b'%' ∷ b'=' ∷ [])
          ∷ (b'|' ∷ b'=' ∷ [])
          ∷ (b'&' ∷ b'=' ∷ [])
          ∷ (b'^' ∷ b'=' ∷ [])
          ∷ (b'<' ∷ b'<' ∷ b'=' ∷ [])
          ∷ (b'>' ∷ b'>' ∷ b'=' ∷ [])
          ∷ (b'>' ∷ b'>' ∷ b'>' ∷ b'=' ∷ [])
          ∷ [])
        assign code
        (case_of ((b'+' ∷ b'+' ∷ []) ∷ (b'-' ∷ b'-' ∷ []) ∷ []) inc_dec code (
          case_of
            ((b'=' ∷ b'=' ∷ [])
              ∷ (b'=' ∷ b'=' ∷ b'=' ∷ [])
              ∷ (b'!' ∷ b'=' ∷ [])
              ∷ (b'!' ∷ b'=' ∷ b'=' ∷ [])
              ∷ [])
            equality code
            (case_of ((b'<' ∷ []) ∷ (b'<' ∷ b'=' ∷ []) ∷ (b'>' ∷ []) ∷ (b'>' ∷ b'=' ∷ []) ∷ [])
              relational code
              (case_of ((b'<' ∷ b'<' ∷ []) ∷ (b'>' ∷ b'>' ∷ []) ∷ (b'>' ∷ b'>' ∷ b'>' ∷ []) ∷ [])
                bit_shift code
                (case_of ((b'+' ∷ []) ∷ (b'-' ∷ []) ∷ []) plus_min code (
                  bare_case (b';' ∷ []) semi code
                    (bare_case (b';' ∷ b';' ∷ []) doublesemi code below))))))))

-- `none` is the thrown Error.
unfoldable pub state_from_code : Option TokType → Chars → Option CodeState
state_from_code default_type code = by_type (find_code all_types code)
  where
    by_type : Option TokType → Option CodeState
    by_type (some t) = some (record { type = t; value = none })
    by_type none = switch_code code (default_state default_type code)

same_text→eq : (v w : Chars) → same_text v w ≡ true → v ≡ w
same_text→eq [] [] h = refl
same_text→eq [] (d ∷ ds) h = absurd cc
same_text→eq (c ∷ cs) [] h = absurd cc
same_text→eq (c ∷ cs) (d ∷ ds) h = elim (Bool-cases (c == d)) [
  | inl q ↦ cc ((==_iff c d).0 q, same_text→eq cs ds ((rw q refl) ∙ h))
  | inr q ↦ absurd (false≢true ((rw q refl) ∙ h))
]

-- A state that is made has the code that it was asked for.
abbrev Makes : Chars → Option CodeState → Type 0
Makes code none = Unit
Makes code (some s) = plain_code s ≡ code

is_code→eq : (code : Chars) (o : Option Chars) → is_code code o ≡ true → o ≡ some code
is_code→eq code none h = absurd cc
is_code→eq code (some c) h = ap some (same_text→eq c code h)

same_text_self : (c : Chars) → same_text c c ≡ true
same_text_self [] = refl
same_text_self (c ∷ cs) = rw ((==_iff c c).1 refl) (same_text_self cs)

some-injective : {t u : TokType} → some t ≡ some u → t ≡ u
some-injective e = cc

-- The types of the `switch` have no code, but for those of the semicolons.
switch_types :
    (type_code arrow ≡ none)
    × (type_code assign ≡ none)
    × (type_code inc_dec ≡ none)
    × (type_code equality ≡ none)
    × (type_code relational ≡ none)
    × (type_code bit_shift ≡ none)
    × (type_code plus_min ≡ none)
    × (type_code semi ≡ some (b';' ∷ []))
    × (type_code doublesemi ≡ some (b';' ∷ b';' ∷ []))
unfolding type_code punctuation_code keyword_table ◌===◌ index
switch_types = (refl, refl, refl, refl, refl, refl, refl, refl, refl)

module _ (c : ℕ) (cs : Chars) where
  abbrev code : Chars
  code = c ∷ cs

  find_code-type_code :
      (ts : List TokType) (t : TokType) → find_code ts code ≡ some t → type_code t ≡ some code
  unfolding find_code
  find_code-type_code [] t h = absurd cc
  find_code-type_code (u ∷ ts) t h = elim (Bool-cases (is_code code (type_code u))) [
    | inl q ↦
        (let same : u ≡ t = some-injective ((rw q refl) ∙ h) in
          is_code→eq code (type_code t) (subst (λ x. is_code code (type_code x) ≡ true) same q))
    | inr q ↦ find_code-type_code ts t ((rw q refl) ∙ h)
  ]

  case_of-Makes :
      (codes : List Chars) (t : TokType) (below : Option CodeState)
      → type_code t ≡ none
      → Makes code below
      → Makes code (case_of codes t code below)
  unfolding case_of
  case_of-Makes codes t below e h = elim (Bool-cases (one_of codes code)) [
    | inl q ↦ rw q (ap (λ o. or_value o (some code)) e)
    | inr q ↦ rw q h
  ]

  bare_case-Makes :
      (d : ℕ) (ds : Chars) (t : TokType) (below : Option CodeState)
      → type_code t ≡ some (d ∷ ds)
      → Makes code below
      → Makes code (bare_case (d ∷ ds) t code below)
  unfolding bare_case
  bare_case-Makes d ds t below e h = elim (Bool-cases (same_text (d ∷ ds) code)) [
    | inl q ↦ rw q (ap (λ o. or_value o none) e ∙ same_text→eq _ _ q)
    | inr q ↦ rw q h
  ]

  switch_code-Makes : Makes code (switch_code code none)
  unfolding switch_code
  switch_code-Makes = case_of-Makes _ arrow _ switch_types.0 (
      case_of-Makes _ assign _ switch_types.1 (
        case_of-Makes _ inc_dec _ switch_types.2 (
          case_of-Makes _ equality _ switch_types.3 (
            case_of-Makes _ relational _ switch_types.4 (
              case_of-Makes _ bit_shift _ switch_types.5 (
                case_of-Makes _ plus_min _ switch_types.6 (
                  bare_case-Makes _ _ semi _ switch_types.7
                    (bare_case-Makes _ _ doublesemi none switch_types.8 tt))))))))

  state-Makes : Makes code (state_from_code none code)
  unfolding state_from_code
  state-Makes = elim (Option-cases (find_code all_types code)) [
    | inl q ↦ rw q switch_code-Makes
    | inr (t, q) ↦ rw q (ap (λ o. or_value o none) (find_code-type_code all_types t q))
  ]

Makes-some :
    (code : Chars) (o : Option CodeState) (s : CodeState)
    → o ≡ some s
    → Makes code o
    → plain_code s ≡ code
Makes-some code o s e h = subst (Makes code) e h

-- The state that is made for a code, where no default type is given and the code is not empty, prints
-- as that code.
pub state_from_code-plain_code :
    (code : Chars) (s : CodeState)
    → code ≢ []
    → state_from_code none code ≡ some s
    → plain_code s ≡ code
state_from_code-plain_code [] s ne e = absurd (ne refl)
state_from_code-plain_code (c ∷ cs) s ne e = Makes-some _ _ s e (state-Makes c cs)

-- What the code of a type is found as.
data FindsCode (code : Chars) : Option TokType → Type 0 where
  finds : {t : TokType} → type_code t ≡ some code → FindsCode code (some t)

find_code-FindsCode :
    (ts : List TokType) (i : ℕ) (t : TokType) (code : Chars)
    → get_elem? ts i ≡ some t
    → type_code t ≡ some code
    → FindsCode code (find_code ts code)
unfolding find_code
find_code-FindsCode [] i t code h e = absurd cc
find_code-FindsCode (u ∷ ts) zero t code h e =
    let own : type_code u ≡ some code = ap type_code (some-injective h) ∙ e in
    rw own (rw (same_text_self code) (finds own))
find_code-FindsCode (u ∷ ts) (suc i) t code h e = elim (Bool-cases (is_code code (type_code u))) [
  | inl q ↦ rw q (finds (is_code→eq code _ q))
  | inr q ↦ rw q (find_code-FindsCode ts i t code h e)
]

-- Each code of a token type makes a token of a type with that code, whatever the default.
pub state_from_code-type_code :
    (default_type : Option TokType) (t : TokType) (code : Chars)
    → type_code t ≡ some code
    → (s : CodeState) × (state_from_code default_type code ≡ some s)
      × (type_code s.type ≡ some code)
unfolding state_from_code
state_from_code-type_code default_type t code e =
    by_found _ refl (find_code-FindsCode all_types (index t) t code (get_elem?-index t) e)
  where
    by_found :
        (o : Option TokType)
        → find_code all_types code ≡ o
        → FindsCode code o
        → (s : CodeState) × (state_from_code default_type code ≡ some s)
          × (type_code s.type ≡ some code)
    by_found none q k = elim k [ ]
    by_found (some u) q (finds k) = (record { type = u; value = none }, rw q refl, k)
