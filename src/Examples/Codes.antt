-- ===== src/Examples/Codes.antt =====
-- Tokens made from codes.
use tacoscript.Prelude.{◌≡◌, ◌≢◌, refl, none, some, [], ◌∷◌}
use tacoscript.Token.{assign, star, name}
use tacoscript.Token.Key.{index, ◌===◌}
use tacoscript.Token.Keyword.{keyword_table}
use tacoscript.Text.{Chars}
use tacoscript.Reader.Punct.Code.{punctuation_code}
use tacoscript.Lexer.FromCode.{
  CodeState, type_code, plain_code, find_code, case_of, bare_case, switch_code, state_from_code,
  state_from_code-plain_code, state_from_code-type_code,
}

abbrev plus_eq : Chars
plus_eq = b'+' ∷ b'=' ∷ []

abbrev plus_eq_state : CodeState
plus_eq_state = record { type = assign; value = some plus_eq }

plus_eq-ne : plus_eq ≢ []
plus_eq-ne = cc

-- The exponent's own operator has no token.
no_exponent : state_from_code none (b'*' ∷ b'*' ∷ []) ≡ none
unfolding state_from_code find_code type_code punctuation_code keyword_table index ◌===◌ switch_code
    case_of bare_case
no_exponent = refl

state_from_code-plain_code_example : plain_code plus_eq_state ≡ plus_eq
unfolding state_from_code find_code type_code punctuation_code keyword_table index ◌===◌ switch_code
    case_of bare_case
state_from_code-plain_code_example =
    state_from_code-plain_code plus_eq plus_eq_state plus_eq-ne refl

state_from_code-type_code_example :
    (s : CodeState) × (state_from_code (some name) (b'*' ∷ []) ≡ some s)
    × (type_code s.type ≡ some (b'*' ∷ []))
unfolding type_code punctuation_code
state_from_code-type_code_example = state_from_code-type_code (some name) star (b'*' ∷ []) refl
