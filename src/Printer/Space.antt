-- ===== src/Printer/Space.antt =====
-- The spacing rules of packages/horchata/src/lexer/serialization.js, and the test for a space of
-- packages/tacotruck/src/printer/buffer.js.
use tacoscript.Prelude.{
  Bool, true, false, not, ◌&&◌, ◌||◌, Option, none, some, [], ◌∷◌, if◌then◌else◌,
}
use tacoscript.Text.{Chars}
use tacoscript.Token.{
  TokType, num, regexp, string, name, newline, bracket_l, bracket_r, brace_l, brace_r, paren_l,
  paren_r, comma, semi, doublesemi, colon, arrow, ellipsis, back_quote, excl, eq, assign, inc_dec,
  bitwise_or, bitwise_xor, bitwise_and, equality, relational, bit_shift, plus_min, modulo, star,
  slash, kw_then, kw_export, kw_import, kw_super, kw_this,
}
use tacoscript.Token.Key.{◌===◌}
use tacoscript.Token.Keyword.{same_text}
use tacoscript.Printer.{text, PrintToken, is_keyword_type}

-- An entry of a table: missing, `true`, or a function of the two tokens, by its answer.
pub data Entry : Type 0 where
  missing always : Entry
  when : Bool → Entry

abbrev pub holds : Entry → Bool
holds missing = false
holds always = true
holds (when b) = b

-- `token.value === s`
abbrev pub has_text : PrintToken → Chars → Bool
has_text t s = elim t.value [ text v ↦ same_text v s | _ ↦ false ]

-- The keys of a keyword's table besides `keyword`; the same types have the key `keyword` in theirs.
abbrev pub before_keyword : TokType → Entry
before_keyword name = always
before_keyword num = always
before_keyword string = always
before_keyword _ = missing

-- `type.forceSpaceWhenAfter.keyword`
unfoldable pub force_keyword : TokType → Entry
force_keyword t = if is_keyword_type t then always else before_keyword t

abbrev plus_plus : PrintToken → PrintToken → Bool
plus_plus left right =
    has_text left (43 ∷ []) && has_text right (43 ∷ 43 ∷ [])
    || has_text left (45 ∷ []) && has_text right (45 ∷ 45 ∷ [])

abbrev plus_plus_min : PrintToken → PrintToken → Bool
plus_plus_min left right =
    plus_plus left right
    || has_text left (43 ∷ []) && has_text right (43 ∷ [])
    || has_text left (45 ∷ []) && has_text right (45 ∷ [])

-- For a type on the right that is no keyword.
abbrev pub plain_entry : PrintToken → PrintToken → TokType → TokType → Entry
plain_entry left right inc_dec plus_min = when (plus_plus left right)
plain_entry left right inc_dec excl = when (has_text right (45 ∷ 45 ∷ []))
plain_entry left right name name = always
plain_entry left right plus_min plus_min = when (plus_plus_min left right)
plain_entry left right relational inc_dec =
    when (has_text left (45 ∷ 45 ∷ []) && has_text right (62 ∷ []))
plain_entry left right _ _ = missing

-- `type.forceSpaceWhenAfter[key]`
unfoldable pub force_entry : PrintToken → PrintToken → Entry
force_entry left right =
    if is_keyword_type right.type
    then before_keyword left.type
    else plain_entry left right right.type left.type

-- `type.formattingSpaceAfter`, of the left token
unfoldable pub formatting_after : PrintToken → PrintToken → Bool
formatting_after left right = by_type left.type
  where
    by_type : TokType → Bool
    by_type plus_min = not left.unary
    by_type star = not (right.type === arrow)
    by_type slash = true
    by_type modulo = true
    by_type assign = true
    by_type bit_shift = true
    by_type bitwise_and = true
    by_type bitwise_or = true
    by_type bitwise_xor = true
    by_type equality = true
    by_type relational = true
    by_type arrow =
        not (right.type === paren_r) && not (right.type === newline) && not (right.type === comma)
    by_type colon = true
    by_type doublesemi = true
    by_type eq = true
    by_type semi = true
    by_type _ = false

-- The keys of the tables of `formattingSpaceWhenAfter`, by the right type.
abbrev operand_type : TokType → Entry
operand_type name = always
operand_type num = always
operand_type paren_r = always
operand_type string = always
operand_type _ = missing

abbrev operand_or_quote : TokType → Entry
operand_or_quote back_quote = always
operand_or_quote t = operand_type t

abbrev star_operand : TokType → Entry
star_operand kw_export = always
star_operand kw_import = always
star_operand bracket_r = always
star_operand comma = always
star_operand t = operand_or_quote t

abbrev opening : TokType → Entry
opening arrow = always
opening comma = always
opening _ = missing

abbrev opening_or_excl : TokType → Entry
opening_or_excl excl = always
opening_or_excl t = opening t

abbrev opening_or_eq : TokType → Entry
opening_or_eq eq = always
opening_or_eq t = opening t

abbrev name_like : TokType → Entry
name_like back_quote = always
name_like t = opening_or_excl t

abbrev closing : TokType → Entry
closing bracket_r = always
closing brace_r = always
closing comma = always
closing inc_dec = always
closing paren_r = always
closing _ = missing

abbrev after_semi : TokType → Entry
after_semi doublesemi = always
after_semi kw_then = always
after_semi _ = missing

abbrev eq_target : TokType → Entry
eq_target name = always
eq_target brace_r = always
eq_target bracket_r = always
eq_target _ = missing

abbrev only : Bool → Entry
only b = if b then always else missing

-- `type.formattingSpaceWhenAfter[key]`: the right type, and the left type
unfoldable pub formatting_entry : TokType → TokType → Entry
formatting_entry plus_min l = operand_or_quote l
formatting_entry star l = star_operand l
formatting_entry slash l = operand_type l
formatting_entry modulo l = operand_type l
formatting_entry assign l = operand_type l
formatting_entry bit_shift l = operand_type l
formatting_entry bitwise_and l = operand_type l
formatting_entry bitwise_or l = operand_type l
formatting_entry bitwise_xor l = operand_type l
formatting_entry equality l = operand_type l
formatting_entry relational l = operand_type l
formatting_entry arrow l = only (l === paren_r)
formatting_entry bracket_l l = opening_or_eq l
formatting_entry brace_l l = opening l
formatting_entry ellipsis l = only (l === comma)
formatting_entry doublesemi l = after_semi l
formatting_entry eq l = eq_target l
formatting_entry name l = name_like l
formatting_entry num l = opening_or_excl l
formatting_entry paren_l l = opening_or_excl l
formatting_entry string l = opening l
formatting_entry r l = if is_keyword_type r then closing l else missing

-- Its `keyword`.
unfoldable pub formatting_keyword : TokType → TokType → Entry
formatting_keyword bracket_l l = when (not (l === kw_super) && not (l === kw_this))
formatting_keyword brace_l l = always
formatting_keyword inc_dec l = always
formatting_keyword paren_l l = when (not (l === kw_super))
formatting_keyword regexp l = always
formatting_keyword _ l = missing

-- `whenAfterTests[left.type.key] || left.type.keyword && whenAfterTests.keyword`
abbrev pub entry_or : Entry → Bool → Entry → Entry
entry_or missing is_keyword keyword_entry = if is_keyword then keyword_entry else missing
entry_or e is_keyword keyword_entry = e

-- `_testInsertSpace(left, right, "forceSpace")`. No type has a `forceSpaceAfter`, and the loop over
-- the plugins goes over their indices, which have no `tokType`.
unfoldable pub needs_force_space : Option PrintToken → PrintToken → Bool
unfolding force_entry force_keyword
needs_force_space none right = false
needs_force_space (some left) right =
    holds (entry_or (force_entry left right) (is_keyword_type left.type) (force_keyword right.type))

-- `_testInsertSpace(left, right, "formattingSpace")`
unfoldable pub needs_formatting_space : Option PrintToken → PrintToken → Bool
unfolding formatting_after formatting_entry formatting_keyword
needs_formatting_space none right = false
needs_formatting_space (some left) right =
    formatting_after left right
    || holds (
        entry_or (formatting_entry right.type left.type) (is_keyword_type left.type)
          (formatting_keyword right.type left.type))
