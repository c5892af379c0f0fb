-- ===== src/Printer.antt =====
-- packages/tacotruck/src/printer: the buffer of tokens that the code generator fills. Its tokens are
-- declared here.
pub mod Space
pub mod Buffer
pub mod Balance
pub mod Separation
pub mod Comment
use tacoscript.Prelude.{ℕ, Bool, true, false, Option, none, some, ◌==◌, ◌&&◌}
use tacoscript.Text.{Chars}
use tacoscript.Token.{TokType}
use tacoscript.Token.Conf.{type_of}

-- The values of the tokens that the buffer looks into: a text, the level of a `tab`, the `code` of
-- an object, and the `pos` of a mapping mark.
pub data Value : Type 0 where
  no_value : Value
  text code : Chars → Value
  level : ℕ → Value
  mark : ℕ → Value

-- `unary` is `meta.unary`.
pub record PrintToken : Type 0 where
  pub type : TokType
  pub value : Value
  pub unary : Bool

abbrev pub is_some {ℓ} : {A : Type ℓ} → Option A → Bool
is_some none = false
is_some (some a) = true

-- `type.keyword`, as a condition
unfoldable pub is_keyword_type : TokType → Bool
is_keyword_type t = is_some (type_of t).keyword
