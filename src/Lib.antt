-- ===== src/Lib.antt =====
-- Verification of tacoscript, an alternative surface syntax for JavaScript: its lexer (horchata),
-- the spacing and the token buffer of its code generator (tacotruck), and the rule by which its
-- conversion of JavaScript sets parentheses (alpastor).
--
-- The program. horchata turns a text into tokens and parses them: `getTokenFromCode` chooses a reader by the next
-- character, `finishToken` calls `updateContext`, which keeps the stack of contexts that tells a
-- regular expression from a division, and `hasIndentationChanged` looks past a line break for the
-- level of the next line. tacotruck pushes tokens to a buffer, which places the `indent` and
-- `dedent` tokens and sets spaces by the rules of horchata's serialization.js; the code of a token
-- comes from there too. alpastor asks `needsParens` for each expression that it converts.
--
-- The files.
--   Prelude: library names, Boolean tests, lists.
--   Token, Token/Conf, Token/Key, Token/Keyword: the token types and their properties
--     (packages/horchata/src/lexer/types.js). A constructor is a key of `types` in snake case; the
--     keyword `_if` is `kw_if`.
--   Context: `updateContext` (lexer/context.js). The state is the array of contexts, its last element
--     first, with the flags; Context/Stack and Context/Meta have its theorems.
--   Text, Text/Utf16, Text/Ident: white space, code units and identifier characters
--     (packages/horchata/src/util, and `fullCharCodeAtPos`).
--   Reader/Double: the rounding of `total * radix + val` in `readNumber_int`. A number is the integer that it
--     is, and `Infinity` is 2 ^ 1024.
--   Reader and below: the readers of packages/horchata/src/lexer/index.js. A cursor is `state.pos`
--     with the input from there on. Reader/Number (`readNumber*`), Reader/Escape (`readEscapedChar`),
--     Reader/Quoted (`readString`), Reader/Word (`readWord*`), Reader/Punct (`getTokenFromCode` and
--     `readToken_*`), Reader/Punct/Regexp (`readRegexp`), Reader/Punct/Code (`toCode`).
--   Indentation: `hasIndentationChanged`, `_isCommentStart`, `_findCommentEnd` (lexer/indentation.js and
--     lexer/index.js).
--   Lexer and below: the whole lexer. Lexer has `State` and `Token` (lexer/state.js, token.js), the arrays
--     with their last element first; the position is that of the cursor. Lexer/Comment (`skipLineComment`,
--     `skipBlockComment`, lexer/comments.js), Lexer/Skip (`skipNonTokens`, `skipIndentation`),
--     Lexer/Template (`readTmplToken`), Lexer/Fetch (`readNextToken` and `readToken` up to the call of
--     `finishToken`), Lexer/Run (`finishToken` and its look behind a line break, `readNextToken`,
--     `nextToken`, `next`, `ensureLookahead`). Two tokens are the same object if their places in
--     `sourceElementsTokens` are equal, where each token is pushed once. Where the code leaves
--     `undefined` in `state.cur` or `state.next`, behind the `eof`, the TypeError of the parser's
--     next look at its type is thrown at once. The other modules below it have the proofs:
--     Lexer/Fits, Stored, Invariant and Reachable for the loop, Joining for continued lines, Closing
--     for the end of the input.
--   Lexer/FromCode: `Token.stateFromCode` (lexer/token.js), without its cache; the thrown Error is `none`.
--   Comments, Comments/Parts, Comments/Visits: the attachment of comments to the nodes of the tree
--     (packages/horchata/src/postprocessors/comments.js). Nodes are numbered, and a store gives the node of
--     each number, so that `traverse` and `assignComments` assign to shared objects. A child that is not
--     a node throws the TypeError of its missing `sourceElements`; An index
--     behind the end of `ast.comments` gives a `none`, and reading a field of that throws.
--   Operators: the operator precedence parser (packages/horchata/src/parser/types/expressions.js) over
--     a list of tokens. Operators/Unary has the operands with their prefix and postfix operators
--     (`parseExpressionMaybeUnary`); what reads subscripts there, `parseExpressionSubscripts`, is the
--     parameter `Subscripts`, since it leads to the rest of the parser, which is not modelled. The
--     operator parser itself takes any `Operands`, of which `unary_operands` are the program's.
--   Parens, Parens/Rules: packages/alpastor/src/path. A path is the list of nodes up to the root with
--     the field that holds each, so that `parent.callee === node` asks for the field.
--   Printer/Comment: the text of a block comment in packages/tacotruck/src/printer/index.js.
--   Printer, Printer/Space, Printer/Buffer: packages/tacotruck/src/printer/buffer.js and the spacing of
--     packages/horchata/src/lexer/serialization.js. The tokens of the buffer are in reverse order.
--   Examples: concrete runs.
--
-- Characters are UTF-16 code units as natural numbers; an index behind the end of the input reads as
-- `none`, the NaN of `charCodeAt`. A thrown error is a value: `raise` with position and message, or
-- `type_error`, or `none` where there is one kind only.
--
-- Fuel. `readString` and `readWordSingle` have one more unit than there are characters, and so has the
-- loop of `hasIndentationChanged`, `readTmplToken` and `skipNonTokens`: each round moves on by a character at least. `readNextToken` has two more: it is called
-- again behind a line break, which moves on or makes a dedent due. The operator parser
-- has one more unit than there are tokens behind the first operand: each call takes an operator. The traversal of
-- a tree of nodes has more fuel than the tree is high.
--
-- Not modelled. The generated identifier tables are a parameter (`IdentifierData`). Regular
-- expressions are taken by their meaning, `parseFloat` by its text, and `JSON.stringify` by the
-- editions of ECMAScript before 2019. Source maps, lines and columns of tokens, plugins
-- and the parser except its operators are not modelled, nor are the packages comal, comal-traverse, comal-types, cstify and tacoscript. `_indent` below zero is not followed.
-- `state.indentRepeat` is read only once the indentation character is known.
pub mod Prelude
pub mod Token
pub mod Comments
pub mod Context
pub mod Text
pub mod Reader
pub mod Indentation
pub mod Operators
pub mod Parens
pub mod Printer
pub mod Lexer
pub mod Examples
