-- ===== src/Printer/Balance.antt =====
-- The indentation tokens of the buffer agree with its depth.
use tacoscript.Prelude.{
  ℕ, zero, suc, ◌+◌, ◌-◌, ◌≡◌, ◌⊎◌, inl, inr, refl, sym, ap, subst, ◌∙◌, Bool, true, false, not,
  ◌&&◌, ◌||◌, Option, none, some, List, [], ◌∷◌, ◌++◌, if◌then◌else◌, ◌==◌, replicate, arith,
  Bool-cases,
}
use tacoscript.Token.{TokType, tab, newline, indent, dedent, whitespace, mapping_mark}
use tacoscript.Token.Key.{◌===◌, ===_iff}
use tacoscript.Printer.{no_value, code, level, PrintToken, is_some}
use tacoscript.Printer.Space.{needs_force_space, needs_formatting_space}
use tacoscript.Printer.Buffer.{
  Buffer, token, new_buffer, is_mark, last_of, last, remember, last_is_newline, remove_last,
  indent_tokens, insert_indent_tokens, insert_space, start_token, breaks, is_redundant, add_token,
  push, push_newline, put_back, place_indent, do_indent, do_dedent,
}

abbrev one_if : Bool → ℕ
one_if true = 1
one_if false = 0

-- How many tokens have the type.
abbrev pub count : TokType → List PrintToken → ℕ
count type [] = 0
count type (t ∷ ts) = one_if (t.type === type) + count type ts

-- There are as many `indent` tokens as the depth that was last placed, and as many more as there
-- are `dedent` tokens.
pub data Balanced (b : Buffer) : Type 0 where
  balanced : count indent b.tokens ≡ b.last_depth + count dedent b.tokens → Balanced b

count-append :
    (type : TokType) (ts us : List PrintToken)
    → count type (ts ++ us) ≡ count type ts + count type us
count-append type [] us = omega arith
count-append type (t ∷ ts) us = omega (arith, count-append type ts us)

count-replicate :
    (type : TokType) (n : ℕ) (t : PrintToken) (k : ℕ)
    → one_if (t.type === type) ≡ k
    → (k ≡ 0) ⊎ (k ≡ 1)
    → count type (replicate n t) ≡ (if k == 0 then 0 else n)
count-replicate type zero t k e h = ground arith
count-replicate type (suc n) t k e h = ground (arith, count-replicate type n t k e h)

-- What `_insertIndentTokens` adds moves the balance from the old depth to the new.
indent_tokens-balance :
    (d l : ℕ) → count indent (indent_tokens d l) + l ≡ d + count dedent (indent_tokens d l)
unfolding indent_tokens ◌===◌
indent_tokens-balance d l = ground (
  arith,
  count-replicate indent (d - l) (token indent no_value) 1 refl (inr refl),
  count-replicate dedent (d - l) (token indent no_value) 0 refl (inl refl),
  count-replicate indent (l - d) (token dedent no_value) 0 refl (inl refl),
  count-replicate dedent (l - d) (token dedent no_value) 1 refl (inr refl),
)

insert_indent_tokens-Balanced : (b : Buffer) → Balanced b → Balanced (insert_indent_tokens b)
unfolding insert_indent_tokens
insert_indent_tokens-Balanced b (balanced h) = balanced (
    omega (
      arith,
      count-append indent (indent_tokens b.depth b.last_depth) b.tokens,
      count-append dedent (indent_tokens b.depth b.last_depth) b.tokens,
      indent_tokens-balance b.depth b.last_depth,
    ))

-- A token that is neither does not count.
abbrev pub Neutral : PrintToken → Type 0
Neutral t = ((t.type === indent) ≡ false) × ((t.type === dedent) ≡ false)

count-Neutral :
    (t : PrintToken) (ts : List PrintToken)
    → Neutral t
    → (count indent (t ∷ ts) ≡ count indent ts) × (count dedent (t ∷ ts) ≡ count dedent ts)
count-Neutral t ts (h, k) = (ground arith, ground arith)

mark-type :
    (type : TokType) (t : PrintToken)
    → (mapping_mark === type) ≡ false
    → is_mark t ≡ true
    → (t.type === type) ≡ false
mark-type type t h e = ap (λ u. u === type) ((===_iff t.type mapping_mark).0 e) ∙ h

last_of-mark :
    (t : PrintToken) (ts : List PrintToken) → is_mark t ≡ true → last_of (t ∷ ts) ≡ last_of ts
unfolding last_of
last_of-mark t ts e = rw e refl

last_of-plain :
    (t : PrintToken) (ts : List PrintToken) → is_mark t ≡ false → last_of (t ∷ ts) ≡ some t
unfolding last_of
last_of-plain t ts e = rw e refl

remove_last-plain :
    (t : PrintToken) (ts : List PrintToken) → is_mark t ≡ false → remove_last (t ∷ ts) ≡ ts
unfolding remove_last last_of
remove_last-plain t ts e = rw e refl

remove_last-mark :
    (t : PrintToken) (ts : List PrintToken)
    → is_mark t ≡ true
    → remove_last (t ∷ ts) ≡ (if is_some (last_of ts) then t ∷ remove_last ts else ts)
unfolding remove_last last_of
remove_last-mark t ts e = rw e refl

-- Taking the last token off, and putting it back elsewhere, changes no count but that of marks.
count-put_back :
    (type : TokType) (ts us : List PrintToken)
    → (mapping_mark === type) ≡ false
    → count type (put_back (last_of ts) us) + count type (remove_last ts)
      ≡ count type us + count type ts
count-put_back type [] us h = unfold last_of remove_last in refl
count-put_back type (t ∷ ts) us h = elim (Bool-cases (is_mark t)) [
  | inr e ↦ rw (last_of-plain t ts e, remove_last-plain t ts e) (omega arith)
  | inl e ↦
      rw (last_of-mark t ts e, remove_last-mark t ts e)
        (by_last (last_of ts) (mark-type type t h e) (count-put_back type ts us h))
]
  where
    by_last :
        (o : Option PrintToken)
        → (t.type === type) ≡ false
        → count type (put_back o us) + count type (remove_last ts) ≡ count type us + count type ts
        → count type (put_back o us) + count type (if is_some o then t ∷ remove_last ts else ts)
          ≡ count type us + count type (t ∷ ts)
    by_last none e k = ground arith
    by_last (some u) e k = ground arith

Balanced-if : (c : Bool) {x y : Buffer} → Balanced x → Balanced y → Balanced (if c then x else y)
Balanced-if true h k = h
Balanced-if false h k = k

remember-Balanced : (b : Buffer) → Balanced b → Balanced (remember b)
remember-Balanced b (balanced h) = balanced h

no_indent : (mapping_mark === indent) ≡ false
unfolding ◌===◌
no_indent = refl

no_dedent : (mapping_mark === dedent) ≡ false
unfolding ◌===◌
no_dedent = refl

place_indent-Balanced : (b : Buffer) → Balanced b → Balanced (place_indent b)
unfolding place_indent insert_indent_tokens
place_indent-Balanced b (balanced h) =
    Balanced-if (last_is_newline b)
      (balanced (
        omega (
          arith,
          indent_tokens-balance b.depth b.last_depth,
          count-append indent (indent_tokens b.depth b.last_depth) (remove_last b.tokens),
          count-append dedent (indent_tokens b.depth b.last_depth) (remove_last b.tokens),
          count-put_back indent b.tokens
              (indent_tokens b.depth b.last_depth ++ remove_last b.tokens) no_indent,
          count-put_back dedent b.tokens
              (indent_tokens b.depth b.last_depth ++ remove_last b.tokens) no_dedent,
        )))
      (remember-Balanced b (balanced h))

cons-Balanced :
    (t : PrintToken) (b : Buffer) (c : Option PrintToken) (n : ℕ)
    → Neutral t
    → Balanced b
    → Balanced (record b { tokens = t ∷ b.tokens; cache = c; cur_line = n })
cons-Balanced t b c n m (balanced h) = balanced (
    (count-Neutral t b.tokens m).0
    ∙ h
    ∙ ap (λ k. b.last_depth + k) (sym (count-Neutral t b.tokens m).1))

space-Neutral : Neutral (token whitespace (code (32 ∷ [])))
unfolding ◌===◌
space-Neutral = (refl, refl)

tab-Neutral : (n : ℕ) → Neutral (token tab (level n))
unfolding ◌===◌
tab-Neutral n = (refl, refl)

newline-Neutral : Neutral (token newline no_value)
unfolding ◌===◌
newline-Neutral = (refl, refl)

insert_space-Balanced : (t : PrintToken) (b : Buffer) → Balanced b → Balanced (insert_space t b)
unfolding insert_space
insert_space-Balanced t b h =
    Balanced-if (needs_force_space (last b) t || not b.compact && needs_formatting_space (last b) t)
      (cons-Balanced _ b b.cache b.cur_line space-Neutral h) h

start_token-Balanced : (t : PrintToken) (b : Buffer) → Balanced b → Balanced (start_token t b)
unfolding start_token
start_token-Balanced t b (balanced h) =
    Balanced-if (t.type === newline)
      (insert_indent_tokens-Balanced (record b { cur_line = b.cur_line + 1 }) (balanced h))
      (Balanced-if (last_is_newline b)
        (cons-Balanced _ b (last b) b.cur_line (tab-Neutral b.depth) (balanced h)) (balanced h))

-- The buffers that an operation returns are balanced.
data Kept : Option Buffer → Type 0 where
  failed : Kept none
  kept : {b : Buffer} → Balanced b → Kept (some b)

Kept-if : (c : Bool) {x y : Option Buffer} → Kept x → Kept y → Kept (if c then x else y)
Kept-if true h k = h
Kept-if false h k = k

add_token-Kept :
    (t : PrintToken) (o : Option ℕ) (b : Buffer) → Neutral t → Balanced b → Kept (add_token t o b)
add_token-Kept t none b n h = failed
add_token-Kept t (some k) b n h = kept (cons-Balanced t b none (b.cur_line + k) n h)

push-Kept : (t : PrintToken) (b : Buffer) → Neutral t → Balanced b → Kept (push t b)
unfolding push
push-Kept t b n h =
    Kept-if (is_mark t)
      (Kept-if (is_redundant t.value b.tokens) (kept h)
        (kept (cons-Balanced t b b.cache b.cur_line n h)))
      (add_token-Kept t (breaks t) (insert_space t (start_token t b)) n
        (insert_space-Balanced t (start_token t b) (start_token-Balanced t b h)))

push_newline-Kept : (force : Bool) (b : Buffer) → Balanced b → Kept (push_newline force b)
unfolding push_newline
push_newline-Kept force b h =
    Kept-if force (push-Kept (token newline no_value) b newline-Neutral h) (
      Kept-if (last_is_newline b) (kept (remember-Balanced b h))
        (push-Kept (token newline no_value) (remember b) newline-Neutral (remember-Balanced b h)))

do_dedent-Kept : (b : Buffer) → Balanced b → Kept (do_dedent b)
unfolding do_dedent
do_dedent-Kept b (balanced h) =
    Kept-if (b.depth == 0) failed
      (kept (place_indent-Balanced (record b { depth = b.depth - 1 }) (balanced h)))

-- A step of the code generator: an operation of the buffer, with the buffers before and behind it.
-- The generator pushes no `indent` or `dedent` token itself.
pub data Step : Buffer → Buffer → Type 0 where
  pushing : (t : PrintToken) {b b' : Buffer} → Neutral t → push t b ≡ some b' → Step b b'
  ending : (force : Bool) {b b' : Buffer} → push_newline force b ≡ some b' → Step b b'
  indenting : {b : Buffer} → Step b (do_indent b)
  dedenting : {b b' : Buffer} → do_dedent b ≡ some b' → Step b b'

pub data Reachable (compact : Bool) : Buffer → Type 0 where
  start : Reachable compact (new_buffer compact)
  step : {b b' : Buffer} → Reachable compact b → Step b b' → Reachable compact b'

Kept-some : {o : Option Buffer} {b : Buffer} → Kept o → o ≡ some b → Balanced b
Kept-some failed e = absurd cc
Kept-some (kept h) e = subst Balanced (some-injective e) h
  where
    some-injective : {a b : Buffer} → some a ≡ some b → a ≡ b
    some-injective e = cc

Step-Balanced : {b b' : Buffer} → Balanced b → Step b b' → Balanced b'
unfolding do_indent
Step-Balanced h (pushing t n e) = Kept-some (push-Kept t _ n h) e
Step-Balanced h (ending force e) = Kept-some (push_newline-Kept force _ h) e
Step-Balanced (balanced h) indenting = place_indent-Balanced _ (balanced h)
Step-Balanced h (dedenting e) = Kept-some (do_dedent-Kept _ h) e

-- In every buffer that the operations reach from a new one, in the order of any calls, the number
-- of `indent` tokens is the depth that was last placed and the number of `dedent` tokens together.
pub Reachable-Balanced : (compact : Bool) (b : Buffer) → Reachable compact b → Balanced b
unfolding ◌===◌
Reachable-Balanced compact b start = balanced (omega arith)
Reachable-Balanced compact b (step h s) = Step-Balanced (Reachable-Balanced compact _ h) s
