-- ===== src/Reader/Quoted/RoundTrip.antt =====
-- The code of a string token is read back as its value.
use tacoscript.Prelude.{
  ℕ, zero, suc, ◌+◌, ◌-◌, ◌≤◌, ◌<◌, ◌≡◌, refl, ap, ◌∙◌, sym, true, false, some, [], ◌∷◌, ◌++◌,
  length, length-append, arith, append_assoc, append-nil, All,
}
use tacoscript.Text.{Chars}
use tacoscript.Reader.{Env, ok, raise, unterminated_string}
use tacoscript.Reader.Quoted.Units.{cursor, is_separator, read_unit}
use tacoscript.Reader.Quoted.{read_string_from, read_string, json_escape, json_body, string_to_code}

-- From inside the string, the loop reads the escapes of `v` in as many rounds as `v` is long.
read_prefix :
    (v : Chars) (env : Env) (rounds fuel start : ℕ) (out chunk : Chars) (p l s : ℕ) (rest : Chars)
    → All (λ c. is_separator c ≡ false) v
    → rounds ≡ length v + fuel
    → (out' : Chars) × (chunk' : Chars) × (read_string_from rounds env 34 start out chunk
          (cursor p (json_body v ++ rest) l s)
        ≡ read_string_from fuel env 34 start out' chunk'
            (cursor (p + length (json_body v)) rest l s))
      × (out' ++ chunk' ≡ (out ++ chunk) ++ v)
unfolding json_body
read_prefix [] env rounds fuel start out chunk p l s rest n e =
    let same : rounds ≡ fuel = omega arith in
    let here : p + 0 ≡ p = omega arith in
    (out, chunk, rw (same, here), sym (append-nil (out ++ chunk)))
read_prefix (c ∷ v) env zero fuel start out chunk p l s rest n e = absurd (omega arith)
read_prefix (c ∷ v) env (suc rounds) fuel start out chunk p l s rest n e =
    let (out₁, chunk₁, step, same) =
      read_unit c env rounds start out chunk p l s (json_body v ++ rest) n.0 in
    let (out₂, chunk₂, steps, same₂) =
      read_prefix v env rounds fuel start out₁ chunk₁ (p + length (json_escape c)) l s rest n.1
        (omega arith) in
    let at_end : p + length (json_escape c) + length (json_body v)
        ≡ p + length (json_escape c ++ json_body v) =
      omega (arith, length-append (json_escape c) (json_body v)) in
    (
      out₂,
      chunk₂,
      rw (append_assoc (json_escape c) (json_body v) rest, ← at_end) (step ∙ steps),
      same₂ ∙ rw same (append_assoc (out ++ chunk) (c ∷ []) v),
    )

length-json_escape_pos : (c : ℕ) → 0 < length (json_escape c)
unfolding json_escape
length-json_escape_pos c = ground arith

length-json_body : (v : Chars) → length v ≤ length (json_body v)
unfolding json_body
length-json_body [] = omega arith
length-json_body (c ∷ v) = omega (
  arith,
  length-append (json_escape c) (json_body v),
  length-json_escape_pos c,
  length-json_body v,
)

-- `readString` of a text that goes on with the escapes of `v`, up to what follows them.
read_string_prefix :
    (env : Env) (v : Chars) (p l s : ℕ) (text rest : Chars)
    → All (λ c. is_separator c ≡ false) v
    → text ≡ json_body v ++ rest
    → (fuel : ℕ) × (out : Chars) × (chunk : Chars) × (read_string env 34 (cursor p (34 ∷ text) l s)
        ≡ read_string_from
            (suc fuel)
            env
            34
            p
            out
            chunk
            (cursor (p + 1 + length (json_body v)) rest l s))
      × (out ++ chunk ≡ v)
unfolding read_string
read_string_prefix env v p l s text rest n e =
    let fuel = length text - length v + 1 in
    let size : length text ≡ length (json_body v) + length rest =
      ap length e ∙ length-append (json_body v) rest in
    let (out, chunk, steps, same) =
      read_prefix v env (suc (length text) + 1) (suc fuel) p [] [] (p + 1) l s rest n
        (omega (arith, length-json_body v)) in
    (fuel, out, chunk, rw (← e) at steps, same)

-- A string token without U+2028 and U+2029 is read back from its code: `readString` at the opening
-- quote returns its value, and stands behind the closing quote, whatever follows.
pub read_string-string_to_code :
    (env : Env) (v : Chars) (p l s : ℕ) (rest : Chars)
    → All (λ c. is_separator c ≡ false) v
    → read_string env 34 (cursor p (string_to_code v ++ rest) l s)
      ≡ ok (v, cursor (p + length (string_to_code v)) rest l s)
unfolding string_to_code
read_string-string_to_code env v p l s rest n =
    let (fuel, out, chunk, steps, same) =
      read_string_prefix env v p l s _ (34 ∷ rest) n (append_assoc (json_body v) (34 ∷ []) rest) in
    let at_end : p + 1 + length (json_body v) + 1 ≡ p + suc (length (json_body v ++ 34 ∷ [])) =
      omega (arith, length-append (json_body v) (34 ∷ [])) in
    steps ∙ (unfold read_string_from in λ i. ok (same i, cursor (at_end i) rest l s))

json_body-append : (v w : Chars) → json_body (v ++ w) ≡ json_body v ++ json_body w
unfolding json_body
json_body-append [] w = refl
json_body-append (c ∷ v) w =
    ap (◌++◌ (json_escape c)) (json_body-append v w)
    ∙ sym (append_assoc (json_escape c) (json_body v) (json_body w))

json_escape_separator : (c : ℕ) → is_separator c ≡ true → json_escape c ≡ c ∷ []
unfolding json_escape
json_escape_separator c h = ground arith

read_separator :
    (env : Env) (c fuel start : ℕ) (out chunk : Chars) (p l s : ℕ) (rest : Chars)
    → is_separator c ≡ true
    → read_string_from (suc fuel) env 34 start out chunk (cursor p (c ∷ rest) l s)
      ≡ raise (some start) unterminated_string
unfolding read_string_from
read_separator env c fuel start out chunk p l s rest h = ground arith

-- A string with U+2028 or U+2029 is not read back from its code: the code leaves the character as
-- it is, and `readString` then takes the string for unterminated.
pub read_string_separator :
    (env : Env) (v w : Chars) (c p l s : ℕ) (rest : Chars)
    → All (λ d. is_separator d ≡ false) v
    → is_separator c ≡ true
    → read_string env 34 (cursor p (string_to_code (v ++ c ∷ w) ++ rest) l s)
      ≡ raise (some p) unterminated_string
unfolding string_to_code
read_string_separator env v w c p l s rest n h =
    let body : json_body (v ++ c ∷ w) ≡ json_body v ++ c ∷ json_body w =
      json_body-append v (c ∷ w)
      ∙ ap (λ e. json_body v ++ (e ++ json_body w)) (json_escape_separator c h) in
    let (fuel, out, chunk, steps, same) =
      read_string_prefix env v p l s _ (c ∷ ((json_body w ++ 34 ∷ []) ++ rest)) n
        (ap (λ b. (b ++ 34 ∷ []) ++ rest) body ∙ simp append_assoc) in
    steps ∙ read_separator env c fuel p out chunk _ l s _ h
