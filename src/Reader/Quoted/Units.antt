-- ===== src/Reader/Quoted/Units.antt =====
-- One code unit of a string: its escape, as `JSON.stringify` writes it, is read back as the unit.
use tacoscript.Prelude.{
  ℕ, suc, ◌+◌, ◌*◌, ◌/◌, ◌%◌, ◌<◌, ◌≡◌, ◌≢◌, refl, ap, ◌∙◌, sym, Bool, true, false, ◌||◌, some, [],
  ◌∷◌, ◌++◌, ltb, ◌==◌, length, arith, append_assoc, append-nil, subst, ==_iff, Bool-cases, ltb→lt,
  inl, inr,
}
use tacoscript.Text.{Chars}
use tacoscript.Text.Utf16.{code_point_to_string}
use tacoscript.Reader.{Cursor, advance, Env, ok, ◌>>=◌}
use tacoscript.Reader.Double.{next_total, next_total-exact}
use tacoscript.Reader.Number.{digit_below, exactly, read_digits, read_number_int, int_result}
use tacoscript.Reader.Number.Value.{read_digits_step}
use tacoscript.Reader.Escape.{read_escaped_char, read_escaped, read_code_point, hex_result}
use tacoscript.Reader.Quoted.{read_string_from, hex_digit, json_escape}

digit_below-hex_digit : (d : ℕ) → d < 16 → digit_below 16 (hex_digit d) ≡ some d
unfolding digit_below hex_digit
digit_below-hex_digit d h = ground arith

abbrev pub cursor : ℕ → Chars → ℕ → ℕ → Cursor
cursor p cs l s = record { pos = p; rest = cs; cur_line = l; line_start = s }

next_totals :
    (a b : ℕ)
    → a < 16
    → b < 16
    → next_total 16 (next_total 16 (next_total 16 (next_total 16 0 0) 0) a) b ≡ a * 16 + b
next_totals a b h k =
    let zeros : next_total 16 0 0 ≡ 0 = next_total-exact 16 0 0 (omega arith) in
    let third : next_total 16 0 a ≡ a = next_total-exact 16 0 a (omega arith) ∙ omega arith in
    rw (zeros, zeros, third) (next_total-exact 16 a b (omega arith))

read_digits_hex :
    (c : ℕ)
    → c < 256
    → read_digits 16 (48 ∷ 48 ∷ hex_digit (c / 16) ∷ hex_digit (c % 16) ∷ []) 0 ≡ (c, 4)
read_digits_hex c h =
    let zero_digit : digit_below 16 48 ≡ some 0 = unfold digit_below in refl in
    let high = digit_below-hex_digit (c / 16) (omega arith) in
    let low = digit_below-hex_digit (c % 16) (omega arith) in
    let nil : (t : ℕ) → read_digits 16 [] t ≡ (t, 0) = λ t. unfold read_digits in refl in
    rw
      (
        read_digits_step 16 48 _ _ 0 zero_digit,
        read_digits_step 16 48 _ _ 0 zero_digit,
        read_digits_step 16 _ _ _ (c / 16) high,
        read_digits_step 16 _ _ _ (c % 16) low,
        nil,
        next_totals (c / 16) (c % 16) (omega arith) (omega arith),
      )
      (ap (λ n. (n, 4)) (omega arith))

-- Four hexadecimal digits of a number below 256.
abbrev hex_text : ℕ → Chars → Chars
hex_text c rest = 48 ∷ 48 ∷ hex_digit (c / 16) ∷ hex_digit (c % 16) ∷ rest

read_number_int_hex :
    (c p l s : ℕ) (rest : Chars)
    → c < 256
    → read_number_int 16 (exactly 4) (cursor p (hex_text c rest) l s)
      ≡ (some c, cursor (p + 4) rest l s)
unfolding read_number_int
read_number_int_hex c p l s rest h =
    ap (int_result (exactly 4) (cursor p (hex_text c rest) l s)) (read_digits_hex c h)

code_point_to_string_small : (c : ℕ) → c < 32 → code_point_to_string c ≡ c ∷ []
unfolding code_point_to_string
code_point_to_string_small c h = ground arith

read_code_point_hex :
    (c p l s : ℕ) (rest : Chars)
    → c < 256
    → read_code_point (cursor p (hex_text c rest) l s) ≡ ok (c, cursor (p + 4) rest l s)
unfolding read_code_point
read_code_point_hex c p l s rest h = ap hex_result (read_number_int_hex c p l s rest h)

read_escaped_hex :
    (env : Env) (c p l s : ℕ) (rest : Chars)
    → c < 32
    → read_escaped env false b'u' (cursor p (b'u' ∷ hex_text c rest) l s)
      ≡ ok (c ∷ [], cursor (p + 1 + 4) rest l s)
unfolding read_escaped
read_escaped_hex env c p l s rest h =
    ap (λ m. m >>= λ (n, c'). ok (code_point_to_string n, c'))
      (read_code_point_hex c (p + 1) l s rest (omega arith))
    ∙ rw (code_point_to_string_small c h)

-- How a code unit is escaped, and what undoes it: an escape of one character, the four digits of
-- a control character, or the code unit itself.
data Escaped (c : ℕ) : Type 0 where
  short :
      (x : ℕ)
      → json_escape c ≡ 92 ∷ x ∷ []
      → ((env : Env) (cur : Cursor) → read_escaped env false x cur ≡ ok (c ∷ [], advance 1 cur))
      → Escaped c
  control :
      c < 32
      → json_escape c ≡ 92 ∷ b'u' ∷ 48 ∷ 48 ∷ hex_digit (c / 16) ∷ hex_digit (c % 16) ∷ []
      → Escaped c
  plain : json_escape c ≡ c ∷ [] → c ≢ 34 → c ≢ 92 → (c < 32 → ⊥) → Escaped c

escaped-eq : (c k : ℕ) → (c == k) ≡ true → Escaped k → Escaped c
escaped-eq c k h e = subst Escaped (sym ((==_iff c k).0 h)) e

escaped_long :
    (c : ℕ)
    → (c == 34) ≡ false
    → (c == 92) ≡ false
    → (c == 8) ≡ false
    → (c == 9) ≡ false
    → (c == 10) ≡ false
    → (c == 12) ≡ false
    → (c == 13) ≡ false
    → Escaped c
unfolding json_escape
escaped_long c h₁ h₂ h₃ h₄ h₅ h₆ h₇ = elim (Bool-cases (ltb c 32)) [
  | inl e ↦ control (ltb→lt c 32 e) (ground arith)
  | inr e ↦ plain (ground arith) (ground arith) (ground arith) (λ h. ground arith)
]

escaped : (c : ℕ) → Escaped c
unfolding json_escape read_escaped
escaped c = elim (Bool-cases (c == 34)) [
  | inl h ↦ escaped-eq c 34 h (short 34 refl (λ _ _. refl))
  | inr h₁ ↦ elim (Bool-cases (c == 92)) [
    | inl h ↦ escaped-eq c 92 h (short 92 refl (λ _ _. refl))
    | inr h₂ ↦ elim (Bool-cases (c == 8)) [
      | inl h ↦ escaped-eq c 8 h (short b'b' refl (λ _ _. refl))
      | inr h₃ ↦ elim (Bool-cases (c == 9)) [
        | inl h ↦ escaped-eq c 9 h (short b't' refl (λ _ _. refl))
        | inr h₄ ↦ elim (Bool-cases (c == 10)) [
          | inl h ↦ escaped-eq c 10 h (short b'n' refl (λ _ _. refl))
          | inr h₅ ↦ elim (Bool-cases (c == 12)) [
            | inl h ↦ escaped-eq c 12 h (short b'f' refl (λ _ _. refl))
            | inr h₆ ↦ elim (Bool-cases (c == 13)) [
              | inl h ↦ escaped-eq c 13 h (short b'r' refl (λ _ _. refl))
              | inr h₇ ↦ escaped_long c h₁ h₂ h₃ h₄ h₅ h₆ h₇
            ]
          ]
        ]
      ]
    ]
  ]
]

-- One code unit of the value: the loop goes on behind its escape, with the unit at the end of what
-- it has read.
abbrev pub Reads : ℕ → Chars → Chars → Env → ℕ → ℕ → Cursor → Cursor → Type 0
Reads c out chunk env fuel start cur cur' =
    (out' : Chars) × (chunk' : Chars) × (read_string_from (suc fuel) env 34 start out chunk cur
      ≡ read_string_from fuel env 34 start out' chunk' cur')
    × (out' ++ chunk' ≡ (out ++ chunk) ++ c ∷ [])

abbrev pub is_separator : ℕ → Bool
is_separator c = c == 0x2028 || c == 0x2029

read_escaped_char_lem :
    (env : Env) (x p l s : ℕ) (rest : Chars)
    → read_escaped_char env false (cursor p (92 ∷ x ∷ rest) l s)
      ≡ read_escaped env false x (cursor (p + 1) (x ∷ rest) l s)
unfolding read_escaped_char
read_escaped_char_lem env x p l s rest = refl

-- An escape is read as a whole.
read_escape :
    (env : Env) (c x fuel start : ℕ) (out chunk : Chars) (p l s p' : ℕ) (tail rest : Chars)
    → read_escaped env false x (cursor (p + 1) (x ∷ tail) l s) ≡ ok (c ∷ [], cursor p' rest l s)
    → read_string_from (suc fuel) env 34 start out chunk (cursor p (92 ∷ x ∷ tail) l s)
      ≡ read_string_from fuel env 34 start ((out ++ chunk) ++ c ∷ []) [] (cursor p' rest l s)
unfolding read_string_from
read_escape env c x fuel start out chunk p l s p' tail rest h =
    rw (read_escaped_char_lem env x p l s tail, h)

pub read_unit :
    (c : ℕ) (env : Env) (fuel start : ℕ) (out chunk : Chars) (p l s : ℕ) (rest : Chars)
    → is_separator c ≡ false
    → Reads c out chunk env fuel start
        (cursor p (json_escape c ++ rest) l s)
        (cursor (p + length (json_escape c)) rest l s)
unfolding read_string_from
read_unit c env fuel start out chunk p l s rest n = elim (escaped c) [
  | short x e r ↦
      let at_end : p + 1 + 1 ≡ p + 2 = omega arith in
      (
        (out ++ chunk) ++ c ∷ [],
        [],
        rw (e, ← at_end) (read_escape env c x fuel start out chunk p l s _ rest rest (r env _)),
        append-nil _,
      )
  | control h e ↦
      let at_end : p + 1 + 1 + 4 ≡ p + 6 = omega arith in
      (
        (out ++ chunk) ++ c ∷ [],
        [],
        rw (e, ← at_end)
            (read_escape env c b'u' fuel start out chunk p l s _ (hex_text c rest) rest
              (read_escaped_hex env c (p + 1) l s rest h)),
        append-nil _,
      )
  | plain e h₁ h₂ h₃ ↦
      (out, chunk ++ c ∷ [], rw e (ground arith), sym (append_assoc out chunk (c ∷ [])))
]
