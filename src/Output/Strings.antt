-- ===== src/Output/Strings.antt =====
-- The strings that src/trfx_cli_output.c prints are JSON: a strict reader gives them back.
use trafix.Prelude.{
  ℕ, zero, suc, ◌+◌, ◌-◌, ◌*◌, ◌/◌, ◌%◌, ◌≤◌, ◌<◌, false, ◌&&◌, ◌||◌, [], ◌∷◌, ◌++◌, Option, none,
  some, ◌≡◌, refl, ap, ◌∙◌, arith, ltb, leb, ◌==◌, if◌then◌else◌, length, length-append,
  append_assoc,
}
use trafix.Cstr.{Text, is_empty}
use trafix.Output.{hex_digit, escape_char, escape, print_json_string}

unfoldable pub hex_value : ℕ → Option ℕ
hex_value c =
    if leb b'0' c && leb c b'9'
    then some (c - b'0')
    else if leb b'a' c && leb c b'f'
    then some (c - b'a' + 10)
    else none

abbrev shift : Option ℕ → Option ℕ → Option ℕ
shift (some n) (some d) = some (n * 16 + d)
shift _ _ = none

abbrev with_rest : Option ℕ → Text → Option (ℕ × Text)
with_rest none s = none
with_rest (some n) s = some (n, s)

-- Four digits.
unfoldable pub four : Text → Option (ℕ × Text)
unfolding hex_value
four (a ∷ b ∷ c ∷ d ∷ s) =
    with_rest (shift (shift (shift (hex_value a) (hex_value b)) (hex_value c)) (hex_value d)) s
four _ = none

-- Behind a backslash (RFC 8259, section 7), without the escape of the slash.
unfoldable pub read_escape : ℕ → Text → Option (ℕ × Text)
read_escape c s =
    if c == b'"' || c == b'\\'
    then some (c, s)
    else if c == b'b'
    then some (8, s)
    else if c == b'f'
    then some (12, s)
    else if c == b'n'
    then some (10, s)
    else if c == b'r'
    then some (13, s)
    else if c == b't'
    then some (9, s)
    else if c == b'u'
    then four s
    else none

-- One character of a string; a quote and a control character are none.
abbrev next_char : Text → Option (ℕ × Text)
next_char [] = none
next_char (c ∷ []) = if c == b'"' || c == b'\\' || ltb c 32 then none else some (c, [])
next_char (c ∷ d ∷ s) =
    if c == b'\\' then read_escape d s else if c == b'"' || ltb c 32 then none else some (c, d ∷ s)

hex_value-hex_digit : (n : ℕ) → n < 16 → hex_value (hex_digit n) ≡ some n
unfolding hex_value
hex_value-hex_digit n h = ground arith

four-escape :
    (c : ℕ) (s : Text)
    → c < 32
    → four (b'0' ∷ b'0' ∷ hex_digit (c / 16) ∷ hex_digit (c % 16) ∷ s) ≡ some (c, s)
unfolding four
four-escape c s h =
    rw (hex_value-hex_digit (c / 16) (omega arith), hex_value-hex_digit (c % 16) (omega arith))
      (ap (λ n. some (n, s)) value)
  where
    value : (0 + c / 16) * 16 + c % 16 ≡ c
    value = omega arith

next_char-escape_char : (c d : ℕ) (s : Text) → next_char (escape_char c ++ d ∷ s) ≡ some (c, d ∷ s)
unfolding escape_char read_escape
next_char-escape_char c d s = ground (arith, four-escape c (d ∷ s))

abbrev close : Text → Option (Text × Text)
close [] = none
close (c ∷ s) = if c == b'"' then some ([], s) else none

abbrev prepend : ℕ → Option (Text × Text) → Option (Text × Text)
prepend c none = none
prepend c (some (s, rest)) = some (c ∷ s, rest)

-- The characters up to the closing quote, and what stands behind it; the fuel is more than their number.
unfoldable pub read_chars : ℕ → Text → Option (Text × Text)
read_chars zero s = none
read_chars (suc f) s = elim (next_char s) [
  | none ↦ close s
  | some (c, t) ↦ prepend c (read_chars f t)
]

-- A JSON string at the start of a text, and what stands behind it.
unfoldable pub read_json_string : Text → Option (Text × Text)
unfolding read_chars
read_json_string [] = none
read_json_string (c ∷ s) = if c == b'"' then read_chars (suc (length s)) s else none

next_char-quote : (rest : Text) → next_char (b'"' ∷ rest) ≡ none
next_char-quote [] = refl
next_char-quote (c ∷ rest) = refl

next_char-escape :
    (c : ℕ) (t : Text) → is_empty t ≡ false → next_char (escape_char c ++ t) ≡ some (c, t)
next_char-escape c [] h = absurd (ground arith)
next_char-escape c (d ∷ s) h = next_char-escape_char c d s

quoted_non_empty : (s : Text) (c : ℕ) (rest : Text) → is_empty (s ++ c ∷ rest) ≡ false
quoted_non_empty [] c rest = refl
quoted_non_empty (x ∷ s) c rest = refl

read_chars-next :
    (f : ℕ) (t : Text) (c : ℕ) (u : Text)
    → next_char t ≡ some (c, u)
    → read_chars (suc f) t ≡ prepend c (read_chars f u)
unfolding read_chars
read_chars-next f t c u h = rw (read_chars, h) refl

read_chars-escape :
    (f : ℕ) (s rest : Text) → length s < f → read_chars f (escape s ++ b'"' ∷ rest) ≡ some (s, rest)
unfolding escape read_chars
read_chars-escape zero s rest h = absurd (omega arith)
read_chars-escape (suc f) [] rest h = rw (read_chars, next_char-quote rest) refl
read_chars-escape (suc f) (c ∷ s) rest h =
    let quoted = escape s ++ b'"' ∷ rest in
    ap (read_chars (suc f)) (append_assoc (escape_char c) (escape s) (b'"' ∷ rest))
    ∙ read_chars-next f (escape_char c ++ quoted) c quoted
        (next_char-escape c quoted (quoted_non_empty (escape s) b'"' rest))
    ∙ ap (prepend c) (read_chars-escape f s rest (omega arith))

escape_char-length : (c : ℕ) → 0 < length (escape_char c)
unfolding escape_char
escape_char-length c = ground arith

escape-length : (s : Text) → length s ≤ length (escape s)
unfolding escape
escape-length [] = omega arith
escape-length (c ∷ s) =
    omega (arith, length-append (escape_char c) (escape s), escape_char-length c, escape-length s)

length-escape : (s : Text) (c : ℕ) (rest : Text) → length s < suc (length (escape s ++ c ∷ rest))
length-escape s c rest = omega (arith, length-append (escape s) (c ∷ rest), escape-length s)

-- Any string that is printed is read back, with what stands behind it, by a reader of JSON strings that
-- refuses control characters and stops at the first quote.
pub read_json_string-print_json_string :
    (value rest : Text) → read_json_string (print_json_string value ++ rest) ≡ some (value, rest)
unfolding print_json_string read_json_string
read_json_string-print_json_string value rest =
    let whole = append_assoc (escape value) (b'"' ∷ []) rest in
    ap read_json_string (ap (◌∷◌ b'"') whole)
    ∙ read_chars-escape (suc (length (escape value ++ b'"' ∷ rest))) value rest
        (length-escape value b'"' rest)
