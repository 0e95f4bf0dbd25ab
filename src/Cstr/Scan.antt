-- ===== src/Cstr/Scan.antt =====
-- Literals, words, sets and numbers as `sscanf` reads them. A conversion gives its value and what stands
-- behind it, or fails; a blank in a format is `skip_space`.
pub mod Hex
pub mod Written
use trafix.Prelude.{
  ℕ, zero, suc, ◌+◌, ◌-◌, ◌*◌, ◌^◌, ◌%◌, Bool, true, false, not, ◌&&◌, ◌||◌, [], ◌∷◌, ◌++◌, Option,
  none, some, ltb, leb, ◌==◌, take, drop, if◌then◌else◌,
}
use trafix.Cstr.Defs.{Text, is_digit, is_space, skip_space}
use trafix.Cstr.Number.{scan_digits}

-- What stands behind a literal.
abbrev pub drop_prefix : Text → Text → Option Text
drop_prefix [] s = some s
drop_prefix (p ∷ ps) [] = none
drop_prefix (p ∷ ps) (c ∷ s) = if p == c then drop_prefix ps s else none

-- At most `n` bytes that are no white space.
unfoldable pub word_at : ℕ → Text → Text
word_at zero s = []
word_at (suc n) [] = []
word_at (suc n) (c ∷ s) = let rest = word_at n s in if is_space c then [] else c ∷ rest

abbrev pub non_empty : Text → Option Text
non_empty [] = none
non_empty (c ∷ s) = some (c ∷ s)

-- `%<n>s`
unfoldable pub scan_word : ℕ → Text → Option Text
unfolding word_at
scan_word n s = non_empty (word_at n (skip_space s))

infixl 5 ◌>>=◌
abbrev pub ◌>>=◌ {ℓ κ} : {A : Type ℓ} {B : Type κ} → Option A → (A → Option B) → Option B
none >>= f = none
some a >>= f = f a

-- A literal byte.
abbrev pub scan_char : ℕ → Text → Option Text
scan_char c [] = none
scan_char c (x ∷ s) = if c == x then some s else none

-- The bytes in front that pass a test, and the rest.
unfoldable pub span : (ℕ → Bool) → Text → Text × Text
span test [] = ([], [])
span test (c ∷ s) = let (a, b) = span test s in if test c then (c ∷ a, b) else ([], c ∷ s)

abbrev pub one_or_more : Text × Text → Option (Text × Text)
one_or_more ([], rest) = none
one_or_more (c ∷ s, rest) = some (c ∷ s, rest)

-- A conversion of at most `width` bytes.
abbrev pub within {ℓ} : {A : Type ℓ} → ℕ → (Text → Option (A × Text)) → Text → Option (A × Text)
within width scan s = do (a, rest) ← scan (take width s); some (a, rest ++ drop width s)

-- `%<width>[...]`, which skips no white space.
unfoldable pub scan_set : ℕ → (ℕ → Bool) → Text → Option (Text × Text)
unfolding span
scan_set width test s = within width (λ t. one_or_more (span test t)) s

abbrev pub is_black : ℕ → Bool
is_black c = not (is_space c)

-- `%s` and `%*s`, and `%<width>s` with the rest.
unfoldable pub scan_string : Text → Option (Text × Text)
unfolding span
scan_string s = one_or_more (span is_black (skip_space s))

unfoldable pub scan_string_within : ℕ → Text → Option (Text × Text)
unfolding span
scan_string_within width s = within width (λ t. one_or_more (span is_black t)) (skip_space s)

unfoldable pub is_hex : ℕ → Bool
unfolding is_digit
is_hex c = is_digit c || (leb b'A' c && leb c b'F') || (leb b'a' c && leb c b'f')

unfoldable pub hex_value : ℕ → ℕ
hex_value c = if leb c b'9' then c - b'0' else if leb c b'F' then c - 55 else c - 87

unfoldable pub scan_hex_digits : ℕ → Text → ℕ × Text
unfolding is_hex hex_value
scan_hex_digits acc [] = (acc, [])
scan_hex_digits acc (c ∷ s) =
    let rest = scan_hex_digits (acc * 16 + hex_value c) s in if is_hex c then rest else (acc, c ∷ s)

-- `strtoul`: a number with a sign as an `unsigned long` of 64 bits, clamped.
unfoldable pub to_ulong : Bool → ℕ → ℕ
to_ulong negative n =
    if ltb (2 ^ 64 - 1) n then 2 ^ 64 - 1 else if negative && not (n == 0) then 2 ^ 64 - n else n

-- The sign and what stands behind it.
unfoldable pub scan_sign : Text → Bool × Text
scan_sign [] = (false, [])
scan_sign (c ∷ s) =
    if c == b'-' then (true, s) else if c == b'+' then (false, s) else (false, c ∷ s)

-- What stands behind "0x", if that is there.
unfoldable pub drop_0x : Text → Text
drop_0x [] = []
drop_0x (z ∷ []) = z ∷ []
drop_0x (z ∷ x ∷ s) = if z == b'0' && (x == b'x' || x == b'X') then s else z ∷ x ∷ s

abbrev pub digits_of : Bool → (ℕ → Bool) → (ℕ → Text → ℕ × Text) → Text → Option (ℕ × Text)
digits_of negative test scan [] = none
digits_of negative test scan (c ∷ s) =
    if test c then (let (n, rest) = scan 0 (c ∷ s) in some (to_ulong negative n, rest)) else none

-- `%lu`, without the white space in front.
unfoldable pub decimal_at : Text → Option (ℕ × Text)
unfolding to_ulong scan_sign
decimal_at s = let (negative, t) = scan_sign s in digits_of negative is_digit scan_digits t

unfoldable pub hex_at : Text → Option (ℕ × Text)
unfolding to_ulong scan_sign drop_0x
hex_at s = let (negative, t) = scan_sign s in digits_of negative is_hex scan_hex_digits (drop_0x t)

-- `%lu`
unfoldable pub scan_ulong : Text → Option (ℕ × Text)
unfolding decimal_at
scan_ulong s = decimal_at (skip_space s)

-- `%u`, of 32 bits; of `%*d` only the bytes that it takes matter, which are the same.
unfoldable pub scan_uint : Text → Option (ℕ × Text)
unfolding scan_ulong
scan_uint s = do (n, rest) ← scan_ulong s; some (n % 2 ^ 32, rest)

-- `%x` and `%X`
unfoldable pub scan_hex : Text → Option (ℕ × Text)
unfolding hex_at
scan_hex s = do (n, rest) ← hex_at (skip_space s); some (n % 2 ^ 32, rest)

-- `%<width>X`
unfoldable pub scan_hex_within : ℕ → Text → Option (ℕ × Text)
unfolding hex_at
scan_hex_within width s = do (n, rest) ← within width hex_at (skip_space s); some (n % 2 ^ 32, rest)
