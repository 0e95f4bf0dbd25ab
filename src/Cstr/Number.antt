-- ===== src/Cstr/Number.antt =====
-- Numbers in text: `strtol(s, &end, 10)`, `atoi`, and `%u`, `%d` of `printf`. A `long` has 64 bits
-- and an `int` 32.
pub mod Decimal
use trafix.Prelude.Int.{ℤ, pos, negsuc}
use trafix.Prelude.{
  ℕ, zero, suc, ◌+◌, ◌-◌, ◌*◌, ◌/◌, ◌%◌, ◌^◌, ◌<◌, Bool, true, false, [], ◌∷◌, ◌≡◌, ◌∙◌, ap, inl,
  inr, arith, ltb, ◌==◌, if◌then◌else◌, Bool-cases,
}
use trafix.Cstr.Defs.{Text, is_digit, skip_space}

unfoldable pub scan_digits : ℕ → Text → ℕ × Text
unfolding is_digit
scan_digits acc [] = (acc, [])
scan_digits acc (c ∷ s) =
    let rest = scan_digits (acc * 10 + (c - b'0')) s in if is_digit c then rest else (acc, c ∷ s)

abbrev pub long_max : ℕ
long_max = 2 ^ 63 - 1

-- The magnitude `n` with a sign, clamped to the range of `long`; the flag is ERANGE.
unfoldable pub clamp_long : Bool → ℕ → ℤ × Bool
clamp_long false n = if ltb long_max n then (pos long_max, true) else (pos n, false)
clamp_long true zero = (pos 0, false)
clamp_long true (suc n) = if ltb long_max n then (negsuc long_max, true) else (negsuc n, false)

pub record Strtol : Type 0 where
  pub value : ℤ
  pub range_error : Bool
  pub end : Text

-- `start` is the whole string, where `end` points if there is no number.
number_at : Text → Bool → Text → Strtol
unfolding clamp_long
number_at start negative [] = record { value = pos 0; range_error = false; end = start }
number_at start negative (c ∷ s) =
    if is_digit c
    then (let (n, rest) = scan_digits 0 (c ∷ s) in
        let (v, e) = clamp_long negative n in record { value = v; range_error = e; end = rest })
    else record { value = pos 0; range_error = false; end = start }

signed_at : Text → Text → Strtol
unfolding number_at
signed_at start [] = number_at start false []
signed_at start (c ∷ s) =
    if c == b'-'
    then number_at start true s
    else if c == b'+'
    then number_at start false s
    else number_at start false (c ∷ s)

unfoldable pub strtol : Text → Strtol
unfolding signed_at skip_space
strtol s = signed_at s (skip_space s)

-- Conversion of a `long` to `int`, modulo 2^32.
unfoldable pub to_int : ℤ → ℤ
to_int (pos n) = let r = n % 2 ^ 32 in if ltb r (2 ^ 31) then pos r else negsuc (2 ^ 32 - 1 - r)
to_int (negsuc n) = let r = n % 2 ^ 32 in if ltb r (2 ^ 31) then negsuc r else pos (2 ^ 32 - 1 - r)

unfoldable pub atoi : Text → ℤ
unfolding strtol to_int
atoi s = to_int (strtol s).value

-- The decimal digits of `n` in front of `out`; the fuel is more than `n`.
unfoldable pub digits : ℕ → ℕ → Text → Text
digits zero n out = out
digits (suc f) n out = elim (ltb n 10) [
  | true ↦ (b'0' + n) ∷ out
  | false ↦ digits f (n / 10) ((b'0' + n % 10) ∷ out)
]

-- `%u`
unfoldable pub show : ℕ → Text
unfolding digits
show n = digits (suc n) n []

scan_digits-digit :
    (acc d : ℕ) (out : Text)
    → d < 10
    → scan_digits acc ((b'0' + d) ∷ out) ≡ scan_digits (acc * 10 + d) out
unfolding scan_digits is_digit
scan_digits-digit acc d out h =
    let e : b'0' + d - b'0' ≡ d = omega arith in
    ground (arith, ap (λ k. scan_digits (acc * 10 + k) out) e)

scan_digits-digits :
    (f n : ℕ) (out : Text) → n < f → scan_digits 0 (digits f n out) ≡ scan_digits n out
unfolding digits
scan_digits-digits zero n out h = elim h [ ]
scan_digits-digits (suc f) n out h = elim (Bool-cases (ltb n 10)) [
  | inl small ↦
      rw (small, digits)
        (scan_digits-digit 0 n out (ground arith) ∙ ap (λ k. scan_digits k out) (omega arith))
  | inr big ↦
      rw (big, digits)
        (scan_digits-digits f (n / 10) _ (ground arith)
          ∙ scan_digits-digit (n / 10) (n % 10) out (omega arith)
          ∙ ap (λ k. scan_digits k out) (omega arith))
]

-- What `%u` prints is read back, up to what follows.
pub scan_digits-show :
    (n : ℕ) (rest : Text) → scan_digits 0 (digits (suc n) n rest) ≡ scan_digits n rest
scan_digits-show n rest = scan_digits-digits (suc n) n rest (omega arith)
