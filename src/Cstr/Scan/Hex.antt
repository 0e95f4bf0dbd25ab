-- ===== src/Cstr/Scan/Hex.antt =====
-- What `%02X` and `%04X` write is read back by `sscanf`.
use trafix.Prelude.{
  ℕ, ◌+◌, ◌-◌, ◌*◌, ◌/◌, ◌%◌, ◌^◌, ◌<◌, true, false, [], ◌∷◌, ◌++◌, some, ◌≡◌, refl, ap, ◌∙◌, arith,
  ltb, le→ltb, ◌==◌, if◌then◌else◌,
}
use trafix.Cstr.Defs.{Text, is_space, skip_space}
use trafix.Cstr.Scan.{
  is_hex, hex_value, scan_hex_digits, scan_sign, drop_0x, hex_at, scan_hex, scan_hex_within,
}
use trafix.Cstr.Scan.Written.{StopsAt}

-- A digit of `%X`.
abbrev pub upper_hex : ℕ → ℕ
upper_hex d = if ltb d 10 then b'0' + d else 55 + d

-- `%02X` of a byte.
abbrev pub hex2 : ℕ → Text
hex2 b = upper_hex (b / 16) ∷ upper_hex (b % 16) ∷ []

-- `%04X` of a number of 16 bits.
abbrev pub hex4 : ℕ → Text
hex4 n = hex2 (n / 256) ++ hex2 (n % 256)

pub upper_hex-is_hex : (d : ℕ) → d < 16 → is_hex (upper_hex d) ≡ true
unfolding is_hex
upper_hex-is_hex d h = ground arith

pub upper_hex-hex_value : (d : ℕ) → d < 16 → hex_value (upper_hex d) ≡ d
unfolding hex_value
upper_hex-hex_value d h = ground arith

-- It is no space, no sign and no "x".
hex_space : (c : ℕ) → is_hex c ≡ true → is_space c ≡ false
unfolding is_hex is_space
hex_space c h = ground arith

hex_sign : (c : ℕ) → is_hex c ≡ true → ((c == b'-') ≡ false) × ((c == b'+') ≡ false)
unfolding is_hex
hex_sign c h = (ground arith, ground arith)

hex_x : (c : ℕ) → is_hex c ≡ true → ((c == b'x') ≡ false) × ((c == b'X') ≡ false)
unfolding is_hex
hex_x c h = (ground arith, ground arith)

scan_hex_digits-upper :
    (acc d : ℕ) (s : Text)
    → d < 16
    → scan_hex_digits acc (upper_hex d ∷ s) ≡ scan_hex_digits (acc * 16 + d) s
unfolding scan_hex_digits
scan_hex_digits-upper acc d s h =
    rw (upper_hex-is_hex d h) (ap (λ k. scan_hex_digits (acc * 16 + k) s) (upper_hex-hex_value d h))

scan_sign-hex : (c : ℕ) (s : Text) → is_hex c ≡ true → scan_sign (c ∷ s) ≡ (false, c ∷ s)
unfolding scan_sign
scan_sign-hex c s h = rw ((hex_sign c h).0, (hex_sign c h).1) refl

drop_0x-hex : (c d : ℕ) (s : Text) → is_hex d ≡ true → drop_0x (c ∷ d ∷ s) ≡ c ∷ d ∷ s
unfolding drop_0x
drop_0x-hex c d s h = ground (arith, (hex_x d h).0, (hex_x d h).1)

-- Two digits or more are read as digits.
hex_at-digits :
    (c d : ℕ) (s : Text) (n : ℕ) (rest : Text)
    → is_hex c ≡ true
    → is_hex d ≡ true
    → scan_hex_digits 0 (c ∷ d ∷ s) ≡ (n, rest)
    → n < 2 ^ 64
    → hex_at (c ∷ d ∷ s) ≡ some (n, rest)
unfolding hex_at
hex_at-digits c d s n rest hc hd e h =
    rw
      (scan_sign-hex c (d ∷ s) hc, drop_0x-hex c d s hd, hc, e, le→ltb (2 ^ 64 - 1) n (omega arith))
      refl

scan_hex_digits-hex2 :
    (acc b : ℕ) (s : Text)
    → b < 256
    → scan_hex_digits acc (hex2 b ++ s) ≡ scan_hex_digits (acc * 256 + b) s
scan_hex_digits-hex2 acc b s h =
    scan_hex_digits-upper acc (b / 16) (upper_hex (b % 16) ∷ s) (omega arith)
    ∙ scan_hex_digits-upper (acc * 16 + b / 16) (b % 16) s (omega arith)
    ∙ ap (λ k. scan_hex_digits k s) (omega arith)

scan_hex_digits-stop : (n : ℕ) (s : Text) → StopsAt is_hex s → scan_hex_digits n s ≡ (n, s)
unfolding scan_hex_digits
scan_hex_digits-stop n [] h = refl
scan_hex_digits-stop n (c ∷ s) h = rw h refl

hex_at-hex2 : (b : ℕ) (s : Text) → b < 256 → StopsAt is_hex s → hex_at (hex2 b ++ s) ≡ some (b, s)
hex_at-hex2 b s h stop =
    hex_at-digits _ _ s b s (upper_hex-is_hex (b / 16) (omega arith))
      (upper_hex-is_hex (b % 16) (omega arith))
      (scan_hex_digits-hex2 0 b s h
        ∙ ap (λ k. scan_hex_digits k s) (omega arith)
        ∙ scan_hex_digits-stop b s stop)
      (omega arith)

pub skip_space-hex2 : (b : ℕ) (s : Text) → b < 256 → skip_space (hex2 b ++ s) ≡ hex2 b ++ s
unfolding skip_space
skip_space-hex2 b s h =
    rw (hex_space (upper_hex (b / 16)) (upper_hex-is_hex (b / 16) (omega arith))) refl

-- `%2X` takes the two digits, whatever follows.
pub scan_hex_within-hex2 :
    (b : ℕ) (s : Text) → b < 256 → scan_hex_within 2 (hex2 b ++ s) ≡ some (b, s)
unfolding scan_hex_within
scan_hex_within-hex2 b s h =
    let small : b % 2 ^ 32 ≡ b = omega arith in
    rw (skip_space-hex2 b s h, hex_at-hex2 b [] h tt, small) refl

-- `%x` of two digits behind a blank.
pub scan_hex-hex2 :
    (b : ℕ) (s : Text) → b < 256 → StopsAt is_hex s → scan_hex (b' ' ∷ (hex2 b ++ s)) ≡ some (b, s)
unfolding scan_hex skip_space is_space
scan_hex-hex2 b s h stop =
    let small : b % 2 ^ 32 ≡ b = omega arith in
    rw (skip_space-hex2 b s h, hex_at-hex2 b s h stop, small) refl

-- `%X` of four digits.
pub scan_hex-hex4 :
    (n : ℕ) (s : Text) → n < 65536 → StopsAt is_hex s → scan_hex (hex4 n ++ s) ≡ some (n, s)
unfolding scan_hex
scan_hex-hex4 n s h stop =
    let small : n % 2 ^ 32 ≡ n = omega arith in
    rw
      (
        skip_space-hex2 (n / 256) (hex2 (n % 256) ++ s) (omega arith),
        hex_at-digits _ _ _ n s (upper_hex-is_hex (n / 256 / 16) (omega arith))
            (upper_hex-is_hex (n / 256 % 16) (omega arith)) four (omega arith),
        small,
      )
      refl
  where
    four : scan_hex_digits 0 (hex4 n ++ s) ≡ (n, s)
    four =
        scan_hex_digits-hex2 0 (n / 256) (hex2 (n % 256) ++ s) (omega arith)
        ∙ scan_hex_digits-hex2 (0 * 256 + n / 256) (n % 256) s (omega arith)
        ∙ ap (λ k. scan_hex_digits k s) (omega arith)
        ∙ scan_hex_digits-stop n s stop
