-- ===== src/Cstr/Number/Decimal.antt =====
-- `%u` prints digits only, and `strtol` reads them back.
use trafix.Prelude.Int.{pos}
use trafix.Prelude.{
  ℕ, zero, suc, ◌+◌, ◌*◌, ◌/◌, ◌%◌, ◌≤◌, ◌<◌, true, false, [], ◌∷◌, ◌≡◌, inl, inr, arith, ltb, ◌==◌,
  refl, Bool-cases, lt→ltb, le→ltb, &&_left, all, length,
}
use trafix.Cstr.Defs.{Text, is_digit, is_space, skip_space, is_empty}
use trafix.Cstr.Number.{
  strtol, signed_at, number_at, clamp_long, scan_digits, digits, show, scan_digits-show, long_max,
}

digits-all : (f n : ℕ) (out : Text) → all is_digit out ≡ true → all is_digit (digits f n out) ≡ true
unfolding digits is_digit
digits-all zero n out h = h
digits-all (suc f) n out h = elim (Bool-cases (ltb n 10)) [
  | inl small ↦ rw (small, digits) (ground arith)
  | inr big ↦ rw (big, digits) (digits-all f (n / 10) _ (ground arith))
]

pub all-show : (n : ℕ) → all is_digit (show n) ≡ true
unfolding show
all-show n = digits-all (suc n) n [] refl

digits-non_empty : (f n : ℕ) (c : ℕ) (out : Text) → is_empty (digits f n (c ∷ out)) ≡ false
unfolding digits
digits-non_empty zero n c out = refl
digits-non_empty (suc f) n c out = elim (Bool-cases (ltb n 10)) [
  | inl small ↦ rw (small, digits) refl
  | inr big ↦ rw (big, digits) (digits-non_empty f (n / 10) _ (c ∷ out))
]

pub show-non_empty : (n : ℕ) → is_empty (show n) ≡ false
unfolding show digits
show-non_empty n = elim (Bool-cases (ltb n 10)) [
  | inl small ↦ rw (small, digits) refl
  | inr big ↦ rw (big, digits) (digits-non_empty n (n / 10) _ [])
]

-- 10 to a power.
pow10 : ℕ → ℕ
pow10 zero = 1
pow10 (suc k) = 10 * pow10 k

digits-length :
    (k f n : ℕ) (out : Text) → n < pow10 (suc k) → length (digits f n out) ≤ suc k + length out
unfolding digits pow10
digits-length k zero n out h = omega arith
digits-length zero (suc f) n out h = rw (lt→ltb n 10 (omega arith), digits) (omega arith)
digits-length (suc k) (suc f) n out h = elim (Bool-cases (ltb n 10)) [
  | inl small ↦ rw (small, digits) (omega arith)
  | inr big ↦
      let ih = digits-length k f (n / 10) ((b'0' + n % 10) ∷ out) (omega arith) in
      rw (big, digits) (omega (arith, ih))
]

-- A number of ten digits.
pub show-length : (n : ℕ) → n < 10000000000 → length (show n) ≤ 10
unfolding show pow10
show-length n h = digits-length 9 (suc n) n [] h

-- A byte, and a port.
pub show-length_byte : (n : ℕ) → n < 256 → length (show n) ≤ 3
unfolding show pow10
show-length_byte n h = digits-length 2 (suc n) n [] (omega arith)

pub show-length_port : (n : ℕ) → n < 65536 → length (show n) ≤ 5
unfolding show pow10
show-length_port n h = digits-length 4 (suc n) n [] (omega arith)

number_at-digits :
    (start s : Text) (n : ℕ)
    → all is_digit s ≡ true
    → is_empty s ≡ false
    → scan_digits 0 s ≡ (n, [])
    → n ≤ long_max
    → number_at start false s ≡ record { value = pos n; range_error = false; end = [] }
unfolding number_at clamp_long
number_at-digits start [] n a e h b = absurd (ground arith)
number_at-digits start (c ∷ s) n a e h b =
    rw (&&_left (is_digit c) (all is_digit s) a, h, le→ltb long_max n b) refl

pub digit_space : (c : ℕ) → is_digit c ≡ true → is_space c ≡ false
unfolding is_digit is_space
digit_space c h = ground arith

pub digit_ne : (c d : ℕ) → is_digit c ≡ true → d < b'0' → (c == d) ≡ false
unfolding is_digit
digit_ne c d h g = ground arith

strtol-digits :
    (s : Text) (n : ℕ)
    → all is_digit s ≡ true
    → is_empty s ≡ false
    → scan_digits 0 s ≡ (n, [])
    → n ≤ long_max
    → strtol s ≡ record { value = pos n; range_error = false; end = [] }
unfolding strtol signed_at skip_space
strtol-digits [] n a e h b = absurd (ground arith)
strtol-digits (c ∷ s) n a e h b =
    let d = &&_left (is_digit c) (all is_digit s) a in
    let minus = digit_ne c b'-' d (omega arith) in
    let plus = digit_ne c b'+' d (omega arith) in
    rw (digit_space c d, minus, plus) (number_at-digits (c ∷ s) (c ∷ s) n a e h b)

-- A printed number that is a `long` is read back whole.
pub strtol-show :
    (n : ℕ)
    → n ≤ long_max
    → strtol (show n) ≡ record { value = pos n; range_error = false; end = [] }
unfolding show scan_digits
strtol-show n h = strtol-digits (show n) n (all-show n) (show-non_empty n) (scan_digits-show n []) h
