-- ===== src/Cstr/Scan/Written.antt =====
-- What `printf` writes in decimal and hexadecimal, and words, are read back by `sscanf`, up to what follows.
use trafix.Prelude.{
  ℕ, zero, suc, ◌-◌, ◌/◌, ◌%◌, ◌^◌, ◌≤◌, ◌<◌, Bool, true, false, [], ◌∷◌, ◌++◌, some, ◌≡◌, refl, ap,
  ◌∙◌, arith, ltb, le→ltb, all, &&_left, &&_right, length, take, drop, take_all, take-append,
  replicate, inl, inr, Bool-cases,
}
use trafix.Cstr.Defs.{Text, is_digit, is_empty, is_space, skip_space}
use trafix.Cstr.Number.{show, digits, scan_digits, scan_digits-show}
use trafix.Cstr.Number.Decimal.{all-show, show-non_empty, digit_space, digit_ne}
use trafix.Cstr.Scan.{span, is_black, scan_set, scan_string, decimal_at, scan_ulong, scan_uint}

-- No test passes on the first byte.
abbrev pub StopsAt : (ℕ → Bool) → Text → Type 0
StopsAt test [] = Unit
StopsAt test (c ∷ s) = test c ≡ false

abbrev pub spaces : ℕ → Text
spaces n = replicate n b' '

pub skip_space-spaces :
    (n c : ℕ) (s : Text) → is_space c ≡ false → skip_space (spaces n ++ c ∷ s) ≡ c ∷ s
unfolding skip_space is_space
skip_space-spaces zero c s h = rw h refl
skip_space-spaces (suc n) c s h = skip_space-spaces n c s h

digits-append : (f n : ℕ) (out rest : Text) → digits f n out ++ rest ≡ digits f n (out ++ rest)
unfolding digits
digits-append zero n out rest = refl
digits-append (suc f) n out rest = elim (Bool-cases (ltb n 10)) [
  | inl small ↦ rw (small, digits) refl
  | inr big ↦ rw (big, digits) (digits-append f (n / 10) _ rest)
]

scan_digits-stop : (n : ℕ) (s : Text) → StopsAt is_digit s → scan_digits n s ≡ (n, s)
unfolding scan_digits
scan_digits-stop n [] h = refl
scan_digits-stop n (c ∷ s) h = rw h refl

scan_digits-show_rest :
    (n : ℕ) (rest : Text) → StopsAt is_digit rest → scan_digits 0 (show n ++ rest) ≡ (n, rest)
unfolding show
scan_digits-show_rest n rest h =
    ap (scan_digits 0) (digits-append (suc n) n [] rest)
    ∙ scan_digits-show n rest
    ∙ scan_digits-stop n rest h

decimal_at-digits :
    (c : ℕ) (s : Text) (n : ℕ) (rest : Text)
    → is_digit c ≡ true
    → scan_digits 0 (c ∷ s) ≡ (n, rest)
    → n < 2 ^ 64
    → decimal_at (c ∷ s) ≡ some (n, rest)
unfolding decimal_at
decimal_at-digits c s n rest d e h =
    let minus = digit_ne c b'-' d (omega arith) in
    let plus = digit_ne c b'+' d (omega arith) in
    rw (minus, plus, d, e, le→ltb (2 ^ 64 - 1) n (omega arith)) refl

shown :
    (pad : ℕ) (t : Text) (n : ℕ) (rest : Text)
    → all is_digit t ≡ true
    → is_empty t ≡ false
    → scan_digits 0 (t ++ rest) ≡ (n, rest)
    → n < 2 ^ 64
    → scan_ulong (spaces pad ++ (t ++ rest)) ≡ some (n, rest)
unfolding scan_ulong
shown pad [] n rest a ne e h = absurd (ground arith)
shown pad (c ∷ t) n rest a ne e h =
    let d = &&_left (is_digit c) (all is_digit t) a in
    rw (skip_space-spaces pad c (t ++ rest) (digit_space c d))
      (decimal_at-digits c (t ++ rest) n rest d e h)

-- `%lu` behind blanks.
pub scan_ulong-show :
    (pad n : ℕ) (rest : Text)
    → n < 2 ^ 64
    → StopsAt is_digit rest
    → scan_ulong (spaces pad ++ (show n ++ rest)) ≡ some (n, rest)
scan_ulong-show pad n rest h s =
    shown pad (show n) n rest (all-show n) (show-non_empty n) (scan_digits-show_rest n rest s) h

-- `%u` behind blanks.
pub scan_uint-show :
    (pad n : ℕ) (rest : Text)
    → n < 2 ^ 32
    → StopsAt is_digit rest
    → scan_uint (spaces pad ++ (show n ++ rest)) ≡ some (n, rest)
unfolding scan_uint
scan_uint-show pad n rest h s =
    let small : n % 2 ^ 32 ≡ n = omega arith in
    rw (scan_ulong-show pad n rest (omega arith) s, small) refl

span-append :
    (test : ℕ → Bool) (a rest : Text)
    → all test a ≡ true
    → StopsAt test rest
    → span test (a ++ rest) ≡ (a, rest)
unfolding span
span-append test [] [] h stop = refl
span-append test [] (c ∷ rest) h stop = rw stop refl
span-append test (c ∷ a) rest h stop =
    rw
      (
        span-append test a rest (&&_right (test c) (all test a) h) stop,
        &&_left (test c) (all test a) h,
      )
      refl

-- `%s` of a word behind a blank.
pub scan_string-word :
    (w rest : Text)
    → is_empty w ≡ false
    → all is_black w ≡ true
    → StopsAt is_black rest
    → scan_string (b' ' ∷ (w ++ rest)) ≡ some (w, rest)
unfolding scan_string skip_space is_space
scan_string-word [] rest ne h stop = absurd (ground arith)
scan_string-word (c ∷ w) rest ne h stop =
    rw (black_head c w h, span-append is_black (c ∷ w) rest h stop) refl
  where
    black_head : (c : ℕ) (w : Text) → all is_black (c ∷ w) ≡ true → is_space c ≡ false
    black_head c w h = ground arith

take-within :
    (k : ℕ) (a rest : Text) → length a ≤ k → take k (a ++ rest) ≡ a ++ take (k - length a) rest
take-within k a rest h =
    take-append k a rest ∙ ap (λ t. t ++ take (k - length a) rest) (take_all k a h)

take-drop : (k : ℕ) (s : Text) → take k s ++ drop k s ≡ s
take-drop zero s = refl
take-drop (suc k) [] = refl
take-drop (suc k) (c ∷ s) = ap (◌∷◌ c) (take-drop k s)

StopsAt-take : (test : ℕ → Bool) (k : ℕ) (s : Text) → StopsAt test s → StopsAt test (take k s)
StopsAt-take test zero s h = tt
StopsAt-take test (suc k) [] h = tt
StopsAt-take test (suc k) (c ∷ s) h = h

drop-append_within :
    (k : ℕ) (a rest : Text) → length a ≤ k → drop k (a ++ rest) ≡ drop (k - length a) rest
drop-append_within k [] rest h = ap (λ j. drop j rest) (omega arith)
drop-append_within zero (c ∷ a) rest h = absurd (omega arith)
drop-append_within (suc k) (c ∷ a) rest h =
    drop-append_within k a rest (omega arith) ∙ ap (λ j. drop j rest) (omega arith)

-- `%<width>[...]` of bytes of the set.
pub scan_set-append :
    (width : ℕ) (test : ℕ → Bool) (a rest : Text)
    → is_empty a ≡ false
    → all test a ≡ true
    → StopsAt test rest
    → length a ≤ width
    → scan_set width test (a ++ rest) ≡ some (a, rest)
unfolding scan_set
scan_set-append width test [] rest ne h stop l = absurd (ground arith)
scan_set-append width test (c ∷ a) rest ne h stop l =
    rw
      (
        take-within width (c ∷ a) rest l,
        span-append test (c ∷ a) (take (width - length (c ∷ a)) rest) h
            (StopsAt-take test (width - length (c ∷ a)) rest stop),
        drop-append_within width (c ∷ a) rest l,
      )
      (ap (λ t. some (c ∷ a, t)) (take-drop (width - length (c ∷ a)) rest))
