-- ===== src/Config/Entries/Files.antt =====
-- A file of entries, read line by line (src/trfx_config.c).
use trafix.Prelude.{
  ℕ, ◌+◌, ◌≤◌, Bool, true, false, not, List, [], ◌∷◌, ◌++◌, some, ◌≡◌, refl, arith, ◌==◌, ◌&&◌,
  length, length-append, all, All, &&_right,
}
use trafix.Cstr.Compare.{find_char-append}
use trafix.Cstr.Lines.{fgets_lines, fgets_lines-fits}
use trafix.Cstr.Number.{show}
use trafix.Cstr.Number.Decimal.{show-length, show-non_empty, all-show}
use trafix.Cstr.Tokens.{tokens, tokens-two, free_of}
use trafix.Cstr.{chomp, Text, codes, skip_space, drop_space_end, trim, mem_char, is_digit, is_space}
use trafix.Config.{Settings, apply_words, apply_line, apply_lines, read_config, is_comment}
use trafix.Config.Entries.{Setting, name, put, InRange, high_max, apply_entry-show}

-- No white space and no '='.
abbrev plain : ℕ → Bool
plain c = not (is_space c) && not (c == b'=')

name-plain : (k : Setting) → all plain (name k) ≡ true
unfolding is_space
name-plain k = ground arith

digits-plain : (s : Text) → all is_digit s ≡ true → all plain s ≡ true
unfolding is_digit is_space
digits-plain [] h = refl
digits-plain (c ∷ s) h = ground (arith, digits-plain s)

plain-free : (s : Text) → all plain s ≡ true → free_of (codes "=") s ≡ true
unfolding mem_char
plain-free [] h = refl
plain-free (c ∷ s) h = ground (arith, plain-free s)

plain-no_newline : (s : Text) → all plain s ≡ true → mem_char b'\n' s ≡ false
unfolding mem_char is_space
plain-no_newline [] h = refl
plain-no_newline (c ∷ s) h = ground (arith, plain-no_newline s)

plain_head : (c : ℕ) (s : Text) → all plain (c ∷ s) ≡ true → is_space c ≡ false
plain_head c s h = ground arith

drop_space_end-plain : (s : Text) → all plain s ≡ true → drop_space_end s ≡ s
unfolding drop_space_end
drop_space_end-plain [] h = refl
drop_space_end-plain (c ∷ []) h = rw (plain_head c [] h) refl
drop_space_end-plain (c ∷ d ∷ s) h = rw (drop_space_end-plain (d ∷ s) (&&_right (plain c) _ h)) refl

trim-plain : (s : Text) → all plain s ≡ true → trim s ≡ s
unfolding trim skip_space
trim-plain [] h = refl
trim-plain (c ∷ s) h = rw (plain_head c s h) (drop_space_end-plain (c ∷ s) h)

mem_char-append :
    (x : ℕ) (a b : Text) → mem_char x a ≡ false → mem_char x b ≡ false → mem_char x (a ++ b) ≡ false
unfolding mem_char
mem_char-append x [] b h g = g
mem_char-append x (c ∷ a) b h g = ground (arith, mem_char-append x a b)

abbrev pub Entry : Type 0
Entry = Setting × ℕ

-- KEY=NUMBER
abbrev pub line_of : Entry → Text
line_of (k, v) = name k ++ b'=' ∷ show v

pub write : List Entry → Text
write [] = []
write (e ∷ es) = line_of e ++ b'\n' ∷ write es

-- Each value replaces the one before.
abbrev pub put_all : List Entry → Settings → Settings
put_all [] s = s
put_all ((k, v) ∷ es) s = put_all es (put k v s)

abbrev pub IsInRange : Entry → Type 0
IsInRange (k, v) = InRange k v

show-plain : (v : ℕ) → all plain (show v) ≡ true
show-plain v = digits-plain (show v) (all-show v)

name-head : (k : Setting) (s : Text) → is_comment (name k ++ s) ≡ false
name-head k s = ground arith

separator : mem_char b'=' (codes "=") ≡ true
unfolding mem_char
separator = refl

apply_line-line_of :
    (s : Settings) (k : Setting) (v n : ℕ)
    → InRange k v
    → apply_line s (line_of (k, v)) n ≡ (put k v s, [])
unfolding apply_line apply_words
apply_line-line_of s k v n h =
    let words : tokens (codes "=") (line_of (k, v)) ≡ name k ∷ show v ∷ [] =
      tokens-two (codes "=") (name k) b'=' (show v) (ground arith) (show-non_empty v)
        (plain-free (name k) (name-plain k)) (plain-free (show v) (show-plain v)) separator in
    rw
      (
        name-head k (b'=' ∷ show v),
        words,
        trim-plain (name k) (name-plain k),
        trim-plain (show v) (show-plain v),
      )
      (apply_entry-show s k v n h)

name-length : (k : Setting) → length (name k) ≤ 40
name-length k = ground arith

line_of-length : (k : Setting) (v : ℕ) → InRange k v → length (line_of (k, v)) ≤ 51
line_of-length k v (a, b) = omega (
  arith,
  length-append (name k) (b'=' ∷ show v),
  name-length k,
  high_max k,
  show-length v (omega (arith, high_max k)),
)

line_of-no_newline : (k : Setting) (v : ℕ) → mem_char b'\n' (line_of (k, v)) ≡ false
unfolding mem_char
line_of-no_newline k v =
    mem_char-append b'\n' (name k) (b'=' ∷ show v) (plain-no_newline (name k) (name-plain k))
      (plain-no_newline (show v) (show-plain v))

chomp-line : (s : Text) → mem_char b'\n' s ≡ false → chomp (s ++ b'\n' ∷ []) ≡ s
unfolding chomp
chomp-line s h = rw (chomp, find_char-append b'\n' s [] h) refl

fgets_lines-nil : fgets_lines 256 [] ≡ []
unfolding fgets_lines
fgets_lines-nil = refl

apply_lines-write :
    (s : Settings) (es : List Entry) (n : ℕ)
    → All IsInRange es
    → apply_lines s (fgets_lines 256 (write es)) n ≡ (put_all es s, [])
unfolding apply_lines write
apply_lines-write s [] n h = rw fgets_lines-nil refl
apply_lines-write s ((k, v) ∷ es) n (h, hs) =
    let m = line_of-no_newline k v in
    let line = line_of (k, v) in
    let fits = fgets_lines-fits 256 line (write es) (omega (arith, line_of-length k v h)) m in
    rw
      (
        fits,
        chomp-line line m,
        apply_line-line_of s k v (n + 1) h,
        apply_lines-write (put k v s) es (n + 1) hs,
      )
      refl

-- A file that holds a list of settings, each with a number in its range, on a line KEY=NUMBER each, is
-- read with no warning: the settings are the old ones with each number put in its place, in order.
pub read_config-write :
    (s : Settings) (path : Text) (es : List Entry)
    → All IsInRange es
    → read_config s path (some (write es)) ≡ (put_all es s, [])
unfolding read_config
read_config-write s path es h = apply_lines-write s es 0 h
