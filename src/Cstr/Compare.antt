-- ===== src/Cstr/Compare.antt =====
-- Equality tests on strings mean equality.
use Prim.Native.String.{String}
use trafix.Prelude.{ℕ, true, false, [], ◌∷◌, ◌++◌, ◌≡◌, refl, ◌↔◌, ◌≢◌, none, some, arith}
use trafix.Cstr.Defs.{Text, codes, equal, is, mem_char, find_char, rfind_char}

pub equal_iff : (a b : Text) → (equal a b ≡ true) ↔ (a ≡ b)
unfolding equal
equal_iff (x ∷ a) (y ∷ b) = ground (arith, equal_iff a b)
equal_iff _ _ = ground arith

pub equal_refl : (a : Text) → equal a a ≡ true
equal_refl a = (equal_iff a a).1 refl

pub equal-false : (a b : Text) → equal a b ≡ false → a ≢ b
equal-false a b h = ground (arith, equal_iff a b)

pub is_iff : (s : Text) (literal : String) → (is s literal ≡ true) ↔ (s ≡ codes literal)
unfolding is
is_iff s literal = equal_iff s (codes literal)

pub is-eq : (s : Text) (literal : String) → is s literal ≡ true → s ≡ codes literal
is-eq s literal h = (is_iff s literal).0 h

-- The last `c` splits a string at it, where no `c` follows.
pub rfind_char-none : (c : ℕ) (s : Text) → mem_char c s ≡ false → rfind_char c s ≡ none
unfolding rfind_char mem_char
rfind_char-none c [] h = refl
rfind_char-none c (x ∷ s) h = ground (arith, rfind_char-none c s)

pub rfind_char-append :
    (c : ℕ) (a b : Text) → mem_char c b ≡ false → rfind_char c (a ++ c ∷ b) ≡ some (a, b)
unfolding rfind_char
rfind_char-append c [] b h = ground (arith, rfind_char-none c b h)
rfind_char-append c (x ∷ a) b h = ground (arith, rfind_char-append c a b h)

pub find_char-append :
    (c : ℕ) (a b : Text) → mem_char c a ≡ false → find_char c (a ++ c ∷ b) ≡ some (a, b)
unfolding find_char mem_char
find_char-append c [] b h = ground arith
find_char-append c (x ∷ a) b h = ground (arith, find_char-append c a b)
