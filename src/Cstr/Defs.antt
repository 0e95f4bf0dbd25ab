-- ===== src/Cstr/Defs.antt =====
-- The functions of string.h, ctype.h and stdio.h over lists of bytes.
use Prim.Native.Char.{code}
use Prim.Native.String.{String}
use trafix.Prelude.{
  ℕ, ◌-◌, Bool, true, false, ◌&&◌, ◌||◌, List, [], ◌∷◌, Option, none, some, leb, ◌==◌, take,
  if◌then◌else◌,
}

abbrev pub Text : Type 0
Text = List ℕ

-- A literal; all are ASCII.
abbrev pub codes : String → Text
codes String.[] = []
codes (String.◌∷◌ c s) = code c ∷ codes s

-- `strcmp(a, b) == 0`
unfoldable pub equal : Text → Text → Bool
equal [] [] = true
equal (x ∷ xs) (y ∷ ys) = x == y && equal xs ys
equal _ _ = false

-- `strcmp(s, "literal") == 0`
unfoldable pub is : Text → String → Bool
unfolding equal
is s literal = equal s (codes literal)

unfoldable pub is_prefix_of : Text → Text → Bool
is_prefix_of [] s = true
is_prefix_of (x ∷ p) [] = false
is_prefix_of (x ∷ p) (y ∷ s) = x == y && is_prefix_of p s

-- `strncmp(s, "literal", strlen("literal")) == 0`
unfoldable pub has_prefix : Text → String → Bool
unfolding is_prefix_of
has_prefix s literal = is_prefix_of (codes literal) s

-- `strstr(s, p) != NULL`
unfoldable pub contains : Text → Text → Bool
unfolding is_prefix_of
contains [] p = is_prefix_of p []
contains (c ∷ s) p = is_prefix_of p (c ∷ s) || contains s p

-- `snprintf(buf, size, "%s", s)` with `0 < size` keeps `size - 1` bytes.
unfoldable pub clip : ℕ → Text → Text
clip size s = take (size - 1) s

-- `strchr`: what stands before the first `c`, and behind it.
unfoldable pub find_char : ℕ → Text → Option (Text × Text)
find_char c [] = none
find_char c (x ∷ s) =
    let rest = find_char c s in
    if x == c then some ([], s) else elim rest [ none ↦ none | some (a, b) ↦ some (x ∷ a, b) ]

-- `strrchr`: what stands before the last `c`, and behind it.
unfoldable pub rfind_char : ℕ → Text → Option (Text × Text)
rfind_char c [] = none
rfind_char c (x ∷ s) = elim (rfind_char c s) [
  | some (a, b) ↦ some (x ∷ a, b)
  | none ↦ if x == c then some ([], s) else none
]

unfoldable pub mem_char : ℕ → Text → Bool
mem_char c [] = false
mem_char c (x ∷ s) = x == c || mem_char c s

abbrev pub is_empty : Text → Bool
is_empty [] = true
is_empty (c ∷ s) = false

-- ' ', '\t', '\n', '\v', '\f', '\r'
unfoldable pub is_space : ℕ → Bool
is_space c = c == b' ' || (leb 9 c && leb c 13)

unfoldable pub is_digit : ℕ → Bool
is_digit c = leb b'0' c && leb c b'9'

unfoldable pub is_alnum : ℕ → Bool
unfolding is_digit
is_alnum c = is_digit c || (leb b'a' c && leb c b'z') || (leb b'A' c && leb c b'Z')

unfoldable pub skip_space : Text → Text
unfolding is_space
skip_space [] = []
skip_space (c ∷ s) = let rest = skip_space s in if is_space c then rest else c ∷ s

-- Without the white space at the end.
unfoldable pub drop_space_end : Text → Text
unfolding is_space
drop_space_end [] = []
drop_space_end (c ∷ s) = elim (drop_space_end s) [
  | [] ↦ if is_space c then [] else c ∷ []
  | d ∷ t ↦ c ∷ d ∷ t
]

-- White space cut at both ends.
unfoldable pub trim : Text → Text
unfolding skip_space drop_space_end
trim s = drop_space_end (skip_space s)

-- `s[strcspn(s, "\n")] = '\0'`
unfoldable pub chomp : Text → Text
unfolding find_char
chomp s = elim (find_char b'\n' s) [ none ↦ s | some (a, b) ↦ a ]
