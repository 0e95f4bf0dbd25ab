-- ===== src/Cstr/Lines.antt =====
-- `fgets` over a whole stream: a buffer of `size` bytes takes `size - 1`, up to and with a newline.
use trafix.Prelude.{
  All, ℕ, ◌-◌, ◌<◌, ◌+◌, true, false, ◌||◌, List, [], ◌∷◌, ◌++◌, ◌==◌, ◌≡◌, refl, ap, ◌∙◌,
  append_assoc, length, arith,
}
use trafix.Cstr.Defs.{Text, mem_char}

abbrev flush : Text → List Text
flush [] = []
flush (c ∷ s) = (c ∷ s) ∷ []

-- `room` counts the bytes that the buffer can still take, `line` holds those taken.
read_line : ℕ → ℕ → Text → Text → List Text
read_line full room line [] = flush line
read_line full room line (c ∷ s) = elim (c == b'\n' || room == 1) [
  | true ↦ (line ++ c ∷ []) ∷ read_line full full [] s
  | false ↦ read_line full (room - 1) (line ++ c ∷ []) s
]

-- All lines that `while (fgets(line, size, fp))` sees.
unfoldable pub fgets_lines : ℕ → Text → List Text
unfolding read_line
fgets_lines size s = read_line (size - 1) (size - 1) [] s

read_line-fits :
    (full room : ℕ) (line s rest : Text)
    → length s < room
    → mem_char b'\n' s ≡ false
    → read_line full room line (s ++ b'\n' ∷ rest)
      ≡ (line ++ (s ++ b'\n' ∷ [])) ∷ read_line full full [] rest
unfolding read_line mem_char
read_line-fits full room line [] rest h m = refl
read_line-fits full room line (c ∷ s) rest h m =
    let go : (c == b'\n' || room == 1) ≡ false = ground arith in
    let ih = read_line-fits full (room - 1) (line ++ c ∷ []) s rest (omega arith) (ground arith) in
    let e =
      ap (λ t. t ∷ read_line full full [] rest) (append_assoc line (c ∷ []) (s ++ b'\n' ∷ [])) in
    rw (go, read_line) (ih ∙ e)

-- A line that fits in the buffer with its newline is read whole.
pub fgets_lines-fits :
    (size : ℕ) (s rest : Text)
    → length s + 1 < size
    → mem_char b'\n' s ≡ false
    → fgets_lines size (s ++ b'\n' ∷ rest) ≡ (s ++ b'\n' ∷ []) ∷ fgets_lines size rest
unfolding fgets_lines
fgets_lines-fits size s rest h m = read_line-fits (size - 1) (size - 1) [] s rest (omega arith) m

-- Lines with a newline behind each.
abbrev pub text_of_lines : List Text → Text
text_of_lines [] = []
text_of_lines (line ∷ lines) = line ++ b'\n' ∷ text_of_lines lines

abbrev pub with_newline : List Text → List Text
with_newline [] = []
with_newline (line ∷ lines) = (line ++ b'\n' ∷ []) ∷ with_newline lines

abbrev pub IsLineOf : ℕ → Text → Type 0
IsLineOf size line = (length line + 1 < size) × (mem_char b'\n' line ≡ false)

pub fgets_lines-text_of_lines :
    (size : ℕ) (lines : List Text)
    → All (IsLineOf size) lines
    → fgets_lines size (text_of_lines lines) ≡ with_newline lines
unfolding fgets_lines read_line
fgets_lines-text_of_lines size [] h = refl
fgets_lines-text_of_lines size (line ∷ lines) ((fits, no_newline), hs) =
    fgets_lines-fits size line (text_of_lines lines) fits no_newline
    ∙ ap (◌∷◌ (line ++ b'\n' ∷ [])) (fgets_lines-text_of_lines size lines hs)
