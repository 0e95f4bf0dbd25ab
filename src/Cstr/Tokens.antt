-- ===== src/Cstr/Tokens.antt =====
-- `strtok`: the tokens of a string, for a set of delimiters.
use trafix.Prelude.{
  All, ℕ, Bool, true, false, List, [], ◌∷◌, ◌++◌, ◌≡◌, refl, ap, ◌∙◌, append_assoc, append-nil,
  arith, if◌then◌else◌,
}
use trafix.Cstr.Defs.{Text, mem_char, is_empty}

-- `word` is the token that is being read.
split : Text → Text → Text → List Text
unfolding mem_char
split delimiters [] [] = []
split delimiters (w ∷ word) [] = (w ∷ word) ∷ []
split delimiters [] (c ∷ s) = split delimiters (if mem_char c delimiters then [] else c ∷ []) s
split delimiters (w ∷ word) (c ∷ s) =
    let more = split delimiters (w ∷ (word ++ c ∷ [])) s in
    let next = (w ∷ word) ∷ split delimiters [] s in if mem_char c delimiters then next else more

unfoldable pub tokens : Text → Text → List Text
unfolding split
tokens delimiters s = split delimiters [] s

-- No character is a delimiter.
abbrev pub free_of : Text → Text → Bool
free_of delimiters [] = true
free_of delimiters (c ∷ s) = if mem_char c delimiters then false else free_of delimiters s

free_head : (d : Text) (c : ℕ) (s : Text) → free_of d (c ∷ s) ≡ true → mem_char c d ≡ false
free_head d c s h = ground arith

free_tail : (d : Text) (c : ℕ) (s : Text) → free_of d (c ∷ s) ≡ true → free_of d s ≡ true
free_tail d c s h = ground arith

split_word :
    (d : Text) (w : ℕ) (word s : Text) (c : ℕ) (rest : Text)
    → free_of d s ≡ true
    → mem_char c d ≡ true
    → split d (w ∷ word) (s ++ c ∷ rest) ≡ (w ∷ (word ++ s)) ∷ split d [] rest
unfolding split
split_word d w word [] c rest h m = rw (m, append-nil word) refl
split_word d w word (x ∷ s) c rest h m =
    let ih = split_word d w (word ++ x ∷ []) s c rest (free_tail d x s h) m in
    let e = ap (λ t. (w ∷ t) ∷ split d [] rest) (append_assoc word (x ∷ []) s) in
    rw (free_head d x s h) (ih ∙ e)

split_end :
    (d : Text) (w : ℕ) (word s : Text)
    → free_of d s ≡ true
    → split d (w ∷ word) s ≡ (w ∷ (word ++ s)) ∷ []
unfolding split
split_end d w word [] h = rw (append-nil word) refl
split_end d w word (x ∷ s) h =
    let ih = split_end d w (word ++ x ∷ []) s (free_tail d x s h) in
    let e = ap (λ t. (w ∷ t) ∷ []) (append_assoc word (x ∷ []) s) in rw (free_head d x s h) (ih ∙ e)

-- Two words around a delimiter.
pub tokens-two :
    (d a : Text) (c : ℕ) (b : Text)
    → is_empty a ≡ false
    → is_empty b ≡ false
    → free_of d a ≡ true
    → free_of d b ≡ true
    → mem_char c d ≡ true
    → tokens d (a ++ c ∷ b) ≡ a ∷ b ∷ []
unfolding tokens split
tokens-two d [] c b e f h k m = absurd (ground arith)
tokens-two d (x ∷ a) c [] e f h k m = absurd (ground arith)
tokens-two d (x ∷ a) c (y ∷ b) e f h k m =
    rw (tokens, split, free_head d x a h)
      (split_word d x [] a c (y ∷ b) (free_tail d x a h) m ∙ ap (◌∷◌ (x ∷ a)) (second y b k))
  where
    second : (y : ℕ) (b : Text) → free_of d (y ∷ b) ≡ true → split d [] (y ∷ b) ≡ (y ∷ b) ∷ []
    second y b k = rw (split, free_head d y b k) (split_end d y [] b (free_tail d y b k))

-- Words, a space behind each but the last, and a newline behind that.
abbrev pub line_of : List Text → Text
line_of [] = []
line_of (w ∷ []) = w ++ b'\n' ∷ []
line_of (w ∷ v ∷ ws) = w ++ b' ' ∷ line_of (v ∷ ws)

abbrev pub IsWord : Text → Text → Type 0
IsWord d w = (is_empty w ≡ false) × (free_of d w ≡ true)

split_next :
    (d w : Text) (c : ℕ) (rest : Text)
    → IsWord d w
    → mem_char c d ≡ true
    → split d [] (w ++ c ∷ rest) ≡ w ∷ split d [] rest
unfolding split
split_next d [] c rest (e, h) m = absurd (ground arith)
split_next d (x ∷ w) c rest (e, h) m =
    rw (split, free_head d x w h) (split_word d x [] w c rest (free_tail d x w h) m)

-- The words of a line are its tokens.
pub tokens-line_of :
    (d : Text) (ws : List Text)
    → mem_char b' ' d ≡ true
    → mem_char b'\n' d ≡ true
    → All (IsWord d) ws
    → tokens d (line_of ws) ≡ ws
unfolding tokens split
tokens-line_of d [] m n h = refl
tokens-line_of d (w ∷ []) m n (h, _) = split_next d w b'\n' [] h n
tokens-line_of d (w ∷ v ∷ ws) m n (h, hs) =
    split_next d w b' ' (line_of (v ∷ ws)) h m ∙ ap (◌∷◌ w) (tokens-line_of d (v ∷ ws) m n hs)
