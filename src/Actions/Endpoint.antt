-- ===== src/Actions/Endpoint.antt =====
-- `split_endpoint` (src/trfx_actions.c): HOST:PORT and [HOST]:PORT. The pieces fit in buffers of
-- `host_size` and `port_size` bytes.
use trafix.Prelude.{
  ℕ, ◌-◌, ◌<◌, Bool, false, not, ◌||◌, [], ◌∷◌, ◌++◌, Option, none, some, ◌≡◌, refl, arith, leb,
  ◌==◌, length, take_all, if◌then◌else◌, Bool-cases, inl, inr,
}
use trafix.Cstr.Compare.{rfind_char-append, rfind_char-none, find_char-append}
use trafix.Cstr.{Text, clip, find_char, rfind_char, mem_char, is_empty}

-- `host_len == 0 || host_len >= host_size`, and `port[0] != '\0'`.
unfoldable pub accept : ℕ → ℕ → Text → Text → Option (Text × Text)
accept host_size port_size host port =
    if length host == 0 || leb host_size (length host)
    then none
    else if is_empty (clip port_size port)
    then none
    else some (host, clip port_size port)

-- Behind the bracket: what stands before `]`, and `:` behind it.
bracketed : ℕ → ℕ → Option (Text × Text) → Option (Text × Text)
unfolding accept
bracketed host_size port_size none = none
bracketed host_size port_size (some (host, [])) = none
bracketed host_size port_size (some (host, c ∷ port)) =
    if not (c == b':') then none else accept host_size port_size host port

plain : ℕ → ℕ → Option (Text × Text) → Option (Text × Text)
unfolding accept
plain host_size port_size none = none
plain host_size port_size (some (host, port)) = accept host_size port_size host port

unfoldable pub split_endpoint : ℕ → ℕ → Text → Option (Text × Text)
unfolding bracketed plain
split_endpoint host_size port_size [] = none
split_endpoint host_size port_size (c ∷ s) =
    if c == b'['
    then bracketed host_size port_size (find_char b']' s)
    else plain host_size port_size (rfind_char b':' (c ∷ s))

pub data Endpoint : Type 0 where
  ipv4 ipv6 : Text → Text → Endpoint

abbrev pub write : Endpoint → Text
write (ipv4 host port) = host ++ b':' ∷ port
write (ipv6 host port) = b'[' ∷ (host ++ b']' ∷ b':' ∷ port)

abbrev pub parts : Endpoint → Text × Text
parts (ipv4 host port) = (host, port)
parts (ipv6 host port) = (host, port)

abbrev head_is : ℕ → Text → Bool
head_is c [] = false
head_is c (x ∷ s) = x == c

-- Pieces that fit, and that the separators do not cut.
abbrev pub IsWellFormed : ℕ → ℕ → Endpoint → Type 0
IsWellFormed host_size port_size (ipv4 host port) =
    (0 < length host)
    × (length host < host_size)
    × (0 < length port)
    × (length port < port_size)
    × (head_is b'[' host ≡ false)
    × (mem_char b':' port ≡ false)
IsWellFormed host_size port_size (ipv6 host port) =
    (0 < length host)
    × (length host < host_size)
    × (0 < length port)
    × (length port < port_size)
    × (mem_char b']' host ≡ false)

clip_all : (size : ℕ) (s : Text) → length s < size → clip size s ≡ s
unfolding clip
clip_all size s h = take_all (size - 1) s (omega arith)

accept_all :
    (host_size port_size : ℕ) (host port : Text)
    → 0 < length host
    → length host < host_size
    → 0 < length port
    → length port < port_size
    → accept host_size port_size host port ≡ some (host, port)
unfolding accept
accept_all host_size port_size host [] a b c d = absurd (omega arith)
accept_all host_size port_size host (p ∷ port) a b c d =
    ground (arith, clip_all port_size (p ∷ port) d)

-- An endpoint that is written out is split into its host and its port.
pub split_endpoint-write :
    (host_size port_size : ℕ) (e : Endpoint)
    → IsWellFormed host_size port_size e
    → split_endpoint host_size port_size (write e) ≡ some (parts e)
unfolding split_endpoint
split_endpoint-write hs ps (ipv4 [] port) h = absurd (omega arith)
split_endpoint-write hs ps (ipv4 (c ∷ host) port) (a, b, d, f, nb, nc) =
    rw (nb, rfind_char-append b':' (c ∷ host) port nc) (accept_all hs ps (c ∷ host) port a b d f)
split_endpoint-write hs ps (ipv6 host port) (a, b, d, f, nb) =
    rw (find_char-append b']' host (b':' ∷ port) nb) (accept_all hs ps host port a b d f)

-- What stands behind the cut has no `x`.
abbrev RestFree : ℕ → Option (Text × Text) → Type 0
RestFree x none = Unit
RestFree x (some (a, b)) = mem_char x b ≡ false

find_char_rest : (x c : ℕ) (s : Text) → mem_char x s ≡ false → RestFree x (find_char c s)
unfolding find_char mem_char
find_char_rest x c [] m = tt
find_char_rest x c (y ∷ s) m = go (find_char c s) (find_char_rest x c s (ground arith))
  where
    go :
        (r : Option (Text × Text))
        → RestFree x r
        → RestFree x (
            if y == c then some ([], s) else elim r [ none ↦ none | some (a, b) ↦ some (y ∷ a, b) ])
    go none ih = ground arith
    go (some (a, b)) ih = ground arith

bracketed-none :
    (host_size port_size : ℕ) (r : Option (Text × Text))
    → RestFree b':' r
    → bracketed host_size port_size r ≡ none
unfolding bracketed mem_char
bracketed-none hs ps none h = refl
bracketed-none hs ps (some (host, [])) h = refl
bracketed-none hs ps (some (host, c ∷ port)) h = ground arith

-- Text with no colon is no endpoint.
pub split_endpoint-no_colon :
    (host_size port_size : ℕ) (s : Text)
    → mem_char b':' s ≡ false
    → split_endpoint host_size port_size s ≡ none
unfolding split_endpoint mem_char
split_endpoint-no_colon hs ps [] h = refl
split_endpoint-no_colon hs ps (c ∷ s) h = elim (Bool-cases (c == b'[')) [
  | inl e ↦ rw e (bracketed-none hs ps _ (find_char_rest b':' b']' s (ground arith)))
  | inr e ↦ rw (e, rfind_char-none b':' (c ∷ s) h)
]
