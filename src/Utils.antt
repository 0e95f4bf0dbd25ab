-- ===== src/Utils.antt =====
-- Text that is cut for the terminal (src/trfx_utils.c).
use trafix.Prelude.{
  ℕ, ◌+◌, ◌-◌, ◌≤◌, ◌<◌, true, false, [], ◌∷◌, ◌++◌, Option, none, some, ◌≡◌, inl, inr, refl, sym,
  ap, ◌∙◌, arith, ltb, leb, ◌==◌, length, length-append, length-take, take-append, append_assoc,
  append-nil, take, take_all, if◌then◌else◌, Bool-cases, ltb→lt, ltb→le, lt→ltb,
}
use trafix.Prelude.Int.{ℤ, pos, pos_part, leb_ℤ}
use trafix.Cstr.{Text, codes, clip, mem_char}

-- `dest_size` is not 0, and `src` is no null pointer.
unfoldable pub clip_text : Text → ℕ → ℤ → Text
clip_text src dest_size max_width =
    if leb_ℤ max_width (pos 0)
    then []
    else let limit = pos_part max_width in
      clip dest_size (take (if leb dest_size limit then dest_size - 1 else limit) src)

-- `strrchr(value, ':')`: what stands in front of it, and the text from there on.
unfoldable pub last_colon : Text → Option (Text × Text)
last_colon [] = none
last_colon (c ∷ s) =
    let rest = last_colon s in
    elim rest [
      | some (before, suffix) ↦ some (c ∷ before, suffix)
      | none ↦ (if c == b':' then some ([], c ∷ s) else none)
    ]

-- The dots behind what is kept.
abbrev pub dots : Text
dots = codes "..."

abbrev with_suffix : Text → ℕ → Option (Text × Text) → Text
with_suffix value size none = take (size - 4) value ++ dots
with_suffix value size (some ([], suffix)) = take (size - 4) value ++ dots
with_suffix value size (some (c ∷ before, suffix)) =
    if ltb (length suffix + 4) size
    then take (size - length suffix - 4) value ++ (dots ++ suffix)
    else take (size - 4) value ++ dots

-- `bufsize` is not 0; a null pointer is `none`.
unfoldable pub format_endpoint_for_tui : Option Text → ℕ → Text
unfolding last_colon
format_endpoint_for_tui none size = clip size (codes "-")
format_endpoint_for_tui (some value) size =
    if ltb (length value) size
    then clip size value
    else if leb size 4
    then clip size (take (size - 1) value)
    else clip size (with_suffix value size (last_colon value))

short-with_suffix :
    (value : Text) (size : ℕ) (found : Option (Text × Text))
    → 4 < size
    → length (with_suffix value size found) < size
short-with_suffix value size none h =
    omega (arith, length-append (take (size - 4) value) dots, length-take (size - 4) value)
short-with_suffix value size (some ([], suffix)) h =
    omega (arith, length-append (take (size - 4) value) dots, length-take (size - 4) value)
short-with_suffix value size (some (c ∷ before, suffix)) h =
    elim (Bool-cases (ltb (length suffix + 4) size)) [
      | inl e ↦ rw e (
          omega (
            arith,
            ltb→lt _ _ e,
            length-append (take (size - length suffix - 4) value) (dots ++ suffix),
            length-append dots suffix,
            length-take (size - length suffix - 4) value,
          ))
      | inr e ↦
          rw e (
            omega (arith, length-append (take (size - 4) value) dots, length-take (size - 4) value))
    ]

last_colon-none : (port : Text) → mem_char b':' port ≡ false → last_colon port ≡ none
unfolding last_colon mem_char
last_colon-none [] h = refl
last_colon-none (c ∷ port) h =
    let tail : mem_char b':' port ≡ false = ground arith in
    let head : (c == b':') ≡ false = ground arith in rw (last_colon-none port tail, head) refl

last_colon-endpoint :
    (host port : Text)
    → mem_char b':' port ≡ false
    → last_colon (host ++ b':' ∷ port) ≡ some (host, b':' ∷ port)
unfolding last_colon
last_colon-endpoint [] port h = rw (last_colon-none port h) refl
last_colon-endpoint (c ∷ host) port h = rw (last_colon-endpoint host port h) refl

-- What is shown of a host, in front of its port.
abbrev pub shown_of : ℕ → Text → Text → Text
shown_of size host port =
    if ltb (length (host ++ b':' ∷ port)) size
    then host
    else take (size - length port - 5) host ++ dots

cut-endpoint :
    (size : ℕ) (c : ℕ) (host port : Text)
    → size ≤ length ((c ∷ host) ++ b':' ∷ port)
    → length port + 5 < size
    → with_suffix ((c ∷ host) ++ b':' ∷ port) size (some (c ∷ host, b':' ∷ port))
      ≡ (take (size - length port - 5) (c ∷ host) ++ dots) ++ b':' ∷ port
cut-endpoint size c host port long room =
    let whole = (c ∷ host) ++ b':' ∷ port in
    let front = take (size - length port - 5) (c ∷ host) in
    let test : ltb (length (b':' ∷ port) + 4) size ≡ true = lt→ltb _ _ (omega (arith, room)) in
    let kept : size - length (b':' ∷ port) - 4 ≡ size - length port - 5 = omega arith in
    let len = length-append (c ∷ host) (b':' ∷ port) in
    let none_of_port : size - length port - 5 - length (c ∷ host) ≡ 0 = omega (arith, len) in
    rw (test, kept, take-append (size - length port - 5) (c ∷ host) (b':' ∷ port), none_of_port)
      (ap (λ x. x ++ (dots ++ b':' ∷ port)) (append-nil front)
        ∙ sym (append_assoc front dots (b':' ∷ port)))

format_endpoint_for_tui-length :
    (value : Option Text) (size : ℕ) → 0 < size → length (format_endpoint_for_tui value size) < size
unfolding format_endpoint_for_tui clip
format_endpoint_for_tui-length none size h = omega (arith, length-take (size - 1) (codes "-"))
format_endpoint_for_tui-length (some value) size h = elim (Bool-cases (ltb (length value) size)) [
  | inl e ↦ rw e (omega (arith, length-take (size - 1) value))
  | inr e ↦ elim (Bool-cases (leb size 4)) [
    | inl f ↦ rw (e, f) (omega (arith, length-take (size - 1) (take (size - 1) value)))
    | inr f ↦
        rw (e, f)
          (omega (arith, length-take (size - 1) (with_suffix value size (last_colon value))))
  ]
]

-- An endpoint with a host, whose port fits beside five more bytes: the port is shown whole behind its colon, the
-- host whole if the endpoint fits in the buffer, and otherwise its front with dots; the text fits in the buffer.
pub format_endpoint_for_tui-KeepsPort :
    (size : ℕ) (c : ℕ) (host port : Text)
    → mem_char b':' port ≡ false
    → length port + 5 < size
    → (format_endpoint_for_tui (some ((c ∷ host) ++ b':' ∷ port)) size
        ≡ shown_of size (c ∷ host) port ++ b':' ∷ port)
      × (length (format_endpoint_for_tui (some ((c ∷ host) ++ b':' ∷ port)) size) < size)
unfolding format_endpoint_for_tui clip
format_endpoint_for_tui-KeepsPort size c host port h room =
    let whole = (c ∷ host) ++ b':' ∷ port in
    (
      elim (Bool-cases (ltb (length whole) size)) [
        | inl e ↦ rw e (take_all (size - 1) whole (omega (arith, ltb→lt _ _ e)))
        | inr e ↦
            let large : leb size 4 ≡ false = ground arith in
            let cut = with_suffix whole size (some (c ∷ host, b':' ∷ port)) in
            rw (e, large, last_colon-endpoint (c ∷ host) port h)
              (take_all (size - 1) cut (
                  omega (
                    arith,
                    short-with_suffix whole size (some (c ∷ host, b':' ∷ port)) (omega arith),
                  ))
                ∙ cut-endpoint size c host port (ltb→le _ _ e) room)
      ],
      format_endpoint_for_tui-length (some whole) size (omega arith),
    )
