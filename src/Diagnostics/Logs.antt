-- ===== src/Diagnostics/Logs.antt =====
-- The snapshot of log lines (include/trfx_diagnostics.h, src/trfx_diagnostics.c). Its array and count are
-- the list of the lines in use, oldest first.
use trafix.Prelude.{
  ℕ, ◌+◌, ◌-◌, false, List, [], ◌∷◌, ◌++◌, Option, none, ◌≡◌, ap, ◌∙◌, arith, ltb, leb, length,
  get_elem?, drop, append_assoc, append-nil, if◌then◌else◌, Bool-cases, inl, inr,
}
use trafix.Prelude.Recent.{last, remember-last}
use trafix.Cstr.{chomp, Text, codes, clip, is_empty}
use trafix.Netinfo.Routes.{CollectorStatus, parse_failed}

abbrev pub max_log_lines : ℕ
max_log_lines = 12

pub record LogLine : Type 0 where
  pub source : Text
  pub text : Text

pub record LogSnapshot : Type 0 where
  pub status : CollectorStatus
  pub error : Text
  pub lines : List LogLine

abbrev pub reset_log_snapshot : LogSnapshot
reset_log_snapshot = record { status = parse_failed; error = []; lines = [] }

-- The error of a failed collection.
unfoldable pub set_error : LogSnapshot → Text → LogSnapshot
set_error s message = record s {
  error = clip 128 (if is_empty message then codes "logs unavailable" else message);
}

abbrev pub log_line : Text → Text → LogLine
log_line source text = record {
  source = clip 32 (if is_empty source then codes "logs" else source);
  text = clip 256 text;
}

-- An empty line is not added; where all places are taken, the others move down by one.
unfoldable pub add_line : LogSnapshot → Text → Text → LogSnapshot
add_line s source text = if is_empty text then s else record s {
  lines =
      (if ltb (length s.lines) max_log_lines then s.lines else drop 1 s.lines)
      ++ log_line source text ∷ [];
}

-- The loop, which counts the lines it adds.
unfoldable pub add_lines : LogSnapshot → Text → List Text → ℕ → LogSnapshot × ℕ
add_lines s source [] line_count = (s, line_count)
add_lines s source (line ∷ lines) line_count =
    let skipped = add_lines s source lines line_count in
    let added = add_lines (add_line s source (chomp line)) source lines (line_count + 1) in
    if is_empty (chomp line) then skipped else added

-- The lines that a source has, in its order.
abbrev pub entries_of : Text → List Text → List LogLine
entries_of source [] = []
entries_of source (line ∷ lines) =
    let rest = entries_of source lines in
    if is_empty (chomp line) then rest else log_line source (chomp line) ∷ rest

-- The last twelve.
abbrev pub recent : List LogLine → List LogLine
recent = last max_log_lines

add_line-recent :
    (s : LogSnapshot) (source text : Text) (seen : List LogLine)
    → s.lines ≡ recent seen
    → is_empty text ≡ false
    → (add_line s source text).lines ≡ recent (seen ++ log_line source text ∷ [])
unfolding add_line
add_line-recent s source text seen e f =
    rw (f, e) (remember-last max_log_lines seen (log_line source text) (omega arith))

pub add_lines-recent :
    (lines : List Text) (s : LogSnapshot) (source : Text) (n : ℕ) (seen : List LogLine)
    → s.lines ≡ recent seen
    → ((add_lines s source lines n).0.lines ≡ recent (seen ++ entries_of source lines))
      × ((add_lines s source lines n).1 ≡ n + length (entries_of source lines))
unfolding add_lines
add_lines-recent [] s source n seen e = (rw (append-nil seen) e, omega arith)
add_lines-recent (line ∷ lines) s source n seen e = elim (Bool-cases (is_empty (chomp line))) [
  | inl f ↦ rw (add_lines, entries_of, f) (add_lines-recent lines s source n seen e)
  | inr f ↦
      let x = log_line source (chomp line) in
      let h =
        add_lines-recent lines (add_line s source (chomp line)) source (n + 1) (seen ++ x ∷ [])
          (add_line-recent s source (chomp line) seen e f) in
      rw (add_lines, entries_of, f)
        (
          h.0 ∙ ap (last max_log_lines) (append_assoc seen (x ∷ []) (entries_of source lines)),
          omega (arith, h.1),
        )
]

unfoldable pub log_count : LogSnapshot → ℕ
log_count s = length s.lines

-- The newest line first.
unfoldable pub log_at : LogSnapshot → ℕ → Option LogLine
log_at s index =
    if leb (length s.lines) index then none else get_elem? s.lines (length s.lines - 1 - index)
