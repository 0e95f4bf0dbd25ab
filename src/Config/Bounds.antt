-- ===== src/Config/Bounds.antt =====
-- The ranges of the settings (src/trfx_config.c).
use trafix.Prelude.Int.{ℤ, pos, ◌≤ℤ◌, ltb_ℤ}
use trafix.Prelude.{
  ℕ, ◌+◌, not, ◌||◌, List, [], ◌∷◌, Option, none, some, Bool-cases, inl, inr, arith,
}
use trafix.Cstr.Lines.{fgets_lines}
use trafix.Cstr.Number.{strtol}
use trafix.Cstr.Tokens.{tokens}
use trafix.Cstr.{chomp, Text, codes, is_empty, skip_space, trim}
use trafix.Config.{
  Settings, parse_bounded_int, parse_bool, apply_entry, apply_words, apply_line, apply_lines,
  read_config, is_comment,
}

abbrev pub In : ℤ → ℤ → ℤ → Type 0
In low high v = (low ≤ℤ v) × (v ≤ℤ high)

-- Percentages, flags and intervals in their ranges. The two temperatures are free.
abbrev pub InBounds : Settings → Type 0
InBounds s =
    In (pos 1) (pos 100) s.alert_memory_warn_percent
    × In (pos 1) (pos 100) s.alert_disk_warn_percent
    × In (pos 0) (pos 1) s.alert_require_default_route
    × In (pos 0) (pos 1) s.alert_require_dns
    × In (pos 0) (pos 1) s.show_top_panels
    × In (pos 250) (pos 10000) s.tui_refresh_interval_ms
    × In (pos 25) (pos 1000) s.tui_pause_interval_ms
    × In (pos 1) (pos 250) s.tui_ready_check_interval_ms
    × In (pos 250) (pos 10000) s.tui_small_panel_refresh_ms

parse_bounded_int-In :
    (value : Text) (d low high : ℤ) (name : Text) (n : ℕ)
    → In low high d
    → In low high (parse_bounded_int value d low high name n).0
unfolding parse_bounded_int
parse_bounded_int-In value d low high name n h =
    elim (Bool-cases (is_empty value || not (is_empty (skip_space (strtol value).end)))) [
      | inl e ↦ rw e h
      | inr e ↦
          rw e
            (elim (Bool-cases (ltb_ℤ (strtol value).value low || ltb_ℤ high (strtol value).value)) [
              | inl f ↦ rw f h
              | inr f ↦ rw f (ground arith)
            ])
    ]

parse_bool-In :
    (value : Text) (name : Text) (n : ℕ) → In (pos 0) (pos 1) (parse_bool value (pos 1) name n).0
unfolding parse_bool
parse_bool-In value name n =
    let h = parse_bounded_int-In value (pos 1) (pos 0) (pos 1) name n (omega arith) in
    ground (arith, h)

apply_entry-InBounds :
    (s : Settings) (key value : Text) (n : ℕ) → InBounds s → InBounds (apply_entry s key value n).0
unfolding apply_entry
apply_entry-InBounds s key value n h =
    let percent = parse_bounded_int-In value (pos 90) (pos 1) (pos 100) key n (omega arith) in
    let flag = parse_bool-In value key n in
    let refresh = parse_bounded_int-In value (pos 1000) (pos 250) (pos 10000) key n (omega arith) in
    let pause = parse_bounded_int-In value (pos 100) (pos 25) (pos 1000) key n (omega arith) in
    let ready = parse_bounded_int-In value (pos 10) (pos 1) (pos 250) key n (omega arith) in
    let small = parse_bounded_int-In value (pos 2000) (pos 250) (pos 10000) key n (omega arith) in
    ground (arith, percent, flag, refresh, pause, ready, small)

apply_words-InBounds :
    (s : Settings) (words : List Text) (n : ℕ) → InBounds s → InBounds (apply_words s words n).0
unfolding apply_words
apply_words-InBounds s [] n h = h
apply_words-InBounds s (key ∷ []) n h = h
apply_words-InBounds s (key ∷ value ∷ rest) n h = apply_entry-InBounds s (trim key) (trim value) n h

apply_line-InBounds :
    (s : Settings) (line : Text) (n : ℕ) → InBounds s → InBounds (apply_line s line n).0
unfolding apply_line
apply_line-InBounds s line n h = elim (Bool-cases (is_comment line)) [
  | inl e ↦ rw e h
  | inr e ↦ rw e (apply_words-InBounds s (tokens (codes "=") line) n h)
]

apply_lines-InBounds :
    (s : Settings) (lines : List Text) (n : ℕ) → InBounds s → InBounds (apply_lines s lines n).0
unfolding apply_lines
apply_lines-InBounds s [] n h = h
apply_lines-InBounds s (line ∷ lines) n h =
    apply_lines-InBounds (apply_line s (chomp line) (n + 1)).0 lines (n + 1)
      (apply_line-InBounds s (chomp line) (n + 1) h)

pub read_config-InBounds :
    (s : Settings) (path : Text) (file : Option Text)
    → InBounds s
    → InBounds (read_config s path file).0
unfolding read_config
read_config-InBounds s path none h = h
read_config-InBounds s path (some file) h = apply_lines-InBounds s (fgets_lines 256 file) 0 h
