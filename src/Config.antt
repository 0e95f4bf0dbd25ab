-- ===== src/Config.antt =====
-- The configuration (src/trfx_config.c, include/trfx_config.h): its global variables are a record, and
-- its lines on stderr are a list.
pub mod Bounds
pub mod Entries
pub mod Profile
use trafix.Prelude.Int.{ℤ, pos, ltb_ℤ}
use trafix.Prelude.{
  ℕ, ◌+◌, Bool, true, false, not, ◌&&◌, ◌||◌, List, [], ◌∷◌, ◌++◌, Option, none, some, leb, ◌==◌,
  if◌then◌else◌,
}
use trafix.Cstr.Lines.{fgets_lines}
use trafix.Cstr.Number.{Strtol, strtol, atoi}
use trafix.Cstr.Tokens.{tokens}
use trafix.Cstr.{Text, codes, equal, is, is_empty, skip_space, trim, chomp}

pub record Settings : Type 0 where
  pub temp_warn_yellow : ℤ
  pub temp_warn_red : ℤ
  pub alert_memory_warn_percent : ℤ
  pub alert_disk_warn_percent : ℤ
  pub alert_require_default_route : ℤ
  pub alert_require_dns : ℤ
  pub show_top_panels : ℤ
  pub tui_refresh_interval_ms : ℤ
  pub tui_pause_interval_ms : ℤ
  pub tui_ready_check_interval_ms : ℤ
  pub tui_small_panel_refresh_ms : ℤ

abbrev pub initial : Settings
initial = record {
  temp_warn_yellow = pos 50;
  temp_warn_red = pos 75;
  alert_memory_warn_percent = pos 90;
  alert_disk_warn_percent = pos 90;
  alert_require_default_route = pos 1;
  alert_require_dns = pos 1;
  show_top_panels = pos 1;
  tui_refresh_interval_ms = pos 1000;
  tui_pause_interval_ms = pos 100;
  tui_ready_check_interval_ms = pos 10;
  tui_small_panel_refresh_ms = pos 2000;
}

pub data Warning : Type 0 where
  no_file : Text → Warning
  invalid_entry : ℕ → Warning
  unknown_key : Text → ℕ → Warning
  invalid_integer out_of_range : Text → ℕ → ℤ → Warning

unfoldable pub parse_bounded_int : Text → ℤ → ℤ → ℤ → Text → ℕ → ℤ × List Warning
parse_bounded_int value default_value min_value max_value name line_num =
    let parsed = strtol value in
    if is_empty value || not (is_empty (skip_space parsed.end))
    then (default_value, invalid_integer name line_num default_value ∷ [])
    else if ltb_ℤ parsed.value min_value || ltb_ℤ max_value parsed.value
    then (default_value, out_of_range name line_num default_value ∷ [])
    else (parsed.value, [])

abbrev lower : ℕ → ℕ
lower c = if leb b'A' c && leb c b'Z' then c + 32 else c

abbrev lower_all : Text → Text
lower_all [] = []
lower_all (c ∷ s) = lower c ∷ lower_all s

-- `strcasecmp(a, b) == 0`
unfoldable pub equal_nocase : Text → Text → Bool
unfolding equal
equal_nocase a b = equal (lower_all a) (lower_all b)

unfoldable pub parse_bool : Text → ℤ → Text → ℕ → ℤ × List Warning
unfolding parse_bounded_int equal_nocase
parse_bool value default_value name line_num =
    if equal_nocase value (codes "true")
      || equal_nocase value (codes "yes")
      || equal_nocase value (codes "on")
    then (pos 1, [])
    else if equal_nocase value (codes "false")
        || equal_nocase value (codes "no")
        || equal_nocase value (codes "off")
    then (pos 0, [])
    else parse_bounded_int value default_value (pos 0) (pos 1) name line_num

-- Assigns the parsed value.
abbrev assign : (ℤ → Settings) → ℤ × List Warning → Settings × List Warning
assign put (value, warnings) = (put value, warnings)

-- The comparisons of the key.
unfoldable pub apply_entry : Settings → Text → Text → ℕ → Settings × List Warning
unfolding parse_bool
apply_entry s key value n =
    if is key "TEMP_WARN_YELLOW"
    then (record s { temp_warn_yellow = atoi value }, [])
    else if is key "TEMP_WARN_RED"
    then (record s { temp_warn_red = atoi value }, [])
    else if is key "ALERT_MEMORY_WARN_PERCENT"
    then assign (λ v. record s { alert_memory_warn_percent = v })
        (parse_bounded_int value (pos 90) (pos 1) (pos 100) key n)
    else if is key "ALERT_DISK_WARN_PERCENT"
    then assign (λ v. record s { alert_disk_warn_percent = v })
        (parse_bounded_int value (pos 90) (pos 1) (pos 100) key n)
    else if is key "ALERT_REQUIRE_DEFAULT_ROUTE"
    then assign (λ v. record s { alert_require_default_route = v }) (parse_bool value (pos 1) key n)
    else if is key "ALERT_REQUIRE_DNS"
    then assign (λ v. record s { alert_require_dns = v }) (parse_bool value (pos 1) key n)
    else if is key "SHOW_TOP_PANELS"
    then assign (λ v. record s { show_top_panels = v }) (parse_bool value (pos 1) key n)
    else if is key "TUI_REFRESH_INTERVAL_MS"
    then assign (λ v. record s { tui_refresh_interval_ms = v })
        (parse_bounded_int value (pos 1000) (pos 250) (pos 10000) key n)
    else if is key "TUI_PAUSE_INTERVAL_MS"
    then assign (λ v. record s { tui_pause_interval_ms = v })
        (parse_bounded_int value (pos 100) (pos 25) (pos 1000) key n)
    else if is key "TUI_READY_CHECK_INTERVAL_MS"
    then assign (λ v. record s { tui_ready_check_interval_ms = v })
        (parse_bounded_int value (pos 10) (pos 1) (pos 250) key n)
    else if is key "TUI_SMALL_PANEL_REFRESH_MS"
    then assign (λ v. record s { tui_small_panel_refresh_ms = v })
        (parse_bounded_int value (pos 2000) (pos 250) (pos 10000) key n)
    else (s, unknown_key key n ∷ [])

-- The key and the value, if the line has both.
unfoldable pub apply_words : Settings → List Text → ℕ → Settings × List Warning
unfolding apply_entry
apply_words s (key ∷ value ∷ rest) n = apply_entry s (trim key) (trim value) n
apply_words s _ n = (s, invalid_entry n ∷ [])

abbrev is_comment : Text → Bool
is_comment [] = true
is_comment (c ∷ line) = c == b'#'

-- A line without its newline.
unfoldable pub apply_line : Settings → Text → ℕ → Settings × List Warning
unfolding apply_words
apply_line s line n = if is_comment line then (s, []) else apply_words s (tokens (codes "=") line) n

-- The loop; `n` lines were read before.
unfoldable pub apply_lines : Settings → List Text → ℕ → Settings × List Warning
unfolding apply_line
apply_lines s [] n = (s, [])
apply_lines s (line ∷ lines) n =
    let (t, first) = apply_line s (chomp line) (n + 1) in
    let (u, more) = apply_lines t lines (n + 1) in (u, first ++ more)

-- The file's contents, if it can be opened.
unfoldable pub read_config : Settings → Text → Option Text → Settings × List Warning
unfolding apply_lines
read_config s path none = (s, no_file path ∷ [])
read_config s path (some file) = apply_lines s (fgets_lines 256 file) 0
