-- ===== src/Config/Entries.antt =====
-- Files of entries KEY=NUMBER, as src/trfx_config.c reads them.
pub mod Files
use trafix.Prelude.Int.{ℤ, pos, ltb_ℤ}
use trafix.Prelude.{
  ℕ, zero, suc, ◌+◌, ◌≤◌, ◌<◌, ◌^◌, ◌%◌, Bool, true, false, not, List, [], ◌∷◌, ◌++◌, Option, none,
  some, ◌≡◌, refl, sym, ap, ◌∙◌, arith, leb, ltb, ◌==◌, ◌||◌, ◌&&◌, if◌then◌else◌, lt→ltb, length,
  length-append, all, &&_left, &&_right, Bool-cases, inl, inr, append_assoc,
}
use trafix.Cstr.Compare.{find_char-append}
use trafix.Cstr.Lines.{fgets_lines, fgets_lines-fits}
use trafix.Cstr.Number.{strtol, show, atoi, to_int, long_max, scan_digits}
use trafix.Cstr.Number.Decimal.{strtol-show, show-length, show-non_empty, all-show}
use trafix.Cstr.Tokens.{tokens, tokens-two, free_of}
use trafix.Cstr.{
  Text, codes, is, is_empty, skip_space, drop_space_end, trim, mem_char, is_digit, is_space,
}
use trafix.Config.{
  Settings, parse_bounded_int, parse_bool, apply_entry, apply_words, apply_line, apply_lines,
  read_config, is_comment, chomp, Warning, assign, equal_nocase,
}

-- The keys.
pub data Setting : Type 0 where
  yellow red memory disk route dns panels refresh pause ready small : Setting

abbrev pub name : Setting → Text
name yellow = codes "TEMP_WARN_YELLOW"
name red = codes "TEMP_WARN_RED"
name memory = codes "ALERT_MEMORY_WARN_PERCENT"
name disk = codes "ALERT_DISK_WARN_PERCENT"
name route = codes "ALERT_REQUIRE_DEFAULT_ROUTE"
name dns = codes "ALERT_REQUIRE_DNS"
name panels = codes "SHOW_TOP_PANELS"
name refresh = codes "TUI_REFRESH_INTERVAL_MS"
name pause = codes "TUI_PAUSE_INTERVAL_MS"
name ready = codes "TUI_READY_CHECK_INTERVAL_MS"
name small = codes "TUI_SMALL_PANEL_REFRESH_MS"

abbrev pub put : Setting → ℕ → Settings → Settings
put yellow v s = record s { temp_warn_yellow = pos v }
put red v s = record s { temp_warn_red = pos v }
put memory v s = record s { alert_memory_warn_percent = pos v }
put disk v s = record s { alert_disk_warn_percent = pos v }
put route v s = record s { alert_require_default_route = pos v }
put dns v s = record s { alert_require_dns = pos v }
put panels v s = record s { show_top_panels = pos v }
put refresh v s = record s { tui_refresh_interval_ms = pos v }
put pause v s = record s { tui_pause_interval_ms = pos v }
put ready v s = record s { tui_ready_check_interval_ms = pos v }
put small v s = record s { tui_small_panel_refresh_ms = pos v }

abbrev pub low : Setting → ℕ
low memory = 1
low disk = 1
low refresh = 250
low pause = 25
low ready = 1
low small = 250
low _ = 0

abbrev pub high : Setting → ℕ
high yellow = 2147483647
high red = 2147483647
high memory = 100
high disk = 100
high route = 1
high dns = 1
high panels = 1
high refresh = 10000
high pause = 1000
high ready = 250
high small = 10000

abbrev pub InRange : Setting → ℕ → Type 0
InRange k v = (low k ≤ v) × (v ≤ high k)

pub high_max : (k : Setting) → high k ≤ 2147483647
high_max k = ground arith

parse_bounded_int-show :
    (v d l h : ℕ) (key : Text) (n : ℕ)
    → l ≤ v
    → v ≤ h
    → v ≤ long_max
    → parse_bounded_int (show v) (pos d) (pos l) (pos h) key n ≡ (pos v, [])
unfolding parse_bounded_int skip_space
parse_bounded_int-show v d l h key n a b m = rw (strtol-show v m, show-non_empty v) (ground arith)

-- No word is a number.
parse_bool-show :
    (v : ℕ) (key : Text) (n : ℕ) → v ≤ 1 → parse_bool (show v) (pos 1) key n ≡ (pos v, [])
unfolding parse_bool parse_bounded_int equal_nocase show strtol skip_space is_digit scan_digits
parse_bool-show zero key n h = refl
parse_bool-show (suc zero) key n h = refl
parse_bool-show (suc (suc v)) key n h = absurd (omega arith)

to_int-pos : (v : ℕ) → v ≤ 2147483647 → to_int (pos v) ≡ pos v
unfolding to_int
to_int-pos v h =
    let e : v % 2 ^ 32 ≡ v = omega arith in rw (e, lt→ltb v (2 ^ 31) (omega arith)) refl

atoi-show : (v : ℕ) → v ≤ 2147483647 → atoi (show v) ≡ pos v
unfolding atoi
atoi-show v h = ap (λ r. to_int r.value) (strtol-show v (omega arith)) ∙ to_int-pos v h

-- A value in range is stored.
pub apply_entry-show :
    (s : Settings) (k : Setting) (v n : ℕ)
    → InRange k v
    → apply_entry s (name k) (show v) n ≡ (put k v s, [])
unfolding apply_entry is
apply_entry-show s yellow v n (a, b) =
    ap (λ t. (record s { temp_warn_yellow = t }, [])) (atoi-show v b)
apply_entry-show s red v n (a, b) = ap (λ t. (record s { temp_warn_red = t }, [])) (atoi-show v b)
apply_entry-show s memory v n (a, b) =
    rw (parse_bounded_int-show v 90 1 100 (name memory) n a b (omega arith)) refl
apply_entry-show s disk v n (a, b) =
    rw (parse_bounded_int-show v 90 1 100 (name disk) n a b (omega arith)) refl
apply_entry-show s route v n (a, b) = rw (parse_bool-show v (name route) n b) refl
apply_entry-show s dns v n (a, b) = rw (parse_bool-show v (name dns) n b) refl
apply_entry-show s panels v n (a, b) = rw (parse_bool-show v (name panels) n b) refl
apply_entry-show s refresh v n (a, b) =
    rw (parse_bounded_int-show v 1000 250 10000 (name refresh) n a b (omega arith)) refl
apply_entry-show s pause v n (a, b) =
    rw (parse_bounded_int-show v 100 25 1000 (name pause) n a b (omega arith)) refl
apply_entry-show s ready v n (a, b) =
    rw (parse_bounded_int-show v 10 1 250 (name ready) n a b (omega arith)) refl
apply_entry-show s small v n (a, b) =
    rw (parse_bounded_int-show v 2000 250 10000 (name small) n a b (omega arith)) refl
