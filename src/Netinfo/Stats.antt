-- ===== src/Netinfo/Stats.antt =====
-- The counters of /proc/net/dev (`trfx_parse_interface_stats_file`, `trfx_parse_interface_stats_path`,
-- `trfx_collect_interface_stats_path` and `trfx_read_interface_stats`, src/trfx_netinfo.c). A file that
-- cannot be opened is `refused` with the text of its `errno`.
pub mod Written
use trafix.Prelude.Fill.{fill}
use trafix.Prelude.{
  ℕ, Bool, true, false, not, List, [], ◌∷◌, ◌++◌, Option, none, some, ◌==◌, take, length,
  if◌then◌else◌,
}
use trafix.Cstr.Lines.{fgets_lines}
use trafix.Cstr.Scan.{◌>>=◌, scan_char, scan_set, scan_ulong}
use trafix.Cstr.{Text, codes, clip, is_empty, skip_space}
use trafix.Netinfo.Rates.{InterfaceStat}
use trafix.Netinfo.Routes.{CollectorStatus, ok, invalid_argument, open_failed, parse_failed}

abbrev pub max_interfaces : ℕ
max_interfaces = 20

abbrev pub not_colon : ℕ → Bool
not_colon c = not (c == b':')

-- `sscanf(line, " %31[^:]: %lu %*u %*u %*u %*u %*u %*u %*u %lu", ...) == 3`
unfoldable pub scan_stat : Text → Option InterfaceStat
scan_stat line = do
  (name, s) ← scan_set 31 not_colon (skip_space line)
  s ← scan_char b':' s
  (rx_bytes, s) ← scan_ulong s
  (rx_packets, s) ← scan_ulong s
  (rx_errors, s) ← scan_ulong s
  (rx_drops, s) ← scan_ulong s
  (rx_fifo, s) ← scan_ulong s
  (rx_frames, s) ← scan_ulong s
  (rx_compressed, s) ← scan_ulong s
  (rx_multicast, s) ← scan_ulong s
  (tx_bytes, s) ← scan_ulong s
  some (record { name = name; rx_bytes = rx_bytes; tx_bytes = tx_bytes })

-- The lines behind two lines of headers; -1 is `none`.
abbrev pub stats_of_lines : ℕ → List Text → Option (List InterfaceStat)
stats_of_lines max_stats [] = none
stats_of_lines max_stats (header ∷ []) = none
stats_of_lines max_stats (header ∷ titles ∷ lines) = some (fill max_stats scan_stat [] lines)

unfoldable pub parse_interface_stats_file : Text → ℕ → Option (List InterfaceStat)
unfolding scan_stat fill
parse_interface_stats_file file max_stats =
    if max_stats == 0 then none else stats_of_lines max_stats (fgets_lines 256 file)

pub data Opened : Type 0 where
  contents refused : Text → Opened

abbrev stats_of_opened : Opened → ℕ → Option (List InterfaceStat)
stats_of_opened (refused reason) max_stats = none
stats_of_opened (contents file) max_stats = parse_interface_stats_file file max_stats

unfoldable pub parse_interface_stats_path : (Text → Opened) → Text → ℕ → Option (List InterfaceStat)
unfolding parse_interface_stats_file
parse_interface_stats_path open_file path max_stats = stats_of_opened (open_file path) max_stats

-- The count is the length of `stats`.
pub record StatsResult : Type 0 where
  pub status : CollectorStatus
  pub error : Text
  pub stats : List InterfaceStat

abbrev failed : CollectorStatus → Text → StatsResult
failed status error = record { status = status; error = clip 128 error; stats = [] }

abbrev result_of_stats : Option (List InterfaceStat) → StatsResult
result_of_stats none = failed parse_failed (codes "failed to parse interface stats")
result_of_stats (some stats) = record { status = ok; error = []; stats = stats }

abbrev result_of_opened : Opened → StatsResult
result_of_opened (refused reason) = failed open_failed (codes "open failed: " ++ reason)
result_of_opened (contents file) = result_of_stats (parse_interface_stats_file file max_interfaces)

unfoldable pub collect_interface_stats_path : (Text → Opened) → Text → StatsResult
unfolding parse_interface_stats_file
collect_interface_stats_path open_file path =
    if is_empty path
    then failed invalid_argument (codes "invalid path")
    else result_of_opened (open_file path)

abbrev stats_if_ok : StatsResult → CollectorStatus → ℕ → Option (List InterfaceStat)
stats_if_ok r ok max_stats = some (take max_stats r.stats)
stats_if_ok r _ max_stats = none

unfoldable pub read_interface_stats : (Text → Opened) → ℕ → Option (List InterfaceStat)
unfolding collect_interface_stats_path
read_interface_stats open_file max_stats =
    let r = collect_interface_stats_path open_file (codes "/proc/net/dev") in
    stats_if_ok r r.status max_stats
