-- ===== src/Actions/Lookup.antt =====
-- `parse_pid_value`, `lookup_process_uid_file`, `trfx_lookup_process_uid` and
-- `trfx_lookup_process_name` (src/trfx_actions.c). An error buffer has `error_size > 0` bytes, as
-- at every call in the program. A result is paired with what the call left in the error buffer.
use trafix.Prelude.Int.{ℤ, pos, leb_ℤ}
use trafix.Prelude.{
  ℕ, ◌-◌, ◌^◌, ◌%◌, Bool, true, false, not, ◌||◌, List, [], ◌∷◌, ◌++◌, Option, none, some, ltb,
  ◌==◌, if◌then◌else◌,
}
use trafix.Cstr.Lines.{fgets_lines}
use trafix.Cstr.Number.{strtol, to_int, scan_digits}
use trafix.Cstr.{chomp, Text, codes, clip, is_digit, is_empty, skip_space}
use trafix.Cstr.Scan.{drop_prefix}
use trafix.Actions.World.{World}

-- The `pid_t` of a process identifier in decimal.
unfoldable pub parse_pid_value : Text → Option ℤ
unfolding to_int
parse_pid_value pid =
    let parsed = strtol pid in
    if is_empty pid || parsed.range_error || not (is_empty parsed.end) || leb_ℤ parsed.value (pos 0)
    then none
    else some (to_int parsed.value)

-- The digits of `%u`, at least one: `strtoul` gives a `long` of 64 bits, the largest on overflow and
-- the negative modulo 2^64 behind a minus, and 32 bits of it are stored.
unsigned_digits : Bool → Text → Option ℕ
unfolding scan_digits
unsigned_digits negative [] = none
unsigned_digits negative (c ∷ s) =
    let n = (scan_digits 0 (c ∷ s)).0 in
    if not (is_digit c)
    then none
    else if ltb (2 ^ 64 - 1) n
    then some (2 ^ 32 - 1)
    else some ((if negative then 2 ^ 64 - n else n) % 2 ^ 32)

unsigned_sign : Text → Option ℕ
unfolding unsigned_digits
unsigned_sign [] = none
unsigned_sign (c ∷ s) =
    if c == b'-'
    then unsigned_digits true s
    else if c == b'+'
    then unsigned_digits false s
    else unsigned_digits false (c ∷ s)

-- `%u`
unfoldable pub scan_unsigned : Text → Option ℕ
unfolding unsigned_sign skip_space
scan_unsigned s = unsigned_sign (skip_space s)

-- `sscanf(line, "Uid:%u", &real_uid) == 1`
unfoldable pub uid_of_line : Text → Option ℕ
unfolding scan_unsigned
uid_of_line line = elim (drop_prefix (codes "Uid:") line) [ none ↦ none | some s ↦ scan_unsigned s ]

unfoldable pub lookup_process_uid_file : List Text → Option ℕ
unfolding uid_of_line
lookup_process_uid_file [] = none
lookup_process_uid_file (line ∷ lines) =
    let rest = lookup_process_uid_file lines in
    elim (uid_of_line line) [ some uid ↦ some uid | none ↦ rest ]

abbrev pub path_size : ℕ
path_size = 256

unfoldable pub status_path : Text → Text
status_path pid = clip path_size (codes "/proc/" ++ pid ++ codes "/status")

unfoldable pub lookup_process_uid : World → Text → ℕ → Option ℕ × Text
lookup_process_uid w pid error_size = elim (w.read_file (status_path pid)) [
  | none ↦ (none, clip error_size (codes "process " ++ pid ++ codes " not found"))
  | some file ↦ elim (lookup_process_uid_file (fgets_lines 256 file)) [
    | none ↦ (none, clip error_size (codes "uid unavailable for process " ++ pid))
    | some uid ↦ (some uid, [])
  ]
]

unfoldable pub comm_path : Text → Text
comm_path pid = clip path_size (codes "/proc/" ++ pid ++ codes "/comm")

name_of_lines : Text → ℕ → ℕ → List Text → Option Text × Text
unfolding chomp
name_of_lines pid process_size error_size [] =
    (none, clip error_size (codes "process name unavailable for " ++ pid))
name_of_lines pid process_size error_size (line ∷ lines) =
    (some (if is_empty (chomp line) then clip process_size (codes "-") else chomp line), [])

unfoldable pub lookup_process_name : World → Text → ℕ → ℕ → Option Text × Text
unfolding name_of_lines
lookup_process_name w pid process_size error_size = elim (w.read_file (comm_path pid)) [
  | none ↦ (none, clip error_size (codes "process " ++ pid ++ codes " not found"))
  | some file ↦ name_of_lines pid process_size error_size (fgets_lines process_size file)
]
