-- ===== src/Connections/Rows.antt =====
-- The rows of /proc/net/tcp and its like (src/trfx_connections.c): the addresses in hexadecimal, a line,
-- a file. A `unsigned` has 32 bits. What the code asks of the system stands in `System`.
pub mod Endpoints
pub mod Files
pub mod Order
pub mod Written
use trafix.Prelude.Fill.{fill}
use trafix.Prelude.{
  ℕ, ◌+◌, ◌-◌, ◌*◌, Bool, true, false, ◌||◌, List, [], ◌∷◌, ◌++◌, Option, none, some, ltb, leb,
  ◌==◌, length, drop, if◌then◌else◌,
}
use trafix.Cstr.Lines.{fgets_lines}
use trafix.Cstr.Number.{show}
use trafix.Cstr.Scan.{
  ◌>>=◌, scan_char, scan_hex, scan_hex_within, scan_set, scan_string, scan_uint, scan_ulong, is_hex,
}
use trafix.Cstr.{Text, codes, clip, rfind_char, skip_space}
use trafix.Actions.Requests.{ConnectionInfo}
use trafix.Connections.{socket_state_name, should_skip_connection_state}

pub record System : Type 0 where
  -- `inet_ntop(AF_INET6, ...)` of 16 bytes.
  pub ntop6 : List ℕ → Option Text
  -- The name that `getpwuid` finds.
  pub user_name : ℕ → Option Text
  -- The contents of a file that can be opened.
  pub read_file : Text → Option Text

-- `sscanf(hex, "%2x", &value)`
unfoldable pub hex_byte : Text → Option ℕ
hex_byte hex = do (value, rest) ← scan_hex_within 2 hex; some value

-- The four bytes of a word, the last first: the inner loop.
abbrev word_bytes : ℕ → Text → Option (List ℕ)
word_bytes word hex = do
  b0 ← hex_byte (drop (word * 8 + 6) hex)
  b1 ← hex_byte (drop (word * 8 + 4) hex)
  b2 ← hex_byte (drop (word * 8 + 2) hex)
  b3 ← hex_byte (drop (word * 8) hex)
  some (b0 ∷ b1 ∷ b2 ∷ b3 ∷ [])

abbrev pub dash : Text
dash = codes "-"

abbrev pub or_dash : Option Text → Text
or_dash none = dash
or_dash (some s) = clip 64 s

-- `sscanf(hex, "%2X%2X%2X%2X:%X", ...)`
unfoldable pub ipv4_text : Text → Option Text
ipv4_text hex = do
  (d, s) ← scan_hex_within 2 hex
  (c, s) ← scan_hex_within 2 s
  (b, s) ← scan_hex_within 2 s
  (a, s) ← scan_hex_within 2 s
  s ← scan_char b':' s
  (port, s) ← scan_hex s
  some (
      show a
      ++ (codes "."
          ++ (show b
              ++ (codes "." ++ (show c ++ (codes "." ++ (show d ++ (codes ":" ++ show port))))))))

module _ (sys : System) where
  unfoldable pub parse_ipv6_hex : Text → Option Text
  unfolding hex_byte
  parse_ipv6_hex hex =
      if length hex == 32
      then (do
        w0 ← word_bytes 0 hex
        w1 ← word_bytes 1 hex
        w2 ← word_bytes 2 hex
        w3 ← word_bytes 3 hex
        sys.ntop6 (w0 ++ (w1 ++ (w2 ++ w3))))
      else none

  abbrev pub ipv6_text : ℕ → Text → Option Text
  ipv6_text port hex = do
    ip ← parse_ipv6_hex hex
    some (codes "[" ++ (ip ++ (codes "]:" ++ show port)))

  abbrev pub address_text : Text → Text → Text → Text
  address_text hex addr_hex port_hex = elim (scan_hex port_hex) [
    | none ↦ dash
    | some (port, rest) ↦
        if leb 64 (length addr_hex)
        then dash
        else if length addr_hex == 32
        then or_dash (ipv6_text port addr_hex)
        else or_dash (ipv4_text hex)
  ]

  -- The text that is written to `dest`.
  unfoldable pub parse_ip_port : Text → Text
  unfolding parse_ipv6_hex ipv4_text
  parse_ip_port hex = elim (rfind_char b':' hex) [
    | none ↦ dash
    | some (addr_hex, port_hex) ↦ address_text hex addr_hex port_hex
  ]

  unfoldable pub resolve_uid_name : ℕ → Text
  resolve_uid_name uid = or_dash (sys.user_name uid)

pub record Line : Type 0 where
  pub local_hex : Text
  pub remote_hex : Text
  pub state_num : ℕ
  pub uid : ℕ
  pub inode : ℕ

abbrev pub is_address_char : ℕ → Bool
is_address_char c = is_hex c || c == b':'

-- `sscanf(line, "%*d: %127[0-9A-Fa-f:] %127[0-9A-Fa-f:] %x %*s %*s %*s %u %*u %lu", ...)`
unfoldable pub scan_line : Text → Option Line
scan_line line = do
  (slot, s) ← scan_uint line
  s ← scan_char b':' s
  (local_hex, s) ← scan_set 127 is_address_char (skip_space s)
  (remote_hex, s) ← scan_set 127 is_address_char (skip_space s)
  (state_num, s) ← scan_hex s
  (queues, s) ← scan_string s
  (timer, s) ← scan_string s
  (retransmits, s) ← scan_string s
  (uid, s) ← scan_uint s
  (timeout, s) ← scan_uint s
  (inode, s) ← scan_ulong s
  some (record {
    local_hex = local_hex;
    remote_hex = remote_hex;
    state_num = state_num;
    uid = uid;
    inode = inode;
  })

module _ (sys : System) where
  abbrev pub connection_of : Text → Line → ConnectionInfo
  connection_of proto l = record {
    protocol = clip 8 proto;
    local_addr = parse_ip_port sys l.local_hex;
    remote_addr = parse_ip_port sys l.remote_hex;
    state = clip 32 (socket_state_name proto l.state_num);
    inode = l.inode;
    uid = l.uid;
    user = resolve_uid_name sys l.uid;
    pid = codes "-";
    process = codes "-";
  }

  -- The row of a line, unless the line is skipped.
  unfoldable pub row_of : Text → Text → Option ConnectionInfo
  row_of proto line = do
    l ← scan_line line
    if should_skip_connection_state proto l.state_num then none else some (connection_of proto l)

  abbrev pub rows_behind_header : Text → ℕ → List ConnectionInfo → List Text → List ConnectionInfo
  rows_behind_header proto max list [] = list
  rows_behind_header proto max list (header ∷ lines) = fill max (row_of proto) list lines

  -- The rows of `list` and those of the file, as many as there is room for.
  unfoldable pub parse_connection_file : Text → Text → List ConnectionInfo → ℕ → List ConnectionInfo
  unfolding row_of fill
  parse_connection_file file proto list max =
      if max == 0 then list else rows_behind_header proto max list (fgets_lines 512 file)

  abbrev pub parse_opened : Option Text → Text → List ConnectionInfo → ℕ → List ConnectionInfo
  parse_opened none proto list max = list
  parse_opened (some file) proto list max = parse_connection_file file proto list max

  unfoldable pub parse_connection_path : Text → Text → List ConnectionInfo → ℕ → List ConnectionInfo
  unfolding parse_connection_file
  parse_connection_path path proto list max = parse_opened (sys.read_file path) proto list max
