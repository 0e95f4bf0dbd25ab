-- ===== src/SocketOwners.antt =====
-- The owners of sockets (include/trfx_socket_owners.h, src/trfx_socket_owners.c): the map from inodes to
-- processes that is read from /proc, the lookup in it, and the rows that have an owner. An array and its
-- count are a list. `inet_ntop(AF_INET, ...)` writes the bytes of an address as they stand in memory, the
-- lowest first. A variable that `sscanf` has not written holds `garbage`.
pub mod Scanned
use trafix.Prelude.Fill.{fill}
use trafix.Prelude.{
  ℕ, zero, suc, ◌+◌, ◌/◌, ◌%◌, Bool, true, false, not, ◌||◌, List, [], ◌∷◌, ◌++◌, Option, none,
  some, ltb, leb, ◌==◌, length, take, if◌then◌else◌,
}
use trafix.Cstr.Lines.{fgets_lines}
use trafix.Cstr.Number.{show}
use trafix.Cstr.Scan.{
  ◌>>=◌, drop_prefix, scan_char, scan_hex, scan_hex_within, scan_string, scan_string_within,
  scan_uint, scan_ulong,
}
use trafix.Cstr.{Text, codes, clip, is_digit}
use trafix.Actions.Requests.{SocketOwnerInfo}

abbrev pub max_map_entries : ℕ
max_map_entries = 4096

pub record OwnerEntry : Type 0 where
  pub inode : ℕ
  pub pid : Text
  pub process : Text

pub record Lookup : Type 0 where
  pub found : Bool
  pub pid : Text
  pub process : Text

abbrev lookup_none : ℕ → ℕ → Lookup
lookup_none pid_size process_size = record {
  found = false;
  pid = clip pid_size (codes "-");
  process = clip process_size (codes "-");
}

-- The loop over the entries.
unfoldable pub find_entry : ℕ → ℕ → ℕ → List OwnerEntry → Lookup
find_entry inode pid_size process_size [] = lookup_none pid_size process_size
find_entry inode pid_size process_size (e ∷ entries) =
    let rest = find_entry inode pid_size process_size entries in
    if e.inode == inode
    then record { found = true; pid = clip pid_size e.pid; process = clip process_size e.process }
    else rest

unfoldable pub find_socket_owner_by_inode : List OwnerEntry → ℕ → ℕ → ℕ → Lookup
unfolding find_entry
find_socket_owner_by_inode entries inode pid_size process_size =
    if inode == 0
    then lookup_none pid_size process_size
    else find_entry inode pid_size process_size entries

-- What the code asks of /proc; a directory gives the names in the order of `readdir`.
pub record Proc : Type 0 where
  pub open_dir : Text → Option (List Text)
  pub read_link : Text → Option Text
  pub read_file : Text → Option Text
  pub garbage : ℕ

-- A newline at the end is cut.
unfoldable pub drop_newline : Text → Text
drop_newline [] = []
drop_newline (c ∷ []) = if c == b'\n' then [] else c ∷ []
drop_newline (c ∷ d ∷ s) = c ∷ drop_newline (d ∷ s)

abbrev name_of_lines : List Text → Text
name_of_lines [] = codes "-"
name_of_lines (line ∷ lines) = drop_newline line

abbrev name_of_file : Option Text → Text
name_of_file none = codes "-"
name_of_file (some file) = name_of_lines (fgets_lines 64 file)

abbrev starts_with_digit : Text → Bool
starts_with_digit [] = false
starts_with_digit (c ∷ s) = is_digit c

abbrev is_hidden : Text → Bool
is_hidden [] = false
is_hidden (c ∷ s) = c == b'.'

-- `sscanf(target, "socket:[%lu]", &inode) == 1 && inode != 0`
unfoldable pub socket_inode : Text → Option ℕ
socket_inode target = do
  s ← drop_prefix (codes "socket:[") target
  (inode, s) ← scan_ulong s
  if inode == 0 then none else some inode

abbrev pub fd_dir_of : Text → Text
fd_dir_of name = clip 300 (codes "/proc/" ++ (take 200 name ++ codes "/fd"))

abbrev pub descriptors : Option (List Text) → List Text
descriptors none = []
descriptors (some fds) = fds

module _ (proc : Proc) where
  -- With `name_size` 64.
  unfoldable pub process_name_by_pid : Text → Text
  unfolding drop_newline
  process_name_by_pid pid =
      name_of_file (proc.read_file (clip 256 (codes "/proc/" ++ (pid ++ codes "/comm"))))

  abbrev entry_of : Text → ℕ → OwnerEntry
  entry_of name inode = record {
    inode = inode;
    pid = take 15 name;
    process = process_name_by_pid (take 15 name);
  }

  -- The entry of one name in a directory of descriptors.
  unfoldable pub descriptor_entry : Text → Text → Text → Option OwnerEntry
  unfolding socket_inode process_name_by_pid
  descriptor_entry name fd_dir fd =
      if is_hidden fd then none else if leb 512 (length fd_dir + 1 + length fd) then none else (do
        target ← proc.read_link (fd_dir ++ (codes "/" ++ fd))
        inode ← socket_inode (take 511 target)
        some (entry_of name inode))

  -- The entries of one process, behind those that there are.
  unfoldable pub add_process : ℕ → List OwnerEntry → Text → List OwnerEntry
  unfolding descriptor_entry fill
  add_process max entries name =
      if not (starts_with_digit name)
      then entries
      else fill max (descriptor_entry name (fd_dir_of name)) entries
          (descriptors (proc.open_dir (fd_dir_of name)))

  -- The outer loop.
  unfoldable pub add_processes : ℕ → List OwnerEntry → List Text → List OwnerEntry
  unfolding add_process
  add_processes max entries [] = entries
  add_processes max entries (name ∷ names) =
      let more = add_processes max (add_process max entries name) names in
      if ltb (length entries) max then more else entries

  unfoldable pub scan_socket_owner_map : ℕ → List OwnerEntry
  unfolding add_processes
  scan_socket_owner_map max = add_processes max [] (descriptors (proc.open_dir (codes "/proc")))

abbrev dotted : ℕ → Text
dotted ip =
    show (ip % 256)
    ++ (codes "."
        ++ (show (ip / 256 % 256)
            ++ (codes "."
                ++ (show (ip / 65536 % 256) ++ (codes "." ++ show (ip / 16777216 % 256))))))

abbrev written_or : ℕ → Option (ℕ × Text) → ℕ
written_or garbage none = garbage
written_or garbage (some (n, s)) = n

-- The address and the port that are written.
unfoldable pub hex_to_ip_port : ℕ → Text → Text → Text × Text
hex_to_ip_port garbage hex_ip hex_port = (
  dotted (written_or garbage (scan_hex hex_ip)),
  clip 8 (show (written_or garbage (scan_hex hex_port))),
)

pub record OwnerLine : Type 0 where
  pub local_ip : Text
  pub local_port : Text
  pub remote_ip : Text
  pub remote_port : Text
  pub inode : ℕ

-- `sscanf(line, "%*d: %8s:%4s %8s:%4s %02X %*s %*s %*s %u %*d %u", ...)`
unfoldable pub scan_owner_line : Text → Option OwnerLine
scan_owner_line line = do
  (slot, s) ← scan_uint line
  s ← scan_char b':' s
  (local_ip, s) ← scan_string_within 8 s
  s ← scan_char b':' s
  (local_port, s) ← scan_string_within 4 s
  (remote_ip, s) ← scan_string_within 8 s
  s ← scan_char b':' s
  (remote_port, s) ← scan_string_within 4 s
  (state, s) ← scan_hex_within 2 s
  (queues, s) ← scan_string s
  (timer, s) ← scan_string s
  (retransmits, s) ← scan_string s
  (uid, s) ← scan_uint s
  (timeout, s) ← scan_uint s
  (inode, s) ← scan_uint s
  some (record {
    local_ip = local_ip;
    local_port = local_port;
    remote_ip = remote_ip;
    remote_port = remote_port;
    inode = inode;
  })

module _ (garbage : ℕ) (entries : List OwnerEntry) (proto : Text) where
  abbrev pub owner_info : OwnerLine → Lookup → SocketOwnerInfo
  owner_info l owner =
      let (laddr, lport) = hex_to_ip_port garbage l.local_ip l.local_port in
      let (raddr, rport) = hex_to_ip_port garbage l.remote_ip l.remote_port in
      record {
        pid = owner.pid;
        process = owner.process;
        laddr = laddr;
        lport = lport;
        raddr = raddr;
        rport = rport;
        proto = clip 8 proto;
      }

  -- The row of a line, if it has an inode with an owner.
  unfoldable pub owner_row : Text → Option SocketOwnerInfo
  unfolding find_socket_owner_by_inode hex_to_ip_port
  owner_row line = do
    l ← scan_owner_line line
    let owner = find_socket_owner_by_inode entries l.inode 16 64
    if l.inode == 0 then none else if owner.found then some (owner_info l owner) else none

  abbrev rows_behind_header : ℕ → List SocketOwnerInfo → List Text → List SocketOwnerInfo
  rows_behind_header max list [] = list
  rows_behind_header max list (header ∷ lines) = fill max owner_row list lines

  abbrev rows_of_file : ℕ → List SocketOwnerInfo → Option Text → List SocketOwnerInfo
  rows_of_file max list none = list
  rows_of_file max list (some file) = rows_behind_header max list (fgets_lines 512 file)

  unfoldable pub parse_socket_owner_path :
      (Text → Option Text) → Text → List SocketOwnerInfo → ℕ → List SocketOwnerInfo
  unfolding owner_row fill
  parse_socket_owner_path read_file path list max =
      if leb max (length list) then list else rows_of_file max list (read_file path)

unfoldable pub get_socket_owner_info : Proc → ℕ → List SocketOwnerInfo
unfolding scan_socket_owner_map parse_socket_owner_path
get_socket_owner_info proc max_owners =
    if max_owners == 0
    then []
    else (let entries = scan_socket_owner_map proc max_map_entries in
        let tcp =
          parse_socket_owner_path proc.garbage entries (codes "TCP") proc.read_file
            (codes "/proc/net/tcp") [] max_owners in
        parse_socket_owner_path proc.garbage entries (codes "UDP") proc.read_file
          (codes "/proc/net/udp") tcp max_owners)
