-- ===== src/Connections/Rows/Files.antt =====
-- All connections (`get_connection_info`, `apply_socket_owner_map` and `compare_connections` of
-- src/trfx_connections.c): the four files, the owners, and the order of the rows.
use mathlib.Core.List.{map}
use trafix.Prelude.Fill.{fill-choose, choose}
use trafix.Prelude.Int.{ℤ, sub_ℕ}
use trafix.Prelude.{
  ℕ, suc, ◌-◌, List, [], ◌∷◌, ◌++◌, Option, none, some, ◌≡◌, refl, sym, ap, ◌∙◌, append-nil, arith,
  ◌==◌, ==→eq, length, length-take, take, take-append, take_all, Bool-cases, inl, inr,
  if◌then◌else◌,
}
use trafix.Cstr.Lines.{fgets_lines}
use trafix.Cstr.Sort.{Qsort}
use trafix.Cstr.{Text, codes, is}
use trafix.Actions.Requests.{ConnectionInfo}
use trafix.SocketOwners.{
  Proc, OwnerEntry, find_socket_owner_by_inode, scan_socket_owner_map, max_map_entries,
}
use trafix.Connections.Rows.{
  System, row_of, parse_connection_file, parse_connection_path, rows_behind_header, parse_opened,
}

unfoldable pub state_priority : Text → ℕ
state_priority state =
    if is state "ESTABLISHED"
    then 0
    else if is state "LISTEN"
    then 1
    else if is state "TIME_WAIT"
    then 2
    else 100

unfoldable pub compare_connections : ConnectionInfo → ConnectionInfo → ℤ
unfolding state_priority
compare_connections a b = sub_ℕ (state_priority a.state) (state_priority b.state)

-- The body of the loop; an array of 16 bytes for the PID and one of 64 for the name.
unfoldable pub with_owner : List OwnerEntry → ConnectionInfo → ConnectionInfo
unfolding find_socket_owner_by_inode
with_owner owners c =
    let owner = find_socket_owner_by_inode owners c.inode 16 64 in
    record c { pid = owner.pid; process = owner.process }

module _ (sys : System) where
  abbrev pub four_files : ℕ → List ConnectionInfo
  four_files max_conns =
      let tcp = parse_connection_path sys (codes "/proc/net/tcp") (codes "TCP") [] max_conns in
      let udp = parse_connection_path sys (codes "/proc/net/udp") (codes "UDP") tcp max_conns in
      let tcp6 = parse_connection_path sys (codes "/proc/net/tcp6") (codes "TCP") udp max_conns in
      parse_connection_path sys (codes "/proc/net/udp6") (codes "UDP") tcp6 max_conns

module _ (proc : Proc) where
  unfoldable pub apply_socket_owner_map : List ConnectionInfo → List ConnectionInfo
  unfolding with_owner scan_socket_owner_map
  apply_socket_owner_map connections =
      map (with_owner (scan_socket_owner_map proc max_map_entries)) connections

module _ (sys : System) (proc : Proc) where
  unfoldable pub get_connection_info : Qsort ConnectionInfo → ℕ → List ConnectionInfo
  unfolding apply_socket_owner_map parse_connection_path compare_connections
  get_connection_info qsort max_conns =
      qsort.sort compare_connections (apply_socket_owner_map proc (four_files sys max_conns))

module _ (sys : System) where
  abbrev rows_of_lines : Text → List Text → List ConnectionInfo
  rows_of_lines proto [] = []
  rows_of_lines proto (header ∷ lines) = choose (row_of sys proto) lines

  abbrev rows_of_file : Text → Option Text → List ConnectionInfo
  rows_of_file proto none = []
  rows_of_file proto (some file) = rows_of_lines proto (fgets_lines 512 file)

  -- All rows of a file that can be opened.
  abbrev pub rows_at : Text → Text → List ConnectionInfo
  rows_at path proto = rows_of_file proto (sys.read_file path)

  no_rows : (max : ℕ) (list : List ConnectionInfo) → list ≡ list ++ take (max - length list) []
  no_rows max list =
      sym (ap (λ t. list ++ t) (take_all (max - length list) [] (omega arith)) ∙ append-nil list)

  rows_behind_header-rows :
      (proto : Text) (max : ℕ) (list : List ConnectionInfo) (lines : List Text)
      → rows_behind_header sys proto max list lines
        ≡ list ++ take (max - length list) (rows_of_lines proto lines)
  rows_behind_header-rows proto max list [] = no_rows max list
  rows_behind_header-rows proto max list (header ∷ lines) =
      fill-choose max (row_of sys proto) list lines

  parse_connection_file-rows :
      (file proto : Text) (list : List ConnectionInfo) (max : ℕ)
      → parse_connection_file sys file proto list max
        ≡ list ++ take (max - length list) (rows_of_file proto (some file))
  unfolding parse_connection_file
  parse_connection_file-rows file proto list max = elim (Bool-cases (max == 0)) [
    | inl e ↦
        let none_left : max - length list ≡ 0 = omega (arith, ==→eq max 0 e) in
        rw (e, none_left) (sym (append-nil list))
    | inr e ↦ rw e (rows_behind_header-rows proto max list (fgets_lines 512 file))
  ]

  parse_opened-rows :
      (file : Option Text) (proto : Text) (list : List ConnectionInfo) (max : ℕ)
      → parse_opened sys file proto list max
        ≡ list ++ take (max - length list) (rows_of_file proto file)
  parse_opened-rows none proto list max = no_rows max list
  parse_opened-rows (some file) proto list max = parse_connection_file-rows file proto list max

  -- A file adds to the first rows that there are the first of its own.
  path-rows :
      (path proto : Text) (max : ℕ) (list rows : List ConnectionInfo)
      → list ≡ take max rows
      → parse_connection_path sys path proto list max ≡ take max (rows ++ rows_at path proto)
  unfolding parse_connection_path
  path-rows path proto max list rows e =
      parse_opened-rows (sys.read_file path) proto list max
      ∙ ap (λ l. l ++ take (max - length l) (rows_at path proto)) e
      ∙ ap (λ k. take max rows ++ take k (rows_at path proto)) left
      ∙ sym (take-append max rows (rows_at path proto))
    where
      left : max - length (take max rows) ≡ max - length rows
      left = omega (arith, length-take max rows)

  -- The rows of the four files.
  abbrev pub all_rows : List ConnectionInfo
  all_rows =
      ((rows_at (codes "/proc/net/tcp") (codes "TCP")
          ++ rows_at (codes "/proc/net/udp") (codes "UDP"))
        ++ rows_at (codes "/proc/net/tcp6") (codes "TCP"))
      ++ rows_at (codes "/proc/net/udp6") (codes "UDP")

  pub four_files-all_rows : (max : ℕ) → four_files sys max ≡ take max all_rows
  four_files-all_rows max = path-rows _ _ max _ _ (
      path-rows _ _ max _ _
        (path-rows _ _ max _ _ (path-rows _ _ max [] [] (sym (take_all max [] (omega arith))))))

length-map :
    (f : ConnectionInfo → ConnectionInfo) (l : List ConnectionInfo) → length (map f l) ≡ length l
length-map f [] = refl
length-map f (c ∷ l) = ap suc (length-map f l)

pub length-apply_socket_owner_map :
    (proc : Proc) (l : List ConnectionInfo) → length (apply_socket_owner_map proc l) ≡ length l
unfolding apply_socket_owner_map
length-apply_socket_owner_map proc l = length-map _ l
