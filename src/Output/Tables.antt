-- ===== src/Output/Tables.antt =====
-- The tables that src/trfx_cli_output.c prints. A function that prints is given what is printed behind it.
use trafix.Prelude.{
  ℕ, ◌-◌, Bool, true, not, List, [], ◌∷◌, ◌++◌, length, take, replicate, if◌then◌else◌,
}
use trafix.Cstr.Number.{show}
use trafix.Cstr.{Text, codes}
use trafix.Cli.Options.{Options}
use trafix.Actions.Requests.{ConnectionInfo}
use trafix.Connections.Summary.{is_listener_row}
use trafix.Netinfo.Rates.{InterfaceStat}
use trafix.Output.Json.{SystemOverview, connection_matches_filters}

-- `%-<n>s`
unfoldable pub left : ℕ → Text → Text
left n s = s ++ replicate (n - length s) b' '

-- `%<n>s`
unfoldable pub right : ℕ → Text → Text
right n s = replicate (n - length s) b' ' ++ s

-- Columns with a blank between them, and the end of the line.
unfoldable pub columns : List Text → Text → Text
columns [] rest = b'\n' ∷ rest
columns (column ∷ []) rest = column ++ (b'\n' ∷ rest)
columns (column ∷ next ∷ more) rest = column ++ (b' ' ∷ columns (next ∷ more) rest)

-- The loop over rows: a line for each one that passes the test.
unfoldable pub print_rows {ℓ} : {A : Type ℓ} → (A → Bool) → (A → List Text) → List A → Text
unfolding columns
print_rows test row [] = []
print_rows test row (a ∷ rows) =
    let rest = print_rows test row rows in if not (test a) then rest else columns (row a) rest

unfoldable pub interface_row : InterfaceStat → List Text
unfolding left right
interface_row s = left 15 s.name ∷ right 12 (show s.rx_bytes) ∷ right 12 (show s.tx_bytes) ∷ []

unfoldable pub print_interfaces_text : List InterfaceStat → Text
unfolding print_rows interface_row
print_interfaces_text stats =
    columns
      (left 15 (codes "INTERFACE") ∷ right 12 (codes "RX_BYTES") ∷ right 12 (codes "TX_BYTES") ∷ [])
      (print_rows (λ s. true) interface_row stats)

unfoldable pub connection_row : ConnectionInfo → List Text
unfolding left
connection_row c =
    left 6 c.protocol
    ∷ left 22 c.local_addr
    ∷ left 22 c.remote_addr
    ∷ left 15 c.state
    ∷ left 8 (show c.uid)
    ∷ left 16 (take 16 c.user)
    ∷ left 7 c.pid
    ∷ left 16 (take 16 c.process)
    ∷ []

unfoldable pub print_connections_text : List ConnectionInfo → Options → Text
unfolding print_rows connection_row
print_connections_text connections o =
    columns
      (left 6 (codes "PROTO")
        ∷ left 22 (codes "LOCAL")
        ∷ left 22 (codes "REMOTE")
        ∷ left 15 (codes "STATE")
        ∷ left 8 (codes "UID")
        ∷ left 16 (codes "USER")
        ∷ left 7 (codes "PID")
        ∷ left 16 (codes "PROCESS")
        ∷ [])
      (print_rows (connection_matches_filters o) connection_row connections)

unfoldable pub listener_row : ConnectionInfo → List Text
unfolding left
listener_row c =
    left 6 c.protocol
    ∷ left 22 c.local_addr
    ∷ left 8 (show c.uid)
    ∷ left 16 (take 16 c.user)
    ∷ left 7 c.pid
    ∷ left 16 (take 16 c.process)
    ∷ []

unfoldable pub print_listeners_text : List ConnectionInfo → Text
unfolding print_rows listener_row
print_listeners_text connections =
    columns
      (left 6 (codes "PROTO")
        ∷ left 22 (codes "LOCAL")
        ∷ left 8 (codes "UID")
        ∷ left 16 (codes "USER")
        ∷ left 7 (codes "PID")
        ∷ left 16 (codes "PROCESS")
        ∷ [])
      (print_rows is_listener_row listener_row connections)

unfoldable pub print_system_text : SystemOverview → Text
unfolding columns left
print_system_text o = columns (left 16 (codes "HOSTNAME") ∷ o.hostname ∷ []) (
    columns (left 16 (codes "OS") ∷ o.os_version ∷ []) (
      columns (left 16 (codes "KERNEL") ∷ o.kernel_version ∷ []) (
        columns (left 16 (codes "UPTIME") ∷ o.uptime ∷ []) (
          columns (left 16 (codes "LOAD_AVG") ∷ o.load_avg ∷ [])
            (columns (left 16 (codes "LOGGED_IN_USERS") ∷ o.logged_in_users ∷ []) [])))))
