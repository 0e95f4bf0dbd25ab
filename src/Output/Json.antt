-- ===== src/Output/Json.antt =====
-- The JSON documents that src/trfx_cli_output.c prints. A function that prints is given what is printed
-- behind it.
pub mod Document
pub mod Read
use Prim.Native.String.{String}
use trafix.Prelude.{
  ℕ, zero, suc, Bool, true, false, not, ◌&&◌, List, [], ◌∷◌, ◌++◌, Option, none, some, ltb,
  if◌then◌else◌,
}
use trafix.Cstr.Number.{show}
use trafix.Cstr.{Text, codes, equal}
use trafix.Cli.Options.{Options}
use trafix.Actions.Requests.{ConnectionInfo}
use trafix.Connections.Summary.{is_listener_row}
use trafix.Netinfo.Rates.{InterfaceStat}
use trafix.Output.{print_json_string}

pub record SystemOverview : Type 0 where
  pub hostname : Text
  pub os_version : Text
  pub kernel_version : Text
  pub uptime : Text
  pub load_avg : Text
  pub logged_in_users : Text

-- The filters that are set.
unfoldable pub connection_matches_filters : Options → ConnectionInfo → Bool
connection_matches_filters o c =
    if o.has_proto_filter && not (equal c.protocol o.proto_filter)
    then false
    else if o.has_state_filter && not (equal c.state o.state_filter)
    then false
    else true

-- A literal and a JSON string.
unfoldable pub string_field : String → Text → Text → Text
string_field key value rest = codes key ++ (print_json_string value ++ rest)

-- A literal and a number.
unfoldable pub number_field : String → ℕ → Text → Text
number_field key value rest = codes key ++ (show value ++ rest)

unfoldable pub connection_object : ConnectionInfo → Text → Text
connection_object c rest = string_field "{\"proto\":" c.protocol (
    string_field ",\"local\":" c.local_addr (
      string_field ",\"remote\":" c.remote_addr (
        string_field ",\"state\":" c.state (
          number_field ",\"uid\":" c.uid (
            string_field ",\"user\":" c.user (
              string_field ",\"pid\":" c.pid
                (string_field ",\"process\":" c.process (b'}' ∷ rest))))))))

unfoldable pub listener_object : ConnectionInfo → Text → Text
listener_object c rest = string_field "{\"proto\":" c.protocol (
    string_field ",\"local\":" c.local_addr (
      number_field ",\"uid\":" c.uid (
        string_field ",\"user\":" c.user
          (string_field ",\"pid\":" c.pid (string_field ",\"process\":" c.process (b'}' ∷ rest))))))

unfoldable pub interface_object : InterfaceStat → Text → Text
interface_object s rest = string_field "{\"interface\":" s.name (
    number_field ",\"rx_bytes\":" s.rx_bytes
      (number_field ",\"tx_bytes\":" s.tx_bytes (b'}' ∷ rest)))

-- The loop over rows: those that pass the test, with commas between them; `written` of them are printed.
unfoldable pub print_objects {ℓ} :
    {A : Type ℓ} → (A → Bool) → (A → Text → Text) → ℕ → List A → Text → Text
print_objects test object written [] rest = rest
print_objects test object written (a ∷ rows) rest =
    let next = print_objects test object (suc written) rows rest in
    let skipped = print_objects test object written rows rest in
    if not (test a) then skipped else if ltb 0 written then b',' ∷ object a next else object a next

unfoldable pub print_interfaces_json : List InterfaceStat → Text
unfolding print_objects
print_interfaces_json stats =
    codes "{\"interfaces\":[" ++ print_objects (λ s. true) interface_object 0 stats (codes "]}\n")

unfoldable pub print_connections_json : List ConnectionInfo → Options → Text
unfolding print_objects
print_connections_json connections o =
    codes "{\"connections\":["
    ++ print_objects (connection_matches_filters o) connection_object 0 connections (codes "]}\n")

unfoldable pub print_listeners_json : List ConnectionInfo → Text
unfolding print_objects
print_listeners_json connections =
    codes "{\"listeners\":["
    ++ print_objects is_listener_row listener_object 0 connections (codes "]}\n")

unfoldable pub print_system_json : SystemOverview → Text
unfolding string_field
print_system_json o = string_field "{\"hostname\":" o.hostname (
    string_field ",\"os\":" o.os_version (
      string_field ",\"kernel\":" o.kernel_version (
        string_field ",\"uptime\":" o.uptime (
          string_field ",\"load_avg\":" o.load_avg
            (string_field ",\"logged_in_users\":" o.logged_in_users (codes "}\n"))))))
