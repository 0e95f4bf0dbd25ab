-- ===== src/App/Query.antt =====
-- The commands that show (`trfx_run_interfaces_command` to `trfx_run_system_command`, src/trfx_app.c): what they
-- print on both streams, and their exit codes.
use trafix.Prelude.{List, [], ◌++◌, some, ◌≡◌, refl, All, if◌then◌else◌}
use trafix.Cstr.Sort.{Qsort}
use trafix.Cstr.{Text, codes, is_empty}
use trafix.Actions.Requests.{ConnectionInfo}
use trafix.Cli.Options.{ExitCode, OutputFormat, Options, text, json}
use trafix.Connections.Rows.{System}
use trafix.Connections.Rows.Files.{get_connection_info}
use trafix.Connections.Rows.Order.{keep}
use trafix.Netinfo.Routes.{is_ok}
use trafix.Netinfo.Stats.{Opened, collect_interface_stats_path}
use trafix.Netinfo.Snapshot.{max_connections}
use trafix.Output.Json.{
  SystemOverview, connection_matches_filters, print_interfaces_json, print_connections_json,
  print_listeners_json, print_system_json,
}
use trafix.Output.Json.Document.{read_connections_json-print}
use trafix.Output.Json.Read.{read_connections_json, without_inodes, SmallUid}
use trafix.Output.Tables.{
  print_interfaces_text, print_connections_text, print_listeners_text, print_system_text,
}
use trafix.SocketOwners.{Proc}

pub record Shown : Type 0 where
  pub code : ExitCode
  pub stdout : Text
  pub stderr : Text

abbrev printed : Text → Shown
printed s = record { code = ExitCode.ok; stdout = s; stderr = [] }

abbrev in_format : OutputFormat → Text → Text → Shown
in_format json as_json as_text = printed as_json
in_format text as_json as_text = printed as_text

abbrev unavailable : Text → Shown
unavailable error = record {
  code = ExitCode.data_unavailable;
  stdout = [];
  stderr =
      codes "trafix: failed to collect interfaces: "
      ++ ((if is_empty error then codes "unknown error" else error) ++ codes "\n");
}

unfoldable pub run_interfaces_command : (Text → Opened) → OutputFormat → Shown
unfolding collect_interface_stats_path print_interfaces_json print_interfaces_text
run_interfaces_command open_file format =
    let result = collect_interface_stats_path open_file (codes "/proc/net/dev") in
    if is_ok result.status
    then in_format format (print_interfaces_json result.stats) (print_interfaces_text result.stats)
    else unavailable result.error

module _ (sys : System) (proc : Proc) (qsort : Qsort ConnectionInfo) where
  abbrev pub all_connections : List ConnectionInfo
  all_connections = get_connection_info sys proc qsort max_connections

  unfoldable pub run_connections_command : Options → Shown
  unfolding print_connections_json print_connections_text
  run_connections_command o =
      in_format o.output_format (print_connections_json all_connections o)
        (print_connections_text all_connections o)

  unfoldable pub run_listeners_command : OutputFormat → Shown
  unfolding print_listeners_json print_listeners_text
  run_listeners_command format =
      in_format format (print_listeners_json all_connections) (print_listeners_text all_connections)

  -- What `trafix connections --json` prints is read back as the connections of the machine that pass the filters,
  -- in their order, with all that is printed of them, whatever bytes their texts hold, if the UIDs have 32 bits;
  -- it exits with 0 and prints no error.
  pub run_connections_command-json :
      (o : Options)
      → o.output_format ≡ json
      → All SmallUid all_connections
      → (read_connections_json (run_connections_command o).stdout
          ≡ some (without_inodes (keep (connection_matches_filters o) all_connections)))
        × ((run_connections_command o).code ≡ ExitCode.ok)
        × ((run_connections_command o).stderr ≡ [])
  unfolding run_connections_command connection_matches_filters
  run_connections_command-json o e h =
      rw e (read_connections_json-print all_connections o h, refl, refl)

unfoldable pub run_system_command : SystemOverview → OutputFormat → Shown
unfolding print_system_json print_system_text
run_system_command overview format =
    in_format format (print_system_json overview) (print_system_text overview)
