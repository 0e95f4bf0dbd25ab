-- ===== src/App/Main.antt =====
-- The whole program: `main` (src/trafix.c), with `trfx_run_tui` and `trfx_run_diagnostics_command`
-- (src/trfx_app.c), and the help, the version and the errors of src/trfx_cli.c. What the terminal interface does
-- once it is started is left out here.
use trafix.Prelude.Int.{ℤ}
use trafix.Prelude.{ℕ, Bool, List, [], ◌++◌, Option, if◌then◌else◌}
use trafix.Cstr.{Text, codes, clip, is_empty}
use trafix.Cli.Options.{
  ExitCode, Options, Mode, tui, help, version, interfaces, connections, listeners, system,
  diagnostics, drop, kill, invalid,
}
use trafix.Cli.Parse.{parse_cli}
use trafix.Config.Profile.{Loaded, load_runtime_config}
use trafix.Config.{Settings, Warning}
use trafix.Connections.Rows.Files.{get_connection_info}
use trafix.Netinfo.Routes.{CollectorStatus, is_ok}
use trafix.Netinfo.Snapshot.{Machine, max_connections, max_socket_owners}
use trafix.Netinfo.Stats.{Opened}
use trafix.Diagnostics.Alerts.{Floats}
use trafix.Diagnostics.Snapshot.{
  Collected, DiagnosticsSnapshot, collect_diagnostics_snapshot, print_diagnostics_text,
}
use trafix.SocketOwners.{get_socket_owner_info}
use trafix.Actions.Audit.{empty}
use trafix.Actions.World.{World}
use trafix.App.Query.{
  Shown, run_interfaces_command, run_connections_command, run_listeners_command, run_system_command,
}
use trafix.App.{Session, Finished, run_kill_command, run_drop_command}
use trafix.Config
use trafix.Diagnostics.Sources

-- What the program finds where it is started.
pub record Started (F : Floats) : Type 1 where
  pub config : trafix.Config.Profile.World
  pub open_file : Text → Opened
  pub machine : Machine
  pub logs : trafix.Diagnostics.Sources.World
  pub collected : Collected F
  pub version : Text
  pub world : World
  pub euid : ℕ
  pub now : ℤ
  pub is_tty : Bool
  pub key : Option ℕ

-- What is shown; the same behind the warnings of the configuration on stderr; what an action has done; or the
-- warnings and the settings with which the terminal interface starts.
pub data Outcome : Type 0 where
  shown : Shown → Outcome
  warned : List Warning → Shown → Outcome
  acted : Finished → Outcome
  interface_started : List Warning → Settings → Outcome

unfoldable pub print_cli_help : Text
print_cli_help =
    codes "Usage: trafix [OPTION]\n\nLaunch Trafix Linux monitoring TUI.\n\nOptions:\n"
    ++ (codes "  -h, --help       Show this help message\n"
        ++ (codes "  -v, --version    Show version information\n"
            ++ (codes "  --profile NAME   Load a saved profile before running\n\nCommands:\n"
                ++ (codes "  interfaces       Print interface counters\n"
                    ++ (codes "  connections      Print TCP/UDP connections\n"
                        ++ (codes "  listeners        Print listening sockets\n"
                            ++ (codes "  system           Print system overview\n"
                                ++ (codes "  diagnostics      Print a troubleshooting snapshot\n"
                                    ++ (codes
                                          "  kill PID         Request a controlled process kill\n"
                                        ++ codes
                                            "  drop TYPE ...    Request a controlled socket drop\n")))))))))

unfoldable pub print_cli_version : Text → Text
print_cli_version v = codes "trafix " ++ (v ++ codes "\n")

unfoldable pub print_cli_error : Options → Text
print_cli_error o =
    codes "trafix: "
    ++ ((if is_empty o.error then codes "invalid arguments" else o.error)
        ++ codes "\nTry 'trafix --help' for usage.\n")

abbrev profile_error : Loaded → Shown
profile_error loaded = record {
  code = ExitCode.error;
  stdout = [];
  stderr =
      codes "trafix: "
      ++ ((if is_empty loaded.error then codes "failed to load profile" else loaded.error)
          ++ codes "\n");
}

module _ (F : Floats) where
  -- What `collect_diagnostics_snapshot` leaves in the error buffer: that of the logs, which overwrites that of the
  -- network.
  abbrev snapshot_error : DiagnosticsSnapshot F → ℕ → Text
  snapshot_error s size =
      if is_ok s.status then [] else if is_ok s.logs.status then [] else clip size s.logs.error

  abbrev diagnostics_code : CollectorStatus → ExitCode
  diagnostics_code CollectorStatus.invalid_argument = ExitCode.error
  diagnostics_code _ = ExitCode.ok

  abbrev diagnosed : Settings → DiagnosticsSnapshot F → Shown
  diagnosed settings s = record {
    code = diagnostics_code s.status;
    stdout = print_diagnostics_text F settings s;
    stderr =
        if is_empty (snapshot_error s 256)
        then []
        else codes "trafix: " ++ (snapshot_error s 256 ++ codes "\n");
  }

  -- The profile of the options; none is the empty name.
  abbrev profile_of : Options → Text
  profile_of o = if o.has_profile then o.profile_name else []

  abbrev pub load : Started F → Options → Loaded
  load p o = load_runtime_config p.config trafix.Config.initial (profile_of o) 256

  unfoldable pub run_diagnostics_command : Started F → Options → Outcome
  unfolding load_runtime_config collect_diagnostics_snapshot print_diagnostics_text
  run_diagnostics_command p o =
      let loaded = load p o in
      let s = collect_diagnostics_snapshot F p.collected p.machine p.logs 256 in
      warned loaded.warnings
        (if loaded.ok then diagnosed loaded.settings s else profile_error loaded)

  unfoldable pub run_tui : Started F → Options → Outcome
  unfolding load_runtime_config
  run_tui p o =
      let loaded = load p o in
      if loaded.ok
      then interface_started loaded.warnings loaded.settings
      else warned loaded.warnings (profile_error loaded)

  -- What the commands that act find.
  abbrev pub session_of : Started F → Session
  session_of p = record {
    world = p.world;
    euid = p.euid;
    now = p.now;
    audit = empty;
    connections = get_connection_info p.machine.sys p.machine.proc p.machine.qsort max_connections;
    sockets = get_socket_owner_info p.machine.proc max_socket_owners;
    is_tty = p.is_tty;
    key = p.key;
  }

  -- The `switch` of `main`.
  unfoldable pub run_mode : Started F → Options → Mode → Outcome
  unfolding print_cli_help print_cli_version print_cli_error run_interfaces_command
      run_connections_command run_listeners_command run_system_command run_diagnostics_command
      run_kill_command run_drop_command run_tui
  run_mode p o help = shown record { code = ExitCode.ok; stdout = print_cli_help; stderr = [] }
  run_mode p o version =
      shown record { code = ExitCode.ok; stdout = print_cli_version p.version; stderr = [] }
  run_mode p o invalid =
      shown record { code = ExitCode.error; stdout = []; stderr = print_cli_error o }
  run_mode p o interfaces = shown (run_interfaces_command p.open_file o.output_format)
  run_mode p o connections =
      shown (run_connections_command p.machine.sys p.machine.proc p.machine.qsort o)
  run_mode p o listeners =
      shown (run_listeners_command p.machine.sys p.machine.proc p.machine.qsort o.output_format)
  run_mode p o system = shown (run_system_command p.collected.system o.output_format)
  run_mode p o diagnostics = run_diagnostics_command p o
  run_mode p o drop = acted (run_drop_command (session_of p) o)
  run_mode p o kill = acted (run_kill_command (session_of p) o)
  run_mode p o tui = run_tui p o

  unfoldable pub main : Started F → List Text → Outcome
  unfolding run_mode parse_cli
  main p args = run_mode p (parse_cli args) (parse_cli args).mode
