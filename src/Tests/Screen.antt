-- ===== src/Tests/Screen.antt =====
-- The terminal interface and what the commands print (src/trfx_dashboard.c, src/trfx_utils.c, src/trfx_app.c).
use trafix.Prelude.Int.{pos}
use trafix.Prelude.{◌<◌, true, false, List, [], ◌∷◌, ◌++◌, some, ◌≡◌, refl, arith, length, All}
use trafix.Cstr.Sort.{insertion}
use trafix.Cstr.Lines.{fgets_lines}
use trafix.Cstr.Number.{scan_digits}
use trafix.Cstr.Scan.{scan_uint, scan_set, is_hex, scan_hex, scan_string, scan_hex_digits}
use trafix.Cstr.{codes, mem_char, is, skip_space, is_digit, clip}
use trafix.Connections.{should_skip_connection_state, socket_state_name}
use trafix.Connections.Rows.{scan_line}
use trafix.Actions.Audit.{empty}
use trafix.Actions.World.{World, sent, exited}
use trafix.App.Query.{all_connections, run_connections_command, run_connections_command-json}
use trafix.Cli.Options.{ExitCode, Options, json}
use trafix.Cli.Options as CliOptions
use trafix.Connections
use trafix.Connections.Rows.Files.{get_connection_info}
use trafix.Connections.Rows.Order.{keep}
use trafix.Dashboard.{Key, key_down, key_enter, char}
use trafix.Dashboard.Acting.{Desk, handle_process_kill_action, handle_connection_drop_action}
use trafix.Dashboard.Acting.Reviewed.{Whenever}
use trafix.Dashboard.Acting.Ends.{EndsWithin, actions-EndsWithin}
use trafix.Dashboard.Frame.{
  FillsOrTooSmall, compute_dashboard_layout, compute_dashboard_layout-Fills,
}
use trafix.Dashboard.Keypress.{Ui, handle_keypress}
use trafix.Dashboard.Session.{OnlyAgreed, handle_keypress-OnlyAgreed}
use trafix.Layout
use trafix.Output.Json.{connection_matches_filters}
use trafix.Output.Json.Read.{read_connections_json, without_inodes, SmallUid}
use trafix.Runtime
use trafix.Threads.{start}
use trafix.Utils.{format_endpoint_for_tui, shown_of, format_endpoint_for_tui-KeepsPort}
use trafix.Tests.Machine.{sys, proc, naturals}
use trafix.Tests.Tables.{samples}

-- Process 42 is that of user 1000, every signal arrives, and `ss` exits with 0.
abbrev world : World
world = record {
  read_file = λ path. some (codes "Name:\tsshd\nUid:\t1000\t1000\t1000\t1000\n");
  kill = λ pid. sent;
  run_ss = λ argv. exited 0;
}

abbrev desk : Desk
desk = record {
  world = world;
  euid = 1000;
  now = pos 7;
  audit = empty;
  runtime = Runtime.initial;
  processes =
      record { pid = codes "1"; user = codes "root"; cpu = codes "0.0"; command = codes "init" }
      ∷ record { pid = codes "42"; user = codes "me"; cpu = codes "0.1"; command = codes "sshd" }
      ∷ [];
  connections = [];
  select_opens = true;
  review_opens = true;
  message_opens = true;
}

abbrev ui : Ui naturals
ui = record {
  desk = desk;
  sort_type = 0;
  show_top_panels = true;
  selection = record { selected_index_value = 0; refresh_requested = false };
  connection_focus = Connections.start;
  bandwidth_state = start naturals samples;
  slot = record { module_index = some 1; running = true };
  layout_state = Layout.init;
  screen_height = 40;
  screen_width = 120;
  support_window = true;
  creates = true;
}

-- The second process, Enter to select it, Enter to confirm, Esc to close the result.
abbrev keys : List Key
keys = key_down ∷ key_enter ∷ key_enter ∷ char 27 ∷ []

handle_keypress-OnlyAgreed_example :
    Whenever
      (OnlyAgreed naturals ui (char b'x') keys)
      (handle_keypress naturals ui (char b'x') keys)
handle_keypress-OnlyAgreed_example = handle_keypress-OnlyAgreed naturals ui keys (char b'x')

-- Esc for the third time ends them.
abbrev many_keys : List Key
many_keys = key_down ∷ char 27 ∷ char b'z' ∷ char 27 ∷ key_enter ∷ char 27 ∷ []

actions-EndsWithin_example :
    EndsWithin (handle_process_kill_action desk) many_keys keys
    × EndsWithin (handle_connection_drop_action desk) many_keys keys
actions-EndsWithin_example = actions-EndsWithin keys desk many_keys (omega arith)

compute_dashboard_layout-Fills_example :
    FillsOrTooSmall true Layout.init 40 120 (compute_dashboard_layout true Layout.init 40 120)
compute_dashboard_layout-Fills_example = compute_dashboard_layout-Fills true Layout.init 40 120

port : mem_char b':' (codes "443") ≡ false
unfolding mem_char
port = refl

format_endpoint_for_tui-KeepsPort_example :
    (format_endpoint_for_tui (some (codes "192.168.100.200" ++ b':' ∷ codes "443")) 12
      ≡ shown_of 12 (codes "192.168.100.200") (codes "443") ++ b':' ∷ codes "443")
    × (length (format_endpoint_for_tui (some (codes "192.168.100.200" ++ b':' ∷ codes "443")) 12)
        < 12)
format_endpoint_for_tui-KeepsPort_example =
    format_endpoint_for_tui-KeepsPort 12 b'1' (codes "92.168.100.200") (codes "443") port
      (omega arith)

abbrev as_json : Options
as_json = record CliOptions.initial { output_format = json }

uids_fit : All SmallUid (all_connections sys proc insertion)
unfolding get_connection_info is fgets_lines scan_line scan_uint skip_space is_digit scan_digits
    scan_set is_hex scan_hex scan_string scan_hex_digits should_skip_connection_state clip
    socket_state_name
uids_fit = (omega arith, (omega arith, tt))

run_connections_command-json_example :
    (read_connections_json (run_connections_command sys proc insertion as_json).stdout
      ≡ some (
          without_inodes
            (keep (connection_matches_filters as_json) (all_connections sys proc insertion))))
    × ((run_connections_command sys proc insertion as_json).code ≡ ExitCode.ok)
    × ((run_connections_command sys proc insertion as_json).stderr ≡ [])
run_connections_command-json_example =
    run_connections_command-json sys proc insertion as_json refl uids_fit
