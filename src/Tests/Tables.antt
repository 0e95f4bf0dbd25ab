-- ===== src/Tests/Tables.antt =====
-- Connections, owners, interfaces and bandwidth of a machine (src/trfx_connections.c, src/trfx_socket_owners.c,
-- src/trfx_netinfo.c, src/trfx_bandwidth.c, src/trfx_threads.c).
use mathlib.Core.List.{Perm}
use trafix.Prelude.Int.{pos, negsuc}
use trafix.Prelude.{
  ℕ, ◌≤◌, ◌<◌, ◌&&◌, List, [], ◌∷◌, none, some, ◌≡◌, refl, arith, length, take, All, if◌then◌else◌,
}
use trafix.Cstr.Number.{show}
use trafix.Cstr.{Text, codes, clip, is_digit, is_space, mem_char}
use trafix.Connections.{socket_state_name, should_skip_connection_state}
use trafix.Cstr.Lines.{text_of_lines, IsLineOf}
use trafix.Cstr.Sort.{insertion}
use trafix.Actions.Requests.{SocketOwnerInfo}
use trafix.Bandwidth.Groups.{Counts, group_owners, group_owners-Counts}
use trafix.Bandwidth.Report.{collect_bandwidth_report}
use trafix.Bandwidth.Report.Flows.{FlowsFit, collect_bandwidth_report-FlowsFit}
use trafix.Connections.Rows.{resolve_uid_name, row_of, connection_of, Line}
use trafix.Connections.Rows.Endpoints.{Endpoint, IsEndpoint, dotted_endpoint}
use trafix.Connections.Rows.Files.{
  with_owner, apply_socket_owner_map, get_connection_info, all_rows,
}
use trafix.Connections.Rows.Order.{by_state, keep, get_connection_info-by_state}
use trafix.Connections.Rows.Written.{Fields, IsLine, write_line, row_of-write_line}
use trafix.Connections.Summary.{is_listener_row, summary_row, listener_tests-agree}
use trafix.Netinfo.Routes.{is_ok}
use trafix.Netinfo.Snapshot.{
  Snapshot, collect_network_snapshot, connection_is_listener, max_connections,
}
use trafix.Netinfo.Snapshot.Whole.{collect_network_snapshot-IsWhole}
use trafix.Netinfo.Stats.{parse_interface_stats_file}
use trafix.Netinfo.Stats.Written.{
  Counter, Device, IsDevice, write_devices, stats_of, parse_interface_stats_file-write_devices,
}
use trafix.Samples.{SampleBuffer, init, push}
use trafix.SocketOwners.{scan_socket_owner_map, descriptors}
use trafix.SocketOwners.Scanned.{all_entries, scan_socket_owner_map-all_entries}
use trafix.Threads.{
  bandwidth_state_init, start, Call, update_call, move_call, run, InView, run-InView,
}
use trafix.Tests.Machine.{sys, proc, machine, naturals}

abbrev endpoint : ℕ → ℕ → Endpoint
endpoint d port = record { a = 127; b = 0; c = 0; d = d; port = port }

small : (d port : ℕ) → d < 256 → port < 65536 → IsEndpoint (endpoint d port)
small d port h k = record {
  a_lt = omega arith;
  b_lt = omega arith;
  c_lt = omega arith;
  d_lt = h;
  port_lt = k;
}

abbrev fields : Fields
fields = record {
  slot_pad = 3;
  slot = 1;
  local = endpoint 1 80;
  remote = endpoint 2 50000;
  state = 1;
  queues = codes "00000000:00000000";
  timer = codes "00:00000000";
  retransmits = codes "00000000";
  uid_pad = 1;
  uid = 1000;
  timeout_pad = 7;
  timeout = 0;
  inode = 18;
  rest = codes " 1";
}

fields-IsLine : IsLine fields
unfolding is_digit is_space
fields-IsLine = record {
  local = small 1 80 (omega arith) (omega arith);
  remote = small 2 50000 (omega arith) (omega arith);
  slot = omega arith;
  state = omega arith;
  queues = (refl, refl);
  timer = (refl, refl);
  retransmits = (refl, refl);
  uid = omega arith;
  timeout = omega arith;
  inode = omega arith;
  rest = refl;
}

row_of-write_line_example : row_of sys (codes "TCP") (write_line fields) ≡ (
    if should_skip_connection_state (codes "TCP") 1
    then none
    else some (record {
      protocol = clip 8 (codes "TCP");
      local_addr = dotted_endpoint (endpoint 1 80);
      remote_addr = dotted_endpoint (endpoint 2 50000);
      state = clip 32 (socket_state_name (codes "TCP") 1);
      inode = 18;
      uid = 1000;
      user = resolve_uid_name sys 1000;
      pid = codes "-";
      process = codes "-";
    }))
row_of-write_line_example = row_of-write_line sys (codes "TCP") fields fields-IsLine

get_connection_info-by_state_example :
    Perm
      (get_connection_info sys proc insertion 512)
      (apply_socket_owner_map proc (take 512 (all_rows sys)))
    × (get_connection_info sys proc insertion 512
        ≡ by_state (get_connection_info sys proc insertion 512))
get_connection_info-by_state_example = get_connection_info-by_state sys proc insertion 512

scan_socket_owner_map-all_entries_example :
    scan_socket_owner_map proc 1
    ≡ take 1 (all_entries proc (descriptors (proc.open_dir (codes "/proc"))))
scan_socket_owner_map-all_entries_example = scan_socket_owner_map-all_entries proc 1

abbrev line : Line
line = record { local_hex = []; remote_hex = []; state_num = 7; uid = 0; inode = 18 }

listener_tests-agree_example :
    let c = with_owner [] (connection_of sys (codes "UDP") line) in
    (connection_is_listener c ≡ is_listener_row c)
    × ((summary_row c).is_listener ≡ is_listener_row c)
listener_tests-agree_example = listener_tests-agree sys [] (codes "UDP") line

abbrev counter : ℕ → Counter
counter n = record { pad = 2; value = n }

abbrev eth0 : Device
eth0 = record {
  pad = 2;
  name = codes "eth0";
  rx_bytes = counter 10;
  packets = counter 1;
  errors = counter 0;
  drops = counter 0;
  fifo = counter 0;
  frames = counter 0;
  compressed = counter 0;
  multicast = counter 0;
  tx_bytes = counter 20;
  rest = codes " 1";
}

eth0-IsDevice : IsDevice eth0
unfolding is_digit is_space
eth0-IsDevice = record {
  name_starts = refl;
  name_chars = refl;
  name_fits = omega arith;
  rx_bytes = omega arith;
  packets = omega arith;
  errors = omega arith;
  drops = omega arith;
  fifo = omega arith;
  frames = omega arith;
  compressed = omega arith;
  multicast = omega arith;
  tx_bytes = omega arith;
  rest = refl;
}

eth0_line : All (IsLineOf 256) (codes "Inter-|" ∷ codes " face |" ∷ write_devices (eth0 ∷ []))
unfolding mem_char show
eth0_line = ((omega arith, refl), ((omega arith, refl), ((omega arith, refl), tt)))

parse_interface_stats_file-write_devices_example :
    parse_interface_stats_file
      (text_of_lines (codes "Inter-|" ∷ codes " face |" ∷ write_devices (eth0 ∷ [])))
      20
    ≡ some (take 20 (stats_of (eth0 ∷ [])))
parse_interface_stats_file-write_devices_example =
    parse_interface_stats_file-write_devices (codes "Inter-|") (codes " face |") (eth0 ∷ []) 20
      eth0_line (eth0-IsDevice, tt) (omega arith)

collect_network_snapshot-IsWhole_example :
    let (status, s, error) = collect_network_snapshot machine 128 in
    (is_ok status ≡ (is_ok s.interfaces.status && is_ok s.route_status && is_ok s.dns_status))
    × (s.route.has_default ≡ is_ok s.route_status)
    × (s.listeners ≡ keep connection_is_listener s.connections)
    × (length s.connections ≤ max_connections)
collect_network_snapshot-IsWhole_example = collect_network_snapshot-IsWhole machine 128

abbrev owner : Text → SocketOwnerInfo
owner pid = record {
  pid = pid;
  process = codes "sshd";
  laddr = [];
  lport = [];
  raddr = [];
  rport = [];
  proto = codes "TCP";
}

abbrev owners : List SocketOwnerInfo
owners = owner (codes "42") ∷ owner (codes "7") ∷ owner (codes "42") ∷ []

group_owners-Counts_example : Counts 3 (group_owners ([], 0) owners)
group_owners-Counts_example = group_owners-Counts owners

abbrev snapshot : Snapshot
snapshot = (collect_network_snapshot machine 128).1

abbrev pub samples : SampleBuffer Snapshot
samples =
    push (push (init (record { captured_at = pos 0; snapshot = snapshot })) snapshot (pos 10))
      snapshot (pos 20)

collect_bandwidth_report-FlowsFit_example :
    FlowsFit naturals (collect_bandwidth_report naturals insertion samples)
collect_bandwidth_report-FlowsFit_example =
    collect_bandwidth_report-FlowsFit naturals insertion samples

abbrev changes : List (Call naturals)
changes =
    move_call (pos 1)
    ∷ update_call samples (collect_bandwidth_report naturals insertion samples)
    ∷ move_call (negsuc 0)
    ∷ []

run-InView_example :
    InView naturals
      (run naturals (bandwidth_state_init naturals samples (start naturals samples)) changes)
run-InView_example = run-InView naturals samples samples changes
