-- ===== src/Netinfo/Snapshot.antt =====
-- The network snapshot (`trfx_collect_network_snapshot` and what it uses, src/trfx_netinfo.c), and the lines
-- that are made of it: the route check and the health line.
pub mod Lines
pub mod Whole
use trafix.Prelude.Fill.{fill}
use trafix.Prelude.{
  ℕ, Bool, true, false, not, ◌&&◌, ◌||◌, List, [], ◌∷◌, ◌++◌, Option, none, some, take,
  if◌then◌else◌,
}
use trafix.Cstr.Lines.{fgets_lines}
use trafix.Cstr.Sort.{Qsort}
use trafix.Cstr.Tokens.{tokens}
use trafix.Cstr.{Text, codes, clip, equal, is, has_prefix, is_empty}
use trafix.Actions.Requests.{ConnectionInfo, SocketOwnerInfo}
use trafix.Connections.Rows.{System}
use trafix.Connections.Rows.Files.{get_connection_info}
use trafix.SocketOwners.{Proc, get_socket_owner_info}
use trafix.Netinfo.Dns.{collect_dns_summary_file}
use trafix.Netinfo.Interfaces.{
  Net, StatusResult, collect_interface_statuses, get_ip_address, is_vpn_interface,
  is_wifi_interface, set_text,
}
use trafix.Netinfo.Rates.{InterfaceStat}
use trafix.Netinfo.Routes.{
  CollectorStatus, ok, invalid_argument, open_failed, parse_failed, RouteSummary,
  init_route_summary, blanks, collect_route_summary_file,
}
use trafix.Netinfo.Stats.{Opened, contents, refused, StatsResult, collect_interface_stats_path}

abbrev pub max_connections : ℕ
max_connections = 512

abbrev pub max_socket_owners : ℕ
max_socket_owners = 256

-- What the collectors ask of the system; a command that cannot be started gives `none`.
pub record Machine : Type 0 where
  pub net : Net
  pub sys : System
  pub proc : Proc
  pub qsort : Qsort ConnectionInfo
  pub run_command : Text → Option Text

-- The words of a line: what follows "src".
unfoldable pub source_of_words : List Text → Option Text
source_of_words [] = none
source_of_words (word ∷ []) = none
source_of_words (word ∷ value ∷ words) =
    let rest = source_of_words (value ∷ words) in
    if is word "src" then some (take 63 value) else rest

abbrev or_next : Option Text → Option Text → Option Text
or_next none rest = rest
or_next (some ip) rest = some ip

unfoldable pub public_ip_of_lines : List Text → Option Text
unfolding source_of_words
public_ip_of_lines [] = none
public_ip_of_lines (line ∷ lines) =
    or_next (source_of_words (tokens blanks (clip 256 line))) (public_ip_of_lines lines)

-- The address that is found; `none` is the status "parse failed".
unfoldable pub collect_public_ip_from_file : Text → Option Text
unfolding public_ip_of_lines
collect_public_ip_from_file file = public_ip_of_lines (fgets_lines 256 file)

unfoldable pub should_skip_snapshot_interface : Text → Bool
should_skip_snapshot_interface name =
    is_empty name
    || is name "lo"
    || has_prefix name "br-"
    || has_prefix name "docker"
    || has_prefix name "veth"
    || has_prefix name "virbr"
    || has_prefix name "vmnet"

-- LISTEN or UNCONN, of any protocol.
unfoldable pub connection_is_listener : ConnectionInfo → Bool
connection_is_listener c = is c.state "LISTEN" || is c.state "UNCONN"

pub record ActiveInterface : Type 0 where
  pub interface : Text
  pub ip : Text
  pub kind : Text
  pub ssid : Text
  pub mac : Text

pub record VpnInterface : Type 0 where
  pub interface : Text
  pub ip : Text

-- A `has_` flag and the texts that belong to it are an option.
pub record Snapshot : Type 0 where
  pub interfaces : StatsResult
  pub interface_statuses : StatusResult
  pub route : RouteSummary
  pub route_status : CollectorStatus
  pub dns : List Text
  pub dns_status : CollectorStatus
  pub public_ip : Option Text
  pub active : Option ActiveInterface
  pub vpn : Option VpnInterface
  pub connections : List ConnectionInfo
  pub listeners : List ConnectionInfo
  pub socket_owners : List SocketOwnerInfo

module _ (net : Net) where
  abbrev wifi_ssid_of : Text → Text
  wifi_ssid_of name =
      if is_wifi_interface net name
      then set_text 64 (net.wifi_ssid name) (codes "N/A")
      else codes "N/A"

  abbrev mac_text : Option Text → Text
  mac_text none = codes "N/A"
  mac_text (some mac) = set_text 32 mac (codes "N/A")

  abbrev pub active_of : Text → Text → ActiveInterface
  active_of name ip = record {
    interface = take 31 name;
    ip = take 63 ip;
    kind = if is_wifi_interface net name then codes "Wi-Fi" else codes "Ethernet";
    ssid = wifi_ssid_of name;
    mac = mac_text (net.mac_address name);
  }

  abbrev active_or : Text → Option Text → Option ActiveInterface → Option ActiveInterface
  active_or name none rest = rest
  active_or name (some ip) rest = some (active_of name ip)

  -- The first loop over the interfaces.
  unfoldable pub find_active : List InterfaceStat → Option ActiveInterface
  unfolding should_skip_snapshot_interface get_ip_address is_wifi_interface set_text
  find_active [] = none
  find_active (s ∷ stats) =
      let rest = find_active stats in
      if should_skip_snapshot_interface s.name
      then rest
      else active_or s.name (get_ip_address net s.name) rest

  abbrev vpn_or : Text → Option Text → Option VpnInterface → Option VpnInterface
  vpn_or name none rest = rest
  vpn_or name (some ip) rest = some (record { interface = take 31 name; ip = take 63 ip })

  -- The second.
  unfoldable pub find_vpn : List InterfaceStat → Option VpnInterface
  unfolding is_vpn_interface get_ip_address
  find_vpn [] = none
  find_vpn (s ∷ stats) =
      let rest = find_vpn stats in
      if not (is_vpn_interface s.name) then rest else vpn_or s.name (get_ip_address net s.name) rest

abbrev pub route_of_command : Option Text → CollectorStatus × RouteSummary
route_of_command none = (open_failed, init_route_summary)
route_of_command (some output) = collect_route_summary_file output

-- The status, the servers and the error of `trfx_collect_dns_summary_path` with a path that is not empty.
unfoldable pub collect_dns_summary_path : Opened → CollectorStatus × List Text × Text
unfolding collect_dns_summary_file
collect_dns_summary_path (refused reason) = (open_failed, [], codes "open failed: " ++ reason)
collect_dns_summary_path (contents file) = (ok, collect_dns_summary_file file, [])

abbrev public_ip_of_command : Option Text → Option Text
public_ip_of_command none = none
public_ip_of_command (some output) = collect_public_ip_from_file output

abbrev pub listener_or_none : ConnectionInfo → Option ConnectionInfo
listener_or_none c = if connection_is_listener c then some c else none

-- The first status that is not OK.
abbrev pub first_failure : CollectorStatus → CollectorStatus → CollectorStatus
first_failure ok status = status
first_failure failure status = failure

-- The status, the snapshot, and what is written to `error`, of `error_size` bytes: the collector of the DNS
-- servers, the last that writes there, clears it first.
unfoldable pub collect_network_snapshot : Machine → ℕ → CollectorStatus × Snapshot × Text
unfolding collect_interface_statuses collect_dns_summary_path collect_public_ip_from_file
    find_active find_vpn fill connection_is_listener
collect_network_snapshot m error_size =
    let interfaces = collect_interface_stats_path m.net.open_file (codes "/proc/net/dev") in
    let (route_status, route) = route_of_command (m.run_command (codes "ip route 2>/dev/null")) in
    let (dns_status, dns, error) =
      collect_dns_summary_path (m.net.open_file (codes "/etc/resolv.conf")) in
    let connections = get_connection_info m.sys m.proc m.qsort max_connections in
    (
      first_failure (first_failure interfaces.status route_status) dns_status,
      record {
        interfaces = interfaces;
        interface_statuses = collect_interface_statuses m.net interfaces;
        route = route;
        route_status = route_status;
        dns = dns;
        dns_status = dns_status;
        public_ip = public_ip_of_command (m.run_command (codes "ip route get 1.1.1.1 2>/dev/null"));
        active = find_active m.net interfaces.stats;
        vpn = find_vpn m.net interfaces.stats;
        connections = connections;
        listeners = fill max_connections listener_or_none [] connections;
        socket_owners = get_socket_owner_info m.proc max_socket_owners;
      },
      clip error_size error,
    )
