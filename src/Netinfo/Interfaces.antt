-- ===== src/Netinfo/Interfaces.antt =====
-- Names, kinds, addresses and states of interfaces (src/trfx_netinfo.c up to
-- `trfx_collect_interface_statuses`). What the code asks of the system stands in `Net`; `wifi_ssid` and
-- `mac_address` stand for `get_wifi_info` and `get_mac_address`, which are linked in.
use trafix.Prelude.{
  ℕ, zero, suc, Bool, not, ◌&&◌, ◌||◌, List, [], ◌∷◌, ◌++◌, Option, none, some, ◌==◌, all, take,
  if◌then◌else◌,
}
use trafix.Cstr.Lines.{fgets_lines}
use trafix.Cstr.{Text, codes, clip, equal, is, has_prefix, is_alnum, is_empty}
use trafix.Netinfo.Rates.{InterfaceStat}
use trafix.Netinfo.Routes.{CollectorStatus, invalid_argument, parse_failed}
use trafix.Netinfo.Stats.{Opened, contents, refused, StatsResult, max_interfaces}

abbrev is_name_char : ℕ → Bool
is_name_char c = is_alnum c || c == b'_' || c == b'-' || c == b'.' || c == b':'

unfoldable pub is_valid_interface_name : Text → Bool
is_valid_interface_name name = not (is_empty name) && all is_name_char name

-- What `getifaddrs` lists; an address is as `inet_ntop` writes it.
pub data Address : Type 0 where
  no_address other_family : Address
  inet inet6 : Text → Address

pub record IfAddr : Type 0 where
  pub name : Text
  pub address : Address

pub record Net : Type 0 where
  pub open_file : Text → Opened
  pub exists_path : Text → Bool
  pub addresses : Option (List IfAddr)
  pub wifi_ssid : Text → Text
  pub mac_address : Text → Option Text

unfoldable pub is_vpn_interface : Text → Bool
unfolding is_valid_interface_name
is_vpn_interface name =
    is_valid_interface_name name
    && (has_prefix name "tun" || has_prefix name "ppp" || has_prefix name "wg")

-- The first IPv4 address of the name.
unfoldable pub find_inet : Text → List IfAddr → Option Text
find_inet name [] = none
find_inet name (a ∷ addresses) =
    let rest = find_inet name addresses in
    elim a.address [
      | no_address ↦ rest
      | other_family ↦ rest
      | inet ip ↦ if equal a.name name then some ip else rest
      | inet6 ip ↦ rest
    ]

abbrev listed : Option (List IfAddr) → List IfAddr
listed none = []
listed (some addresses) = addresses

module _ (net : Net) where
  unfoldable pub is_wifi_interface : Text → Bool
  unfolding is_valid_interface_name
  is_wifi_interface name =
      is_valid_interface_name name
      && net.exists_path (clip 128 (codes "/sys/class/net/" ++ (name ++ codes "/wireless")))

  unfoldable pub get_ip_address : Text → Option Text
  unfolding is_valid_interface_name find_inet
  get_ip_address name =
      if not (is_valid_interface_name name) then none else find_inet name (listed net.addresses)

-- `copy_text` and `set_text`, which are the same.
unfoldable pub set_text : ℕ → Text → Text → Text
set_text size value fallback = if is_empty value then clip size fallback else clip size value

-- Without the line ends at the end.
unfoldable pub trim_line_end : Text → Text
trim_line_end [] = []
trim_line_end (c ∷ s) = elim (trim_line_end s) [
  | [] ↦ if c == b'\n' || c == b'\r' then [] else c ∷ []
  | d ∷ t ↦ c ∷ d ∷ t
]

abbrev first_line : ℕ → Opened → Option Text
first_line size (refused reason) = none
first_line size (contents file) = elim (fgets_lines size file) [
  | [] ↦ none
  | line ∷ lines ↦ some line
]

abbrev or_unknown : Text → Text
or_unknown s = if is_empty s then codes "unknown" else s

abbrev operstate_of : Option Text → Text
operstate_of none = codes "unknown"
operstate_of (some line) = or_unknown (trim_line_end line)

abbrev carrier_of : Option Text → Text
carrier_of none = codes "unknown"
carrier_of (some line) =
    if is (trim_line_end line) "1"
    then codes "up"
    else if is (trim_line_end line) "0"
    then codes "down"
    else codes "unknown"

-- The first address of each family, as far as the two are still "N/A".
unfoldable pub add_address : Text → Text × Text → IfAddr → Text × Text
add_address name (ipv4, ipv6) a =
    if not (equal a.name name) then (ipv4, ipv6) else (elim a.address [
      | no_address ↦ (ipv4, ipv6)
      | other_family ↦ (ipv4, ipv6)
      | inet ip ↦ if is ipv4 "N/A" then (clip 64 ip, ipv6) else (ipv4, ipv6)
      | inet6 ip ↦ if is ipv6 "N/A" then (ipv4, clip 64 ip) else (ipv4, ipv6)
    ])

unfoldable pub add_addresses : Text → Text × Text → List IfAddr → Text × Text
unfolding add_address
add_addresses name found [] = found
add_addresses name found (a ∷ addresses) = add_addresses name (add_address name found a) addresses

pub record InterfaceStatus : Type 0 where
  pub name : Text
  pub operstate : Text
  pub carrier : Text
  pub kind : Text
  pub ipv4 : Text
  pub ipv6 : Text
  pub ssid : Text
  pub mac : Text
  pub rx_bytes : ℕ
  pub tx_bytes : ℕ
  pub is_up : Bool
  pub has_ipv4 : Bool
  pub has_ipv6 : Bool
  pub is_wifi : Bool
  pub is_vpn : Bool

module _ (net : Net) where
  unfoldable pub read_interface_operstate : Text → Text
  unfolding is_valid_interface_name trim_line_end
  read_interface_operstate name =
      if not (is_valid_interface_name name)
      then codes "unknown"
      else operstate_of (
          first_line 16
            (net.open_file (clip 128 (codes "/sys/class/net/" ++ (name ++ codes "/operstate")))))

  unfoldable pub read_interface_carrier : Text → Text
  unfolding is_valid_interface_name trim_line_end
  read_interface_carrier name =
      if not (is_valid_interface_name name)
      then codes "unknown"
      else carrier_of (
          first_line 16
            (net.open_file (clip 128 (codes "/sys/class/net/" ++ (name ++ codes "/carrier")))))

  unfoldable pub collect_interface_addresses : Text → Text × Text
  unfolding is_valid_interface_name add_addresses
  collect_interface_addresses name =
      if not (is_valid_interface_name name)
      then (codes "N/A", codes "N/A")
      else add_addresses name (codes "N/A", codes "N/A") (listed net.addresses)

  abbrev kind_of : Text → Text
  kind_of name =
      if is_vpn_interface name
      then codes "VPN"
      else if is name "lo"
      then codes "Loopback"
      else if is_wifi_interface net name
      then codes "Wi-Fi"
      else codes "Ethernet"

  abbrev ssid_of : Text → Text
  ssid_of name =
      if is (kind_of name) "Wi-Fi"
      then set_text 64 (net.wifi_ssid name) (codes "N/A")
      else codes "N/A"

  abbrev mac_of : Option Text → Text
  mac_of none = codes "N/A"
  mac_of (some mac) = set_text 32 mac (codes "N/A")

  unfoldable pub fill_interface_status : InterfaceStat → InterfaceStatus
  unfolding read_interface_operstate read_interface_carrier collect_interface_addresses
      is_wifi_interface is_vpn_interface set_text
  fill_interface_status stat =
      let (ipv4, ipv6) = collect_interface_addresses stat.name in
      let operstate = read_interface_operstate stat.name in
      let carrier = read_interface_carrier stat.name in
      record {
        name = take 31 stat.name;
        operstate = operstate;
        carrier = carrier;
        kind = kind_of stat.name;
        ipv4 = ipv4;
        ipv6 = ipv6;
        ssid = ssid_of stat.name;
        mac = mac_of (net.mac_address stat.name);
        rx_bytes = stat.rx_bytes;
        tx_bytes = stat.tx_bytes;
        is_up = is operstate "up" || is carrier "up";
        has_ipv4 = not (is ipv4 "N/A");
        has_ipv6 = not (is ipv6 "N/A");
        is_wifi = is_wifi_interface net stat.name;
        is_vpn = is_vpn_interface stat.name;
      }

  -- The loop, at most `room` times.
  unfoldable pub fill_statuses : List InterfaceStat → ℕ → List InterfaceStatus
  unfolding fill_interface_status
  fill_statuses [] room = []
  fill_statuses (s ∷ stats) zero = []
  fill_statuses (s ∷ stats) (suc room) = fill_interface_status s ∷ fill_statuses stats room

-- The count is the length of `items`.
pub record StatusResult : Type 0 where
  pub status : CollectorStatus
  pub error : Text
  pub items : List InterfaceStatus

abbrev pub init_interface_statuses : StatusResult
init_interface_statuses = record { status = parse_failed; error = []; items = [] }

module _ (net : Net) where
  abbrev statuses_by : CollectorStatus → StatsResult → StatusResult
  statuses_by invalid_argument r = record {
    status = invalid_argument;
    error = set_text 128 r.error (codes "invalid interface snapshot");
    items = [];
  }
  statuses_by status r = record {
    status = status;
    error = [];
    items = fill_statuses net r.stats max_interfaces;
  }

  unfoldable pub collect_interface_statuses : StatsResult → StatusResult
  unfolding fill_statuses set_text
  collect_interface_statuses interfaces = statuses_by interfaces.status interfaces
