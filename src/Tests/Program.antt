-- ===== src/Tests/Program.antt =====
-- The whole program (`main`, src/trafix.c), the order of interfaces (src/trfx_threads.c), and the
-- alerts of a snapshot (src/trfx_diagnostics.c).
use trafix.Prelude.Int.{pos}
use trafix.Prelude.{Bool, true, take, if◌then◌else◌, List, [], ◌∷◌, none, false}
use trafix.Cstr.{Text, codes}
use trafix.Cli.Parse.{parse_cli}
use trafix.Netinfo.Stats.{contents}
use trafix.App.Asked.{effects_of, OnlyAsked, main-OnlyAsked}
use trafix.App.Main.{Started, main}
use mathlib.Core.List.{Perm}
use trafix.Cstr.Sort.{Ordered}
use trafix.Netinfo.Interfaces.{InterfaceStatus}
use trafix.Netinfo.Routes.{ok}
use trafix.Netinfo.Snapshot.{Snapshot, collect_network_snapshot}
use trafix.Threads.Interfaces.{sorted_statuses, Precedes, sorted_statuses-Ordered}
use trafix.Config.{initial}
use trafix.Diagnostics.Alerts.{collect_alerts}
use trafix.Diagnostics.Raised.{Raised, due, collect_alerts-Raised}
use trafix.Diagnostics.Snapshot.{collect_diagnostics_snapshot, readings_of}
use trafix.Tests.Alerting.{whole}
use trafix.Tests.Machine.{machine}
use trafix.Tests.Acting
use trafix.Tests.Collected
use trafix.Tests.Configured

-- User 1000, at no terminal.
abbrev started : Started whole
started = record {
  config = trafix.Tests.Configured.world;
  open_file = λ path. contents (codes "Inter-|\n face |\n  eth0:  10 1 0 0 0 0 0 0  20 1\n");
  machine = machine;
  logs = trafix.Tests.Collected.world;
  collected = record {
    system = record {
      hostname = codes "host";
      os_version = codes "os";
      kernel_version = codes "6.1";
      uptime = codes "1 day";
      load_avg = codes "0.5";
      logged_in_users = codes "1";
    };
    cpu = record { avg_usage = 10; num_cores = pos 4; temperature = 90 };
    memory = record {
      total_ram = 16;
      used_ram = 4;
      total_swap = 0;
      used_swap = 0;
      mem_percent = 25;
    };
    disk_count = pos 1;
    disk_total_used_mb = 10;
    disk_total_mb = 100;
    processes = codes "sshd" ∷ [];
  };
  version = codes "0.1";
  world = trafix.Tests.Acting.world;
  euid = 1000;
  now = pos 7;
  is_tty = false;
  key = none;
}

abbrev kill_args : List Text
kill_args = codes "kill" ∷ codes "42" ∷ codes "--yes" ∷ []

main-OnlyAsked_example :
    OnlyAsked whole started (parse_cli kill_args) (effects_of (main whole started kill_args))
main-OnlyAsked_example = main-OnlyAsked whole started kill_args

abbrev interface : Text → Bool → InterfaceStatus
interface name is_up = record {
  name = name;
  operstate = if is_up then codes "up" else codes "down";
  carrier = codes "1";
  kind = codes "Ethernet";
  ipv4 = [];
  ipv6 = [];
  ssid = [];
  mac = [];
  rx_bytes = 0;
  tx_bytes = 0;
  is_up = is_up;
  has_ipv4 = false;
  has_ipv6 = false;
  is_wifi = false;
  is_vpn = false;
}

-- The machine's snapshot, with four interfaces; `eth0` is the active one.
abbrev four_interfaces : Snapshot
four_interfaces =
    let (status, s, error) = collect_network_snapshot machine 128 in
    record s {
      interface_statuses = record {
        status = ok;
        error = [];
        items =
            interface (codes "wlan0") false
            ∷ interface (codes "tun0") true
            ∷ interface (codes "eth1") true
            ∷ interface (codes "eth0") true
            ∷ [];
      };
    }

sorted_statuses-Ordered_example :
    Perm (sorted_statuses four_interfaces 20) (take 20 four_interfaces.interface_statuses.items)
    × Ordered (Precedes four_interfaces) (sorted_statuses four_interfaces 20)
sorted_statuses-Ordered_example = sorted_statuses-Ordered four_interfaces 20

collect_alerts-Raised_example : Raised (due whole initial started.collected machine) [] (
    collect_alerts whole initial (
      readings_of whole
        (collect_diagnostics_snapshot whole started.collected machine started.logs 256)))
collect_alerts-Raised_example =
    collect_alerts-Raised whole started.collected machine started.logs 256 initial
