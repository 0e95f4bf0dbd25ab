-- ===== src/Diagnostics/Snapshot.antt =====
-- The whole diagnostics snapshot (`trfx_collect_diagnostics_snapshot`, src/trfx_diagnostics.c) and its text
-- (`trfx_print_diagnostics_text`, src/trfx_cli_output.c). What the collectors of the processor, the memory, the
-- disks and the processes give are values that a caller supplies.
use trafix.Prelude.Int.{ℤ}
use trafix.Prelude.{
  ℕ, Bool, true, false, not, ◌&&◌, List, [], ◌∷◌, ◌++◌, Option, none, some, if◌then◌else◌, length,
}
use trafix.Cstr.Number.{show}
use trafix.Cstr.{Text, codes, is_empty}
use trafix.Config.{Settings}
use trafix.Diagnostics.Alerts.{Floats, Readings, collect_alerts, show_int}
use trafix.Diagnostics.Logs.{LogLine, LogSnapshot}
use trafix.Diagnostics.Sources.{World, collect_logs}
use trafix.Netinfo.Routes.{CollectorStatus, RouteSummary, open_failed, is_ok}
use trafix.Netinfo.Snapshot.{
  Machine, Snapshot, ActiveInterface, VpnInterface, collect_network_snapshot,
}
use trafix.Output.Json.{SystemOverview}

module _ (F : Floats) where
  pub record CpuInfo : Type 0 where
    pub avg_usage : F.D
    pub num_cores : ℤ
    pub temperature : F.D

  pub record MemoryInfo : Type 0 where
    pub total_ram : ℕ
    pub used_ram : ℕ
    pub total_swap : ℕ
    pub used_swap : ℕ
    pub mem_percent : F.D

  -- Of a process the command is read.
  pub record DiagnosticsSnapshot : Type 0 where
    pub system : SystemOverview
    pub cpu : CpuInfo
    pub memory : MemoryInfo
    pub disk_count : ℤ
    pub disk_total_used_mb : F.D
    pub disk_total_mb : F.D
    pub processes : List Text
    pub network : Snapshot
    pub logs : LogSnapshot
    pub status : CollectorStatus

  -- What the other collectors give.
  pub record Collected : Type 0 where
    pub system : SystemOverview
    pub cpu : CpuInfo
    pub memory : MemoryInfo
    pub disk_count : ℤ
    pub disk_total_used_mb : F.D
    pub disk_total_mb : F.D
    pub processes : List Text

  abbrev is_open_failed : CollectorStatus → Bool
  is_open_failed open_failed = true
  is_open_failed _ = false

  -- The status of the network, or that of the logs where it is neither OK nor a failure to open.
  unfoldable pub snapshot_status : CollectorStatus → CollectorStatus → CollectorStatus
  snapshot_status network_status log_status =
      if is_ok network_status && not (is_ok log_status) && not (is_open_failed log_status)
      then log_status
      else network_status

  unfoldable pub collect_diagnostics_snapshot :
      Collected → Machine → World → ℕ → DiagnosticsSnapshot
  unfolding collect_network_snapshot collect_logs snapshot_status
  collect_diagnostics_snapshot c m w error_size =
      let (network_status, network, error) = collect_network_snapshot m error_size in
      let logs = collect_logs w in
      record {
        system = c.system;
        cpu = c.cpu;
        memory = c.memory;
        disk_count = c.disk_count;
        disk_total_used_mb = c.disk_total_used_mb;
        disk_total_mb = c.disk_total_mb;
        processes = c.processes;
        network = network;
        logs = logs;
        status = snapshot_status network_status logs.status;
      }

  -- What the alerts read.
  unfoldable pub readings_of : DiagnosticsSnapshot → Readings F
  readings_of s = record {
    temperature = s.cpu.temperature;
    total_ram = s.memory.total_ram;
    mem_percent = s.memory.mem_percent;
    disk_count = s.disk_count;
    disk_total_used_mb = s.disk_total_used_mb;
    disk_total_mb = s.disk_total_mb;
    route_status = s.network.route_status;
    route = s.network.route;
    dns_status = s.network.dns_status;
    dns_servers = s.network.dns;
  }

  abbrev line : Text → Text → Text
  line label rest = label ++ (rest ++ codes "\n")

  abbrev route_text : RouteSummary → Text
  route_text r =
      if r.has_default
      then codes "default via "
        ++ (r.gateway ++ (codes " dev " ++ (r.interface ++ (codes " metric " ++ r.metric))))
      else codes "unavailable"

  abbrev or_na : Text → Text
  or_na s = if is_empty s then codes "N/A" else s

  -- `active_type` is "N/A" where there is no active interface.
  abbrev active_text : Option ActiveInterface → Text
  active_text none = codes "unavailable (N/A) N/A N/A"
  active_text (some a) =
      a.interface
      ++ (codes " (" ++ (a.kind ++ (codes ") " ++ (or_na a.ip ++ (codes " " ++ or_na a.mac)))))

  abbrev vpn_text : Option VpnInterface → Text
  vpn_text none = codes "unavailable"
  vpn_text (some v) = v.interface

  abbrev first_command : List Text → Text
  first_command [] = codes "unavailable"
  first_command (command ∷ processes) = command

  -- Texts with ", " between them.
  abbrev listed : List Text → Text
  listed [] = []
  listed (s ∷ []) = s
  listed (s ∷ t ∷ more) = s ++ (codes ", " ++ listed (t ∷ more))

  abbrev dns_text : List Text → Text
  dns_text [] = codes "unavailable"
  dns_text (s ∷ servers) = listed (s ∷ servers)

  abbrev alert_lines : List Text → Text
  alert_lines [] = []
  alert_lines (alert ∷ alerts) = line (codes "  ") alert ++ alert_lines alerts

  abbrev alerts_text : List Text → Text
  alerts_text [] = codes "  none\n"
  alerts_text (alert ∷ alerts) = alert_lines (alert ∷ alerts)

  abbrev log_lines : List LogLine → Text
  log_lines [] = []
  log_lines (l ∷ lines) = line (codes "  [") (l.source ++ (codes "] " ++ l.text)) ++ log_lines lines

  abbrev logs_text : List LogLine → Text
  logs_text [] = codes "  unavailable\n"
  logs_text (l ∷ lines) = log_lines (l ∷ lines)

  abbrev system_text : SystemOverview → Text
  system_text s =
      line (codes "HOSTNAME          ") s.hostname
      ++ (line (codes "OS                ") s.os_version
          ++ (line (codes "KERNEL            ") s.kernel_version
              ++ (line (codes "UPTIME            ") s.uptime
                  ++ (line (codes "LOAD_AVG          ") s.load_avg
                      ++ line (codes "LOGGED_IN_USERS   ") s.logged_in_users))))

  abbrev network_text : Snapshot → Text
  network_text n =
      line (codes "ROUTE             ") (route_text n.route)
      ++ (line (codes "DNS               ") (dns_text n.dns)
          ++ (line (codes "ACTIVE_IFACE      ") (active_text n.active)
              ++ line (codes "VPN               ") (vpn_text n.vpn)))

  abbrev of_total : ℕ → ℕ → Text
  of_total used total = show used ++ (codes "/" ++ show total)

  abbrev pressure_text : DiagnosticsSnapshot → Text
  pressure_text s =
      line (codes "CPU               avg ") (
        F.one_decimal s.cpu.avg_usage
        ++ (codes "% | temp "
            ++ (F.one_decimal s.cpu.temperature
                ++ (codes "C | cores " ++ show_int s.cpu.num_cores))))
      ++ (line (codes "MEMORY            ") (
            F.one_decimal s.memory.mem_percent
            ++ (codes "% | RAM "
                ++ (of_total s.memory.used_ram s.memory.total_ram
                    ++ (codes " | SWAP " ++ of_total s.memory.used_swap s.memory.total_swap))))
          ++ (line (codes "DISK              ") (
                show_int s.disk_count
                ++ (codes " mounts | "
                    ++ (F.one_decimal s.disk_total_used_mb
                        ++ (codes "/" ++ (F.one_decimal s.disk_total_mb ++ codes " MB used")))))
              ++ line (codes "PROCESSES         ") (
                  show (length s.processes)
                  ++ (codes " captured | top " ++ first_command s.processes))))

  unfoldable pub print_diagnostics_text : Settings → DiagnosticsSnapshot → Text
  unfolding collect_alerts readings_of
  print_diagnostics_text settings s =
      line (codes "SYSTEM") []
      ++ (system_text s.system
          ++ (codes "\nNETWORK\n"
              ++ (network_text s.network
                  ++ (codes "\nPRESSURE\n"
                      ++ (pressure_text s
                          ++ (codes "\nALERTS\n"
                              ++ (alerts_text (collect_alerts F settings (readings_of s))
                                  ++ (codes "\nLOGS\n" ++ logs_text s.logs.lines))))))))
