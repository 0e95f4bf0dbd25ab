-- ===== src/Tests/Alerting.antt =====
-- The alerts (src/trfx_diagnostics.c), with natural numbers in place of floating-point ones.
use trafix.Prelude.Int.{pos, pos_part}
use trafix.Prelude.{ℕ, ◌*◌, ◌/◌, false, [], ◌∷◌, ◌≡◌, refl, any, leb, ltb}
use trafix.Cstr.Number.{show}
use trafix.Cstr.Lines.{fgets_lines}
use trafix.Cstr.Tokens.{tokens}
use trafix.Cstr.{codes, clip, is}
use trafix.Config.{initial}
use trafix.Netinfo.Routes.{ok, collect_route_summary_file}
use trafix.Diagnostics.Alerts.{
  Floats, Readings, collect_alerts, is_missing_route, collect_alerts-route,
}

abbrev pub whole : Floats
whole = record {
  D = ℕ;
  less_equal = leb;
  less_than = ltb;
  of_int = pos_part;
  percent = λ used total. used * 100 / total;
  one_decimal = show;
}

-- No default route, and a hot processor.
abbrev readings : Readings whole
readings =
    let (status, route) = collect_route_summary_file (codes "10.0.0.0/24 dev eth0\n") in
    record {
      temperature = 90;
      total_ram = 16;
      mem_percent = 40;
      disk_count = pos 1;
      disk_total_used_mb = 95;
      disk_total_mb = 100;
      route_status = status;
      route = route;
      dns_status = ok;
      dns_servers = codes "1.1.1.1" ∷ [];
    }

two_alerts :
    collect_alerts whole initial readings
    ≡ codes "CPU temperature high: 90C >= 75C" ∷ codes "Disk pressure high: 95% >= 90%" ∷ []
unfolding collect_alerts collect_route_summary_file fgets_lines tokens clip is show
two_alerts = refl

collect_alerts-route_example : any is_missing_route (collect_alerts whole initial readings) ≡ false
collect_alerts-route_example =
    collect_alerts-route whole initial readings (codes "10.0.0.0/24 dev eth0\n") refl refl
