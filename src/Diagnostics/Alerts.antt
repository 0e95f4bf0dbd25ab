-- ===== src/Diagnostics/Alerts.antt =====
-- The alerts (`diagnostics_alert_summary_add` and `trfx_collect_diagnostics_alerts`,
-- src/trfx_diagnostics.c). Floating-point numbers are a type with the operations that the code uses, which
-- a caller supplies. The summary's array and count are the list of its lines.
use trafix.Prelude.Int.{ℤ, pos, negsuc, ltb_ℤ}
use trafix.Prelude.{
  ℕ, suc, Bool, true, false, not, ◌&&◌, List, [], ◌∷◌, ◌++◌, ◌≡◌, refl, arith, sym, ap, ◌∙◌, ltb,
  leb, any, length, ◌==◌, if◌then◌else◌, inl, inr, Bool-cases,
}
use trafix.Cstr.Number.{show}
use trafix.Cstr.{Text, codes, clip, is, is_empty}
use trafix.Config.{Settings}
use trafix.Netinfo.Routes.{
  CollectorStatus, RouteSummary, is_ok, collect_route_summary_file,
  collect_route_summary_file-has_default,
}

abbrev pub max_alerts : ℕ
max_alerts = 8

-- `float` and `double`: the order, the conversion of an integer, used / total * 100.0, and "%.1f".
pub record Floats : Type 1 where
  pub D : Type 0
  pub less_equal : D → D → Bool
  pub less_than : D → D → Bool
  pub of_int : ℤ → D
  pub percent : D → D → D
  pub one_decimal : D → Text

-- What the alerts read of a snapshot.
pub record Readings (F : Floats) : Type 0 where
  pub temperature : F.D
  pub total_ram : ℕ
  pub mem_percent : F.D
  pub disk_count : ℤ
  pub disk_total_used_mb : F.D
  pub disk_total_mb : F.D
  pub route_status : CollectorStatus
  pub route : RouteSummary
  pub dns_status : CollectorStatus
  pub dns_servers : List Text

-- `%d`
abbrev pub show_int : ℤ → Text
show_int (pos n) = show n
show_int (negsuc n) = b'-' ∷ show (suc n)

unfoldable pub alert_summary_add : List Text → Text → List Text
alert_summary_add summary line =
    if is_empty line
    then summary
    else if leb max_alerts (length summary)
    then summary
    else summary ++ clip 128 line ∷ []

abbrev nonzero : ℤ → Bool
nonzero (pos n) = not (n == 0)
nonzero (negsuc n) = true

module _ (F : Floats) where
  -- "WHAT high: %.1fUNIT >= %dUNIT", in a buffer of 128 bytes.
  abbrev high_line : Text → F.D → ℤ → Text → Text
  high_line what value limit unit =
      clip 128
        (what ++ (F.one_decimal value ++ (unit ++ (codes " >= " ++ (show_int limit ++ unit)))))

  abbrev pub cpu_line : Settings → Readings F → Text
  cpu_line s r =
      high_line (codes "CPU temperature high: ") r.temperature s.temp_warn_red (codes "C")

  unfoldable pub cpu_block : Settings → Readings F → List Text → List Text
  unfolding alert_summary_add
  cpu_block s r summary =
      if F.less_equal (F.of_int (pos 0)) r.temperature
        && F.less_equal (F.of_int s.temp_warn_red) r.temperature
      then alert_summary_add summary (cpu_line s r)
      else summary

  abbrev pub memory_line : Settings → Readings F → Text
  memory_line s r =
      high_line (codes "Memory pressure high: ") r.mem_percent s.alert_memory_warn_percent
        (codes "%")

  unfoldable pub memory_block : Settings → Readings F → List Text → List Text
  unfolding alert_summary_add
  memory_block s r summary =
      if ltb 0 r.total_ram && F.less_equal (F.of_int s.alert_memory_warn_percent) r.mem_percent
      then alert_summary_add summary (memory_line s r)
      else summary

  abbrev pub disk_usage_percent : Readings F → F.D
  disk_usage_percent r = F.percent r.disk_total_used_mb r.disk_total_mb

  abbrev pub disk_line : Settings → Readings F → Text
  disk_line s r =
      high_line (codes "Disk pressure high: ") (disk_usage_percent r) s.alert_disk_warn_percent
        (codes "%")

  unfoldable pub disk_block : Settings → Readings F → List Text → List Text
  unfolding alert_summary_add
  disk_block s r summary =
      if ltb_ℤ (pos 0) r.disk_count
        && F.less_than (F.of_int (pos 0)) r.disk_total_mb
        && ltb_ℤ (pos 0) s.alert_disk_warn_percent
      then (if F.less_equal (F.of_int s.alert_disk_warn_percent) (disk_usage_percent r)
          then alert_summary_add summary (disk_line s r)
          else summary)
      else summary

  unfoldable pub route_block : Settings → Readings F → List Text → List Text
  unfolding alert_summary_add
  route_block s r summary =
      if nonzero s.alert_require_default_route && is_ok r.route_status && not r.route.has_default
      then alert_summary_add summary (codes "Default route missing")
      else summary

  unfoldable pub dns_block : Settings → Readings F → List Text → List Text
  unfolding alert_summary_add
  dns_block s r summary =
      if nonzero s.alert_require_dns && is_ok r.dns_status && length r.dns_servers == 0
      then alert_summary_add summary (codes "DNS servers missing")
      else summary

  unfoldable pub collect_alerts : Settings → Readings F → List Text
  unfolding cpu_block memory_block disk_block route_block dns_block
  collect_alerts s r =
      dns_block s r (route_block s r (disk_block s r (memory_block s r (cpu_block s r []))))

abbrev pub is_missing_route : Text → Bool
is_missing_route line = is line "Default route missing"

any-append :
    (xs : List Text) (x : Text)
    → any is_missing_route xs ≡ false
    → is_missing_route x ≡ false
    → any is_missing_route (xs ++ x ∷ []) ≡ false
any-append [] x h k = rw k refl
any-append (y ∷ xs) x h k = ground (arith, any-append xs x)

-- The summary has no line "Default route missing".
abbrev Quiet : List Text → Type 0
Quiet summary = any is_missing_route summary ≡ false

add-Quiet :
    (summary : List Text) (line : Text)
    → is_missing_route (clip 128 line) ≡ false
    → Quiet summary
    → Quiet (alert_summary_add summary line)
unfolding alert_summary_add
add-Quiet summary line k h = elim (Bool-cases (is_empty line)) [
  | inl e ↦ rw e h
  | inr e ↦ elim (Bool-cases (leb max_alerts (length summary))) [
    | inl f ↦ rw (e, f) h
    | inr f ↦ rw (e, f) (any-append summary (clip 128 line) h k)
  ]
]

module _ (F : Floats) where
  pub quiet_route :
      (s : Settings) (r : Readings F) (summary : List Text)
      → r.route.has_default ≡ is_ok r.route_status
      → route_block F s r summary ≡ summary
  unfolding route_block
  quiet_route s r summary h = ground arith

  quiet_others :
      (s : Settings) (r : Readings F)
      → (is_missing_route (clip 128 (cpu_line F s r)) ≡ false)
        × (is_missing_route (clip 128 (memory_line F s r)) ≡ false)
        × (is_missing_route (clip 128 (disk_line F s r)) ≡ false)
        × (is_missing_route (clip 128 (codes "DNS servers missing")) ≡ false)
  unfolding clip is
  quiet_others s r = (refl, refl, refl, refl)

  cpu-Quiet :
      (s : Settings) (r : Readings F) (summary : List Text)
      → Quiet summary
      → Quiet (cpu_block F s r summary)
  unfolding cpu_block
  cpu-Quiet s r summary h =
      ground (arith, add-Quiet summary (cpu_line F s r) (quiet_others s r).0 h)

  memory-Quiet :
      (s : Settings) (r : Readings F) (summary : List Text)
      → Quiet summary
      → Quiet (memory_block F s r summary)
  unfolding memory_block
  memory-Quiet s r summary h =
      ground (arith, add-Quiet summary (memory_line F s r) (quiet_others s r).1 h)

  disk-Quiet :
      (s : Settings) (r : Readings F) (summary : List Text)
      → Quiet summary
      → Quiet (disk_block F s r summary)
  unfolding disk_block
  disk-Quiet s r summary h =
      ground (arith, add-Quiet summary (disk_line F s r) (quiet_others s r).2 h)

  dns-Quiet :
      (s : Settings) (r : Readings F) (summary : List Text)
      → Quiet summary
      → Quiet (dns_block F s r summary)
  unfolding dns_block
  dns-Quiet s r summary h =
      ground (arith, add-Quiet summary (codes "DNS servers missing") (quiet_others s r).3 h)

  -- With the route and the status that the collector gives for any output of `ip route`, the alert
  -- "Default route missing" is never raised.
  pub collect_alerts-route :
      (s : Settings) (r : Readings F) (file : Text)
      → r.route_status ≡ (collect_route_summary_file file).0
      → r.route ≡ (collect_route_summary_file file).1
      → any is_missing_route (collect_alerts F s r) ≡ false
  unfolding collect_alerts
  collect_alerts-route s r file e f =
      let same : r.route.has_default ≡ is_ok r.route_status =
        ap (λ x. x.has_default) f
        ∙ collect_route_summary_file-has_default file
        ∙ sym (ap is_ok e) in
      rw (quiet_route s r (disk_block F s r (memory_block F s r (cpu_block F s r []))) same)
        (dns-Quiet s r _ (disk-Quiet s r _ (memory-Quiet s r _ (cpu-Quiet s r [] refl))))
