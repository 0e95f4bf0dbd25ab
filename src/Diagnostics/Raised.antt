-- ===== src/Diagnostics/Raised.antt =====
-- Which alerts are raised of a whole diagnostics snapshot (`trfx_collect_diagnostics_alerts`,
-- src/trfx_diagnostics.c).
use trafix.Prelude.Int.{ℤ, pos, ◌<ℤ◌, ltb_ℤ}
use trafix.Prelude.{
  ℕ, suc, ◌≤◌, ◌<◌, Bool, true, false, ◌&&◌, List, [], ◌∷◌, ◌++◌, ◌≡◌, ◌≢◌, ◌⊎◌, ◌↔◌, inl, inr,
  refl, sym, ap, ◌∙◌, arith, length, length-append, length-take, take, take_all, ltb, leb, ◌==◌,
  ltb→lt, lt→ltb, if◌then◌else◌,
}
use trafix.Cstr.{Text, codes, clip, is_empty}
use trafix.Cstr.Lines.{fgets_lines}
use trafix.Config.{Settings}
use trafix.Diagnostics.Alerts.{
  Floats, Readings, max_alerts, show_int, alert_summary_add, cpu_block, memory_block, disk_block,
  dns_block, quiet_route, collect_alerts,
}
use trafix.Diagnostics.Snapshot.{Collected, collect_diagnostics_snapshot, readings_of}
use trafix.Diagnostics.Sources.{World}
use trafix.Netinfo.Dns.{
  max_dns_servers, named, once, collect_dns_summary_file, collect_dns_summary_file-once,
}
use trafix.Netinfo.Routes.{is_ok}
use trafix.Netinfo.Snapshot.{Machine, collect_network_snapshot, collect_dns_summary_path}
use trafix.Netinfo.Snapshot.Whole.{collect_network_snapshot-IsWhole}
use trafix.Netinfo.Stats.{Opened, contents, refused}

-- From the lines of a summary to those at the end: every line that is due is added behind them, one that is not
-- due is not, in their order.
abbrev pub Raised : List (Type 0 × Text) → List Text → List Text → Type 0
Raised [] summary end = end ≡ summary
Raised ((P, line) ∷ due) summary end =
    (P × Raised due (summary ++ line ∷ []) end) ⊎ ((¬ P) × Raised due summary end)

-- What a block does with the line that it may add.
abbrev Adds : Type 0 → Text → List Text → List Text → Type 0
Adds P line summary result = (P × (result ≡ summary ++ line ∷ [])) ⊎ ((¬ P) × (result ≡ summary))

clip-clip : (s : Text) → clip 128 (clip 128 s) ≡ clip 128 s
unfolding clip
clip-clip s = take_all 127 (take 127 s) (omega (arith, length-take 127 s))

-- A line that has been cut to its buffer is added as it is.
add-room :
    (summary : List Text) (s : Text)
    → is_empty (clip 128 s) ≡ false
    → length summary < max_alerts
    → alert_summary_add summary (clip 128 s) ≡ summary ++ clip 128 s ∷ []
unfolding alert_summary_add
add-room summary s e h =
    let full : leb max_alerts (length summary) ≡ false = ground arith in
    rw (e, full, clip-clip s) refl

Adds-length :
    (P : Type 0) (line : Text) (summary result : List Text)
    → Adds P line summary result
    → length result ≤ suc (length summary)
Adds-length P line summary result (inl (p, e)) =
    rw e (omega (arith, length-append summary (line ∷ [])))
Adds-length P line summary result (inr (p, e)) = rw e (omega arith)

Raised-cons :
    (P : Type 0) (line : Text) (due : List (Type 0 × Text)) (summary result end : List Text)
    → Adds P line summary result
    → Raised due result end
    → Raised ((P, line) ∷ due) summary end
Raised-cons P line due summary result end (inl (p, e)) h = inl (p, rw (sym e) h)
Raised-cons P line due summary result end (inr (p, e)) h = inr (p, rw (sym e) h)

Raised-four :
    (P Q R S : Type 0) (p q r s : Text) (l0 l1 l2 l3 l4 : List Text)
    → Adds P p l0 l1
    → Adds Q q l1 l2
    → Adds R r l2 l3
    → Adds S s l3 l4
    → Raised ((P, p) ∷ (Q, q) ∷ (R, r) ∷ (S, s) ∷ []) l0 l4
Raised-four P Q R S p q r s l0 l1 l2 l3 l4 a b c d =
    Raised-cons P p ((Q, q) ∷ (R, r) ∷ (S, s) ∷ []) l0 l1 l4 a (
      Raised-cons Q q ((R, r) ∷ (S, s) ∷ []) l1 l2 l4 b
        (Raised-cons R r ((S, s) ∷ []) l2 l3 l4 c (Raised-cons S s [] l3 l4 l4 d refl)))

-- A line that is added under two tests, and what they say.
both-Adds :
    {P Q : Type 0} (a b : Bool) (line : Text) (summary added : List Text)
    → (a ≡ true) ↔ P
    → (b ≡ true) ↔ Q
    → added ≡ summary ++ line ∷ []
    → Adds (P × Q) line summary (if a && b then added else summary)
both-Adds true true line summary added p q e = inl ((p.0 refl, q.0 refl), e)
both-Adds true false line summary added p q e = inr (λ h. absurd (ground (arith, q.1 h.1)), refl)
both-Adds false b line summary added p q e = inr (λ h. absurd (ground (arith, p.1 h.0)), refl)

-- The same under a test within another.
nested-Adds :
    {P Q : Type 0} (a b : Bool) (line : Text) (summary added : List Text)
    → (a ≡ true) ↔ P
    → (b ≡ true) ↔ Q
    → added ≡ summary ++ line ∷ []
    → Adds (P × Q) line summary (if a then (if b then added else summary) else summary)
nested-Adds true b line summary added p q e = both-Adds true b line summary added p q e
nested-Adds false b line summary added p q e = both-Adds false b line summary added p q e

same : {P : Type 0} → P ↔ P
same = (λ p. p, λ p. p)

none_named :
    (servers : List Text) → length (take max_dns_servers (once [] servers)) ≡ 0 → servers ≡ []
none_named [] h = refl
none_named (s ∷ servers) h = absurd (omega arith)

-- There is no server in the summary exactly if the lines name none.
no_servers :
    (file : Text)
    → (length (collect_dns_summary_file file) ≡ 0) ↔ (named (fgets_lines 256 file) ≡ [])
no_servers file = (
  λ h.
      none_named (named (fgets_lines 256 file))
        (sym (ap length (collect_dns_summary_file-once file)) ∙ h),
  λ h.
      ap length (collect_dns_summary_file-once file ∙ ap (λ l. take max_dns_servers (once [] l)) h),
)

-- The file can be read, and none of its lines names a server.
abbrev pub NamesNoServer : Opened → Type 0
NamesNoServer (refused reason) = ⊥
NamesNoServer (contents file) = named (fgets_lines 256 file) ≡ []

dns_test :
    (opened : Opened)
    → (((is_ok (collect_dns_summary_path opened).0
          && length (collect_dns_summary_path opened).1 == 0)
        ≡ true))
      ↔ NamesNoServer opened
unfolding collect_dns_summary_path
dns_test (refused reason) = (λ e. ground arith, λ h. absurd h)
dns_test (contents file) = (
  λ e. (no_servers file).0 (ground arith),
  λ h.
      let none : length (collect_dns_summary_file file) ≡ 0 = (no_servers file).1 h in ground arith,
)

module _ (F : Floats) where
  -- The temperature is known, and it has reached its limit.
  abbrev pub IsHot : Settings → F.D → Type 0
  IsHot s temperature =
      (F.less_equal (F.of_int (pos 0)) temperature ≡ true)
      × (F.less_equal (F.of_int s.temp_warn_red) temperature ≡ true)

  abbrev pub hot_text : Settings → F.D → Text
  hot_text s temperature =
      codes "CPU temperature high: "
      ++ (F.one_decimal temperature ++ (codes "C >= " ++ (show_int s.temp_warn_red ++ codes "C")))

  -- There is memory, and its use has reached the limit.
  abbrev pub IsMemoryHigh : Settings → ℕ → F.D → Type 0
  IsMemoryHigh s total_ram percent =
      (0 < total_ram) × (F.less_equal (F.of_int s.alert_memory_warn_percent) percent ≡ true)

  abbrev pub memory_text : Settings → F.D → Text
  memory_text s percent =
      codes "Memory pressure high: "
      ++ (F.one_decimal percent
          ++ (codes "% >= " ++ (show_int s.alert_memory_warn_percent ++ codes "%")))

  -- There are disks with a size, a limit is set, and the use of all has reached it.
  abbrev pub IsDiskHigh : Settings → ℤ → F.D → F.D → Type 0
  IsDiskHigh s count used total =
      ((pos 0 <ℤ count)
        × (F.less_than (F.of_int (pos 0)) total ≡ true)
        × (pos 0 <ℤ s.alert_disk_warn_percent))
      × (F.less_equal (F.of_int s.alert_disk_warn_percent) (F.percent used total) ≡ true)

  abbrev pub disk_text : Settings → F.D → F.D → Text
  disk_text s used total =
      codes "Disk pressure high: "
      ++ (F.one_decimal (F.percent used total)
          ++ (codes "% >= " ++ (show_int s.alert_disk_warn_percent ++ codes "%")))

  -- Servers are required, and there are none.
  abbrev pub IsWithoutDns : Settings → Opened → Type 0
  IsWithoutDns s opened = (s.alert_require_dns ≢ pos 0) × NamesNoServer opened

  cpu_block-Adds :
      (s : Settings) (r : Readings F) (summary : List Text)
      → length summary < max_alerts
      → Adds
          (IsHot s r.temperature)
          (clip 128 (hot_text s r.temperature))
          summary
          (cpu_block F s r summary)
  unfolding cpu_block clip
  cpu_block-Adds s r summary h =
      both-Adds (F.less_equal (F.of_int (pos 0)) r.temperature)
        (F.less_equal (F.of_int s.temp_warn_red) r.temperature)
        (clip 128 (hot_text s r.temperature)) summary
        (alert_summary_add summary (clip 128 (hot_text s r.temperature))) same same
        (add-room summary (hot_text s r.temperature) refl h)

  memory_block-Adds :
      (s : Settings) (r : Readings F) (summary : List Text)
      → length summary < max_alerts
      → Adds
          (IsMemoryHigh s r.total_ram r.mem_percent)
          (clip 128 (memory_text s r.mem_percent))
          summary
          (memory_block F s r summary)
  unfolding memory_block clip
  memory_block-Adds s r summary h =
      both-Adds (ltb 0 r.total_ram)
        (F.less_equal (F.of_int s.alert_memory_warn_percent) r.mem_percent)
        (clip 128 (memory_text s r.mem_percent)) summary
        (alert_summary_add summary (clip 128 (memory_text s r.mem_percent)))
        (ltb→lt 0 r.total_ram, lt→ltb 0 r.total_ram) same
        (add-room summary (memory_text s r.mem_percent) refl h)

  disk_block-Adds :
      (s : Settings) (r : Readings F) (summary : List Text)
      → length summary < max_alerts
      → Adds
          (IsDiskHigh s r.disk_count r.disk_total_used_mb r.disk_total_mb)
          (clip 128 (disk_text s r.disk_total_used_mb r.disk_total_mb))
          summary
          (disk_block F s r summary)
  unfolding disk_block clip
  disk_block-Adds s r summary h =
      let line = clip 128 (disk_text s r.disk_total_used_mb r.disk_total_mb) in
      nested-Adds
        (ltb_ℤ (pos 0) r.disk_count
          && F.less_than (F.of_int (pos 0)) r.disk_total_mb
          && ltb_ℤ (pos 0) s.alert_disk_warn_percent)
        (F.less_equal (F.of_int s.alert_disk_warn_percent)
          (F.percent r.disk_total_used_mb r.disk_total_mb))
        line summary (alert_summary_add summary line) (λ e. ground arith, λ p. ground arith) same
        (add-room summary (disk_text s r.disk_total_used_mb r.disk_total_mb) refl h)

  dns_block-Adds :
      (s : Settings) (r : Readings F) (opened : Opened) (summary : List Text)
      → r.dns_status ≡ (collect_dns_summary_path opened).0
      → r.dns_servers ≡ (collect_dns_summary_path opened).1
      → length summary < max_alerts
      → Adds (IsWithoutDns s opened) (codes "DNS servers missing") summary (dns_block F s r summary)
  unfolding dns_block clip
  dns_block-Adds s r opened summary e f h =
      rw (e, f)
        (ground (arith, add-room summary (codes "DNS servers missing") refl h, dns_test opened))

  alerts_of_readings :
      (s : Settings) (r : Readings F) (opened : Opened)
      → r.route.has_default ≡ is_ok r.route_status
      → r.dns_status ≡ (collect_dns_summary_path opened).0
      → r.dns_servers ≡ (collect_dns_summary_path opened).1
      → Raised
          ((IsHot s r.temperature, clip 128 (hot_text s r.temperature))
            ∷ (IsMemoryHigh s r.total_ram r.mem_percent, clip 128 (memory_text s r.mem_percent))
            ∷ (
              IsDiskHigh s r.disk_count r.disk_total_used_mb r.disk_total_mb,
              clip 128 (disk_text s r.disk_total_used_mb r.disk_total_mb),
            )
            ∷ (IsWithoutDns s opened, codes "DNS servers missing")
            ∷ [])
          []
          (collect_alerts F s r)
  unfolding collect_alerts
  alerts_of_readings s r opened route status servers =
      let after_cpu = cpu_block F s r [] in
      let after_memory = memory_block F s r after_cpu in
      let after_disk = disk_block F s r after_memory in
      let cpu = cpu_block-Adds s r [] (omega arith) in
      let l1 = Adds-length _ _ [] after_cpu cpu in
      let memory = memory_block-Adds s r after_cpu (omega (arith, l1)) in
      let l2 = Adds-length _ _ after_cpu after_memory memory in
      let disk = disk_block-Adds s r after_memory (omega (arith, l1, l2)) in
      let l3 = Adds-length _ _ after_memory after_disk disk in
      let dns = dns_block-Adds s r opened after_disk status servers (omega (arith, l1, l2, l3)) in
      rw (quiet_route F s r after_disk route)
        (Raised-four _ _ _ _ _ _ _ _ [] after_cpu after_memory after_disk _ cpu memory disk dns)

  -- The four conditions with their lines, of what the collectors give.
  abbrev pub due : Settings → Collected F → Machine → List (Type 0 × Text)
  due s c m =
      (IsHot s c.cpu.temperature, clip 128 (hot_text s c.cpu.temperature))
      ∷ (
        IsMemoryHigh s c.memory.total_ram c.memory.mem_percent,
        clip 128 (memory_text s c.memory.mem_percent),
      )
      ∷ (
        IsDiskHigh s c.disk_count c.disk_total_used_mb c.disk_total_mb,
        clip 128 (disk_text s c.disk_total_used_mb c.disk_total_mb),
      )
      ∷ (IsWithoutDns s (m.net.open_file (codes "/etc/resolv.conf")), codes "DNS servers missing")
      ∷ []

  -- Whatever the collectors give: the alerts of the whole snapshot are exactly the lines that are due, each once and
  -- in this order: the temperature has reached its limit; so has the memory's use, where there is memory; so
  -- has the disks' use, where there are disks with a size and a limit; and servers are required, while
  -- /etc/resolv.conf can be read and no line of it names one.
  pub collect_alerts-Raised :
      (c : Collected F) (m : Machine) (w : World) (error_size : ℕ) (s : Settings)
      → Raised
          (due s c m)
          []
          (collect_alerts F s (readings_of F (collect_diagnostics_snapshot F c m w error_size)))
  unfolding readings_of collect_diagnostics_snapshot collect_network_snapshot
  collect_alerts-Raised c m w error_size s =
      let r = readings_of F (collect_diagnostics_snapshot F c m w error_size) in
      alerts_of_readings s r (m.net.open_file (codes "/etc/resolv.conf"))
        (collect_network_snapshot-IsWhole m error_size).1 refl refl
