-- ===== src/Bandwidth/Report/Flows.antt =====
-- The flows of a report (`trfx_collect_bandwidth_report`, src/trfx_bandwidth.c).
use trafix.Prelude.{
  ℕ, zero, suc, ◌-◌, Bool, true, false, not, ◌||◌, List, [], ◌∷◌, Option, none, some, min, ltb, leb,
  ◌==◌, ◌≡◌, ◌∙◌, ◌≤◌, ◌<◌, inl, inr, refl, ap, arith, Bool-cases, length,
}
use trafix.Cstr.Sort.{Qsort, perm-length}
use trafix.Actions.Requests.{ConnectionInfo}
use trafix.Netinfo.Rates.{InterfaceRate}
use trafix.Netinfo.Snapshot.{Snapshot}
use trafix.Samples.{Sample, SampleBuffer, at}
use trafix.Bandwidth.{
  max_bandwidth_flows, Doubles, BandwidthMode, BandwidthFlow, BandwidthReport, connection_has_owner,
  rates_between,
}
use BandwidthMode.{unsupported, interface_fallback, process_estimated, socket_estimated}
use trafix.Bandwidth.Groups.{ProcessGroup, group_owners-Counts}
use trafix.Bandwidth.Report.{
  count_owned, compare_bandwidth_flows, socket_flows, group_flows, sort_bandwidth_flows, by_groups,
  report_of, report_of_samples, collect_bandwidth_report,
}

module _ (d : Doubles) where
  open d use {D}

  -- Whether the mode is one of the two estimates.
  abbrev pub is_estimated : BandwidthMode → Bool
  is_estimated socket_estimated = true
  is_estimated process_estimated = true
  is_estimated interface_fallback = false
  is_estimated unsupported = false

  length-socket_flows :
      (rx_share tx_share : D) (owned_count out room : ℕ) (connections : List ConnectionInfo)
      → length (socket_flows d rx_share tx_share owned_count out room connections)
        ≡ min room (count_owned connections)
  unfolding socket_flows count_owned
  length-socket_flows rx_share tx_share owned_count out room [] = omega arith
  length-socket_flows rx_share tx_share owned_count out zero (c ∷ connections) = omega arith
  length-socket_flows rx_share tx_share owned_count out (suc room) (c ∷ connections) =
      elim (Bool-cases (connection_has_owner c)) [
        | inl e ↦
            let ih = length-socket_flows rx_share tx_share owned_count (suc out) room connections in
            rw e (omega (arith, ih))
        | inr e ↦
            let ih = length-socket_flows rx_share tx_share owned_count out (suc room) connections in
            rw e ih
      ]

  length-group_flows :
      (total_rx total_tx : D) (total_sockets : ℕ) (groups : List ProcessGroup)
      → length (group_flows d total_rx total_tx total_sockets groups) ≡ length groups
  unfolding group_flows
  length-group_flows total_rx total_tx total_sockets [] = refl
  length-group_flows total_rx total_tx total_sockets (g ∷ groups) =
      ap suc (length-group_flows total_rx total_tx total_sockets groups)

  -- At most 64 flows, and some exactly where the mode is an estimate.
  pub record FlowsFit (r : BandwidthReport D) : Type 0 where
    pub in_room : length r.flows ≤ max_bandwidth_flows
    pub some_flow : not (length r.flows == 0) ≡ is_estimated r.mode

  no_flow-FlowsFit :
      (r : BandwidthReport D) → r.flows ≡ [] → is_estimated r.mode ≡ false → FlowsFit r
  no_flow-FlowsFit r e m = record { in_room = rw e (omega arith); some_flow = rw (e, m) refl }

  some_flow-FlowsFit :
      (r : BandwidthReport D) (n : ℕ)
      → length r.flows ≡ n
      → 0 < n
      → n ≤ max_bandwidth_flows
      → is_estimated r.mode ≡ true
      → FlowsFit r
  some_flow-FlowsFit r n e lt le m = record {
    in_room = omega (arith, e);
    some_flow = rw m (ground arith);
  }

  module _ (qsort : Qsort (BandwidthFlow D)) where
    length-sort_bandwidth_flows :
        (flows : List (BandwidthFlow D))
        → length (sort_bandwidth_flows d qsort flows) ≡ length flows
    unfolding sort_bandwidth_flows
    length-sort_bandwidth_flows flows = elim (Bool-cases (leb (length flows) 1)) [
      | inl e ↦ rw e refl
      | inr e ↦ rw e (perm-length (qsort.sort-perm (compare_bandwidth_flows d) flows))
    ]

    by_groups-FlowsFit :
        (rates : List (InterfaceRate D)) (total_rx total_tx : D) (groups : List ProcessGroup)
        (total : ℕ)
        → length groups ≤ max_bandwidth_flows
        → FlowsFit (by_groups d qsort rates total_rx total_tx (groups, total))
    by_groups-FlowsFit rates total_rx total_tx groups total h =
        elim (Bool-cases (length groups == 0 || total == 0)) [
          | inl e ↦ rw e (no_flow-FlowsFit _ refl refl)
          | inr e ↦ rw e (
              some_flow-FlowsFit _ (length groups)
                (length-sort_bandwidth_flows _ ∙ length-group_flows total_rx total_tx total groups)
                (ground arith) h refl)
        ]

    report_of-FlowsFit :
        (rates : List (InterfaceRate D)) (s : Snapshot) → FlowsFit (report_of d qsort rates s)
    unfolding report_of
    report_of-FlowsFit rates s = elim (Bool-cases (not (count_owned s.connections == 0))) [
      | inl e ↦ rw e (
          some_flow-FlowsFit _ (min max_bandwidth_flows (count_owned s.connections))
            (length-sort_bandwidth_flows _ ∙ length-socket_flows _ _ _ 0 max_bandwidth_flows _)
            (ground arith) (omega arith) refl)
      | inr e ↦
          rw e (by_groups-FlowsFit rates _ _ _ _ (group_owners-Counts s.socket_owners).in_room)
    ]

    report_of_samples-FlowsFit :
        (previous current : Option (Sample Snapshot))
        → FlowsFit (report_of_samples d qsort previous current)
    report_of_samples-FlowsFit none current = no_flow-FlowsFit _ refl refl
    report_of_samples-FlowsFit (some previous) none = no_flow-FlowsFit _ refl refl
    report_of_samples-FlowsFit (some previous) (some current) =
        report_of-FlowsFit (rates_between d previous current) current.snapshot

    -- Whatever the history is: the report has at most 64 flows, and it has one exactly if its mode is one of
    -- the two estimates, by sockets or by processes.
    pub collect_bandwidth_report-FlowsFit :
        (buffer : SampleBuffer Snapshot) → FlowsFit (collect_bandwidth_report d qsort buffer)
    unfolding collect_bandwidth_report
    collect_bandwidth_report-FlowsFit buffer = elim (Bool-cases (ltb buffer.count 2)) [
      | inl e ↦ rw e (no_flow-FlowsFit _ refl refl)
      | inr e ↦
          rw e (
            report_of_samples-FlowsFit (at buffer (buffer.count - 2))
              (at buffer (buffer.count - 1)))
    ]
