-- ===== src/Bandwidth/Report.antt =====
-- `trfx_collect_bandwidth_report` (src/trfx_bandwidth.c): the flows of the connections with an owner, or of the
-- processes that own sockets, or of the interfaces alone.
pub mod Flows
use Prim.Native.Nat.{compare, Ordering}
use trafix.Prelude.Int.{ℤ, pos, negsuc}
use trafix.Prelude.{
  ℕ, zero, suc, ◌+◌, ◌-◌, Bool, true, false, not, ◌&&◌, ◌||◌, List, [], ◌∷◌, ◌++◌, Option, none,
  some, min, ltb, leb, ◌==◌, ◌≡◌, ◌∙◌, ◌≤◌, ◌<◌, inl, inr, refl, ap, arith, Bool-cases, length,
  replicate, take, if◌then◌else◌,
}
use trafix.Cstr.Number.{show}
use trafix.Cstr.Sort.{Qsort, perm-length}
use trafix.Cstr.{Text, codes, clip, equal, is}
use trafix.Actions.Requests.{ConnectionInfo, SocketOwnerInfo}
use trafix.Netinfo.Rates.{InterfaceRate, InterfaceStat, calculate_interface_rates}
use trafix.Netinfo.Snapshot.{Snapshot}
use trafix.Samples.{Sample, SampleBuffer, at}
use trafix.Bandwidth.{
  max_bandwidth_flows, max_trend_points, Doubles, BandwidthMode, bandwidth_mode_name, BandwidthFlow,
  BandwidthReport, strcmp, connection_has_owner, format_connection_label, rates_between, sum_rates,
  rx, tx,
}
use BandwidthMode.{unsupported, interface_fallback, process_estimated, socket_estimated}
use trafix.Bandwidth.Groups.{ProcessGroup, group_owners, group_owners-Counts}

unfoldable pub count_owned : List ConnectionInfo → ℕ
unfolding connection_has_owner
count_owned [] = 0
count_owned (c ∷ connections) =
    if connection_has_owner c then suc (count_owned connections) else count_owned connections

module _ (d : Doubles) where
  open d use {D, zero_D, one_D, of_ℕ, add, mul, div, less, not_positive, difftime}

  unfoldable pub compare_bandwidth_flows : BandwidthFlow D → BandwidthFlow D → ℤ
  unfolding strcmp
  compare_bandwidth_flows a b =
      let total_a = add a.rx_bytes_per_sec a.tx_bytes_per_sec in
      let total_b = add b.rx_bytes_per_sec b.tx_bytes_per_sec in
      if less total_a total_b
      then pos 1
      else if less total_b total_a
      then negsuc 0
      else strcmp a.label b.label

  abbrev pub init_bandwidth_report : BandwidthReport D
  init_bandwidth_report = record {
    mode = unsupported;
    source = codes "insufficient samples";
    interface_rates = [];
    flows = [];
  }

  module _ (rx_share tx_share : D) (owned_count : ℕ) where
    -- The flow number `out` of a connection.
    unfoldable pub socket_flow : ℕ → ConnectionInfo → BandwidthFlow D
    unfolding format_connection_label
    socket_flow out c = record {
      label = format_connection_label c;
      pid = clip 16 c.pid;
      process = clip 64 c.process;
      local = clip 64 c.local_addr;
      remote = clip 64 c.remote_addr;
      proto = clip 8 c.protocol;
      detail = clip 64 (codes "socket " ++ (show out ++ (codes "/" ++ show owned_count)));
      rx_bytes_per_sec = rx_share;
      tx_bytes_per_sec = tx_share;
    }

    -- The loop, with `out` flows written and room for `room` more.
    unfoldable pub socket_flows : ℕ → ℕ → List ConnectionInfo → List (BandwidthFlow D)
    unfolding socket_flow connection_has_owner
    socket_flows out room [] = []
    socket_flows out zero (c ∷ connections) = []
    socket_flows out (suc room) (c ∷ connections) =
        let written = socket_flow (suc out) c ∷ socket_flows (suc out) room connections in
        let skipped = socket_flows out (suc room) connections in
        if connection_has_owner c then written else skipped

  module _ (total_rx total_tx : D) (total_sockets : ℕ) where
    unfoldable pub group_flow : ProcessGroup → BandwidthFlow D
    group_flow g =
        let share = div (of_ℕ g.socket_count) (of_ℕ total_sockets) in
        record {
          label = take 63 g.process;
          pid = take 15 g.pid;
          process = take 63 g.process;
          local = [];
          remote = [];
          proto = [];
          detail = clip 64 (show g.socket_count ++ codes " sockets");
          rx_bytes_per_sec = mul total_rx share;
          tx_bytes_per_sec = mul total_tx share;
        }

    unfoldable pub group_flows : List ProcessGroup → List (BandwidthFlow D)
    unfolding group_flow
    group_flows [] = []
    group_flows (g ∷ groups) = group_flow g ∷ group_flows groups

  module _ (qsort : Qsort (BandwidthFlow D)) where
    unfoldable pub sort_bandwidth_flows : List (BandwidthFlow D) → List (BandwidthFlow D)
    unfolding compare_bandwidth_flows
    sort_bandwidth_flows flows =
        if leb (length flows) 1 then flows else qsort.sort compare_bandwidth_flows flows

    abbrev estimated_source : Text
    estimated_source = codes "estimated from interface deltas and socket ownership"

    -- The last part: by the interfaces alone.
    abbrev fallback : List (InterfaceRate D) → BandwidthReport D
    fallback rates = record {
      mode = interface_fallback;
      source = codes "interface-level fallback only";
      interface_rates = rates;
      flows = [];
    }

    abbrev pub by_groups :
        List (InterfaceRate D) → D → D → List ProcessGroup × ℕ → BandwidthReport D
    by_groups rates total_rx total_tx (groups, total_sockets) =
        if length groups == 0 || total_sockets == 0 then fallback rates else record {
          mode = process_estimated;
          source = estimated_source;
          interface_rates = rates;
          flows = sort_bandwidth_flows (group_flows total_rx total_tx total_sockets groups);
        }

    unfoldable pub report_of : List (InterfaceRate D) → Snapshot → BandwidthReport D
    unfolding sum_rates sort_bandwidth_flows socket_flows group_flows group_owners count_owned
    report_of rates s =
        let total_rx = sum_rates d (rx d) zero_D rates in
        let total_tx = sum_rates d (tx d) zero_D rates in
        let owned = count_owned s.connections in
        if not (owned == 0)
        then record {
          mode = socket_estimated;
          source = estimated_source;
          interface_rates = rates;
          flows = sort_bandwidth_flows (
              socket_flows (div total_rx (of_ℕ owned)) (div total_tx (of_ℕ owned)) owned 0
                max_bandwidth_flows s.connections);
        }
        else by_groups rates total_rx total_tx (group_owners ([], 0) s.socket_owners)

    abbrev pub report_of_samples :
        Option (Sample Snapshot) → Option (Sample Snapshot) → BandwidthReport D
    report_of_samples (some previous) (some current) =
        report_of (rates_between d previous current) current.snapshot
    report_of_samples _ _ = record init_bandwidth_report {
      source = codes "sample history unavailable";
    }

    unfoldable pub collect_bandwidth_report : SampleBuffer Snapshot → BandwidthReport D
    unfolding report_of rates_between
    collect_bandwidth_report buffer =
        if ltb buffer.count 2
        then record init_bandwidth_report {
          source = codes "need at least two samples for bandwidth estimates";
        }
        else report_of_samples (at buffer (buffer.count - 2)) (at buffer (buffer.count - 1))
