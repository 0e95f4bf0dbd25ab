-- ===== src/Bandwidth/Trend.antt =====
-- `trfx_collect_bandwidth_trend` (src/trfx_bandwidth.c).
use trafix.Prelude.Int.{ℤ, pos}
use trafix.Prelude.{
  ℕ, zero, suc, ◌+◌, ◌-◌, List, [], ◌++◌, Option, some, min, ltb, ◌==◌, replicate, set,
  if◌then◌else◌,
}
use trafix.Cstr.Number.{show}
use trafix.Cstr.{Text, codes}
use trafix.Netinfo.Snapshot.{Snapshot}
use trafix.Samples.{Sample, SampleBuffer, at}
use trafix.Bandwidth.{max_trend_points, Doubles, rates_between, sum_rates, rx, tx}

pub record TrendPoint (D : Type 0) : Type 0 where
  pub captured_at : ℤ
  pub rx_bytes_per_sec : D
  pub tx_bytes_per_sec : D

-- The three arrays of four numbers are one list of four points.
pub record BandwidthTrend (D : Type 0) : Type 0 where
  pub points : List (TrendPoint D)
  pub point_count : ℕ
  pub source : Text

module _ (d : Doubles) where
  open d use {D, zero_D, one_D, of_ℕ, add, mul, div, less, not_positive, difftime}

  unfoldable pub init_bandwidth_trend : BandwidthTrend D
  init_bandwidth_trend = record {
    points =
        replicate max_trend_points
          record { captured_at = pos 0; rx_bytes_per_sec = zero_D; tx_bytes_per_sec = zero_D };
    point_count = 0;
    source = codes "sample history unavailable";
  }

  unfoldable pub trend_point : Sample Snapshot → Sample Snapshot → TrendPoint D
  unfolding rates_between sum_rates
  trend_point previous current =
      let rates = rates_between d previous current in
      record {
        captured_at = current.captured_at;
        rx_bytes_per_sec = sum_rates d (rx d) zero_D rates;
        tx_bytes_per_sec = sum_rates d (tx d) zero_D rates;
      }

  -- One round of the loop.
  unfoldable pub add_point :
      BandwidthTrend D → ℕ → Option (Sample Snapshot) → Option (Sample Snapshot) → BandwidthTrend D
  unfolding trend_point
  add_point trend i (some previous) (some current) = record trend {
    points = set trend.points i (trend_point previous current);
    point_count = suc i;
  }
  add_point trend i _ _ = trend

  -- The rounds for `i` and the next ones, `n` in all.
  unfoldable pub add_points :
      SampleBuffer Snapshot → ℕ → ℕ → ℕ → BandwidthTrend D → BandwidthTrend D
  unfolding add_point
  add_points buffer start i zero trend = trend
  add_points buffer start i (suc n) trend =
      add_points buffer start (suc i) n
        (add_point trend i (at buffer (start + i)) (at buffer (start + i + 1)))

  abbrev with_trend_source : BandwidthTrend D → BandwidthTrend D
  with_trend_source trend = record trend {
    source =
        codes "recent "
        ++ (show trend.point_count
            ++ (codes " sample" ++ (if trend.point_count == 1 then [] else codes "s")));
  }

  unfoldable pub collect_bandwidth_trend : SampleBuffer Snapshot → BandwidthTrend D
  unfolding add_points init_bandwidth_trend
  collect_bandwidth_trend buffer =
      if ltb buffer.count 2
      then record init_bandwidth_trend {
        source = codes "need at least two samples for trend rendering";
      }
      else let point_count = min max_trend_points (buffer.count - 1) in
        with_trend_source
          (add_points buffer (buffer.count - point_count - 1) 0 point_count init_bandwidth_trend)
