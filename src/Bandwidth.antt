-- ===== src/Bandwidth.antt =====
-- Bandwidth (include/trfx_bandwidth.h, src/trfx_bandwidth.c): the types of the report, and what the groups, the
-- report and the trend share. Floating-point numbers are a type with the operations that the code uses,
-- `Doubles`. Arrays with a count are lists, so the report's counts are the lengths of its lists.
pub mod Groups
pub mod Report
pub mod Trend
use Prim.Native.Nat.{compare, Ordering}
use trafix.Prelude.Int.{ℤ, pos, negsuc}
use trafix.Prelude.{
  ℕ, zero, suc, ◌+◌, ◌-◌, Bool, true, false, not, ◌&&◌, ◌||◌, List, [], ◌∷◌, ◌++◌, Option, none,
  some, min, ltb, leb, ◌==◌, length, replicate, take, if◌then◌else◌,
}
use trafix.Cstr.Number.{show}
use trafix.Cstr.Sort.{Qsort}
use trafix.Cstr.{Text, codes, clip, equal, is}
use trafix.Actions.Requests.{ConnectionInfo, SocketOwnerInfo}
use trafix.Netinfo.Rates.{InterfaceRate, InterfaceStat, calculate_interface_rates}
use trafix.Netinfo.Snapshot.{Snapshot}
use trafix.Samples.{Sample, SampleBuffer, at}

abbrev pub max_bandwidth_flows : ℕ
max_bandwidth_flows = 64

abbrev pub max_trend_points : ℕ
max_trend_points = 4

pub record Doubles : Type 1 where
  pub D : Type 0
  pub zero_D : D
  pub one_D : D
  pub of_ℕ : ℕ → D
  pub add : D → D → D
  pub mul : D → D → D
  pub div : D → D → D
  -- `a < b`
  pub less : D → D → Bool
  -- `a <= 0.0`
  pub not_positive : D → Bool
  pub difftime : ℤ → ℤ → D

pub data BandwidthMode : Type 0 where
  unsupported interface_fallback process_estimated socket_estimated : BandwidthMode

unfoldable pub bandwidth_mode_name : BandwidthMode → Text
bandwidth_mode_name interface_fallback = codes "interface fallback"
bandwidth_mode_name process_estimated = codes "process estimated"
bandwidth_mode_name socket_estimated = codes "socket estimated"
bandwidth_mode_name unsupported = codes "unsupported"

pub record BandwidthFlow (D : Type 0) : Type 0 where
  pub label : Text
  pub pid : Text
  pub process : Text
  pub local : Text
  pub remote : Text
  pub proto : Text
  pub detail : Text
  pub rx_bytes_per_sec : D
  pub tx_bytes_per_sec : D

pub record BandwidthReport (D : Type 0) : Type 0 where
  pub mode : BandwidthMode
  pub source : Text
  pub interface_rates : List (InterfaceRate D)
  pub flows : List (BandwidthFlow D)

-- The sign of `strcmp`.
unfoldable pub strcmp : Text → Text → ℤ
strcmp [] [] = pos 0
strcmp [] (y ∷ b) = negsuc 0
strcmp (x ∷ a) [] = pos 1
strcmp (x ∷ a) (y ∷ b) = elim (compare x y) [
  | Ordering.lt ↦ negsuc 0
  | Ordering.eq ↦ strcmp a b
  | Ordering.gt ↦ pos 1
]

unfoldable pub connection_has_owner : ConnectionInfo → Bool
connection_has_owner c = not (is c.pid "-") || not (is c.process "-")

unfoldable pub format_connection_label : ConnectionInfo → Text
format_connection_label c =
    clip 128 (c.protocol ++ (codes " " ++ (c.local_addr ++ (codes " -> " ++ c.remote_addr))))

module _ (d : Doubles) where
  open d use {D, zero_D, one_D, of_ℕ, add, mul, div, less, not_positive, difftime}

  -- `sum_interface_rate` and `sum_rate_bytes`, which are the same.
  unfoldable pub sum_rates : (InterfaceRate D → D) → D → List (InterfaceRate D) → D
  sum_rates rate total [] = total
  sum_rates rate total (r ∷ rates) = sum_rates rate (add total (rate r)) rates

  abbrev pub rx : InterfaceRate D → D
  rx r = r.rx_bytes_per_sec

  abbrev pub tx : InterfaceRate D → D
  tx r = r.tx_bytes_per_sec

  abbrev rates_or_none : Option (List (InterfaceRate D)) → List (InterfaceRate D)
  rates_or_none none = []
  rates_or_none (some rates) = rates

  -- The rates between two samples.
  unfoldable pub rates_between : Sample Snapshot → Sample Snapshot → List (InterfaceRate D)
  rates_between previous current =
      let measured = difftime current.captured_at previous.captured_at in
      let elapsed = if not_positive measured then one_D else measured in
      rates_or_none (
        calculate_interface_rates (λ n. div (of_ℕ n) elapsed) previous.snapshot.interfaces.stats
          current.snapshot.interfaces.stats (not (not_positive elapsed)) 20)
