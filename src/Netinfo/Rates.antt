-- ===== src/Netinfo/Rates.antt =====
-- The rates of interface counters (`find_stat` and `trfx_calculate_interface_rates`, src/trfx_netinfo.c).
-- A rate is `(double)delta / elapsed_seconds`: the division is a function that a caller supplies, and
-- `elapsed` tells whether `elapsed_seconds` is positive. The arrays are lists, of the given counts. A counter
-- is an `unsigned long` of 64 bits.
pub mod Grown
use trafix.Prelude.{
  ℕ, zero, suc, ◌+◌, ◌-◌, ◌^◌, ◌%◌, Bool, not, ◌||◌, List, [], ◌∷◌, Option, none, some, leb, ◌==◌,
  if◌then◌else◌,
}
use trafix.Cstr.{Text, clip, equal}

pub record InterfaceStat : Type 0 where
  pub name : Text
  pub rx_bytes : ℕ
  pub tx_bytes : ℕ

pub record InterfaceRate (D : Type 0) : Type 0 where
  pub name : Text
  pub rx_bytes_per_sec : D
  pub tx_bytes_per_sec : D

unfoldable pub find_stat : List InterfaceStat → Text → Option InterfaceStat
find_stat [] name = none
find_stat (s ∷ stats) name =
    let rest = find_stat stats name in if equal s.name name then some s else rest

abbrev pub ulong_size : ℕ
ulong_size = 2 ^ 64

-- Subtraction of `unsigned long`, which wraps around.
unfoldable pub sub_ulong : ℕ → ℕ → ℕ
sub_ulong a b = (a + (ulong_size - b)) % ulong_size

-- 0 where the counter went back.
unfoldable pub delta : ℕ → ℕ → ℕ
unfolding sub_ulong
delta current previous = if leb previous current then sub_ulong current previous else 0

module _ {D : Type 0} (per_second : ℕ → D) where
  unfoldable pub rate_of : Option InterfaceStat → InterfaceStat → InterfaceRate D
  unfolding delta
  rate_of none s = record {
    name = clip 32 s.name;
    rx_bytes_per_sec = per_second 0;
    tx_bytes_per_sec = per_second 0;
  }
  rate_of (some p) s = record {
    name = clip 32 s.name;
    rx_bytes_per_sec = per_second (delta s.rx_bytes p.rx_bytes);
    tx_bytes_per_sec = per_second (delta s.tx_bytes p.tx_bytes);
  }

  -- The loop, while there is room for `room` rates.
  unfoldable pub rates_of : List InterfaceStat → List InterfaceStat → ℕ → List (InterfaceRate D)
  unfolding rate_of find_stat
  rates_of previous [] room = []
  rates_of previous (s ∷ current) zero = []
  rates_of previous (s ∷ current) (suc room) =
      rate_of (find_stat previous s.name) s ∷ rates_of previous current room

  -- The rates that are written, or -1.
  unfoldable pub calculate_interface_rates :
      List InterfaceStat → List InterfaceStat → Bool → ℕ → Option (List (InterfaceRate D))
  unfolding rates_of
  calculate_interface_rates previous current elapsed max_rates =
      if max_rates == 0 || not elapsed then none else some (rates_of previous current max_rates)
