-- ===== src/Netinfo/Rates/Grown.antt =====
-- What the rates of interface counters mean (`trfx_calculate_interface_rates`, src/trfx_netinfo.c).
use trafix.Prelude.{
  ℕ, zero, suc, ◌+◌, ◌≤◌, ◌<◌, Bool, true, false, List, [], ◌∷◌, ◌++◌, Option, none, some, ◌≡◌, ◌≢◌,
  ◌⊎◌, inl, inr, refl, ap, arith, take, All, Bool-cases, leb, leb→le, leb→lt, ◌==◌,
}
use trafix.Cstr.Compare.{equal_iff, equal-false}
use trafix.Cstr.{Text, clip, equal}
use trafix.Netinfo.Rates.{
  InterfaceStat, InterfaceRate, find_stat, ulong_size, sub_ulong, delta, rate_of, rates_of,
  calculate_interface_rates,
}

-- None of them has the name.
abbrev pub IsNew : Text → List InterfaceStat → Type 0
IsNew name = All (λ (s : InterfaceStat). s.name ≢ name)

-- The first of them that has the name.
abbrev pub IsFirst : Text → InterfaceStat → List InterfaceStat → Type 0
IsFirst name p stats =
    (front : List InterfaceStat) × (back : List InterfaceStat) × (stats ≡ front ++ p ∷ back)
    × IsNew name front
    × (p.name ≡ name)

-- By how much a counter has grown: not at all where it went back.
abbrev pub Growth : ℕ → ℕ → ℕ → Type 0
Growth previous current d = (previous + d ≡ current) ⊎ ((current < previous) × (d ≡ 0))

-- Both counters fit in 64 bits.
abbrev pub InRange : InterfaceStat → Type 0
InRange s = (s.rx_bytes < ulong_size) × (s.tx_bytes < ulong_size)

delta-Growth :
    (previous current : ℕ) → current < ulong_size → Growth previous current (delta current previous)
unfolding delta sub_ulong
delta-Growth previous current h = elim (Bool-cases (leb previous current)) [
  | inl e ↦ let le : previous ≤ current = leb→le previous current e in rw e (inl (omega arith))
  | inr e ↦ rw e (inr (leb→lt previous current e, refl))
]

find_stat_cases :
    (stats : List InterfaceStat) (name : Text)
    → ((find_stat stats name ≡ none) × IsNew name stats)
      ⊎ ((p : InterfaceStat) × (find_stat stats name ≡ some p) × IsFirst name p stats)
unfolding find_stat
find_stat_cases [] name = inl (refl, tt)
find_stat_cases (s ∷ stats) name = elim (Bool-cases (equal s.name name)) [
  | inl e ↦ inr (s, rw e refl, ([], stats, refl, tt, (equal_iff s.name name).0 e))
  | inr e ↦ elim (find_stat_cases stats name) [
    | inl (f, h) ↦ inl (rw e f, (equal-false s.name name e, h))
    | inr (p, f, (front, back, g, h, k)) ↦
        inr (p, rw e f, (s ∷ front, back, ap (◌∷◌ s) g, (equal-false s.name name e, h), k))
  ]
]

module _ {D : Type 0} (per_second : ℕ → D) where
  -- The rate is that of the growth of both counters since the interface was last seen, and 0 if it is new.
  abbrev pub Grown : List InterfaceStat → InterfaceStat → InterfaceRate D → Type 0
  Grown previous s r =
      (r.name ≡ clip 32 s.name)
      × ((IsNew s.name previous
            × (r.rx_bytes_per_sec ≡ per_second 0)
            × (r.tx_bytes_per_sec ≡ per_second 0))
          ⊎ ((p : InterfaceStat) × (rx : ℕ) × (tx : ℕ) × IsFirst s.name p previous
              × Growth p.rx_bytes s.rx_bytes rx
              × Growth p.tx_bytes s.tx_bytes tx
              × (r.rx_bytes_per_sec ≡ per_second rx)
              × (r.tx_bytes_per_sec ≡ per_second tx)))

  -- A rate for each interface, in their order.
  abbrev pub AllGrown : List InterfaceStat → List InterfaceStat → List (InterfaceRate D) → Type 0
  AllGrown previous [] [] = Unit
  AllGrown previous [] (r ∷ rates) = ⊥
  AllGrown previous (s ∷ current) [] = ⊥
  AllGrown previous (s ∷ current) (r ∷ rates) = Grown previous s r × AllGrown previous current rates

  rate_of-Grown :
      (previous : List InterfaceStat) (s : InterfaceStat)
      → InRange s
      → Grown previous s (rate_of per_second (find_stat previous s.name) s)
  unfolding rate_of
  rate_of-Grown previous s (hr, ht) = elim (find_stat_cases previous s.name) [
    | inl (e, h) ↦ rw e (refl, inl (h, refl, refl))
    | inr (p, e, h) ↦ rw e (
      refl,
      inr (
        p,
        delta s.rx_bytes p.rx_bytes,
        delta s.tx_bytes p.tx_bytes,
        h,
        delta-Growth p.rx_bytes s.rx_bytes hr,
        delta-Growth p.tx_bytes s.tx_bytes ht,
        refl,
        refl,
      ),
    )
  ]

  rates_of-AllGrown :
      (previous current : List InterfaceStat) (room : ℕ)
      → All InRange current
      → AllGrown previous (take room current) (rates_of per_second previous current room)
  unfolding rates_of
  rates_of-AllGrown previous [] zero h = tt
  rates_of-AllGrown previous [] (suc room) h = tt
  rates_of-AllGrown previous (s ∷ current) zero h = tt
  rates_of-AllGrown previous (s ∷ current) (suc room) (h, hs) =
      (rate_of-Grown previous s h, rates_of-AllGrown previous current room hs)

  -- No result without room or a positive time; otherwise a rate for each of the first interfaces.
  abbrev pub RatesFit :
      List InterfaceStat → List InterfaceStat → Bool → ℕ → Option (List (InterfaceRate D)) → Type 0
  RatesFit previous current elapsed max_rates none = (max_rates ≡ 0) ⊎ (elapsed ≡ false)
  RatesFit previous current elapsed max_rates (some rates) =
      (0 < max_rates) × (elapsed ≡ true) × AllGrown previous (take max_rates current) rates

  -- With counters of 64 bits: there is no result exactly without room or a positive time. Otherwise the rates are
  -- those of the first `max_rates` interfaces, in their order: of a name that was not seen before, 0; of any other
  -- the growth of each counter since the first entry of that name, or 0 where the counter went back.
  pub calculate_interface_rates-Fit :
      (previous current : List InterfaceStat) (elapsed : Bool) (max_rates : ℕ)
      → All InRange current
      → RatesFit previous current elapsed max_rates
          (calculate_interface_rates per_second previous current elapsed max_rates)
  unfolding calculate_interface_rates
  calculate_interface_rates-Fit previous current elapsed zero h = inl refl
  calculate_interface_rates-Fit previous current false (suc n) h =
      let room : (suc n == 0) ≡ false = ground arith in rw room (inr refl)
  calculate_interface_rates-Fit previous current true (suc n) h =
      let room : (suc n == 0) ≡ false = ground arith in
      rw room (omega arith, refl, rates_of-AllGrown previous current (suc n) h)
