-- ===== src/Layout/Columns.antt =====
-- What `trfx_two_column_layout_compute_geometry` (src/trfx_layout.c) computes.
use trafix.Prelude.Int.{ℤ, pos, pos_part, ◌+ℤ◌, leb_ℤ}
use trafix.Prelude.{
  ℕ, ◌+◌, ◌*◌, ◌^◌, ◌≤◌, ◌<◌, true, false, is_some, ◌&&◌, Option, none, some, ◌≡◌, ◌⊎◌, arith, leb,
}
use trafix.Layout.{
  LayoutState, Geometry, secondary_visible, primary_width_percent, used_percent, primary_width,
  place, compute_geometry,
}

percent_bounds :
    (s : Option LayoutState)
    → (0 < pos_part (primary_width_percent s)) × (pos_part (primary_width_percent s) < 100)
unfolding primary_width_percent
percent_bounds none = omega arith
percent_bounds (some s) = ground arith

used_percent_bounds :
    (s : Option LayoutState) → (0 < pos_part (used_percent s)) × (pos_part (used_percent s) < 100)
unfolding used_percent
used_percent_bounds s = ground (arith, percent_bounds s)

primary_width_bounds :
    (total percent : ℕ)
    → 90 ≤ total
    → 0 < percent
    → percent < 100
    → (0 < primary_width total percent) × (primary_width total percent < total)
unfolding primary_width
primary_width_bounds total percent h p q = ground arith

-- The two columns of a valid area: they fill its width side by side, with its height and origin.
pub record Tiles (s : Option LayoutState) (y x : ℤ) (h w : ℕ) (g : Geometry) : Type 0 where
  pub fills : g.primary_width + g.secondary_width ≡ w
  pub adjacent : g.secondary_x ≡ g.primary_x +ℤ pos g.primary_width
  pub at_x : g.primary_x ≡ x
  pub at_y : (g.primary_y ≡ y) × (g.secondary_y ≡ y)
  pub height : (g.primary_height ≡ h) × (g.secondary_height ≡ h)
  pub shown : g.secondary_visible ≡ (secondary_visible s && leb 90 w)
  pub column : (g.secondary_visible ≡ false) ⊎ ((0 < g.primary_width) × (0 < g.secondary_width))
  pub hidden : (g.secondary_visible ≡ true) ⊎ (g.secondary_width ≡ 0)

place-Tiles : (s : Option LayoutState) (y x : ℤ) (h w : ℕ) → Tiles s y x h w (place s y x h w)
unfolding place
place-Tiles s y x h w =
    ground (arith, used_percent_bounds s, primary_width_bounds w (pos_part (used_percent s)))

-- With a size that is not negative the columns fill the area side by side, and the second is shown
-- exactly if the state shows it and the width is at least 90; then both columns are at least one
-- cell wide, and otherwise the second has no width.
pub compute_geometry-Tiles :
    (s : Option LayoutState) (y x : ℤ) (h w : ℕ)
    → (g : Geometry) × (compute_geometry s y x (pos h) (pos w) ≡ some g) × Tiles s y x h w g
unfolding compute_geometry
compute_geometry-Tiles s y x h w = (place s y x h w, ground arith, place-Tiles s y x h w)

-- The geometry is refused exactly if the height or the width is negative.
pub compute_geometry-none :
    (s : Option LayoutState) (y x h w : ℤ)
    → is_some (compute_geometry s y x h w) ≡ (leb_ℤ (pos 0) h && leb_ℤ (pos 0) w)
unfolding compute_geometry
compute_geometry-none s y x h w = ground arith

-- The product `total_width * percent` of an area up to 21,000,000 cells wide fits in an `int`.
pub used_percent-no_overflow :
    (s : Option LayoutState) (w : ℕ) → w ≤ 21_000_000 → w * pos_part (used_percent s) < 2 ^ 31
used_percent-no_overflow s w h = grind (arith, used_percent_bounds s)
