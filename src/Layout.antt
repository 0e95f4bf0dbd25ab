-- ===== src/Layout.antt =====
-- The two-column layout (include/trfx_layout.h, src/trfx_layout.c). A null `state` is `none`; the
-- flags hold 0 or 1 and are `Bool`s. `compute_geometry` returns the geometry that it fills in, or
-- `none` where it returns 0.
pub mod Columns
use trafix.Prelude.Int.{ℤ, pos, pos_part, ◌+ℤ◌, ltb_ℤ, leb_ℤ}
use trafix.Prelude.{
  ℕ, ◌+◌, ◌-◌, ◌*◌, ◌/◌, Bool, true, false, not, ◌&&◌, ◌||◌, Option, none, some, ltb, leb, ◌==◌,
  if◌then◌else◌,
}

pub record LayoutState : Type 0 where
  pub secondary_visible : Bool
  pub primary_width_percent : ℤ
  pub secondary_width_percent : ℤ
  pub secondary_state_index : ℤ

pub record Geometry : Type 0 where
  pub primary_x : ℤ
  pub primary_y : ℤ
  pub primary_width : ℕ
  pub primary_height : ℕ
  pub secondary_x : ℤ
  pub secondary_y : ℤ
  pub secondary_width : ℕ
  pub secondary_height : ℕ
  pub secondary_visible : Bool

unfoldable pub clamp_percent : ℤ → ℤ → ℤ
clamp_percent value fallback =
    if leb_ℤ value (pos 0) || leb_ℤ (pos 100) value then fallback else value

unfoldable pub init : LayoutState
init = record {
  secondary_visible = true;
  primary_width_percent = pos 70;
  secondary_width_percent = pos 30;
  secondary_state_index = pos 0;
}

unfoldable pub secondary_visible : Option LayoutState → Bool
secondary_visible none = false
secondary_visible (some s) = s.secondary_visible

unfoldable pub set_secondary_visible : LayoutState → Bool → LayoutState
set_secondary_visible s visible = record s { secondary_visible = visible }

unfoldable pub toggle_secondary : LayoutState → LayoutState
toggle_secondary s = record s { secondary_visible = not s.secondary_visible }

unfoldable pub primary_width_percent : Option LayoutState → ℤ
unfolding clamp_percent
primary_width_percent none = pos 70
primary_width_percent (some s) = clamp_percent s.primary_width_percent (pos 70)

unfoldable pub secondary_width_percent : Option LayoutState → ℤ
unfolding clamp_percent
secondary_width_percent none = pos 30
secondary_width_percent (some s) = clamp_percent s.secondary_width_percent (pos 30)

abbrev at_least_zero : ℤ → ℤ
at_least_zero i = if ltb_ℤ i (pos 0) then pos 0 else i

unfoldable pub secondary_state_index : Option LayoutState → ℤ
secondary_state_index none = pos 0
secondary_state_index (some s) = at_least_zero s.secondary_state_index

unfoldable pub set_secondary_state_index : LayoutState → ℤ → LayoutState
set_secondary_state_index s i = record s { secondary_state_index = at_least_zero i }

-- The percentage that is used: the fallback of `primary_percent + secondary_percent <= 0`.
unfoldable pub used_percent : Option LayoutState → ℤ
used_percent s =
    if leb_ℤ (primary_width_percent s +ℤ secondary_width_percent s) (pos 0)
    then pos 70
    else primary_width_percent s

-- `(total_width * percent) / 100`, at least 1, and below the total if there is room. The factors are
-- not negative, so the division is that of ℕ.
unfoldable pub primary_width : ℕ → ℕ → ℕ
primary_width total percent =
    let w = total * percent / 100 in
    let at_least = if ltb w 1 then 1 else w in
    if leb total at_least && ltb 1 total then total - 1 else at_least

-- Behind the test of the arguments. `secondary_width < 0` becomes 0, as `-` on ℕ does.
unfoldable pub place : Option LayoutState → ℤ → ℤ → ℕ → ℕ → Geometry
place s origin_y origin_x height width =
    let primary = primary_width width (pos_part (used_percent s)) in
    let both : Geometry = record {
      primary_x = origin_x;
      primary_y = origin_y;
      primary_width = primary;
      primary_height = height;
      secondary_x = origin_x +ℤ pos primary;
      secondary_y = origin_y;
      secondary_width = width - primary;
      secondary_height = height;
      secondary_visible = secondary_visible s;
    } in
    let single : Geometry = record {
      primary_x = origin_x;
      primary_y = origin_y;
      primary_width = width;
      primary_height = height;
      secondary_x = origin_x +ℤ pos width;
      secondary_y = origin_y;
      secondary_width = 0;
      secondary_height = height;
      secondary_visible = false;
    } in
    if not (secondary_visible s) || ltb width 90 || width == 0 then single else both

unfoldable pub compute_geometry : Option LayoutState → ℤ → ℤ → ℤ → ℤ → Option Geometry
unfolding place
compute_geometry s origin_y origin_x total_height total_width =
    if ltb_ℤ total_height (pos 0) || ltb_ℤ total_width (pos 0)
    then none
    else some (place s origin_y origin_x (pos_part total_height) (pos_part total_width))
