-- ===== src/Dashboard/Frame.antt =====
-- The sizes of the panels (`compute_dashboard_layout`, src/trfx_dashboard.c). The size of the screen, which
-- ncurses gives, is not negative; for such an `int` the products with 0.25 and 0.20, cut to an `int`, are the
-- quotients by 4 and 5.
use trafix.Prelude.Int.{pos}
use trafix.Prelude.{
  ℕ, ◌+◌, ◌-◌, ◌/◌, ◌≤◌, Bool, true, false, ◌||◌, Option, none, some, ◌≡◌, refl, arith, ltb,
  if◌then◌else◌, Bool-cases, inl, inr,
}
use trafix.Layout.{LayoutState, Geometry, compute_geometry}
use trafix.Layout.Columns.{Tiles, compute_geometry-Tiles}

abbrev pub fixed_row1_height : ℕ
fixed_row1_height = 11

abbrev pub min_row2_height : ℕ
min_row2_height = 3

abbrev pub min_tui_width : ℕ
min_tui_width = 50

abbrev pub top_height : Bool → ℕ
top_height show_top_panels = if show_top_panels then fixed_row1_height else 0

unfoldable pub calculate_row2_height : Bool → ℕ → ℕ
calculate_row2_height show_top_panels screen_height =
    let row2_height = screen_height - top_height show_top_panels in
    if ltb row2_height min_row2_height then min_row2_height else row2_height

unfoldable pub calculate_row2_y : Bool → ℕ
calculate_row2_y show_top_panels = top_height show_top_panels

unfoldable pub tui_size_is_too_small : Bool → ℕ → ℕ → Bool
tui_size_is_too_small show_top_panels screen_height screen_width =
    ltb screen_width min_tui_width
    || ltb screen_height (top_height show_top_panels + min_row2_height)

pub record RowWidths : Type 0 where
  pub sys : ℕ
  pub cpu : ℕ
  pub mem : ℕ
  pub disk : ℕ

unfoldable pub calculate_row1_widths : ℕ → RowWidths
calculate_row1_widths screen_width = record {
  sys = screen_width / 4;
  cpu = screen_width / 5;
  mem = screen_width / 4;
  disk = screen_width - screen_width / 4 - screen_width / 5 - screen_width / 4;
}

-- The geometry of the lower row is `none` where `trfx_two_column_layout_compute_geometry` writes none.
pub record DashboardLayoutGeometry : Type 0 where
  pub screen_height : ℕ
  pub screen_width : ℕ
  pub row1_height : ℕ
  pub row2_height : ℕ
  pub row2_y : ℕ
  pub row1_widths : RowWidths
  pub row2_geometry : Option Geometry

unfoldable pub compute_dashboard_layout :
    Bool → LayoutState → ℕ → ℕ → Option DashboardLayoutGeometry
unfolding calculate_row2_height calculate_row2_y tui_size_is_too_small calculate_row1_widths
compute_dashboard_layout show_top_panels state screen_height screen_width =
    if tui_size_is_too_small show_top_panels screen_height screen_width
    then none
    else some (record {
      screen_height = screen_height;
      screen_width = screen_width;
      row1_height = top_height show_top_panels;
      row2_height = calculate_row2_height show_top_panels screen_height;
      row2_y = calculate_row2_y show_top_panels;
      row1_widths = calculate_row1_widths screen_width;
      row2_geometry =
          compute_geometry (some state) (pos (calculate_row2_y show_top_panels)) (pos 0)
            (pos (calculate_row2_height show_top_panels screen_height)) (pos screen_width);
    })

-- Two rows fill the height, and the panels of each its width.
pub record Fills (state : LayoutState) (height width : ℕ) (l : DashboardLayoutGeometry)
    : Type 0 where
  pub rows : l.row1_height + l.row2_height ≡ height
  pub below : l.row2_y ≡ l.row1_height
  pub room : min_row2_height ≤ l.row2_height
  pub panels :
      l.row1_widths.sys + l.row1_widths.cpu + l.row1_widths.mem + l.row1_widths.disk ≡ width
  pub last_panel : 10 ≤ l.row1_widths.disk
  pub geometry : Geometry
  pub written : l.row2_geometry ≡ some geometry
  pub columns : Tiles (some state) (pos l.row2_y) (pos 0) l.row2_height width geometry

abbrev pub FillsOrTooSmall : Bool → LayoutState → ℕ → ℕ → Option DashboardLayoutGeometry → Type 0
FillsOrTooSmall show_top_panels state height width none =
    tui_size_is_too_small show_top_panels height width ≡ true
FillsOrTooSmall show_top_panels state height width (some l) = Fills state height width l

row2_height_lem :
    (show_top_panels : Bool) (height : ℕ)
    → top_height show_top_panels + min_row2_height ≤ height
    → (top_height show_top_panels + calculate_row2_height show_top_panels height ≡ height)
      × (min_row2_height ≤ calculate_row2_height show_top_panels height)
unfolding calculate_row2_height
row2_height_lem show_top_panels height h = ground arith

row1_widths_lem :
    (width : ℕ)
    → min_tui_width ≤ width
    → (width / 4 + width / 5 + width / 4 + (width - width / 4 - width / 5 - width / 4) ≡ width)
      × (10 ≤ width - width / 4 - width / 5 - width / 4)
row1_widths_lem width h = (omega arith, omega arith)

large_enough :
    (show_top_panels : Bool) (height width : ℕ)
    → tui_size_is_too_small show_top_panels height width ≡ false
    → (top_height show_top_panels + min_row2_height ≤ height) × (min_tui_width ≤ width)
unfolding tui_size_is_too_small
large_enough show_top_panels height width h = ground arith

-- On any screen: it is too small, and no layout is computed; or the two rows of panels fill its height, with at
-- least three lines for the lower row, the four panels of the upper row fill its width, the last of them with
-- at least ten cells, and the columns of the lower row fill it side by side.
pub compute_dashboard_layout-Fills :
    (show_top_panels : Bool) (state : LayoutState) (height width : ℕ)
    → FillsOrTooSmall show_top_panels state height width
        (compute_dashboard_layout show_top_panels state height width)
unfolding compute_dashboard_layout
compute_dashboard_layout-Fills top state height width =
    elim (Bool-cases (tui_size_is_too_small top height width)) [
      | inl e ↦ rw e e
      | inr e ↦
          let (tall, wide) = large_enough top height width e in
          let (rows, room) = row2_height_lem top height tall in
          let (panels, last_panel) = row1_widths_lem width wide in
          let (geometry, written, columns) =
            compute_geometry-Tiles (some state) (pos (calculate_row2_y top)) (pos 0)
              (calculate_row2_height top height) width in
          rw e record {
            rows = rows;
            below = refl;
            room = room;
            panels = panels;
            last_panel = last_panel;
            geometry = geometry;
            written = written;
            columns = columns;
          }
    ]
