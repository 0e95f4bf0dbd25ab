-- ===== src/SupportViews.antt =====
-- The support views and the selected one (include/trfx_support_views.h, src/trfx_support_views.c).
-- A setter and `consume_refresh_request` return the new state of the two static variables, which
-- the lock guards for each whole call.
pub mod Cycle
pub mod Selected
use Prim.Native.String.{String}
use trafix.Prelude.Int.{ℤ, pos, negsuc, pos_part, neg_part, ◌+ℤ◌, ltb_ℤ, leb_ℤ}
use trafix.Prelude.{
  ℕ, zero, suc, ◌+◌, Bool, true, false, List, [], ◌∷◌, ◌++◌, Option, none, some, ◌≡◌, refl, leb,
  length, get_elem?, if◌then◌else◌, ◌==◌,
}
use trafix.Cstr.{Text, codes, clip}

pub data ViewId : Type 0 where
  overview logs diagnostics route_dns network_health bandwidth connection_detail action_audit :
      ViewId

pub record ViewSpec : Type 0 where
  pub id : ViewId
  pub title : Text
  pub description : Text

abbrev view : ViewId → String → String → ViewSpec
view id title description = record { id = id; title = codes title; description = codes description }

abbrev pub support_views : List ViewSpec
support_views =
    view overview "Overview" "Network overview."
    ∷ view logs "Logs" "Recent log lines and troubleshooting output."
    ∷ view diagnostics "Diagnostics" "Collected network, system, and alert correlation."
    ∷ view route_dns "Route and DNS" "Default route, DNS, and active interface consistency."
    ∷ view network_health "Network Health" "CPU, memory, disk, and network pressure correlation."
    ∷ view bandwidth "Bandwidth Detail" "Focused top-flow bandwidth and recent trend detail."
    ∷ view connection_detail "Connection Detail" "Focused connection ownership and activity detail."
    ∷ view action_audit "Action Audit" "Recent kill, drop, and review actions."
    ∷ []

abbrev pub view_count : ℕ
view_count = 8

view_count_lem : length support_views ≡ view_count
view_count_lem = refl

abbrev pub default_index : ℕ
default_index = 0

unfoldable pub spec_at : ℕ → Option ViewSpec
spec_at index = if leb view_count index then none else get_elem? support_views index

-- The numbers of the enumeration.
abbrev pub id_number : ViewId → ℕ
id_number overview = 0
id_number logs = 1
id_number diagnostics = 2
id_number route_dns = 3
id_number network_health = 4
id_number bandwidth = 5
id_number connection_detail = 6
id_number action_audit = 7

unfoldable pub view_default : Option ViewSpec
unfolding spec_at
view_default = spec_at default_index

find_index : ViewId → List ViewSpec → ℕ → Option ℕ
find_index id [] i = none
find_index id (v ∷ vs) i =
    let rest = find_index id vs (i + 1) in if id_number v.id == id_number id then some i else rest

unfoldable pub index_for_id : ViewId → ℕ
unfolding find_index
index_for_id id = elim (find_index id support_views 0) [ some i ↦ i | none ↦ default_index ]

find_spec : ViewId → List ViewSpec → Option ViewSpec
find_spec id [] = none
find_spec id (v ∷ vs) =
    let rest = find_spec id vs in if id_number v.id == id_number id then some v else rest

unfoldable pub view_by_id : ViewId → Option ViewSpec
unfolding find_spec
view_by_id id = find_spec id support_views

unfoldable pub id_at : ℕ → ViewId
unfolding spec_at
id_at index = elim (spec_at index) [ some spec ↦ spec.id | none ↦ overview ]

-- `while (next_index < 0) next_index += count`
unfoldable pub raise : ℕ → ℤ → ℤ
raise zero i = i
raise (suc fuel) i = elim (ltb_ℤ i (pos 0)) [ true ↦ raise fuel (i +ℤ pos view_count) | false ↦ i ]

-- `while (next_index >= count) next_index -= count`
unfoldable pub lower : ℕ → ℤ → ℤ
lower zero i = i
lower (suc fuel) i = elim (leb_ℤ (pos view_count) i) [
  | true ↦ lower fuel (i +ℤ negsuc 7)
  | false ↦ i
]

abbrev pub fuel_of : ℤ → ℕ
fuel_of i = pos_part i + neg_part i + 1

-- Both loops, one after the other.
unfoldable pub settle : ℤ → ℕ
settle i = let raised = raise (fuel_of i) i in pos_part (lower (fuel_of raised) raised)

unfoldable pub next_index : ℕ → ℤ → ℕ
next_index current delta =
    settle (pos (if leb view_count current then default_index else current) +ℤ delta)

pub record Selection : Type 0 where
  pub selected_index_value : ℕ
  pub refresh_requested : Bool

unfoldable pub selected_index : Selection → ℕ
selected_index s =
    if leb view_count s.selected_index_value then default_index else s.selected_index_value

unfoldable pub view_selected : Selection → Option ViewSpec
view_selected s = spec_at (selected_index s)

unfoldable pub set_selected_index : ℕ → Selection → Selection
set_selected_index index s = record {
  selected_index_value = next_index index (pos 0);
  refresh_requested = true;
}

unfoldable pub cycle_selected_index : ℤ → Selection → Selection × ℕ
cycle_selected_index delta s =
    let next = next_index s.selected_index_value delta in
    (record { selected_index_value = next; refresh_requested = true }, next)

unfoldable pub request_refresh : Selection → Selection
request_refresh s = record s { refresh_requested = true }

unfoldable pub consume_refresh_request : Selection → Selection × Bool
consume_refresh_request s = (record s { refresh_requested = false }, s.refresh_requested)

-- `snprintf` into a buffer of `size > 0` bytes; no spec is a null pointer.
unfoldable pub format_selector_line : Option ViewSpec → Bool → ℕ → Text
format_selector_line none compact size = clip size (codes "Unknown view")
format_selector_line (some spec) compact size =
    if compact
    then clip size spec.title
    else clip size (spec.title ++ codes " - " ++ spec.description)
