-- ===== src/SupportViews/Selected.antt =====
-- The selected view over any calls (src/trfx_support_views.c).
use trafix.Prelude.Int.{ℤ, pos, negsuc}
use trafix.Prelude.{ℕ, zero, suc, ◌<◌, true, List, [], ◌∷◌, ◌≡◌, refl, arith, is_some}
use trafix.SupportViews.Cycle.{next_index_mod, next_index-lt}
use trafix.SupportViews.{
  ViewId, overview, Selection, view_count, view_selected, spec_at, selected_index,
  set_selected_index, cycle_selected_index, request_refresh, consume_refresh_request, index_for_id,
  id_at, view_by_id, next_index,
}

pub data Call : Type 0 where
  select_call : ℕ → Call
  cycle_call : ℤ → Call
  refresh_call consume_call : Call

unfoldable pub step : Selection → Call → Selection
unfolding set_selected_index cycle_selected_index request_refresh consume_refresh_request
step s (select_call i) = set_selected_index i s
step s (cycle_call d) = (cycle_selected_index d s).0
step s refresh_call = request_refresh s
step s consume_call = (consume_refresh_request s).0

abbrev pub run : Selection → List Call → Selection
run s [] = s
run s (c ∷ cs) = run (step s c) cs

abbrev pub InRange : Selection → Type 0
InRange s = s.selected_index_value < view_count

step-InRange : (s : Selection) (c : Call) → InRange s → InRange (step s c)
unfolding step
step-InRange s (select_call i) h = next_index-lt i (pos 0)
step-InRange s (cycle_call d) h = next_index-lt s.selected_index_value d
step-InRange s refresh_call h = h
step-InRange s consume_call h = h

spec_at-some : (i : ℕ) → i < view_count → is_some (spec_at i) ≡ true
unfolding spec_at
spec_at-some zero h = refl
spec_at-some (suc zero) h = refl
spec_at-some (suc (suc zero)) h = refl
spec_at-some (suc (suc (suc zero))) h = refl
spec_at-some (suc (suc (suc (suc zero)))) h = refl
spec_at-some (suc (suc (suc (suc (suc zero))))) h = refl
spec_at-some (suc (suc (suc (suc (suc (suc zero)))))) h = refl
spec_at-some (suc (suc (suc (suc (suc (suc (suc zero))))))) h = refl
spec_at-some (suc (suc (suc (suc (suc (suc (suc (suc i)))))))) h = absurd (omega arith)

selected_index-lt : (s : Selection) → selected_index s < view_count
unfolding selected_index
selected_index-lt s = ground arith

-- Through any calls the stored index stays in range, and the selected view is there.
pub run-InRange :
    (cs : List Call) (s : Selection)
    → InRange s
    → InRange (run s cs) × (is_some (view_selected (run s cs)) ≡ true)
unfolding view_selected
run-InRange [] s h = (h, spec_at-some (selected_index s) (selected_index-lt s))
run-InRange (c ∷ cs) s h = run-InRange cs (step s c) (step-InRange s c h)

-- A step and the step back lead to the view from which they set out.
pub cycle_back :
    (s : Selection) (d : ℕ)
    → InRange s
    → selected_index (cycle_selected_index (negsuc d) (cycle_selected_index (pos (suc d)) s).0).0
      ≡ s.selected_index_value
unfolding cycle_selected_index selected_index
cycle_back s d h =
    let there = (next_index_mod s.selected_index_value (suc d)).0 in
    let back = (next_index_mod (next_index s.selected_index_value (pos (suc d))) d).1 in
    ground arith

-- The tables of identifiers and indices agree, both ways.
pub id_at-index_for_id :
    (id : ViewId) → (id_at (index_for_id id) ≡ id) × (view_by_id id ≡ spec_at (index_for_id id))
unfolding id_at index_for_id view_by_id spec_at
id_at-index_for_id overview = (refl, refl)
id_at-index_for_id _ = (refl, refl)
