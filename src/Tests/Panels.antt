-- ===== src/Tests/Panels.antt =====
-- The layout and the runtime state (src/trfx_layout.c, src/trfx_runtime.c).
use trafix.Prelude.Int.{pos, negsuc}
use trafix.Prelude.{◌+◌, ◌≤◌, true, false, List, [], ◌∷◌, some, ◌≡◌, refl, arith, is_some}
use trafix.Layout.{LayoutState, compute_geometry}
use trafix.Layout.Columns.{compute_geometry-none}
use trafix.Runtime.{Call, request_refresh_call, consume_call, RuntimeState, run, step}
use trafix.Runtime.Refresh.{served, pending, requests, served_upper, served_lower}

abbrev shown : LayoutState
shown = record {
  secondary_visible = true;
  primary_width_percent = pos 60;
  secondary_width_percent = pos 40;
  secondary_state_index = pos 0;
}

compute_geometry-none_example :
    is_some (compute_geometry (some shown) (pos 0) (pos 0) (pos 24) (negsuc 3)) ≡ false
compute_geometry-none_example =
    compute_geometry-none (some shown) (pos 0) (pos 0) (pos 24) (negsuc 3)

abbrev calls : List Call
calls = request_refresh_call ∷ consume_call (pos 1) ∷ consume_call (pos 1) ∷ []

abbrev pending_one : RuntimeState
pending_one = record {
  ready = true;
  paused = false;
  stop_requested = true;
  force_refresh_flags = false ∷ true ∷ false ∷ false ∷ [];
}

served_once : served 1 pending_one calls ≡ 1
unfolding step
served_once = refl

served_upper_example :
    served 1 pending_one calls + pending 1 (run pending_one calls)
    ≤ pending 1 pending_one + requests calls
served_upper_example = served_upper calls 1 pending_one (omega arith) refl

served_lower_example :
    pending 1 pending_one ≤ served 1 pending_one calls + pending 1 (run pending_one calls)
served_lower_example = served_lower calls 1 pending_one (omega arith) refl refl
