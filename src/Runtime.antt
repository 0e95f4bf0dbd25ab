-- ===== src/Runtime.antt =====
-- The runtime state shared by the threads (include/trfx_runtime.h, src/trfx_runtime.c). Each
-- function holds the lock for its whole body, so what threads do is a sequence of whole calls.
pub mod Refresh
pub mod Stop
use trafix.Prelude.Int.{ℤ, pos, pos_part, ltb_ℤ, leb_ℤ}
use trafix.Prelude.{
  ℕ, zero, suc, Bool, true, false, ◌||◌, List, [], ◌∷◌, replicate, set, if◌then◌else◌,
}

-- include/trfx_globals.h
abbrev pub static_module_count : ℕ
static_module_count = 4

pub record RuntimeState : Type 0 where
  pub ready : Bool
  pub paused : Bool
  pub stop_requested : Bool
  pub force_refresh_flags : List Bool

unfoldable pub initial : RuntimeState
initial = record {
  ready = false;
  paused = false;
  stop_requested = false;
  force_refresh_flags = replicate static_module_count false;
}

unfoldable pub reset : RuntimeState → RuntimeState
reset s = record {
  ready = false;
  paused = false;
  stop_requested = false;
  force_refresh_flags = replicate static_module_count false;
}

unfoldable pub set_ready : Bool → RuntimeState → RuntimeState
set_ready ready s = record s { ready = ready }

unfoldable pub set_paused : Bool → RuntimeState → RuntimeState
set_paused paused s = record s { paused = paused }

unfoldable pub request_stop : RuntimeState → RuntimeState
request_stop s = record s { stop_requested = true }

-- The loop writes 1 at each of the `STATIC_MODULE_COUNT` places.
unfoldable pub request_static_refresh_all : RuntimeState → RuntimeState
request_static_refresh_all s = record s { force_refresh_flags = replicate static_module_count true }

abbrev pub flag_at : List Bool → ℕ → Bool
flag_at [] i = false
flag_at (b ∷ bs) zero = b
flag_at (b ∷ bs) (suc i) = flag_at bs i

unfoldable pub consume_static_refresh : ℤ → RuntimeState → RuntimeState × Bool
consume_static_refresh module_index s =
    if ltb_ℤ module_index (pos 0) || leb_ℤ (pos static_module_count) module_index
    then (s, false)
    else (
      record s { force_refresh_flags = set s.force_refresh_flags (pos_part module_index) false },
      flag_at s.force_refresh_flags (pos_part module_index),
    )

-- The calls that change the state.
pub data Call : Type 0 where
  reset_call request_stop_call request_refresh_call : Call
  ready_call paused_call : Bool → Call
  consume_call : ℤ → Call

-- The state after a call, and what `consume_static_refresh` returned.
unfoldable pub step : RuntimeState → Call → RuntimeState × Bool
unfolding reset set_ready set_paused request_stop request_static_refresh_all consume_static_refresh
step s reset_call = (reset s, false)
step s request_stop_call = (request_stop s, false)
step s request_refresh_call = (request_static_refresh_all s, false)
step s (ready_call ready) = (set_ready ready s, false)
step s (paused_call paused) = (set_paused paused s, false)
step s (consume_call i) = consume_static_refresh i s

unfoldable pub run : RuntimeState → List Call → RuntimeState
run s [] = s
run s (c ∷ cs) = run (step s c).0 cs
