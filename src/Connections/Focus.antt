-- ===== src/Connections/Focus.antt =====
-- The focus stays on a row (src/trfx_connections.c).
use trafix.Prelude.Int.{ℤ, pos, ◌≤ℤ◌, ◌<ℤ◌}
use trafix.Prelude.{true, List, [], ◌∷◌, Option, none, some, ◌≡◌, refl, ◌⊎◌, inr, arith, length}
use trafix.Connections.{FocusState, start, state_init, state_update, state_move_focus}

pub data Call (R : Type 0) : Type 0 where
  init_call : Call R
  update_call : Option (List R) → Call R
  move_call : ℤ → Call R

module _ {R : Type 0} where
  unfoldable pub step : FocusState R → Call R → FocusState R
  step s init_call = state_init s
  step s (update_call rows) = state_update s rows
  step s (move_call delta) = state_move_focus s delta

  abbrev pub run : FocusState R → List (Call R) → FocusState R
  run s [] = s
  run s (c ∷ cs) = run (step s c) cs

  -- The focus is at a row, or at 0 where there is none.
  abbrev pub HasFocus : FocusState R → Type 0
  HasFocus s =
      (pos 0 ≤ℤ s.focus_index)
      × ((s.focus_index <ℤ pos (length s.rows)) ⊎ ((length s.rows ≡ 0) × (s.focus_index ≡ pos 0)))
      × ((s.initialized ≡ true) ⊎ (s.rows ≡ []))

  step-HasFocus : (s : FocusState R) (c : Call R) → HasFocus s → HasFocus (step s c)
  unfolding step state_init state_update state_move_focus
  step-HasFocus s init_call h = ground arith
  step-HasFocus s (update_call none) h = ground arith
  step-HasFocus s (update_call (some rows)) h = ground arith
  step-HasFocus s (move_call delta) h = ground arith

  run-kept : (cs : List (Call R)) (s : FocusState R) → HasFocus s → HasFocus (run s cs)
  run-kept [] s h = h
  run-kept (c ∷ cs) s h = run-kept cs (step s c) (step-HasFocus s c h)

  -- Through any calls of any threads from the start, the focus is at a row, or at 0 where there is none,
  -- and there are no rows before the state is initialized.
  pub run-HasFocus : (cs : List (Call R)) → HasFocus (run start cs)
  run-HasFocus cs = run-kept cs start (omega arith, inr (refl, refl), inr refl)
