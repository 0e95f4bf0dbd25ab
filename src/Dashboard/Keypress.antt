-- ===== src/Dashboard/Keypress.antt =====
-- What a key does in the terminal interface (`handle_keypress` and the main loop of `start_dashboard`,
-- src/trfx_dashboard.c), without the drawing.
use trafix.Prelude.Int.{ℤ}
use trafix.Prelude.{
  ℕ, ◌+◌, ◌%◌, Bool, true, false, not, ◌&&◌, ◌||◌, List, [], Option, none, some, ltb, if◌then◌else◌,
}
use trafix.Cstr.Scan.{◌>>=◌}
use trafix.Actions.World.{Effect}
use trafix.Bandwidth.{Doubles}
use trafix.Connections.{FocusState, state_move_focus}
use trafix.Connections.Summary.{ConnectionSummary}
use trafix.Dashboard.{Key, resume_dashboard_after_popup}
use trafix.Dashboard.Acting.{Desk, Acted, handle_process_kill_action, handle_connection_drop_action}
use trafix.Dashboard.Frame.{DashboardLayoutGeometry, compute_dashboard_layout}
use trafix.Layout.{LayoutState, Geometry}
use trafix.Runtime.{RuntimeState, set_paused, request_static_refresh_all}
use trafix.SupportViews.{
  index_for_id, Selection, selected_index, set_selected_index, request_refresh,
}
use trafix.Threads.{BandwidthState, bandwidth_state_move_focus}
use trafix.Dashboard.Keys.{
  select_module_loop, select_view_loop, pause_loop, hotkeys_loop, Command, relayout_command,
  sort_command, module_command, refresh_command, kill_command, drop_command, select_view_command,
  pause_command, toggle_command, hotkeys_command, no_command, flow_focus_command,
  connection_focus_command, view_command, command_of,
}

-- A slot: the module it stands for, and whether its thread runs.
pub record WindowSlot : Type 0 where
  pub module_index : Option ℕ
  pub running : Bool

abbrev pub selection_or : Selection → Option ℕ → ℕ
selection_or s none = selected_index s
selection_or s (some i) = i

module _ (doubles : Doubles) where
  -- What the keys read and change. The flag `creates` says whether `pthread_create` succeeds.
  pub record Ui : Type 0 where
    pub desk : Desk
    pub sort_type : ℕ
    pub show_top_panels : Bool
    pub selection : Selection
    pub connection_focus : FocusState ConnectionSummary
    pub bandwidth_state : BandwidthState doubles
    pub slot : WindowSlot
    pub layout_state : LayoutState
    pub screen_height : ℕ
    pub screen_width : ℕ
    pub support_window : Bool
    pub creates : Bool

  -- The state, the keys that are left, and the effects.
  abbrev pub Pressed : Type 0
  Pressed = Ui × List Key × List Effect

  abbrev pub with_runtime : Ui → RuntimeState → Ui
  with_runtime u r = record u { desk = record u.desk { runtime = r } }

  abbrev pub quiet : Ui → List Key → Option Pressed
  quiet u keys = some (u, keys, [])

  abbrev pub resumed : Ui → Ui
  resumed u = with_runtime u (resume_dashboard_after_popup u.desk.runtime)

  abbrev pub paused : Ui → Ui
  paused u = with_runtime u (set_paused true u.desk.runtime)

  -- `SORT_MAX` is 3.
  unfoldable pub next_sort_type : ℕ → ℕ
  next_sort_type sort_type = (sort_type + 1) % 3

  abbrev pub started : Ui → Option ℕ → Ui
  started u none = u
  started u (some i) = record u { slot = record { module_index = some i; running = u.creates } }

  abbrev pub stopped_slot : WindowSlot → WindowSlot
  stopped_slot s = elim s.module_index [
    | none ↦ s
    | some i ↦ record { module_index = none; running = false }
  ]

  unfoldable pub change_window_module : Ui → List Key → Option Pressed
  unfolding select_module_loop
  change_window_module u keys =
      let stopped = resumed (paused (record u { slot = stopped_slot u.slot })) in
      let chosen = do
        (choice, rest) ← select_module_loop 0 keys
        quiet (started stopped choice) rest
      in if u.desk.select_opens then chosen else quiet stopped keys

  -- `trfx_support_view_set_selected_index` and `trfx_support_view_request_refresh`.
  abbrev pub shows : Ui → ℕ → Ui
  shows u i = record u { selection = request_refresh (set_selected_index i u.selection) }

  -- `select_support_view`, and the refresh that the key asks for behind it.
  unfoldable pub select_support_view : Ui → List Key → Option Pressed
  unfolding select_view_loop
  select_support_view u keys =
      let chosen = do
        (choice, rest) ← select_view_loop (selected_index u.selection) keys
        quiet (shows (resumed (paused u)) (selection_or u.selection choice)) rest
      in if u.desk.select_opens then chosen else quiet (resumed (paused u)) keys

  unfoldable pub pause_screen : Ui → List Key → Option Pressed
  unfolding pause_loop
  pause_screen u keys =
      let waited = (do rest ← pause_loop keys; quiet (resumed (paused u)) rest) in
      if u.desk.message_opens then waited else quiet (resumed (paused u)) keys

  unfoldable pub show_hotkeys_popup : Ui → List Key → Option Pressed
  unfolding hotkeys_loop
  show_hotkeys_popup u keys =
      let waited = (do rest ← hotkeys_loop keys; quiet (resumed (paused u)) rest) in
      if u.desk.message_opens then waited else quiet (resumed (paused u)) keys

  abbrev pub moved : Ui → ℤ → Ui
  moved u delta = record u {
    bandwidth_state = bandwidth_state_move_focus doubles u.bandwidth_state delta;
  }

  abbrev pub connection_moved : Ui → ℤ → Ui
  connection_moved u delta = record u {
    connection_focus = state_move_focus u.connection_focus delta;
  }

  -- Whether the support column is there behind `sync_support_window_geometry`.
  abbrev pub synced : Ui → Option Geometry → Bool
  synced u none = u.support_window
  synced u (some g) =
      g.secondary_visible && ltb 0 g.secondary_width && (u.support_window || u.desk.select_opens)

  -- `request_dashboard_data_refresh`
  abbrev pub refreshed : Ui → Ui
  refreshed u = with_runtime u (set_paused false (request_static_refresh_all u.desk.runtime))

  abbrev laid_out : Ui → Option DashboardLayoutGeometry → Ui
  laid_out u none = u
  laid_out u (some l) = refreshed (record u { support_window = synced u l.row2_geometry })

  -- `resize_dashboard_windows`, and `update_toggle_layout`, which pauses the threads before it lays out and
  -- resumes them behind.
  unfoldable pub relayout : Ui → Ui
  unfolding compute_dashboard_layout
  relayout u =
      laid_out u
        (compute_dashboard_layout u.show_top_panels u.layout_state u.screen_height u.screen_width)

  abbrev pub with_acted : Ui → Acted → Pressed
  with_acted u a = (
    record u { desk = record u.desk { runtime = a.runtime; audit = a.audit } },
    a.keys,
    a.effects,
  )

  unfoldable pub act : Ui → Option Acted → Option Pressed
  act u acted = do a ← acted; some (with_acted u a)

  -- The body of each case.
  unfoldable pub run_command : Ui → Command → List Key → Option Pressed
  unfolding change_window_module select_support_view pause_screen show_hotkeys_popup relayout act
      next_sort_type
  run_command u relayout_command keys = quiet (relayout u) keys
  run_command u sort_command keys = quiet (record u { sort_type = next_sort_type u.sort_type }) keys
  run_command u module_command keys = change_window_module u keys
  run_command u refresh_command keys =
      quiet (with_runtime u (request_static_refresh_all u.desk.runtime)) keys
  run_command u (flow_focus_command delta) keys = quiet (moved u delta) keys
  run_command u (connection_focus_command delta) keys = quiet (connection_moved u delta) keys
  run_command u (view_command id) keys = quiet (shows u (index_for_id id)) keys
  run_command u kill_command keys = act u (handle_process_kill_action u.desk keys)
  run_command u drop_command keys = act u (handle_connection_drop_action u.desk keys)
  run_command u select_view_command keys = select_support_view u keys
  run_command u pause_command keys = pause_screen u keys
  run_command u toggle_command keys =
      quiet (relayout (record u { show_top_panels = not u.show_top_panels })) keys
  run_command u hotkeys_command keys = show_hotkeys_popup u keys
  run_command u no_command keys = quiet u keys

  unfoldable pub handle_keypress : Ui → Key → List Key → Option Pressed
  unfolding run_command command_of
  handle_keypress u key keys = run_command u (command_of key) keys
