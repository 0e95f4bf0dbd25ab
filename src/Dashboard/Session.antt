-- ===== src/Dashboard/Session.antt =====
-- The main loop of `start_dashboard` (src/trfx_dashboard.c), and which keys have effects.
use trafix.Prelude.{
  ℕ, zero, suc, Bool, true, false, ◌||◌, List, [], ◌∷◌, ◌++◌, Option, none, some, ◌≡◌, ◌⊎◌, inl,
  inr, refl, arith, length, ◌==◌, if◌then◌else◌, Bool-cases,
}
use trafix.Cstr.Scan.{◌>>=◌}
use trafix.Actions.World.{Effect}
use trafix.Bandwidth.{Doubles}
use trafix.Dashboard.{Key, key_up, key_down, key_enter, key_resize, key_f1, other_key, char}
use trafix.Dashboard.Acting.{Acted}
use trafix.Dashboard.Acting.Agreed.{
  Agreed, NoneOrAgreed, kill_at, drop_at, handle_process_kill_action-Agreed,
  handle_connection_drop_action-Agreed,
}
use trafix.Dashboard.Acting.Reviewed.{Whenever, Whenever-map}
use trafix.Dashboard.Keys.{
  Command, relayout_command, sort_command, module_command, refresh_command, kill_command,
  drop_command, select_view_command, pause_command, toggle_command, hotkeys_command, no_command,
  flow_focus_command, connection_focus_command, view_command, command_of, command_of_char,
  select_module_loop, select_view_loop, pause_loop, hotkeys_loop,
}
use trafix.Dashboard.Keypress.{
  run_command, Ui, Pressed, with_runtime, act, handle_keypress, change_window_module,
  select_support_view, pause_screen, show_hotkeys_popup,
}
use trafix.SupportViews.{selected_index}
use trafix.Runtime.{request_stop}

abbrev pub is_quit : Key → Bool
is_quit (char c) = c == b'q' || c == b'Q'
is_quit _ = false

abbrev pub is_kill_key : Key → Bool
is_kill_key (char c) = c == b'x' || c == b'X'
is_kill_key _ = false

abbrev pub is_drop_key : Key → Bool
is_drop_key (char c) = c == b'z' || c == b'Z'
is_drop_key _ = false

kills : (key : Key) → command_of key ≡ kill_command → is_kill_key key ≡ true
unfolding command_of command_of_char
kills (char c) e = ground arith
kills key_up e = ground arith
kills key_down e = ground arith
kills key_enter e = ground arith
kills key_resize e = ground arith
kills key_f1 e = ground arith
kills other_key e = ground arith

drops : (key : Key) → command_of key ≡ drop_command → is_drop_key key ≡ true
unfolding command_of command_of_char
drops (char c) e = ground arith
drops key_up e = ground arith
drops key_down e = ground arith
drops key_enter e = ground arith
drops key_resize e = ground arith
drops key_f1 e = ground arith
drops other_key e = ground arith

module _ (doubles : Doubles) where
  -- The main loop, with the effects of all its rounds; the fuel is more than the number of keys.
  unfoldable pub run_keys : ℕ → Ui doubles → List Key → Option (Ui doubles × List Effect)
  unfolding handle_keypress
  run_keys zero u keys = none
  run_keys (suc fuel) u [] = none
  run_keys (suc fuel) u (key ∷ keys) =
      let pressed = do
        (next, rest, effects) ← handle_keypress doubles u key keys
        (end, more) ← run_keys fuel next rest
        some (end, effects ++ more)
      in if is_quit key
        then some (with_runtime doubles u (request_stop u.desk.runtime), [])
        else pressed

  -- No effect; or those of the action of `x` or `z` that was agreed to.
  abbrev pub OnlyAgreed : Ui doubles → Key → List Key → Pressed doubles → Type 0
  OnlyAgreed u key keys p =
      (p.2 ≡ [])
      ⊎ (((is_kill_key key ≡ true)
            × Agreed u.desk (kill_at u.desk) (length u.desk.processes) keys p.2)
          ⊎ ((is_drop_key key ≡ true)
              × Agreed u.desk (drop_at u.desk) (length u.desk.connections) keys p.2))

  abbrev Quiet : Pressed doubles → Type 0
  Quiet p = p.2 ≡ []

  Whenever-bind :
      {A : Type 0} (o : Option A) (f : A → Option (Pressed doubles))
      → ((a : A) → Whenever Quiet (f a))
      → Whenever Quiet (o >>= f)
  Whenever-bind none f h = tt
  Whenever-bind (some a) f h = h a

  module _ (u : Ui doubles) (keys : List Key) where
    change_window_module-Quiet : Whenever Quiet (change_window_module doubles u keys)
    unfolding change_window_module
    change_window_module-Quiet = elim (Bool-cases u.desk.select_opens) [
      | inl e ↦ rw e (Whenever-bind (select_module_loop 0 keys) _ (λ a. refl))
      | inr e ↦ rw e refl
    ]

    select_support_view-Quiet : Whenever Quiet (select_support_view doubles u keys)
    unfolding select_support_view
    select_support_view-Quiet = elim (Bool-cases u.desk.select_opens) [
      | inl e ↦
          rw e (Whenever-bind (select_view_loop (selected_index u.selection) keys) _ (λ a. refl))
      | inr e ↦ rw e refl
    ]

    pause_screen-Quiet : Whenever Quiet (pause_screen doubles u keys)
    unfolding pause_screen
    pause_screen-Quiet = elim (Bool-cases u.desk.message_opens) [
      | inl e ↦ rw e (Whenever-bind (pause_loop keys) _ (λ a. refl))
      | inr e ↦ rw e refl
    ]

    show_hotkeys_popup-Quiet : Whenever Quiet (show_hotkeys_popup doubles u keys)
    unfolding show_hotkeys_popup
    show_hotkeys_popup-Quiet = elim (Bool-cases u.desk.message_opens) [
      | inl e ↦ rw e (Whenever-bind (hotkeys_loop keys) _ (λ a. refl))
      | inr e ↦ rw e refl
    ]

    no_effect :
        (key : Key) (o : Option (Pressed doubles))
        → Whenever Quiet o
        → Whenever (OnlyAgreed u key keys) o
    no_effect key o h = Whenever-map Quiet (OnlyAgreed u key keys) o (λ p e. inl e) h

    kill_key :
        (key : Key)
        → is_kill_key key ≡ true
        → (acted : Option Acted)
        → Whenever (NoneOrAgreed u.desk (kill_at u.desk) (length u.desk.processes) keys) acted
        → Whenever (OnlyAgreed u key keys) (act doubles u acted)
    unfolding act
    kill_key key e none h = tt
    kill_key key e (some a) (inl n) = inl n
    kill_key key e (some a) (inr g) = inr (inl (e, g))

    drop_key :
        (key : Key)
        → is_drop_key key ≡ true
        → (acted : Option Acted)
        → Whenever (NoneOrAgreed u.desk (drop_at u.desk) (length u.desk.connections) keys) acted
        → Whenever (OnlyAgreed u key keys) (act doubles u acted)
    unfolding act
    drop_key key e none h = tt
    drop_key key e (some a) (inl n) = inl n
    drop_key key e (some a) (inr g) = inr (inr (e, g))

    run_command-OnlyAgreed :
        (key : Key) (command : Command)
        → command_of key ≡ command
        → Whenever (OnlyAgreed u key keys) (run_command doubles u command keys)
    unfolding run_command
    run_command-OnlyAgreed key relayout_command e = inl refl
    run_command-OnlyAgreed key sort_command e = inl refl
    run_command-OnlyAgreed key module_command e = no_effect key _ change_window_module-Quiet
    run_command-OnlyAgreed key refresh_command e = inl refl
    run_command-OnlyAgreed key (flow_focus_command delta) e = inl refl
    run_command-OnlyAgreed key (connection_focus_command delta) e = inl refl
    run_command-OnlyAgreed key (view_command id) e = inl refl
    run_command-OnlyAgreed key kill_command e =
        kill_key key (kills key e) _ (handle_process_kill_action-Agreed u.desk keys)
    run_command-OnlyAgreed key drop_command e =
        drop_key key (drops key e) _ (handle_connection_drop_action-Agreed u.desk keys)
    run_command-OnlyAgreed key select_view_command e = no_effect key _ select_support_view-Quiet
    run_command-OnlyAgreed key pause_command e = no_effect key _ pause_screen-Quiet
    run_command-OnlyAgreed key toggle_command e = inl refl
    run_command-OnlyAgreed key hotkeys_command e = no_effect key _ show_hotkeys_popup-Quiet
    run_command-OnlyAgreed key no_command e = inl refl

    -- Whatever is pressed, if what the key starts returns: it has no effect; or the key is `x`, a process was
    -- selected and its review confirmed with Enter, and the effects fit the request to kill it; or the key is
    -- `z`, and the same holds of a connection and the request to drop it.
    pub handle_keypress-OnlyAgreed :
        (key : Key) → Whenever (OnlyAgreed u key keys) (handle_keypress doubles u key keys)
    unfolding handle_keypress
    handle_keypress-OnlyAgreed key = run_command-OnlyAgreed key (command_of key) refl
