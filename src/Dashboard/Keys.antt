-- ===== src/Dashboard/Keys.antt =====
-- The keys of the terminal interface (src/trfx_dashboard.c): the loops of the popups that `handle_keypress` opens,
-- and the cases of its `switch`.
use trafix.Prelude.Int.{ℤ, pos, negsuc}
use trafix.Prelude.{
  ℕ, ◌+◌, ◌-◌, ◌%◌, Bool, false, ◌||◌, List, [], ◌∷◌, Option, none, some, ◌==◌, if◌then◌else◌,
}
use trafix.Dashboard.{
  Key, key_up, key_down, key_enter, key_resize, key_f1, other_key, char, is_up, is_down, is_enter,
  is_escape, is_cancel,
}
use trafix.SupportViews.{
  ViewId, connection_detail, bandwidth, action_audit, diagnostics, route_dns, network_health,
  next_index,
}

-- `modules` has five entries before its sentinel.
abbrev pub module_count : ℕ
module_count = 5

-- The loop of `select_module`, which only Enter and Esc end.
unfoldable pub select_module_loop : ℕ → List Key → Option (Option ℕ × List Key)
select_module_loop i [] = none
select_module_loop i (key ∷ keys) =
    let up = select_module_loop ((i + module_count - 1) % module_count) keys in
    let down = select_module_loop ((i + 1) % module_count) keys in
    let rest = select_module_loop i keys in
    if is_up key
    then up
    else if is_down key
    then down
    else if is_enter key
    then some (some i, keys)
    else if is_escape key
    then some (none, keys)
    else rest

-- The loop of `select_support_view`.
unfoldable pub select_view_loop : ℕ → List Key → Option (Option ℕ × List Key)
select_view_loop i [] = none
select_view_loop i (key ∷ keys) =
    let up = select_view_loop (next_index i (negsuc 0)) keys in
    let down = select_view_loop (next_index i (pos 1)) keys in
    let rest = select_view_loop i keys in
    if is_up key
    then up
    else if is_down key
    then down
    else if is_enter key
    then some (some i, keys)
    else if is_cancel key
    then some (none, keys)
    else rest

-- `while (getch() != KEY_ESC)`
unfoldable pub pause_loop : List Key → Option (List Key)
pause_loop [] = none
pause_loop (key ∷ keys) = let rest = pause_loop keys in if is_escape key then some keys else rest

-- The loop of `show_hotkeys_popup`, whose window does not translate function keys.
abbrev pub closes_hotkeys : Key → Bool
closes_hotkeys (char c) = c == 27 || c == 10 || c == 13 || c == b'q' || c == b'Q'
closes_hotkeys _ = false

unfoldable pub hotkeys_loop : List Key → Option (List Key)
hotkeys_loop [] = none
hotkeys_loop (key ∷ keys) =
    let rest = hotkeys_loop keys in if closes_hotkeys key then some keys else rest

-- The cases of the `switch` of `handle_keypress`.
pub data Command : Type 0 where
  relayout_command sort_command module_command refresh_command kill_command drop_command : Command
  select_view_command pause_command toggle_command hotkeys_command no_command : Command
  flow_focus_command connection_focus_command : ℤ → Command
  view_command : ViewId → Command

unfoldable pub command_of_char : ℕ → Command
command_of_char c =
    if c == b's' || c == b'S'
    then sort_command
    else if c == b'c' || c == b'C'
    then module_command
    else if c == b'r' || c == b'R'
    then refresh_command
    else if c == b'j'
    then flow_focus_command (pos 1)
    else if c == b'k'
    then flow_focus_command (negsuc 0)
    else if c == b'J'
    then connection_focus_command (pos 1)
    else if c == b'K'
    then connection_focus_command (negsuc 0)
    else if c == b'O' || c == b'o'
    then view_command connection_detail
    else if c == b'd' || c == b'D' || c == 10
    then view_command bandwidth
    else if c == b'x' || c == b'X'
    then kill_command
    else if c == b'z' || c == b'Z'
    then drop_command
    else if c == b'a' || c == b'A'
    then view_command action_audit
    else if c == b'g' || c == b'G'
    then view_command diagnostics
    else if c == b'n' || c == b'N'
    then view_command route_dns
    else if c == b'v' || c == b'V'
    then view_command network_health
    else if c == b'l' || c == b'L'
    then select_view_command
    else if c == b'p' || c == b'P'
    then pause_command
    else if c == b't' || c == b'T'
    then toggle_command
    else if c == b'h' || c == b'H'
    then hotkeys_command
    else no_command

unfoldable pub command_of : Key → Command
unfolding command_of_char
command_of key_resize = relayout_command
command_of key_down = flow_focus_command (pos 1)
command_of key_up = flow_focus_command (negsuc 0)
command_of key_enter = view_command bandwidth
command_of key_f1 = hotkeys_command
command_of other_key = no_command
command_of (char c) = command_of_char c
