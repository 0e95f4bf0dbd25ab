-- ===== src/Dashboard.antt =====
-- The terminal interface (src/trfx_dashboard.c), without its drawing: the popups that ask and show, as loops
-- over the keys that are pressed. A loop that gets no more keys goes on waiting, which is `none`.
pub mod Acting
pub mod Frame
pub mod Keypress
pub mod Keys
pub mod Popups
pub mod Session
use trafix.Prelude.{
  ℕ, zero, suc, ◌+◌, ◌-◌, ◌%◌, Bool, true, false, ◌||◌, List, [], ◌∷◌, Option, none, some, ◌==◌,
  if◌then◌else◌,
}
use trafix.Runtime.{RuntimeState, set_paused, request_static_refresh_all}

-- What `wgetch` returns: one of the keys of ncurses that the code names, or a byte.
pub data Key : Type 0 where
  key_up key_down key_enter key_resize key_f1 other_key : Key
  char : ℕ → Key

-- `ch == KEY_ENTER || ch == '\n' || ch == 10`
abbrev pub is_enter : Key → Bool
is_enter key_enter = true
is_enter (char c) = c == 10
is_enter _ = false

abbrev pub is_escape : Key → Bool
is_escape (char c) = c == 27
is_escape _ = false

-- `ch == KEY_ESC || ch == 'q' || ch == 'Q'`
abbrev pub is_cancel : Key → Bool
is_cancel (char c) = c == 27 || c == b'q' || c == b'Q'
is_cancel _ = false

abbrev pub is_up : Key → Bool
is_up key_up = true
is_up _ = false

abbrev pub is_down : Key → Bool
is_down key_down = true
is_down _ = false

unfoldable pub resume_dashboard_after_popup : RuntimeState → RuntimeState
resume_dashboard_after_popup r = request_static_refresh_all (set_paused false r)

-- The loop of a popup that shows something: the keys that are left when it closes.
unfoldable pub close_loop : List Key → Option (List Key)
close_loop [] = none
close_loop (key ∷ keys) =
    let rest = close_loop keys in if is_cancel key || is_enter key then some keys else rest

-- The loop of `show_action_review_popup`: whether the action is confirmed, and the keys that are left.
unfoldable pub review_loop : List Key → Option (Bool × List Key)
review_loop [] = none
review_loop (key ∷ keys) =
    let rest = review_loop keys in
    if is_enter key then some (true, keys) else if is_cancel key then some (false, keys) else rest

-- The loop of a selection among `visible_count` rows: the row, unless it is cancelled, and the keys that are
-- left.
unfoldable pub select_loop : ℕ → ℕ → List Key → Option (Option ℕ × List Key)
select_loop visible_count selected_index [] = none
select_loop visible_count selected_index (key ∷ keys) =
    let up =
      select_loop visible_count ((selected_index + visible_count - 1) % visible_count) keys in
    let down = select_loop visible_count ((selected_index + 1) % visible_count) keys in
    let rest = select_loop visible_count selected_index keys in
    if is_up key
    then up
    else if is_down key
    then down
    else if is_enter key
    then some (some selected_index, keys)
    else if is_cancel key
    then some (none, keys)
    else rest
