-- ===== src/Connections.antt =====
-- Connections (include/trfx_connections.h, src/trfx_connections.c): the names of states, the order of the
-- rows, and the focus that the threads share. A result is the list of its rows, so its count is their
-- number; the functions hold the lock for their whole body.
pub mod States
pub mod Focus
pub mod Rows
pub mod Summary
use trafix.Prelude.Int.{ℤ, pos, negsuc, pos_part, ◌+ℤ◌, ltb_ℤ, leb_ℤ}
use trafix.Prelude.{
  ℕ, ◌-◌, Bool, true, false, not, ◌&&◌, ◌||◌, List, [], ◌∷◌, Option, none, some, ◌==◌,
  if◌then◌else◌, length,
}
use trafix.Cstr.{Text, codes, is}
use trafix.Actions.Requests.{ConnectionInfo}

unfoldable pub tcp_state_name : ℕ → Text
tcp_state_name n =
    if n == 1
    then codes "ESTABLISHED"
    else if n == 2
    then codes "SYN_SENT"
    else if n == 3
    then codes "SYN_RECV"
    else if n == 4
    then codes "FIN_WAIT1"
    else if n == 5
    then codes "FIN_WAIT2"
    else if n == 6
    then codes "TIME_WAIT"
    else if n == 7
    then codes "CLOSE"
    else if n == 8
    then codes "CLOSE_WAIT"
    else if n == 9
    then codes "LAST_ACK"
    else if n == 10
    then codes "LISTEN"
    else if n == 11
    then codes "CLOSING"
    else if n == 12
    then codes "NEW_SYN_RECV"
    else codes "UNKNOWN"

unfoldable pub udp_state_name : ℕ → Text
udp_state_name n =
    if n == 1 then codes "ESTABLISHED" else if n == 7 then codes "UNCONN" else codes "UNKNOWN"

unfoldable pub socket_state_name : Text → ℕ → Text
unfolding tcp_state_name udp_state_name
socket_state_name proto state_num =
    if is proto "UDP" then udp_state_name state_num else tcp_state_name state_num

-- The rows of these states are left out.
unfoldable pub should_skip_connection_state : Text → ℕ → Bool
should_skip_connection_state proto state_num =
    if not (is proto "TCP")
    then false
    else state_num == 6 || state_num == 7 || state_num == 8 || state_num == 9 || state_num == 11

-- The static variables; `rows` are those of the last update.
pub record FocusState (R : Type 0) : Type 0 where
  pub initialized : Bool
  pub rows : List R
  pub focus_index : ℤ

abbrev clamp_focus : ℕ → ℤ → ℤ
clamp_focus visible_count focus =
    if visible_count == 0
    then pos 0
    else if leb_ℤ (pos visible_count) focus
    then pos (visible_count - 1)
    else focus

abbrev wrap_focus : ℕ → ℤ → ℤ
wrap_focus visible_count moved =
    if ltb_ℤ moved (pos 0)
    then pos (visible_count - 1)
    else if leb_ℤ (pos visible_count) moved
    then pos 0
    else moved

module _ {R : Type 0} where
  abbrev pub start : FocusState R
  start = record { initialized = false; rows = []; focus_index = pos 0 }

  abbrev cleared : FocusState R → FocusState R
  cleared s = if s.initialized then s else record s { initialized = true; rows = [] }

  unfoldable pub state_init : FocusState R → FocusState R
  state_init s = cleared s

  abbrev rows_or : FocusState R → Option (List R) → List R
  rows_or s none = s.rows
  rows_or s (some rows) = rows

  unfoldable pub state_update : FocusState R → Option (List R) → FocusState R
  state_update s connections =
      let rows = rows_or (cleared s) connections in
      record {
        initialized = true;
        rows = rows;
        focus_index = clamp_focus (length rows) s.focus_index;
      }

  -- The rows and the focus, if the state is initialized.
  unfoldable pub state_copy : FocusState R → Option (List R × ℤ)
  state_copy s = if s.initialized then some (s.rows, s.focus_index) else none

  unfoldable pub state_move_focus : FocusState R → ℤ → FocusState R
  state_move_focus s delta =
      if length s.rows == 0
      then s
      else record s { focus_index = wrap_focus (length s.rows) (s.focus_index +ℤ delta) }
