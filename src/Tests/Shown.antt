-- ===== src/Tests/Shown.antt =====
-- Printed strings and connections (src/trfx_cli_output.c, src/trfx_connections.c).
use trafix.Prelude.Int.{negsuc}
use trafix.Prelude.{ℕ, false, List, [], ◌∷◌, some, ◌≡◌, refl, any}
use trafix.Cstr.{Text, codes, is}
use trafix.Output.{print_json_string}
use trafix.Connections.{start, socket_state_name, should_skip_connection_state}
use trafix.Connections.Focus.{Call, init_call, update_call, move_call, run, HasFocus, run-HasFocus}
use trafix.Connections.States.{hidden_states, socket_state_name-shown}

abbrev bell : Text
bell = b'a' ∷ 7 ∷ b'"' ∷ b'\n' ∷ []

bell_printed : print_json_string bell ≡ codes "\"a\\u0007\\\"\\n\""
unfolding print_json_string
bell_printed = refl

abbrev calls : List (Call ℕ)
calls =
    init_call
    ∷ update_call (some (1 ∷ 2 ∷ 3 ∷ []))
    ∷ move_call (negsuc 0)
    ∷ update_call (some (1 ∷ []))
    ∷ []

focus_stays : HasFocus (run start calls)
focus_stays = run-HasFocus calls

ten_kept : should_skip_connection_state (codes "TCP") 10 ≡ false
unfolding should_skip_connection_state is
ten_kept = refl

socket_state_name-shown_example :
    any (is (socket_state_name (codes "TCP") 10)) hidden_states ≡ false
socket_state_name-shown_example = socket_state_name-shown 10 ten_kept
