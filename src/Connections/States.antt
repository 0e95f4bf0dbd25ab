-- ===== src/Connections/States.antt =====
-- The names of states against the filter of the command line (src/trfx_connections.c, src/trfx_cli.c).
use Prim.Native.String.{String}
use trafix.Prelude.{ℕ, true, false, List, [], ◌∷◌, ◌≡◌, arith, any, Bool-cases, inl, inr}
use trafix.Cstr.{Text, codes, is}
use trafix.Cli.Parse.{is_supported_state_filter}
use trafix.Connections.{
  tcp_state_name, udp_state_name, socket_state_name, should_skip_connection_state,
}

tcp_supported : (n : ℕ) → is_supported_state_filter (tcp_state_name n) ≡ true
unfolding tcp_state_name is_supported_state_filter is
tcp_supported n = ground arith

udp_supported : (n : ℕ) → is_supported_state_filter (udp_state_name n) ≡ true
unfolding udp_state_name is_supported_state_filter is
udp_supported n = ground arith

-- Every state that a connection can have in the output is a filter that `--state` takes.
pub socket_state_name-supported :
    (proto : Text) (n : ℕ) → is_supported_state_filter (socket_state_name proto n) ≡ true
unfolding socket_state_name
socket_state_name-supported proto n = elim (Bool-cases (is proto "UDP")) [
  | inl e ↦ rw e (udp_supported n)
  | inr e ↦ rw e (tcp_supported n)
]

-- States that `--state` takes.
abbrev pub hidden_states : List String
hidden_states = "TIME_WAIT" ∷ "CLOSE" ∷ "CLOSE_WAIT" ∷ "LAST_ACK" ∷ "CLOSING" ∷ []

-- A TCP row that is not left out has none of the states TIME_WAIT, CLOSE, CLOSE_WAIT, LAST_ACK and
-- CLOSING.
pub socket_state_name-shown :
    (n : ℕ)
    → should_skip_connection_state (codes "TCP") n ≡ false
    → any (is (socket_state_name (codes "TCP") n)) hidden_states ≡ false
unfolding should_skip_connection_state socket_state_name tcp_state_name is
socket_state_name-shown n h = ground arith
