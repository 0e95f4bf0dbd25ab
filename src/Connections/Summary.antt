-- ===== src/Connections/Summary.antt =====
-- The rows of the connection table (`trfx_collect_connection_summary`, src/trfx_connections.c), and the three
-- tests for a listener, of which src/trfx_netinfo.c and src/trfx_cli_output.c have one each.
use trafix.Prelude.{
  ℕ, zero, suc, Bool, true, false, not, ◌&&◌, ◌||◌, List, [], ◌∷◌, Option, none, some, ◌≡◌, refl,
  arith, Bool-cases, inl, inr, if◌then◌else◌,
}
use trafix.Cstr.Compare.{is-eq}
use trafix.Cstr.Number.{show}
use trafix.Cstr.{Text, codes, clip, equal, is, is_empty, mem_char}
use trafix.Actions.Requests.{ConnectionInfo}
use trafix.Connections.{tcp_state_name, socket_state_name}
use trafix.Connections.Rows.{System, Line, connection_of}
use trafix.Connections.Rows.Files.{with_owner}
use trafix.Netinfo.Snapshot.{connection_is_listener}
use trafix.SocketOwners.{OwnerEntry}

pub record ConnectionSummary : Type 0 where
  pub protocol : Text
  pub state : Text
  pub local_endpoint : Text
  pub remote_endpoint : Text
  pub uid : Text
  pub user : Text
  pub pid : Text
  pub process : Text
  pub has_owner : Bool
  pub is_listener : Bool
  pub is_established : Bool
  pub is_ipv6 : Bool

unfoldable pub connection_is_ipv6 : ConnectionInfo → Bool
connection_is_ipv6 c = mem_char b'[' c.local_addr || mem_char b'[' c.remote_addr

unfoldable pub connection_is_owned : ConnectionInfo → Bool
connection_is_owned c =
    not (is_empty c.pid) && not (is c.pid "-") && not (is_empty c.process) && not (is c.process "-")

-- One round of the loop.
unfoldable pub summary_row : ConnectionInfo → ConnectionSummary
unfolding connection_is_ipv6 connection_is_owned
summary_row src = record {
  protocol = clip 8 src.protocol;
  state = clip 32 src.state;
  local_endpoint = clip 64 src.local_addr;
  remote_endpoint = clip 64 src.remote_addr;
  uid = clip 16 (show src.uid);
  user = clip 64 src.user;
  pid = clip 16 src.pid;
  process = clip 64 src.process;
  has_owner = connection_is_owned src;
  is_listener = is src.state "LISTEN" || is src.state "UNCONN";
  is_established = is src.state "ESTABLISHED";
  is_ipv6 = connection_is_ipv6 src;
}

unfoldable pub summary_rows : List ConnectionInfo → ℕ → List ConnectionSummary
unfolding summary_row
summary_rows [] room = []
summary_rows (c ∷ connections) zero = []
summary_rows (c ∷ connections) (suc room) = summary_row c ∷ summary_rows connections room

-- The rows, whose number is the count; or an error, where there is no snapshot.
pub record SummaryResult : Type 0 where
  pub failed : Bool
  pub error : Text
  pub rows : List ConnectionSummary

unfoldable pub collect_connection_summary : Option (List ConnectionInfo) → SummaryResult
unfolding summary_rows
collect_connection_summary none = record {
  failed = true;
  error = codes "invalid connection snapshot";
  rows = [];
}
collect_connection_summary (some connections) = record {
  failed = false;
  error = [];
  rows = summary_rows connections 512;
}

-- `connection_is_listener` of src/trfx_cli_output.c.
unfoldable pub is_listener_row : ConnectionInfo → Bool
is_listener_row c = if is c.state "LISTEN" then true else is c.protocol "UDP" && is c.state "UNCONN"

tcp_state_name-unconn : (n : ℕ) → is (clip 32 (tcp_state_name n)) "UNCONN" ≡ false
unfolding tcp_state_name is clip
tcp_state_name-unconn n = ground arith

state-unconn :
    (proto : Text) (n : ℕ)
    → is proto "UDP" ≡ false
    → is (clip 32 (socket_state_name proto n)) "UNCONN" ≡ false
unfolding socket_state_name
state-unconn proto n h = rw h (tcp_state_name-unconn n)

clip-udp : (proto : Text) → is proto "UDP" ≡ true → is (clip 8 proto) "UDP" ≡ true
unfolding is equal clip
clip-udp proto h = rw (is-eq proto "UDP" h) refl

listener_test :
    (proto : Text) (n : ℕ)
    → (is (clip 32 (socket_state_name proto n)) "LISTEN"
        || is (clip 32 (socket_state_name proto n)) "UNCONN")
      ≡ (if is (clip 32 (socket_state_name proto n)) "LISTEN"
          then true
          else is (clip 8 proto) "UDP" && is (clip 32 (socket_state_name proto n)) "UNCONN")
listener_test proto n = elim (Bool-cases (is proto "UDP")) [
  | inl e ↦ rw (clip-udp proto e) (ground arith)
  | inr e ↦ rw (state-unconn proto n e) (ground arith)
]

-- For every line of a file and every map of owners, the table, the snapshot and the output of `listeners`
-- agree on whether the connection listens, though they test it differently.
pub listener_tests-agree :
    (sys : System) (owners : List OwnerEntry) (proto : Text) (l : Line)
    → (connection_is_listener (with_owner owners (connection_of sys proto l))
        ≡ is_listener_row (with_owner owners (connection_of sys proto l)))
      × ((summary_row (with_owner owners (connection_of sys proto l))).is_listener
          ≡ is_listener_row (with_owner owners (connection_of sys proto l)))
unfolding with_owner connection_is_listener is_listener_row summary_row
listener_tests-agree sys owners proto l =
    (listener_test proto l.state_num, listener_test proto l.state_num)
