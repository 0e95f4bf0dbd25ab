-- ===== src/Actions/Requests.antt =====
-- `set_string`, `trfx_init_action_request` and the setters of a request (src/trfx_actions.c), and
-- the records that they read: `ConnectionInfo` of include/trfx_connections.h and `SocketOwnerInfo` of
-- include/trfx_socket_owners.h. A null pointer is `none`.
use trafix.Prelude.{ℕ, true, false, [], ◌∷◌, ◌++◌, Option, none, some}
use trafix.Cstr.{Text, codes, clip}
use trafix.Actions.Types.{
  no_action, kill_process, drop_connection, drop_socket, TargetKind, Target, Request, pid_size,
  process_size, protocol_size, address_size, inode_size, label_size, text_size,
}

pub record ConnectionInfo : Type 0 where
  pub protocol : Text
  pub local_addr : Text
  pub remote_addr : Text
  pub state : Text
  pub inode : ℕ
  pub uid : ℕ
  pub user : Text
  pub pid : Text
  pub process : Text

pub record SocketOwnerInfo : Type 0 where
  pub pid : Text
  pub process : Text
  pub laddr : Text
  pub lport : Text
  pub raddr : Text
  pub rport : Text
  pub proto : Text

-- An empty value is written as "-".
unfoldable pub set_string : ℕ → Text → Text
set_string size [] = clip size (codes "-")
set_string size (c ∷ s) = clip size (c ∷ s)

abbrev pub no_target_of : Target
no_target_of = record {
  kind = TargetKind.no_target;
  pid = [];
  process = [];
  protocol = [];
  local = [];
  remote = [];
  inode = [];
}

-- A request of zero bytes.
abbrev pub zero_request : Request
zero_request = record {
  kind = no_action;
  target = no_target_of;
  requires_confirmation = false;
  requires_permission_check = false;
  label = [];
  description = [];
}

unfoldable pub init_request : Request
init_request = record {
  kind = no_action;
  target = no_target_of;
  requires_confirmation = true;
  requires_permission_check = true;
  label = codes "no action";
  description = codes "no action selected";
}

unfoldable pub set_process_kill : Text → Text → Request
unfolding init_request
set_process_kill pid process =
    let p = set_string pid_size pid in
    let name = set_string process_size process in
    record init_request {
      kind = kill_process;
      target = record no_target_of { kind = TargetKind.process; pid = p; process = name };
      label = clip label_size (codes "kill process " ++ p);
      description = clip text_size (codes "kill process " ++ p ++ codes " (" ++ name ++ codes ")");
    }

abbrev connection_target : ConnectionInfo → Target
connection_target c = record {
  kind = TargetKind.connection;
  pid = set_string pid_size c.pid;
  process = set_string process_size c.process;
  protocol = set_string protocol_size c.protocol;
  local = set_string address_size c.local_addr;
  remote = set_string address_size c.remote_addr;
  inode = set_string inode_size (codes "-");
}

abbrev socket_target : SocketOwnerInfo → Target
socket_target s = record {
  kind = TargetKind.socket;
  pid = set_string pid_size s.pid;
  process = set_string process_size s.process;
  protocol = set_string protocol_size s.proto;
  local = set_string address_size s.laddr;
  remote = set_string address_size s.raddr;
  inode = [];
}

-- "LOCAL -> REMOTE (PID/PROCESS)"
route_of : Target → Text
route_of t =
    t.local
    ++ codes " -> "
    ++ t.remote
    ++ codes " ("
    ++ t.pid
    ++ codes "/"
    ++ t.process
    ++ codes ")"

unfoldable pub set_connection_drop : Option ConnectionInfo → Request
unfolding init_request route_of
set_connection_drop (some c) =
    let t : Target = connection_target c in
    record init_request {
      kind = drop_connection;
      target = t;
      label = clip label_size (codes "drop connection " ++ t.remote);
      description = clip text_size (codes "drop " ++ t.protocol ++ codes " " ++ route_of t);
    }
set_connection_drop none = record init_request {
  kind = drop_connection;
  target = record no_target_of { kind = TargetKind.connection };
  label = codes "drop connection";
  description = codes "drop selected connection";
}

unfoldable pub set_socket_drop : Option SocketOwnerInfo → Request
unfolding init_request route_of
set_socket_drop (some s) =
    let t : Target = socket_target s in
    record init_request {
      kind = drop_socket;
      target = t;
      label = clip label_size (codes "drop socket " ++ t.local);
      description = clip text_size (codes "drop " ++ t.protocol ++ codes " socket " ++ route_of t);
    }
set_socket_drop none = record init_request {
  kind = drop_socket;
  target = record no_target_of { kind = TargetKind.socket };
  label = codes "drop socket";
  description = codes "drop selected socket";
}
