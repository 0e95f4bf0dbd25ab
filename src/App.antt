-- ===== src/App.antt =====
-- The commands that act: `trfx_run_kill_command` and `trfx_run_drop_command` (src/trfx_app.c). What
-- `get_connection_info` and `get_socket_owner_info` give, the terminal and the user's key are values that
-- a caller supplies. What is printed is left out.
pub mod Confirmed
pub mod Exit
pub mod Main
pub mod Asked
pub mod Query
use trafix.Prelude.Int.{ℤ}
use trafix.Prelude.{
  ℕ, Bool, true, false, not, ◌&&◌, ◌||◌, List, [], ◌∷◌, ◌++◌, Option, none, some, ◌==◌,
  if◌then◌else◌,
}
use trafix.Cstr.{Text, codes, clip, equal, is}
use trafix.Cli.Options.{ExitCode, Options}
use trafix.Actions.Audit.{Audit}
use trafix.Actions.Execute.{Executed, execute}
use trafix.Actions.Lookup.{lookup_process_name, lookup_process_uid}
use trafix.Actions.Requests.{
  ConnectionInfo, SocketOwnerInfo, set_process_kill, set_connection_drop, set_socket_drop,
}
use trafix.Actions.Types.{Request, ResultStatus, process_size, label_size, text_size}
use trafix.Actions.World.{World, Effect}

pub record Session : Type 0 where
  pub world : World
  pub euid : ℕ
  pub now : ℤ
  pub audit : Audit
  pub connections : List ConnectionInfo
  pub sockets : List SocketOwnerInfo
  -- `isatty(STDIN_FILENO)`, and what `getchar` returns, if it is no EOF.
  pub is_tty : Bool
  pub key : Option ℕ

pub record Finished : Type 0 where
  pub code : ExitCode
  pub effects : List Effect
  pub audit : Audit

abbrev pub stopped : Session → ExitCode → Finished
stopped s code = record { code = code; effects = []; audit = s.audit }

abbrev pub is_y : Option ℕ → Bool
is_y none = false
is_y (some c) = c == b'y' || c == b'Y'

-- The answer to the prompt.
unfoldable pub prompt_confirm_action : Session → Bool
prompt_confirm_action s = is_y s.key

unfoldable pub exit_code : ResultStatus → ExitCode
exit_code ResultStatus.ok = ExitCode.ok
exit_code ResultStatus.not_found = ExitCode.data_unavailable
exit_code _ = ExitCode.error

unfoldable pub execute_confirmed : Session → Request → Bool → Finished
unfolding exit_code
execute_confirmed s request confirmed =
    let done = execute s.world s.now s.audit (some request) confirmed s.euid 256 in
    record { code = exit_code done.result.status; effects = done.effects; audit = done.audit }

-- `options->confirmed`, and whether there is a terminal to ask at.
unfoldable pub confirmed_or_asked : Session → Request → Bool → Bool → Finished
unfolding prompt_confirm_action
confirmed_or_asked s request true is_tty = execute_confirmed s request true
confirmed_or_asked s request false false = stopped s ExitCode.error
confirmed_or_asked s request false true = execute_confirmed s request (prompt_confirm_action s)

unfoldable pub confirm_and_execute : Session → Options → Request → Finished
unfolding confirmed_or_asked
confirm_and_execute s o request = confirmed_or_asked s request o.confirmed s.is_tty

-- The request that is filled in with the process's name, if it has one.
abbrev pub with_name : Request → Option Text → Request
with_name request none = request
with_name request (some name) = record request {
  target = record request.target { process = clip process_size name };
  description = clip text_size (
      codes "kill process "
      ++ request.target.pid
      ++ codes " ("
      ++ clip process_size name
      ++ codes ")");
  label = clip label_size (codes "kill process " ++ request.target.pid);
}

unfoldable pub kill_request : Session → Options → Request
unfolding set_process_kill
kill_request s o =
    with_name (set_process_kill o.target_pid (codes "-"))
      (lookup_process_name s.world o.target_pid process_size 256).0

abbrev pub with_uid : Session → Options → Option ℕ → Finished
with_uid s o none = stopped s ExitCode.data_unavailable
with_uid s o (some uid) = confirm_and_execute s o (kill_request s o)

unfoldable pub run_kill_command : Session → Options → Finished
run_kill_command s o =
    if not o.has_target_pid
    then stopped s ExitCode.error
    else with_uid s o (lookup_process_uid s.world o.target_pid 256).0

unfoldable pub connection_matches_drop_target : Options → ConnectionInfo → Bool
connection_matches_drop_target o c =
    equal c.protocol o.drop_proto
    && equal c.local_addr o.drop_local
    && equal c.remote_addr o.drop_remote

unfoldable pub socket_matches_drop_target : Options → SocketOwnerInfo → Bool
socket_matches_drop_target o s =
    equal s.proto o.drop_proto && equal s.laddr o.drop_local && equal s.raddr o.drop_remote

-- The first that matches.
abbrev pub find_first {ℓ} : {A : Type ℓ} → (A → Bool) → List A → Option A
find_first p [] = none
find_first p (x ∷ xs) = if p x then some x else find_first p xs

abbrev connection_request : Option ConnectionInfo → Option Request
connection_request none = none
connection_request (some c) = some (set_connection_drop (some c))

abbrev socket_request : Option SocketOwnerInfo → Option Request
socket_request none = none
socket_request (some c) = some (set_socket_drop (some c))

unfoldable pub drop_request : Session → Options → Option Request
drop_request s o =
    if is o.drop_kind "connection"
    then connection_request (find_first (connection_matches_drop_target o) s.connections)
    else if is o.drop_kind "socket"
    then socket_request (find_first (socket_matches_drop_target o) s.sockets)
    else none

abbrev pub with_target : Session → Options → Option Request → Finished
with_target s o none = stopped s ExitCode.data_unavailable
with_target s o (some request) = confirm_and_execute s o request

unfoldable pub run_drop_command : Session → Options → Finished
run_drop_command s o =
    if not o.has_drop_target then stopped s ExitCode.error else with_target s o (drop_request s o)
