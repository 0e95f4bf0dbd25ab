-- ===== src/Actions/Execute.antt =====
-- `run_ss_drop_action`, `trfx_execute_action_request` and `finalize_action_result`
-- (src/trfx_actions.c). The error buffer has `error_size > 0` bytes, as at every call. Of the kinds no
-- fifth is left for the last block of the source.
pub mod Safety
pub mod Outcomes
pub mod Sockets
use trafix.Prelude.Int.{ℤ}
use trafix.Prelude.{
  ℕ, Bool, true, false, not, ◌&&◌, List, [], ◌∷◌, ◌++◌, Option, none, some, ◌==◌, if◌then◌else◌,
}
use trafix.Cstr.Number.{show}
use trafix.Cstr.{Text, codes, clip, is, is_empty, contains}
use trafix.Actions.Audit.{Audit, record_action_audit}
use trafix.Actions.Endpoint.{split_endpoint}
use trafix.Actions.Lookup.{parse_pid_value, lookup_process_uid}
use trafix.Actions.Names.{kind_name}
use trafix.Actions.Requests.{zero_request}
use trafix.Actions.Types.{
  ActionKind, no_action, kill_process, drop_connection, drop_socket, Target, Request, ResultStatus,
  Result, address_size, protocol_size, text_size,
}
use trafix.Actions.World.{
  World, KillOutcome, sent, esrch, eperm, other_errno, SsOutcome, no_child, no_wait, exited,
  signalled, Effect, signal, spawn,
}

-- What a run leaves: the result's fields, the error buffer, and the effects.
pub record Done : Type 0 where
  pub status : ResultStatus
  pub system_errno : ℕ
  pub message : Text
  pub error : Text
  pub effects : List Effect

-- The message is written, and copied to the error buffer.
abbrev pub done : ResultStatus → ℕ → Text → ℕ → List Effect → Done
done status system_errno message error_size effects = record {
  status = status;
  system_errno = system_errno;
  message = clip text_size message;
  error = clip error_size (clip text_size message);
  effects = effects;
}

abbrev pub errno_esrch : ℕ
errno_esrch = 3

abbrev pub errno_eperm : ℕ
errno_eperm = 1

-- Behind the call of `kill`.
unfoldable pub after_kill : Text → ℕ → List Effect → KillOutcome → Done
after_kill pid error_size effects sent =
    done ResultStatus.ok 0 (codes "sent SIGTERM to " ++ pid) error_size effects
after_kill pid error_size effects esrch =
    done ResultStatus.not_found errno_esrch (codes "process " ++ pid ++ codes " not found")
      error_size effects
after_kill pid error_size effects eperm =
    done ResultStatus.permission_denied errno_eperm
      (codes "permission denied while killing " ++ pid) error_size effects
after_kill pid error_size effects (other_errno errno text) =
    done ResultStatus.failed errno (codes "failed to kill " ++ pid ++ codes ": " ++ text) error_size
      effects

-- Behind the lookup of the user.
unfoldable pub after_lookup : World → Text → ℤ → ℕ → ℕ → Option ℕ × Text → Done
unfolding after_kill
after_lookup w pid pid_value euid error_size (none, error) = record {
  status = ResultStatus.not_found;
  system_errno = 0;
  message = clip text_size (codes "process " ++ pid ++ codes " not found");
  error =
      if is_empty error
      then clip error_size (clip text_size (codes "process " ++ pid ++ codes " not found"))
      else error;
  effects = [];
}
after_lookup w pid pid_value euid error_size (some uid, error) =
    if not (euid == 0) && not (euid == uid)
    then done ResultStatus.permission_denied 0
        (codes "permission denied: requires root or uid " ++ show uid) error_size []
    else after_kill pid error_size (signal pid_value ∷ []) (w.kill pid_value)

unfoldable pub kill_action : World → Text → ℕ → ℕ → Done
unfolding after_lookup
kill_action w pid euid error_size = elim (parse_pid_value pid) [
  | none ↦
      done ResultStatus.invalid 0
        (codes "invalid process id: " ++ (if is_empty pid then codes "-" else pid)) error_size []
  | some pid_value ↦
      after_lookup w pid pid_value euid error_size (lookup_process_uid w pid error_size)
]

-- "src HOST sport PORT", if both are there.
abbrev pub address_args : Text → Text → Text × Text → List Text
address_args host_word port_word (host, port) =
    if not (is_empty host) && not (is_empty port)
    then host_word ∷ host ∷ port_word ∷ port ∷ []
    else []

unfoldable pub ss_argv : Text → Text × Text → Text × Text → List Text
ss_argv protocol local remote =
    codes "ss"
    ∷ codes "-K"
    ∷ (if is protocol "UDP" then codes "udp" else codes "tcp")
    ∷ (address_args (codes "src") (codes "sport") local
        ++ address_args (codes "dst") (codes "dport") remote)

-- 1 or 0, the error buffer, and the effects.
pub record SsDone : Type 0 where
  pub dropped : Bool
  pub error : Text
  pub effects : List Effect

abbrev ss_failed : Text → ℕ → List Effect → SsDone
ss_failed message error_size effects = record {
  dropped = false;
  error = clip error_size message;
  effects = effects;
}

unfoldable pub after_ss : ℕ → List Text → SsOutcome → SsDone
after_ss error_size argv (no_child text) =
    ss_failed (codes "failed to launch ss: " ++ text) error_size []
after_ss error_size argv (no_wait text) =
    ss_failed (codes "failed to wait for ss: " ++ text) error_size (spawn argv ∷ [])
after_ss error_size argv signalled =
    ss_failed (codes "ss could not drop the selected target") error_size (spawn argv ∷ [])
after_ss error_size argv (exited code) =
    if code == 0
    then record { dropped = true; error = []; effects = spawn argv ∷ [] }
    else if code == 127
    then ss_failed (codes "ss is not installed") error_size (spawn argv ∷ [])
    else ss_failed (codes "ss could not drop the selected target") error_size (spawn argv ∷ [])

run_ss_with : World → Target → ℕ → Option (Text × Text) → Option (Text × Text) → SsDone
unfolding after_ss ss_argv
run_ss_with w target error_size (some local) (some remote) =
    let argv = ss_argv target.protocol local remote in after_ss error_size argv (w.run_ss argv)
run_ss_with w target error_size _ _ =
    ss_failed (codes "connection endpoints unavailable") error_size []

unfoldable pub run_ss_drop_action : World → Target → ℕ → SsDone
unfolding run_ss_with
run_ss_drop_action w target error_size =
    run_ss_with w target error_size (split_endpoint address_size protocol_size target.local)
      (split_endpoint address_size protocol_size target.remote)

-- Behind `run_ss_drop_action`.
unfoldable pub after_drop : ActionKind → ℕ → SsDone → Done
unfolding kind_name
after_drop kind error_size ss =
    if ss.dropped
    then done ResultStatus.ok 0 (kind_name kind ++ codes " completed") error_size ss.effects
    else if not (is_empty ss.error)
    then record {
      status =
          if contains ss.error (codes "not installed")
          then ResultStatus.unsupported
          else ResultStatus.failed;
      system_errno = 0;
      message = clip text_size ss.error;
      error = ss.error;
      effects = ss.effects;
    }
    else record {
      status = ResultStatus.unsupported;
      system_errno = 0;
      message = clip text_size (kind_name kind ++ codes " is not supported yet");
      error = [];
      effects = ss.effects;
    }

unfoldable pub drop_action : World → ActionKind → Target → ℕ → ℕ → Done
unfolding after_drop
drop_action w kind target euid error_size =
    if not (euid == 0)
    then done ResultStatus.permission_denied 0
        (codes "permission denied: root required to drop sockets") error_size []
    else after_drop kind error_size (run_ss_drop_action w target error_size)

-- A confirmed request of each kind.
unfoldable pub act : World → ActionKind → Target → ℕ → ℕ → Done
act w no_action target euid error_size =
    done ResultStatus.invalid 0 (codes "no action selected") error_size []
act w kill_process target euid error_size = kill_action w target.pid euid error_size
act w drop_connection target euid error_size = drop_action w drop_connection target euid error_size
act w drop_socket target euid error_size = drop_action w drop_socket target euid error_size

abbrev pub is_no_action : ActionKind → Bool
is_no_action no_action = true
is_no_action _ = false

unfoldable pub perform : World → Option Request → Bool → ℕ → ℕ → Done
perform w none confirmed euid error_size =
    done ResultStatus.invalid 0 (codes "no action selected") error_size []
perform w (some request) confirmed euid error_size =
    if is_no_action request.kind
    then done ResultStatus.invalid 0 (codes "no action selected") error_size []
    else if not confirmed
    then done ResultStatus.cancelled 0 (codes "action cancelled") error_size []
    else act w request.kind request.target euid error_size

pub record Executed : Type 0 where
  pub result : Result
  pub error : Text
  pub effects : List Effect
  pub audit : Audit

abbrev request_or_zero : Option Request → Request
request_or_zero none = zero_request
request_or_zero (some request) = request

-- Every return is by `finalize_action_result`, which records the result.
unfoldable pub execute : World → ℤ → Audit → Option Request → Bool → ℕ → ℕ → Executed
execute w now audit request confirmed euid error_size =
    let d = perform w request confirmed euid error_size in
    let result : Result = record {
      request = request_or_zero request;
      status = d.status;
      system_errno = d.system_errno;
      message = d.message;
    } in
    record {
      result = result;
      error = d.error;
      effects = d.effects;
      audit = record_action_audit audit now request (some result);
    }
