-- ===== src/Actions/Names.antt =====
-- The names of kinds and statuses (src/trfx_actions.c).
use trafix.Cstr.{Text, codes}
use trafix.Actions.Types.{
  ActionKind, no_action, kill_process, drop_connection, drop_socket, TargetKind, PermissionStatus,
  ResultStatus,
}

unfoldable pub kind_name : ActionKind → Text
kind_name kill_process = codes "kill process"
kind_name drop_connection = codes "drop connection"
kind_name drop_socket = codes "drop socket"
kind_name no_action = codes "none"

unfoldable pub target_kind_name : TargetKind → Text
target_kind_name TargetKind.process = codes "process"
target_kind_name TargetKind.connection = codes "connection"
target_kind_name TargetKind.socket = codes "socket"
target_kind_name TargetKind.no_target = codes "none"

unfoldable pub permission_status_name : PermissionStatus → Text
permission_status_name PermissionStatus.allowed = codes "allowed"
permission_status_name PermissionStatus.denied = codes "permission denied"
permission_status_name PermissionStatus.unsupported = codes "unsupported"
permission_status_name PermissionStatus.unknown = codes "unknown"

unfoldable pub result_status_name : ResultStatus → Text
result_status_name ResultStatus.ok = codes "ok"
result_status_name ResultStatus.cancelled = codes "cancelled"
result_status_name ResultStatus.permission_denied = codes "permission denied"
result_status_name ResultStatus.unsupported = codes "unsupported"
result_status_name ResultStatus.not_found = codes "not found"
result_status_name ResultStatus.failed = codes "failed"
result_status_name ResultStatus.invalid = codes "invalid"
