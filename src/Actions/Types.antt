-- ===== src/Actions/Types.antt =====
-- The types of include/trfx_actions.h. A buffer of `n` bytes holds at most `n - 1` of a string.
use trafix.Prelude.Int.{ℤ}
use trafix.Prelude.{ℕ, Bool}
use trafix.Cstr.{Text}

pub data PermissionStatus : Type 0 where
  unknown allowed denied unsupported : PermissionStatus

pub data ActionKind : Type 0 where
  no_action kill_process drop_connection drop_socket : ActionKind

pub data TargetKind : Type 0 where
  no_target process connection socket : TargetKind

pub record Target : Type 0 where
  pub kind : TargetKind
  pub pid : Text
  pub process : Text
  pub protocol : Text
  pub local : Text
  pub remote : Text
  pub inode : Text

pub record Request : Type 0 where
  pub kind : ActionKind
  pub target : Target
  pub requires_confirmation : Bool
  pub requires_permission_check : Bool
  pub label : Text
  pub description : Text

pub record Review : Type 0 where
  pub request : Request
  pub permission : PermissionStatus
  pub can_execute : Bool
  pub requires_confirmation : Bool
  pub prompt : Text
  pub details : Text

pub data ResultStatus : Type 0 where
  ok cancelled permission_denied unsupported invalid not_found failed : ResultStatus

pub record Result : Type 0 where
  pub request : Request
  pub status : ResultStatus
  pub system_errno : ℕ
  pub message : Text

pub record AuditEntry : Type 0 where
  pub when : ℤ
  pub request : Request
  pub status : ResultStatus
  pub message : Text

abbrev pub pid_size : ℕ
pid_size = 16

abbrev pub process_size : ℕ
process_size = 64

abbrev pub protocol_size : ℕ
protocol_size = 8

abbrev pub address_size : ℕ
address_size = 64

abbrev pub inode_size : ℕ
inode_size = 16

abbrev pub label_size : ℕ
label_size = 128

abbrev pub text_size : ℕ
text_size = 256
