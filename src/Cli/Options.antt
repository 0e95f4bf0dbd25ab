-- ===== src/Cli/Options.antt =====
-- include/trfx_cli.h: `TrfxCliMode`, `TrfxCliOutputFormat`, `TrfxExitCode`, `TrfxCliOptions`. A flag
-- of type `int` that only ever holds 0 or 1 is a `Bool`.
use trafix.Prelude.{ℕ, Bool, false, [], ◌++◌}
use trafix.Cstr.{Text, codes, clip}

pub data Mode : Type 0 where
  tui help version interfaces connections listeners system diagnostics drop kill invalid : Mode

pub data OutputFormat : Type 0 where
  text json : OutputFormat

pub data ExitCode : Type 0 where
  ok error data_unavailable : ExitCode

abbrev pub error_max : ℕ
error_max = 128

abbrev pub proto_filter_max : ℕ
proto_filter_max = 8

abbrev pub state_filter_max : ℕ
state_filter_max = 32

abbrev pub target_pid_max : ℕ
target_pid_max = 16

abbrev pub drop_kind_max : ℕ
drop_kind_max = 16

abbrev pub endpoint_max : ℕ
endpoint_max = 64

abbrev pub profile_name_max : ℕ
profile_name_max = 64

pub record Options : Type 0 where
  pub mode : Mode
  pub output_format : OutputFormat
  pub has_proto_filter : Bool
  pub proto_filter : Text
  pub has_state_filter : Bool
  pub state_filter : Text
  pub has_target_pid : Bool
  pub target_pid : Text
  pub has_drop_target : Bool
  pub drop_kind : Text
  pub drop_proto : Text
  pub drop_local : Text
  pub drop_remote : Text
  pub has_profile : Bool
  pub profile_name : Text
  pub confirmed : Bool
  pub error : Text

-- The initializer of `options`; what it does not name is zero.
unfoldable pub initial : Options
initial = record {
  mode = tui;
  output_format = text;
  has_proto_filter = false;
  proto_filter = [];
  has_state_filter = false;
  state_filter = [];
  has_target_pid = false;
  target_pid = [];
  has_drop_target = false;
  drop_kind = [];
  drop_proto = [];
  drop_local = [];
  drop_remote = [];
  has_profile = false;
  profile_name = [];
  confirmed = false;
  error = [];
}

-- Mode INVALID with a message.
abbrev pub invalid_with : Text → Options → Options
invalid_with message o = record o { mode = invalid; error = clip error_max message }

unfoldable pub set_unknown_argument : Text → Options → Options
set_unknown_argument arg o = invalid_with (codes "unknown argument: " ++ arg) o
