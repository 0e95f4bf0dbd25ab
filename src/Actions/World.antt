-- ===== src/Actions/World.antt =====
-- What src/trfx_actions.c asks of the operating system, as functions that a caller supplies, and the
-- effects that it has there.
use trafix.Prelude.Int.{ℤ}
use trafix.Prelude.{ℕ, List, Option}
use trafix.Cstr.{Text}

-- `kill(pid, SIGTERM)`: 0, or -1 with an `errno` and its `strerror`.
pub data KillOutcome : Type 0 where
  sent : KillOutcome
  esrch eperm : KillOutcome
  other_errno : ℕ → Text → KillOutcome

-- `fork`, `execvp("ss", argv)` and `waitpid`: no child, no status, an exit status, or a signal.
pub data SsOutcome : Type 0 where
  no_child no_wait : Text → SsOutcome
  exited : ℕ → SsOutcome
  signalled : SsOutcome

pub record World : Type 0 where
  -- The contents of a file that can be opened.
  pub read_file : Text → Option Text
  pub kill : ℤ → KillOutcome
  pub run_ss : List Text → SsOutcome

-- What a call did outside the program.
pub data Effect : Type 0 where
  signal : ℤ → Effect
  spawn : List Text → Effect
