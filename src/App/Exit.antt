-- ===== src/App/Exit.antt =====
-- The exit codes of the commands that act (src/trfx_app.c).
use trafix.Prelude.{
  ℕ, Bool, true, false, not, Option, none, some, ◌≡◌, refl, ◌∙◌, arith, Bool-cases, inl, inr,
}
use trafix.Cli.Options.{ExitCode, Options}
use trafix.Actions.Execute.{execute}
use trafix.Actions.Execute.Outcomes.{is_ok, succeeded, execute-is_ok}
use trafix.Actions.Lookup.{lookup_process_uid}
use trafix.Actions.Types.{Request, ResultStatus}
use trafix.Actions.World.{World}
use trafix.App.{
  Session, Finished, confirm_and_execute, confirmed_or_asked, execute_confirmed, exit_code, is_y,
  kill_request, with_uid, run_kill_command, drop_request, with_target, run_drop_command,
}

abbrev pub is_success : ExitCode → Bool
is_success ExitCode.ok = true
is_success _ = false

-- The exit code is 0 exactly if the effects succeeded.
abbrev pub CodeFits : World → Finished → Type 0
CodeFits w f = is_success f.code ≡ succeeded w f.effects

exit_code_ok : (status : ResultStatus) → is_success (exit_code status) ≡ is_ok status
unfolding exit_code
exit_code_ok status = ground arith

execute_confirmed-CodeFits :
    (s : Session) (request : Request) (c : Bool) → CodeFits s.world (execute_confirmed s request c)
unfolding execute_confirmed
execute_confirmed-CodeFits s request c =
    exit_code_ok (execute s.world s.now s.audit (some request) c s.euid 256).result.status
    ∙ (execute-is_ok s.world s.now s.audit (some request) c s.euid 256).0

confirmed_or_asked-CodeFits :
    (s : Session) (request : Request) (c t : Bool)
    → CodeFits s.world (confirmed_or_asked s request c t)
unfolding confirmed_or_asked
confirmed_or_asked-CodeFits s request true t = execute_confirmed-CodeFits s request true
confirmed_or_asked-CodeFits s request false false = refl
confirmed_or_asked-CodeFits s request false true = execute_confirmed-CodeFits s request (is_y s.key)

with_uid-CodeFits :
    (s : Session) (o : Options) (uid : Option ℕ) → CodeFits s.world (with_uid s o uid)
unfolding confirm_and_execute
with_uid-CodeFits s o none = refl
with_uid-CodeFits s o (some uid) =
    confirmed_or_asked-CodeFits s (kill_request s o) o.confirmed s.is_tty

with_target-CodeFits :
    (s : Session) (o : Options) (request : Option Request)
    → CodeFits s.world (with_target s o request)
unfolding confirm_and_execute
with_target-CodeFits s o none = refl
with_target-CodeFits s o (some request) = confirmed_or_asked-CodeFits s request o.confirmed s.is_tty

-- `kill` and `drop` exit with 0 exactly if they had one effect and the system reported its success.
pub run_commands-CodeFits :
    (s : Session) (o : Options)
    → CodeFits s.world (run_kill_command s o) × CodeFits s.world (run_drop_command s o)
unfolding run_kill_command run_drop_command
run_commands-CodeFits s o = (kill, drop)
  where
    kill : CodeFits s.world (run_kill_command s o)
    kill = elim (Bool-cases (not o.has_target_pid)) [
      | inl e ↦ rw e refl
      | inr e ↦ rw e (with_uid-CodeFits s o (lookup_process_uid s.world o.target_pid 256).0)
    ]

    drop : CodeFits s.world (run_drop_command s o)
    drop = elim (Bool-cases (not o.has_drop_target)) [
      | inl e ↦ rw e refl
      | inr e ↦ rw e (with_target-CodeFits s o (drop_request s o))
    ]
