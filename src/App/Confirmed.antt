-- ===== src/App/Confirmed.antt =====
-- The commands act only on what the user confirmed (src/trfx_app.c).
use trafix.Prelude.{
  ℕ, Bool, true, false, not, ◌&&◌, ◌||◌, List, [], Option, none, some, ◌≡◌, refl, ap, All,
  Bool-cases, inl, inr,
}
use trafix.Cli.Options.{Options}
use trafix.Actions.Execute.Safety.{EffectFits, execute-EffectFits}
use trafix.Actions.Lookup.{lookup_process_uid}
use trafix.Actions.Types.{Request}
use trafix.Actions.World.{Effect}
use trafix.App.{
  Session, confirm_and_execute, confirmed_or_asked, execute_confirmed, is_y, kill_request, with_uid,
  run_kill_command, drop_request, with_target, run_drop_command,
}

-- `--yes`, or the answer "y" at a terminal.
abbrev pub confirms : Session → Options → Bool
confirms s o = o.confirmed || (s.is_tty && is_y s.key)

confirmed_or_asked-EffectFits :
    (s : Session) (request : Request) (c t : Bool)
    → All
        (EffectFits s.world request (c || (t && is_y s.key)) s.euid 256)
        (confirmed_or_asked s request c t).effects
unfolding confirmed_or_asked execute_confirmed
confirmed_or_asked-EffectFits s request true t =
    execute-EffectFits s.world s.now s.audit request true s.euid 256
confirmed_or_asked-EffectFits s request false false = tt
confirmed_or_asked-EffectFits s request false true =
    execute-EffectFits s.world s.now s.audit request (is_y s.key) s.euid 256

confirm_and_execute-EffectFits :
    (s : Session) (o : Options) (request : Request)
    → All
        (EffectFits s.world request (confirms s o) s.euid 256)
        (confirm_and_execute s o request).effects
unfolding confirm_and_execute
confirm_and_execute-EffectFits s o request =
    confirmed_or_asked-EffectFits s request o.confirmed s.is_tty

with_uid-EffectFits :
    (s : Session) (o : Options) (uid : Option ℕ)
    → All
        (EffectFits s.world (kill_request s o) (confirms s o) s.euid 256)
        (with_uid s o uid).effects
with_uid-EffectFits s o none = tt
with_uid-EffectFits s o (some uid) = confirm_and_execute-EffectFits s o (kill_request s o)

-- The only effects of `kill` are those that fit its request: a SIGTERM to the process, where the user
-- gave `--yes` or answered "y" at a terminal, and is root or owns the process.
pub run_kill_command-EffectFits :
    (s : Session) (o : Options)
    → All
        (EffectFits s.world (kill_request s o) (confirms s o) s.euid 256)
        (run_kill_command s o).effects
unfolding run_kill_command
run_kill_command-EffectFits s o = elim (Bool-cases (not o.has_target_pid)) [
  | inl e ↦ rw e tt
  | inr e ↦ rw e (with_uid-EffectFits s o (lookup_process_uid s.world o.target_pid 256).0)
]

-- What fits the request that was found; without one nothing does.
abbrev pub DropFits : Session → Options → Option Request → List Effect → Type 0
DropFits s o none effects = effects ≡ []
DropFits s o (some request) effects =
    All (EffectFits s.world request (confirms s o) s.euid 256) effects

with_target-DropFits :
    (s : Session) (o : Options) (request : Option Request)
    → DropFits s o request (with_target s o request).effects
with_target-DropFits s o none = refl
with_target-DropFits s o (some request) = confirm_and_execute-EffectFits s o request

-- With a target, the only effects of `drop` are those that fit the request that was found: a run of
-- `ss -K` with its endpoints, where the user is root and gave `--yes` or answered "y" at a terminal. If
-- nothing matches the target, there is no effect.
pub run_drop_command-DropFits :
    (s : Session) (o : Options)
    → o.has_drop_target ≡ true
    → DropFits s o (drop_request s o) (run_drop_command s o).effects
unfolding run_drop_command
run_drop_command-DropFits s o h =
    let given : not o.has_drop_target ≡ false = ap not h in
    rw (DropFits, given) (with_target-DropFits s o (drop_request s o))
