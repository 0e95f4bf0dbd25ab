-- ===== src/Actions/Execute/Outcomes.antt =====
-- The status of an executed action (src/trfx_actions.c).
use trafix.Prelude.Int.{ℤ}
use trafix.Prelude.{
  ℕ, Bool, true, false, not, ◌&&◌, List, [], ◌∷◌, Option, none, some, ◌≡◌, refl, inl, inr, ◌==◌,
  Bool-cases, sym, ◌∙◌,
}
use trafix.Cstr.{Text, codes, is_empty, contains}
use trafix.Actions.Audit.{Audit, append, entry_of, record_action_audit}
use trafix.Actions.Lookup.{parse_pid_value, lookup_process_uid}
use trafix.Actions.Types.{
  ActionKind, no_action, kill_process, drop_connection, drop_socket, Target, Request, ResultStatus,
  ok,
}
use trafix.Actions.World.{
  World, KillOutcome, sent, esrch, eperm, other_errno, SsOutcome, no_child, no_wait, exited,
  signalled, Effect, signal, spawn,
}
use trafix.Actions.Execute.{
  SsDone, after_kill, after_lookup, kill_action, ss_argv, after_ss, run_ss_with, run_ss_drop_action,
  after_drop, drop_action, act, is_no_action, perform, execute,
}

abbrev pub is_ok : ResultStatus → Bool
is_ok ok = true
is_ok _ = false

abbrev kill_succeeds : KillOutcome → Bool
kill_succeeds sent = true
kill_succeeds _ = false

abbrev ss_succeeds : SsOutcome → Bool
ss_succeeds (exited code) = code == 0
ss_succeeds _ = false

-- There is one effect, and the system reports its success.
abbrev pub succeeded : World → List Effect → Bool
succeeded w (signal pid ∷ []) = kill_succeeds (w.kill pid)
succeeded w (spawn argv ∷ []) = ss_succeeds (w.run_ss argv)
succeeded w _ = false

after_kill_ok :
    (w : World) (text : Text) (error_size : ℕ) (pid : ℤ) (outcome : KillOutcome)
    → w.kill pid ≡ outcome
    → is_ok (after_kill text error_size (signal pid ∷ []) outcome).status
      ≡ succeeded w (after_kill text error_size (signal pid ∷ []) outcome).effects
unfolding after_kill
after_kill_ok w text n pid sent e = rw e refl
after_kill_ok w text n pid esrch e = rw e refl
after_kill_ok w text n pid eperm e = rw e refl
after_kill_ok w text n pid (other_errno errno reason) e = rw e refl

after_lookup_ok :
    (w : World) (text : Text) (pid : ℤ) (euid n : ℕ) (r : Option ℕ × Text)
    → is_ok (after_lookup w text pid euid n r).status
      ≡ succeeded w (after_lookup w text pid euid n r).effects
unfolding after_lookup
after_lookup_ok w text pid euid n (none, error) = refl
after_lookup_ok w text pid euid n (some uid, error) =
    elim (Bool-cases (not (euid == 0) && not (euid == uid))) [
      | inl e ↦ rw e refl
      | inr e ↦ rw e (after_kill_ok w text n pid (w.kill pid) refl)
    ]

kill_action_ok :
    (w : World) (pid : Text) (euid n : ℕ)
    → is_ok (kill_action w pid euid n).status ≡ succeeded w (kill_action w pid euid n).effects
unfolding kill_action
kill_action_ok w pid euid n = go (parse_pid_value pid) refl
  where
    go :
        (r : Option ℤ)
        → parse_pid_value pid ≡ r
        → is_ok (kill_action w pid euid n).status ≡ succeeded w (kill_action w pid euid n).effects
    go none e = rw (is_ok, succeeded, e) refl
    go (some value) e =
        rw (is_ok, succeeded, e) (after_lookup_ok w pid value euid n (lookup_process_uid w pid n))

after_ss_ok :
    (w : World) (n : ℕ) (argv : List Text) (outcome : SsOutcome)
    → w.run_ss argv ≡ outcome
    → (after_ss n argv outcome).dropped ≡ succeeded w (after_ss n argv outcome).effects
unfolding after_ss
after_ss_ok w n argv (no_child text) e = refl
after_ss_ok w n argv (no_wait text) e = rw e refl
after_ss_ok w n argv signalled e = rw e refl
after_ss_ok w n argv (exited code) e = elim (Bool-cases (code == 0)) [
  | inl f ↦ rw (f, e, f) refl
  | inr f ↦
      rw f
        (elim (Bool-cases (code == 127)) [ inl g ↦ rw (g, e, f) refl | inr g ↦ rw (g, e, f) refl ])
]

run_ss_ok :
    (w : World) (t : Target) (n : ℕ) (local remote : Option (Text × Text))
    → (run_ss_with w t n local remote).dropped
      ≡ succeeded w (run_ss_with w t n local remote).effects
unfolding run_ss_with
run_ss_ok w t n (some local) (some remote) =
    let argv = ss_argv t.protocol local remote in after_ss_ok w n argv (w.run_ss argv) refl
run_ss_ok w t n none remote = refl
run_ss_ok w t n (some local) none = refl

after_drop_ok :
    (w : World) (kind : ActionKind) (n : ℕ) (ss : SsDone)
    → ss.dropped ≡ succeeded w ss.effects
    → is_ok (after_drop kind n ss).status ≡ succeeded w (after_drop kind n ss).effects
unfolding after_drop
after_drop_ok w kind n ss h = elim (Bool-cases ss.dropped) [
  | inl e ↦ rw e (sym e ∙ h)
  | inr e ↦ rw e (elim (Bool-cases (not (is_empty ss.error))) [
    | inr f ↦ rw f (sym e ∙ h)
    | inl f ↦ rw f (elim (Bool-cases (contains ss.error (codes "not installed"))) [
      | inl g ↦ rw g (sym e ∙ h)
      | inr g ↦ rw g (sym e ∙ h)
    ])
  ])
]

drop_action_ok :
    (w : World) (kind : ActionKind) (t : Target) (euid n : ℕ)
    → is_ok (drop_action w kind t euid n).status ≡ succeeded w (drop_action w kind t euid n).effects
unfolding drop_action run_ss_drop_action
drop_action_ok w kind t euid n = elim (Bool-cases (euid == 0)) [
  | inr e ↦ rw e refl
  | inl e ↦ rw e (after_drop_ok w kind n (run_ss_drop_action w t n) (run_ss_ok w t n _ _))
]

act_ok :
    (w : World) (kind : ActionKind) (t : Target) (euid n : ℕ)
    → is_ok (act w kind t euid n).status ≡ succeeded w (act w kind t euid n).effects
unfolding act
act_ok w no_action t euid n = refl
act_ok w kill_process t euid n = kill_action_ok w t.pid euid n
act_ok w drop_connection t euid n = drop_action_ok w drop_connection t euid n
act_ok w drop_socket t euid n = drop_action_ok w drop_socket t euid n

-- The status of an executed request is "ok" exactly if the request had one effect and the system
-- reported its success: `kill` returned 0, or `ss` exited with 0. The audit ring is then the old one
-- with one entry, of the request and the result.
pub execute-is_ok :
    (w : World) (now : ℤ) (audit : Audit) (r : Option Request) (confirmed : Bool) (euid n : ℕ)
    → let done = execute w now audit r confirmed euid n in
      (is_ok done.result.status ≡ succeeded w done.effects)
      × (done.audit ≡ append audit (entry_of now r (some done.result)))
unfolding execute perform record_action_audit
execute-is_ok w now audit none confirmed euid n = (refl, refl)
execute-is_ok w now audit (some r) true euid n = elim (Bool-cases (is_no_action r.kind)) [
  | inl e ↦ rw e (refl, refl)
  | inr e ↦ rw e (act_ok w r.kind r.target euid n, refl)
]
execute-is_ok w now audit (some r) false euid n = elim (Bool-cases (is_no_action r.kind)) [
  | inl e ↦ rw e (refl, refl)
  | inr e ↦ rw e (refl, refl)
]
