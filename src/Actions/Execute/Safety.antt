-- ===== src/Actions/Execute/Safety.antt =====
-- What an executed action may do (src/trfx_actions.c).
use trafix.Prelude.Int.{ℤ}
use trafix.Prelude.{
  ℕ, Bool, true, false, not, ◌&&◌, ◌||◌, List, [], ◌∷◌, Option, none, some, ◌≡◌, refl, inl, inr,
  arith, ◌==◌, All, Bool-cases, sym, subst, ap, ◌∙◌, ==→eq,
}
use trafix.Cstr.{Text}
use trafix.Actions.Audit.{Audit}
use trafix.Actions.Endpoint.{split_endpoint}
use trafix.Actions.Lookup.{parse_pid_value, lookup_process_uid}
use trafix.Actions.Types.{
  ActionKind, no_action, kill_process, drop_connection, drop_socket, Target, Request, address_size,
  protocol_size,
}
use trafix.Actions.World.{
  World, KillOutcome, sent, esrch, eperm, other_errno, SsOutcome, no_child, no_wait, exited,
  signalled, Effect, signal, spawn,
}
use trafix.Actions.Execute.{
  SsDone, after_kill, after_lookup, kill_action, ss_argv, after_ss, run_ss_with, run_ss_drop_action,
  after_drop, drop_action, act, is_no_action, perform, execute,
}

-- The caller is root or the owner of the process.
abbrev pub may_signal : ℕ → ℕ → Bool
may_signal euid uid = euid == 0 || euid == uid

-- Some user owns the process, and the caller may signal it.
abbrev pub IsAllowed : ℕ → Option ℕ → Type 0
IsAllowed euid none = ⊥
IsAllowed euid (some uid) = may_signal euid uid ≡ true

-- Both endpoints could be split, and the arguments are made of them.
abbrev pub ArgvOf : Text → Option (Text × Text) → Option (Text × Text) → List Text → Type 0
ArgvOf protocol (some local) (some remote) argv = argv ≡ ss_argv protocol local remote
ArgvOf protocol _ _ argv = ⊥

abbrev pub is_drop : ActionKind → Bool
is_drop drop_connection = true
is_drop drop_socket = true
is_drop _ = false

-- A signal goes to the PID of the request, whose process the caller may signal; `ss` is run by root,
-- for endpoints that could be split, with their protocol.
abbrev pub EffectFits : World → Request → Bool → ℕ → ℕ → Effect → Type 0
EffectFits w request confirmed euid error_size (signal pid) =
    (confirmed ≡ true)
    × (request.kind ≡ kill_process)
    × (parse_pid_value request.target.pid ≡ some pid)
    × IsAllowed euid (lookup_process_uid w request.target.pid error_size).0
EffectFits w request confirmed euid error_size (spawn argv) =
    (confirmed ≡ true)
    × (is_drop request.kind ≡ true)
    × (euid ≡ 0)
    × ArgvOf request.target.protocol
        (split_endpoint address_size protocol_size request.target.local)
        (split_endpoint address_size protocol_size request.target.remote) argv

after_kill_effects :
    (pid : Text) (error_size : ℕ) (effects : List Effect) (outcome : KillOutcome)
    → (after_kill pid error_size effects outcome).effects ≡ effects
unfolding after_kill
after_kill_effects pid error_size effects sent = refl
after_kill_effects pid error_size effects esrch = refl
after_kill_effects pid error_size effects eperm = refl
after_kill_effects pid error_size effects (other_errno errno text) = refl

abbrev IsSpawn : (List Text → Type 0) → Effect → Type 0
IsSpawn P (signal pid) = ⊥
IsSpawn P (spawn argv) = P argv

after_ss-All :
    (error_size : ℕ) (argv : List Text) (outcome : SsOutcome)
    → All (IsSpawn (λ a. a ≡ argv)) (after_ss error_size argv outcome).effects
unfolding after_ss
after_ss-All error_size argv (no_child text) = tt
after_ss-All error_size argv (no_wait text) = (refl, tt)
after_ss-All error_size argv signalled = (refl, tt)
after_ss-All error_size argv (exited code) = elim (Bool-cases (code == 0)) [
  | inl e ↦ rw e (refl, tt)
  | inr e ↦
      rw e (elim (Bool-cases (code == 127)) [ inl f ↦ rw f (refl, tt) | inr f ↦ rw f (refl, tt) ])
]

run_ss_with-All :
    (w : World) (t : Target) (error_size : ℕ) (local remote : Option (Text × Text))
    → All
        (IsSpawn (ArgvOf t.protocol local remote))
        (run_ss_with w t error_size local remote).effects
unfolding run_ss_with
run_ss_with-All w t error_size (some local) (some remote) =
    let argv = ss_argv t.protocol local remote in after_ss-All error_size argv (w.run_ss argv)
run_ss_with-All w t error_size none remote = tt
run_ss_with-All w t error_size (some local) none = tt

after_drop_effects :
    (kind : ActionKind) (error_size : ℕ) (ss : SsDone)
    → (after_drop kind error_size ss).effects ≡ ss.effects
unfolding after_drop
after_drop_effects kind error_size ss = ground arith

All-map :
    (P Q : Effect → Type 0) (xs : List Effect) → ((x : Effect) → P x → Q x) → All P xs → All Q xs
All-map P Q [] f h = tt
All-map P Q (x ∷ xs) f (h, hs) = (f x h, All-map P Q xs f hs)

-- What a drop may do, and what a kill may do.
abbrev Drops : Target → ℕ → Effect → Type 0
Drops t euid = IsSpawn (λ argv.
    (euid ≡ 0)
    × ArgvOf t.protocol (split_endpoint address_size protocol_size t.local)
        (split_endpoint address_size protocol_size t.remote) argv)

with_root :
    (t : Target) (euid : ℕ)
    → euid ≡ 0
    → (x : Effect)
    → IsSpawn
        (ArgvOf t.protocol
          (split_endpoint address_size protocol_size t.local)
          (split_endpoint address_size protocol_size t.remote))
        x
    → Drops t euid x
with_root t euid e (signal pid) h = h
with_root t euid e (spawn argv) h = (e, h)

run_ss_drop_action-All :
    (w : World) (t : Target) (euid error_size : ℕ)
    → euid ≡ 0
    → All (Drops t euid) (run_ss_drop_action w t error_size).effects
unfolding run_ss_drop_action
run_ss_drop_action-All w t euid error_size e =
    let local = split_endpoint address_size protocol_size t.local in
    let remote = split_endpoint address_size protocol_size t.remote in
    All-map _ _ (run_ss_with w t error_size local remote).effects (with_root t euid e)
      (run_ss_with-All w t error_size local remote)

drop_action-All :
    (w : World) (kind : ActionKind) (t : Target) (euid error_size : ℕ)
    → All (Drops t euid) (drop_action w kind t euid error_size).effects
unfolding drop_action
drop_action-All w kind t euid error_size = elim (Bool-cases (euid == 0)) [
  | inr e ↦ rw e tt
  | inl e ↦
      let h = run_ss_drop_action-All w t euid error_size (==→eq euid 0 e) in
      let d = after_drop_effects kind error_size (run_ss_drop_action w t error_size) in
      rw e (subst (All (Drops t euid)) (sym d) h)
]

abbrev Signals : ℤ → ℕ → Option ℕ → Effect → Type 0
Signals value euid r (signal pid) = (pid ≡ value) × IsAllowed euid r
Signals value euid r (spawn argv) = ⊥

after_lookup-All :
    (w : World) (pid : Text) (value : ℤ) (euid error_size : ℕ) (r : Option ℕ × Text)
    → All (Signals value euid r.0) (after_lookup w pid value euid error_size r).effects
unfolding after_lookup
after_lookup-All w pid value euid error_size (none, error) = tt
after_lookup-All w pid value euid error_size (some uid, error) =
    elim (Bool-cases (not (euid == 0) && not (euid == uid))) [
      | inl e ↦ rw e tt
      | inr e ↦
          rw (e, after_kill_effects pid error_size (signal value ∷ []) (w.kill value))
            ((refl, ground arith), tt)
    ]

abbrev Kills : World → Target → ℕ → ℕ → Effect → Type 0
Kills w t euid error_size (signal pid) =
    (parse_pid_value t.pid ≡ some pid) × IsAllowed euid (lookup_process_uid w t.pid error_size).0
Kills w t euid error_size (spawn argv) = ⊥

with_pid :
    (w : World) (t : Target) (euid error_size : ℕ) (value : ℤ)
    → parse_pid_value t.pid ≡ some value
    → (x : Effect) → Signals value euid (lookup_process_uid w t.pid error_size).0 x
    → Kills w t euid error_size x
with_pid w t euid error_size value e (signal pid) (p, h) = (e ∙ ap some (sym p), h)
with_pid w t euid error_size value e (spawn argv) h = h

kill_action-All :
    (w : World) (t : Target) (euid error_size : ℕ)
    → All (Kills w t euid error_size) (kill_action w t.pid euid error_size).effects
unfolding kill_action
kill_action-All w t euid error_size = go (parse_pid_value t.pid) refl
  where
    go :
        (r : Option ℤ)
        → parse_pid_value t.pid ≡ r
        → All (Kills w t euid error_size) (kill_action w t.pid euid error_size).effects
    go none e = rw (All, e) tt
    go (some value) e =
        let found = lookup_process_uid w t.pid error_size in
        let h = after_lookup-All w t.pid value euid error_size found in
        let h' =
          All-map _ _ (after_lookup w t.pid value euid error_size found).effects
            (with_pid w t euid error_size value e) h in
        rw (All, e) h'

from_drop :
    (w : World) (r : Request) (euid error_size : ℕ)
    → is_drop r.kind ≡ true
    → (x : Effect) → Drops r.target euid x
    → EffectFits w r true euid error_size x
from_drop w r euid error_size d (signal pid) h = absurd h
from_drop w r euid error_size d (spawn argv) (z, h) = (refl, d, z, h)

from_kill :
    (w : World) (r : Request) (euid error_size : ℕ)
    → r.kind ≡ kill_process
    → (x : Effect) → Kills w r.target euid error_size x
    → EffectFits w r true euid error_size x
from_kill w r euid error_size k (signal pid) (p, h) = (refl, k, p, h)
from_kill w r euid error_size k (spawn argv) h = absurd h

act-All :
    (w : World) (r : Request) (kind : ActionKind) (euid error_size : ℕ)
    → r.kind ≡ kind
    → All (EffectFits w r true euid error_size) (act w kind r.target euid error_size).effects
unfolding act
act-All w r no_action euid error_size e = tt
act-All w r kill_process euid error_size e =
    All-map _ _ _ (from_kill w r euid error_size e) (kill_action-All w r.target euid error_size)
act-All w r drop_connection euid error_size e =
    All-map _ _ _ (from_drop w r euid error_size (ap is_drop e))
      (drop_action-All w drop_connection r.target euid error_size)
act-All w r drop_socket euid error_size e =
    All-map _ _ _ (from_drop w r euid error_size (ap is_drop e))
      (drop_action-All w drop_socket r.target euid error_size)

-- The only effects of a request are: SIGTERM to the process that it names, where the request is a
-- confirmed kill, the PID is a number, and the caller is root or the user that owns the process; and a
-- run of `ss -K`, where the request is a confirmed drop, the caller is root, and both endpoints could
-- be split, with the arguments that they give.
pub execute-EffectFits :
    (w : World) (now : ℤ) (audit : Audit) (r : Request) (confirmed : Bool) (euid error_size : ℕ)
    → All
        (EffectFits w r confirmed euid error_size)
        (execute w now audit (some r) confirmed euid error_size).effects
unfolding execute perform
execute-EffectFits w now audit r true euid error_size = elim (Bool-cases (is_no_action r.kind)) [
  | inl e ↦ rw e tt
  | inr e ↦ rw e (act-All w r r.kind euid error_size refl)
]
execute-EffectFits w now audit r false euid error_size = elim (Bool-cases (is_no_action r.kind)) [
  | inl e ↦ rw e tt
  | inr e ↦ rw e tt
]
