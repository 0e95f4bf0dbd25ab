-- ===== src/Cli/Confirmation.antt =====
-- `--yes` and the commands that act (src/trfx_cli.c).
use trafix.Prelude.{
  Bool, true, false, ◌||◌, List, [], ◌∷◌, Option, none, some, ◌≡◌, refl, ◌⊎◌, arith, all, false_or,
  if◌then◌else◌,
}
use trafix.Cstr.{Text, codes, is, clip}
use trafix.Cli.Options.{kill, drop, invalid, Options, initial, set_unknown_argument, target_pid_max}
use trafix.Cli.Filters.{proto_name-known}
use trafix.Cli.Rounds.{HasTarget, Yields, Kept, parse_cli_inv}
use trafix.Cli.Parse.{
  set_proto_filter, set_state_filter, confirm_flags, query_round, parse_single, parse_kill,
  parse_command, with_profile, parse_cli,
}

abbrev pub is_yes : Text → Bool
is_yes arg = is arg "--yes" || is arg "-y"

-- What is confirmed, and which target goes with which mode.
record TargetsFit (o : Options) : Type 0 where
  pub confirmed_target : o.confirmed ≡ true → HasTarget o
  pub pid_kills : o.has_target_pid ≡ true → (o.mode ≡ kill) ⊎ (o.mode ≡ invalid)
  pub target_drops : o.has_drop_target ≡ true → (o.mode ≡ drop) ⊎ (o.mode ≡ invalid)
  pub proto_known :
      o.has_drop_target ≡ true → (o.drop_proto ≡ codes "TCP") ⊎ (o.drop_proto ≡ codes "UDP")

query_round-TargetsFit :
    (o : Options) (arg : Text) (value : Option Text)
    → TargetsFit o
    → Yields TargetsFit (query_round o arg value)
unfolding query_round set_proto_filter set_state_filter
query_round-TargetsFit o arg none h = ground arith
query_round-TargetsFit o arg (some value) h = ground arith

parse_single-TargetsFit :
    (o : Options) (arg : Text)
    → o.confirmed ≡ false
    → o.has_target_pid ≡ false
    → o.has_drop_target ≡ false
    → TargetsFit (parse_single o arg)
unfolding parse_single
parse_single-TargetsFit o arg c p d = ground arith

TargetsFit-Kept :
    (o : Options)
    → o.confirmed ≡ false
    → o.has_target_pid ≡ false
    → o.has_drop_target ≡ false
    → Kept TargetsFit o
unfolding set_unknown_argument
TargetsFit-Kept o c p d = record {
  start = ground arith;
  confirm = λ o' t h. ground arith;
  unknown = λ arg o' h. ground arith;
  round = query_round-TargetsFit;
  single = λ arg. parse_single-TargetsFit o arg c p d;
  moded = λ arg m e. ground arith;
  killed = λ pid. ground arith;
  typed = λ kind. ground arith;
  target = λ kind value name local remote e. ground (arith, proto_name-known value e);
}

parse_cli-Fit : (args : List Text) → TargetsFit (parse_cli args)
unfolding with_profile initial
parse_cli-Fit =
    parse_cli_inv TargetsFit (TargetsFit-Kept initial refl refl refl)
      (λ name. TargetsFit-Kept (with_profile name initial) refl refl refl) (ground arith)

-- The confirmation, the PID and the endpoints of a result.
abbrev pub ConfirmedFits : Options → Type 0
ConfirmedFits o = (o.confirmed ≡ false) ⊎ HasTarget o

abbrev pub PidFits : Options → Type 0
PidFits o = (o.has_target_pid ≡ false) ⊎ ((o.mode ≡ kill) ⊎ (o.mode ≡ invalid))

abbrev pub DropFits : Options → Type 0
DropFits o =
    (o.has_drop_target ≡ false)
    ⊎ (((o.mode ≡ drop) ⊎ (o.mode ≡ invalid))
        × ((o.drop_proto ≡ codes "TCP") ⊎ (o.drop_proto ≡ codes "UDP")))

-- Whatever the arguments are: a result is confirmed only with a target; a PID goes with `kill`, and
-- endpoints with `drop` and the protocol "TCP" or "UDP", unless the command line is refused.
pub parse_cli-TargetsFit :
    (args : List Text)
    → ConfirmedFits (parse_cli args) × PidFits (parse_cli args) × DropFits (parse_cli args)
parse_cli-TargetsFit args =
    let o = parse_cli args in
    let h = parse_cli-Fit args in
    (
      false_or o.confirmed h.confirmed_target,
      false_or o.has_target_pid h.pid_kills,
      false_or o.has_drop_target (λ e. (h.target_drops e, h.proto_known e)),
    )

abbrev pub starts_yes : List Text → Bool
starts_yes [] = false
starts_yes (arg ∷ args) = is_yes arg

confirm_flags_lem :
    (o : Options) (flags : List Text)
    → ((confirm_flags o flags).mode ≡ (if all is_yes flags then o.mode else invalid))
      × ((confirm_flags o flags).confirmed ≡ (o.confirmed || starts_yes flags))
      × ((confirm_flags o flags).target_pid ≡ o.target_pid)
      × ((confirm_flags o flags).has_target_pid ≡ o.has_target_pid)
      × ((confirm_flags o flags).drop_kind ≡ o.drop_kind)
      × ((confirm_flags o flags).drop_local ≡ o.drop_local)
      × ((confirm_flags o flags).drop_remote ≡ o.drop_remote)
unfolding confirm_flags
confirm_flags_lem o [] = ground arith
confirm_flags_lem o (arg ∷ args) =
    ground (arith, confirm_flags_lem (record o { confirmed = true }) args)

-- `kill PID FLAGS`: the command is accepted exactly if every flag is `--yes` or `-y`, it is
-- confirmed exactly if the first one is, and the PID is the argument, cut to its buffer.
pub parse_cli-kill :
    (pid : Text) (flags : List Text)
    → let o = parse_cli (codes "kill" ∷ pid ∷ flags) in
      (o.mode ≡ (if all is_yes flags then kill else invalid))
      × (o.confirmed ≡ starts_yes flags)
      × (o.has_target_pid ≡ true)
      × (o.target_pid ≡ clip target_pid_max pid)
unfolding parse_cli parse_command parse_kill initial is
parse_cli-kill pid flags =
    let start = record initial {
      mode = kill;
      target_pid = clip target_pid_max pid;
      has_target_pid = true;
    } in
    let (m, c, t, h, _, _, _) = confirm_flags_lem start flags in (m, c, h, t)
