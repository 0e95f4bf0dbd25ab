-- ===== src/App/Asked.antt =====
-- The program acts only as its command line asks (`main`, src/trafix.c).
use trafix.Prelude.{
  Bool, true, false, not, List, [], ◌⊎◌, inl, inr, ◌≡◌, refl, All, Bool-cases, ap, if◌then◌else◌,
}
use trafix.Cstr.{Text}
use trafix.Cli.Options.{
  Options, Mode, tui, help, version, interfaces, connections, listeners, system, diagnostics, drop,
  kill, invalid,
}
use trafix.Cli.Parse.{parse_cli}
use trafix.Actions.Execute.Safety.{EffectFits}
use trafix.Actions.World.{Effect}
use trafix.Diagnostics.Alerts.{Floats}
use trafix.App.{kill_request, drop_request, run_drop_command}
use trafix.App.Confirmed.{
  confirms, DropFits, run_kill_command-EffectFits, run_drop_command-DropFits,
}
use trafix.App.Main.{
  Started, Outcome, shown, warned, acted, interface_started, session_of, run_mode, run_tui,
  run_diagnostics_command, main, load,
}

-- What has been done when the outcome is there.
abbrev pub effects_of : Outcome → List Effect
effects_of (shown s) = []
effects_of (warned warnings s) = []
effects_of (acted f) = f.effects
effects_of (interface_started warnings settings) = []

if-quiet :
    (b : Bool) (x y : Outcome)
    → effects_of x ≡ []
    → effects_of y ≡ []
    → effects_of (if b then x else y) ≡ []
if-quiet true x y h k = h
if-quiet false x y h k = k

module _ (F : Floats) (p : Started F) where
  abbrev KillAsked : Options → List Effect → Type 0
  KillAsked o effects =
      (o.mode ≡ kill)
      × All
          (EffectFits p.world (kill_request (session_of F p) o) (confirms (session_of F p) o) p.euid
            256)
          effects

  abbrev DropAsked : Options → List Effect → Type 0
  DropAsked o effects =
      (o.mode ≡ drop)
      × (o.has_drop_target ≡ true)
      × DropFits (session_of F p) o (drop_request (session_of F p) o) effects

  -- No effect; or those of the command that the options ask for.
  abbrev pub OnlyAsked : Options → List Effect → Type 0
  OnlyAsked o effects = (effects ≡ []) ⊎ (KillAsked o effects ⊎ DropAsked o effects)

  run_tui-quiet : (o : Options) → effects_of (run_tui F p o) ≡ []
  unfolding run_tui
  run_tui-quiet o = if-quiet (load F p o).ok _ _ refl refl

  run_diagnostics-quiet : (o : Options) → effects_of (run_diagnostics_command F p o) ≡ []
  unfolding run_diagnostics_command
  run_diagnostics-quiet o = refl

  no_target :
      (o : Options) → o.has_drop_target ≡ false → (run_drop_command (session_of F p) o).effects ≡ []
  unfolding run_drop_command
  no_target o h = let missing : not o.has_drop_target ≡ true = ap not h in rw missing refl

  run_drop-asked :
      (o : Options) → o.mode ≡ drop → OnlyAsked o (run_drop_command (session_of F p) o).effects
  run_drop-asked o e = elim (Bool-cases o.has_drop_target) [
    | inl h ↦ inr (inr (e, h, run_drop_command-DropFits (session_of F p) o h))
    | inr h ↦ inl (no_target o h)
  ]

  run_mode-OnlyAsked :
      (o : Options) (m : Mode) → o.mode ≡ m → OnlyAsked o (effects_of (run_mode F p o m))
  unfolding run_mode
  run_mode-OnlyAsked o help e = inl refl
  run_mode-OnlyAsked o version e = inl refl
  run_mode-OnlyAsked o invalid e = inl refl
  run_mode-OnlyAsked o interfaces e = inl refl
  run_mode-OnlyAsked o connections e = inl refl
  run_mode-OnlyAsked o listeners e = inl refl
  run_mode-OnlyAsked o system e = inl refl
  run_mode-OnlyAsked o diagnostics e = inl (run_diagnostics-quiet o)
  run_mode-OnlyAsked o drop e = run_drop-asked o e
  run_mode-OnlyAsked o kill e = inr (inl (e, run_kill_command-EffectFits (session_of F p) o))
  run_mode-OnlyAsked o tui e = inl (run_tui-quiet o)

  -- Whatever the command line and the machine are: the program has no effect, up to the start of the terminal
  -- interface; or it is asked to `kill`, and its effects are those that fit the request for the process, where
  -- the user gave `--yes` or answered "y" at a terminal; or to `drop`, and its effects are those that fit the
  -- request that was found for the target, where the same holds.
  pub main-OnlyAsked : (args : List Text) → OnlyAsked (parse_cli args) (effects_of (main F p args))
  unfolding main
  main-OnlyAsked args = run_mode-OnlyAsked (parse_cli args) (parse_cli args).mode refl
