-- ===== src/Cli/Messages.antt =====
-- The message of a command line that `trfx_parse_cli` refuses (src/trfx_cli.c).
use trafix.Prelude.{Bool, true, false, not, List, [], Option, none, some, ◌≡◌, refl, arith}
use trafix.Cstr.{Text, is_empty, clip}
use trafix.Cli.Options.{Mode, invalid, Options, initial, set_unknown_argument}
use trafix.Cli.Rounds.{Yields, Kept, parse_cli_inv}
use trafix.Cli.Parse.{
  is_command, set_proto_filter, set_state_filter, query_round, parse_single, with_profile,
  parse_cli,
}

abbrev pub is_invalid : Mode → Bool
is_invalid invalid = true
is_invalid _ = false

-- There is a message if the mode is INVALID, and none otherwise.
abbrev pub MessageFits : Options → Type 0
MessageFits o = is_empty o.error ≡ not (is_invalid o.mode)

query_round-MessageFits :
    (o : Options) (arg : Text) (value : Option Text)
    → MessageFits o
    → Yields MessageFits (query_round o arg value)
unfolding query_round set_proto_filter set_state_filter clip
query_round-MessageFits o arg none h = ground arith
query_round-MessageFits o arg (some value) h = ground arith

is_command-valid : (arg : Text) {m : Mode} → is_command arg ≡ some m → is_invalid m ≡ false
unfolding is_command
is_command-valid arg h = ground arith

parse_single-MessageFits :
    (o : Options) (arg : Text) → o.error ≡ [] → MessageFits (parse_single o arg)
unfolding parse_single clip
parse_single-MessageFits o arg h = ground arith

MessageFits-Kept : (o : Options) → o.error ≡ [] → is_invalid o.mode ≡ false → Kept MessageFits o
unfolding set_unknown_argument clip
MessageFits-Kept o h m = record {
  start = ground arith;
  confirm = λ o' t h'. h';
  unknown = λ arg o' h'. refl;
  round = query_round-MessageFits;
  single = λ arg. parse_single-MessageFits o arg h;
  moded = λ arg m' e. ground (arith, is_command-valid arg e);
  killed = λ pid. ground arith;
  typed = λ kind. ground arith;
  target = λ kind value name local remote e. ground arith;
}

-- Whatever the arguments are: a command line is refused with a message, or accepted without one.
pub parse_cli-MessageFits : (args : List Text) → MessageFits (parse_cli args)
unfolding with_profile initial clip
parse_cli-MessageFits =
    parse_cli_inv MessageFits (MessageFits-Kept initial refl refl)
      (λ name. MessageFits-Kept (with_profile name initial) refl refl) refl
