-- ===== src/Tests/CommandLine.antt =====
-- Command lines (src/trfx_cli.c).
use trafix.Prelude.{true, List, [], ◌∷◌, ◌≡◌, refl, arith}
use trafix.Cstr.{Text, codes, is, clip}
use trafix.Cli.Options.{connections, initial}
use trafix.Cli.Parse.{is_supported_state_filter, with_profile, proto_name, parse_cli}
use trafix.Cli.Confirmation.{ConfirmedFits, PidFits, DropFits, parse_cli-TargetsFit}
use trafix.Cli.Profile.{parse_cli-profile}
use trafix.Cli.Query.{Flag, json_flag, tcp_flag, state_flag, write, ask, parse_cli-write}

abbrev drop_args : List Text
drop_args =
    codes "drop"
    ∷ codes "connection"
    ∷ codes "tcp"
    ∷ codes "10.0.0.1:22"
    ∷ codes "10.0.0.2:5555"
    ∷ codes "--yes"
    ∷ []

abbrev listen_args : List Text
listen_args = codes "connections" ∷ codes "--state" ∷ codes "LISTEN" ∷ codes "--json" ∷ []

drop_confirmed : (parse_cli drop_args).confirmed ≡ true
unfolding parse_cli proto_name is clip
drop_confirmed = refl

parse_cli-TargetsFit_example :
    ConfirmedFits (parse_cli drop_args)
    × PidFits (parse_cli drop_args)
    × DropFits (parse_cli drop_args)
parse_cli-TargetsFit_example = parse_cli-TargetsFit drop_args

profile_kept :
    parse_cli (codes "--profile" ∷ codes "home" ∷ listen_args)
    ≡ with_profile (codes "home") (parse_cli listen_args)
unfolding is
profile_kept = parse_cli-profile (codes "home") listen_args refl

listen_known : is_supported_state_filter (codes "LISTEN") ≡ true
unfolding is_supported_state_filter is
listen_known = refl

abbrev flags : List Flag
flags = state_flag (codes "LISTEN") listen_known ∷ json_flag ∷ tcp_flag ∷ []

parse_cli-write_example :
    parse_cli (codes "connections" ∷ write flags)
    ≡ ask (record initial { mode = connections }) flags
parse_cli-write_example = parse_cli-write flags (omega arith) (omega arith) (omega arith)
