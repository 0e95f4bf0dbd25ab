-- ===== src/Cli/Parse.antt =====
-- `trfx_parse_cli` of src/trfx_cli.c. The arguments are those behind the program's name, so `argc`
-- is their number and one. A block of the function is a function here.
use Prim.Native.String.{String}
use trafix.Prelude.{
  Bool, true, false, not, ◌&&◌, ◌||◌, List, [], ◌∷◌, Option, none, some, if◌then◌else◌, any,
}
use trafix.Cstr.{Text, codes, is, clip}
use trafix.Cli.Options.{
  Mode, help, version, interfaces, connections, listeners, system, diagnostics, drop, kill,
  OutputFormat, text, json, Options, initial, invalid_with, set_unknown_argument, target_pid_max,
  drop_kind_max, endpoint_max, profile_name_max, state_filter_max,
}

unfoldable pub is_command : Text → Option Mode
is_command arg =
    if is arg "interfaces"
    then some interfaces
    else if is arg "connections"
    then some connections
    else if is arg "listeners"
    then some listeners
    else if is arg "system"
    then some system
    else if is arg "diagnostics"
    then some diagnostics
    else if is arg "drop"
    then some drop
    else if is arg "kill"
    then some kill
    else none

abbrev pub states : List String
states =
    "ESTABLISHED" ∷ "SYN_SENT" ∷ "SYN_RECV" ∷ "FIN_WAIT1" ∷ "FIN_WAIT2" ∷ "TIME_WAIT" ∷ "CLOSE"
    ∷ "CLOSE_WAIT" ∷ "LAST_ACK" ∷ "LISTEN" ∷ "CLOSING" ∷ "NEW_SYN_RECV" ∷ "UNCONN" ∷ "UNKNOWN" ∷ []

unfoldable pub is_supported_state_filter : Text → Bool
is_supported_state_filter state = any (is state) states

-- `tcp` or `TCP`, `udp` or `UDP`
unfoldable pub proto_name : Text → Option Text
proto_name value =
    if is value "tcp" || is value "TCP"
    then some (codes "TCP")
    else if is value "udp" || is value "UDP"
    then some (codes "UDP")
    else none

-- The loops over the flags behind `kill PID` and `drop TYPE PROTO LOCAL REMOTE`.
unfoldable pub confirm_flags : Options → List Text → Options
unfolding set_unknown_argument
confirm_flags o [] = o
confirm_flags o (arg ∷ args) =
    let rest = confirm_flags (record o { confirmed = true }) args in
    if is arg "--yes" || is arg "-y" then rest else set_unknown_argument arg o

unfoldable pub parse_kill : Options → Text → List Text → Options
unfolding confirm_flags
parse_kill o pid flags =
    confirm_flags
      (record o { mode = kill; target_pid = clip target_pid_max pid; has_target_pid = true }) flags

-- Behind the protocol: the endpoints, the type and the flags.
unfoldable pub drop_target : Options → Text → Text → Text → List Text → Options
unfolding confirm_flags set_unknown_argument
drop_target o proto local remote flags =
    let target = record o {
      drop_proto = proto;
      drop_local = clip endpoint_max local;
      drop_remote = clip endpoint_max remote;
      has_drop_target = true;
    } in
    if not (is o.drop_kind "connection") && not (is o.drop_kind "socket")
    then set_unknown_argument o.drop_kind target
    else confirm_flags target flags

unfoldable pub parse_drop : Options → Text → Text → Text → Text → List Text → Options
unfolding drop_target set_unknown_argument
parse_drop o kind proto local remote flags =
    let typed = record o { mode = drop; drop_kind = clip drop_kind_max kind } in
    elim (proto_name proto) [
      | some name ↦ drop_target typed name local remote flags
      | none ↦ set_unknown_argument proto typed
    ]

abbrev pub is_connections : Mode → Bool
is_connections connections = true
is_connections _ = false

abbrev pub is_json : OutputFormat → Bool
is_json json = true
is_json text = false

-- One round of the option loop: it returns, goes on behind `arg`, or behind the value of `arg`.
pub data Round : Type 0 where
  return : Options → Round
  next : Options → Round
  next_value : Options → Round

unfoldable pub set_proto_filter : Options → Text → Round
unfolding set_unknown_argument
set_proto_filter o value = elim (proto_name value) [
  | some name ↦ next_value (record o { proto_filter = name; has_proto_filter = true })
  | none ↦ return (set_unknown_argument value o)
]

unfoldable pub set_state_filter : Options → Text → Round
unfolding set_unknown_argument
set_state_filter o value =
    if not (is_supported_state_filter value)
    then return (set_unknown_argument value o)
    else next_value
        (record o { state_filter = clip state_filter_max value; has_state_filter = true })

-- `--proto` and `--state`: the guard, then the value; the flag is `has_…_filter`.
unfoldable pub filter_round : Options → Text → Bool → Option Text → (Options → Text → Round) → Round
unfolding set_unknown_argument
filter_round o arg seen none set_filter = return (set_unknown_argument arg o)
filter_round o arg seen (some value) set_filter =
    if not (is_connections o.mode) || seen
    then return (set_unknown_argument arg o)
    else set_filter o value

-- `value` is the argument behind `arg`, if there is one.
unfoldable pub query_round : Options → Text → Option Text → Round
unfolding filter_round set_unknown_argument
query_round o arg value =
    if is arg "--json"
    then (if is_json o.output_format
        then return (set_unknown_argument arg o)
        else next (record o { output_format = json }))
    else if is arg "--proto"
    then filter_round o arg o.has_proto_filter value set_proto_filter
    else if is arg "--state"
    then filter_round o arg o.has_state_filter value set_state_filter
    else return (set_unknown_argument arg o)

unfoldable pub query_loop : Options → List Text → Options
query_loop o [] = o
query_loop o (arg ∷ []) = elim (query_round o arg none) [
  | return o' ↦ o'
  | next o' ↦ o'
  | next_value o' ↦ o'
]
query_loop o (arg ∷ value ∷ args) = elim (query_round o arg (some value)) [
  | return o' ↦ o'
  | next o' ↦ query_loop o' (value ∷ args)
  | next_value o' ↦ query_loop o' args
]

-- The block of `argc == 2`. What no test matches is an unknown argument.
unfoldable pub parse_single : Options → Text → Options
unfolding is_command set_unknown_argument
parse_single o arg =
    if is arg "--help" || is arg "-h"
    then record o { mode = help }
    else if is arg "--version" || is arg "-v"
    then record o { mode = version }
    else if is arg "kill"
    then invalid_with (codes "kill requires a PID") o
    else if is arg "drop"
    then invalid_with (codes "drop requires a target type and endpoints") o
    else if is arg "diagnostics"
    then record o { mode = diagnostics }
    else elim (is_command arg) [
      | some mode ↦ record o { mode = mode }
      | none ↦ set_unknown_argument arg o
    ]

-- The block of `is_command`, with options behind it.
unfoldable pub parse_query : Options → Text → List Text → Options
unfolding is_command set_unknown_argument
parse_query o arg args = elim (is_command arg) [
  | some mode ↦ query_loop (record o { mode = mode }) args
  | none ↦ set_unknown_argument arg o
]

-- `argc >= 6`
abbrev pub drop_or_query : Options → Text → List Text → Options
drop_or_query o arg (kind ∷ proto ∷ local ∷ remote ∷ flags) =
    if is arg "drop"
    then parse_drop o kind proto local remote flags
    else parse_query o arg (kind ∷ proto ∷ local ∷ remote ∷ flags)
drop_or_query o arg args = parse_query o arg args

-- What follows the block of `--profile`.
unfoldable pub parse_command : Options → List Text → Options
unfolding parse_single parse_kill parse_drop parse_query
parse_command o [] = o
parse_command o (arg ∷ []) = parse_single o arg
parse_command o (arg ∷ value ∷ args) =
    if is arg "kill" then parse_kill o value args else drop_or_query o arg (value ∷ args)

unfoldable pub with_profile : Text → Options → Options
with_profile name o = record o { profile_name = clip profile_name_max name; has_profile = true }

unfoldable pub parse_cli : List Text → Options
unfolding parse_command with_profile initial
parse_cli [] = initial
parse_cli (arg ∷ []) =
    if is arg "--profile"
    then invalid_with (codes "profile requires a name") initial
    else parse_command initial (arg ∷ [])
parse_cli (arg ∷ name ∷ args) =
    if is arg "--profile"
    then parse_command (with_profile name initial) args
    else parse_command initial (arg ∷ name ∷ args)
