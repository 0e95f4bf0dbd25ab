-- ===== src/Cli/Profile.antt =====
-- The prefix `--profile NAME` (src/trfx_cli.c).
use trafix.Prelude.{
  Bool, true, false, not, ◌&&◌, ◌||◌, List, [], ◌∷◌, Option, none, some, ◌≡◌, refl, arith,
  Bool-cases, inl, inr,
}
use trafix.Cstr.{Text, codes, is, clip}
use trafix.Cli.Options.{Mode, Options, initial, set_unknown_argument, drop, drop_kind_max}
use trafix.Cli.Parse.{
  Round, return, next, next_value, proto_name, is_command, confirm_flags, set_proto_filter,
  set_state_filter, query_round, query_loop, parse_single, drop_target, parse_drop, parse_query,
  drop_or_query, parse_command, with_profile, parse_cli,
}

module _ (name : Text) where
  confirm_flags-with_profile :
      (args : List Text) (o : Options)
      → confirm_flags (with_profile name o) args ≡ with_profile name (confirm_flags o args)
  unfolding confirm_flags with_profile
  confirm_flags-with_profile [] o = refl
  confirm_flags-with_profile (arg ∷ args) o = elim (Bool-cases (is arg "--yes" || is arg "-y")) [
    | inl e ↦ rw e (confirm_flags-with_profile args (record o { confirmed = true }))
    | inr e ↦ rw e
  ]

  abbrev on_round : Round → Round
  on_round (return o) = return (with_profile name o)
  on_round (next o) = next (with_profile name o)
  on_round (next_value o) = next_value (with_profile name o)

  query_round-with_profile :
      (o : Options) (arg : Text) (value : Option Text)
      → query_round (with_profile name o) arg value ≡ on_round (query_round o arg value)
  unfolding query_round set_proto_filter set_state_filter with_profile
  query_round-with_profile o arg none = ground arith
  query_round-with_profile o arg (some value) = ground arith

  query_loop-with_profile :
      (args : List Text) (o : Options)
      → query_loop (with_profile name o) args ≡ with_profile name (query_loop o args)
  unfolding query_loop
  query_loop-with_profile [] o = refl
  query_loop-with_profile (arg ∷ []) o =
      rw (query_round-with_profile o arg none, query_loop) (go (query_round o arg none))
    where
      go :
          (r : Round)
          → elim (on_round r) [ return o' ↦ o' | next o' ↦ o' | next_value o' ↦ o' ]
            ≡ with_profile name (elim r [ return o' ↦ o' | next o' ↦ o' | next_value o' ↦ o' ])
      go (return o') = refl
      go (next o') = refl
      go (next_value o') = refl
  query_loop-with_profile (arg ∷ value ∷ args) o =
      rw (query_round-with_profile o arg (some value), query_loop)
        (go (query_loop-with_profile (value ∷ args)) (query_loop-with_profile args)
          (query_round o arg (some value)))
    where
      go :
          ((o' : Options)
            → query_loop (with_profile name o') (value ∷ args)
              ≡ with_profile name (query_loop o' (value ∷ args)))
          → ((o' : Options)
              → query_loop (with_profile name o') args ≡ with_profile name (query_loop o' args))
          → (r : Round)
          → elim (on_round r) [
            | return o' ↦ o'
            | next o' ↦ query_loop o' (value ∷ args)
            | next_value o' ↦ query_loop o' args
          ]
            ≡ with_profile name (elim r [
              | return o' ↦ o'
              | next o' ↦ query_loop o' (value ∷ args)
              | next_value o' ↦ query_loop o' args
            ])
      go one two (return o') = refl
      go one two (next o') = one o'
      go one two (next_value o') = two o'

  parse_single-with_profile :
      (o : Options) (arg : Text)
      → parse_single (with_profile name o) arg ≡ with_profile name (parse_single o arg)
  unfolding parse_single with_profile
  parse_single-with_profile o arg = ground arith

  drop_target-with_profile :
      (o : Options) (proto local remote : Text) (flags : List Text)
      → drop_target (with_profile name o) proto local remote flags
        ≡ with_profile name (drop_target o proto local remote flags)
  unfolding drop_target with_profile
  drop_target-with_profile o proto local remote flags =
      elim (Bool-cases (not (is o.drop_kind "connection") && not (is o.drop_kind "socket"))) [
        | inl e ↦ rw e
        | inr e ↦ rw e (confirm_flags-with_profile flags _)
      ]

  parse_drop-with_profile :
      (o : Options) (kind proto local remote : Text) (flags : List Text)
      → parse_drop (with_profile name o) kind proto local remote flags
        ≡ with_profile name (parse_drop o kind proto local remote flags)
  unfolding parse_drop with_profile
  parse_drop-with_profile o kind proto local remote flags = go (proto_name proto)
    where
      typed : Options
      typed = record o { mode = drop; drop_kind = clip drop_kind_max kind }

      go :
          (r : Option Text)
          → elim r [
            | some n ↦ drop_target (with_profile name typed) n local remote flags
            | none ↦ set_unknown_argument proto (with_profile name typed)
          ]
            ≡ with_profile name (elim r [
              | some n ↦ drop_target typed n local remote flags
              | none ↦ set_unknown_argument proto typed
            ])
      go none = refl
      go (some n) = drop_target-with_profile typed n local remote flags

  parse_query-with_profile :
      (o : Options) (arg : Text) (args : List Text)
      → parse_query (with_profile name o) arg args ≡ with_profile name (parse_query o arg args)
  unfolding parse_query with_profile
  parse_query-with_profile o arg args = go (is_command arg)
    where
      go :
          (r : Option Mode)
          → elim r [
            | some mode ↦ query_loop (record (with_profile name o) { mode = mode }) args
            | none ↦ set_unknown_argument arg (with_profile name o)
          ]
            ≡ with_profile name (elim r [
              | some mode ↦ query_loop (record o { mode = mode }) args
              | none ↦ set_unknown_argument arg o
            ])
      go none = refl
      go (some mode) = query_loop-with_profile args (record o { mode = mode })

  drop_or_query-with_profile :
      (o : Options) (arg : Text) (args : List Text)
      → drop_or_query (with_profile name o) arg args ≡ with_profile name (drop_or_query o arg args)
  drop_or_query-with_profile o arg [] = parse_query-with_profile o arg []
  drop_or_query-with_profile o arg (a ∷ []) = parse_query-with_profile o arg (a ∷ [])
  drop_or_query-with_profile o arg (a ∷ b ∷ []) = parse_query-with_profile o arg (a ∷ b ∷ [])
  drop_or_query-with_profile o arg (a ∷ b ∷ c ∷ []) =
      parse_query-with_profile o arg (a ∷ b ∷ c ∷ [])
  drop_or_query-with_profile o arg (kind ∷ proto ∷ local ∷ remote ∷ flags) =
      elim (Bool-cases (is arg "drop")) [
        | inl e ↦ rw e (parse_drop-with_profile o kind proto local remote flags)
        | inr e ↦ rw e (parse_query-with_profile o arg (kind ∷ proto ∷ local ∷ remote ∷ flags))
      ]

  parse_command-with_profile :
      (o : Options) (args : List Text)
      → parse_command (with_profile name o) args ≡ with_profile name (parse_command o args)
  unfolding parse_command
  parse_command-with_profile o [] = refl
  parse_command-with_profile o (arg ∷ []) = parse_single-with_profile o arg
  parse_command-with_profile o (arg ∷ value ∷ args) = elim (Bool-cases (is arg "kill")) [
    | inl e ↦ rw e (unfold with_profile in confirm_flags-with_profile args _)
    | inr e ↦ rw e (drop_or_query-with_profile o arg (value ∷ args))
  ]

abbrev pub head_is_profile : List Text → Bool
head_is_profile [] = false
head_is_profile (arg ∷ args) = is arg "--profile"

parse_cli-parse_command :
    (args : List Text) → head_is_profile args ≡ false → parse_cli args ≡ parse_command initial args
unfolding parse_cli
parse_cli-parse_command [] h = refl
parse_cli-parse_command (arg ∷ []) h = rw h
parse_cli-parse_command (arg ∷ value ∷ args) h = rw h

-- `--profile NAME` in front of a command line that does not begin with `--profile` itself changes
-- nothing in what is parsed but the profile's name, cut to its buffer, and its flag.
pub parse_cli-profile :
    (name : Text) (args : List Text)
    → head_is_profile args ≡ false
    → parse_cli (codes "--profile" ∷ name ∷ args) ≡ with_profile name (parse_cli args)
unfolding is
parse_cli-profile name args h =
    rw (parse_cli-parse_command args h)
      (unfold parse_cli in parse_command-with_profile name initial args)
