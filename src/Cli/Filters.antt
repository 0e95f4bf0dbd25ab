-- ===== src/Cli/Filters.antt =====
-- `--proto` and `--state` (src/trfx_cli.c).
use Prim.Native.String.{String}
use trafix.Prelude.{
  true, false, List, [], ◌∷◌, Option, none, some, ◌≡◌, refl, sym, subst, ◌⊎◌, inl, inr, arith, any,
  All, Bool-cases, false_or,
}
use trafix.Cstr.Compare.{is-eq}
use trafix.Cstr.{Text, codes, is, clip}
use trafix.Cli.Options.{
  connections, invalid, Options, initial, set_unknown_argument, state_filter_max,
}
use trafix.Cli.Rounds.{Yields, Kept, parse_cli_inv}
use trafix.Cli.Parse.{
  next_value, return, set_proto_filter, set_state_filter, states, is_supported_state_filter,
  proto_name, query_round, parse_single, with_profile, parse_cli,
}

-- The filters of a command line that is not refused.
record FiltersFit (o : Options) : Type 0 where
  pub proto_known :
      o.has_proto_filter ≡ true → (o.proto_filter ≡ codes "TCP") ⊎ (o.proto_filter ≡ codes "UDP")
  pub state_known : o.has_state_filter ≡ true → is_supported_state_filter o.state_filter ≡ true
  pub proto_mode : o.has_proto_filter ≡ true → (o.mode ≡ connections) ⊎ (o.mode ≡ invalid)
  pub state_mode : o.has_state_filter ≡ true → (o.mode ≡ connections) ⊎ (o.mode ≡ invalid)

pub proto_name-known :
    (value : Text) {name : Text}
    → proto_name value ≡ some name
    → (name ≡ codes "TCP") ⊎ (name ≡ codes "UDP")
unfolding proto_name
proto_name-known value h = ground arith

any-clip :
    (names : List String) (value : Text)
    → any (is value) names ≡ true
    → All (λ name. clip state_filter_max (codes name) ≡ codes name) names
    → clip state_filter_max value ≡ value
any-clip [] value h c = cc
any-clip (name ∷ names) value h (c, cs) = elim (Bool-cases (is value name)) [
  | inl e ↦ subst (λ v. clip state_filter_max v ≡ v) (sym (is-eq value name e)) c
  | inr e ↦ any-clip names value (rw e at h) cs
]

-- A supported state fits in its buffer.
pub is_supported-clip :
    (value : Text) → is_supported_state_filter value ≡ true → clip state_filter_max value ≡ value
unfolding is_supported_state_filter clip
is_supported-clip value h = any-clip states value h (
  refl,
  (
    refl,
    (
      refl,
      (refl, (refl, (refl, (refl, (refl, (refl, (refl, (refl, (refl, (refl, (refl, tt))))))))))),
    ),
  ),
)

set_proto_filter-FiltersFit :
    (o : Options) (value : Text)
    → FiltersFit o
    → o.mode ≡ connections
    → Yields FiltersFit (set_proto_filter o value)
unfolding set_proto_filter
set_proto_filter-FiltersFit o value h m = go (proto_name value) refl
  where
    go :
        (r : Option Text)
        → proto_name value ≡ r
        → Yields FiltersFit (elim r [
          | some name ↦ next_value (record o { proto_filter = name; has_proto_filter = true })
          | none ↦ return (set_unknown_argument value o)
        ])
    go none e = ground arith
    go (some name) e = ground (arith, proto_name-known value e)

set_state_filter-FiltersFit :
    (o : Options) (value : Text)
    → FiltersFit o
    → o.mode ≡ connections
    → Yields FiltersFit (set_state_filter o value)
unfolding set_state_filter
set_state_filter-FiltersFit o value h m = ground (arith, is_supported-clip value)

query_round-FiltersFit :
    (o : Options) (arg : Text) (value : Option Text)
    → FiltersFit o
    → Yields FiltersFit (query_round o arg value)
unfolding query_round
query_round-FiltersFit o arg none h = ground arith
query_round-FiltersFit o arg (some value) h =
    ground (arith, set_proto_filter-FiltersFit o value, set_state_filter-FiltersFit o value)

parse_single-FiltersFit :
    (o : Options) (arg : Text)
    → o.has_proto_filter ≡ false
    → o.has_state_filter ≡ false
    → FiltersFit (parse_single o arg)
unfolding parse_single
parse_single-FiltersFit o arg p s = ground arith

FiltersFit-Kept :
    (o : Options) → o.has_proto_filter ≡ false → o.has_state_filter ≡ false → Kept FiltersFit o
unfolding set_unknown_argument
FiltersFit-Kept o p s = record {
  start = ground arith;
  confirm = λ o' t h. record {
    proto_known = h.proto_known;
    state_known = h.state_known;
    proto_mode = h.proto_mode;
    state_mode = h.state_mode;
  };
  unknown = λ arg o' h. record {
    proto_known = h.proto_known;
    state_known = h.state_known;
    proto_mode = λ _. inr refl;
    state_mode = λ _. inr refl;
  };
  round = query_round-FiltersFit;
  single = λ arg. parse_single-FiltersFit o arg p s;
  moded = λ arg m e. ground arith;
  killed = λ pid. ground arith;
  typed = λ kind. ground arith;
  target = λ kind value name local remote e. ground arith;
}

parse_cli-Fit : (args : List Text) → FiltersFit (parse_cli args)
unfolding with_profile initial
parse_cli-Fit =
    parse_cli_inv FiltersFit (FiltersFit-Kept initial refl refl)
      (λ name. FiltersFit-Kept (with_profile name initial) refl refl) (ground arith)

-- There is no filter, or it is known and the command takes it.
abbrev pub ProtoFits : Options → Type 0
ProtoFits o =
    (o.has_proto_filter ≡ false)
    ⊎ (((o.proto_filter ≡ codes "TCP") ⊎ (o.proto_filter ≡ codes "UDP"))
        × ((o.mode ≡ connections) ⊎ (o.mode ≡ invalid)))

abbrev pub StateFits : Options → Type 0
StateFits o =
    (o.has_state_filter ≡ false)
    ⊎ ((is_supported_state_filter o.state_filter ≡ true)
        × ((o.mode ≡ connections) ⊎ (o.mode ≡ invalid)))

-- Whatever the arguments are: a protocol filter is "TCP" or "UDP", a state filter is a supported
-- state, uncut, and a result with a filter is of `connections`, or is refused.
pub parse_cli-FiltersFit :
    (args : List Text) → ProtoFits (parse_cli args) × StateFits (parse_cli args)
parse_cli-FiltersFit args =
    let o = parse_cli args in
    let h = parse_cli-Fit args in
    (
      false_or o.has_proto_filter (λ e. (h.proto_known e, h.proto_mode e)),
      false_or o.has_state_filter (λ e. (h.state_known e, h.state_mode e)),
    )
