-- ===== src/Cli/Rounds.antt =====
-- Induction over the loops of `trfx_parse_cli` (src/trfx_cli.c).
use trafix.Prelude.{
  arith, Bool, true, List, [], ◌∷◌, ◌||◌, not, ◌&&◌, Option, none, some, ◌≡◌, refl, inl, inr,
  Bool-cases,
}
use trafix.Cstr.{Text, codes, is, clip}
use trafix.Cli.Options.{
  Mode, kill, drop, Options, initial, invalid_with, set_unknown_argument, target_pid_max,
  drop_kind_max, endpoint_max,
}
use trafix.Cli.Parse.{
  is_command, proto_name, confirm_flags, Round, return, next, next_value, query_round, query_loop,
  parse_single, drop_target, parse_drop, parse_query, drop_or_query, parse_command, with_profile,
  parse_cli,
}

-- What a round hands on satisfies `P`, and so does what it returns.
abbrev pub Yields {κ} : (Options → Type κ) → Round → Type κ
Yields P (return o) = P o
Yields P (next o) = P o
Yields P (next_value o) = P o

module _ {κ} (P : Options → Type κ) where
  pub confirm_flags_inv :
      ((o : Options) → P o → P (record o { confirmed = true }))
      → ((arg : Text) (o : Options) → P o → P (set_unknown_argument arg o))
      → (args : List Text) (o : Options) → P o
      → P (confirm_flags o args)
  unfolding confirm_flags
  confirm_flags_inv yes_ unknown [] o h = h
  confirm_flags_inv yes_ unknown (arg ∷ args) o h =
      elim (Bool-cases (is arg "--yes" || is arg "-y")) [
        | inl e ↦
            rw e (confirm_flags_inv yes_ unknown args (record o { confirmed = true }) (yes_ o h))
        | inr e ↦ rw e (unknown arg o h)
      ]

  pub query_loop_inv :
      ((o : Options) (arg : Text) (value : Option Text) → P o → Yields P (query_round o arg value))
      → (args : List Text) (o : Options) → P o
      → P (query_loop o args)
  unfolding query_loop
  query_loop_inv keep [] o h = h
  query_loop_inv keep (arg ∷ []) o h = last (query_round o arg none) (keep o arg none h)
    where
      last :
          (r : Round)
          → Yields P r
          → P (elim r [ return o' ↦ o' | next o' ↦ o' | next_value o' ↦ o' ])
      last (return o') h' = h'
      last (next o') h' = h'
      last (next_value o') h' = h'
  query_loop_inv keep (arg ∷ value ∷ args) o h =
      go (query_loop_inv keep (value ∷ args)) (query_loop_inv keep args)
        (query_round o arg (some value)) (keep o arg (some value) h)
    where
      go :
          ((o' : Options) → P o' → P (query_loop o' (value ∷ args)))
          → ((o' : Options) → P o' → P (query_loop o' args))
          → (r : Round) → Yields P r
          → P (elim r [
            | return o' ↦ o'
            | next o' ↦ query_loop o' (value ∷ args)
            | next_value o' ↦ query_loop o' args
          ])
      go one two (return o') h' = h'
      go one two (next o') h' = one o' h'
      go one two (next_value o') h' = two o' h'

-- `kill` or `drop` has read its target.
abbrev pub HasTarget : Options → Type 0
HasTarget o = (o.has_target_pid || o.has_drop_target) ≡ true

-- What a predicate must satisfy to hold of every result of `parse_command o`.
pub record Kept {κ} (P : Options → Type κ) (o : Options) : Type κ where
  pub start : P o
  pub confirm : (o' : Options) → HasTarget o' → P o' → P (record o' { confirmed = true })
  pub unknown : (arg : Text) (o' : Options) → P o' → P (set_unknown_argument arg o')
  pub round :
      (o' : Options) (arg : Text) (value : Option Text) → P o' → Yields P (query_round o' arg value)
  pub single : (arg : Text) → P (parse_single o arg)
  pub moded : (arg : Text) (m : Mode) → is_command arg ≡ some m → P (record o { mode = m })
  pub killed :
      (pid : Text)
      → P (record o { mode = kill; target_pid = clip target_pid_max pid; has_target_pid = true })
  pub typed : (kind : Text) → P (record o { mode = drop; drop_kind = clip drop_kind_max kind })
  pub target :
      (kind value name local remote : Text)
      → proto_name value ≡ some name
      → P (record o {
        mode = drop;
        drop_kind = clip drop_kind_max kind;
        drop_proto = name;
        drop_local = clip endpoint_max local;
        drop_remote = clip endpoint_max remote;
        has_drop_target = true;
      })

or_true : (b : Bool) → (b || true) ≡ true
or_true b = ground arith

module _ {κ} (P : Options → Type κ) (o : Options) (k : Kept P o) where
  flags_inv : (args : List Text) (o' : Options) → HasTarget o' → P o' → P (confirm_flags o' args)
  unfolding set_unknown_argument
  flags_inv args o' t h =
      (confirm_flags_inv (λ u. HasTarget u × P u) (λ u (t', h'). (t', k.confirm u t' h'))
        (λ arg u (t', h'). (t', k.unknown arg u h')) args o' (t, h)).1

  parse_drop_inv :
      (kind proto local remote : Text) (flags : List Text)
      → P (parse_drop o kind proto local remote flags)
  unfolding parse_drop
  parse_drop_inv kind proto local remote flags = go (proto_name proto) refl
    where
      typed : Options
      typed = record o { mode = drop; drop_kind = clip drop_kind_max kind }

      go :
          (r : Option Text)
          → proto_name proto ≡ r
          → P (elim r [
            | some name ↦ drop_target typed name local remote flags
            | none ↦ set_unknown_argument proto typed
          ])
      go none e = k.unknown proto typed (k.typed kind)
      go (some name) e =
          elim (Bool-cases
            (not (is typed.drop_kind "connection") && not (is typed.drop_kind "socket"))) [
              | inl b ↦ rw b (k.unknown typed.drop_kind _ (k.target kind proto name local remote e))
              | inr b ↦ rw b (
                  flags_inv flags _ (or_true typed.has_target_pid)
                    (k.target kind proto name local remote e))
            ]

  parse_query_inv : (arg : Text) (args : List Text) → P (parse_query o arg args)
  unfolding parse_query
  parse_query_inv arg args = go (is_command arg) refl
    where
      go :
          (r : Option Mode)
          → is_command arg ≡ r
          → P (elim r [
            | some mode ↦ query_loop (record o { mode = mode }) args
            | none ↦ set_unknown_argument arg o
          ])
      go none e = k.unknown arg o k.start
      go (some mode) e = query_loop_inv P k.round args _ (k.moded arg mode e)

  drop_or_query_inv : (arg : Text) (args : List Text) → P (drop_or_query o arg args)
  drop_or_query_inv arg [] = parse_query_inv arg []
  drop_or_query_inv arg (a ∷ []) = parse_query_inv arg (a ∷ [])
  drop_or_query_inv arg (a ∷ b ∷ []) = parse_query_inv arg (a ∷ b ∷ [])
  drop_or_query_inv arg (a ∷ b ∷ c ∷ []) = parse_query_inv arg (a ∷ b ∷ c ∷ [])
  drop_or_query_inv arg (kind ∷ proto ∷ local ∷ remote ∷ flags) =
      elim (Bool-cases (is arg "drop")) [
        | inl e ↦ rw e (parse_drop_inv kind proto local remote flags)
        | inr e ↦ rw e (parse_query_inv arg (kind ∷ proto ∷ local ∷ remote ∷ flags))
      ]

  pub parse_command_inv : (args : List Text) → P (parse_command o args)
  unfolding parse_command
  parse_command_inv [] = k.start
  parse_command_inv (arg ∷ []) = k.single arg
  parse_command_inv (arg ∷ value ∷ args) = elim (Bool-cases (is arg "kill")) [
    | inl e ↦ rw e (flags_inv args _ refl (k.killed value))
    | inr e ↦ rw e (drop_or_query_inv arg (value ∷ args))
  ]

module _ {κ} (P : Options → Type κ) where
  -- The same for `parse_cli`, from the two records that the blocks start from.
  pub parse_cli_inv :
      Kept P initial
      → ((name : Text) → Kept P (with_profile name initial))
      → P (invalid_with (codes "profile requires a name") initial)
      → (args : List Text) → P (parse_cli args)
  unfolding parse_cli
  parse_cli_inv k kp nameless [] = k.start
  parse_cli_inv k kp nameless (arg ∷ []) = elim (Bool-cases (is arg "--profile")) [
    | inl e ↦ rw e nameless
    | inr e ↦ rw e (parse_command_inv P initial k (arg ∷ []))
  ]
  parse_cli_inv k kp nameless (arg ∷ name ∷ args) = elim (Bool-cases (is arg "--profile")) [
    | inl e ↦ rw e (parse_command_inv P (with_profile name initial) (kp name) args)
    | inr e ↦ rw e (parse_command_inv P initial k (arg ∷ name ∷ args))
  ]
