-- ===== src/Cli/Query.antt =====
-- The options of a query command (src/trfx_cli.c), written and read back.
use trafix.Prelude.{
  ℕ, ◌+◌, ◌≤◌, Bool, true, false, List, [], ◌∷◌, Option, none, some, ◌≡◌, refl, ◌∙◌, arith,
}
use trafix.Cstr.{Text, codes, is}
use trafix.Cli.Filters.{is_supported-clip}
use trafix.Cli.Options.{connections, json, Options, initial}
use trafix.Cli.Parse.{
  next, next_value, is_command, is_json, is_supported_state_filter, proto_name, set_proto_filter,
  set_state_filter, query_round, query_loop, parse_single, parse_command, parse_cli,
}

pub data Flag : Type 0 where
  json_flag tcp_flag udp_flag : Flag
  state_flag : (state : Text) → is_supported_state_filter state ≡ true → Flag

-- The arguments that stand for a flag.
abbrev pub write : List Flag → List Text
write [] = []
write (json_flag ∷ flags) = codes "--json" ∷ write flags
write (tcp_flag ∷ flags) = codes "--proto" ∷ codes "tcp" ∷ write flags
write (udp_flag ∷ flags) = codes "--proto" ∷ codes "UDP" ∷ write flags
write (state_flag state _ ∷ flags) = codes "--state" ∷ state ∷ write flags

-- What a flag asks for.
abbrev pub ask : Options → List Flag → Options
ask o [] = o
ask o (json_flag ∷ flags) = ask (record o { output_format = json }) flags
ask o (tcp_flag ∷ flags) =
    ask (record o { proto_filter = codes "TCP"; has_proto_filter = true }) flags
ask o (udp_flag ∷ flags) =
    ask (record o { proto_filter = codes "UDP"; has_proto_filter = true }) flags
ask o (state_flag state _ ∷ flags) =
    ask (record o { state_filter = state; has_state_filter = true }) flags

abbrev pub bit : Bool → ℕ
bit true = 1
bit false = 0

abbrev pub jsons : List Flag → ℕ
jsons [] = 0
jsons (json_flag ∷ flags) = 1 + jsons flags
jsons (_ ∷ flags) = jsons flags

abbrev pub protos : List Flag → ℕ
protos [] = 0
protos (tcp_flag ∷ flags) = 1 + protos flags
protos (udp_flag ∷ flags) = 1 + protos flags
protos (_ ∷ flags) = protos flags

abbrev pub state_flags : List Flag → ℕ
state_flags [] = 0
state_flags (state_flag _ _ ∷ flags) = 1 + state_flags flags
state_flags (_ ∷ flags) = state_flags flags

bit_zero : (b : Bool) (n : ℕ) → bit b + (1 + n) ≤ 1 → b ≡ false
bit_zero true n h = absurd (omega arith)
bit_zero false n h = refl

query_loop_next :
    (o o' : Options) (arg : Text) (args : List Text)
    → ((value : Option Text) → query_round o arg value ≡ next o')
    → query_loop o (arg ∷ args) ≡ query_loop o' args
unfolding query_loop
query_loop_next o o' arg [] h = rw (h none, query_loop)
query_loop_next o o' arg (value ∷ args) h = rw (h (some value), query_loop)

query_loop_value :
    (o o' : Options) (arg value : Text) (args : List Text)
    → query_round o arg (some value) ≡ next_value o'
    → query_loop o (arg ∷ value ∷ args) ≡ query_loop o' args
unfolding query_loop
query_loop_value o o' arg value args h = rw (h, query_loop)

round_json :
    (o : Options) (value : Option Text)
    → is_json o.output_format ≡ false
    → query_round o (codes "--json") value ≡ next (record o { output_format = json })
unfolding query_round is
round_json o value h = rw h

round_proto :
    (o : Options) (value name : Text)
    → o.mode ≡ connections
    → o.has_proto_filter ≡ false
    → proto_name value ≡ some name
    → query_round o (codes "--proto") (some value)
      ≡ next_value (record o { proto_filter = name; has_proto_filter = true })
unfolding query_round set_proto_filter is
round_proto o value name m h e = ground arith

round_state :
    (o : Options) (state : Text)
    → o.mode ≡ connections
    → o.has_state_filter ≡ false
    → is_supported_state_filter state ≡ true
    → query_round o (codes "--state") (some state)
      ≡ next_value (record o { state_filter = state; has_state_filter = true })
unfolding query_round set_state_filter is
round_state o state m h e = ground (arith, is_supported-clip state e)

query_loop-write :
    (flags : List Flag) (o : Options)
    → o.mode ≡ connections
    → bit (is_json o.output_format) + jsons flags ≤ 1
    → bit o.has_proto_filter + protos flags ≤ 1
    → bit o.has_state_filter + state_flags flags ≤ 1
    → query_loop o (write flags) ≡ ask o flags
unfolding proto_name is
query_loop-write [] o m j p s = unfold query_loop in refl
query_loop-write (json_flag ∷ flags) o m j p s =
    query_loop_next o _ _ (write flags) (λ v. round_json o v (bit_zero _ _ j))
    ∙ query_loop-write flags (record o { output_format = json }) m (omega arith) p s
query_loop-write (tcp_flag ∷ flags) o m j p s =
    query_loop_value o _ _ _ (write flags) (round_proto o _ _ m (bit_zero _ _ p) refl)
    ∙ query_loop-write flags (record o { proto_filter = codes "TCP"; has_proto_filter = true }) m j
        (omega arith) s
query_loop-write (udp_flag ∷ flags) o m j p s =
    query_loop_value o _ _ _ (write flags) (round_proto o _ _ m (bit_zero _ _ p) refl)
    ∙ query_loop-write flags (record o { proto_filter = codes "UDP"; has_proto_filter = true }) m j
        (omega arith) s
query_loop-write (state_flag state h ∷ flags) o m j p s =
    query_loop_value o _ _ _ (write flags) (round_state o state m (bit_zero _ _ s) h)
    ∙ query_loop-write flags (record o { state_filter = state; has_state_filter = true }) m j p
        (omega arith)

parse_cli-connections :
    (args : List Text)
    → parse_cli (codes "connections" ∷ args)
      ≡ query_loop (record initial { mode = connections }) args
unfolding parse_cli parse_command parse_single initial is is_command query_loop
parse_cli-connections [] = refl
parse_cli-connections (a ∷ []) = refl
parse_cli-connections (a ∷ b ∷ []) = refl
parse_cli-connections (a ∷ b ∷ c ∷ []) = refl
parse_cli-connections (a ∷ b ∷ c ∷ d ∷ args) = refl

-- `connections` with at most one flag of each kind, in any order, is read back as what the flags ask.
pub parse_cli-write :
    (flags : List Flag)
    → jsons flags ≤ 1
    → protos flags ≤ 1
    → state_flags flags ≤ 1
    → parse_cli (codes "connections" ∷ write flags)
      ≡ ask (record initial { mode = connections }) flags
unfolding initial
parse_cli-write flags j p s =
    parse_cli-connections (write flags)
    ∙ query_loop-write flags (record initial { mode = connections }) refl (omega arith)
        (omega arith) (omega arith)
