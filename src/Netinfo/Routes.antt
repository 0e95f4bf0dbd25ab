-- ===== src/Netinfo/Routes.antt =====
-- The default route (`trfx_parse_route_summary_line`, `trfx_collect_route_summary_file` and
-- `trfx_collect_route_summary_path`, src/trfx_netinfo.c), from the output of `ip route`.
pub mod Written
use trafix.Prelude.{
  ℕ, Bool, true, false, List, [], ◌∷◌, ◌++◌, Option, none, some, ◌≡◌, refl, Bool-cases, inl, inr,
  if◌then◌else◌,
}
use trafix.Cstr.Lines.{fgets_lines}
use trafix.Cstr.Tokens.{tokens}
use trafix.Cstr.{Text, codes, clip, is}

pub data CollectorStatus : Type 0 where
  ok invalid_argument open_failed parse_failed : CollectorStatus

pub record RouteSummary : Type 0 where
  pub has_default : Bool
  pub destination : Text
  pub gateway : Text
  pub interface : Text
  pub metric : Text

abbrev pub init_route_summary : RouteSummary
init_route_summary = record {
  has_default = false;
  destination = codes "N/A";
  gateway = codes "N/A";
  interface = codes "N/A";
  metric = codes "N/A";
}

abbrev pub blanks : Text
blanks = codes " \t\n"

-- The loop over the words behind "default"; a keyword at the end has no value.
unfoldable pub route_words : RouteSummary → List Text → RouteSummary
route_words s [] = s
route_words s (word ∷ []) = s
route_words s (word ∷ value ∷ words) =
    let via = route_words (record s { gateway = clip 64 value }) words in
    let dev = route_words (record s { interface = clip 32 value }) words in
    let metric = route_words (record s { metric = clip 32 value }) words in
    let other = route_words s (value ∷ words) in
    if is word "via"
    then via
    else if is word "dev"
    then dev
    else if is word "metric"
    then metric
    else other

-- The summary that is filled in, or 0.
unfoldable pub words_summary : List Text → Option RouteSummary
unfolding route_words
words_summary [] = none
words_summary (word ∷ words) =
    if is word "default"
    then some (
        route_words
          (record init_route_summary { has_default = true; destination = codes "default" }) words)
    else none

unfoldable pub parse_route_summary_line : Text → Option RouteSummary
unfolding words_summary
parse_route_summary_line line = words_summary (tokens blanks (clip 256 line))

-- The status and the summary of a line that is parsed, or those of the lines behind it.
abbrev or_rest :
    Option RouteSummary → CollectorStatus × RouteSummary → CollectorStatus × RouteSummary
or_rest (some s) rest = (ok, s)
or_rest none rest = rest

-- The loop over the lines.
unfoldable pub route_of_lines : List Text → CollectorStatus × RouteSummary
unfolding parse_route_summary_line
route_of_lines [] = (parse_failed, init_route_summary)
route_of_lines (line ∷ lines) = or_rest (parse_route_summary_line line) (route_of_lines lines)

unfoldable pub collect_route_summary_file : Text → CollectorStatus × RouteSummary
unfolding route_of_lines
collect_route_summary_file file = route_of_lines (fgets_lines 256 file)

abbrev pub is_ok : CollectorStatus → Bool
is_ok ok = true
is_ok _ = false

route_words-has_default :
    (words : List Text) (s : RouteSummary) → (route_words s words).has_default ≡ s.has_default
unfolding route_words
route_words-has_default [] s = refl
route_words-has_default (word ∷ []) s = refl
route_words-has_default (word ∷ value ∷ words) s = elim (Bool-cases (is word "via")) [
  | inl e ↦
      rw (e, route_words) (route_words-has_default words (record s { gateway = clip 64 value }))
  | inr e ↦ elim (Bool-cases (is word "dev")) [
    | inl f ↦
        rw (route_words, e, f)
          (route_words-has_default words (record s { interface = clip 32 value }))
    | inr f ↦ elim (Bool-cases (is word "metric")) [
      | inl g ↦
          rw (route_words, e, f, g)
            (route_words-has_default words (record s { metric = clip 32 value }))
      | inr g ↦ rw (route_words, e, f, g) (route_words-has_default (value ∷ words) s)
    ]
  ]
]

abbrev Defaults : Option RouteSummary → Type 0
Defaults none = Unit
Defaults (some s) = s.has_default ≡ true

words_summary-Defaults : (words : List Text) → Defaults (words_summary words)
unfolding words_summary
words_summary-Defaults [] = tt
words_summary-Defaults (word ∷ words) = elim (Bool-cases (is word "default")) [
  | inl e ↦ rw e (route_words-has_default words _)
  | inr e ↦ rw e tt
]

or_rest_lem :
    (r : Option RouteSummary) (rest : CollectorStatus × RouteSummary)
    → Defaults r
    → rest.1.has_default ≡ is_ok rest.0
    → (or_rest r rest).1.has_default ≡ is_ok (or_rest r rest).0
or_rest_lem none rest h e = e
or_rest_lem (some s) rest h e = h

route_of_lines_lem :
    (lines : List Text) → (route_of_lines lines).1.has_default ≡ is_ok (route_of_lines lines).0
unfolding route_of_lines parse_route_summary_line
route_of_lines_lem [] = refl
route_of_lines_lem (line ∷ lines) =
    or_rest_lem (words_summary (tokens blanks (clip 256 line))) (route_of_lines lines)
      (words_summary-Defaults (tokens blanks (clip 256 line))) (route_of_lines_lem lines)

-- Whatever `ip route` prints, the status is "ok" exactly if the summary has a default route; so the two
-- never stand for a route that is missing.
pub collect_route_summary_file-has_default :
    (file : Text)
    → (collect_route_summary_file file).1.has_default ≡ is_ok (collect_route_summary_file file).0
unfolding collect_route_summary_file
collect_route_summary_file-has_default file = route_of_lines_lem (fgets_lines 256 file)
