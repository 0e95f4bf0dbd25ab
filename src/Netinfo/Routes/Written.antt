-- ===== src/Netinfo/Routes/Written.antt =====
-- A default route that `ip route` prints, read back (src/trfx_netinfo.c).
use trafix.Prelude.{
  ◌<◌, Bool, true, false, ◌||◌, List, [], ◌∷◌, some, ◌≡◌, refl, ap, ◌∙◌, arith, All, take_all,
  length,
}
use trafix.Cstr.Tokens.{line_of, IsWord, tokens-line_of}
use trafix.Cstr.{Text, codes, clip, is, mem_char}
use trafix.Netinfo.Routes.{
  RouteSummary, init_route_summary, blanks, route_words, words_summary, parse_route_summary_line,
}

pub data Field : Type 0 where
  via dev metric other : Text → Field

abbrev pub words_of : List Field → List Text
words_of [] = []
words_of (via v ∷ fs) = codes "via" ∷ v ∷ words_of fs
words_of (dev v ∷ fs) = codes "dev" ∷ v ∷ words_of fs
words_of (metric v ∷ fs) = codes "metric" ∷ v ∷ words_of fs
words_of (other w ∷ fs) = w ∷ words_of fs

-- What the fields say of a route.
abbrev pub described : List Field → RouteSummary → RouteSummary
described [] s = s
described (via v ∷ fs) s = described fs (record s { gateway = clip 64 v })
described (dev v ∷ fs) s = described fs (record s { interface = clip 32 v })
described (metric v ∷ fs) s = described fs (record s { metric = clip 32 v })
described (other w ∷ fs) s = described fs s

abbrev pub is_keyword : Text → Bool
is_keyword w = is w "via" || is w "dev" || is w "metric"

-- Other words are no keywords.
abbrev pub IsOther : Field → Type 0
IsOther (other w) = is_keyword w ≡ false
IsOther _ = Unit

abbrev pub default_route : RouteSummary
default_route = record init_route_summary { has_default = true; destination = codes "default" }

route_words-words_of :
    (fs : List Field) (s : RouteSummary)
    → All IsOther fs
    → route_words s (words_of fs) ≡ described fs s
unfolding route_words is
route_words-words_of [] s h = refl
route_words-words_of (via v ∷ fs) s (_, h) =
    route_words-words_of fs (record s { gateway = clip 64 v }) h
route_words-words_of (dev v ∷ fs) s (_, h) =
    route_words-words_of fs (record s { interface = clip 32 v }) h
route_words-words_of (metric v ∷ fs) s (_, h) =
    route_words-words_of fs (record s { metric = clip 32 v }) h
route_words-words_of (other w ∷ fs) s (o, h) = skip (words_of fs) ∙ route_words-words_of fs s h
  where
    skip : (words : List Text) → route_words s (w ∷ words) ≡ route_words s words
    skip [] = refl
    skip (v ∷ words) = ground arith

words_summary-default :
    (words : List Text)
    → words_summary (codes "default" ∷ words) ≡ some (route_words default_route words)
unfolding words_summary is
words_summary-default words = refl

blank_mem : (mem_char b' ' blanks ≡ true) × (mem_char b'\n' blanks ≡ true)
unfolding mem_char
blank_mem = (refl, refl)

-- A line "default FIELDS" of less than 256 bytes, of words without blanks, is read as the route that the
-- fields describe: `via` the gateway, `dev` the interface, `metric` the metric, each cut to its
-- buffer; words that are no keywords are passed over.
pub parse_route_summary_line-words_of :
    (fs : List Field)
    → All (IsWord blanks) (codes "default" ∷ words_of fs)
    → All IsOther fs
    → length (line_of (codes "default" ∷ words_of fs)) < 256
    → parse_route_summary_line (line_of (codes "default" ∷ words_of fs))
      ≡ some (described fs default_route)
unfolding parse_route_summary_line
parse_route_summary_line-words_of fs w o l =
    let words = codes "default" ∷ words_of fs in
    let cut : clip 256 (line_of words) ≡ line_of words =
      unfold clip in take_all 255 (line_of words) (omega arith) in
    let read = tokens-line_of blanks words blank_mem.0 blank_mem.1 w in
    rw (cut, read)
      (words_summary-default (words_of fs) ∙ ap some (route_words-words_of fs default_route o))
