-- ===== src/Netinfo/Dns.antt =====
-- The DNS servers (`dns_summary_contains` and `trfx_collect_dns_summary_file`, src/trfx_netinfo.c), from
-- the text of resolv.conf. The summary's array and count are the list of the servers.
use trafix.Prelude.{
  any, ℕ, zero, suc, ◌≤◌, ◌<◌, Bool, true, false, List, [], ◌∷◌, ◌++◌, Option, none, some, ◌≡◌,
  refl, sym, ap, ◌∙◌, arith, ltb, ltb→lt, ltb→le, length, length-append, take, take_all,
  append_assoc, append-nil, Bool-cases, inl, inr, if◌then◌else◌,
}
use trafix.Cstr.Lines.{fgets_lines}
use trafix.Cstr.Scan.{drop_prefix, scan_word}
use trafix.Cstr.{Text, codes, equal, skip_space}

abbrev pub max_dns_servers : ℕ
max_dns_servers = 10

unfoldable pub dns_summary_contains : List Text → Text → Bool
dns_summary_contains [] server = false
dns_summary_contains (s ∷ servers) server =
    let rest = dns_summary_contains servers server in if equal s server then true else rest

-- `sscanf(line, " nameserver %63s", server) == 1`
unfoldable pub nameserver_of : Text → Option Text
nameserver_of line = elim (drop_prefix (codes "nameserver") (skip_space line)) [
  | none ↦ none
  | some rest ↦ scan_word 63 rest
]

-- A server is added if it is new and there is room.
unfoldable pub add_server : List Text → Text → List Text
add_server servers server =
    if dns_summary_contains servers server
    then servers
    else if ltb (length servers) max_dns_servers
    then servers ++ server ∷ []
    else servers

abbrev pub add_line : List Text → Option Text → List Text
add_line servers none = servers
add_line servers (some server) = add_server servers server

unfoldable pub dns_of_lines : List Text → List Text → List Text
unfolding add_server nameserver_of
dns_of_lines servers [] = servers
dns_of_lines servers (line ∷ lines) = dns_of_lines (add_line servers (nameserver_of line)) lines

unfoldable pub collect_dns_summary_file : Text → List Text
unfolding dns_of_lines
collect_dns_summary_file file = dns_of_lines [] (fgets_lines 256 file)

-- All servers that the lines name.
abbrev pub named : List Text → List Text
named [] = []
named (line ∷ lines) = elim (nameserver_of line) [
  | none ↦ named lines
  | some server ↦ server ∷ named lines
]

-- Those that are not among the ones seen, each once, in the order in which they come.
abbrev pub once : List Text → List Text → List Text
once seen [] = []
once seen (s ∷ servers) = elim (any (λ t. equal t s) seen) [
  | true ↦ once seen servers
  | false ↦ s ∷ once (seen ++ s ∷ []) servers
]

-- The test is whether any of the servers is equal.
contains_any :
    (seen : List Text) (s : Text) → dns_summary_contains seen s ≡ any (λ t. equal t s) seen
unfolding dns_summary_contains
contains_any [] s = refl
contains_any (t ∷ seen) s = ground (arith, contains_any seen s)

take_first : (n : ℕ) (xs ys : List Text) → length xs ≡ n → take n (xs ++ ys) ≡ xs
take_first zero [] ys h = refl
take_first zero (x ∷ xs) ys h = absurd (omega arith)
take_first (suc n) [] ys h = absurd (omega arith)
take_first (suc n) (x ∷ xs) ys h = ap (◌∷◌ x) (take_first n xs ys (omega arith))

abbrev add_all : List Text → List Text → List Text
add_all servers [] = servers
add_all servers (s ∷ ss) = add_all (add_server servers s) ss

add_server-full :
    (servers : List Text) (s : Text)
    → length servers ≡ max_dns_servers
    → add_server servers s ≡ servers
unfolding add_server
add_server-full servers s h = ground arith

add_all-full :
    (ss servers : List Text) → length servers ≡ max_dns_servers → add_all servers ss ≡ servers
add_all-full [] servers h = refl
add_all-full (s ∷ ss) servers h = rw (add_server-full servers s h) (add_all-full ss servers h)

add_server-seen :
    (servers : List Text) (s : Text)
    → dns_summary_contains servers s ≡ true
    → add_server servers s ≡ servers
unfolding add_server
add_server-seen servers s h = ground arith

add_server-new :
    (servers : List Text) (s : Text)
    → dns_summary_contains servers s ≡ false
    → length servers < max_dns_servers
    → add_server servers s ≡ servers ++ s ∷ []
unfolding add_server
add_server-new servers s h l = ground arith

add_all-once :
    (ss servers : List Text)
    → length servers ≤ max_dns_servers
    → add_all servers ss ≡ take max_dns_servers (servers ++ once servers ss)
add_all-once [] servers h =
    sym (ap (take max_dns_servers) (append-nil servers) ∙ take_all max_dns_servers servers h)
add_all-once (s ∷ ss) servers h = elim (Bool-cases (any (λ t. equal t s) servers)) [
  | inl e ↦
      rw (add_server-seen servers s (contains_any servers s ∙ e), once, e)
        (add_all-once ss servers h)
  | inr e ↦ elim (Bool-cases (ltb (length servers) max_dns_servers)) [
    | inl f ↦
        rw (add_server-new servers s (contains_any servers s ∙ e) (ltb→lt _ _ f), once, e)
          (add_all-once ss (servers ++ s ∷ []) (room f)
            ∙ ap (take max_dns_servers)
                (append_assoc servers (s ∷ []) (once (servers ++ s ∷ []) ss)))
    | inr f ↦ full f
  ]
]
  where
    room :
        ltb (length servers) max_dns_servers ≡ true → length (servers ++ s ∷ []) ≤ max_dns_servers
    room f =
        omega (arith, length-append servers (s ∷ []), ltb→lt (length servers) max_dns_servers f)

    full :
        ltb (length servers) max_dns_servers ≡ false
        → add_all (add_server servers s) ss
          ≡ take max_dns_servers (servers ++ once servers (s ∷ ss))
    full f =
        let e : length servers ≡ max_dns_servers =
          omega (arith, ltb→le (length servers) max_dns_servers f) in
        add_all-full (s ∷ ss) servers e
        ∙ sym (take_first max_dns_servers servers (once servers (s ∷ ss)) e)

dns_of_lines-named :
    (lines servers : List Text) → dns_of_lines servers lines ≡ add_all servers (named lines)
unfolding dns_of_lines
dns_of_lines-named [] servers = refl
dns_of_lines-named (line ∷ lines) servers = go (nameserver_of line) (dns_of_lines-named lines)
  where
    go :
        (r : Option Text)
        → ((servers : List Text) → dns_of_lines servers lines ≡ add_all servers (named lines))
        → dns_of_lines (add_line servers r) lines
          ≡ add_all servers (elim r [ none ↦ named lines | some server ↦ server ∷ named lines ])
    go none ih = ih servers
    go (some server) ih = ih (add_server servers server)

-- Whatever the file is, the summary holds the first ten of the servers that its lines name, each once, in
-- the order in which they come first.
pub collect_dns_summary_file-once :
    (file : Text)
    → collect_dns_summary_file file ≡ take max_dns_servers (once [] (named (fgets_lines 256 file)))
unfolding collect_dns_summary_file
collect_dns_summary_file-once file =
    dns_of_lines-named (fgets_lines 256 file) []
    ∙ add_all-once (named (fgets_lines 256 file)) [] (omega arith)
