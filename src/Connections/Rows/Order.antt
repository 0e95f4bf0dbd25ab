-- ===== src/Connections/Rows/Order.antt =====
-- The order of all connections (`get_connection_info`, src/trfx_connections.c).
use Prim.Native.String.{String}
use mathlib.Core.List.{Perm}
use trafix.Prelude.{
  All, ℕ, ◌≤◌, length, length-take, Bool, true, false, not, ◌&&◌, List, [], ◌∷◌, ◌++◌, ◌≡◌, subst,
  refl, ap, arith, take, Bool-cases, inl, inr, if◌then◌else◌,
}
use trafix.Cstr.Sort.{perm-length, Qsort, Ordered, InOrder, IsConsistent}
use trafix.Cstr.Compare.{is-eq}
use trafix.Cstr.{is, equal}
use trafix.Actions.Requests.{ConnectionInfo}
use trafix.SocketOwners.{Proc}
use trafix.Connections.Rows.{System}
use trafix.Connections.Rows.Files.{
  length-apply_socket_owner_map, compare_connections, four_files, apply_socket_owner_map,
  get_connection_info, all_rows, four_files-all_rows,
}

-- The rows that pass a test.
abbrev pub keep : (ConnectionInfo → Bool) → List ConnectionInfo → List ConnectionInfo
keep test [] = []
keep test (c ∷ rows) = if test c then c ∷ keep test rows else keep test rows

abbrev pub has_state : String → ConnectionInfo → Bool
has_state name c = is c.state name

abbrev pub has_other_state : ConnectionInfo → Bool
has_other_state c = not (has_state "ESTABLISHED" c) && not (has_state "LISTEN" c)

compare_connections-IsConsistent : IsConsistent compare_connections
unfolding compare_connections
compare_connections-IsConsistent = record {
  total = λ a b. ground arith;
  trans = λ a b c h k. ground arith;
}

keep_none :
    (test : ConnectionInfo → Bool) (c : ConnectionInfo) (rows : List ConnectionInfo)
    → ((d : ConnectionInfo) → InOrder compare_connections c d → test d ≡ false)
    → All (InOrder compare_connections c) rows
    → keep test rows ≡ []
keep_none test c [] h hs = refl
keep_none test c (d ∷ rows) h (hd, hs) = rw (h d hd) (keep_none test c rows h hs)

established_first :
    (c d : ConnectionInfo)
    → has_state "ESTABLISHED" c ≡ false
    → InOrder compare_connections c d
    → has_state "ESTABLISHED" d ≡ false
unfolding compare_connections
established_first c d e h = ground arith

listening_next :
    (c d : ConnectionInfo)
    → has_other_state c ≡ true
    → InOrder compare_connections c d
    → has_state "LISTEN" d ≡ false
unfolding compare_connections
listening_next c d e h = ground arith

-- ESTABLISHED, then LISTEN, then the others.
abbrev pub by_state : List ConnectionInfo → List ConnectionInfo
by_state rows =
    keep (has_state "ESTABLISHED") rows
    ++ (keep (has_state "LISTEN") rows ++ keep has_other_state rows)

established-listening :
    (c : ConnectionInfo) → has_state "ESTABLISHED" c ≡ true → has_state "LISTEN" c ≡ false
unfolding is equal
established-listening c e = rw (is-eq c.state "ESTABLISHED" e) refl

Ordered-by_state :
    (rows : List ConnectionInfo) → Ordered (InOrder compare_connections) rows → rows ≡ by_state rows
Ordered-by_state [] h = refl
Ordered-by_state (c ∷ rows) (hc, hs) = elim (Bool-cases (has_state "ESTABLISHED" c)) [
  | inl e ↦ rw (e, established-listening c e) (ap (◌∷◌ c) (Ordered-by_state rows hs))
  | inr e ↦
      let no_e = keep_none (has_state "ESTABLISHED") c rows (λ d. established_first c d e) hc in
      let ih = Ordered-by_state rows hs in
      elim (Bool-cases (has_state "LISTEN" c)) [
        | inl f ↦ rw (e, f, no_e) (ap (◌∷◌ c) (rw no_e at ih))
        | inr f ↦
            let other : has_other_state c ≡ true = rw (e, f) refl in
            let no_l = keep_none (has_state "LISTEN") c rows (λ d. listening_next c d other) hc in
            rw (e, f, no_e, no_l) (ap (◌∷◌ c) (rw (no_e, no_l) at ih))
      ]
]

-- With any sorting function that keeps to the contract of `qsort`: the connections are the first `max_conns`
-- rows of the four files, each with the owner that the map gives it, rearranged: those in state ESTABLISHED
-- first, then those in state LISTEN, then the others.
pub get_connection_info-by_state :
    (sys : System) (proc : Proc) (qsort : Qsort ConnectionInfo) (max_conns : ℕ)
    → Perm
        (get_connection_info sys proc qsort max_conns)
        (apply_socket_owner_map proc (take max_conns (all_rows sys)))
      × (get_connection_info sys proc qsort max_conns
          ≡ by_state (get_connection_info sys proc qsort max_conns))
unfolding get_connection_info
get_connection_info-by_state sys proc qsort max_conns = (
  subst (λ l. Perm (get_connection_info sys proc qsort max_conns) (apply_socket_owner_map proc l))
      (four_files-all_rows sys max_conns)
      (qsort.sort-perm compare_connections
        (apply_socket_owner_map proc (four_files sys max_conns))),
  Ordered-by_state _ (qsort.sort-Ordered compare_connections _ compare_connections-IsConsistent),
)

pub get_connection_info-length :
    (sys : System) (proc : Proc) (qsort : Qsort ConnectionInfo) (max_conns : ℕ)
    → length (get_connection_info sys proc qsort max_conns) ≤ max_conns
get_connection_info-length sys proc qsort max_conns = omega (
  arith,
  perm-length (get_connection_info-by_state sys proc qsort max_conns).0,
  length-apply_socket_owner_map proc (take max_conns (all_rows sys)),
  length-take max_conns (all_rows sys),
)
