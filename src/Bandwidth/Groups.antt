-- ===== src/Bandwidth/Groups.antt =====
-- The loop of `trfx_collect_bandwidth_report` that counts the sockets of each process (src/trfx_bandwidth.c).
use trafix.Prelude.{
  ℕ, zero, suc, ◌+◌, Bool, ◌&&◌, List, [], ◌∷◌, ◌++◌, Option, none, some, ltb, length,
  if◌then◌else◌, ◌≡◌, ◌∙◌, ◌≤◌, ◌⊎◌, inl, inr, refl, ap, subst, arith, Bool-cases, ltb→lt, ltb→le,
  length-append,
}
use trafix.Cstr.{Text, clip, equal}
use trafix.Actions.Requests.{SocketOwnerInfo}
use trafix.Bandwidth.{max_bandwidth_flows}

pub record ProcessGroup : Type 0 where
  pub pid : Text
  pub process : Text
  pub socket_count : ℕ

unfoldable pub same_process : ProcessGroup → SocketOwnerInfo → Bool
same_process g owner = equal g.pid owner.pid && equal g.process owner.process

-- The index, or -1.
unfoldable pub find_process_group : List ProcessGroup → SocketOwnerInfo → Option ℕ
unfolding same_process
find_process_group [] owner = none
find_process_group (g ∷ groups) owner =
    let rest = find_process_group groups owner in
    if same_process g owner then some 0 else (elim rest [ none ↦ none | some i ↦ some (suc i) ])

-- `groups[i].socket_count++`
abbrev pub count_socket : List ProcessGroup → ℕ → List ProcessGroup
count_socket [] i = []
count_socket (g ∷ groups) zero = record g { socket_count = suc g.socket_count } ∷ groups
count_socket (g ∷ groups) (suc i) = g ∷ count_socket groups i

abbrev pub new_group : SocketOwnerInfo → ProcessGroup
new_group owner = record {
  pid = clip 16 owner.pid;
  process = clip 64 owner.process;
  socket_count = 1;
}

abbrev pub group_or_new : List ProcessGroup → ℕ → SocketOwnerInfo → Option ℕ → List ProcessGroup × ℕ
group_or_new groups total owner (some i) = (count_socket groups i, suc total)
group_or_new groups total owner none =
    if ltb (length groups) max_bandwidth_flows
    then (groups ++ new_group owner ∷ [], suc total)
    else (groups, total)

-- One round of the loop: the groups and the number of sockets.
unfoldable pub add_owner : List ProcessGroup × ℕ → SocketOwnerInfo → List ProcessGroup × ℕ
unfolding find_process_group
add_owner (groups, total) owner = group_or_new groups total owner (find_process_group groups owner)

unfoldable pub group_owners : List ProcessGroup × ℕ → List SocketOwnerInfo → List ProcessGroup × ℕ
unfolding add_owner
group_owners found [] = found
group_owners found (owner ∷ owners) = group_owners (add_owner found owner) owners

-- The sum of the counts.
abbrev pub sockets_of : List ProcessGroup → ℕ
sockets_of [] = 0
sockets_of (g ∷ groups) = g.socket_count + sockets_of groups

count_socket-sockets_of :
    (groups : List ProcessGroup) (owner : SocketOwnerInfo) (i : ℕ)
    → find_process_group groups owner ≡ some i
    → (sockets_of (count_socket groups i) ≡ suc (sockets_of groups))
      × (length (count_socket groups i) ≡ length groups)
unfolding find_process_group
count_socket-sockets_of [] owner i h = ground arith
count_socket-sockets_of (g ∷ groups) owner zero h = (omega arith, refl)
count_socket-sockets_of (g ∷ groups) owner (suc i) h =
    let ih = count_socket-sockets_of groups owner i (ground arith) in
    (omega (arith, ih.0), ap suc ih.1)

sockets_of-append :
    (groups : List ProcessGroup) (g : ProcessGroup)
    → sockets_of (groups ++ g ∷ []) ≡ sockets_of groups + g.socket_count
sockets_of-append [] g = omega arith
sockets_of-append (h ∷ groups) g = omega (arith, sockets_of-append groups g)

-- After `n` owners: at most 64 groups, `total` sockets in them, and all of the owners, unless there is no
-- room for a group.
pub record Counts (n : ℕ) (found : List ProcessGroup × ℕ) : Type 0 where
  pub in_room : length found.0 ≤ max_bandwidth_flows
  pub counted : sockets_of found.0 ≡ found.1
  pub all_or_full : (found.1 ≡ n) ⊎ (length found.0 ≡ max_bandwidth_flows)

new-Counts :
    (n : ℕ) (groups : List ProcessGroup) (total : ℕ) (owner : SocketOwnerInfo)
    → Counts n (groups, total)
    → Counts (suc n) (group_or_new groups total owner none)
new-Counts n groups total owner h = elim (Bool-cases (ltb (length groups) max_bandwidth_flows)) [
  | inl e ↦
      let len = length-append groups (new_group owner ∷ []) in
      rw e record {
        in_room = omega (arith, len, ltb→lt _ _ e);
        counted = omega (arith, sockets_of-append groups (new_group owner), h.counted);
        all_or_full = elim h.all_or_full [
          | inl a ↦ inl (ap suc a)
          | inr f ↦ absurd (omega (arith, ltb→lt _ _ e, f))
        ];
      }
  | inr e ↦ rw e record {
    in_room = h.in_room;
    counted = h.counted;
    all_or_full = inr (omega (arith, ltb→le _ _ e, h.in_room));
  }
]

add_owner-Counts :
    (n : ℕ) (groups : List ProcessGroup) (total : ℕ) (owner : SocketOwnerInfo) (place : Option ℕ)
    → find_process_group groups owner ≡ place
    → Counts n (groups, total)
    → Counts (suc n) (group_or_new groups total owner place)
add_owner-Counts n groups total owner none e h = new-Counts n groups total owner h
add_owner-Counts n groups total owner (some i) e h =
    let counted = count_socket-sockets_of groups owner i e in
    record {
      in_room = omega (arith, counted.1, h.in_room);
      counted = omega (arith, counted.0, h.counted);
      all_or_full = elim h.all_or_full [ inl a ↦ inl (ap suc a) | inr f ↦ inr (counted.1 ∙ f) ];
    }

group_owners-from :
    (n : ℕ) (found : List ProcessGroup × ℕ) (owners : List SocketOwnerInfo)
    → Counts n found
    → Counts (n + length owners) (group_owners found owners)
unfolding group_owners add_owner
group_owners-from n found [] h = let e : n + 0 ≡ n = omega arith in rw e h
group_owners-from n (groups, total) (owner ∷ owners) h =
    let e : n + suc (length owners) ≡ suc n + length owners = omega arith in
    rw e (
      group_owners-from (suc n) (add_owner (groups, total) owner) owners
        (add_owner-Counts n groups total owner (find_process_group groups owner) refl h))

-- Whatever the owners are: there are at most 64 groups, the total is the sum of their counts, and every owner
-- is counted, unless 64 groups are used up.
pub group_owners-Counts :
    (owners : List SocketOwnerInfo) → Counts (length owners) (group_owners ([], 0) owners)
group_owners-Counts owners =
    let e : 0 + length owners ≡ length owners = omega arith in
    subst (λ n. Counts n (group_owners ([], 0) owners)) e
      (group_owners-from 0 ([], 0) owners
        record { in_room = omega arith; counted = refl; all_or_full = inl refl })
