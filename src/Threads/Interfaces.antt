-- ===== src/Threads/Interfaces.antt =====
-- The interfaces in the order of the panel (`interface_status_sort_rank` and the loops of
-- `render_interface_status_table`, src/trfx_threads.c), with their addresses and rates.
use mathlib.Core.List.{Perm}
use mathlib.Core.Option.{some-injective, none-ne-some}
use trafix.Prelude.Int.{pos, ltb_ℤ}
use trafix.Prelude.{
  arith, ℕ, ◌<◌, ltb, Bool, true, false, not, ◌&&◌, ◌||◌, List, [], ◌∷◌, ◌++◌, Option, none, some,
  ◌==◌, ◌≡◌, ◌⊎◌, inl, inr, sym, ap, ◌∙◌, Bool-cases, refl, take, if◌then◌else◌,
}
use trafix.Cstr.Exchange.{
  exchange_sort, exchange_sort-perm, exchange_sort-Ordered, InPlace, Ordered-implied,
}
use trafix.Cstr.Sort.{Ordered}
use trafix.Cstr.{Text, codes, clip, equal, is_empty}
use trafix.Cstr.Compare.{equal_iff, equal-false}
use trafix.Bandwidth.{strcmp, BandwidthReport}
use trafix.Netinfo.Interfaces.{InterfaceStatus}
use trafix.Netinfo.Rates.{InterfaceRate}
use trafix.Netinfo.Snapshot.{Snapshot, ActiveInterface}

abbrev is_active : Option ActiveInterface → InterfaceStatus → Bool
is_active none status = false
is_active (some a) status = equal a.interface status.name

unfoldable pub interface_status_sort_rank : Snapshot → InterfaceStatus → ℕ
interface_status_sort_rank s status =
    if is_active s.active status then 0 else if status.is_up then 1 else 2

abbrev after : Text → Text → Bool
after a b = ltb_ℤ (pos 0) (strcmp a b)

-- The test of the inner loop.
unfoldable pub goes_behind : Snapshot → InterfaceStatus → InterfaceStatus → Bool
unfolding interface_status_sort_rank strcmp
goes_behind s a b =
    ltb (interface_status_sort_rank s b) (interface_status_sort_rank s a)
    || (interface_status_sort_rank s a == interface_status_sort_rank s b) && after a.name b.name

-- The array `sorted`, of at most `max` interfaces.
unfoldable pub sorted_statuses : Snapshot → ℕ → List InterfaceStatus
unfolding goes_behind exchange_sort
sorted_statuses s max = exchange_sort (goes_behind s) (take max s.interface_statuses.items)

unfoldable pub format_interface_address : InterfaceStatus → ℕ → Text
format_interface_address status size = clip size (
    if status.has_ipv4 && status.has_ipv6 && not (equal status.ipv4 status.ipv6)
    then status.ipv4 ++ (codes " / " ++ status.ipv6)
    else if status.has_ipv4
    then status.ipv4
    else if status.has_ipv6
    then status.ipv6
    else codes "N/A")

abbrev rate_named : {D : Type 0} → List (InterfaceRate D) → Text → Option (InterfaceRate D)
rate_named [] name = none
rate_named (rate ∷ rates) name =
    let rest = rate_named rates name in if equal rate.name name then some rate else rest

unfoldable pub find_interface_rate :
    {D : Type 0} → BandwidthReport D → Text → Option (InterfaceRate D)
find_interface_rate report name =
    if is_empty name then none else rate_named report.interface_rates name

strcmp_asym : (a b : Text) → after a b ≡ true → after b a ≡ false
unfolding strcmp
strcmp_asym [] [] h = refl
strcmp_asym [] (y ∷ b) h = ground arith
strcmp_asym (x ∷ a) [] h = refl
strcmp_asym (x ∷ a) (y ∷ b) h = ground (arith, strcmp_asym a b)

strcmp_trans : (a b c : Text) → after a b ≡ false → after b c ≡ false → after a c ≡ false
unfolding strcmp
strcmp_trans [] b [] h k = refl
strcmp_trans [] b (z ∷ c) h k = refl
strcmp_trans (x ∷ a) [] c h k = ground arith
strcmp_trans (x ∷ a) (y ∷ b) [] h k = ground arith
strcmp_trans (x ∷ a) (y ∷ b) (z ∷ c) h k = ground (arith, strcmp_trans a b c)

behind_asym :
    (s : Snapshot) (a b : InterfaceStatus) → goes_behind s a b ≡ true → goes_behind s b a ≡ false
unfolding goes_behind
behind_asym s a b h = ground (arith, strcmp_asym a.name b.name)

behind_trans :
    (s : Snapshot) (a b c : InterfaceStatus)
    → InPlace (goes_behind s) a b
    → InPlace (goes_behind s) b c
    → InPlace (goes_behind s) a c
unfolding goes_behind
behind_trans s a b c h k = ground (arith, strcmp_trans a.name b.name c.name)

-- Byte by byte, as texts of a dictionary.
abbrev pub NameLe : Text → Text → Type 0
NameLe [] b = Unit
NameLe (x ∷ a) [] = ⊥
NameLe (x ∷ a) (y ∷ b) = (x < y) ⊎ ((x ≡ y) × NameLe a b)

-- The machine has an active interface, of this name.
abbrev pub IsActive : Snapshot → InterfaceStatus → Type 0
IsActive s status = (a : ActiveInterface) × (s.active ≡ some a) × (a.interface ≡ status.name)

-- Both are the active interface, or none is and both are up or both are not.
abbrev pub SameKind : Snapshot → InterfaceStatus → InterfaceStatus → Type 0
SameKind s a b =
    (IsActive s a × IsActive s b) ⊎ ((¬ IsActive s a) × (¬ IsActive s b) × (a.is_up ≡ b.is_up))

-- The active interface goes before the others; of these one that is up before one that is not; and within a
-- kind the names ascend.
abbrev pub Precedes : Snapshot → InterfaceStatus → InterfaceStatus → Type 0
Precedes s a b =
    (IsActive s a × (¬ IsActive s b))
    ⊎ (((¬ IsActive s a) × (¬ IsActive s b) × (a.is_up ≡ true) × (b.is_up ≡ false))
        ⊎ (SameKind s a b × NameLe a.name b.name))

after-NameLe : (a b : Text) → after a b ≡ false → NameLe a b
unfolding strcmp
after-NameLe [] b h = tt
after-NameLe (x ∷ a) [] h = ground arith
after-NameLe (x ∷ a) (y ∷ b) h = ground (arith, after-NameLe a b)

IsActive-cases :
    (s : Snapshot) (status : InterfaceStatus)
    → ((is_active s.active status ≡ true) × IsActive s status)
      ⊎ ((is_active s.active status ≡ false) × (¬ IsActive s status))
IsActive-cases s status = go s.active refl
  where
    go :
        (o : Option ActiveInterface)
        → s.active ≡ o
        → ((is_active o status ≡ true) × IsActive s status)
          ⊎ ((is_active o status ≡ false) × (¬ IsActive s status))
    go none e = inr (refl, λ (a, f, h). none-ne-some a (sym e ∙ f))
    go (some a) e = elim (Bool-cases (equal a.interface status.name)) [
      | inl h ↦ inl (h, (a, e, (equal_iff a.interface status.name).0 h))
      | inr h ↦ inr (
        h,
        λ (b, f, g).
            equal-false a.interface status.name h
              (ap (λ (x : ActiveInterface). x.interface) (some-injective a b (sym e ∙ f)) ∙ g),
      )
    ]

-- The ranks of two interfaces, of which neither is active.
passive_up :
    (s : Snapshot) (a b : InterfaceStatus)
    → InPlace (goes_behind s) a b
    → is_active s.active a ≡ false
    → is_active s.active b ≡ false
    → ((a.is_up ≡ true) × (b.is_up ≡ false)) ⊎ ((a.is_up ≡ b.is_up) × (after a.name b.name ≡ false))
unfolding goes_behind interface_status_sort_rank
passive_up s a b h e f = ground arith

active_first :
    (s : Snapshot) (a b : InterfaceStatus)
    → InPlace (goes_behind s) a b
    → is_active s.active b ≡ true
    → (is_active s.active a ≡ true) × (after a.name b.name ≡ false)
unfolding goes_behind interface_status_sort_rank
active_first s a b h f = ground arith

InPlace-Precedes :
    (s : Snapshot) (a b : InterfaceStatus) → InPlace (goes_behind s) a b → Precedes s a b
InPlace-Precedes s a b h = elim (IsActive-cases s b) [
  | inl (f, q) ↦
      let (e, k) = active_first s a b h f in
      elim (IsActive-cases s a) [
        | inl (g, p) ↦ inr (inr (inl (p, q), after-NameLe a.name b.name k))
        | inr (g, p) ↦ absurd (ground arith)
      ]
  | inr (f, q) ↦ elim (IsActive-cases s a) [
    | inl (e, p) ↦ inl (p, q)
    | inr (e, p) ↦ elim (passive_up s a b h e f) [
      | inl (k, l) ↦ inr (inl (p, q, k, l))
      | inr (k, l) ↦ inr (inr (inr (p, q, k), after-NameLe a.name b.name l))
    ]
  ]
]

-- Each of the first `max` interfaces has one place: the active one first, then those that are up, then the
-- others, and those of one kind in the order of their names.
pub sorted_statuses-Ordered :
    (s : Snapshot) (max : ℕ)
    → Perm (sorted_statuses s max) (take max s.interface_statuses.items)
      × Ordered (Precedes s) (sorted_statuses s max)
unfolding sorted_statuses
sorted_statuses-Ordered s max =
    let l = take max s.interface_statuses.items in
    let ordered = exchange_sort-Ordered (goes_behind s) (behind_asym s) (behind_trans s) l in
    (
      exchange_sort-perm (goes_behind s) l,
      Ordered-implied (InPlace (goes_behind s)) (Precedes s) (InPlace-Precedes s) _ ordered,
    )
