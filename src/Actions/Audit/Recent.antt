-- ===== src/Actions/Audit/Recent.antt =====
-- The ring holds the last eight entries, newest first (src/trfx_actions.c).
use trafix.Prelude.{
  ℕ, zero, suc, ◌+◌, ◌-◌, ◌%◌, ◌<◌, List, [], ◌∷◌, ◌≡◌, refl, sym, ap, ◌∙◌, arith, ltb, Bool-cases,
  inl, inr, ltb→lt, ltb→le, length, get_elem?, set, take, length-set, length-take,
  get_elem?-set_self, get_elem?-set_ne, get_elem?-none, min,
}
use trafix.Actions.Types.{AuditEntry}
use trafix.Actions.Audit.{Audit, audit_max, empty, append, audit_at, audit_count}

get_elem?-take :
    {A : Type 0} (n i : ℕ) (xs : List A) → i < n → get_elem? (take n xs) i ≡ get_elem? xs i
get_elem?-take zero i xs h = absurd (omega arith)
get_elem?-take (suc n) i [] h = refl
get_elem?-take (suc n) zero (x ∷ xs) h = refl
get_elem?-take (suc n) (suc i) (x ∷ xs) h = get_elem?-take n i xs (omega arith)

-- The ring stands for the entries `log`, newest first; it may hold fewer than all of them.
pub record Keeps (a : Audit) (log : List AuditEntry) : Type 0 where
  pub size : a.count ≡ min audit_max (length log)
  pub array : length a.entries ≡ audit_max
  pub next_in : a.next < audit_max
  pub items :
      (i : ℕ) → i < a.count → get_elem? a.entries ((a.next + 7 - i) % audit_max) ≡ get_elem? log i

pub empty-Keeps : Keeps empty []
unfolding empty
empty-Keeps = record {
  size = refl;
  array = refl;
  next_in = omega arith;
  items = λ i h. absurd (omega arith);
}

append_item :
    (a : Audit) (log : List AuditEntry) (e : AuditEntry) (i : ℕ)
    → Keeps a log
    → i < a.count + 1
    → i < audit_max
    → get_elem? (set a.entries a.next e) (((a.next + 1) % audit_max + 7 - i) % audit_max)
      ≡ get_elem? (e ∷ log) i
append_item a log e zero k h l =
    ap (get_elem? (set a.entries a.next e)) (omega (arith, k.next_in))
    ∙ get_elem?-set_self a.entries a.next e (omega (arith, k.next_in, k.array))
append_item a log e (suc i) k h l =
    get_elem?-set_ne a.entries a.next _ e (omega (arith, k.next_in))
    ∙ ap (get_elem? a.entries) (omega (arith, k.next_in))
    ∙ k.items i (omega arith)

pub append-Keeps :
    (a : Audit) (log : List AuditEntry) (e : AuditEntry)
    → Keeps a log
    → Keeps (append a e) (e ∷ log)
unfolding append
append-Keeps a log e k = elim (Bool-cases (ltb a.count audit_max)) [
  | inl room ↦ rw room (record {
    size = omega (arith, k.size, ltb→lt _ _ room);
    array = length-set a.entries a.next e ∙ k.array;
    next_in = omega arith;
    items = λ i h. append_item a log e i k h (omega (arith, ltb→lt _ _ room));
  })
  | inr full ↦ rw full (record {
    size = omega (arith, k.size, ltb→le _ _ full);
    array = length-set a.entries a.next e ∙ k.array;
    next_in = omega arith;
    items = λ i h. append_item a log e i k (omega arith) (omega (arith, k.size));
  })
]

-- Entries in the order in which they are recorded.
abbrev pub append_all : Audit → List AuditEntry → Audit
append_all a [] = a
append_all a (e ∷ es) = append_all (append a e) es

abbrev pub newest_first : List AuditEntry → List AuditEntry → List AuditEntry
newest_first log [] = log
newest_first log (e ∷ es) = newest_first (e ∷ log) es

append_all-Keeps :
    (es : List AuditEntry) (a : Audit) (log : List AuditEntry)
    → Keeps a log
    → Keeps (append_all a es) (newest_first log es)
append_all-Keeps [] a log k = k
append_all-Keeps (e ∷ es) a log k =
    append_all-Keeps es (append a e) (e ∷ log) (append-Keeps a log e k)

at-Keeps :
    (a : Audit) (log : List AuditEntry) (i : ℕ)
    → Keeps a log
    → audit_at a i ≡ get_elem? (take audit_max log) i
unfolding audit_at
at-Keeps a log i k = elim (Bool-cases (ltb i a.count)) [
  | inl e ↦ rw e (
      ap (get_elem? a.entries) (omega (arith, k.size, ltb→lt _ _ e))
      ∙ k.items i (ltb→lt _ _ e)
      ∙ sym (get_elem?-take audit_max i log (omega (arith, k.size, ltb→lt _ _ e))))
  | inr e ↦ rw e (
      sym (
        get_elem?-none (take audit_max log) i
          (omega (arith, k.size, ltb→le _ _ e, length-take audit_max log))))
]

-- After any records in an empty ring, `audit_at i` is entry `i` of the last eight, newest first, and
-- nothing behind them, and the count is their number.
pub audit_at-append_all :
    (es : List AuditEntry) (i : ℕ)
    → (audit_at (append_all empty es) i ≡ get_elem? (take audit_max (newest_first [] es)) i)
      × (audit_count (append_all empty es) ≡ min audit_max (length (newest_first [] es)))
unfolding audit_count
audit_at-append_all es i =
    let k = append_all-Keeps es empty [] empty-Keeps in (at-Keeps _ _ i k, k.size)
