-- ===== src/Cstr/Sort.antt =====
-- `qsort` of the C library: for a comparison that is consistent the items are rearranged in its order; how
-- it orders items that compare equal is not said.
use mathlib.Core.List.{Perm, Permᴰ}
use mathlib.Core.Logic.{∥∥₁_elim}
use native.Mathlib.Nat.{ℕ_set}
use mathlib.Core.List.Perm
use trafix.Prelude.Int.{ℤ, pos, leb_ℤ, ◌≤ℤ◌}
use trafix.Prelude.{
  suc, refl, ap, ◌∙◌, length, All, false, List, [], ◌∷◌, ◌≡◌, ◌⊎◌, inl, inr, arith, Bool-cases,
  if◌then◌else◌, leb→le, leb→lt,
}

PermD-length {ℓ} : {A : Type ℓ} {l r : List A} → Permᴰ l r → length l ≡ length r
PermD-length Permᴰ.nil = refl
PermD-length (Permᴰ.cons e p) = ap suc (PermD-length p)
PermD-length (Permᴰ.swap e f) = refl
PermD-length (Permᴰ.trans p q) = PermD-length p ∙ PermD-length q

pub perm-length {ℓ} : {A : Type ℓ} {l r : List A} → Perm l r → length l ≡ length r
perm-length {l = l} {r = r} p = ∥∥₁_elim p (ℕ_set (length l) (length r)) PermD-length

-- Every item is related to all that stand behind it.
abbrev pub Ordered {ℓ κ} : {A : Type ℓ} → (A → A → Type κ) → List A → Type κ
Ordered R [] = Unit
Ordered R (x ∷ xs) = All (R x) xs × Ordered R xs

module _ {A : Type 0} where
  abbrev pub InOrder : (A → A → ℤ) → A → A → Type 0
  InOrder compare a b = compare a b ≤ℤ pos 0

  -- A total preorder.
  pub record IsConsistent (compare : A → A → ℤ) : Type 0 where
    pub total : (a b : A) → InOrder compare a b ⊎ InOrder compare b a
    pub trans : (a b c : A) → InOrder compare a b → InOrder compare b c → InOrder compare a c

-- What the program relies on.
pub record Qsort (A : Type 0) : Type 0 where
  pub sort : (A → A → ℤ) → List A → List A
  pub sort-perm : (compare : A → A → ℤ) (l : List A) → Perm (sort compare l) l
  pub sort-Ordered :
      (compare : A → A → ℤ) (l : List A)
      → IsConsistent compare
      → Ordered (InOrder compare) (sort compare l)

-- An insertion sort is one.
module _ {A : Type 0} (compare : A → A → ℤ) where
  abbrev insert : A → List A → List A
  insert x [] = x ∷ []
  insert x (y ∷ ys) = if leb_ℤ (compare x y) (pos 0) then x ∷ y ∷ ys else y ∷ insert x ys

  abbrev insertion_sort : List A → List A
  insertion_sort [] = []
  insertion_sort (x ∷ xs) = insert x (insertion_sort xs)

  insert-perm : (x : A) (l : List A) → Perm (insert x l) (x ∷ l)
  insert-perm x [] = Perm.rfl
  insert-perm x (y ∷ ys) = elim (Bool-cases (leb_ℤ (compare x y) (pos 0))) [
    | inl e ↦ rw e Perm.rfl
    | inr e ↦ rw e (Perm.trans (Perm.cons y (insert-perm x ys)) (Perm.swap x y ys))
  ]

  pub insertion_sort-perm : (l : List A) → Perm (insertion_sort l) l
  insertion_sort-perm [] = Perm.rfl
  insertion_sort-perm (x ∷ xs) =
      Perm.trans (insert-perm x (insertion_sort xs)) (Perm.cons x (insertion_sort-perm xs))

  module _ (c : IsConsistent compare) where
    All-insert :
        (z x : A) (l : List A)
        → InOrder compare z x
        → All (InOrder compare z) l
        → All (InOrder compare z) (insert x l)
    All-insert z x [] h hs = (h, tt)
    All-insert z x (y ∷ ys) h (hy, hs) = elim (Bool-cases (leb_ℤ (compare x y) (pos 0))) [
      | inl e ↦ rw e (h, (hy, hs))
      | inr e ↦ rw e (hy, All-insert z x ys h hs)
    ]

    All-trans :
        (z x : A) (l : List A)
        → InOrder compare z x
        → All (InOrder compare x) l
        → All (InOrder compare z) l
    All-trans z x [] h hs = tt
    All-trans z x (y ∷ ys) h (hy, hs) = (c.trans z x y h hy, All-trans z x ys h hs)

    -- What is not in order is in order the other way round.
    flipped : (x y : A) → leb_ℤ (compare x y) (pos 0) ≡ false → InOrder compare y x
    flipped x y e = elim (c.total x y) [ inl h ↦ absurd (omega (arith, leb→lt _ _ e)) | inr h ↦ h ]

    insert-Ordered :
        (x : A) (l : List A) → Ordered (InOrder compare) l → Ordered (InOrder compare) (insert x l)
    insert-Ordered x [] h = (tt, tt)
    insert-Ordered x (y ∷ ys) (hy, hs) = elim (Bool-cases (leb_ℤ (compare x y) (pos 0))) [
      | inl e ↦
          let h : InOrder compare x y = omega (arith, leb→le _ _ e) in
          rw e ((h, All-trans x y ys h hy), (hy, hs))
      | inr e ↦ rw e (All-insert y x ys (flipped x y e) hy, insert-Ordered x ys hs)
    ]

    pub insertion_sort-Ordered : (l : List A) → Ordered (InOrder compare) (insertion_sort l)
    insertion_sort-Ordered [] = tt
    insertion_sort-Ordered (x ∷ xs) =
        insert-Ordered x (insertion_sort xs) (insertion_sort-Ordered xs)

abbrev pub insertion : {A : Type 0} → Qsort A
insertion = record {
  sort = insertion_sort;
  sort-perm = insertion_sort-perm;
  sort-Ordered = λ compare l c. insertion_sort-Ordered compare c l;
}
