-- ===== src/Prelude/Recent.antt =====
-- The last `size` items of a list to which items are added at the end.
use Prim.Native.Nat.{ℕ, suc, ◌-◌, ◌≤◌, ◌<◌}
use mathlib.Core.Path.{◌≡◌, sym, ap, ◌∙◌}
use mathlib.Core.Logic.{inl, inr}
use mathlib.Core.List.{List, [], ◌∷◌, ◌++◌}
use native.Mathlib.Omega.{arith}
use trafix.Prelude.Lists.{length, drop, length-append, length-drop, drop-append, drop-one-drop}
use trafix.Prelude.Tests.{ltb, ltb→lt, ltb→le, Bool-cases, if◌then◌else◌}

module _ {A : Type 0} (size : ℕ) where
  -- A new item stands last, and drives the oldest out of `size`.
  abbrev pub remember : List A → A → List A
  remember q x = (if ltb (length q) size then q else drop 1 q) ++ x ∷ []

  -- The last items.
  abbrev pub last : List A → List A
  last xs = drop (length xs - size) xs

  few_last :
      (xs : List A) (x : A) → length (last xs) < size → last xs ++ x ∷ [] ≡ last (xs ++ x ∷ [])
  few_last xs x few =
      ap (λ k. drop k xs ++ x ∷ []) before ∙ sym (ap (λ k. drop k (xs ++ x ∷ [])) behind)
    where
      before : length xs - size ≡ 0
      before = omega (arith, length-drop (length xs - size) xs)

      behind : length (xs ++ x ∷ []) - size ≡ 0
      behind = omega (arith, length-append xs (x ∷ []), length-drop (length xs - size) xs)

  full_last :
      (xs : List A) (x : A)
      → 0 < size
      → size ≤ length (last xs)
      → drop 1 (last xs) ++ x ∷ [] ≡ last (xs ++ x ∷ [])
  full_last xs x some_room full =
      ap (λ l. l ++ x ∷ []) (drop-one-drop k xs)
      ∙ sym (drop-append (suc k) xs (x ∷ []) (omega (arith, length-drop k xs)))
      ∙ ap (λ j. drop j (xs ++ x ∷ [])) behind
    where
      k : ℕ
      k = length xs - size

      behind : suc k ≡ length (xs ++ x ∷ []) - size
      behind = omega (arith, length-append xs (x ∷ []), length-drop k xs)

  pub remember-last : (xs : List A) (x : A) → 0 < size → remember (last xs) x ≡ last (xs ++ x ∷ [])
  remember-last xs x some_room = elim (Bool-cases (ltb (length (last xs)) size)) [
    | inl few ↦ rw few (few_last xs x (ltb→lt _ _ few))
    | inr full ↦ rw full (full_last xs x some_room (ltb→le _ _ full))
  ]
