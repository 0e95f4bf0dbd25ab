-- ===== src/Prelude/Fill.antt =====
-- A loop that fills an array while there is input and room: an array and its count are the list of its
-- items.
use Prim.Native.Nat.{ℕ, suc, ◌-◌, ◌<◌}
use mathlib.Core.Path.{◌≡◌, sym, ap, ◌∙◌}
use mathlib.Core.Logic.{inl, inr}
use mathlib.Core.Bool.{false}
use mathlib.Core.Option.{Option, none, some}
use mathlib.Core.List.{List, [], ◌∷◌, ◌++◌, append-nil, append_assoc}
use native.Mathlib.Omega.{arith}
use trafix.Prelude.Lists.{length, take, length-append, take_all}
use trafix.Prelude.Tests.{ltb, ltb→lt, ltb→le, Bool-cases, if◌then◌else◌}

module _ {B : Type 0} where
  abbrev pub add_option : List B → Option B → List B
  add_option list none = list
  add_option list (some b) = list ++ b ∷ []

  abbrev pub cons_option : Option B → List B → List B
  cons_option none list = list
  cons_option (some b) list = b ∷ list

  take_room :
      (max : ℕ) (list : List B) (b : B) (rest : List B)
      → length list < max
      → (list ++ b ∷ []) ++ take (max - length (list ++ b ∷ [])) rest
        ≡ list ++ take (max - length list) (b ∷ rest)
  take_room max list b rest h =
      append_assoc list (b ∷ []) (take (max - length (list ++ b ∷ [])) rest)
      ∙ ap (λ k. list ++ b ∷ take k rest) less
      ∙ sym (ap (λ k. list ++ take k (b ∷ rest)) more)
    where
      less : max - length (list ++ b ∷ []) ≡ max - length list - 1
      less = omega (arith, length-append list (b ∷ []))

      more : max - length list ≡ suc (max - length list - 1)
      more = omega arith

  fill_none :
      (max : ℕ) (list rest : List B)
      → ltb (length list) max ≡ false
      → list ≡ list ++ take (max - length list) rest
  fill_none max list rest h =
      let e : max - length list ≡ 0 = omega (arith, ltb→le (length list) max h) in
      rw e (sym (append-nil list))

module _ {A B : Type 0} where
  unfoldable pub fill : ℕ → (A → Option B) → List B → List A → List B
  fill max item list [] = list
  fill max item list (x ∷ xs) =
      let more = fill max item (add_option list (item x)) xs in
      if ltb (length list) max then more else list

  -- The items that there are.
  abbrev pub choose : (A → Option B) → List A → List B
  choose item [] = []
  choose item (x ∷ xs) = cons_option (item x) (choose item xs)

  fill_step :
      (max : ℕ) (item : A → Option B) (list : List B) (r : Option B) (xs : List A)
      → ((l : List B) → fill max item l xs ≡ l ++ take (max - length l) (choose item xs))
      → length list < max
      → fill max item (add_option list r) xs
        ≡ list ++ take (max - length list) (cons_option r (choose item xs))
  fill_step max item list none xs ih h = ih list
  fill_step max item list (some b) xs ih h =
      ih (list ++ b ∷ []) ∙ take_room max list b (choose item xs) h

  -- The loop adds the items that there are, in order, as many as there is room for.
  pub fill-choose :
      (max : ℕ) (item : A → Option B) (list : List B) (xs : List A)
      → fill max item list xs ≡ list ++ take (max - length list) (choose item xs)
  unfolding fill
  fill-choose max item list [] =
      sym (ap (λ t. list ++ t) (take_all (max - length list) [] (omega arith)) ∙ append-nil list)
  fill-choose max item list (x ∷ xs) = elim (Bool-cases (ltb (length list) max)) [
    | inl e ↦ rw e (
        fill_step max item list (item x) xs (λ l. fill-choose max item l xs)
          (ltb→lt (length list) max e))
    | inr e ↦ rw e (fill_none max list (choose item (x ∷ xs)) e)
  ]
