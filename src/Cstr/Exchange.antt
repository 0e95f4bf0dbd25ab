-- ===== src/Cstr/Exchange.antt =====
-- The sort by exchange: every place is compared with all that stand behind it, and the two items are exchanged
-- where the first goes behind the second.
use mathlib.Core.List.{Perm}
use mathlib.Core.List.Perm
use trafix.Prelude.{
  arith, ℕ, zero, suc, Bool, true, false, List, [], ◌∷◌, ◌≡◌, refl, All, inl, inr, if◌then◌else◌,
  Bool-cases, length, ap,
}
use trafix.Cstr.Sort.{Ordered}

module _ {A : Type 0} (behind : A → A → Bool) where
  -- The inner loop, for the item of the outer one: what stands in its place at the end, and the items behind.
  unfoldable pub exchange : A → List A → A × List A
  exchange x [] = (x, [])
  exchange x (y ∷ ys) =
      let (m, r) = exchange y ys in
      let (n, s) = exchange x ys in if behind x y then (m, x ∷ r) else (n, y ∷ s)

  -- The outer loop, over `n` places.
  unfoldable pub exchange_places : ℕ → List A → List A
  unfolding exchange
  exchange_places zero xs = xs
  exchange_places (suc n) [] = []
  exchange_places (suc n) (x ∷ xs) = let (m, r) = exchange x xs in m ∷ exchange_places n r

  unfoldable pub exchange_sort : List A → List A
  unfolding exchange_places
  exchange_sort xs = exchange_places (length xs) xs

  -- Not behind.
  abbrev pub InPlace : A → A → Type 0
  InPlace a b = behind a b ≡ false

  exchange-perm : (x : A) (xs : List A) → Perm ((exchange x xs).0 ∷ (exchange x xs).1) (x ∷ xs)
  unfolding exchange
  exchange-perm x [] = Perm.rfl
  exchange-perm x (y ∷ ys) = elim (Bool-cases (behind x y)) [
    | inl e ↦ rw e (
        Perm.trans (Perm.swap x (exchange y ys).0 (exchange y ys).1)
          (Perm.cons x (exchange-perm y ys)))
    | inr e ↦ rw e (
        Perm.trans (Perm.swap y (exchange x ys).0 (exchange x ys).1)
          (Perm.trans (Perm.cons y (exchange-perm x ys)) (Perm.swap x y ys)))
  ]

  exchange-length : (x : A) (xs : List A) → length (exchange x xs).1 ≡ length xs
  unfolding exchange
  exchange-length x [] = refl
  exchange-length x (y ∷ ys) = elim (Bool-cases (behind x y)) [
    | inl e ↦ rw e (ap suc (exchange-length y ys))
    | inr e ↦ rw e (ap suc (exchange-length x ys))
  ]

  exchange_places-perm : (n : ℕ) (xs : List A) → Perm (exchange_places n xs) xs
  unfolding exchange_places
  exchange_places-perm zero xs = Perm.rfl
  exchange_places-perm (suc n) [] = Perm.rfl
  exchange_places-perm (suc n) (x ∷ xs) =
      Perm.trans (Perm.cons _ (exchange_places-perm n (exchange x xs).1)) (exchange-perm x xs)

  pub exchange_sort-perm : (xs : List A) → Perm (exchange_sort xs) xs
  unfolding exchange_sort
  exchange_sort-perm xs = exchange_places-perm (length xs) xs

  module _ (asym : (a b : A) → behind a b ≡ true → behind b a ≡ false)
      (trans : (a b c : A) → InPlace a b → InPlace b c → InPlace a c) where
    InPlace-refl : (a : A) → InPlace a a
    InPlace-refl a = elim (Bool-cases (behind a a)) [ inl e ↦ asym a a e | inr e ↦ e ]

    All-InPlace : (a b : A) (xs : List A) → InPlace a b → All (InPlace b) xs → All (InPlace a) xs
    All-InPlace a b [] h hs = tt
    All-InPlace a b (x ∷ xs) h (hx, hs) = (trans a b x h hx, All-InPlace a b xs h hs)

    -- The item that is left is no further behind than the first one, and than any other.
    exchange-first :
        (x : A) (xs : List A)
        → InPlace (exchange x xs).0 x × All (InPlace (exchange x xs).0) (exchange x xs).1
    unfolding exchange
    exchange-first x [] = (InPlace-refl x, tt)
    exchange-first x (y ∷ ys) = elim (Bool-cases (behind x y)) [
      | inl e ↦
          let (h, hs) = exchange-first y ys in
          let hx : InPlace (exchange y ys).0 x = trans _ y x h (asym x y e) in rw e (hx, (hx, hs))
      | inr e ↦ let (h, hs) = exchange-first x ys in rw e (h, (trans _ x y h e, hs))
    ]

    All-exchange :
        (a x : A) (xs : List A)
        → All (InPlace a) (x ∷ xs)
        → All (InPlace a) ((exchange x xs).0 ∷ (exchange x xs).1)
    unfolding exchange
    All-exchange a x [] h = h
    All-exchange a x (y ∷ ys) (hx, (hy, hs)) = elim (Bool-cases (behind x y)) [
      | inl e ↦ let (k, ks) = All-exchange a y ys (hy, hs) in rw e (k, (hx, ks))
      | inr e ↦ let (k, ks) = All-exchange a x ys (hx, hs) in rw e (k, (hy, ks))
    ]

    All-places :
        (n : ℕ) (a : A) (xs : List A) → All (InPlace a) xs → All (InPlace a) (exchange_places n xs)
    unfolding exchange_places
    All-places zero a xs h = h
    All-places (suc n) a [] h = tt
    All-places (suc n) a (x ∷ xs) h =
        let (k, ks) = All-exchange a x xs h in (k, All-places n a (exchange x xs).1 ks)

    exchange_places-Ordered :
        (n : ℕ) (xs : List A) → length xs ≡ n → Ordered InPlace (exchange_places n xs)
    unfolding exchange_places
    exchange_places-Ordered zero [] h = tt
    exchange_places-Ordered zero (x ∷ xs) h = absurd (omega (arith, h))
    exchange_places-Ordered (suc n) [] h = tt
    exchange_places-Ordered (suc n) (x ∷ xs) h = (
      All-places n _ (exchange x xs).1 (exchange-first x xs).1,
      exchange_places-Ordered n (exchange x xs).1 (omega (arith, h, exchange-length x xs)),
    )

    pub exchange_sort-Ordered : (xs : List A) → Ordered InPlace (exchange_sort xs)
    unfolding exchange_sort
    exchange_sort-Ordered xs = exchange_places-Ordered (length xs) xs refl

module _ {A : Type 0} (R S : A → A → Type 0) (implied : (a b : A) → R a b → S a b) where
  All-implied : (a : A) (xs : List A) → All (R a) xs → All (S a) xs
  All-implied a [] h = tt
  All-implied a (x ∷ xs) (hx, hs) = (implied a x hx, All-implied a xs hs)

  pub Ordered-implied : (xs : List A) → Ordered R xs → Ordered S xs
  Ordered-implied [] h = tt
  Ordered-implied (x ∷ xs) (hx, hs) = (All-implied x xs hx, Ordered-implied xs hs)
