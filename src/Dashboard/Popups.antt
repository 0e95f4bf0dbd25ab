-- ===== src/Dashboard/Popups.antt =====
-- What was pressed where a popup ends with a choice (src/trfx_dashboard.c).
use trafix.Prelude.{
  ℕ, ◌<◌, true, false, List, [], ◌∷◌, some, ◌≡◌, ◌⊎◌, inl, inr, refl, arith, Bool-cases,
}
use trafix.Dashboard.{
  Key, key_up, key_down, key_enter, key_resize, key_f1, other_key, char, is_enter, is_cancel,
  review_loop, select_loop,
}

-- Enter is pressed before Esc and q.
abbrev pub EnterFirst : List Key → Type 0
EnterFirst [] = ⊥
EnterFirst (key ∷ keys) = (is_enter key ≡ true) ⊎ ((is_cancel key ≡ false) × EnterFirst keys)

pub review_loop-EnterFirst :
    (keys rest : List Key) → review_loop keys ≡ some (true, rest) → EnterFirst keys
unfolding review_loop
review_loop-EnterFirst [] rest h = absurd (ground (arith, h))
review_loop-EnterFirst (key ∷ keys) rest h = elim (Bool-cases (is_enter key)) [
  | inl e ↦ inl e
  | inr e ↦ elim (Bool-cases (is_cancel key)) [
    | inl f ↦ absurd (ground (arith, h))
    | inr f ↦ inr (f, review_loop-EnterFirst keys rest (rw (e, f) at h))
  ]
]

-- The row is one of those that are shown, and Enter is pressed first.
abbrev pub Chosen : ℕ → ℕ → List Key → Type 0
Chosen v i keys = (i < v) × EnterFirst keys

later :
    (v i : ℕ) (key : Key) (keys : List Key)
    → is_cancel key ≡ false
    → Chosen v i keys
    → Chosen v i (key ∷ keys)
later v i key keys e h = (h.0, inr (e, h.1))

pub select_loop-EnterFirst :
    (v : ℕ) (keys : List Key) (i j : ℕ) (rest : List Key)
    → i < v
    → select_loop v i keys ≡ some (some j, rest)
    → Chosen v j keys
unfolding select_loop
select_loop-EnterFirst v [] i j rest lt h = absurd (ground (arith, h))
select_loop-EnterFirst v (key_up ∷ keys) i j rest lt h =
    later v j key_up keys refl (select_loop-EnterFirst v keys _ j rest (omega arith) h)
select_loop-EnterFirst v (key_down ∷ keys) i j rest lt h =
    later v j key_down keys refl (select_loop-EnterFirst v keys _ j rest (omega arith) h)
select_loop-EnterFirst v (key_enter ∷ keys) i j rest lt h =
    let e : i ≡ j = ground (arith, h) in (omega arith, inl refl)
select_loop-EnterFirst v (key_resize ∷ keys) i j rest lt h =
    later v j key_resize keys refl (select_loop-EnterFirst v keys i j rest lt h)
select_loop-EnterFirst v (key_f1 ∷ keys) i j rest lt h =
    later v j key_f1 keys refl (select_loop-EnterFirst v keys i j rest lt h)
select_loop-EnterFirst v (other_key ∷ keys) i j rest lt h =
    later v j other_key keys refl (select_loop-EnterFirst v keys i j rest lt h)
select_loop-EnterFirst v (char c ∷ keys) i j rest lt h = elim (Bool-cases (is_enter (char c))) [
  | inl e ↦ let same : i ≡ j = ground (arith, h) in (omega arith, inl e)
  | inr e ↦ elim (Bool-cases (is_cancel (char c))) [
    | inl f ↦ absurd (ground (arith, h))
    | inr f ↦ later v j (char c) keys f (select_loop-EnterFirst v keys i j rest lt (rw (e, f) at h))
  ]
]
