-- ===== src/SupportViews/Cycle.antt =====
-- The loops of `trfx_support_view_next_index` (src/trfx_support_views.c) are the remainder.
use trafix.Prelude.Int.{ℤ, pos, negsuc, pos_part, ◌+ℤ◌, leb_ℤ}
use trafix.Prelude.{
  ℕ, zero, suc, ◌+◌, ◌-◌, ◌*◌, ◌%◌, ◌≤◌, ◌<◌, ◌≡◌, refl, ap, ◌∙◌, arith, leb, ltb, ltb→lt, ltb→le,
  Bool-cases, inl, inr, if◌then◌else◌,
}
use trafix.SupportViews.{view_count, default_index, settle, fuel_of, raise, lower, next_index}

lower_pos : (f n : ℕ) → n < f → lower f (pos n) ≡ pos (n % 8)
unfolding lower ◌+ℤ◌
lower_pos zero n h = absurd (omega arith)
lower_pos (suc f) n h = elim (Bool-cases (leb_ℤ (pos 8) (pos n))) [
  | inl e ↦
      rw (e, lower)
        (ap (lower f) (ground arith) ∙ lower_pos f (n - 8) (ground arith) ∙ ap pos (ground arith))
  | inr e ↦ rw (e, lower) (ap pos (ground arith))
]

raise_pos : (f n : ℕ) → raise f (pos n) ≡ pos n
unfolding raise
raise_pos zero n = refl
raise_pos (suc f) n = ground arith

raise_step : (f n : ℕ) → raise (suc f) (negsuc n) ≡ raise f (negsuc n +ℤ pos 8)
unfolding raise
raise_step f n = ground arith

negsuc_small : (n : ℕ) → n < 8 → negsuc n +ℤ pos 8 ≡ pos (7 - n)
unfolding ◌+ℤ◌
negsuc_small n h = ground arith

negsuc_large : (n : ℕ) → 8 ≤ n → negsuc n +ℤ pos 8 ≡ negsuc (n - 8)
unfolding ◌+ℤ◌
negsuc_large n h = ground arith

raise_negsuc : (f n : ℕ) → n < f → raise f (negsuc n) ≡ pos (7 - n % 8)
raise_negsuc zero n h = absurd (omega arith)
raise_negsuc (suc f) n h = elim (Bool-cases (ltb n 8)) [
  | inl e ↦
      raise_step f n
      ∙ ap (raise f) (negsuc_small n (ltb→lt n 8 e))
      ∙ raise_pos f (7 - n)
      ∙ ap pos (let lt = ltb→lt n 8 e in omega arith)
  | inr e ↦
      raise_step f n
      ∙ ap (raise f) (negsuc_large n (ltb→le n 8 e))
      ∙ raise_negsuc f (n - 8) (let le = ltb→le n 8 e in omega arith)
      ∙ ap pos (let le = ltb→le n 8 e in omega arith)
]

-- Both loops end: what they leave is the remainder by the number of views.
settle_pos : (n : ℕ) → settle (pos n) ≡ n % 8
unfolding settle
settle_pos n = rw (raise_pos (fuel_of (pos n)) n) (ap pos_part (lower_pos _ n (omega arith)))

settle_negsuc : (n : ℕ) → settle (negsuc n) ≡ 7 - n % 8
unfolding settle
settle_negsuc n =
    rw (raise_negsuc (fuel_of (negsuc n)) n (omega arith))
      (ap pos_part (lower_pos _ (7 - n % 8) (omega arith)) ∙ omega arith)

abbrev pub start_of : ℕ → ℕ
start_of current = if leb view_count current then default_index else current

start_of-lt : (current : ℕ) → start_of current < 8
start_of-lt current = ground arith

pos_pos : (s d : ℕ) → pos s +ℤ pos d ≡ pos (s + d)
unfolding ◌+ℤ◌
pos_pos s d = ground arith

pos_negsuc_small : (s d : ℕ) → d < s → pos s +ℤ negsuc d ≡ pos (s - (d + 1))
unfolding ◌+ℤ◌
pos_negsuc_small s d h = ground arith

pos_negsuc_large : (s d : ℕ) → s ≤ d → pos s +ℤ negsuc d ≡ negsuc (d - s)
unfolding ◌+ℤ◌
pos_negsuc_large s d h = ground arith

settle_back : (s d : ℕ) → s < 8 → settle (pos s +ℤ negsuc d) ≡ (s + 7 * (d + 1)) % 8
settle_back s d h = elim (Bool-cases (ltb d s)) [
  | inl e ↦
      ap settle (pos_negsuc_small s d (ltb→lt d s e))
      ∙ settle_pos (s - (d + 1))
      ∙ arrive (ltb→lt d s e)
  | inr e ↦
      ap settle (pos_negsuc_large s d (ltb→le d s e))
      ∙ settle_negsuc (d - s)
      ∙ depart (ltb→le d s e)
]
  where
    arrive : d < s → (s - (d + 1)) % 8 ≡ (s + 7 * (d + 1)) % 8
    arrive lt = omega arith

    depart : s ≤ d → 7 - (d - s) % 8 ≡ (s + 7 * (d + 1)) % 8
    depart le = omega arith

-- The loops of `next_index` end, for every index and step, forward or back, and leave the sum's
-- remainder by the number of views; an index out of range counts as 0.
pub next_index_mod :
    (current d : ℕ)
    → (next_index current (pos d) ≡ (start_of current + d) % view_count)
      × (next_index current (negsuc d) ≡ (start_of current + 7 * (d + 1)) % view_count)
unfolding next_index
next_index_mod current d = (
  ap settle (pos_pos (start_of current) d) ∙ settle_pos (start_of current + d),
  settle_back (start_of current) d (start_of-lt current),
)

pub next_index-lt : (current : ℕ) (delta : ℤ) → next_index current delta < view_count
next_index-lt current (pos d) = omega (arith, (next_index_mod current d).0)
next_index-lt current (negsuc d) = omega (arith, (next_index_mod current d).1)
