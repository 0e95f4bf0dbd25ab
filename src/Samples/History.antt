-- ===== src/Samples/History.antt =====
-- The buffer holds the last twelve samples, oldest first (src/trfx_netinfo.c).
use trafix.Prelude.Int.{ℤ}
use trafix.Prelude.{
  ℕ, ◌+◌, ◌%◌, ◌≤◌, ◌<◌, List, [], ◌∷◌, ◌++◌, ◌≡◌, refl, subst, append-nil, append_assoc, sym, ap,
  ◌∙◌, arith, ltb, leb, Bool-cases, inl, inr, ltb→lt, ltb→le, leb→le, leb→lt, length, get_elem?,
  set, drop, length-set, length-append, length-drop, length-replicate, get_elem?-set_self,
  get_elem?-set_ne, get_elem?-append_left, get_elem?-append_last, get_elem?-none, get_elem?-drop,
}
use trafix.Prelude.Recent.{remember, last, remember-last}
use trafix.Samples.{sample_history, Sample, SampleBuffer, init, push, at}

module _ {S : Type 0} where
  -- The buffer stands for the history `q`.
  pub record Holds (b : SampleBuffer S) (q : List (Sample S)) : Type 0 where
    pub size : b.count ≡ length q
    pub capped : b.count ≤ sample_history
    pub array : length b.samples ≡ sample_history
    pub head_in : b.head < sample_history
    pub items :
        (i : ℕ) → i < b.count → get_elem? b.samples ((b.head + i) % sample_history) ≡ get_elem? q i

  pub init-Holds : (blank : Sample S) → Holds (init blank) []
  unfolding init
  init-Holds blank = record {
    size = refl;
    capped = omega arith;
    array = length-replicate sample_history blank;
    head_in = omega arith;
    items = λ i h. absurd (omega arith);
  }

  -- The item behind a write at the slot is the new one.
  item_new :
      (xs q : List (Sample S)) (x : Sample S) (slot j i : ℕ)
      → j ≡ slot
      → slot < length xs
      → i ≡ length q
      → get_elem? (set xs slot x) j ≡ get_elem? (q ++ x ∷ []) i
  item_new xs q x slot j i e lt last =
      ap (get_elem? (set xs slot x)) e
      ∙ get_elem?-set_self xs slot x lt
      ∙ sym (get_elem?-append_last q x i last)

  module _ (b : SampleBuffer S) (q : List (Sample S)) (x : Sample S) (h : Holds b q) where
    room_item :
        (i : ℕ)
        → b.count < sample_history
        → i < b.count + 1
        → get_elem?
            (set b.samples ((b.head + b.count) % sample_history) x)
            ((b.head + i) % sample_history)
          ≡ get_elem? (q ++ x ∷ []) i
    room_item i room lt = elim (Bool-cases (ltb i b.count)) [
      | inl e ↦ kept (ltb→lt i b.count e)
      | inr e ↦ new (ltb→le i b.count e)
    ]
      where
        kept :
            i < b.count
            → get_elem?
                (set b.samples ((b.head + b.count) % sample_history) x)
                ((b.head + i) % sample_history)
              ≡ get_elem? (q ++ x ∷ []) i
        kept old =
            get_elem?-set_ne b.samples _ _ x (omega (arith, h.head_in))
            ∙ h.items i old
            ∙ sym (get_elem?-append_left q (x ∷ []) i (omega (arith, h.size)))

        new :
            b.count ≤ i
            → get_elem?
                (set b.samples ((b.head + b.count) % sample_history) x)
                ((b.head + i) % sample_history)
              ≡ get_elem? (q ++ x ∷ []) i
        new le =
            item_new b.samples q x _ _ i (omega arith) (omega (arith, h.array))
              (omega (arith, h.size))

    full_item :
        (i : ℕ)
        → sample_history ≤ b.count
        → i < b.count
        → get_elem?
            (set b.samples ((b.head + b.count) % sample_history) x)
            (((b.head + 1) % sample_history + i) % sample_history)
          ≡ get_elem? (drop 1 q ++ x ∷ []) i
    full_item i full lt = elim (Bool-cases (ltb (i + 1) b.count)) [
      | inl e ↦ kept (ltb→lt (i + 1) b.count e)
      | inr e ↦ new (ltb→le (i + 1) b.count e)
    ]
      where
        kept :
            i + 1 < b.count
            → get_elem?
                (set b.samples ((b.head + b.count) % sample_history) x)
                (((b.head + 1) % sample_history + i) % sample_history)
              ≡ get_elem? (drop 1 q ++ x ∷ []) i
        kept old =
            get_elem?-set_ne b.samples _ _ x (omega (arith, h.head_in, h.capped))
            ∙ ap (get_elem? b.samples) (omega arith)
            ∙ h.items (1 + i) (omega arith)
            ∙ sym (get_elem?-drop 1 i q)
            ∙ sym (
                get_elem?-append_left (drop 1 q) (x ∷ []) i
                  (omega (arith, h.size, length-drop 1 q)))

        new :
            b.count ≤ i + 1
            → get_elem?
                (set b.samples ((b.head + b.count) % sample_history) x)
                (((b.head + 1) % sample_history + i) % sample_history)
              ≡ get_elem? (drop 1 q ++ x ∷ []) i
        new le =
            item_new b.samples (drop 1 q) x _ _ i (omega (arith, h.capped)) (omega (arith, h.array))
              (omega (arith, h.size, length-drop 1 q))

  -- A push is the abstract one.
  pub push-Holds :
      (b : SampleBuffer S) (q : List (Sample S)) (s : S) (t : ℤ)
      → Holds b q
      → Holds (push b s t) (remember sample_history q (record { captured_at = t; snapshot = s }))
  unfolding push
  push-Holds b q s t h = elim (Bool-cases (ltb b.count sample_history)) [
    | inl room ↦ rw (← h.size) (
        rw room (record {
          size = omega (arith, h.size, length-append q (x ∷ []));
          capped = omega (arith, ltb→lt _ _ room);
          array = length-set b.samples _ x ∙ h.array;
          head_in = h.head_in;
          items = λ i. room_item b q x h i (ltb→lt _ _ room);
        }))
    | inr full ↦ rw (← h.size) (
        rw full (record {
          size = omega (
            arith,
            h.size,
            h.capped,
            ltb→le _ _ full,
            length-append (drop 1 q) (x ∷ []),
            length-drop 1 q,
          );
          capped = h.capped;
          array = length-set b.samples _ x ∙ h.array;
          head_in = omega arith;
          items = λ i. full_item b q x h i (ltb→le _ _ full);
        }))
  ]
    where
      x : Sample S
      x = record { captured_at = t; snapshot = s }

  -- What `at` returns is the item of the history, counted from the oldest, or nothing.
  pub at-Holds :
      (b : SampleBuffer S) (q : List (Sample S)) (i : ℕ) → Holds b q → at b i ≡ get_elem? q i
  unfolding at
  at-Holds b q i h = elim (Bool-cases (leb b.count i)) [
    | inl e ↦ rw e (sym (get_elem?-none q i (omega (arith, h.size, leb→le _ _ e))))
    | inr e ↦ rw e (h.items i (leb→lt _ _ e))
  ]

  abbrev pub push_all : SampleBuffer S → List (Sample S) → SampleBuffer S
  push_all b [] = b
  push_all b (x ∷ xs) = push_all (push b x.snapshot x.captured_at) xs

  push_all-Holds :
      (xs ys : List (Sample S)) (b : SampleBuffer S)
      → Holds b (last sample_history ys)
      → Holds (push_all b xs) (last sample_history (ys ++ xs))
  push_all-Holds [] ys b h = rw append-nil h
  push_all-Holds (x ∷ xs) ys b h =
      let pushed = push-Holds b (last sample_history ys) x.snapshot x.captured_at h in
      let h' =
        subst (Holds (push b x.snapshot x.captured_at))
          (remember-last sample_history ys x (omega arith)) pushed in
      subst (λ l. Holds (push_all b (x ∷ xs)) (last sample_history l)) (append_assoc ys (x ∷ []) xs)
        (push_all-Holds xs (ys ++ x ∷ []) (push b x.snapshot x.captured_at) h')

  -- After any pushes into an empty buffer, `at i` is the item `i` of the last twelve samples,
  -- counted from the oldest, and nothing behind them.
  pub at-push_all :
      (blank : Sample S) (xs : List (Sample S)) (i : ℕ)
      → at (push_all (init blank) xs) i ≡ get_elem? (last sample_history xs) i
  at-push_all blank xs i = at-Holds _ _ i (push_all-Holds xs [] (init blank) (init-Holds blank))
