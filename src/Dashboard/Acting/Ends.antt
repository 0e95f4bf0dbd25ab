-- ===== src/Dashboard/Acting/Ends.antt =====
-- The actions of the terminal interface end (src/trfx_dashboard.c).
use trafix.Prelude.{
  ℕ, suc, ◌≤◌, ◌<◌, Bool, true, false, List, [], ◌∷◌, ◌++◌, Option, none, some, ◌≡◌, inl, inr, refl,
  length, Bool-cases, ◌==◌, arith, if◌then◌else◌,
}
use trafix.Cstr.Scan.{◌>>=◌}
use trafix.Actions.Lookup.{lookup_process_uid}
use trafix.Actions.Requests.{ConnectionInfo}
use trafix.Actions.Types.{Request}
use trafix.Dashboard.{
  Key, key_up, key_down, key_enter, key_resize, key_f1, other_key, char, is_enter, is_cancel,
  is_escape, close_loop, review_loop, select_loop,
}
use trafix.Runtime.{RuntimeState}
use trafix.Dashboard.Acting.{
  ProcessInfo, Desk, Acted, visible_rows, kill_of, select_row, review_and_execute, kill_process,
  close_popup, found_or_message, after_choice, drop_connection_row, after_drop_choice,
  handle_process_kill_action, handle_connection_drop_action, show_action_review_popup,
  show_action_result_popup, answered, show_action_feedback_popup,
}

-- How often Esc is pressed.
abbrev pub escapes : List Key → ℕ
escapes [] = 0
escapes (key ∷ keys) = if is_escape key then suc (escapes keys) else escapes keys

-- Where a result has the keys that are left, and the same result with more of them.
record Rest (A : Type 0) : Type 0 where
  pub left : A → List Key
  pub extend : A → A

-- A result, with at least `n` presses of Esc left behind it; and the same result where more keys follow.
abbrev Continues : {A : Type 0} → ℕ → Rest A → Option A → Option A → Type 0
Continues n rest none o = ⊥
Continues n rest (some a) o = (n ≤ escapes (rest.left a)) × (o ≡ some (rest.extend a))

abbrev pub with_keys : List Key → Acted → Acted
with_keys back a = record a { keys = a.keys ++ back }

-- The action returns when no key behind `front` has been pressed; and where more keys are pressed, it does the
-- same and leaves all of them.
abbrev pub EndsWithin : (List Key → Option Acted) → List Key → List Key → Type 0
EndsWithin action front back =
    (a : Acted) × (action front ≡ some a) × (action (front ++ back) ≡ some (with_keys back a))

escapes_one : (key : Key) (keys : List Key) → escapes (key ∷ keys) ≤ suc (escapes keys)
escapes_one key keys = ground arith

escapes_none :
    (key : Key) (keys : List Key) → is_cancel key ≡ false → escapes (key ∷ keys) ≡ escapes keys
escapes_none key_up keys h = refl
escapes_none key_down keys h = refl
escapes_none key_enter keys h = refl
escapes_none key_resize keys h = refl
escapes_none key_f1 keys h = refl
escapes_none other_key keys h = refl
escapes_none (char c) keys h = ground arith

-- What follows a result that continues.
Continues-bind :
    {A B : Type 0} (n m : ℕ) (rest : Rest A) (next : Rest B) (o p : Option A) (f : A → Option B)
    → Continues n rest o p
    → ((a : A) → n ≤ escapes (rest.left a) → Continues m next (f a) (f (rest.extend a)))
    → Continues m next (o >>= f) (p >>= f)
Continues-bind n m rest next none p f h k = absurd h
Continues-bind n m rest next (some a) p f (h, e) k = rw e (k a h)

abbrev acted : List Key → Rest Acted
acted back = record { left = λ a. a.keys; extend = with_keys back }

Continues-EndsWithin :
    (action : List Key → Option Acted) (front back : List Key)
    → Continues 0 (acted back) (action front) (action (front ++ back))
    → EndsWithin action front back
Continues-EndsWithin action front back h = go (action front) refl h
  where
    go :
        (o : Option Acted)
        → action front ≡ o
        → Continues 0 (acted back) o (action (front ++ back))
        → EndsWithin action front back
    go none e h = absurd h
    go (some a) e (h, f) = (a, e, f)

module _ (back : List Key) where
  abbrev whole : Rest (List Key)
  whole = record { left = λ keys. keys; extend = λ keys. keys ++ back }

  abbrev second : {A : Type 0} → Rest (A × List Key)
  second = record { left = λ a. a.1; extend = λ a. (a.0, a.1 ++ back) }

  abbrev third : {A B : Type 0} → Rest (A × B × List Key)
  third = record { left = λ a. a.2; extend = λ a. (a.0, a.1, a.2 ++ back) }

  close_loop-Continues :
      (n : ℕ) (keys : List Key)
      → n < escapes keys
      → Continues n whole (close_loop keys) (close_loop (keys ++ back))
  unfolding close_loop
  close_loop-Continues n [] h = absurd (omega arith)
  close_loop-Continues n (key ∷ keys) h = elim (Bool-cases (is_cancel key)) [
    | inl e ↦ rw e (omega (arith, escapes_one key keys), refl)
    | inr e ↦ elim (Bool-cases (is_enter key)) [
      | inl f ↦ rw (e, f) (omega (arith, escapes_one key keys), refl)
      | inr f ↦ rw (e, f) (close_loop-Continues n keys (omega (arith, escapes_none key keys e)))
    ]
  ]

  review_loop-Continues :
      (n : ℕ) (keys : List Key)
      → n < escapes keys
      → Continues n second (review_loop keys) (review_loop (keys ++ back))
  unfolding review_loop
  review_loop-Continues n [] h = absurd (omega arith)
  review_loop-Continues n (key ∷ keys) h = elim (Bool-cases (is_enter key)) [
    | inl e ↦ rw e (omega (arith, escapes_one key keys), refl)
    | inr e ↦ elim (Bool-cases (is_cancel key)) [
      | inl f ↦ rw (e, f) (omega (arith, escapes_one key keys), refl)
      | inr f ↦ rw (e, f) (review_loop-Continues n keys (omega (arith, escapes_none key keys f)))
    ]
  ]

  select_loop-Continues :
      (n v : ℕ) (keys : List Key) (i : ℕ)
      → n < escapes keys
      → Continues n second (select_loop v i keys) (select_loop v i (keys ++ back))
  unfolding select_loop
  select_loop-Continues n v [] i h = absurd (omega arith)
  select_loop-Continues n v (key_up ∷ keys) i h = select_loop-Continues n v keys _ h
  select_loop-Continues n v (key_down ∷ keys) i h = select_loop-Continues n v keys _ h
  select_loop-Continues n v (key_enter ∷ keys) i h = (omega arith, refl)
  select_loop-Continues n v (key_resize ∷ keys) i h = select_loop-Continues n v keys i h
  select_loop-Continues n v (key_f1 ∷ keys) i h = select_loop-Continues n v keys i h
  select_loop-Continues n v (other_key ∷ keys) i h = select_loop-Continues n v keys i h
  select_loop-Continues n v (char c ∷ keys) i h = elim (Bool-cases (is_enter (char c))) [
    | inl e ↦ rw e (omega (arith, escapes_one (char c) keys), refl)
    | inr e ↦ elim (Bool-cases (is_cancel (char c))) [
      | inl f ↦ rw (e, f) (omega (arith, escapes_one (char c) keys), refl)
      | inr f ↦
          rw (e, f) (select_loop-Continues n v keys i (omega (arith, escapes_none (char c) keys f)))
    ]
  ]

  module _ (d : Desk) where
    close_popup-Continues :
        (n : ℕ) (opens : Bool) (r : RuntimeState) (keys : List Key)
        → n < escapes keys
        → Continues n second (close_popup opens r keys) (close_popup opens r (keys ++ back))
    close_popup-Continues n false r keys h = (omega arith, refl)
    close_popup-Continues n true r keys h =
        Continues-bind _ n whole second _ _ _ (close_loop-Continues n keys h) (λ k e. (e, refl))

    answered-Continues :
        (n : ℕ) (opens : Bool) (r : RuntimeState) (keys : List Key)
        → n < escapes keys
        → Continues n third
            (answered opens r keys (review_loop keys))
            (answered opens r (keys ++ back) (review_loop (keys ++ back)))
    answered-Continues n false r keys h = (omega arith, refl)
    answered-Continues n true r keys h =
        Continues-bind _ n second third _ _ _ (review_loop-Continues n keys h) (λ a e. (e, refl))

    -- The last part of both actions.
    review_and_execute-Continues :
        (n : ℕ) (request : Request) (keys : List Key)
        → suc n < escapes keys
        → Continues n
            (acted back)
            (review_and_execute d request keys)
            (review_and_execute d request (keys ++ back))
    unfolding review_and_execute show_action_review_popup show_action_result_popup
    review_and_execute-Continues n request keys h =
        Continues-bind _ n third (acted back) _ _ _
          (answered-Continues (suc n) d.review_opens _ keys h)
          (λ a e.
            Continues-bind _ n second (acted back) _ _ _
              (close_popup-Continues n d.message_opens _ a.2 e) (λ b g. (g, refl)))

    select_row-Continues :
        (n count : ℕ) (keys : List Key)
        → n < escapes keys
        → Continues n third (select_row d count keys) (select_row d count (keys ++ back))
    unfolding select_row show_action_feedback_popup
    select_row-Continues n count keys h = elim (Bool-cases (count == 0)) [
      | inl e ↦ rw e (
          Continues-bind _ n second third _ _ _
            (close_popup-Continues n d.message_opens d.runtime keys h) (λ a g. (g, refl)))
      | inr e ↦ elim (Bool-cases d.select_opens) [
        | inl f ↦
            rw (e, f)
              (Continues-bind _ n second third _ _ _
                (select_loop-Continues n (visible_rows count) keys 0 h) (λ a g. (g, refl)))
        | inr f ↦ rw (e, f) (omega arith, refl)
      ]
    ]

    found-Continues :
        (n : ℕ) (uid : Option ℕ) (request : Request) (keys : List Key)
        → suc n < escapes keys
        → Continues n
            (acted back)
            (found_or_message d uid request keys)
            (found_or_message d uid request (keys ++ back))
    unfolding show_action_feedback_popup
    found-Continues n none request keys h =
        Continues-bind _ n second (acted back) _ _ _
          (close_popup-Continues n d.message_opens d.runtime keys (omega arith)) (λ a g. (g, refl))
    found-Continues n (some uid) request keys h = review_and_execute-Continues n request keys h

    kill_process-Continues :
        (n : ℕ) (row : Option ProcessInfo) (keys : List Key)
        → suc n < escapes keys
        → Continues n (acted back) (kill_process d row keys) (kill_process d row (keys ++ back))
    kill_process-Continues n none keys h = (omega arith, refl)
    kill_process-Continues n (some p) keys h =
        found-Continues n (lookup_process_uid d.world p.pid 256).0 (kill_of d p) keys h

    drop_row-Continues :
        (n : ℕ) (row : Option ConnectionInfo) (keys : List Key)
        → suc n < escapes keys
        → Continues n
            (acted back)
            (drop_connection_row d row keys)
            (drop_connection_row d row (keys ++ back))
    drop_row-Continues n none keys h = (omega arith, refl)
    drop_row-Continues n (some c) keys h = review_and_execute-Continues n _ keys h

    after_choice-Continues :
        (n : ℕ) (chosen : Option ℕ × RuntimeState × List Key)
        → suc n < escapes chosen.2
        → Continues n (acted back) (after_choice d chosen) (after_choice d (third.extend chosen))
          × Continues n
              (acted back)
              (after_drop_choice d chosen)
              (after_drop_choice d (third.extend chosen))
    after_choice-Continues n (none, r, keys) h = ((omega arith, refl), (omega arith, refl))
    after_choice-Continues n (some i, r, keys) h =
        (kill_process-Continues n _ keys h, drop_row-Continues n _ keys h)

    -- However often other keys are pressed: both actions return at the latest when Esc is pressed for the third
    -- time; what is pressed behind it changes nothing, and all of it is left.
    pub actions-EndsWithin :
        (front : List Key)
        → 3 ≤ escapes front
        → EndsWithin (handle_process_kill_action d) front back
          × EndsWithin (handle_connection_drop_action d) front back
    unfolding handle_process_kill_action handle_connection_drop_action
    actions-EndsWithin front h = (
      Continues-EndsWithin (handle_process_kill_action d) front back (
          Continues-bind _ 0 third (acted back) _ _ _
            (select_row-Continues 2 (length d.processes) front h)
            (λ a g. (after_choice-Continues 0 a g).0)),
      Continues-EndsWithin (handle_connection_drop_action d) front back (
          Continues-bind _ 0 third (acted back) _ _ _
            (select_row-Continues 2 (length d.connections) front h)
            (λ a g. (after_choice-Continues 0 a g).1)),
    )
