-- ===== src/Dashboard/Acting/Agreed.antt =====
-- The actions of the terminal interface act only on the row that was selected with Enter, after its review
-- was confirmed with Enter (src/trfx_dashboard.c).
use trafix.Prelude.{
  ◌<◌, ℕ, Bool, true, false, List, [], Option, none, some, ◌≡◌, ◌⊎◌, inl, inr, refl, All, length,
  get_elem?, ◌==◌, arith,
}
use trafix.Actions.Execute.Safety.{EffectFits}
use trafix.Actions.Lookup.{lookup_process_uid}
use trafix.Actions.Requests.{ConnectionInfo, set_connection_drop}
use trafix.Actions.Types.{Request}
use trafix.Cstr.Scan.{◌>>=◌}
use trafix.Dashboard.{Key, select_loop}
use trafix.Actions.World.{Effect}
use trafix.Dashboard.Popups.{EnterFirst, Chosen, select_loop-EnterFirst}
use trafix.Runtime.{RuntimeState}
use trafix.Dashboard.Acting.{
  unchanged, selected, ProcessInfo, Desk, Acted, visible_rows, kill_of, select_row,
  review_and_execute, kill_process, found_or_message, after_choice, drop_connection_row,
  after_drop_choice, handle_process_kill_action, handle_connection_drop_action,
  show_action_feedback_popup,
}
use trafix.Dashboard.Acting.Reviewed.{
  Whenever, Whenever-map, ReviewedFits, review_and_execute-ReviewedFits,
}

-- The loop ends with the row `i`, which is shown, with Enter, and leaves `rest`.
abbrev pub IsSelected : ℕ → List Key → ℕ → List Key → Type 0
IsSelected count keys i rest =
    (select_loop (visible_rows count) 0 keys ≡ some (some i, rest))
    × Chosen (visible_rows count) i keys

-- The row that was selected with Enter, and what the action did to it.
pub record Agreed (d : Desk) (request_of : ℕ → Option Request) (count : ℕ) (keys : List Key)
    (effects : List Effect) : Type 0 where
  pub index : ℕ
  pub behind : List Key
  pub chosen : IsSelected count keys index behind
  pub request : Request
  pub named : request_of index ≡ some request
  pub reviewed : EnterFirst behind
  pub fits : All (EffectFits d.world request true d.euid 256) effects

abbrev pub NoneOrAgreed : Desk → (ℕ → Option Request) → ℕ → List Key → Acted → Type 0
NoneOrAgreed d request_of count keys done =
    (done.effects ≡ []) ⊎ Agreed d request_of count keys done.effects

-- The requests of the rows.
abbrev pub kill_at : Desk → ℕ → Option Request
kill_at d i = do p ← get_elem? d.processes i; some (kill_of d p)

abbrev pub drop_at : Desk → ℕ → Option Request
drop_at d i = do c ← get_elem? d.connections i; some (set_connection_drop (some c))

-- A row comes only from the loop.
selected_row :
    (empty opens : Bool) (runtime r : RuntimeState) (keys rest : List Key) (i : ℕ)
    (message : Option (RuntimeState × List Key)) (choice : Option (Option ℕ × List Key))
    → selected empty opens runtime keys message choice ≡ some (some i, r, rest)
    → (empty ≡ false) × (choice ≡ some (some i, rest))
selected_row true opens runtime r keys rest i none choice h = absurd (ground (arith, h))
selected_row true opens runtime r keys rest i (some m) choice h = absurd (ground (arith, h))
selected_row false false runtime r keys rest i message choice h = absurd (ground (arith, h))
selected_row false true runtime r keys rest i message none h = absurd (ground (arith, h))
selected_row false true runtime r keys rest i message (some (row, left)) h =
    (refl, ground (arith, h))

row-IsSelected :
    (d : Desk) (count : ℕ) (r : RuntimeState) (keys rest : List Key) (i : ℕ)
    → select_row d count keys ≡ some (some i, r, rest)
    → IsSelected count keys i rest
unfolding select_row
row-IsSelected d count r keys rest i h =
    let (some_row, e) =
      selected_row (count == 0) d.select_opens d.runtime r keys rest i
        (show_action_feedback_popup d keys) (select_loop (visible_rows count) 0 keys) h in
    let shown : 0 < visible_rows count = ground arith in
    (e, select_loop-EnterFirst (visible_rows count) keys 0 i rest shown e)

module _ (d : Desk) (request_of : ℕ → Option Request) (count : ℕ) (keys : List Key) (i : ℕ)
    (rest : List Key) (chosen : IsSelected count keys i rest) where
  agreed :
      (request : Request)
      → request_of i ≡ some request
      → Whenever (NoneOrAgreed d request_of count keys) (review_and_execute d request rest)
  agreed request named =
      Whenever-map (ReviewedFits d request rest) (NoneOrAgreed d request_of count keys) _
        (λ done h. elim h [
          | inl e ↦ inl e
          | inr (reviewed, fits) ↦ inr record {
            index = i;
            behind = rest;
            chosen = chosen;
            request = request;
            named = named;
            reviewed = reviewed;
            fits = fits;
          }
        ])
        (review_and_execute-ReviewedFits d request rest)

  -- A message has no effect.
  message_only :
      (message : Option (RuntimeState × List Key))
      → Whenever
          (NoneOrAgreed d request_of count keys)
          (do (r, left) ← message; some (unchanged d r left))
  message_only none = tt
  message_only (some (r, left)) = inl refl

  kill_found :
      (uid : Option ℕ) (request : Request)
      → request_of i ≡ some request
      → Whenever (NoneOrAgreed d request_of count keys) (found_or_message d uid request rest)
  kill_found none request named = message_only (show_action_feedback_popup d rest)
  kill_found (some uid) request named = agreed request named

module _ (d : Desk) (keys : List Key) where
  kill_row :
      (i : ℕ) (rest : List Key) (row : Option ProcessInfo)
      → IsSelected (length d.processes) keys i rest
      → get_elem? d.processes i ≡ row
      → Whenever (NoneOrAgreed d (kill_at d) (length d.processes) keys) (kill_process d row rest)
  kill_row i rest none chosen e = inl refl
  kill_row i rest (some p) chosen e =
      kill_found d (kill_at d) (length d.processes) keys i rest chosen
        (lookup_process_uid d.world p.pid 256).0 (kill_of d p) (rw e refl)

  after_choice-Agreed :
      (chosen : Option (Option ℕ × RuntimeState × List Key))
      → select_row d (length d.processes) keys ≡ chosen
      → Whenever
          (NoneOrAgreed d (kill_at d) (length d.processes) keys)
          (do row ← chosen; after_choice d row)
  unfolding select_row
  after_choice-Agreed none h = tt
  after_choice-Agreed (some (none, r, rest)) h = inl refl
  after_choice-Agreed (some (some i, r, rest)) h =
      kill_row i rest (get_elem? d.processes i)
        (row-IsSelected d (length d.processes) r keys rest i h) refl

  -- Whatever the keys are, if the action `x` returns: it has no effect, or a row of the first eight processes
  -- was selected with Enter, its review was confirmed with Enter, and the effects are those that fit the
  -- request to kill it, confirmed by the user.
  pub handle_process_kill_action-Agreed :
      Whenever
        (NoneOrAgreed d (kill_at d) (length d.processes) keys)
        (handle_process_kill_action d keys)
  unfolding handle_process_kill_action
  handle_process_kill_action-Agreed =
      after_choice-Agreed (select_row d (length d.processes) keys) refl

  drop_row :
      (i : ℕ) (rest : List Key) (row : Option ConnectionInfo)
      → IsSelected (length d.connections) keys i rest
      → get_elem? d.connections i ≡ row
      → Whenever
          (NoneOrAgreed d (drop_at d) (length d.connections) keys)
          (drop_connection_row d row rest)
  drop_row i rest none chosen e = inl refl
  drop_row i rest (some c) chosen e =
      agreed d (drop_at d) (length d.connections) keys i rest chosen (set_connection_drop (some c))
        (rw e refl)

  after_drop_choice-Agreed :
      (chosen : Option (Option ℕ × RuntimeState × List Key))
      → select_row d (length d.connections) keys ≡ chosen
      → Whenever
          (NoneOrAgreed d (drop_at d) (length d.connections) keys)
          (do row ← chosen; after_drop_choice d row)
  unfolding select_row
  after_drop_choice-Agreed none h = tt
  after_drop_choice-Agreed (some (none, r, rest)) h = inl refl
  after_drop_choice-Agreed (some (some i, r, rest)) h =
      drop_row i rest (get_elem? d.connections i)
        (row-IsSelected d (length d.connections) r keys rest i h) refl

  -- The same of the action `z` and the first eight connections.
  pub handle_connection_drop_action-Agreed :
      Whenever
        (NoneOrAgreed d (drop_at d) (length d.connections) keys)
        (handle_connection_drop_action d keys)
  unfolding handle_connection_drop_action
  handle_connection_drop_action-Agreed =
      after_drop_choice-Agreed (select_row d (length d.connections) keys) refl
