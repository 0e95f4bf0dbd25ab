-- ===== src/Tests/Views.antt =====
-- The support views and the history of samples (src/trfx_support_views.c, src/trfx_netinfo.c).
use trafix.Prelude.Int.{pos, negsuc}
use trafix.Prelude.{ℕ, false, List, [], ◌∷◌, some, ◌≡◌}
use trafix.Samples.{Sample, init, at}
use trafix.Samples.History.{push_all, at-push_all}
use trafix.SupportViews.{Selection, next_index}
use trafix.SupportViews.Cycle.{next_index_mod}
use trafix.SupportViews.Selected.{Call, select_call, cycle_call}

next_index_mod_example : (next_index 6 (pos 3) ≡ 1) × (next_index 6 (negsuc 3) ≡ 2)
next_index_mod_example = next_index_mod 6 3

abbrev sixth : Selection
sixth = record { selected_index_value = 6; refresh_requested = false }

abbrev moves : List Call
moves = cycle_call (pos 3) ∷ cycle_call (negsuc 4) ∷ select_call 99 ∷ []

-- The sample of number `n`.
abbrev sample : ℕ → Sample ℕ
sample n = record { captured_at = pos n; snapshot = n }

abbrev fourteen : List (Sample ℕ)
fourteen =
    sample 1
    ∷ sample 2
    ∷ sample 3
    ∷ sample 4
    ∷ sample 5
    ∷ sample 6
    ∷ sample 7
    ∷ sample 8
    ∷ sample 9
    ∷ sample 10
    ∷ sample 11
    ∷ sample 12
    ∷ sample 13
    ∷ sample 14
    ∷ []

at-push_all_example : at (push_all (init (sample 0)) fourteen) 0 ≡ some (sample 3)
at-push_all_example = at-push_all (sample 0) fourteen 0
