-- ===== src/Dashboard/Acting.antt =====
-- The actions of the terminal interface: `handle_process_kill_action` and `handle_connection_drop_action` with
-- their popups (src/trfx_dashboard.c).
pub mod Agreed
pub mod Ends
pub mod Reviewed
use trafix.Prelude.Int.{ℤ}
use trafix.Prelude.{
  ℕ, Bool, true, false, List, [], ◌∷◌, Option, none, some, min, length, get_elem?, ◌==◌,
  if◌then◌else◌,
}
use trafix.Cstr.Scan.{◌>>=◌}
use trafix.Cstr.{Text}
use trafix.Actions.Audit.{Audit}
use trafix.Actions.Execute.{Executed, execute}
use trafix.Actions.Lookup.{lookup_process_uid}
use trafix.Actions.Requests.{ConnectionInfo, set_process_kill, set_connection_drop}
use trafix.Actions.Types.{Request}
use trafix.Actions.World.{World, Effect}
use trafix.Dashboard.{Key, resume_dashboard_after_popup, close_loop, review_loop, select_loop}
use trafix.Runtime.{RuntimeState, set_paused}

-- The fields of `ProcessInfo` that are shown or used.
pub record ProcessInfo : Type 0 where
  pub pid : Text
  pub user : Text
  pub cpu : Text
  pub command : Text

-- What the actions read, and whether `newwin` gives a window for each popup.
pub record Desk : Type 0 where
  pub world : World
  pub euid : ℕ
  pub now : ℤ
  pub audit : Audit
  pub runtime : RuntimeState
  pub processes : List ProcessInfo
  pub connections : List ConnectionInfo
  pub select_opens : Bool
  pub review_opens : Bool
  pub message_opens : Bool

-- What an action leaves.
pub record Acted : Type 0 where
  pub runtime : RuntimeState
  pub audit : Audit
  pub effects : List Effect
  pub keys : List Key

abbrev pub visible_rows : ℕ → ℕ
visible_rows count = min count 8

-- A popup that shows something until a key closes it, and then resumes.
abbrev pub close_popup : Bool → RuntimeState → List Key → Option (RuntimeState × List Key)
close_popup false r keys = some (resume_dashboard_after_popup r, keys)
close_popup true r keys = do rest ← close_loop keys; some (resume_dashboard_after_popup r, rest)

-- `show_action_feedback_popup`
unfoldable pub show_action_feedback_popup : Desk → List Key → Option (RuntimeState × List Key)
unfolding close_loop
show_action_feedback_popup d keys = close_popup d.message_opens d.runtime keys

-- The answer to a review, or a cancellation where its window does not open.
abbrev pub answered :
    Bool
    → RuntimeState
    → List Key
    → Option (Bool × List Key)
    → Option (Bool × RuntimeState × List Key)
answered false resumed keys answer = some (false, resumed, keys)
answered true resumed keys answer = do (confirmed, left) ← answer; some (confirmed, resumed, left)

-- `show_action_review_popup`
unfoldable pub show_action_review_popup : Desk → List Key → Option (Bool × RuntimeState × List Key)
unfolding review_loop
show_action_review_popup d keys =
    answered d.review_opens (resume_dashboard_after_popup (set_paused true d.runtime)) keys
      (review_loop keys)

-- `show_action_result_popup`
unfoldable pub show_action_result_popup :
    Desk → RuntimeState → List Key → Option (RuntimeState × List Key)
unfolding close_loop
show_action_result_popup d r keys = close_popup d.message_opens (set_paused true r) keys

abbrev pub unchanged : Desk → RuntimeState → List Key → Acted
unchanged d r keys = record { runtime = r; audit = d.audit; effects = []; keys = keys }

-- The last part of both actions: the review, the execution, confirmed or not, and its result.
unfoldable pub review_and_execute : Desk → Request → List Key → Option Acted
unfolding show_action_review_popup show_action_result_popup
review_and_execute d request keys = do
  (confirmed, r, rest) ← show_action_review_popup d keys
  let done = execute d.world d.now d.audit (some request) confirmed d.euid 256
  (resumed, left) ← show_action_result_popup d r rest
  some (record { runtime = resumed; audit = done.audit; effects = done.effects; keys = left })

-- What `select_process_for_kill` and `select_connection_for_drop` do: a message where there is no row; nothing
-- where no window opens; or the loop.
abbrev pub selected :
    Bool
    → Bool
    → RuntimeState
    → List Key
    → Option (RuntimeState × List Key)
    → Option (Option ℕ × List Key)
    → Option (Option ℕ × RuntimeState × List Key)
selected true opens runtime keys message choice = do (r, rest) ← message; some (none, r, rest)
selected false true runtime keys message choice = do (row, rest) ← choice; some (row, runtime, rest)
selected false false runtime keys message choice = some (none, runtime, keys)

unfoldable pub select_row : Desk → ℕ → List Key → Option (Option ℕ × RuntimeState × List Key)
unfolding show_action_feedback_popup select_loop
select_row d count keys =
    selected (count == 0) d.select_opens d.runtime keys (show_action_feedback_popup d keys)
      (select_loop (visible_rows count) 0 keys)

-- The request of a row, and whether the lookup of its process succeeds; a request to drop needs none.
abbrev pub kill_of : Desk → ProcessInfo → Request
kill_of d p = set_process_kill p.pid p.command

abbrev pub found_or_message : Desk → Option ℕ → Request → List Key → Option Acted
found_or_message d (some uid) request keys = review_and_execute d request keys
found_or_message d none request keys = do
  (r, rest) ← show_action_feedback_popup d keys
  some (unchanged d r rest)

abbrev pub kill_process : Desk → Option ProcessInfo → List Key → Option Acted
kill_process d none keys = some (unchanged d d.runtime keys)
kill_process d (some p) keys =
    found_or_message d (lookup_process_uid d.world p.pid 256).0 (kill_of d p) keys

abbrev pub after_choice : Desk → Option ℕ × RuntimeState × List Key → Option Acted
after_choice d (none, r, keys) = some (unchanged d r keys)
after_choice d (some i, r, keys) = kill_process d (get_elem? d.processes i) keys

unfoldable pub handle_process_kill_action : Desk → List Key → Option Acted
unfolding select_row review_and_execute show_action_feedback_popup
handle_process_kill_action d keys = do
  chosen ← select_row d (length d.processes) keys
  after_choice d chosen

abbrev pub drop_connection_row : Desk → Option ConnectionInfo → List Key → Option Acted
drop_connection_row d none keys = some (unchanged d d.runtime keys)
drop_connection_row d (some c) keys = review_and_execute d (set_connection_drop (some c)) keys

abbrev pub after_drop_choice : Desk → Option ℕ × RuntimeState × List Key → Option Acted
after_drop_choice d (none, r, keys) = some (unchanged d r keys)
after_drop_choice d (some i, r, keys) = drop_connection_row d (get_elem? d.connections i) keys

unfoldable pub handle_connection_drop_action : Desk → List Key → Option Acted
unfolding select_row review_and_execute
handle_connection_drop_action d keys = do
  chosen ← select_row d (length d.connections) keys
  after_drop_choice d chosen
