-- ===== src/Dashboard/Acting/Reviewed.antt =====
-- The review of an action, and what it does (`show_action_review_popup`, src/trfx_dashboard.c).
use trafix.Prelude.{
  ℕ, Bool, true, false, List, [], ◌∷◌, Option, none, some, ◌≡◌, ◌⊎◌, inl, inr, refl, All, arith,
}
use trafix.Actions.Execute.{execute}
use trafix.Actions.Execute.Safety.{EffectFits, execute-EffectFits}
use trafix.Actions.Types.{Request}
use trafix.Cstr.Scan.{◌>>=◌}
use trafix.Dashboard.{Key, review_loop}
use trafix.Actions.World.{World, Effect, signal, spawn}
use trafix.Dashboard.Popups.{EnterFirst, review_loop-EnterFirst}
use trafix.Runtime.{RuntimeState}
use trafix.Dashboard.Acting.{
  answered, Desk, Acted, review_and_execute, show_action_review_popup, show_action_result_popup,
}

-- What holds of a result, where there is one.
abbrev pub Whenever {ℓ κ} : {A : Type ℓ} → (A → Type κ) → Option A → Type κ
Whenever P none = Unit
Whenever P (some a) = P a

abbrev pub ReviewedFits : Desk → Request → List Key → Acted → Type 0
ReviewedFits d request keys done =
    (done.effects ≡ [])
    ⊎ (EnterFirst keys × All (EffectFits d.world request true d.euid 256) done.effects)

not_confirmed :
    (w : World) (request : Request) (euid : ℕ) (effects : List Effect)
    → All (EffectFits w request false euid 256) effects
    → effects ≡ []
not_confirmed w request euid [] h = refl
not_confirmed w request euid (signal pid ∷ effects) h = absurd (ground (arith, h.0))
not_confirmed w request euid (spawn argv ∷ effects) h = absurd (ground (arith, h.0))

executed : Desk → Request → Bool → Option (RuntimeState × List Key) → Option Acted
executed d request confirmed shown = do
  let done = execute d.world d.now d.audit (some request) confirmed d.euid 256
  (resumed, left) ← shown
  some (record { runtime = resumed; audit = done.audit; effects = done.effects; keys = left })

executed-ReviewedFits :
    (d : Desk) (request : Request) (keys : List Key) (confirmed : Bool)
    (shown : Option (RuntimeState × List Key))
    → (confirmed ≡ true → EnterFirst keys)
    → Whenever (ReviewedFits d request keys) (executed d request confirmed shown)
unfolding executed
executed-ReviewedFits d request keys confirmed none h = tt
executed-ReviewedFits d request keys true (some (r, left)) h =
    inr (h refl, execute-EffectFits d.world d.now d.audit request true d.euid 256)
executed-ReviewedFits d request keys false (some (r, left)) h = inl (
    not_confirmed d.world request d.euid _
      (execute-EffectFits d.world d.now d.audit request false d.euid 256))

abbrev and_execute : Desk → Request → Option (Bool × RuntimeState × List Key) → Option Acted
and_execute d request reviewed = do
  (confirmed, r, rest) ← reviewed
  executed d request confirmed (show_action_result_popup d r rest)

answered_confirmed :
    (opens : Bool) (r resumed : RuntimeState) (keys rest : List Key)
    (answer : Option (Bool × List Key))
    → answered opens resumed keys answer ≡ some (true, r, rest)
    → (left : List Key) × (answer ≡ some (true, left))
answered_confirmed false r resumed keys rest answer h = absurd (ground (arith, h))
answered_confirmed true r resumed keys rest none h = absurd (ground (arith, h))
answered_confirmed true r resumed keys rest (some (false, left)) h = absurd (ground (arith, h))
answered_confirmed true r resumed keys rest (some (true, left)) h = (left, refl)

popup_confirmed :
    (d : Desk) (keys : List Key) (r : RuntimeState) (rest : List Key)
    → show_action_review_popup d keys ≡ some (true, r, rest)
    → EnterFirst keys
unfolding show_action_review_popup
popup_confirmed d keys r rest h =
    let (left, e) = answered_confirmed d.review_opens r _ keys rest (review_loop keys) h in
    review_loop-EnterFirst keys left e

and_execute-ReviewedFits :
    (d : Desk) (request : Request) (keys : List Key)
    (reviewed : Option (Bool × RuntimeState × List Key))
    → show_action_review_popup d keys ≡ reviewed
    → Whenever (ReviewedFits d request keys) (and_execute d request reviewed)
and_execute-ReviewedFits d request keys none h = tt
and_execute-ReviewedFits d request keys (some (false, r, rest)) h =
    executed-ReviewedFits d request keys false _ (λ e. absurd (ground (arith, e)))
and_execute-ReviewedFits d request keys (some (true, r, rest)) h =
    executed-ReviewedFits d request keys true _ (λ e. popup_confirmed d keys r rest h)

pub review_and_execute-ReviewedFits :
    (d : Desk) (request : Request) (keys : List Key)
    → Whenever (ReviewedFits d request keys) (review_and_execute d request keys)
unfolding review_and_execute executed
review_and_execute-ReviewedFits d request keys =
    and_execute-ReviewedFits d request keys (show_action_review_popup d keys) refl

pub Whenever-map :
    {A : Type 0} (P Q : A → Type 0) (o : Option A)
    → ((a : A) → P a → Q a)
    → Whenever P o
    → Whenever Q o
Whenever-map P Q none f h = tt
Whenever-map P Q (some a) f h = f a h
