-- ===== src/Runtime/Refresh.antt =====
-- Refresh requests of the static panels (src/trfx_runtime.c): none is lost, none is served twice.
use trafix.Prelude.Int.{pos, pos_part, negsuc}
use trafix.Prelude.{
  ℕ, zero, suc, ◌+◌, ◌≤◌, ◌<◌, true, false, Bool, List, [], ◌∷◌, ◌≡◌, refl, arith, all, length, set,
  length-set, &&_left, &&_right, ◌==◌, if◌then◌else◌,
}
use trafix.Runtime.Stop.{not_reset}
use trafix.Runtime.{
  RuntimeState, Call, request_refresh_call, consume_call, static_module_count, flag_at, step, run,
}

-- The array of flags has its four places.
abbrev pub HasFlags : RuntimeState → Type 0
HasFlags s = length s.force_refresh_flags ≡ static_module_count

pub step-HasFlags : (s : RuntimeState) (c : Call) → HasFlags s → HasFlags (step s c).0
unfolding step
step-HasFlags s (consume_call i) h =
    ground (arith, length-set s.force_refresh_flags (pos_part i) false)
step-HasFlags s _ h = ground arith

abbrev pub bit : Bool → ℕ
bit true = 1
bit false = 0

-- A request for panel `i` is pending.
abbrev pub pending : ℕ → RuntimeState → ℕ
pending i s = bit (flag_at s.force_refresh_flags i)

abbrev consumes : ℕ → Call → Bool
consumes i (consume_call (pos j)) = j == i
consumes i _ = false

-- How often panel `i` was told to refresh, and how many requests there were.
abbrev pub served : ℕ → RuntimeState → List Call → ℕ
served i s [] = 0
served i s (c ∷ cs) = (if consumes i c then bit (step s c).1 else 0) + served i (step s c).0 cs

abbrev pub requests : List Call → ℕ
requests [] = 0
requests (request_refresh_call ∷ cs) = 1 + requests cs
requests (_ ∷ cs) = requests cs

flag_at-set :
    (bs : List Bool) (i j : ℕ)
    → i < length bs
    → flag_at (set bs j false) i ≡ (if j == i then false else flag_at bs i)
flag_at-set [] i j h = absurd (omega arith)
flag_at-set (b ∷ bs) zero zero h = refl
flag_at-set (b ∷ bs) zero (suc j) h = ground arith
flag_at-set (b ∷ bs) (suc i) zero h = ground arith
flag_at-set (b ∷ bs) (suc i) (suc j) h = ground (arith, flag_at-set bs i j)

abbrev request_bit : Call → ℕ
request_bit request_refresh_call = 1
request_bit _ = 0

abbrev served_bit : ℕ → RuntimeState → Call → ℕ
served_bit i s c = if consumes i c then bit (step s c).1 else 0

-- One call: what it serves of panel `i` was pending or requested, and is pending no more.
step_upper :
    (i : ℕ) (s : RuntimeState) (c : Call)
    → i < static_module_count
    → HasFlags s
    → served_bit i s c + pending i (step s c).0 ≤ pending i s + request_bit c
unfolding step
step_upper i s (consume_call (pos j)) h f = ground (arith, flag_at-set s.force_refresh_flags i j)
step_upper i s (consume_call (negsuc j)) h f = ground arith
step_upper zero s _ h f = ground arith
step_upper (suc zero) s _ h f = ground arith
step_upper (suc (suc zero)) s _ h f = ground arith
step_upper (suc (suc (suc zero))) s _ h f = ground arith
step_upper (suc (suc (suc (suc i)))) s _ h f = absurd (omega arith)

step_lower :
    (i : ℕ) (s : RuntimeState) (c : Call)
    → i < static_module_count
    → HasFlags s
    → not_reset c ≡ true
    → pending i s ≤ served_bit i s c + pending i (step s c).0
unfolding step
step_lower i s (consume_call (pos j)) h f n = ground (arith, flag_at-set s.force_refresh_flags i j)
step_lower i s (consume_call (negsuc j)) h f n = ground arith
step_lower zero s _ h f n = ground arith
step_lower (suc zero) s _ h f n = ground arith
step_lower (suc (suc zero)) s _ h f n = ground arith
step_lower (suc (suc (suc zero))) s _ h f n = ground arith
step_lower (suc (suc (suc (suc i)))) s _ h f n = absurd (omega arith)

requests_cons : (c : Call) (cs : List Call) → requests (c ∷ cs) ≡ request_bit c + requests cs
requests_cons c cs = ground arith

-- No request is served twice: through any calls, panel `i` is told to refresh at most as often as
-- refreshes were requested, counting one that is pending at the start, and less one at the end.
pub served_upper :
    (cs : List Call) (i : ℕ) (s : RuntimeState)
    → i < static_module_count
    → HasFlags s
    → served i s cs + pending i (run s cs) ≤ pending i s + requests cs
unfolding run
served_upper [] i s h f = omega arith
served_upper (c ∷ cs) i s h f = omega (
  arith,
  step_upper i s c h f,
  requests_cons c cs,
  served_upper cs i (step s c).0 h (step-HasFlags s c f),
)

-- No request is lost: one that is pending stays so or is served, through any calls but a reset.
pub served_lower :
    (cs : List Call) (i : ℕ) (s : RuntimeState)
    → i < static_module_count
    → HasFlags s
    → all not_reset cs ≡ true
    → pending i s ≤ served i s cs + pending i (run s cs)
unfolding run
served_lower [] i s h f n = omega arith
served_lower (c ∷ cs) i s h f n = omega (
  arith,
  step_lower i s c h f (&&_left _ _ n),
  served_lower cs i (step s c).0 h (step-HasFlags s c f) (&&_right (not_reset c) _ n),
)
