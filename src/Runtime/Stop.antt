-- ===== src/Runtime/Stop.antt =====
-- A stop request is not lost (src/trfx_runtime.c).
use trafix.Prelude.{true, false, Bool, List, [], ◌∷◌, ◌≡◌, arith, all}
use trafix.Runtime.{RuntimeState, Call, reset_call, step, run}

abbrev pub not_reset : Call → Bool
not_reset reset_call = false
not_reset _ = true

step-stop :
    (s : RuntimeState) (c : Call)
    → not_reset c ≡ true
    → s.stop_requested ≡ true
    → (step s c).0.stop_requested ≡ true
unfolding step
step-stop s c n h = ground arith

-- Once a stop is requested, it stays so through any calls but a reset.
pub run-stop :
    (cs : List Call) (s : RuntimeState)
    → all not_reset cs ≡ true
    → s.stop_requested ≡ true
    → (run s cs).stop_requested ≡ true
unfolding run
run-stop [] s n h = h
run-stop (c ∷ cs) s n h = run-stop cs (step s c).0 (ground arith) (step-stop s c (ground arith) h)
