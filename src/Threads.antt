-- ===== src/Threads.antt =====
-- The bandwidth state that the threads and the keys share (`trfx_bandwidth_state_*`, src/trfx_threads.c). Each
-- function holds the lock for its whole body, so what threads do is a sequence of whole calls.
pub mod Network
pub mod Panels
pub mod Interfaces
use trafix.Prelude.Int.{ℤ, pos, ◌+ℤ◌, ◌≤ℤ◌, ◌<ℤ◌, ltb_ℤ, leb_ℤ}
use trafix.Prelude.{
  ℕ, ◌-◌, Bool, true, false, List, [], ◌∷◌, Option, none, some, ◌≡◌, ◌⊎◌, inr, refl, arith, min,
  ltb, ◌==◌, length, if◌then◌else◌,
}
use trafix.Bandwidth.{Doubles, BandwidthMode, BandwidthReport}
use trafix.Bandwidth.Report.{init_bandwidth_report}
use trafix.Netinfo.Snapshot.{Snapshot}
use trafix.Samples.{SampleBuffer}

module _ (d : Doubles) where
  open d use {D}

  pub record BandwidthState : Type 0 where
    pub initialized : Bool
    pub samples : SampleBuffer Snapshot
    pub report : BandwidthReport D
    pub focus_index : ℤ

  -- How many flows the panel shows.
  abbrev pub visible_count : BandwidthReport D → ℕ
  visible_count report = min (length report.flows) 3

  -- `empty` is what `trfx_init_network_sample_buffer` gives.
  unfoldable pub bandwidth_state_init : SampleBuffer Snapshot → BandwidthState → BandwidthState
  bandwidth_state_init empty s =
      if s.initialized
      then s
      else record s { initialized = true; samples = empty; report = init_bandwidth_report d }

  unfoldable pub bandwidth_state_update :
      BandwidthState → SampleBuffer Snapshot → BandwidthReport D → BandwidthState
  bandwidth_state_update s samples report =
      let visible = visible_count report in
      record s {
        samples = samples;
        report = report;
        focus_index =
            if visible == 0
            then pos 0
            else if leb_ℤ (pos visible) s.focus_index
            then pos (visible - 1)
            else s.focus_index;
      }

  unfoldable pub bandwidth_state_copy :
      BandwidthState → Option (SampleBuffer Snapshot × BandwidthReport D × ℤ)
  bandwidth_state_copy s = if s.initialized then some (s.samples, s.report, s.focus_index) else none

  unfoldable pub bandwidth_state_move_focus : BandwidthState → ℤ → BandwidthState
  bandwidth_state_move_focus s delta =
      let visible = visible_count s.report in
      let moved = s.focus_index +ℤ delta in
      if ltb 0 visible
      then record s {
        focus_index =
            if ltb_ℤ moved (pos 0)
            then pos (visible - 1)
            else if leb_ℤ (pos visible) moved
            then pos 0
            else moved;
      }
      else s

  pub data Call : Type 0 where
    init_call : SampleBuffer Snapshot → Call
    update_call : SampleBuffer Snapshot → BandwidthReport D → Call
    move_call : ℤ → Call

  unfoldable pub step : BandwidthState → Call → BandwidthState
  unfolding bandwidth_state_init bandwidth_state_update bandwidth_state_move_focus
  step s (init_call empty) = bandwidth_state_init empty s
  step s (update_call samples report) = bandwidth_state_update s samples report
  step s (move_call delta) = bandwidth_state_move_focus s delta

  abbrev pub run : BandwidthState → List Call → BandwidthState
  run s [] = s
  run s (c ∷ cs) = run (step s c) cs

  -- The static variables of a program that has just started; `blank` is a buffer of zero bytes.
  abbrev pub start : SampleBuffer Snapshot → BandwidthState
  start blank = record {
    initialized = false;
    samples = blank;
    report = record {
      mode = BandwidthMode.unsupported;
      source = [];
      interface_rates = [];
      flows = [];
    };
    focus_index = pos 0;
  }

  -- The focus is at a flow that is shown, or at 0 where there is none.
  abbrev pub InView : BandwidthState → Type 0
  InView s =
      (pos 0 ≤ℤ s.focus_index)
      × ((s.focus_index <ℤ pos (visible_count s.report))
          ⊎ ((visible_count s.report ≡ 0) × (s.focus_index ≡ pos 0)))

  abbrev Ready : BandwidthState → Type 0
  Ready s = (s.initialized ≡ true) × InView s

  step-Ready : (s : BandwidthState) (c : Call) → Ready s → Ready (step s c)
  unfolding step bandwidth_state_init bandwidth_state_update bandwidth_state_move_focus
  step-Ready s (init_call empty) h = rw h.0 (refl, h.1)
  step-Ready s (update_call samples report) h = ground arith
  step-Ready s (move_call delta) h = ground arith

  run-Ready : (cs : List Call) (s : BandwidthState) → Ready s → Ready (run s cs)
  run-Ready [] s h = h
  run-Ready (c ∷ cs) s h = run-Ready cs (step s c) (step-Ready s c h)

  start-Ready :
      (blank empty : SampleBuffer Snapshot) → Ready (bandwidth_state_init empty (start blank))
  unfolding bandwidth_state_init
  start-Ready blank empty = (refl, (omega arith, inr (refl, refl)))

  -- Once a thread has initialized the state, through any further calls of any threads the focus is at one of
  -- the first three flows, or at 0 where there is none.
  pub run-InView :
      (blank empty : SampleBuffer Snapshot) (cs : List Call)
      → InView (run (bandwidth_state_init empty (start blank)) cs)
  run-InView blank empty cs = (run-Ready cs _ (start-Ready blank empty)).1
