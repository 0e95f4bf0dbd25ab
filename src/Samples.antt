-- ===== src/Samples.antt =====
-- The history of network samples (`TrfxNetworkSampleBuffer` of include/trfx_netinfo.h, the end of
-- src/trfx_netinfo.c), over any type of snapshots. `blank` is the sample of zero bytes.
pub mod History
use trafix.Prelude.Int.{ℤ}
use trafix.Prelude.{
  ℕ, ◌+◌, ◌%◌, Bool, List, Option, none, some, ltb, leb, get_elem?, set, replicate, if◌then◌else◌,
}

abbrev pub sample_history : ℕ
sample_history = 12

pub record Sample (S : Type 0) : Type 0 where
  pub captured_at : ℤ
  pub snapshot : S

pub record SampleBuffer (S : Type 0) : Type 0 where
  pub count : ℕ
  pub head : ℕ
  pub samples : List (Sample S)

module _ {S : Type 0} where
  unfoldable pub init : Sample S → SampleBuffer S
  init blank = record { count = 0; head = 0; samples = replicate sample_history blank }

  unfoldable pub push : SampleBuffer S → S → ℤ → SampleBuffer S
  push b snapshot captured_at =
      let slot = (b.head + b.count) % sample_history in
      let written : List (Sample S) =
        set b.samples slot (record { captured_at = captured_at; snapshot = snapshot }) in
      if ltb b.count sample_history
      then record { count = b.count + 1; head = b.head; samples = written }
      else record { count = b.count; head = (b.head + 1) % sample_history; samples = written }

  unfoldable pub at : SampleBuffer S → ℕ → Option (Sample S)
  at b index =
      if leb b.count index then none else get_elem? b.samples ((b.head + index) % sample_history)
