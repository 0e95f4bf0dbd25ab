-- ===== src/Netinfo/Stats/Written.antt =====
-- /proc/net/dev as the kernel writes it: two lines of headers, then for each interface its name, a colon, and
-- the counters, with blanks in front of each.
use trafix.Prelude.Fill.{fill-choose, choose}
use trafix.Prelude.{
  All, ℕ, suc, ◌-◌, ◌<◌, ◌≤◌, ◌^◌, Bool, true, false, List, [], ◌∷◌, ◌++◌, some, ◌≡◌, refl, ap, ◌∙◌,
  arith, all, append_assoc, length, take, ◌==◌,
}
use trafix.Cstr.Lines.{text_of_lines, with_newline, IsLineOf, fgets_lines-text_of_lines}
use trafix.Cstr.Number.{show}
use trafix.Cstr.Scan.{scan_set, scan_ulong}
use trafix.Cstr.Scan.Written.{StopsAt, spaces, skip_space-spaces, scan_ulong-show, scan_set-append}
use trafix.Cstr.{Text, is_digit, is_space, skip_space}
use trafix.Netinfo.Rates.{InterfaceStat}
use trafix.Netinfo.Stats.{not_colon, scan_stat, parse_interface_stats_file}

-- A counter and the blanks in front of it, one more than `pad`.
pub record Counter : Type 0 where
  pub pad : ℕ
  pub value : ℕ

pub record Device : Type 0 where
  pub pad : ℕ
  pub name : Text
  pub rx_bytes : Counter
  pub packets : Counter
  pub errors : Counter
  pub drops : Counter
  pub fifo : Counter
  pub frames : Counter
  pub compressed : Counter
  pub multicast : Counter
  pub tx_bytes : Counter
  pub rest : Text

abbrev counter_on : Counter → Text → Text
counter_on c s = spaces (suc c.pad) ++ (show c.value ++ s)

abbrev transmit_on : Device → Text
transmit_on d = counter_on d.tx_bytes d.rest

abbrev counters_on : Device → Text
counters_on d = counter_on d.rx_bytes (
    counter_on d.packets (
      counter_on d.errors (
        counter_on d.drops (
          counter_on d.fifo (
            counter_on d.frames
              (counter_on d.compressed (counter_on d.multicast (transmit_on d))))))))

abbrev pub write_device : Device → Text
write_device d = spaces d.pad ++ (d.name ++ b':' ∷ counters_on d)

abbrev StartsBlack : Text → Type 0
StartsBlack [] = ⊥
StartsBlack (c ∷ s) = is_space c ≡ false

abbrev Fits : Counter → Type 0
Fits c = c.value < 2 ^ 64

pub record IsDevice (d : Device) : Type 0 where
  pub name_starts : StartsBlack d.name
  pub name_chars : all not_colon d.name ≡ true
  pub name_fits : length d.name ≤ 31
  pub rx_bytes : Fits d.rx_bytes
  pub packets : Fits d.packets
  pub errors : Fits d.errors
  pub drops : Fits d.drops
  pub fifo : Fits d.fifo
  pub frames : Fits d.frames
  pub compressed : Fits d.compressed
  pub multicast : Fits d.multicast
  pub tx_bytes : Fits d.tx_bytes
  pub rest : StopsAt is_digit d.rest

abbrev pub stat_of : Device → InterfaceStat
stat_of d = record { name = d.name; rx_bytes = d.rx_bytes.value; tx_bytes = d.tx_bytes.value }

scan_counter :
    (c : Counter) (s : Text)
    → Fits c
    → StopsAt is_digit s
    → scan_ulong (counter_on c s) ≡ some (c.value, s)
scan_counter c s h stop = scan_ulong-show (suc c.pad) c.value s h stop

scan_name :
    (pad : ℕ) (name s : Text)
    → StartsBlack name
    → all not_colon name ≡ true
    → length name ≤ 31
    → scan_set 31 not_colon (skip_space (spaces pad ++ (name ++ b':' ∷ s))) ≡ some (name, b':' ∷ s)
scan_name pad [] s h a l = absurd h
scan_name pad (c ∷ name) s h a l =
    ap (scan_set 31 not_colon) (skip_space-spaces pad c (name ++ b':' ∷ s) h)
    ∙ scan_set-append 31 not_colon (c ∷ name) (b':' ∷ s) refl a refl l

scan_stat-write_device : (d : Device) → IsDevice d → scan_stat (write_device d) ≡ some (stat_of d)
unfolding scan_stat is_digit
scan_stat-write_device d h =
    rw
      (
        scan_name d.pad d.name (counters_on d) h.name_starts h.name_chars h.name_fits,
        scan_counter d.rx_bytes _ h.rx_bytes refl,
        scan_counter d.packets _ h.packets refl,
        scan_counter d.errors _ h.errors refl,
        scan_counter d.drops _ h.drops refl,
        scan_counter d.fifo _ h.fifo refl,
        scan_counter d.frames _ h.frames refl,
        scan_counter d.compressed _ h.compressed refl,
        scan_counter d.multicast (transmit_on d) h.multicast refl,
        scan_counter d.tx_bytes d.rest h.tx_bytes h.rest,
      )
      refl

abbrev ended : Device → Device
ended d = record d { rest = d.rest ++ b'\n' ∷ [] }

write_device-ended : (d : Device) → write_device d ++ b'\n' ∷ [] ≡ write_device (ended d)
write_device-ended d = simp append_assoc

StopsAt-append :
    (test : ℕ → Bool) (s : Text) (c : ℕ)
    → StopsAt test s
    → test c ≡ false
    → StopsAt test (s ++ c ∷ [])
StopsAt-append test [] c h e = e
StopsAt-append test (x ∷ s) c h e = h

ended-IsDevice : (d : Device) → IsDevice d → IsDevice (ended d)
unfolding is_digit
ended-IsDevice d h = record {
  name_starts = h.name_starts;
  name_chars = h.name_chars;
  name_fits = h.name_fits;
  rx_bytes = h.rx_bytes;
  packets = h.packets;
  errors = h.errors;
  drops = h.drops;
  fifo = h.fifo;
  frames = h.frames;
  compressed = h.compressed;
  multicast = h.multicast;
  tx_bytes = h.tx_bytes;
  rest = StopsAt-append is_digit d.rest b'\n' h.rest refl;
}

abbrev pub write_devices : List Device → List Text
write_devices [] = []
write_devices (d ∷ devices) = write_device d ∷ write_devices devices

abbrev pub stats_of : List Device → List InterfaceStat
stats_of [] = []
stats_of (d ∷ devices) = stat_of d ∷ stats_of devices

choose-write_devices :
    (devices : List Device)
    → All IsDevice devices
    → choose scan_stat (with_newline (write_devices devices)) ≡ stats_of devices
choose-write_devices [] h = refl
choose-write_devices (d ∷ devices) (hd, hs) =
    rw (write_device-ended d, scan_stat-write_device (ended d) (ended-IsDevice d hd))
      (ap (◌∷◌ (stat_of d)) (choose-write_devices devices hs))

-- A file of two lines of headers and a line for each interface, each of less than 255 bytes, is read as the
-- counters of the first `max_stats` interfaces, with their names.
pub parse_interface_stats_file-write_devices :
    (header titles : Text) (devices : List Device) (max_stats : ℕ)
    → All (IsLineOf 256) (header ∷ titles ∷ write_devices devices)
    → All IsDevice devices
    → 0 < max_stats
    → parse_interface_stats_file (text_of_lines (header ∷ titles ∷ write_devices devices)) max_stats
      ≡ some (take max_stats (stats_of devices))
unfolding parse_interface_stats_file
parse_interface_stats_file-write_devices header titles devices max_stats fit h pos =
    let room : (max_stats == 0) ≡ false = ground arith in
    let all_of : max_stats - 0 ≡ max_stats = omega arith in
    rw
      (
        room,
        fgets_lines-text_of_lines 256 (header ∷ titles ∷ write_devices devices) fit,
        fill-choose max_stats scan_stat [] (with_newline (write_devices devices)),
        choose-write_devices devices h,
        all_of,
      )
      refl
