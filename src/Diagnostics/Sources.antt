-- ===== src/Diagnostics/Sources.antt =====
-- Where the log lines come from (`diagnostics_collect_log_file`, `diagnostics_collect_log_path`,
-- `diagnostics_collect_log_command` and `trfx_collect_diagnostics_logs`, src/trfx_diagnostics.c). What
-- `fopen` and `popen` give is a function that a caller supplies.
use trafix.Prelude.{
  ℕ, Bool, true, false, not, List, [], ◌∷◌, ◌++◌, ◌≡◌, refl, arith, length, ◌==◌, if◌then◌else◌,
  Bool-cases, inl, inr,
}
use trafix.Cstr.Lines.{fgets_lines}
use trafix.Cstr.{Text, codes, clip}
use trafix.Netinfo.Routes.{CollectorStatus, ok, open_failed, parse_failed, is_ok}
use trafix.Diagnostics.Logs.{
  LogSnapshot, LogLine, reset_log_snapshot, set_error, add_lines, entries_of, recent,
  add_lines-recent,
}

-- The contents, or the text of `strerror`.
pub data Opened : Type 0 where
  contents refused : Text → Opened

pub record World : Type 0 where
  pub open_file : Text → Opened
  pub open_command : Text → Opened

-- The status, the snapshot and the error buffer, of 128 bytes.
pub record Collected : Type 0 where
  pub status : CollectorStatus
  pub snapshot : LogSnapshot
  pub error : Text

-- `from` is "in PATH" or "from NAME", for the error.
unfoldable pub collect_opened : Opened → Text → Text → LogSnapshot → Collected
collect_opened (refused reason) source from s = record {
  status = open_failed;
  snapshot = s;
  error = clip 128 (codes "open failed: " ++ reason);
}
collect_opened (contents file) source from s =
    let (t, line_count) = add_lines s source (fgets_lines 512 file) 0 in
    if line_count == 0
    then record {
      status = parse_failed;
      snapshot = t;
      error = clip 128 (codes "no readable log lines " ++ from);
    }
    else record { status = ok; snapshot = record t { status = ok; error = [] }; error = [] }

-- A path or a command, and the name of the source; none is empty.
pub data Source : Type 0 where
  log_file log_command : Text → Text → Source

abbrev opened : World → Source → Opened
opened w (log_file path name) = w.open_file path
opened w (log_command command name) = w.open_command command

abbrev pub source_name : Source → Text
source_name (log_file path name) = name
source_name (log_command command name) = name

unfoldable pub collect_source : World → Source → LogSnapshot → Collected
unfolding collect_opened
collect_source w (log_file path name) s =
    collect_opened (w.open_file path) name (codes "in " ++ path) s
collect_source w (log_command command name) s =
    collect_opened (w.open_command command) name (codes "from " ++ name) s

abbrev pub file_sources : List Source
file_sources =
    log_file (codes "/var/log/syslog") (codes "syslog")
    ∷ log_file (codes "/var/log/messages") (codes "messages")
    ∷ log_file (codes "/var/log/kern.log") (codes "kern.log")
    ∷ []

abbrev pub journal : Source
journal =
    log_command (codes "journalctl -k -n 12 --no-pager -o cat 2>/dev/null") (codes "journalctl")

abbrev pub dmesg : Source
dmesg = log_command (codes "dmesg --ctime --color=never 2>/dev/null") (codes "dmesg")

-- The loop over the files, which breaks at the first success.
unfoldable pub collect_files : World → List Source → Collected → Collected
collect_files w [] c = c
collect_files w (source ∷ sources) c =
    let here = collect_source w source c.snapshot in
    if is_ok here.status then here else collect_files w sources here

-- The next source, from a snapshot that is reset, unless there was a success.
unfoldable pub or_source : World → Source → Collected → Collected
or_source w source c = if is_ok c.status then c else collect_source w source reset_log_snapshot

abbrev before_all : Collected
before_all = record { status = open_failed; snapshot = reset_log_snapshot; error = [] }

unfoldable pub last_try : World → Collected
last_try w = or_source w dmesg (or_source w journal (collect_files w file_sources before_all))

-- The snapshot that is returned, with its status.
unfoldable pub collect_logs : World → LogSnapshot
unfolding set_error
collect_logs w =
    let c = last_try w in
    let s : LogSnapshot = record c.snapshot { status = c.status } in
    if is_ok c.status then s else set_error s c.error

-- What a source has to show.
abbrev entries_opened : Text → Opened → List LogLine
entries_opened name (contents file) = entries_of name (fgets_lines 512 file)
entries_opened name (refused reason) = []

abbrev pub entries : World → Source → List LogLine
entries w source = entries_opened (source_name source) (opened w source)

abbrev pub has_entries : List LogLine → Bool
has_entries [] = false
has_entries (x ∷ xs) = true

-- The first list that has entries.
abbrev pub or_entries : List LogLine → List LogLine → List LogLine
or_entries [] es = es
or_entries (x ∷ xs) es = x ∷ xs

-- The entries of the first source that has some.
abbrev pub first_entries : World → List Source → List LogLine
first_entries w [] = []
first_entries w (source ∷ sources) = or_entries (entries w source) (first_entries w sources)

-- A source gives its entries' last twelve, and "ok", exactly if it has some.
abbrev Gives : Collected → List LogLine → Type 0
Gives c es = (is_ok c.status ≡ has_entries es) × (c.snapshot.lines ≡ recent es)

has_entries-length : (es : List LogLine) (n : ℕ) → n ≡ length es → has_entries es ≡ not (n == 0)
has_entries-length [] n e = ground arith
has_entries-length (x ∷ xs) n e = ground arith

collect_opened-Gives :
    (o : Opened) (name from : Text) (s : LogSnapshot)
    → s.lines ≡ []
    → Gives (collect_opened o name from s) (entries_opened name o)
unfolding collect_opened
collect_opened-Gives (refused reason) name from s e = (refl, e)
collect_opened-Gives (contents file) name from s e =
    let t = add_lines s name (fgets_lines 512 file) 0 in
    let es = entries_of name (fgets_lines 512 file) in
    let h = add_lines-recent (fgets_lines 512 file) s name 0 [] e in
    let n : t.1 ≡ length es = omega (arith, h.1) in
    let some_entries = has_entries-length es t.1 n in
    elim (Bool-cases (t.1 == 0)) [
      | inl f ↦ rw (f, some_entries, f) (refl, h.0)
      | inr f ↦ rw (f, some_entries, f) (refl, h.0)
    ]

collect_source-Gives :
    (w : World) (source : Source) (s : LogSnapshot)
    → s.lines ≡ []
    → Gives (collect_source w source s) (entries w source)
unfolding collect_source
collect_source-Gives w (log_file path name) s e =
    collect_opened-Gives (w.open_file path) name (codes "in " ++ path) s e
collect_source-Gives w (log_command command name) s e =
    collect_opened-Gives (w.open_command command) name (codes "from " ++ name) s e

or_source-Gives :
    (w : World) (source : Source) (c : Collected) (es : List LogLine)
    → Gives c es
    → Gives (or_source w source c) (or_entries es (entries w source))
unfolding or_source
or_source-Gives w source c [] (o, l) = rw o (collect_source-Gives w source reset_log_snapshot refl)
or_source-Gives w source c (x ∷ xs) (o, l) = rw o (o, l)

collect_files-Gives :
    (w : World) (sources : List Source) (c : Collected)
    → Gives c []
    → Gives (collect_files w sources c) (first_entries w sources)
unfolding collect_files
collect_files-Gives w [] c g = g
collect_files-Gives w (source ∷ sources) c g =
    go (entries w source) (collect_source-Gives w source c.snapshot g.1)
      (collect_files-Gives w sources (collect_source w source c.snapshot))
  where
    go :
        (es : List LogLine)
        → Gives (collect_source w source c.snapshot) es
        → (Gives (collect_source w source c.snapshot) []
            → Gives
                (collect_files w sources (collect_source w source c.snapshot))
                (first_entries w sources))
        → Gives (collect_files w (source ∷ sources) c) (or_entries es (first_entries w sources))
    go [] h next = rw (collect_files, h.0) (next h)
    go (x ∷ xs) h next = rw (collect_files, h.0) h

-- The entries that the snapshot is made of.
abbrev pub all_entries : World → List LogLine
all_entries w =
    or_entries (or_entries (first_entries w file_sources) (entries w journal)) (entries w dmesg)

last_try-Gives : (w : World) → Gives (last_try w) (all_entries w)
unfolding last_try
last_try-Gives w =
    or_source-Gives w dmesg _ _
      (or_source-Gives w journal _ _ (collect_files-Gives w file_sources before_all (refl, refl)))

-- Whatever the files and the commands give: the snapshot holds the last twelve non-empty lines of the
-- first source that has any, of the three files, the journal and dmesg in this order, and its status
-- is "ok" exactly if there is such a source.
pub collect_logs-all_entries :
    (w : World)
    → ((collect_logs w).lines ≡ recent (all_entries w))
      × (is_ok (collect_logs w).status ≡ has_entries (all_entries w))
unfolding collect_logs
collect_logs-all_entries w =
    let g = last_try-Gives w in
    elim (Bool-cases (is_ok (last_try w).status)) [
      | inl e ↦ rw e (g.1, g.0)
      | inr e ↦ rw e (g.1, g.0)
    ]
