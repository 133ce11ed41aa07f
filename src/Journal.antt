-- ===== src/Journal.antt =====
-- src/journal.c: lines of events in a file.
pub mod Notes
use klunok.Prelude.{
  ℕ, ◌+◌, List, [], ◌∷◌, ◌++◌, Bool, true, false, not, Option, none, some, Text, ◌==◌,
  if◌then◌else◌, length,
}
use klunok.Trace.{Host, ok, tnull_malloc}
use klunok.Buffer.{Buffer}
use klunok.System.{System, tneg_get}
use klunok.Directories.{create_parents}
use klunok.Linq.{text_of}
use klunok.Counter.{write_digits}
use klunok.Building.{Piece, string, char, size, assemble}
use klunok.Timestamp.{get_timestamp}

pub record Journal : Type 0 where
  pub fd : ℕ
  pub timestamp_pattern : Text

-- `NAME_MAX`
abbrev pub name_max : ℕ
name_max = 255

-- A text with a tab, or nothing for an empty one.
abbrev pub field : Text → List Piece → List Piece
field [] rest = rest
field (c ∷ t) rest = string (c ∷ t) ∷ (char b'\t' ∷ rest)

abbrev pub pid_field : ℕ → List Piece → List Piece
pid_field pid rest = if pid == 0 then rest else size pid ∷ (char b'\t' ∷ rest)

-- The appends to the buffer of `note`.
abbrev pub line_of : Text → Text → ℕ → Text → List Piece
line_of timestamp event pid path =
    field timestamp (field event (pid_field pid (string path ∷ (char b'\n' ∷ []))))

module _ (sys : System) where
  -- What follows on the calls of `malloc`, `open` and `strdup`.
  abbrev pub opened : Text → Option ℕ × sys.State × Host → Option Journal × sys.State × Host
  opened timestamp_pattern (none, s, h) = (none, s, h)
  opened timestamp_pattern (some fd, s, h) =
      let h' = (tnull_malloc h).1 in
      if ok h'
      then (some (record { fd = fd; timestamp_pattern = timestamp_pattern }), s, h')
      else (none, sys.close fd s, h')

  abbrev pub open_behind : Text → Text → sys.State × Host → Option Journal × sys.State × Host
  open_behind path timestamp_pattern (s, h) =
      let h' = (tnull_malloc h).1 in
      if not (ok h')
      then (none, s, h')
      else opened timestamp_pattern (tneg_get sys (sys.append_file path) s h')

  unfoldable pub open_journal :
      Option Text → Text → sys.State → Host → Option Journal × sys.State × Host
  open_journal none timestamp_pattern s h = (none, s, h)
  open_journal (some path) timestamp_pattern s h =
      open_behind path timestamp_pattern (create_parents sys path s h)

  -- The loop is that of src/counter.c.
  abbrev pub write_line : ℕ → Option Buffer × Host → sys.State → sys.State × Host
  write_line fd (none, h) s = (s, h)
  write_line fd (some b, h) s =
      write_digits sys (length (text_of (some b)) + 1) fd (text_of (some b)) s h

  abbrev pub note_at : Text → ℕ → Text → ℕ → Option Text × Host → sys.State → sys.State × Host
  note_at event pid path fd (none, h) s = (s, h)
  note_at event pid path fd (some timestamp, h) s =
      write_line fd (assemble (line_of timestamp event pid path) h) s

  unfoldable pub note :
      Option Text → ℕ → Text → Option Journal → sys.State → Host → sys.State × Host
  note event pid path none s h = (s, h)
  note none pid path (some journal) s h = (s, h)
  note (some event) pid path (some journal) s h =
      if not (ok h)
      then (s, h)
      else note_at event pid path journal.fd
          (get_timestamp sys (sys.time s) journal.timestamp_pattern name_max s h) s
