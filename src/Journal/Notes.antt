-- ===== src/Journal/Notes.antt =====
-- The line that src/journal.c writes.
use klunok.Prelude.{
  append_assoc, ℕ, ◌+◌, ◌*◌, ◌<◌, ◌≤◌, List, [], ◌∷◌, ◌++◌, false, none, some, Text, ◌≡◌, refl, sym,
  ◌∙◌, arith, length, ◌⊎◌, inl, inr, ◌==◌, if◌then◌else◌, Bool-cases,
}
use klunok.Trace.{Host, ok}
use klunok.Buffer.{size_mod}
use klunok.Buffer.Cells.{NonZero}
use klunok.Buffer.Decimal.{decimal}
use klunok.Buffer.Ample.{IsAmple}
use klunok.System.{System}
use klunok.Building.{spelled, AllPieces, assemble-spelled, Piece, string, char}
use klunok.Timestamp.Formats.{get_timestamp-fits}
use klunok.Counter.Store.{IsFileStore}
use klunok.Counter.Kept.{write_digits-Written}
use klunok.Journal.{Journal, name_max, line_of, field, pid_field, note}

-- A column with its tab, if it is not empty.
abbrev pub column : Text → Text
column [] = []
column (c ∷ t) = c ∷ (t ++ b'\t' ∷ [])

abbrev pub pid_column : ℕ → Text
pid_column pid = if pid == 0 then [] else decimal pid ++ b'\t' ∷ []

-- The columns of a line: the time, the event, the process, and the path.
abbrev pub line : Text → Text → ℕ → Text → Text
line timestamp event pid path =
    column timestamp ++ (column event ++ (pid_column pid ++ (path ++ b'\n' ∷ [])))

spelled-field : (t : Text) (ps : List Piece) → spelled (field t ps) ≡ column t ++ spelled ps
spelled-field [] ps = refl
spelled-field (c ∷ t) ps = sym (append_assoc (c ∷ t) (b'\t' ∷ []) (spelled ps))

spelled-pid_field :
    (pid : ℕ) (ps : List Piece) → spelled (pid_field pid ps) ≡ pid_column pid ++ spelled ps
spelled-pid_field pid ps = elim (Bool-cases (pid == 0)) [
  | inl zero' ↦ rw zero' refl
  | inr other ↦ rw other (sym (append_assoc (decimal pid) (b'\t' ∷ []) (spelled ps)))
]

spelled-line_of :
    (timestamp event : Text) (pid : ℕ) (path : Text)
    → spelled (line_of timestamp event pid path) ≡ line timestamp event pid path
spelled-line_of timestamp event pid path =
    rw (spelled-field timestamp, spelled-field event, spelled-pid_field pid) refl

AllPieces-field : (t : Text) (ps : List Piece) → NonZero t → AllPieces ps → AllPieces (field t ps)
AllPieces-field [] ps w v = v
AllPieces-field (c ∷ t) ps w v = (w, (omega arith, v))

AllPieces-pid_field :
    (pid : ℕ) (ps : List Piece) → pid < size_mod → AllPieces ps → AllPieces (pid_field pid ps)
AllPieces-pid_field pid ps p v = elim (Bool-cases (pid == 0)) [
  | inl zero' ↦ rw zero' v
  | inr other ↦ rw other (p, (omega arith, v))
]

AllPieces-line_of :
    (timestamp event : Text) (pid : ℕ) (path : Text)
    → NonZero timestamp
    → NonZero event
    → pid < size_mod
    → NonZero path
    → AllPieces (line_of timestamp event pid path)
AllPieces-line_of timestamp event pid path w v p u =
    AllPieces-field timestamp (field event (pid_field pid (string path ∷ (char b'\n' ∷ [])))) w (
      AllPieces-field event (pid_field pid (string path ∷ (char b'\n' ∷ []))) v
        (AllPieces-pid_field pid (string path ∷ (char b'\n' ∷ [])) p (u, (omega arith, tt))))

module _ (sys : System) (Writing : ℕ → Text → Text → sys.State → Type 0)
    (Reading : ℕ → Text → sys.State → Type 0) (Holding : Text → Text → sys.State → Type 0)
    (store : IsFileStore sys Writing Reading Holding) (h : Host) (a : IsAmple h) where
  -- With memory left, `note` appends its line to the file of the journal, or there is an error: the
  -- line has a column for the time, one for the event and one for the process, where they are not
  -- empty, and ends with the path.
  pub note-Writing :
      (journal : Journal) (p t event path : Text) (pid : ℕ) (s : sys.State)
      → Writing journal.fd p t s
      → sys.localtime (sys.time s) s ≡ none
      → 0 < length (sys.strftime journal.timestamp_pattern (sys.time s) s)
      → length (sys.strftime journal.timestamp_pattern (sys.time s) s) ≤ name_max
      → NonZero (sys.strftime journal.timestamp_pattern (sys.time s) s)
      → NonZero event
      → pid < size_mod
      → NonZero path
      → (length (line (sys.strftime journal.timestamp_pattern (sys.time s) s) event pid path) + 22)
          * 2
        < size_mod
      → (((note sys (some event) pid path (some journal) s h).1 ≡ h)
          × Writing journal.fd p
              (t ++ line (sys.strftime journal.timestamp_pattern (sys.time s) s) event pid path)
              (note sys (some event) pid path (some journal) s h).0)
        ⊎ (ok (note sys (some event) pid path (some journal) s h).1 ≡ false)
  unfolding note
  note-Writing journal p t event path pid s w there some' short whole v small u fits =
      let stamp = sys.strftime journal.timestamp_pattern (sys.time s) s in
      let stamped =
        get_timestamp-fits sys (sys.time s) journal.timestamp_pattern name_max s h a there some'
          short in
      let spelling = spelled-line_of stamp event pid path in
      let (b, made, text) =
        assemble-spelled h a (line_of stamp event pid path)
          (AllPieces-line_of stamp event pid path whole v small u) (rw spelling fits) in
      let text' = text ∙ spelling in
      rw (note, a.fine, stamped, made, text')
        (write_digits-Written sys Writing Reading Holding store h a
          (length (line stamp event pid path) + 1) journal.fd p t (line stamp event pid path) s w
          (omega arith))
