-- ===== src/Counter.antt =====
-- src/counter.c: a number in a file, which is there unless the number is 0.
pub mod Store
pub mod Kept
use klunok.Prelude.{
  ℕ, zero, suc, ◌+◌, ◌-◌, List, [], ◌∷◌, ◌++◌, Bool, true, false, ◌&&◌, ◌||◌, not, Option, none,
  some, Text, ◌==◌, ltb, if◌then◌else◌, length, drop,
}
use klunok.Trace.{Host, ok}
use klunok.Buffer.{Buffer, concat_size}
use klunok.System.{System, Errno, enoent, Answer, fails, gives, tneg_do, tneg_get, throw_errno}
use klunok.Numerals.{strtol}
use klunok.Directories.{create_parents, remove_empty_parents}
use klunok.Linq.{build, text_of}

module _ (sys : System) where
  -- What a read gives, and the digits from before it.
  unfoldable pub take_digits :
      (Text → sys.State → Host → Option Text × sys.State × Host)
      → Text
      → Option (List ℕ) × sys.State × Host
      → Option Text × sys.State × Host
  take_digits again digits (none, s, h) = (none, s, h)
  take_digits again digits (some [], s, h) = (some digits, s, h)
  take_digits again digits (some (b ∷ bytes), s, h) = again (digits ++ b ∷ bytes) s h

  -- The loop of `read_counter`; a read that gives nothing ends it.
  unfoldable pub read_digits : ℕ → ℕ → Text → sys.State → Host → Option Text × sys.State × Host
  read_digits zero fd digits s h = (some digits, s, h)
  read_digits (suc fuel) fd digits s h =
      let again = read_digits fuel fd in
      if ltb (length digits + 1) 21
      then take_digits again digits (tneg_get sys (sys.read fd (21 - length digits - 1)) s h)
      else (some digits, s, h)

  abbrev pub close_read : ℕ → Option Text × sys.State × Host → ℕ × sys.State × Host
  close_read fd (none, s, h) = (0, sys.close fd s, h)
  close_read fd (some digits, s, h) = (strtol digits, sys.close fd s, h)

  abbrev pub read_opened : Answer ℕ × sys.State → Host → ℕ × sys.State × Host
  read_opened (gives fd, s) h = close_read fd (read_digits 21 fd [] s h)
  read_opened (fails enoent, s) h = (0, s, h)
  read_opened (fails e, s) h = (0, s, throw_errno sys e h)

  -- Each round reads a byte at least, and there is room for 20.
  unfoldable pub read_counter : Text → sys.State → Host → ℕ × sys.State × Host
  read_counter path s h = if not (ok h) then (0, s, h) else read_opened (sys.open_file path s) h

  abbrev pub go_on :
      (Text → sys.State → Host → sys.State × Host)
      → Text
      → Option ℕ × sys.State × Host
      → sys.State × Host
  go_on again rest (none, s, h) = (s, h)
  go_on again rest (some written, s, h) = again (drop written rest) s h

  -- The loop of `write_counter`, over what is left of the digits.
  unfoldable pub write_digits : ℕ → ℕ → Text → sys.State → Host → sys.State × Host
  write_digits zero fd rest s h = (s, h)
  write_digits (suc fuel) fd rest s h =
      let again = write_digits fuel fd in
      if ok h && ltb 0 (length rest)
      then go_on again rest (tneg_get sys (sys.write fd rest) s h)
      else (s, h)

  abbrev pub close_written : ℕ → sys.State × Host → sys.State × Host
  close_written fd (s, h) = (sys.close fd s, h)

  -- `write_counter` behind `open`: a file that is not open is neither cut nor closed.
  unfoldable pub write_opened : ℕ → Option ℕ × sys.State × Host → sys.State × Host
  write_opened counter (none, s, h) = (s, (build (concat_size counter) h).1)
  write_opened counter (some fd, s, h) =
      let (s', h') = tneg_do sys (sys.ftruncate fd) s h in
      let (buffer, h'') = build (concat_size counter) h' in
      if not (ok h'')
      then (sys.close fd s', h'')
      else close_written fd (write_digits (length (text_of buffer) + 1) fd (text_of buffer) s' h'')

  abbrev pub remove_parents : Text → Option Errno × sys.State → Host → sys.State × Host
  remove_parents path (none, s) h = remove_empty_parents sys path s h
  remove_parents path (some enoent, s) h = (s, h)
  remove_parents path (some e, s) h = (s, throw_errno sys e h)

  unfoldable pub write_counter : Text → ℕ → sys.State → Host → sys.State × Host
  write_counter path counter s h =
      let (s', h') = create_parents sys path s h in
      if ok h && counter == 0
      then remove_parents path (sys.unlink path s) h
      else write_opened counter (tneg_get sys (sys.create_file path) s' h')
