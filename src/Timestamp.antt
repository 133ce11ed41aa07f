-- ===== src/Timestamp.antt =====
-- src/timestamp.c: a time as a text. `strftime` writes a text that is shorter than the room for it,
-- and gives 0 if it does not.
pub mod Formats
use klunok.Prelude.{
  ℕ, ◌+◌, [], ◌∷◌, Bool, true, false, ◌&&◌, ◌||◌, not, Option, none, some, Text, ◌==◌, ltb,
  if◌then◌else◌, length,
}
use klunok.Trace.{Host, ok, throw_static, tnull_malloc}
use klunok.Messages.{timestamp_overflow}
use klunok.System.{System, Errno, throw_errno}

module _ (sys : System) where
  -- `TNULL(localtime(&time), trace)`
  abbrev pub tnull_localtime : Option Errno → Host → Host
  tnull_localtime none h = h
  tnull_localtime (some e) h = if ok h then throw_errno sys e h else h

  -- Whether `strftime` gives 0, for the text and the room.
  abbrev pub is_overflow : Text → ℕ → Bool
  is_overflow t max_size = length t == 0 || not (ltb (length t) max_size)

  unfoldable pub get_timestamp : ℕ → Text → ℕ → sys.State → Host → Option Text × Host
  get_timestamp time format max_length s h =
      let h1 = (tnull_malloc (tnull_localtime (sys.localtime time s) h)).1 in
      let t = sys.strftime format time s in
      let h2 =
        if ok h1 && is_overflow t (max_length + 1)
        then throw_static timestamp_overflow h1
        else h1 in
      if ok h2 then (some t, h2) else (none, h2)
