-- ===== src/Timestamp/Formats.antt =====
-- When src/timestamp.c gives a text.
use klunok.Prelude.{
  ℕ, ◌+◌, ◌<◌, ◌≤◌, true, false, none, some, Text, ◌≡◌, refl, arith, length, ltb, ◌==◌,
}
use klunok.Trace.{Host, ok}
use klunok.Trace.Errors.{throw_static-Thrown}
use klunok.Messages.{timestamp_overflow}
use klunok.Buffer.Append.{tnull_malloc_ample}
use klunok.Buffer.Ample.{IsAmple}
use klunok.System.{System}
use klunok.Timestamp.{get_timestamp}

module _ (sys : System) (time : ℕ) (format : Text) (max_length : ℕ) (s : sys.State) (h : Host)
    (a : IsAmple h) (there : sys.localtime time s ≡ none) where
  -- A text that is not empty and not too long is given.
  pub get_timestamp-fits :
      0 < length (sys.strftime format time s)
      → length (sys.strftime format time s) ≤ max_length
      → get_timestamp sys time format max_length s h ≡ (some (sys.strftime format time s), h)
  unfolding get_timestamp
  get_timestamp-fits some' fits =
      let empty : (length (sys.strftime format time s) == 0) ≡ false = ground (arith, some') in
      let room : ltb (length (sys.strftime format time s)) (max_length + 1) ≡ true =
        ground (arith, fits) in
      rw (get_timestamp, there, tnull_malloc_ample h a.memory, a.fine, empty, room, a.fine) refl

  -- A pattern that stands for no text at all is refused.
  pub get_timestamp_empty :
      length (sys.strftime format time s) ≡ 0
      → ((get_timestamp sys time format max_length s h).0 ≡ none)
        × (ok (get_timestamp sys time format max_length s h).1 ≡ false)
  unfolding get_timestamp
  get_timestamp_empty empty =
      let bad = (throw_static-Thrown timestamp_overflow h).fails in
      rw (get_timestamp, there, tnull_malloc_ample h a.memory, a.fine, empty, bad) (refl, bad)
