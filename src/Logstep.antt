-- ===== src/Logstep.antt =====
-- src/logstep.c, and `unwind` of src/trace.c: the report of an error on a terminal. The texts of the
-- static messages are a parameter.
use klunok.Prelude.{
  ℕ, zero, suc, ◌+◌, List, [], ◌∷◌, ◌++◌, Bool, true, false, Option, none, some, Text, codes, ◌==◌,
  if◌then◌else◌, length, drop,
}
use klunok.Trace.{Payload, static_message, dynamic_message, Frame, Trace}
use klunok.Messages.{trace_because_of, trace_which_is, trace_message_dropped}
use klunok.System.{System, Answer, fails, gives}

-- UTF-8.
abbrev pub corner : Text
corner = 0xe2 ∷ (0x94 ∷ (0x94 ∷ (0xe2 ∷ (0x94 ∷ (0x80 ∷ [])))))

abbrev pub tee : Text
tee = 0xe2 ∷ (0x94 ∷ (0xa4 ∷ []))

abbrev pub bar : Text
bar = 0xe2 ∷ (0x94 ∷ (0x82 ∷ []))

-- The loop that indents, for the depths above 1.
unfoldable pub indents : ℕ → List Text
indents zero = []
indents (suc zero) = []
indents (suc (suc n)) = codes "  " ∷ indents (suc n)

abbrev pub is_text : Option Text → Bool
is_text none = false
is_text (some t) = true

abbrev pub corners : ℕ → List Text → List Text
corners depth rest = if depth == 0 then rest else corner ∷ rest

abbrev pub prefixes : ℕ → Option Text → List Text → List Text
prefixes depth none rest = rest
prefixes depth (some prefix) rest = (if depth == 0 then bar else tee) ∷ (prefix ∷ (bar ∷ rest))

abbrev pub messages_of : Option Text → Option Text → List Text → List Text
messages_of prefix none rest = rest
messages_of prefix (some message) rest =
    if is_text prefix then codes " " ∷ (message ∷ rest) else message ∷ rest

-- What `logstep` writes, one call of `write_full` after the other.
abbrev pub parts : Option Text → Option Text → ℕ → List Text
parts prefix message depth =
    indents depth
    ++ corners depth (prefixes depth prefix (messages_of prefix message ((b'\n' ∷ []) ∷ [])))

module _ (sys : System) where
  abbrev pub advance : (Text → sys.State → sys.State) → Text → Answer ℕ × sys.State → sys.State
  advance again data' (fails e, s) = s
  advance again data' (gives n, s) = if n == 0 then s else again (drop n data') s

  -- The loop.
  unfoldable pub write_full_from : ℕ → ℕ → Text → sys.State → sys.State
  write_full_from zero fd data' s = s
  write_full_from (suc fuel) fd data' s =
      let again = write_full_from fuel fd in
      if length data' == 0 then s else advance again data' (sys.write fd data' s)

  abbrev pub write_full : ℕ → Text → sys.State → sys.State
  write_full fd data' s = write_full_from (length data' + 1) fd data' s

  unfoldable pub write_parts : ℕ → List Text → sys.State → sys.State
  write_parts fd [] s = s
  write_parts fd (part ∷ parts') s = write_parts fd parts' (write_full fd part s)

  unfoldable pub logstep : ℕ → Option Text → Option Text → ℕ → sys.State → sys.State
  logstep fd prefix message depth s = write_parts fd (parts prefix message depth) s

  module _ (text : ℕ → Text) where
    abbrev pub message_of : Payload → Text
    message_of (static_message m) = text m
    message_of (dynamic_message t) = t

    abbrev pub prefix_of : ℕ → Bool → Option Text
    prefix_of depth is_context =
        if depth == 0
        then none
        else if is_context
        then some (text trace_which_is)
        else some (text trace_because_of)

    -- The loop over the frames: the last one thrown comes first.
    unfoldable pub unwind_frames : ℕ → List Frame → ℕ → sys.State → sys.State
    unwind_frames fd [] depth s = s
    unwind_frames fd (frame ∷ frames) depth s =
        unwind_frames fd frames (depth + 1)
          (logstep fd (prefix_of depth frame.is_context) (some (message_of frame.message)) depth s)

    -- The loop over the dropped frames.
    unfoldable pub unwind_dropped : ℕ → ℕ → ℕ → sys.State → sys.State
    unwind_dropped fd zero depth s = s
    unwind_dropped fd (suc n) depth s =
        unwind_dropped fd n (depth + 1)
          (logstep fd (some (text trace_message_dropped)) none depth s)

    unfoldable pub unwind : ℕ → Trace → sys.State → sys.State
    unwind fd trace s =
        unwind_dropped fd trace.dropped_frame_count (length trace.head)
          (unwind_frames fd trace.head 0 s)
