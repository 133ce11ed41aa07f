-- ===== src/Trace.antt =====
-- inc/trace.h and src/trace.c: errors as a stack of frames, and `try`/`catch`/`finally`.
-- A `Host` is what a call can touch beside its arguments: the trace, and the memory allocator,
-- whose answers are listed in `fates` (past the end of the list every allocation succeeds).
-- The counters count calls, 2 ^ 64 of which cannot be made, so they do not wrap.
pub mod Blocks
pub mod Errors
pub mod Rethrown
pub mod Caught
use klunok.Prelude.{
  ℕ, ◌+◌, ◌-◌, List, [], ◌∷◌, Bool, true, false, ◌&&◌, ◌||◌, not, Text, ltb, ◌==◌, Option, none,
  some, if◌then◌else◌,
}

-- The union, and the tag `is_dynamic`.
pub data Payload : Type 0 where
  static_message : ℕ → Payload
  dynamic_message : Text → Payload

pub record Frame : Type 0 where
  pub message : Payload
  pub is_context : Bool

pub record Trace : Type 0 where
  pub dropped_frame_count : ℕ
  pub head : List Frame
  pub pre_throw_depth : ℕ
  pub post_throw_depth : ℕ

abbrev pub create_trace : Trace
create_trace = record {
  dropped_frame_count = 0;
  head = [];
  pre_throw_depth = 0;
  post_throw_depth = 0;
}

pub record Host : Type 0 where
  pub trace : Trace
  pub open trace use *
  -- the outcomes of the coming allocations
  pub fates : List Bool
  -- what a byte of fresh memory reads as
  pub junk : ℕ
  -- `strerror(ENOMEM)`
  pub out_of_memory : Text

abbrev pub take_fate : List Bool → Host → Bool × Host
take_fate [] h = (true, h)
take_fate (f ∷ fs) h = (f, record h { fates = fs })

-- `malloc`, `calloc`, `realloc` or `strdup` returns a block, or `NULL`.
unfoldable pub malloc : Host → Bool × Host
malloc h = take_fate h.fates h

abbrev push_frame : Payload → Bool → Host → Host
push_frame p c h = record h {
  trace = record (h.trace) { head = record { message = p; is_context = c } ∷ h.head };
}

abbrev drop_frame : Host → Host
drop_frame h = record h {
  trace = record (h.trace) { dropped_frame_count = h.dropped_frame_count + 1 };
}

-- The second allocation is `strdup`.
abbrev fill_frame : Payload → Bool → Host → Host
fill_frame (static_message m) c h = push_frame (static_message m) c h
fill_frame (dynamic_message t) c h =
    let (got, h') = malloc h in if got then push_frame (dynamic_message t) c h' else drop_frame h'

unfoldable pub throw_common : Payload → Bool → Host → Host
unfolding malloc
throw_common p c h = let (got, h') = malloc h in if got then fill_frame p c h' else drop_frame h'

unfoldable pub throw_static : ℕ → Host → Host
unfolding throw_common
throw_static m = throw_common (static_message m) false

unfoldable pub throw_dynamic : Text → Host → Host
unfolding throw_common
throw_dynamic t = throw_common (dynamic_message t) false

unfoldable pub throw_context : Text → Host → Host
unfolding throw_common
throw_context t = throw_common (dynamic_message t) true

abbrev is_nil : List Frame → Bool
is_nil [] = true
is_nil (f ∷ fs) = false

unfoldable pub ok : Host → Bool
ok h = is_nil h.head && (h.dropped_frame_count == 0)

-- `try`, a reserved word of C++ only.
unfoldable pub try : Host → Host
unfolding ok
try h =
    if ok h
    then record h { trace = record (h.trace) { pre_throw_depth = h.pre_throw_depth + 1 } }
    else record h { trace = record (h.trace) { post_throw_depth = h.post_throw_depth + 1 } }

-- `trace->head && !trace->head->is_dynamic && trace->head->static_message == message`
abbrev pub top_is : ℕ → List Frame → Bool
top_is m [] = false
top_is m (f ∷ fs) = elim (f.message) [ static_message n ↦ n == m | dynamic_message t ↦ false ]

unfoldable pub catch_static : ℕ → Host → Bool × Host
catch_static m h =
    if ltb 0 h.dropped_frame_count || ltb 0 h.post_throw_depth
    then (false, h)
    else if top_is m h.head
    then (true, record h { trace = record (h.trace) { head = [] } })
    else (false, h)

unfoldable pub decrement_depth : Host → Bool × Host
decrement_depth h =
    if ltb 0 h.post_throw_depth
    then (
      false,
      record h { trace = record (h.trace) { post_throw_depth = h.post_throw_depth - 1 } },
    )
    else (true, record h { trace = record (h.trace) { pre_throw_depth = h.pre_throw_depth - 1 } })

unfoldable pub finally_catch_all : Host → Host
unfolding decrement_depth
finally_catch_all h =
    (decrement_depth
      (record h { trace = record (h.trace) { dropped_frame_count = 0; head = [] } })).1

unfoldable pub finally : Host → Host
unfolding decrement_depth
finally h = (decrement_depth h).1

unfoldable pub finally_rethrow_static : ℕ → Host → Host
unfolding decrement_depth ok throw_static
finally_rethrow_static m h =
    let (before, h') = decrement_depth h in if before && not (ok h') then throw_static m h' else h'

unfoldable pub rethrow_context : Text → Host → Host
unfolding ok throw_context
rethrow_context t h = if (h.post_throw_depth == 0) && not (ok h) then throw_context t h else h

-- `TNULL(malloc(…), trace)`: `ENOMEM` is thrown if there is no memory.
unfoldable pub tnull_malloc : Host → Bool × Host
unfolding ok malloc throw_dynamic
tnull_malloc h =
    if ok h
    then (let (got, h') = malloc h in
        if got then (true, h') else (false, throw_dynamic h'.out_of_memory h'))
    else (false, h)

-- `TNEG(call, trace)`, where the call fails with the message `some e` or succeeds. What a call that
-- succeeds does is left to the caller, who reads the answer.
unfoldable pub tneg : Option Text → Host → Bool × Host
unfolding ok throw_dynamic
tneg r h =
    if ok h then elim r [ none ↦ (true, h) | some e ↦ (false, throw_dynamic e h) ] else (false, h)
