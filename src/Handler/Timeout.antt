-- ===== src/Handler/Timeout.antt =====
-- `handle_timeout` of src/handler.c over the queue. What it does with the path of a head, `store`, is
-- a parameter, with the path, the time and the state.
pub mod Marked
pub mod Drains
use klunok.Prelude.{
  ℕ, zero, suc, ◌+◌, [], ◌∷◌, Bool, true, false, not, Option, none, some, Text, ◌==◌, if◌then◌else◌,
}
use klunok.Trace.{Host, ok, try, finally_rethrow_static}
use klunok.Messages.{handler_linq_cannot_get_head}
use klunok.Paths.{char_of}
use klunok.System.{System}
use klunok.Linq.{Linq, LinqHead, Pause, forever, seconds, text_of, get_head, pop_head}

abbrev pub path_of : Option Text → Text
path_of none = []
path_of (some t) = t

module _ (sys : System) (store : Text → ℕ → sys.State → Host → sys.State × Host) where
  abbrev pub Timeout : Type 0
  Timeout = Pause × Linq × sys.State × Host

  -- The mark of a path that was stored before is not a slash.
  abbrev pub store_marked : Text → sys.State → Host → sys.State × Host
  store_marked path s h = if char_of path == b'/' then store path (sys.time s) s h else (s, h)

  -- A round behind the call of `store`.
  unfoldable pub next : (Linq → sys.State → Host → Timeout) → Linq → sys.State × Host → Timeout
  next again l (s, h) =
      let (l', s', h') = pop_head sys l s h in
      if not (ok h') then (seconds 0, l', s', h') else again l' s' h'

  -- A round behind the test of the error.
  unfoldable pub round :
      (Linq → sys.State → Host → Timeout) → Option LinqHead → Linq → sys.State → Host → Timeout
  round again none l s h = (seconds 0, l, s, h)
  round again (some head) l s h = elim (head.pause) [
    | forever ↦ (forever, l, s, h)
    | seconds n ↦
        if n == 0 then next again l (store_marked (path_of head.path) s h) else (seconds n, l, s, h)
  ]

  unfoldable pub finish_get_head :
      (Linq → sys.State → Host → Timeout) → Option LinqHead × Linq × sys.State × Host → Timeout
  finish_get_head again (head, l, s, h) =
      let h' = finally_rethrow_static handler_linq_cannot_get_head h in
      if not (ok h') then (seconds 0, l, s, h') else round again head l s h'

  unfoldable pub handle_timeout_from : ℕ → Linq → sys.State → Host → Timeout
  handle_timeout_from zero l s h = (seconds 0, l, s, h)
  handle_timeout_from (suc fuel) l s h =
      let again = handle_timeout_from fuel in finish_get_head again (get_head sys l s (try h))

  -- Each round takes a link off the queue.
  unfoldable pub handle_timeout : Linq → sys.State → Host → Timeout
  handle_timeout l s h = handle_timeout_from (l.size + 1) l s h
