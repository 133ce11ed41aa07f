-- ===== src/Handler/Pushes.antt =====
-- The pushes of `push_to_linq` of src/handler.c behind its decision.
pub mod Queued
use klunok.Prelude.{ℕ, Bool, true, false, not, List, Option, none, some, Text, take, if◌then◌else◌}
use klunok.Trace.{Host, ok, try, rethrow_context, finally_rethrow_static}
use klunok.Messages.{handler_linq_cannot_push}
use klunok.Set.{Set}
use klunok.Bitmap.{Bitmap}
use klunok.System.{System}
use klunok.Linq.{Linq, push}
use klunok.Handler.{choose_paths}

module _ (sys : System) where
  abbrev pub Pushed : Type 0
  Pushed = Linq × sys.State × Host

  abbrev pub report : Text → Pushed → Pushed
  report path (l, s, h) =
      (l, s, finally_rethrow_static handler_linq_cannot_push (rethrow_context path h))

  unfoldable pub push_reported : Text → Linq → sys.State → Host → Pushed
  push_reported path l s h = report path (push sys path l s (try h))

  abbrev pub push_project : Text → Option ℕ → Pushed → Pushed
  push_project path none pushed = pushed
  push_project path (some end) (l, s, h) = push_reported (take end path) l s h

  -- The path, and the root of its project.
  unfoldable pub push_chosen : Text → Option ℕ → Linq → sys.State → Host → Pushed
  push_chosen path project_root_end l s h =
      push_project path project_root_end (push_reported path l s h)

  abbrev pub follow :
      Text → Option (Bool × Option ℕ) × Host → Linq → sys.State → Bool × Linq × sys.State × Host
  follow path (none, h) l s = (false, l, s, h)
  follow path (some (false, project_root_end), h) l s = (false, l, s, h)
  follow path (some (true, project_root_end), h) l s =
      let (l', s', h') = push_chosen path project_root_end l s h in (true, l', s', h')

  unfoldable pub push_to_linq :
      ℕ
      → Text
      → ℕ
      → Set
      → List Set
      → Bitmap
      → Linq
      → sys.State
      → Host
      → Bool × Linq × sys.State × Host
  push_to_linq pid path common_parent_path_length ignored_leading_dots sets editor_pids l s h =
      follow path
        (choose_paths pid path common_parent_path_length ignored_leading_dots sets editor_pids h) l
        s
