-- ===== src/Main.antt =====
-- The loops of src/main.c: over the mounts to watch, and over the events. `fanotify_mark` and `poll`
-- are parameters, as are the operations of src/handler.c.
pub mod Parents
pub mod Mounts
pub mod Events
use klunok.Prelude.{
  ℕ, zero, suc, ◌+◌, List, [], ◌∷◌, Bool, true, false, not, Option, none, some, Text, ltb,
  if◌then◌else◌, length,
}
use klunok.Trace.{Host, ok, throw_context, throw_static}
use klunok.Messages.{main_mount_cannot_watch}
use klunok.Set.{Set}
use klunok.Paths.{get_common_parent_path_length}
use klunok.System.{System, Errno, tneg_do}
use klunok.Linq.{text_of}
use klunok.Mountinfo.{make_mount}

-- The length behind the next mount.
abbrev pub next_length : Option Text → ℕ → Text → ℕ
next_length none common mount = length mount + 1
next_length (some previous) common mount =
    let n = get_common_parent_path_length previous mount in if ltb n common then n else common

abbrev pub or_null : Option Text → Text
or_null none = []
or_null (some mount) = mount

module _ (sys : System)
    -- `fanotify_mark` of a mount for some events
    (fanotify_mark : ℕ → Text → sys.State → Option Errno × sys.State) where
  abbrev pub Watched : Type 0
  Watched = Option ℕ × Set × sys.State × Host

  abbrev pub mark_made :
      ℕ → Option Text × Set × sys.State × Host → Option Text × Set × sys.State × Host
  mark_made events (mount, mounts, s, h) =
      let (s', h') = tneg_do sys (fanotify_mark events (or_null mount)) s h in
      (mount, mounts, s', h')

  -- A mount that is watched, if it can be.
  abbrev pub watch : ℕ → Text → Set → sys.State → Host → Option Text × Set × sys.State × Host
  watch events path mounts s h = mark_made events (make_mount sys path mounts s h)

  abbrev pub refuse_mount : Text → Host → Host
  refuse_mount path h = throw_static main_mount_cannot_watch (throw_context path h)

  -- A round of the loop over the write mounts behind the call of `fanotify_mark`; there is a mount if
  -- there is no error.
  abbrev pub write_round :
      (Option Text → ℕ → Set → sys.State → Host → Watched)
      → Text
      → Option Text
      → ℕ
      → Option Text × Set × sys.State × Host
      → Watched
  write_round again path previous common (none, mounts, s, h) =
      (none, mounts, s, refuse_mount path h)
  write_round again path previous common (some mount, mounts, s, h) =
      let rest = again (some mount) (next_length previous common mount) mounts s h in
      if ok h then rest else (none, mounts, s, refuse_mount path h)

  -- The loop over the write mounts; no length means an exit.
  unfoldable pub watch_writes : ℕ → List Text → Option Text → ℕ → Set → sys.State → Host → Watched
  watch_writes events [] previous common mounts s h = (some common, mounts, s, h)
  watch_writes events (path ∷ paths) previous common mounts s h =
      write_round (watch_writes events paths) path previous common (watch events path mounts s h)

  abbrev pub exec_round :
      (Set → sys.State → Host → Bool × sys.State × Host)
      → Text
      → Option Text × Set × sys.State × Host
      → Bool × sys.State × Host
  exec_round again path (mount, mounts, s, h) =
      let rest = again mounts s h in if ok h then rest else (false, s, refuse_mount path h)

  -- The loop over the mounts whose programs are watched.
  unfoldable pub watch_execs : ℕ → List Text → Set → sys.State → Host → Bool × sys.State × Host
  watch_execs events [] mounts s h = (true, s, h)
  watch_execs events (path ∷ paths) mounts s h =
      exec_round (watch_execs events paths) path (watch events path mounts s h)
