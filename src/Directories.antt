-- ===== src/Directories.antt =====
-- `create_parents` and `remove_empty_parents` of src/parents.c. `strchr` goes on over the bytes
-- behind a slash, and `strrchr` back over those before one: `done` is the path up to there.
pub mod Lineage
pub mod Steps
pub mod Tree
use klunok.Prelude.{ℕ, [], ◌∷◌, ◌++◌, Option, none, some, Text, ◌==◌, not, if◌then◌else◌}
use klunok.Trace.{Host, ok, tnull_malloc, throw_context, throw_static}
use klunok.Messages.{parents_cannot_create_ancestor, parents_cannot_remove_ancestor}
use klunok.System.{System, Errno, enoent, eexist, eacces, enotempty, epipe, other, throw_errno}
use mathlib.Core.List.{reverse}

module _ (sys : System) where
  abbrev pub stop : Errno → Text → ℕ → Host → Host
  stop e done message h = throw_static message (throw_context done (throw_errno sys e h))

  -- The body of the loop of `create_parents` behind `mkdir`, with the rest of the loop.
  unfoldable pub made :
      Option Errno × sys.State
      → Text
      → (sys.State → Host → sys.State × Host)
      → Host
      → sys.State × Host
  made (none, s) done rest h = rest s h
  made (some eexist, s) done rest h = rest s h
  made (some e, s) done rest h = (s, stop e done parents_cannot_create_ancestor h)

  unfoldable pub create_from : Text → Text → sys.State → Host → sys.State × Host
  create_from done [] s h = (s, h)
  create_from done (c ∷ t) s h =
      let rest = create_from (done ++ c ∷ []) t in
      if c == b'/' then made (sys.mkdir done s) done rest h else rest s h

  -- A slash that the path starts with is left out.
  abbrev pub create_behind : Text → sys.State → Host → sys.State × Host
  create_behind [] s h = (s, h)
  create_behind (c ∷ t) s h = create_from (c ∷ []) t s h

  unfoldable pub create_parents : Text → sys.State → Host → sys.State × Host
  create_parents path s h =
      let h' = (tnull_malloc h).1 in if not (ok h') then (s, h') else create_behind path s h'

  -- The body of the loop of `remove_empty_parents` behind `rmdir`, with the rest of the loop.
  unfoldable pub removed :
      Option Errno × sys.State
      → Text
      → (sys.State → Host → sys.State × Host)
      → Host
      → sys.State × Host
  removed (none, s) done rest h = rest s h
  removed (some enotempty, s) done rest h = (s, h)
  removed (some e, s) done rest h = (s, stop e done parents_cannot_remove_ancestor h)

  -- Over the bytes of the path, the last one first.
  unfoldable pub remove_back : Text → sys.State → Host → sys.State × Host
  remove_back [] s h = (s, h)
  remove_back (c ∷ []) s h = (s, h)
  remove_back (c ∷ (d ∷ t)) s h =
      let rest = remove_back (d ∷ t) in
      if c == b'/'
      then removed (sys.rmdir (reverse (d ∷ t)) s) (reverse (d ∷ t)) rest h
      else rest s h

  unfoldable pub remove_empty_parents : Text → sys.State → Host → sys.State × Host
  remove_empty_parents path s h =
      let h' = (tnull_malloc h).1 in
      if not (ok h') then (s, h') else remove_back (reverse path) s h'
