-- ===== src/Sieve.antt =====
-- src/sieve.c: which sets a path or a directory above it is in, and where.
-- A pointer into the path is its offset, and `NULL` is `none`.
pub mod Texts
pub mod Rounds
use klunok.Prelude.{
  ℕ, ◌+◌, List, [], ◌∷◌, Bool, true, false, ◌&&◌, ◌||◌, not, Option, none, some, Text, ◌==◌, leb,
  ltb, if◌then◌else◌, length, get_or, replicate,
}
use klunok.Trace.{Host, ok, tnull_malloc}
use klunok.Buffer.{View, Buffer, new_buffer, create_buffer, concat_char, set_length, get_length}
use klunok.Paths.{char_of}
use klunok.Set.{Set, is_within}

pub record SievedPath : Type 0 where
  pub ends : List (Option ℕ)
  pub hiding_dot : Option ℕ

-- The locals of the loop.
pub record Walk : Type 0 where
  pub absolute : Buffer
  pub relative : Buffer
  pub segment : Buffer
  pub segment_start : ℕ
  pub sieved : SievedPath
  pub open sieved use *

-- The loop over the sets: those that have one of the two paths are marked with the end.
unfoldable pub mark : View → View → Bool → ℕ → List Set → List (Option ℕ) → List (Option ℕ)
mark absolute relative is_relative next [] ends = ends
mark absolute relative is_relative next (s ∷ sets) [] = []
mark absolute relative is_relative next (s ∷ sets) (e ∷ ends) =
    (if is_within absolute s || (is_relative && is_within relative s) then some next else e)
    ∷ mark absolute relative is_relative next sets ends

-- The three appends of a round.
unfoldable pub append_char : ℕ → Bool → Walk → Host → Walk × Host
append_char c is_relative w h =
    let (a, h1) = concat_char c w.absolute h in
    let (r, h2) = if is_relative then concat_char c w.relative h1 else (w.relative, h1) in
    let (g, h3) = if not (c == b'/') then concat_char c w.segment h2 else (w.segment, h2) in
    (record w { absolute = a; relative = r; segment = g }, h3)

-- `!*next || *next == '/'`
abbrev pub is_end : Text → Bool
is_end rest = char_of rest == 0 || char_of rest == b'/'

unfoldable pub mark_ends : ℕ → Text → Bool → List Set → Walk → Walk
unfolding mark
mark_ends i rest is_relative sets w =
    if is_end rest || i == 0
    then record w {
      sieved = record (w.sieved) {
        ends = mark w.absolute.view w.relative.view is_relative (i + 1) sets w.ends;
      };
    }
    else w

unfoldable pub mark_dot : Text → ℕ → Text → Set → Walk → Walk
mark_dot path i rest ignored w =
    if is_end rest
    then record w {
      segment = set_length 0 w.segment;
      segment_start = i + 2;
      sieved = record (w.sieved) {
        hiding_dot =
            (if not (get_length w.segment.view == 0)
                && (get_or path w.segment_start 0 == b'.' && not (is_within w.segment.view ignored))
              then some w.segment_start
              else w.hiding_dot);
      };
    }
    else w

-- The loop from the index `i` on, over the rest of the path.
unfoldable pub walk : Text → ℕ → Set → List Set → ℕ → Text → Walk → Host → Option Walk × Host
walk path offset ignored sets i [] w h = (some w, h)
walk path offset ignored sets i (c ∷ rest) w h =
    let is_relative = leb offset i in
    let step = append_char c is_relative w h in
    let marked = mark_dot path i rest ignored (mark_ends i rest is_relative sets step.0) in
    let more = walk path offset ignored sets (i + 1) rest marked step.1 in
    if not (ok step.1) then (none, step.1) else more

abbrev pub start : List Set → Walk
start sets = record {
  absolute = new_buffer;
  relative = new_buffer;
  segment = new_buffer;
  segment_start = 1;
  sieved = record { ends = replicate (length sets) none; hiding_dot = none };
}

abbrev pub to_sieved : Option Walk → Option SievedPath
to_sieved none = none
to_sieved (some w) = some w.sieved

-- All five allocations are made before the trace is looked at.
unfoldable pub sieve : Text → ℕ → Set → List Set → Host → Option SievedPath × Host
sieve path offset ignored sets h =
    if not (ok h)
    then (none, h)
    else let h1 = (tnull_malloc (tnull_malloc h).1).1 in
      let h2 = (create_buffer (create_buffer (create_buffer h1).1).1).1 in
      if not (ok h2)
      then (none, h2)
      else let (w, h3) = walk path offset ignored sets 0 path (start sets) h2 in (to_sieved w, h3)
