-- ===== src/Handler.antt =====
-- src/handler.c: the decision of `push_to_linq`, which files that were written to go to the queue.
-- An end is an offset into the path; `NULL`, which is below every pointer, is `none`.
pub mod Decisions
pub mod Timeout
pub mod Pushes
pub mod Settings
use klunok.Prelude.{
  ℕ, suc, ◌+◌, ◌-◌, List, [], ◌∷◌, Bool, true, false, ◌&&◌, ◌||◌, not, Option, none, some, Text,
  ◌==◌, ltb, if◌then◌else◌, get_or, drop, take, length,
}
use klunok.Trace.{Host, ok}
use klunok.Set.{Set}
use klunok.Bitmap.{Bitmap, get_bit}
use klunok.Paths.{strchr}
use klunok.Sieve.{SievedPath, sieve}

pub data Status : Type 0 where
  cluded included excluded history project project_parent : Status

-- `first > second` on pointers.
unfoldable pub is_farther : Option ℕ → Option ℕ → Bool
is_farther none second = false
is_farther (some a) none = true
is_farther (some a) (some b) = ltb b a

-- The `switch` on the index of the set.
unfoldable pub judge : Status → Bool → Bool → Bool
judge cluded is_written_by_editor is_pushed = is_written_by_editor
judge included is_written_by_editor is_pushed = true
judge history is_written_by_editor is_pushed = true
judge excluded is_written_by_editor is_pushed = false
judge project is_written_by_editor is_pushed = is_pushed
judge project_parent is_written_by_editor is_pushed = is_pushed

-- The loop over the sets and their ends, with `farthest_end` and `is_pushed`.
unfoldable pub judge_all : Bool → List (Status × Option ℕ) → Option ℕ → Bool → Option ℕ × Bool
judge_all editor [] farthest pushed = (farthest, pushed)
judge_all editor (e ∷ es) farthest pushed =
    let rest = judge_all editor es e.1 (judge e.0 editor pushed) in
    let same = judge_all editor es farthest pushed in if is_farther e.1 farthest then rest else same

abbrev pub end_of : List (Option ℕ) → ℕ → Option ℕ
end_of ends i = get_or ends i none

abbrev pub statuses : List (Option ℕ) → List (Status × Option ℕ)
statuses ends =
    (cluded, end_of ends 0)
    ∷ (included, end_of ends 1)
    ∷ (excluded, end_of ends 2)
    ∷ (history, end_of ends 3)
    ∷ (project, end_of ends 4)
    ∷ (project_parent, end_of ends 5)
    ∷ []

-- `*end`, for an end that is not `NULL`: whether more of the path follows.
abbrev pub goes_on : Text → Option ℕ → Bool
goes_on path none = false
goes_on path (some n) = not (get_or path n 0 == 0)

-- The offset of the first slash behind an end.
abbrev pub next_slash : Text → Option ℕ → Option ℕ
next_slash path none = none
next_slash path (some n) = elim (strchr b'/' (drop (n + 1) path)) [
  | none ↦ none
  | some rest ↦ some (length path - length rest)
]

unfoldable pub project_root_end : Text → Option ℕ → Option ℕ → Option ℕ
project_root_end path root parent =
    if is_farther parent root && goes_on path parent
    then next_slash path parent
    else if goes_on path root
    then root
    else none

abbrev pub is_set : Option ℕ → Bool
is_set none = false
is_set (some n) = true

unfoldable pub is_pushed : Bool → SievedPath → Bool
is_pushed is_written_by_editor sieved =
    (judge_all is_written_by_editor (statuses sieved.ends) sieved.hiding_dot
      (not (is_set sieved.hiding_dot) && is_written_by_editor)).1

-- `push_to_linq` up to the pushes: whether the path is pushed, and up to where the root of its
-- project, if it has one; `none` if sieving failed. The sets are those of the configuration, in the
-- order of the statuses.
unfoldable pub choose_paths :
    ℕ → Text → ℕ → Set → List Set → Bitmap → Host → Option (Bool × Option ℕ) × Host
unfolding is_pushed project_root_end
choose_paths pid path common_parent_path_length ignored_leading_dots sets editor_pids h =
    if not (ok h)
    then (none, h)
    else let (made, h') = sieve path common_parent_path_length ignored_leading_dots sets h in
      elim made [
        | none ↦ (none, h')
        | some s ↦ (
          some (
            is_pushed (get_bit pid editor_pids) s,
            project_root_end path (end_of s.ends 4) (end_of s.ends 5),
          ),
          h',
        )
      ]
