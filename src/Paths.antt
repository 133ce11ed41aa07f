-- ===== src/Paths.antt =====
-- src/extension.c and `get_common_parent_path_length` of src/parents.c: paths as texts.
-- A pointer into a path is the rest of the path from there on.
pub mod Extension
pub mod Ancestors
use klunok.Prelude.{
  ℕ, ◌+◌, ◌-◌, List, [], ◌∷◌, Bool, true, false, ◌&&◌, ◌||◌, not, Option, none, some, Text, ◌==◌,
  leb, if◌then◌else◌, length,
}

-- `strchr`: the text from the first `c` on.
unfoldable pub strchr : ℕ → Text → Option Text
strchr c [] = none
strchr c (x ∷ t) = if x == c then some (x ∷ t) else strchr c t

-- `strrchr`: the text from the last `c` on.
unfoldable pub strrchr : ℕ → Text → Option Text
strrchr c [] = none
strrchr c (x ∷ t) = elim (strrchr c t) [
  | some s ↦ some s
  | none ↦ if x == c then some (x ∷ t) else none
]

abbrev pub from_or : Text → Option Text → Text
from_or d none = d
from_or d (some t) = t

abbrev pub behind : Text → Text
behind [] = []
behind (x ∷ t) = t

-- The search for a dot in the base name; `extension - base_name` is the difference of the lengths.
unfoldable pub extension_in : Text → Text
unfolding strchr
extension_in base_name = elim (strchr b'.' base_name) [
  | none ↦ []
  | some extension ↦
      if leb (length base_name - length extension) 1
      then from_or [] (strchr b'.' (behind extension))
      else extension
]

unfoldable pub get_file_extension : Text → Text
unfolding extension_in strrchr
get_file_extension path = extension_in (from_or path (strrchr b'/' path))

unfoldable pub is_separator : ℕ → Bool
is_separator c = c == 0 || c == b'/'

-- `first[i]` and `second[i]`; the terminator is read at the end.
abbrev pub char_of : Text → ℕ
char_of [] = 0
char_of (c ∷ t) = c

-- The loop at the index `i`, over the rests of the two paths from there on.
unfoldable pub common_from : Text → Text → ℕ → ℕ → ℕ
unfolding is_separator
common_from [] second i result = if is_separator (char_of second) then i + 1 else result
common_from (x ∷ first) [] i result = if is_separator x then i + 1 else result
common_from (x ∷ first) (y ∷ second) i result =
    let both = is_separator x && is_separator y in
    let next = if both then i + 1 else result in
    let more = common_from first second (i + 1) next in
    if both
    then (if x == 0 || y == 0 then i + 1 else more)
    else if not (x == y)
    then result
    else more

-- The loop starts behind the first slash of both.
unfoldable pub get_common_parent_path_length : Text → Text → ℕ
unfolding common_from
get_common_parent_path_length first second = common_from (behind first) (behind second) 1 1
