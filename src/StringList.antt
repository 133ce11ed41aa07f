-- ===== src/StringList.antt =====
-- src/list.c: a linked list of strings. A pointer to an item is the list from that item on, and
-- `NULL` is the empty list.
use klunok.Prelude.{List, [], ◌∷◌, Option, none, some, Text, if◌then◌else◌}
use klunok.Trace.{Host, ok, tnull_malloc}

pub record StringList : Type 0 where
  pub head : List Text

abbrev pub new_list : StringList
new_list = record { head = [] }

unfoldable pub create_list : Host → Option StringList × Host
create_list h = let h' = (tnull_malloc h).1 in if ok h' then (some new_list, h') else (none, h')

-- The second allocation is `strdup`.
unfoldable pub join : Text → StringList → Host → StringList × Host
join head tail h =
    let h' = (tnull_malloc (tnull_malloc h).1).1 in
    if ok h' then (record { head = head ∷ tail.head }, h') else (tail, h')

unfoldable pub peek : StringList → List Text
peek l = l.head

unfoldable pub get_next : List Text → List Text
get_next [] = []
get_next (x ∷ items) = items

unfoldable pub get_value : List Text → Option Text
get_value [] = none
get_value (x ∷ items) = some x
