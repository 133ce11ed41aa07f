-- ===== src/Mountinfo.antt =====
-- src/mountinfo.c: the mount points, from a text that has one mount in a line.
pub mod Points
pub mod Binds
pub mod Table
use klunok.Prelude.{
  ℕ, zero, suc, ◌+◌, List, [], ◌∷◌, ◌++◌, Bool, true, false, not, Option, none, some, Text, codes,
  ◌==◌, if◌then◌else◌,
}
use klunok.Trace.{Host, ok, tnull_malloc}
use klunok.Buffer.{Buffer, before_nul, concat_string, create_buffer, create_buffer_view, View}
use klunok.Set.{Set, add, create_set, is_within}
use klunok.System.{System, Answer, tneg_do, tneg_get, tneg_ask}
use klunok.Linq.{text_of}

unfoldable pub count_lines : Text → ℕ
count_lines [] = 0
count_lines (c ∷ t) = (if c == b'\n' then 1 else 0) + count_lines t

abbrev pub cons_first : ℕ → List Text → List Text
cons_first c [] = (c ∷ []) ∷ []
cons_first c (t ∷ ts) = (c ∷ t) ∷ ts

-- What the calls of `strsep` give one after the other, up to the null pointer.
unfoldable pub strseps : ℕ → Text → List Text
strseps delimiter [] = [] ∷ []
strseps delimiter (c ∷ t) =
    let rest = strseps delimiter t in if c == delimiter then [] ∷ rest else cons_first c rest

-- The second field of a record, if it has one.
abbrev pub second_field : List Text → Option Text
second_field [] = none
second_field (device ∷ []) = none
second_field (device ∷ (point ∷ fields)) = some point

abbrev pub add_field : Option Text → Set → Host → Set × Host
add_field none mounts h = (mounts, h)
add_field (some point) mounts h = add point mounts h

-- The loop over the lines.
unfoldable pub add_records : List Text → Set → Host → Set × Host
add_records [] mounts h = (mounts, h)
add_records (record' ∷ records) mounts h =
    let (mounts', h') = add_field (second_field (strseps b' ' record')) mounts h in
    let rest = add_records records mounts' h' in if ok h then rest else (mounts, h)

abbrev pub fill_mounts : Text → Option Set × Host → Option Set × Host
fill_mounts content (none, h) = (none, h)
fill_mounts content (some mounts, h) =
    let (mounts', h') = add_records (strseps b'\n' content) mounts h in
    if ok h' then (some mounts', h') else (none, h')

module _ (sys : System) where
  abbrev pub append_page :
      (Option Buffer → sys.State → Host → Option Buffer × sys.State × Host)
      → Option Buffer
      → Option (List ℕ) × sys.State × Host
      → Option Buffer × sys.State × Host
  append_page again b (none, s, h) = (b, s, h)
  append_page again b (some [], s, h) = (b, s, h)
  append_page again none (some (c ∷ page), s, h) = (none, s, h)
  append_page again (some b) (some (c ∷ page), s, h) =
      let (b', h') = concat_string (before_nul (c ∷ page)) b h in again (some b') s h'

  -- The loop of `read_proc_file`: a page at most in each round.
  unfoldable pub read_pages :
      ℕ → ℕ → ℕ → Option Buffer → sys.State → Host → Option Buffer × sys.State × Host
  read_pages zero fd page_size b s h = (b, s, h)
  read_pages (suc fuel) fd page_size b s h =
      let again = read_pages fuel fd page_size in
      append_page again b (tneg_get sys (sys.read fd page_size) s h)

  abbrev pub close_proc :
      Option ℕ → Option Buffer × sys.State × Host → Option Buffer × sys.State × Host
  close_proc none r = r
  close_proc (some fd) (b, s, h) = (b, sys.close fd s, h)

  abbrev pub or_zero : Option ℕ → ℕ
  or_zero none = 0
  or_zero (some n) = n

  -- `fuel` bounds the number of pages.
  unfoldable pub read_proc_file : ℕ → Text → sys.State → Host → Option Buffer × sys.State × Host
  read_proc_file fuel path s h =
      let (page_size, h1) = tneg_ask sys sys.page_size s h in
      let (fd, s', h2) = tneg_get sys (sys.open_file path) s h1 in
      let (b, h4) = create_buffer (tnull_malloc h2).1 in
      close_proc fd (read_pages fuel (or_zero fd) (or_zero page_size) b s' h4)

  abbrev pub load_records : Option Buffer × sys.State × Host → Option Set × sys.State × Host
  load_records (b, s, h) =
      let (made, h') = create_set (count_lines (text_of b)) h in
      let (mounts, h'') = fill_mounts (text_of b) (made, h') in
      if not (ok h) then (none, s, h) else (mounts, s, h'')

  unfoldable pub load_mountinfo : ℕ → sys.State → Host → Option Set × sys.State × Host
  load_mountinfo fuel s h =
      load_records (read_proc_file fuel (codes "/proc/self/mounts") s (tnull_malloc h).1)

  abbrev pub bind : Text → Set → sys.State × Host → Option Text × Set × sys.State × Host
  bind path mounts (s, h) = let (mounts', h') = add path mounts h in (some path, mounts', s, h')

  abbrev pub mount_unless :
      Text → Option View × Host → Set → sys.State → Option Text × Set × sys.State × Host
  mount_unless path (none, h) mounts s = (none, mounts, s, h)
  mount_unless path (some view, h) mounts s =
      if is_within view mounts
      then (some path, mounts, s, h)
      else bind path mounts (tneg_do sys (sys.bind_mount path) s h)

  abbrev pub mount_resolved :
      Option Text × Host → Set → sys.State → Option Text × Set × sys.State × Host
  mount_resolved (none, h) mounts s = (none, mounts, s, h)
  mount_resolved (some path, h) mounts s = mount_unless path (create_buffer_view path h) mounts s

  unfoldable pub make_mount : Text → Set → sys.State → Host → Option Text × Set × sys.State × Host
  make_mount path mounts s h = mount_resolved (tneg_ask sys (sys.realpath path) s h) mounts s
