-- ===== src/Linq/Load.antt =====
-- `load_linq` of src/linq.c: the queue that a directory of links stands for.
use klunok.Prelude.{
  ℕ, ◌+◌, ◌^◌, ◌%◌, List, [], ◌∷◌, Bool, true, ◌&&◌, not, Option, none, some, Text, ◌==◌, ltb,
  if◌then◌else◌, length,
}
use klunok.Trace.{Host, ok, tnull_malloc}
use klunok.Buffer.{size_mod}
use klunok.Set.{Set, add, create_set}
use klunok.System.{System, enoent, Answer, fails, gives, tneg_do, tneg_get, throw_errno}
use klunok.Numerals.{strtol}
use klunok.Directories.{create_parents}
use klunok.Linq.{Linq, slashed, strip_legacy_metadata, read_entry}

-- Names other than `.` and `..`.
unfoldable pub dot_filter : Text → Bool
dot_filter [] = true
dot_filter (a ∷ []) = not (a == b'.')
dot_filter (a ∷ (b ∷ [])) = not (a == b'.' && b == b'.')
dot_filter (a ∷ (b ∷ (c ∷ t))) = true

-- Whether `compare` gives 1: the first number, with its sign, is the greater one.
unfoldable pub compare : Text → Text → Bool
compare first second =
    ltb ((strtol second + 2 ^ 63) % size_mod) ((strtol first + 2 ^ 63) % size_mod)

-- `entries[0]`
unfoldable pub first_number : List Text → ℕ
first_number [] = 0
first_number (entry ∷ entries) = strtol entry

abbrev pub greater : ℕ → ℕ → ℕ
greater m n = if ltb n m then m else n

abbrev pub new_linq : List Text → ℕ → ℕ → ℕ → Set → Linq
new_linq entries debounce_seconds length_guess dirfd set = record {
  dirfd = dirfd;
  debounce_seconds = debounce_seconds;
  length_guess = length_guess;
  head_index = first_number entries;
  size = length entries;
  set = set;
  head_mtime = none;
}

module _ (sys : System) where
  unfoldable pub create_linq_path : Text → sys.State → Host → sys.State × Host
  create_linq_path path s h =
      let (s', h') = create_parents sys path s h in tneg_do sys (sys.mkdir path) s' h'

  abbrev pub enter : Option Text × Host → Set → Set × Host
  enter (none, h) set = (set, h)
  enter (some target, h) set = add (strip_legacy_metadata (slashed target)) set h

  -- The loop over the entries.
  unfoldable pub enter_all : List Text → Linq → sys.State → Set → Host → Set × Host
  enter_all [] l s set h = (set, h)
  enter_all (entry ∷ entries) l s set h =
      let (set', h') = enter (read_entry sys entry l s h) set in
      let rest = enter_all entries l s set' h' in if ok h then rest else (set, h)

  abbrev pub Opened : Type 0
  Opened = Option Linq × sys.State × Host

  abbrev pub close_failed : ℕ → Linq → sys.State → Set × Host → Opened
  close_failed dirfd l s (set, h) =
      if ok h then (some (record l { set = set }), s, h) else (none, sys.close dirfd s, h)

  abbrev pub fill : List Text → ℕ → ℕ → Option ℕ → Option Set × Host → sys.State → Opened
  fill entries debounce_seconds length_guess none (set, h) s = (none, s, h)
  fill entries debounce_seconds length_guess (some dirfd) (none, h) s = (none, sys.close dirfd s, h)
  fill entries debounce_seconds length_guess (some dirfd) (some set, h) s =
      let l = new_linq entries debounce_seconds length_guess dirfd set in
      close_failed dirfd l s (enter_all entries l s set h)

  -- What follows on a directory that was read.
  unfoldable pub open_linq : Text → ℕ → ℕ → ℕ → List Text → sys.State → Host → Opened
  open_linq path debounce_seconds count_guess length_guess entries s h =
      let (dirfd, s', h') = tneg_get sys (sys.opendir path) s (tnull_malloc h).1 in
      fill entries debounce_seconds length_guess dirfd
        (create_set (greater count_guess (length entries)) h') s'

  abbrev pub scanned :
      (sys.State → Host → Opened)
      → (List Text → sys.State → Host → Opened)
      → Answer (List Text)
      → sys.State
      → Host
      → Opened
  scanned missing read (gives entries) s h = read entries s h
  scanned missing read (fails enoent) s h = missing s h
  scanned missing read (fails e) s h = (none, s, throw_errno sys e h)

  -- `load_or_create_linq`, with what it does if there is no directory.
  unfoldable pub load_or_create_linq :
      (sys.State → Host → Opened) → Text → ℕ → ℕ → ℕ → sys.State → Host → Opened
  load_or_create_linq missing path debounce_seconds count_guess length_guess s h =
      if not (ok h)
      then (none, s, h)
      else scanned missing (open_linq path debounce_seconds count_guess length_guess)
          (sys.scandir dot_filter compare path s) s h

  abbrev pub load_created : Text → ℕ → ℕ → ℕ → sys.State → Host → Opened
  load_created = load_or_create_linq (λ s h. (none, s, throw_errno sys enoent h))

  abbrev pub then_load : Text → ℕ → ℕ → ℕ → sys.State × Host → Opened
  then_load path debounce_seconds count_guess length_guess (s, h) =
      load_created path debounce_seconds count_guess length_guess s h

  unfoldable pub load_linq : Text → ℕ → ℕ → ℕ → sys.State → Host → Opened
  load_linq path debounce_seconds count_guess length_guess s h =
      load_or_create_linq
        (λ s' h'.
          then_load path debounce_seconds count_guess length_guess (create_linq_path path s' h'))
        path debounce_seconds count_guess length_guess s h
