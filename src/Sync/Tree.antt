-- ===== src/Sync/Tree.antt =====
-- `sync_shallow_tree` of src/sync.c. `fuel` bounds the number of entries that `fts_read` gives.
use klunok.Prelude.{
  ℕ, zero, suc, [], ◌∷◌, not, Option, none, some, Text, ◌==◌, if◌then◌else◌, length, drop,
}
use klunok.Trace.{Host, ok, throw_static, tnull_malloc}
use klunok.Messages.{
  sync_source_does_not_exist, sync_source_permission_denied, sync_destination_already_exists,
}
use klunok.Buffer.{Buffer, get_length, set_length, concat_string}
use klunok.System.{
  System, Errno, enoent, eexist, eacces, Answer, fails, gives, Visit, before_directory,
  after_directory, file, neither, unreadable, tneg_do, tneg_get, throw_errno,
}
use klunok.Directories.{create_parents}
use klunok.Linq.{text_of}
use klunok.Building.{string, char, assemble}
use klunok.Sync.{clean_up}

-- What of the path of an entry is behind the path of the source and a slash.
abbrev pub without_slash : Text → Text
without_slash [] = []
without_slash (c ∷ t) = if c == b'/' then t else c ∷ t

module _ (sys : System) where
  -- The `switch`.
  unfoldable pub visit : Visit → Text → Text → Text → ℕ → sys.State → Host → sys.State × Host
  visit before_directory fts_path relative_path filter_path destination_fd s h =
      if sys.exists filter_path s
      then tneg_do sys (sys.make_dir_at destination_fd relative_path) s h
      else (s, h)
  visit after_directory fts_path relative_path filter_path destination_fd s h =
      if sys.exists filter_path s then (s, h) else tneg_do sys (sys.rmdir fts_path) s h
  visit file fts_path relative_path filter_path destination_fd s h =
      if sys.exists filter_path s
      then tneg_do sys (sys.link_into fts_path destination_fd relative_path) s h
      else tneg_do sys (sys.unlink fts_path) s h
  visit (unreadable e) fts_path relative_path filter_path destination_fd s h =
      (s, throw_errno sys e h)
  visit neither fts_path relative_path filter_path destination_fd s h = (s, h)

  abbrev pub Walked : Type 0
  Walked = sys.State × Host

  -- The body of the loop behind `continue`.
  abbrev pub filter :
      (Buffer → sys.State → Host → Walked)
      → Visit
      → Text
      → Text
      → ℕ
      → ℕ
      → Buffer × Host
      → sys.State
      → Walked
  filter again kind fts_path relative_path root_length destination_fd (b, h) s =
      let (s', h') = visit kind fts_path relative_path (text_of (some b)) destination_fd s h in
      if not (ok h) then (s, h) else again b s' h'

  abbrev pub entry :
      (Buffer → sys.State → Host → Walked)
      → ℕ
      → ℕ
      → ℕ
      → Buffer
      → Answer (Option (Visit × Text)) × sys.State
      → Host
      → Walked
  entry again source_length root_length destination_fd b (fails e, s) h =
      if ok h then (s, throw_errno sys e h) else (s, h)
  entry again source_length root_length destination_fd b (gives none, s) h = (s, h)
  entry again source_length root_length destination_fd b (gives (some (kind, fts_path)), s) h =
      if not (ok h)
      then (s, h)
      else if length (drop source_length fts_path) == 0
      then again b s h
      else filter again kind fts_path (without_slash (drop source_length fts_path)) root_length
          destination_fd
          (concat_string (without_slash (drop source_length fts_path)) (set_length root_length b) h)
          s

  -- The loop of `fts_read`.
  unfoldable pub walk : ℕ → ℕ → ℕ → ℕ → ℕ → Buffer → sys.State → Host → Walked
  walk zero fts source_length root_length destination_fd b s h = (s, h)
  walk (suc fuel) fts source_length root_length destination_fd b s h =
      let again = walk fuel fts source_length root_length destination_fd in
      entry again source_length root_length destination_fd b (sys.fts_read fts s) h

  abbrev pub clean_failed : Text → Walked → Walked
  clean_failed destination (s, h) = if ok h then (s, h) else clean_up sys destination s h

  abbrev pub close_walk : ℕ → ℕ → Walked → Walked
  close_walk fts destination_fd (s, h) = (sys.close destination_fd (sys.fts_close fts s), h)

  -- The loop behind the creation of the filter path; without a buffer nothing is visited, but
  -- `fts_read` is called.
  abbrev pub walk_filtered : ℕ → ℕ → Text → ℕ → Option Buffer × Host → sys.State → Walked
  walk_filtered fuel fts source destination_fd (none, h) s = ((sys.fts_read fts s).1, h)
  walk_filtered fuel fts source destination_fd (some b, h) s =
      walk fuel fts (length source) (get_length b.view) destination_fd b s h

  abbrev pub source_error : Errno → Host → Host
  source_error enoent h = throw_static sync_source_does_not_exist h
  source_error eacces h = throw_static sync_source_permission_denied h
  source_error e h = throw_errno sys e h

  abbrev pub walk_opened : ℕ → Text → Text → Text → ℕ → Answer ℕ × sys.State → Host → Walked
  walk_opened fuel destination source existence_filter_root destination_fd (fails e, s) h =
      clean_up sys destination (sys.close destination_fd s) (source_error e h)
  walk_opened fuel destination source existence_filter_root destination_fd (gives fts, s) h =
      clean_failed destination (
        close_walk fts destination_fd (
          walk_filtered fuel fts source destination_fd
            (assemble (string existence_filter_root ∷ (char b'/' ∷ [])) h) s))

  abbrev pub make_destination : Option Errno × sys.State → Host → Walked
  make_destination (none, s) h = (s, h)
  make_destination (some eexist, s) h = (s, throw_static sync_destination_already_exists h)
  make_destination (some e, s) h = (s, throw_errno sys e h)

  abbrev pub tree_opened : ℕ → Text → Text → Text → Option ℕ × sys.State × Host → Walked
  tree_opened fuel destination source existence_filter_root (none, s, h) =
      clean_up sys destination s h
  tree_opened fuel destination source existence_filter_root (some fd, s, h) =
      let h' = (tnull_malloc h).1 in
      if not (ok h')
      then clean_up sys destination (sys.close fd s) h'
      else walk_opened fuel destination source existence_filter_root fd (sys.fts_open source s) h'

  abbrev pub tree_behind : ℕ → Text → Text → Text → Walked → Walked
  tree_behind fuel destination source existence_filter_root (s, h) =
      let (s', h') = if ok h then make_destination (sys.mkdir destination s) h else (s, h) in
      tree_opened fuel destination source existence_filter_root
        (tneg_get sys (sys.open_file destination) s' h')

  unfoldable pub sync_shallow_tree : ℕ → Text → Text → Text → sys.State → Host → Walked
  sync_shallow_tree fuel destination source existence_filter_root s h =
      tree_behind fuel destination source existence_filter_root (create_parents sys destination s h)
