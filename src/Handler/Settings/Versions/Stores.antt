-- ===== src/Handler/Settings/Versions/Stores.antt =====
-- `store` of src/handler.c, and `handle_timeout` with it.
use klunok.Prelude.{
  ℕ, [], ◌∷◌, List, Bool, true, false, ◌&&◌, not, Option, none, some, Text, drop, if◌then◌else◌,
}
use klunok.Trace.{Host, ok}
use klunok.Buffer.{Buffer}
use klunok.Sieve.{SievedPath, sieve}
use klunok.System.{System}
use klunok.Linq.{Linq, Pause, text_of}
use klunok.Counter.{read_counter}
use klunok.StorePath.{StorePath, create_store_path, get_current_path}
use klunok.Building.{Piece, string, char, assemble}
use klunok.Handler.{is_set, goes_on, end_of, statuses}
use klunok.Handler.Timeout.{handle_timeout}
use klunok.Handler.Settings.{Settings, Handler, sets_of, record_event}
use klunok.Handler.Settings.Versions.{
  Tried, judge_history, stored_root_end, get_version, try_versions, report_copy,
}
use klunok.Handler.Settings.Versions.Links.{link_working_copy, link_project}
use klunok.Handler.Settings.Versions.Projects.{store_project}

abbrev pub offset_pieces : Settings → Text → List Piece
offset_pieces config relative_path =
    string config.offset_store_root ∷ (char b'/' ∷ (string relative_path ∷ []))

module _ (sys : System) (tries entries : ℕ) where
  abbrev pub noted : Text → Handler → Option Text × sys.State × Host → sys.State × Host
  noted relative_path handler (event, s, h) = record_event sys event 0 relative_path handler s h

  abbrev pub link_version : Text → Text → Option ℕ → Handler → Tried sys → sys.State × Host
  link_version path relative_path root_end handler (outcome, s, h) =
      let (s1, h1) =
        link_working_copy sys handler.config path relative_path outcome.is_stored s h in
      let (s2, h2) =
        link_project sys handler.config path root_end outcome.is_stored
          (get_current_path outcome.store_path) s1 h1 in
      if ok h then noted relative_path handler (outcome.event, s2, h2) else (s, h)

  -- What follows on the offset.
  abbrev pub copy_version :
      Text
      → Text
      → Option ℕ
      → Bool
      → Handler
      → Option StorePath
      → Text
      → ℕ × sys.State × Host
      → sys.State × Host
  copy_version path relative_path root_end is_history handler none offset_path (offset, s, h) =
      (s, h)
  copy_version path relative_path root_end is_history handler (some store_path) offset_path
        (offset, s, h) =
      let tried =
        report_copy sys path (
          try_versions sys tries handler.config path offset_path is_history offset store_path s
            h) in
      if ok h then link_version path relative_path root_end handler tried else (s, h)

  abbrev pub read_offset : Bool → Text → sys.State → Host → ℕ × sys.State × Host
  read_offset false offset_path s h = (0, s, h)
  read_offset true offset_path s h = read_counter sys offset_path s h

  abbrev pub store_named :
      Text
      → Text
      → Option ℕ
      → Bool
      → Handler
      → Option StorePath
      → Option Buffer × Host
      → sys.State
      → sys.State × Host
  store_named path relative_path root_end is_history handler store_path (offset_path, h) s =
      copy_version path relative_path root_end is_history handler store_path (text_of offset_path)
        (read_offset is_history (text_of offset_path) s h)

  abbrev pub store_created :
      Text
      → Text
      → Option ℕ
      → Bool
      → Handler
      → Option StorePath × Host
      → sys.State
      → sys.State × Host
  store_created path relative_path root_end is_history handler (store_path, h) s =
      store_named path relative_path root_end is_history handler store_path
        (assemble (offset_pieces handler.config relative_path) h) s

  -- The branch for a file.
  unfoldable pub store_file :
      Text → Text → Text → Option ℕ → Bool → Handler → sys.State → Host → sys.State × Host
  store_file path relative_path version root_end is_history handler s h =
      store_created path relative_path root_end is_history handler
        (create_store_path handler.config.store_root relative_path version h) s

  abbrev pub store_sieved :
      Text → Text → Handler → Option SievedPath × Host → sys.State → sys.State × Host
  store_sieved path version handler (none, h) s = (s, h)
  store_sieved path version handler (some sieved, h) s =
      let relative_path = drop handler.common_parent_path_length path in
      let root_end = stored_root_end path (end_of sieved.ends 4) (end_of sieved.ends 5) in
      let is_history = judge_history (statuses sieved.ends) (some 0) false in
      let project = store_project sys tries entries handler.config path version s h in
      let file = store_file path relative_path version root_end is_history handler s h in
      if is_set root_end && not (goes_on path root_end)
      then noted relative_path handler project
      else file

  abbrev pub store_version : Text → Handler → Option Text × Host → sys.State → sys.State × Host
  store_version path handler (none, h) s = (s, h)
  store_version path handler (some version, h) s =
      store_sieved path version handler
        (sieve path handler.common_parent_path_length handler.config.ignored_leading_dots
          (sets_of handler.config) h)
        s

  unfoldable pub store : Handler → Text → ℕ → sys.State → Host → sys.State × Host
  store handler path time s h =
      store_version path handler (get_version sys time handler.config s h) s

  abbrev pub with_linq :
      Handler → Pause × Linq × sys.State × Host → Pause × Handler × sys.State × Host
  with_linq handler (pause, linq, s, h) = (pause, record handler { linq = linq }, s, h)

  unfoldable pub handle_pause : Handler → sys.State → Host → Pause × Handler × sys.State × Host
  handle_pause handler s h = with_linq handler (handle_timeout sys (store handler) handler.linq s h)
