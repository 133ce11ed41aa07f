-- ===== src/Handler/Settings/Versions.antt =====
-- `store` of src/handler.c: a version of a file or of a project. `tries` bounds the number of paths
-- in the store that are tried, and `entries` that of the entries of a tree.
pub mod Links
pub mod Projects
pub mod Stores
pub mod Attempts
use klunok.Prelude.{
  ℕ, zero, suc, ◌+◌, [], ◌∷◌, List, Bool, true, false, ◌&&◌, ◌||◌, not, Option, none, some, Text,
  drop, if◌then◌else◌,
}
use klunok.Trace.{Host, ok, try, catch_static, finally, throw_static, throw_context}
use klunok.Messages.{
  handler_version_has_slashes, handler_store_cannot_copy, sync_source_does_not_exist,
  sync_source_is_not_regular_file, sync_source_permission_denied, sync_destination_already_exists,
}
use klunok.Paths.{strchr}
use klunok.System.{System}
use klunok.StorePath.{StorePath, get_current_path, increment}
use klunok.Counter.{write_counter}
use klunok.Timestamp.{get_timestamp}
use klunok.Journal.{name_max}
use klunok.Sync.{sync_file}
use klunok.Handler.{Status, history, is_farther, goes_on, next_slash}
use klunok.Handler.Settings.{Settings}

abbrev pub is_found : Option Text → Bool
is_found none = false
is_found (some rest) = true

-- A version is the base name of a file.
abbrev pub check_version : Option Text × Host → Option Text × Host
check_version (none, h) = (none, h)
check_version (some version, h) =
    if is_found (strchr b'/' version)
    then (none, throw_static handler_version_has_slashes (throw_context version h))
    else (some version, h)

abbrev pub is_history_status : Status → Bool
is_history_status history = true
is_history_status status = false

-- The loop over the sets and their ends, with `farthest_end` and `is_history`.
unfoldable pub judge_history : List (Status × Option ℕ) → Option ℕ → Bool → Bool
judge_history [] farthest is_history = is_history
judge_history (e ∷ es) farthest is_history =
    let rest = judge_history es e.1 (is_history_status e.0) in
    let same = judge_history es farthest is_history in
    if is_farther e.1 farthest then rest else same

-- Unlike in `push_to_linq`, a root may be at the end of the path.
unfoldable pub stored_root_end : Text → Option ℕ → Option ℕ → Option ℕ
stored_root_end path root parent =
    if is_farther parent root && goes_on path parent then next_slash path parent else root

-- What the loop of the copy leaves: whether there is a new version, the event, and the path.
pub record Outcome : Type 0 where
  pub is_stored : Bool
  pub event : Option Text
  pub store_path : StorePath

module _ (sys : System) where
  abbrev pub get_version : ℕ → Settings → sys.State → Host → Option Text × Host
  get_version time config s h =
      check_version (get_timestamp sys time config.version_pattern name_max s h)

  abbrev pub Tried : Type 0
  Tried = Outcome × sys.State × Host

  abbrev pub failed_to : Option Text → StorePath → sys.State → Host → Tried
  failed_to event store_path s h =
      (record { is_stored = false; event = event; store_path = store_path }, s, finally h)

  -- The last branch of the round: no error that is caught.
  abbrev pub count_written : Option Text → StorePath → sys.State × Host → Tried
  count_written event store_path (s, h) =
      (record { is_stored = ok h; event = event; store_path = store_path }, s, finally h)

  -- A round behind the call of `sync_file`, with the offset to keep.
  unfoldable pub settle :
      (StorePath → sys.State → Host → Tried)
      → Settings
      → Text
      → StorePath
      → ℕ × sys.State × Host
      → Tried
  settle again config offset_path store_path (new_offset, s, h) =
      let (missing, h1) = catch_static sync_source_does_not_exist h in
      let (irregular, h2) = catch_static sync_source_is_not_regular_file h in
      let (denied, h3) = catch_static sync_source_permission_denied h in
      let (taken, h4) = catch_static sync_destination_already_exists h in
      let (store_path', h5) = increment store_path (finally h4) in
      if missing
      then failed_to config.event_queue_head_deleted store_path s h1
      else if irregular
      then failed_to config.event_queue_head_deleted store_path s h2
      else if denied
      then failed_to config.event_queue_head_forbidden store_path s h3
      else if taken
      then again store_path' s h5
      else count_written config.event_queue_head_stored store_path
          (write_counter sys offset_path new_offset s h)

  abbrev pub keep_offset : Bool → ℕ × sys.State × Host → ℕ × sys.State × Host
  keep_offset is_history (new_offset, s, h) = (if is_history then new_offset else 0, s, h)

  -- The loop.
  unfoldable pub try_versions :
      ℕ → Settings → Text → Text → Bool → ℕ → StorePath → sys.State → Host → Tried
  try_versions zero config path offset_path is_history offset store_path s h = (
    record { is_stored = false; event = config.event_queue_head_stored; store_path = store_path },
    s,
    h,
  )
  try_versions (suc tries) config path offset_path is_history offset store_path s h =
      let again = try_versions tries config path offset_path is_history offset in
      settle again config offset_path store_path
        (keep_offset is_history (sync_file sys (get_current_path store_path) path offset s (try h)))

  -- What follows on the loop if it fails.
  abbrev pub report_copy : Text → Tried → Tried
  report_copy path (outcome, s, h) =
      if ok h
      then (outcome, s, h)
      else (outcome, s, throw_static handler_store_cannot_copy (throw_context path h))
