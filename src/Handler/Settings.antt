-- ===== src/Handler/Settings.antt =====
-- The state of src/handler.c, and what it reads from a configuration: the functions of inc/config.h,
-- which both src/config-static.c and src/config-lua.c implement. A path or an event that may be
-- `NULL` is an option.
pub mod Executions
pub mod Versions
pub mod Writes
use klunok.Prelude.{ℕ, [], ◌∷◌, List, Bool, true, false, Option, none, some, Text, if◌then◌else◌}
use klunok.Trace.{Host, ok, try, rethrow_context, finally_rethrow_static}
use klunok.Messages.{handler_journal_cannot_write_to}
use klunok.Set.{Set}
use klunok.Bitmap.{Bitmap}
use klunok.Flusher.{Flusher}
use klunok.System.{System}
use klunok.Linq.{Linq}
use klunok.Journal.{Journal, note}

pub record Settings : Type 0 where
  pub editors : Set
  pub project_roots : Set
  pub project_parents : Set
  pub history_paths : Set
  pub excluded_paths : Set
  pub included_paths : Set
  pub cluded_paths : Set
  pub ignored_leading_dots : Set
  pub store_root : Text
  pub project_store_root : Text
  pub unstable_project_store_root : Text
  pub queue_path : Text
  pub journal_path : Option Text
  pub offset_store_root : Text
  pub journal_timestamp_pattern : Text
  pub version_pattern : Text
  pub working_copy_link_name : Text
  pub debounce_seconds : ℕ
  pub path_length_guess : ℕ
  pub elf_interpreter_count_guess : ℕ
  pub queue_size_guess : ℕ
  pub flushed_path_count_guess : ℕ
  -- a `pid_t`; `post_config` keeps it below ten million, far below its bound
  pub max_pid_guess : ℕ
  pub event_open_exec_not_editor : Option Text
  pub event_open_exec_editor : Option Text
  pub event_close_write_ignored : Option Text
  pub event_close_write_not_ignored : Option Text
  pub event_queue_head_deleted : Option Text
  pub event_queue_head_forbidden : Option Text
  pub event_queue_head_stored : Option Text

pub record Handler : Type 0 where
  pub config_path : Option Text
  pub common_parent_path_length : ℕ
  pub config : Settings
  pub journal : Option Journal
  pub linq : Linq
  pub editor_pid_bitmap : Bitmap
  pub elf_interpreters : Set
  pub flusher : Flusher

-- The array `sets`, in the order of the statuses.
abbrev pub sets_of : Settings → List Set
sets_of c =
    c.cluded_paths
    ∷ (c.included_paths
        ∷ (c.excluded_paths ∷ (c.history_paths ∷ (c.project_roots ∷ (c.project_parents ∷ [])))))

-- The context of a path that may be null. `note` and `open_journal` do not fail without a journal,
-- so that `rethrow_context` does nothing with its null path.
abbrev pub journal_context : Option Text → Host → Host
journal_context none h = h
journal_context (some path) h = rethrow_context path h

module _ (sys : System) where
  abbrev pub recorded : Option Text → sys.State × Host → sys.State × Host
  recorded journal_path (s, h) =
      (s, finally_rethrow_static handler_journal_cannot_write_to (journal_context journal_path h))

  unfoldable pub record_event :
      Option Text → ℕ → Text → Handler → sys.State → Host → sys.State × Host
  record_event event pid path handler s h =
      if ok h
      then recorded handler.config.journal_path (note sys event pid path handler.journal s (try h))
      else (s, h)
