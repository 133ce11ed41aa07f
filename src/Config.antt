-- ===== src/Config.antt =====
-- src/config-static.c: the configuration of the build without Lua. `free_config` has no counterpart.
pub mod Constants
pub mod Loads
use klunok.Prelude.{
  ℕ, List, [], ◌∷◌, Bool, not, Option, none, some, Text, if◌then◌else◌, length, ◌&&◌,
}
use klunok.Trace.{Host, ok, tnull_malloc, throw_static}
use klunok.Messages.{config_is_static}
use klunok.Params.{is_some}
use klunok.Set.{Set, create_set, add}
use klunok.Config.Constants

-- A set is `none` where it could not be created.
pub record Config : Type 0 where
  pub editors : Option Set
  pub project_roots : Option Set
  pub project_parents : Option Set
  pub history_paths : Option Set
  pub excluded_paths : Option Set
  pub included_paths : Option Set
  pub cluded_paths : Option Set
  pub ignored_leading_dots : Option Set

-- The loop of `load_set`, from some string on.
unfoldable pub add_all : List Text → Set → Host → Set × Host
add_all [] s h = (s, h)
add_all (t ∷ ts) s h =
    let (s', h') = add t s h in let rest = add_all ts s' h' in if ok h then rest else (s, h)

unfoldable pub load_set : List Text → Host → Option Set × Host
unfolding add_all
load_set array h =
    let (made, h') = create_set (length array) h in
    elim made [ none ↦ (none, h') | some s ↦ let (s', h'') = add_all array s h' in (some s', h'') ]

unfoldable pub load_config : Option Text → Host → Option Config × Host
unfolding load_set
load_config path h =
    if ok h && is_some path
    then (none, throw_static config_is_static h)
    else let h0 = (tnull_malloc h).1 in
      if not (ok h0)
      then (none, h0)
      else let (s1, h1) = load_set Constants.editors h0 in
        let (s2, h2) = load_set Constants.project_roots h1 in
        let (s3, h3) = load_set Constants.project_parents h2 in
        let (s4, h4) = load_set Constants.history_paths h3 in
        let (s5, h5) = load_set Constants.excluded_paths h4 in
        let (s6, h6) = load_set Constants.included_paths h5 in
        let (s7, h7) = load_set Constants.cluded_paths h6 in
        let (s8, h8) = load_set Constants.ignored_leading_dots h7 in
        if not (ok h8) then (none, h8) else (
          some (record {
            editors = s1;
            project_roots = s2;
            project_parents = s3;
            history_paths = s4;
            excluded_paths = s5;
            included_paths = s6;
            cluded_paths = s7;
            ignored_leading_dots = s8;
          }),
          h8,
        )

abbrev pub get_editors : Config → Option Set
get_editors c = c.editors

abbrev pub get_project_roots : Config → Option Set
get_project_roots c = c.project_roots

abbrev pub get_project_parents : Config → Option Set
get_project_parents c = c.project_parents

abbrev pub get_history_paths : Config → Option Set
get_history_paths c = c.history_paths

abbrev pub get_excluded_paths : Config → Option Set
get_excluded_paths c = c.excluded_paths

abbrev pub get_included_paths : Config → Option Set
get_included_paths c = c.included_paths

abbrev pub get_cluded_paths : Config → Option Set
get_cluded_paths c = c.cluded_paths

abbrev pub get_ignored_leading_dots : Config → Option Set
get_ignored_leading_dots c = c.ignored_leading_dots

abbrev pub get_store_root : Config → Text
get_store_root config = Constants.store_root

abbrev pub get_project_store_root : Config → Text
get_project_store_root config = Constants.project_store_root

abbrev pub get_unstable_project_store_root : Config → Text
get_unstable_project_store_root config = Constants.unstable_project_store_root

abbrev pub get_queue_path : Config → Text
get_queue_path config = Constants.queue_path

abbrev pub get_journal_path : Config → Text
get_journal_path config = Constants.journal_path

abbrev pub get_journal_timestamp_pattern : Config → Text
get_journal_timestamp_pattern config = Constants.journal_timestamp_pattern

abbrev pub get_version_pattern : Config → Text
get_version_pattern config = Constants.version_pattern

abbrev pub get_working_copy_link_name : Config → Text
get_working_copy_link_name config = Constants.working_copy_link_name

abbrev pub get_offset_store_root : Config → Text
get_offset_store_root config = Constants.offset_store_root

abbrev pub get_debounce_seconds : Config → ℕ
get_debounce_seconds config = Constants.debounce_seconds

abbrev pub get_path_length_guess : Config → ℕ
get_path_length_guess config = Constants.path_length_guess

abbrev pub get_max_pid_guess : Config → ℕ
get_max_pid_guess config = Constants.max_pid_guess

abbrev pub get_elf_interpreter_count_guess : Config → ℕ
get_elf_interpreter_count_guess config = Constants.elf_interpreter_count_guess

abbrev pub get_queue_size_guess : Config → ℕ
get_queue_size_guess config = Constants.queue_size_guess

abbrev pub get_flushed_path_count_guess : Config → ℕ
get_flushed_path_count_guess config = Constants.flushed_path_count_guess

abbrev pub get_event_open_exec_not_editor : Config → Option Text
get_event_open_exec_not_editor config = Constants.event_open_exec_not_editor

abbrev pub get_event_open_exec_editor : Config → Option Text
get_event_open_exec_editor config = Constants.event_open_exec_editor

abbrev pub get_event_close_write_ignored : Config → Option Text
get_event_close_write_ignored config = Constants.event_close_write_ignored

abbrev pub get_event_close_write_not_ignored : Config → Option Text
get_event_close_write_not_ignored config = Constants.event_close_write_not_ignored

abbrev pub get_event_queue_head_deleted : Config → Option Text
get_event_queue_head_deleted config = Constants.event_queue_head_deleted

abbrev pub get_event_queue_head_forbidden : Config → Option Text
get_event_queue_head_forbidden config = Constants.event_queue_head_forbidden

abbrev pub get_event_queue_head_stored : Config → Option Text
get_event_queue_head_stored config = Constants.event_queue_head_stored
