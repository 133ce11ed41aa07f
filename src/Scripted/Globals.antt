-- ===== src/Scripted/Globals.antt =====
-- What `load_config` of src/config-lua.c reads from the globals.
use klunok.Prelude.{
  ◌+◌, ◌*◌, ◌<◌, List, [], ◌∷◌, Option, none, some, Text, codes, ◌≡◌, refl, ap, ◌∙◌, arith, length,
}
use klunok.Trace.{Host}
use klunok.Buffer.{size_mod}
use klunok.Buffer.Append.{tnull_malloc_ample}
use klunok.Buffer.Ample.{IsAmple}
use klunok.Set.{Set, new_set, add, count_mod}
use klunok.Set.Valid.{new_set-IsValid}
use klunok.Set.Bag.{add-same, new_set-counted, create_set-new}
use klunok.Set.Queries.{queries-entry_of}
use klunok.Config.{add_all}
use klunok.Config.Loads.{AreShort, Loaded, add_all_lem}
use klunok.Scripted.{
  Lua, LuaConfig, duplicate, add_keys, chunks_of, read_lua_set, read_lua_string, read_lua_size,
  run_chunks, load_globals, load_run, opened_state, load_opened, load_config,
}

module _ (h : Host) (a : IsAmple h) where
  add_keys-add_all :
      (keys : List Text) (s : Set) → add_keys keys s h ≡ (some (add_all keys s h).0, h)
  unfolding add_keys add_all
  add_keys-add_all [] s = refl
  add_keys-add_all (key ∷ keys) s =
      rw (add-same key s h a, a.fine) (add_keys-add_all keys (add key s h).0)

module _ (lua : Lua) (l : lua.State) (h : Host) (a : IsAmple h) where
  -- A table that fits into a set.
  pub record IsTable (name : Text) : Type 0 where
    pub short : AreShort (lua.keys name l)
    pub few : length (lua.keys name l) < count_mod
    pub small : lua.raw_length name l * 2 + 2 < size_mod

  read_lua_set-Loaded :
      (name : Text)
      → IsTable name
      → ((read_lua_set lua name l h).1 ≡ h) × Loaded (lua.keys name l) (read_lua_set lua name l h).0
  unfolding read_lua_set
  read_lua_set-Loaded name w =
      let n = lua.raw_length name l * 2 + 2 in
      let keys = lua.keys name l in
      let (same, valid, counts) =
        add_all_lem h a keys (new_set n) (new_set-IsValid n (omega arith) w.small) w.short
          (λ u. omega (arith, new_set-counted n u, w.few)) in
      rw
        (
          a.fine,
          create_set-new (lua.raw_length name l) h a w.small,
          add_keys-add_all h a keys (new_set n),
        )
        (
          refl,
          record {
            set = (add_all keys (new_set n) h).0;
            exists = refl;
            valid = valid;
            counts = λ u v r. omega (
              arith,
              (queries-entry_of u v (add_all keys (new_set n) h).0 valid r).0,
              counts u,
              new_set-counted n u,
            );
          },
        )

  read_lua_string_lem : (name : Text) → read_lua_string lua name l h ≡ (lua.to_text name l, h)
  unfolding read_lua_string
  read_lua_string_lem name = rw a.fine (by_text (lua.to_text name l))
    where
      by_text : (t : Option Text) → duplicate t h ≡ (t, h)
      by_text none = refl
      by_text (some t) = rw (tnull_malloc_ample h a.memory, a.fine) refl

  -- Each field is the global of its name: a set counts the keys of the table.
  pub record Read (c : LuaConfig) : Type 0 where
    pub editors : Loaded (lua.keys (codes "editors") l) c.editors
    pub project_roots : Loaded (lua.keys (codes "project_roots") l) c.project_roots
    pub project_parents : Loaded (lua.keys (codes "project_parents") l) c.project_parents
    pub history_paths : Loaded (lua.keys (codes "history_paths") l) c.history_paths
    pub excluded_paths : Loaded (lua.keys (codes "excluded_paths") l) c.excluded_paths
    pub included_paths : Loaded (lua.keys (codes "included_paths") l) c.included_paths
    pub cluded_paths : Loaded (lua.keys (codes "cluded_paths") l) c.cluded_paths
    pub ignored_leading_dots :
        Loaded (lua.keys (codes "ignored_leading_dots") l) c.ignored_leading_dots
    pub store_root : c.store_root ≡ lua.to_text (codes "store_root") l
    pub project_store_root : c.project_store_root ≡ lua.to_text (codes "project_store_root") l
    pub unstable_project_store_root :
        c.unstable_project_store_root ≡ lua.to_text (codes "unstable_project_store_root") l
    pub queue_path : c.queue_path ≡ lua.to_text (codes "queue_path") l
    pub journal_path : c.journal_path ≡ lua.to_text (codes "journal_path") l
    pub journal_timestamp_pattern :
        c.journal_timestamp_pattern ≡ lua.to_text (codes "journal_timestamp_pattern") l
    pub version_pattern : c.version_pattern ≡ lua.to_text (codes "version_pattern") l
    pub working_copy_link_name :
        c.working_copy_link_name ≡ lua.to_text (codes "working_copy_link_name") l
    pub offset_store_root : c.offset_store_root ≡ lua.to_text (codes "offset_store_root") l
    pub event_open_exec_not_editor :
        c.event_open_exec_not_editor ≡ lua.to_text (codes "event_open_exec_not_editor") l
    pub event_open_exec_editor :
        c.event_open_exec_editor ≡ lua.to_text (codes "event_open_exec_editor") l
    pub event_close_write_ignored :
        c.event_close_write_ignored ≡ lua.to_text (codes "event_close_write_ignored") l
    pub event_close_write_not_ignored :
        c.event_close_write_not_ignored ≡ lua.to_text (codes "event_close_write_not_ignored") l
    pub event_queue_head_deleted :
        c.event_queue_head_deleted ≡ lua.to_text (codes "event_queue_head_deleted") l
    pub event_queue_head_forbidden :
        c.event_queue_head_forbidden ≡ lua.to_text (codes "event_queue_head_forbidden") l
    pub event_queue_head_stored :
        c.event_queue_head_stored ≡ lua.to_text (codes "event_queue_head_stored") l
    pub debounce_seconds : c.debounce_seconds ≡ lua.to_integer (codes "debounce_seconds") l
    pub path_length_guess : c.path_length_guess ≡ lua.to_integer (codes "path_length_guess") l
    pub max_pid_guess : c.max_pid_guess ≡ lua.to_integer (codes "max_pid_guess") l
    pub elf_interpreter_count_guess :
        c.elf_interpreter_count_guess ≡ lua.to_integer (codes "elf_interpreter_count_guess") l
    pub queue_size_guess : c.queue_size_guess ≡ lua.to_integer (codes "queue_size_guess") l
    pub flushed_path_count_guess :
        c.flushed_path_count_guess ≡ lua.to_integer (codes "flushed_path_count_guess") l

  load_globals-Read :
      ((name : Text) → IsTable name)
      → (c : LuaConfig) × (load_globals lua l h ≡ (some c, h)) × Read c
  unfolding load_globals read_lua_size
  load_globals-Read tables = (
    record {
      editors = (read_lua_set lua (codes "editors") l h).0;
      project_roots = (read_lua_set lua (codes "project_roots") l h).0;
      project_parents = (read_lua_set lua (codes "project_parents") l h).0;
      history_paths = (read_lua_set lua (codes "history_paths") l h).0;
      excluded_paths = (read_lua_set lua (codes "excluded_paths") l h).0;
      included_paths = (read_lua_set lua (codes "included_paths") l h).0;
      cluded_paths = (read_lua_set lua (codes "cluded_paths") l h).0;
      ignored_leading_dots = (read_lua_set lua (codes "ignored_leading_dots") l h).0;
      store_root = lua.to_text (codes "store_root") l;
      project_store_root = lua.to_text (codes "project_store_root") l;
      unstable_project_store_root = lua.to_text (codes "unstable_project_store_root") l;
      queue_path = lua.to_text (codes "queue_path") l;
      journal_path = lua.to_text (codes "journal_path") l;
      journal_timestamp_pattern = lua.to_text (codes "journal_timestamp_pattern") l;
      version_pattern = lua.to_text (codes "version_pattern") l;
      working_copy_link_name = lua.to_text (codes "working_copy_link_name") l;
      offset_store_root = lua.to_text (codes "offset_store_root") l;
      event_open_exec_not_editor = lua.to_text (codes "event_open_exec_not_editor") l;
      event_open_exec_editor = lua.to_text (codes "event_open_exec_editor") l;
      event_close_write_ignored = lua.to_text (codes "event_close_write_ignored") l;
      event_close_write_not_ignored = lua.to_text (codes "event_close_write_not_ignored") l;
      event_queue_head_deleted = lua.to_text (codes "event_queue_head_deleted") l;
      event_queue_head_forbidden = lua.to_text (codes "event_queue_head_forbidden") l;
      event_queue_head_stored = lua.to_text (codes "event_queue_head_stored") l;
      debounce_seconds = lua.to_integer (codes "debounce_seconds") l;
      path_length_guess = lua.to_integer (codes "path_length_guess") l;
      max_pid_guess = lua.to_integer (codes "max_pid_guess") l;
      elf_interpreter_count_guess = lua.to_integer (codes "elf_interpreter_count_guess") l;
      queue_size_guess = lua.to_integer (codes "queue_size_guess") l;
      flushed_path_count_guess = lua.to_integer (codes "flushed_path_count_guess") l;
    },
    rw
        (
          load_globals,
          (read_lua_set-Loaded (codes "editors") (tables (codes "editors"))).0,
          (read_lua_set-Loaded (codes "project_roots") (tables (codes "project_roots"))).0,
          (read_lua_set-Loaded (codes "project_parents") (tables (codes "project_parents"))).0,
          (read_lua_set-Loaded (codes "history_paths") (tables (codes "history_paths"))).0,
          (read_lua_set-Loaded (codes "excluded_paths") (tables (codes "excluded_paths"))).0,
          (read_lua_set-Loaded (codes "included_paths") (tables (codes "included_paths"))).0,
          (read_lua_set-Loaded (codes "cluded_paths") (tables (codes "cluded_paths"))).0,
          (read_lua_set-Loaded (codes "ignored_leading_dots")
              (tables (codes "ignored_leading_dots"))).0,
          read_lua_string_lem (codes "store_root"),
          read_lua_string_lem (codes "project_store_root"),
          read_lua_string_lem (codes "unstable_project_store_root"),
          read_lua_string_lem (codes "queue_path"),
          read_lua_string_lem (codes "journal_path"),
          read_lua_string_lem (codes "journal_timestamp_pattern"),
          read_lua_string_lem (codes "version_pattern"),
          read_lua_string_lem (codes "working_copy_link_name"),
          read_lua_string_lem (codes "offset_store_root"),
          read_lua_string_lem (codes "event_open_exec_not_editor"),
          read_lua_string_lem (codes "event_open_exec_editor"),
          read_lua_string_lem (codes "event_close_write_ignored"),
          read_lua_string_lem (codes "event_close_write_not_ignored"),
          read_lua_string_lem (codes "event_queue_head_deleted"),
          read_lua_string_lem (codes "event_queue_head_forbidden"),
          read_lua_string_lem (codes "event_queue_head_stored"),
          a.fine,
        )
        refl,
    record {
      editors = (read_lua_set-Loaded (codes "editors") (tables (codes "editors"))).1;
      project_roots =
          (read_lua_set-Loaded (codes "project_roots") (tables (codes "project_roots"))).1;
      project_parents =
          (read_lua_set-Loaded (codes "project_parents") (tables (codes "project_parents"))).1;
      history_paths =
          (read_lua_set-Loaded (codes "history_paths") (tables (codes "history_paths"))).1;
      excluded_paths =
          (read_lua_set-Loaded (codes "excluded_paths") (tables (codes "excluded_paths"))).1;
      included_paths =
          (read_lua_set-Loaded (codes "included_paths") (tables (codes "included_paths"))).1;
      cluded_paths = (read_lua_set-Loaded (codes "cluded_paths") (tables (codes "cluded_paths"))).1;
      ignored_leading_dots =
          (read_lua_set-Loaded (codes "ignored_leading_dots")
            (tables (codes "ignored_leading_dots"))).1;
      store_root = refl;
      project_store_root = refl;
      unstable_project_store_root = refl;
      queue_path = refl;
      journal_path = refl;
      journal_timestamp_pattern = refl;
      version_pattern = refl;
      working_copy_link_name = refl;
      offset_store_root = refl;
      event_open_exec_not_editor = refl;
      event_open_exec_editor = refl;
      event_close_write_ignored = refl;
      event_close_write_not_ignored = refl;
      event_queue_head_deleted = refl;
      event_queue_head_forbidden = refl;
      event_queue_head_stored = refl;
      debounce_seconds = refl;
      path_length_guess = refl;
      max_pid_guess = refl;
      elf_interpreter_count_guess = refl;
      queue_size_guess = refl;
      flushed_path_count_guess = refl;
    },
  )

-- With memory left, if the chunks run without an error, `load_config` gives a configuration: each
-- set counts the keys of the global table of its name, and each text and number is the global of
-- its name. The tables fit into sets.
pub load_config-Read :
    (lua : Lua) (path : Option Text) (l0 l : lua.State) (h : Host) (a : IsAmple h)
    → lua.newstate ≡ some l0
    → run_chunks lua (chunks_of path) l0 h ≡ (l, h)
    → ((name : Text) → IsTable lua l h a name)
    → (c : LuaConfig) × (load_config lua path h ≡ (some c, h)) × Read lua l h a c
unfolding load_config
load_config-Read lua path l0 l h a made ran tables =
    let (c, e, w) = load_globals-Read lua l h a tables in
    let started : load_config lua path h ≡ load_opened lua path (opened_state lua lua.newstate h) =
      rw (load_config, tnull_malloc_ample h a.memory, a.fine) refl in
    (
      c,
      started
          ∙ ap (λ (n : Option lua.State). load_opened lua path (opened_state lua n h)) made
          ∙ ap (load_run lua) ran
          ∙ e,
      w,
    )
