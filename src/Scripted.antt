-- ===== src/Scripted.antt =====
-- src/config-lua.c: the configuration of the build with Lua. The interpreter is a parameter: running
-- a chunk of code, and what the globals are then. The code of the chunks is not modelled.
pub mod Globals
use klunok.Prelude.{ℕ, List, [], ◌∷◌, Bool, not, Option, none, some, Text, codes, if◌then◌else◌}
use klunok.Trace.{Host, ok, throw_dynamic, tnull_malloc}
use klunok.Set.{Set, create_set, add}

-- The chunks that are linked in, and the file of the user.
pub data Chunk : Type 0 where
  pre_config post_config : Chunk
  user_config : Text → Chunk

-- Loading and calling a chunk may fail with a message. The other fields read a global by its name:
-- as a text, if it can be one, as a number, and a table by its raw length and its keys.
pub record Lua : Type 1 where
  pub State : Type 0
  pub newstate : Option State
  pub run : Chunk → State → Option Text × State
  pub to_text : Text → State → Option Text
  pub to_integer : Text → State → ℕ
  pub raw_length : Text → State → ℕ
  pub keys : Text → State → List Text

-- A set or a text is `none` for `NULL`.
pub record LuaConfig : Type 0 where
  pub editors : Option Set
  pub project_roots : Option Set
  pub project_parents : Option Set
  pub history_paths : Option Set
  pub excluded_paths : Option Set
  pub included_paths : Option Set
  pub cluded_paths : Option Set
  pub ignored_leading_dots : Option Set
  pub store_root : Option Text
  pub project_store_root : Option Text
  pub unstable_project_store_root : Option Text
  pub queue_path : Option Text
  pub journal_path : Option Text
  pub journal_timestamp_pattern : Option Text
  pub version_pattern : Option Text
  pub working_copy_link_name : Option Text
  pub offset_store_root : Option Text
  pub event_open_exec_not_editor : Option Text
  pub event_open_exec_editor : Option Text
  pub event_close_write_ignored : Option Text
  pub event_close_write_not_ignored : Option Text
  pub event_queue_head_deleted : Option Text
  pub event_queue_head_forbidden : Option Text
  pub event_queue_head_stored : Option Text
  pub debounce_seconds : ℕ
  pub path_length_guess : ℕ
  -- a `pid_t`; `post_config` keeps it below ten million, where narrowing changes nothing
  pub max_pid_guess : ℕ
  pub elf_interpreter_count_guess : ℕ
  pub queue_size_guess : ℕ
  pub flushed_path_count_guess : ℕ

-- The loop of `read_lua_set`.
unfoldable pub add_keys : List Text → Set → Host → Option Set × Host
add_keys [] set h = (some set, h)
add_keys (key ∷ keys) set h =
    let (set', h') = add key set h in
    let rest = add_keys keys set' h' in if not (ok h') then (none, h') else rest

abbrev pub add_keys_to : List Text → Option Set × Host → Option Set × Host
add_keys_to keys (none, h) = (none, h)
add_keys_to keys (some set, h) = add_keys keys set h

abbrev pub duplicate : Option Text → Host → Option Text × Host
duplicate none h = (none, h)
duplicate (some string) h =
    let h' = (tnull_malloc h).1 in if ok h' then (some string, h') else (none, h')

-- The chunks that are run one after the other.
abbrev pub chunks_of : Option Text → List Chunk
chunks_of none = pre_config ∷ (post_config ∷ [])
chunks_of (some path) = pre_config ∷ (user_config path ∷ (post_config ∷ []))

module _ (lua : Lua) where
  unfoldable pub read_lua_set : Text → lua.State → Host → Option Set × Host
  read_lua_set name l h =
      if not (ok h)
      then (none, h)
      else add_keys_to (lua.keys name l) (create_set (lua.raw_length name l) h)

  unfoldable pub read_lua_string : Text → lua.State → Host → Option Text × Host
  read_lua_string name l h = if not (ok h) then (none, h) else duplicate (lua.to_text name l) h

  unfoldable pub read_lua_size : Text → lua.State → ℕ
  read_lua_size name l = lua.to_integer name l

  abbrev pub run_behind :
      (lua.State → Host → lua.State × Host) → Option Text × lua.State → Host → lua.State × Host
  run_behind again (some message, l) h = (l, throw_dynamic message h)
  run_behind again (none, l) h = again l h

  unfoldable pub run_chunks : List Chunk → lua.State → Host → lua.State × Host
  run_chunks [] l h = (l, h)
  run_chunks (chunk ∷ chunks) l h = run_behind (run_chunks chunks) (lua.run chunk l) h

  abbrev pub opened_state : Option lua.State → Host → Option lua.State × Host
  opened_state none h = (none, throw_dynamic h.out_of_memory h)
  opened_state (some l) h = (some l, h)

  -- The reads of all globals.
  unfoldable pub load_globals : lua.State → Host → Option LuaConfig × Host
  load_globals l h =
      let (v1, h1) = read_lua_set (codes "editors") l h in
      let (v2, h2) = read_lua_set (codes "project_roots") l h1 in
      let (v3, h3) = read_lua_set (codes "project_parents") l h2 in
      let (v4, h4) = read_lua_set (codes "history_paths") l h3 in
      let (v5, h5) = read_lua_set (codes "excluded_paths") l h4 in
      let (v6, h6) = read_lua_set (codes "included_paths") l h5 in
      let (v7, h7) = read_lua_set (codes "cluded_paths") l h6 in
      let (v8, h8) = read_lua_set (codes "ignored_leading_dots") l h7 in
      let (v9, h9) = read_lua_string (codes "store_root") l h8 in
      let (v10, h10) = read_lua_string (codes "project_store_root") l h9 in
      let (v11, h11) = read_lua_string (codes "unstable_project_store_root") l h10 in
      let (v12, h12) = read_lua_string (codes "queue_path") l h11 in
      let (v13, h13) = read_lua_string (codes "journal_path") l h12 in
      let (v14, h14) = read_lua_string (codes "journal_timestamp_pattern") l h13 in
      let (v15, h15) = read_lua_string (codes "version_pattern") l h14 in
      let (v16, h16) = read_lua_string (codes "working_copy_link_name") l h15 in
      let (v17, h17) = read_lua_string (codes "offset_store_root") l h16 in
      let (v18, h18) = read_lua_string (codes "event_open_exec_not_editor") l h17 in
      let (v19, h19) = read_lua_string (codes "event_open_exec_editor") l h18 in
      let (v20, h20) = read_lua_string (codes "event_close_write_ignored") l h19 in
      let (v21, h21) = read_lua_string (codes "event_close_write_not_ignored") l h20 in
      let (v22, h22) = read_lua_string (codes "event_queue_head_deleted") l h21 in
      let (v23, h23) = read_lua_string (codes "event_queue_head_forbidden") l h22 in
      let (v24, h24) = read_lua_string (codes "event_queue_head_stored") l h23 in
      if not (ok h24) then (none, h24) else (
        some (record {
          editors = v1;
          project_roots = v2;
          project_parents = v3;
          history_paths = v4;
          excluded_paths = v5;
          included_paths = v6;
          cluded_paths = v7;
          ignored_leading_dots = v8;
          store_root = v9;
          project_store_root = v10;
          unstable_project_store_root = v11;
          queue_path = v12;
          journal_path = v13;
          journal_timestamp_pattern = v14;
          version_pattern = v15;
          working_copy_link_name = v16;
          offset_store_root = v17;
          event_open_exec_not_editor = v18;
          event_open_exec_editor = v19;
          event_close_write_ignored = v20;
          event_close_write_not_ignored = v21;
          event_queue_head_deleted = v22;
          event_queue_head_forbidden = v23;
          event_queue_head_stored = v24;
          debounce_seconds = read_lua_size (codes "debounce_seconds") l;
          path_length_guess = read_lua_size (codes "path_length_guess") l;
          max_pid_guess = read_lua_size (codes "max_pid_guess") l;
          elf_interpreter_count_guess = read_lua_size (codes "elf_interpreter_count_guess") l;
          queue_size_guess = read_lua_size (codes "queue_size_guess") l;
          flushed_path_count_guess = read_lua_size (codes "flushed_path_count_guess") l;
        }),
        h24,
      )

  abbrev pub load_run : lua.State × Host → Option LuaConfig × Host
  load_run (l, h) = load_globals l h

  abbrev pub load_opened : Option Text → Option lua.State × Host → Option LuaConfig × Host
  load_opened path (none, h) = (none, h)
  load_opened path (some l, h) = load_run (run_chunks (chunks_of path) l h)

  unfoldable pub load_config : Option Text → Host → Option LuaConfig × Host
  load_config path h =
      let h' = (tnull_malloc h).1 in
      if not (ok h') then (none, h') else load_opened path (opened_state lua.newstate h')
