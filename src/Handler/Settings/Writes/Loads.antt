-- ===== src/Handler/Settings/Writes/Loads.antt =====
-- `load_handler` of src/handler.c.
use klunok.Prelude.{ℕ, not, Option, none, some, Text, if◌then◌else◌}
use klunok.Trace.{Host, ok, try, tnull_malloc}
use klunok.Messages.{handler_config_cannot_load, handler_linq_cannot_load}
use klunok.Set.{Set, create_set}
use klunok.Bitmap.{Bitmap, create_bitmap}
use klunok.System.{System, tneg_ask}
use klunok.Linq.{Linq}
use klunok.Journal.{Journal}
use klunok.Flusher.{Flusher}
use klunok.Flusher.Pipes.{create_flusher}
use klunok.Handler.Settings.{Settings, Handler}
use klunok.Handler.Settings.Writes.{
  close_linq, close_journal, try_load_linq, try_open_journal, end_config_load,
}

module _ (sys : System)
    (load_config : Option Text → sys.State → Host → Option Settings × sys.State × Host) where
  abbrev pub realpath_of : Option Text → sys.State → Host → Option Text × Host
  realpath_of none s h = (none, h)
  realpath_of (some path) s h = tneg_ask sys (sys.realpath path) s h

  abbrev pub Loaded : Type 0
  Loaded = Option Handler × sys.State × Host

  -- The handler is given if every part was made, and what is open is closed if not.
  abbrev pub gather :
      Option Text
      → ℕ
      → Settings
      → Option Flusher
      → Option Set
      → Option Bitmap
      → Option Linq
      → Option Journal × sys.State × Host
      → Loaded
  gather config_path length config (some flusher) (some set) (some bitmap) (some linq)
        (journal, s, h) =
      if not (ok h)
      then (
        none,
        close_linq sys load_config (some linq) (close_journal sys load_config journal s),
        h,
      )
      else (
        some (record {
          config_path = config_path;
          common_parent_path_length = length;
          config = config;
          journal = journal;
          linq = linq;
          editor_pid_bitmap = bitmap;
          elf_interpreters = set;
          flusher = flusher;
        }),
        s,
        h,
      )
  gather config_path length config flusher set bitmap linq (journal, s, h) =
      (none, close_linq sys load_config linq (close_journal sys load_config journal s), h)

  abbrev pub load_parts : Option Text → ℕ → Option Settings × sys.State × Host → Loaded
  load_parts config_path length (none, s, h) = (none, s, h)
  load_parts config_path length (some config, s, h) =
      let (flusher, s1, h1) = create_flusher sys config.flushed_path_count_guess s h in
      let (set, h2) = create_set config.elf_interpreter_count_guess h1 in
      let (bitmap, h3) = create_bitmap config.max_pid_guess h2 in
      let (linq, s2, h4) = try_load_linq sys load_config handler_linq_cannot_load config s1 h3 in
      let parts =
        gather config_path length config flusher set bitmap linq
          (try_open_journal sys load_config config s2 h4) in
      if ok h then parts else (none, s, h)

  abbrev pub load_resolved : Option Text → ℕ → Option Text × Host → sys.State → Loaded
  load_resolved config_path length (resolved, h) s = load_parts resolved length (
      end_config_load sys load_config handler_config_cannot_load config_path
        (load_config config_path s h))

  unfoldable pub load_handler : Option Text → ℕ → sys.State → Host → Loaded
  load_handler config_path common_parent_path_length s h =
      let h1 = (tnull_malloc h).1 in
      let loaded =
        load_resolved config_path common_parent_path_length (realpath_of config_path s (try h1))
          s in
      if not (ok h1) then (none, s, h1) else loaded
