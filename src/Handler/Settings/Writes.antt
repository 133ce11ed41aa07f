-- ===== src/Handler/Settings/Writes.antt =====
-- `handle_close_write` of src/handler.c. `load_config` is a parameter, which
-- src/config-static.c and src/config-lua.c implement; `tries` and `entries` bound the loops of
-- `store`.
pub mod Reloads
pub mod Loads
use klunok.Prelude.{
  ℕ, [], ◌∷◌, List, Bool, true, false, ◌&&◌, not, Option, none, some, Text, codes, text_eq,
  if◌then◌else◌,
}
use klunok.Trace.{Host, ok, try, rethrow_context, finally_rethrow_static, tnull_malloc}
use klunok.Messages.{
  handler_config_cannot_load, handler_config_cannot_reload, handler_linq_cannot_load,
  handler_linq_cannot_reload, handler_journal_cannot_open,
}
use klunok.Set.{Set, create_set}
use klunok.Bitmap.{Bitmap, create_bitmap}
use klunok.System.{System, Errno, Answer, fails, gives, tneg_ask}
use klunok.Deref.{deref_fd}
use klunok.Linq.{Linq, push, redebounce}
use klunok.Linq.Load.{load_linq}
use klunok.Journal.{Journal, open_journal}
use klunok.Flusher.{Flusher, FlushRequest, get_request}
use klunok.Flusher.Pipes.{create_flusher, acknowledge}
use klunok.Paths.{behind}
use klunok.Handler.Pushes.{push_to_linq}
use klunok.Handler.Settings.{Settings, Handler, sets_of, journal_context, record_event}
use klunok.Handler.Settings.Versions.Stores.{store}

abbrev pub value_of : Answer (List ℕ) → Option (List ℕ)
value_of (fails e) = none
value_of (gives wire) = some wire

abbrev pub is_fine : Option Errno → Bool
is_fine none = true
is_fine (some e) = false

abbrev pub is_config : Text → Option Text → Bool
is_config file_path none = false
is_config file_path (some config_path) = text_eq file_path config_path

-- `*file_path = '!'`
abbrev pub marked : Text → Text
marked file_path = b'!' ∷ behind file_path

module _ (sys : System)
    (load_config : Option Text → sys.State → Host → Option Settings × sys.State × Host) where
  abbrev pub Handled : Type 0
  Handled = Handler × sys.State × Host

  abbrev pub end_linq_load :
      ℕ → Text → Option Linq × sys.State × Host → Option Linq × sys.State × Host
  end_linq_load message path (linq, s, h) =
      (linq, s, finally_rethrow_static message (rethrow_context path h))

  abbrev pub try_load_linq : ℕ → Settings → sys.State → Host → Option Linq × sys.State × Host
  try_load_linq message config s h = end_linq_load message config.queue_path (
      load_linq sys config.queue_path config.debounce_seconds config.queue_size_guess
        config.path_length_guess s (try h))

  abbrev pub end_journal_open :
      Option Text → Option Journal × sys.State × Host → Option Journal × sys.State × Host
  end_journal_open path (journal, s, h) =
      (journal, s, finally_rethrow_static handler_journal_cannot_open (journal_context path h))

  abbrev pub try_open_journal : Settings → sys.State → Host → Option Journal × sys.State × Host
  try_open_journal config s h =
      end_journal_open config.journal_path
        (open_journal sys config.journal_path config.journal_timestamp_pattern s (try h))

  abbrev pub end_config_load :
      ℕ → Option Text → Option Settings × sys.State × Host → Option Settings × sys.State × Host
  end_config_load message path (config, s, h) =
      (config, s, finally_rethrow_static message (journal_context path h))

  -- A new queue is loaded only if its path is another one.
  abbrev pub reload_linq : Settings → Settings → sys.State → Host → Option Linq × sys.State × Host
  reload_linq config new_config s h =
      let loaded = try_load_linq handler_linq_cannot_reload new_config s h in
      if ok h && not (text_eq config.queue_path new_config.queue_path) then loaded else (none, s, h)

  abbrev pub reload_journal : Settings → sys.State → Host → Option Journal × sys.State × Host
  reload_journal new_config s h =
      let opened = try_open_journal new_config s h in if ok h then opened else (none, s, h)

  abbrev pub close_journal : Option Journal → sys.State → sys.State
  close_journal none s = s
  close_journal (some journal) s = sys.close journal.fd s

  abbrev pub close_linq : Option Linq → sys.State → sys.State
  close_linq none s = s
  close_linq (some linq) s = sys.close linq.dirfd s

  abbrev pub linq_or : Linq → Option Linq → Linq
  linq_or old none = old
  linq_or old (some new) = new

  abbrev pub close_replaced : Option Linq → Linq → sys.State → sys.State
  close_replaced none old s = s
  close_replaced (some new) old s = sys.close old.dirfd s

  -- The last test: what was loaded replaces the old state, or is freed.
  unfoldable pub commit :
      Settings → Option Linq → Option Journal × sys.State × Host → Handler → Handled
  commit new_config new_linq (new_journal, s, h) handler =
      if ok h
      then (
        record handler {
          config = new_config;
          journal = new_journal;
          linq = redebounce new_config.debounce_seconds (linq_or handler.linq new_linq);
        },
        close_replaced new_linq handler.linq (close_journal handler.journal s),
        h,
      )
      else (handler, close_journal new_journal (close_linq new_linq s), h)

  abbrev pub reload_loaded : Option Settings × sys.State × Host → Handler → Handled
  reload_loaded (none, s, h) handler = (handler, s, h)
  reload_loaded (some new_config, s, h) handler =
      let (new_linq, s1, h1) = reload_linq handler.config new_config s h in
      commit new_config new_linq (reload_journal new_config s1 h1) handler

  -- The block for a file that is the configuration.
  unfoldable pub reload : Handler → sys.State → Host → Handled
  reload handler s h =
      reload_loaded
        (end_config_load handler_config_cannot_reload handler.config_path
          (load_config handler.config_path s (try h)))
        handler

  abbrev pub reload_if : Text → Handled → Handled
  reload_if file_path (handler, s, h) =
      let reloaded = reload handler s h in
      if ok h && is_config file_path handler.config_path then reloaded else (handler, s, h)

  abbrev pub record_written : Option Text → ℕ → Text → Handled → Handled
  record_written event pid file_path (handler, s, h) =
      let (s', h') = record_event sys event pid file_path handler s h in (handler, s', h')

  abbrev pub pushed_event : Bool → Settings → Option Text
  pushed_event true config = config.event_close_write_not_ignored
  pushed_event false config = config.event_close_write_ignored

  abbrev pub write_pushed : ℕ → Text → Handler → Bool × Linq × sys.State × Host → Handled
  write_pushed pid file_path handler (pushed, linq, s, h) = reload_if file_path (
      record_written (pushed_event pushed handler.config) pid file_path
        (record handler { linq = linq }, s, h))

  -- A file that no request of its path is about.
  unfoldable pub write_unrequested : ℕ → Text → Handler → sys.State → Host → Handled
  write_unrequested pid file_path handler s h = write_pushed pid file_path handler (
      push_to_linq sys pid file_path handler.common_parent_path_length
        handler.config.ignored_leading_dots (sets_of handler.config) handler.editor_pid_bitmap
        handler.linq s h)

  module _ (tries entries : ℕ) where
    abbrev pub acknowledged : FlushRequest → ℕ → Text → Handler → Linq × sys.State × Host → Handled
    acknowledged request pid file_path handler (linq, s, h) =
        let (flusher, s', h') = acknowledge sys request pid handler.flusher s h in
        record_written handler.config.event_close_write_not_ignored pid file_path
          (record handler { linq = linq; flusher = flusher }, s', h')

    abbrev pub write_stored : FlushRequest → ℕ → Text → Handler → sys.State × Host → Handled
    write_stored request pid file_path handler (s, h) =
        acknowledged request pid file_path handler (push sys (marked file_path) handler.linq s h)

    abbrev pub write_requested :
        ℕ → Text → Handler → Option FlushRequest × Flusher × Host → sys.State → Handled
    write_requested pid file_path handler (request, flusher, h) s =
        let handler' = record handler { flusher = flusher } in
        let rest = write_unrequested pid file_path handler' s h in
        if not (ok h) then (handler', s, h) else elim request [
          | none ↦ rest
          | some r ↦
              write_stored r pid file_path handler'
                (store sys tries entries handler' file_path r.time s h)
        ]

    abbrev pub write_dereferenced : ℕ → Option Text × Host → Handler → sys.State → Handled
    write_dereferenced pid (none, h) handler s = (handler, s, h)
    write_dereferenced pid (some file_path, h) handler s =
        write_requested pid file_path handler
          (get_request file_path
            (value_of (sys.getxattr file_path (codes "user.klunok.flush") 61 s))
            (λ time. is_fine (sys.localtime time s)) handler.flusher h)
          s

    unfoldable pub handle_close_write : ℕ → ℕ → Handler → sys.State → Host → Handled
    handle_close_write pid fd handler s h =
        if not (ok h)
        then (handler, s, h)
        else write_dereferenced pid (deref_fd sys fd handler.config.path_length_guess s h) handler s
