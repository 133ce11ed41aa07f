-- ===== src/Handler/Settings/Executions.antt =====
-- `handle_open_exec` of src/handler.c: which processes are editors.
pub mod Editors
use klunok.Prelude.{ℕ, [], Bool, true, false, ◌&&◌, not, Option, none, some, Text, if◌then◌else◌}
use klunok.Trace.{Host, ok}
use klunok.Buffer.{View, create_buffer_view}
use klunok.Set.{Set, add, is_within}
use klunok.Bitmap.{Bitmap, set_bit, unset_bit, get_bit}
use klunok.Paths.{strrchr, from_or, behind}
use klunok.System.{System}
use klunok.Deref.{deref_fd}
use klunok.Elf.{get_elf_interpreter}
use klunok.Handler.Settings.{Handler, record_event}

-- The text behind the last slash.
abbrev pub exe_filename : Text → Text
exe_filename file_path = behind (from_or [] (strrchr b'/' file_path))

abbrev pub unset_unless : ℕ → Option View × Host → Handler → Handler × Host
unset_unless pid (none, h) handler = (handler, h)
unset_unless pid (some file_path_view, h) handler =
    if ok h && not (is_within file_path_view handler.elf_interpreters)
    then (record handler { editor_pid_bitmap = unset_bit pid handler.editor_pid_bitmap }, h)
    else (handler, h)

-- The branch for a program that is no editor.
unfoldable pub run_other : ℕ → Text → Handler → Host → Handler × Host
run_other pid file_path handler h =
    if get_bit pid handler.editor_pid_bitmap
    then unset_unless pid (create_buffer_view file_path h) handler
    else (handler, h)

module _ (sys : System) where
  abbrev pub Handled : Type 0
  Handled = Handler × sys.State × Host

  abbrev pub keep_interpreter : Option Text × sys.State × Host → Handler → Handled
  keep_interpreter (none, s, h) handler = (handler, s, h)
  keep_interpreter (some interpreter, s, h) handler =
      let (elf_interpreters, h') = add interpreter handler.elf_interpreters h in
      (record handler { elf_interpreters = elf_interpreters }, s, h')

  -- The branch for an editor.
  unfoldable pub run_editor : ℕ → ℕ → Handler → sys.State → Host → Handled
  run_editor pid fd handler s h =
      let (editor_pid_bitmap, h') = set_bit pid handler.editor_pid_bitmap h in
      keep_interpreter (get_elf_interpreter sys fd s h')
        (record handler { editor_pid_bitmap = editor_pid_bitmap })

  abbrev pub run_recorded : Option Text → ℕ → Text → Handled → Handled
  run_recorded event pid file_path (handler, s, h) =
      let (s', h') = record_event sys event pid file_path handler s h in (handler, s', h')

  abbrev pub run_viewed : ℕ → ℕ → Text → Option View × Host → Handler → sys.State → Handled
  run_viewed pid fd file_path (none, h) handler s = (handler, s, h)
  run_viewed pid fd file_path (some exe_filename_view, h) handler s =
      let (handler', h') = run_other pid file_path handler h in
      if is_within exe_filename_view handler.config.editors
      then run_recorded handler.config.event_open_exec_editor pid file_path
          (run_editor pid fd handler s h)
      else run_recorded handler.config.event_open_exec_not_editor pid file_path (handler', s, h')

  abbrev pub run_dereferenced : ℕ → ℕ → Option Text × Host → Handler → sys.State → Handled
  run_dereferenced pid fd (none, h) handler s = (handler, s, h)
  run_dereferenced pid fd (some file_path, h) handler s =
      run_viewed pid fd file_path (create_buffer_view (exe_filename file_path) h) handler s

  unfoldable pub handle_open_exec : ℕ → ℕ → Handler → sys.State → Host → Handled
  handle_open_exec pid fd handler s h =
      if not (ok h)
      then (handler, s, h)
      else run_dereferenced pid fd (deref_fd sys fd handler.config.path_length_guess s h) handler s
