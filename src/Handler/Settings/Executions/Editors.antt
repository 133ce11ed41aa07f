-- ===== src/Handler/Settings/Executions/Editors.antt =====
-- Which processes `handle_open_exec` of src/handler.c takes for editors.
use klunok.Prelude.{ℕ, Bool, ◌&&◌, ◌||◌, Text, ◌==◌, if◌then◌else◌}
use klunok.Buffer.{new_view}
use klunok.Set.{is_within}
use klunok.Bitmap.{Bitmap, get_bit}
use klunok.System.{System}
use klunok.Handler.Settings.{Handler}
use klunok.Handler.Settings.Executions.{exe_filename}

-- Whether a process is taken for an editor once the process `pid` runs a program.
abbrev pub is_editor : Handler → ℕ → Text → ℕ → Bool
is_editor handler pid file_path j =
    if j == pid
    then is_within (new_view (exe_filename file_path)) handler.config.editors
      || (get_bit pid handler.editor_pid_bitmap
          && is_within (new_view file_path) handler.elf_interpreters)
    else get_bit j handler.editor_pid_bitmap
