-- ===== src/Tests/Events.antt =====
-- src/handler.c, src/flusher.c and src/main.c at small inputs.
use klunok.Prelude.{
  ℕ, ◌+◌, ◌≤◌, List, [], ◌∷◌, Bool, true, false, Option, none, some, Text, codes, ◌≡◌, refl, subst,
  ap, arith, length, replicate, text_eq,
}
use klunok.Trace.{Host, ok, malloc, tnull_malloc}
use klunok.Buffer.{
  create_buffer_view, create_buffer, concat_string, concat_bytes, ensure_capacity, before_nul,
  get_hash, get_length, get_string, hash_loop, hash_step, strncat,
}
use klunok.Buffer.Cells.{is_nonzero-NonZero}
use klunok.Set.{
  Set, new_set, is_within, is_empty, add, insert, find_entry, find, add_with_metadata,
  get_attribute, get_count, matches, modify,
}
use klunok.Paths.{common_from, get_common_parent_path_length, is_separator}
use klunok.Mountinfo.{make_mount}
use klunok.Bitmap.{new_bitmap}
use klunok.System.{System, tneg_ask, tneg_do, Errno, Answer, fails, gives}
use klunok.Linq.{Linq}
use klunok.Flusher.{Flusher}
use klunok.Handler.Settings.{Settings, Handler}
use klunok.Handler.Settings.Writes.{reload}
use klunok.Handler.Settings.Writes.Reloads.{Outcome, reload-Outcome}
use klunok.Main.{watch_writes}
use klunok.Main.Parents.{IsAbsolute}
use klunok.Main.Mounts.{Resolves, AllShare, watch_writes-AllShare}
use klunok.Tests.{host}
use klunok.Tests.Disk.{Disk, disk}
use klunok.Tests.Queue.{empty_disk}

abbrev empty_set : Set
empty_set = new_set 2

abbrev pub settings : Settings
settings = record {
  editors = empty_set;
  project_roots = empty_set;
  project_parents = empty_set;
  history_paths = empty_set;
  excluded_paths = empty_set;
  included_paths = empty_set;
  cluded_paths = empty_set;
  ignored_leading_dots = empty_set;
  store_root = codes "store";
  project_store_root = codes "projects";
  unstable_project_store_root = codes "unstable";
  queue_path = codes "queue";
  journal_path = none;
  offset_store_root = codes "offsets";
  journal_timestamp_pattern = codes "now";
  version_pattern = codes "v1";
  working_copy_link_name = codes "link";
  debounce_seconds = 60;
  path_length_guess = 9;
  elf_interpreter_count_guess = 1;
  queue_size_guess = 1;
  flushed_path_count_guess = 1;
  max_pid_guess = 8;
  event_open_exec_not_editor = none;
  event_open_exec_editor = some (codes "editor");
  event_close_write_ignored = none;
  event_close_write_not_ignored = some (codes "written");
  event_queue_head_deleted = some (codes "deleted");
  event_queue_head_forbidden = some (codes "forbidden");
  event_queue_head_stored = some (codes "stored");
}

abbrev pub flusher : Flusher
flusher = record {
  boot_id = replicate 36 7;
  boot_id_size = 36;
  global_timestamp = 2;
  path_timestamps = empty_set;
  last_pid = 12;
  last_pid_fd = some 8;
}

abbrev queue : Linq
queue = record {
  dirfd = 4;
  debounce_seconds = 60;
  length_guess = 9;
  head_index = 0;
  size = 0;
  set = empty_set;
  head_mtime = none;
}

abbrev handler : Handler
handler = record {
  config_path = some (codes "/etc/klunok");
  common_parent_path_length = 6;
  config = settings;
  journal = none;
  linq = queue;
  editor_pid_bitmap = new_bitmap 8;
  elf_interpreters = empty_set;
  flusher = flusher;
}

-- The new configuration has another place for its queue.
abbrev load_config : Option Text → Disk → Host → Option Settings × Disk × Host
load_config path s h = (some (record settings { queue_path = codes "other" }), s, h)

reload-Outcome_example :
    Outcome disk load_config handler empty_disk host
      (reload disk load_config handler empty_disk host)
reload-Outcome_example =
    reload-Outcome disk load_config (λ path s h e. absurd (ground (arith, e))) handler empty_disk
      host

-- Two mounts below one directory.
abbrev place : Bool → Text
place true = codes "/home/ab"
place false = codes "/home/ac"

abbrev places : System
places = record disk { realpath = λ p d. gives (place (text_eq p (codes "x"))) }

place-IsAbsolute : (b : Bool) → IsAbsolute (place b)
place-IsAbsolute true = record {
  rest = codes "home/ab";
  path_is = refl;
  nonzero = is_nonzero-NonZero (codes "home/ab") refl;
}
place-IsAbsolute false = record {
  rest = codes "home/ac";
  path_is = refl;
  nonzero = is_nonzero-NonZero (codes "home/ac") refl;
}

abbrev answer : Answer Text → Text
answer (fails e) = []
answer (gives t) = t

realpath-IsAbsolute : (path r : Text) (s : Disk) → places.realpath path s ≡ gives r → IsAbsolute r
realpath-IsAbsolute path r s e =
    subst IsAbsolute (ap answer e) (place-IsAbsolute (text_eq path (codes "x")))

abbrev mark : ℕ → Text → Disk → Option Errno × Disk
mark events path d = (none, d)

watch_writes-AllShare_example :
    (first : Text) × (found : List Text) × Resolves places
      (codes "x" ∷ (codes "y" ∷ []))
      (first ∷ found)
    × (6 ≤ length first + 1)
    × AllShare 6 first found
unfolding watch_writes make_mount tneg_ask ok create_buffer_view tnull_malloc is_within is_empty
    tneg_do add create_buffer concat_string concat_bytes ensure_capacity insert find_entry find
    klunok.Set.get_head before_nul get_hash get_length get_string hash_loop hash_step strncat
    common_from get_common_parent_path_length is_separator add_with_metadata get_attribute get_count
    matches modify malloc
watch_writes-AllShare_example =
    watch_writes-AllShare places mark 8 realpath-IsAbsolute (codes "x") (codes "y" ∷ []) 6 empty_set
      empty_disk host refl
