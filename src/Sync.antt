-- ===== src/Sync.antt =====
-- src/sync.c: copies of a file and of a tree. An offset and a size are numbers.
pub mod Cleanup
pub mod Copies
pub mod Tree
use klunok.Prelude.{
  ℕ, zero, suc, ◌+◌, ◌-◌, [], ◌∷◌, ◌++◌, Bool, true, false, ◌&&◌, not, Option, none, some, Text,
  ◌==◌, if◌then◌else◌, length, drop,
}
use klunok.Trace.{
  Host, ok, create_trace, malloc, try, finally_catch_all, throw_static, throw_dynamic, tnull_malloc,
}
use klunok.Messages.{
  sync_source_is_not_regular_file, sync_source_does_not_exist, sync_source_permission_denied,
  sync_destination_already_exists,
}
use klunok.Buffer.{Buffer, get_length, get_string, set_length, concat_string}
use klunok.System.{
  System, Errno, enoent, eexist, eacces, enotempty, epipe, other, Answer, fails, gives, Visit,
  before_directory, after_directory, file, neither, unreadable, tneg_do, tneg_get, throw_errno,
}
use klunok.Directories.{create_parents, remove_empty_parents}
use klunok.Building.{string, char, assemble}

module _ (sys : System) where
  -- A trace of its own, whose errors are dropped.
  abbrev pub remove_apart : Text → sys.State → Host → sys.State × Host
  remove_apart destination s h =
      let (s', k) =
        remove_empty_parents sys destination s (try (record h { trace = create_trace })) in
      (s', record (finally_catch_all k) { trace = h.trace })

  unfoldable pub clean_up : Text → sys.State → Host → sys.State × Host
  clean_up destination s h =
      let (got, h') = malloc h in if got then remove_apart destination s h' else (s, h')

  abbrev pub give_up : Text → sys.State → Host → ℕ × sys.State × Host
  give_up destination s h = let (s', h') = clean_up destination s h in (0, s', h')

  -- The loop of `sendfile`: the offset, and whether it did not fail.
  unfoldable pub send : ℕ → ℕ → ℕ → ℕ → ℕ → sys.State → Host → Option ℕ × sys.State × Host
  send zero out_fd in_fd offset size s h = (some offset, s, h)
  send (suc fuel) out_fd in_fd offset size s h =
      let again = send fuel out_fd in_fd in
      if size == 0
      then (some offset, s, h)
      else elim ((sys.sendfile out_fd in_fd offset size s).0) [
        | fails e ↦ (none, (sys.sendfile out_fd in_fd offset size s).1, throw_errno sys e h)
        | gives n ↦
            if n == 0
            then (some offset, (sys.sendfile out_fd in_fd offset size s).1, h)
            else again (offset + n) (size - n) (sys.sendfile out_fd in_fd offset size s).1 h
      ]

  abbrev pub closed : Text → ℕ → ℕ → Option Errno × sys.State → Host → ℕ × sys.State × Host
  closed destination in_fd offset (none, s) h = (offset, sys.close in_fd s, h)
  closed destination in_fd offset (some e, s) h =
      give_up destination (sys.close in_fd s) (throw_errno sys e h)

  abbrev pub close_both : ℕ → ℕ → sys.State → sys.State
  close_both out_fd in_fd s = sys.close in_fd (sys.close out_fd s)

  abbrev pub sent : Text → ℕ → ℕ → Option ℕ × sys.State × Host → ℕ × sys.State × Host
  sent destination out_fd in_fd (none, s, h) = give_up destination (close_both out_fd in_fd s) h
  sent destination out_fd in_fd (some offset, s, h) =
      closed destination in_fd offset (sys.close_checked out_fd s) h

  abbrev pub copy : Text → ℕ → ℕ → ℕ → Answer (Bool × ℕ) → sys.State → Host → ℕ × sys.State × Host
  copy destination source_offset out_fd in_fd (fails e) s h =
      give_up destination (close_both out_fd in_fd s) (throw_errno sys e h)
  copy destination source_offset out_fd in_fd (gives (false, size)) s h =
      give_up destination (close_both out_fd in_fd s)
        (throw_static sync_source_is_not_regular_file h)
  copy destination source_offset out_fd in_fd (gives (true, size)) s h =
      sent destination out_fd in_fd (send (size + 1) out_fd in_fd source_offset size s h)

  abbrev pub destination_error : Errno → Host → Host
  destination_error eexist h = throw_static sync_destination_already_exists h
  destination_error e h = throw_errno sys e h

  abbrev pub destination_opened : Text → ℕ → ℕ → Answer ℕ × sys.State → Host → ℕ × sys.State × Host
  destination_opened destination source_offset in_fd (fails e, s) h =
      give_up destination (sys.close in_fd s) (destination_error e h)
  destination_opened destination source_offset in_fd (gives out_fd, s) h =
      copy destination source_offset out_fd in_fd (sys.file_stat in_fd s) s h

  abbrev pub source_error : Errno → Host → Host
  source_error enoent h = throw_static sync_source_does_not_exist h
  source_error eacces h = throw_static sync_source_permission_denied h
  source_error e h = throw_errno sys e h

  abbrev pub source_opened : Text → ℕ → Answer ℕ × sys.State → Host → ℕ × sys.State × Host
  source_opened destination source_offset (fails e, s) h = give_up destination s (source_error e h)
  source_opened destination source_offset (gives in_fd, s) h =
      destination_opened destination source_offset in_fd (sys.create_new destination s) h

  abbrev pub sync_behind : Text → Text → ℕ → sys.State × Host → ℕ × sys.State × Host
  sync_behind destination source source_offset (s, h) =
      if not (ok h)
      then give_up destination s h
      else source_opened destination source_offset (sys.open_file source s) h

  unfoldable pub sync_file : Text → Text → ℕ → sys.State → Host → ℕ × sys.State × Host
  sync_file destination source source_offset s h =
      if not (ok h)
      then (0, s, h)
      else sync_behind destination source source_offset (create_parents sys destination s h)
