-- ===== src/Tests/Versions.antt =====
-- The loop of `store` of src/handler.c at a small input.
use klunok.Prelude.{ℕ, false, some, Text, codes, ◌≡◌, refl, arith}
use klunok.Trace.{Host, ok, try, tnull_malloc, throw_static, throw_context, finally_catch_all}
use klunok.Messages.{sync_source_does_not_exist}
use klunok.Directories.{
  create_parents, create_from, made, remove_empty_parents, remove_back, removed,
}
use klunok.Sync.{sync_file, clean_up}
use klunok.StorePath.Sequence.{stem_of}
use klunok.Paths.{get_file_extension}
use klunok.Handler.Settings.Versions.{try_versions}
use klunok.Handler.Settings.Versions.Attempts.{
  Attempts, missing, Reached, copy_to, try_versions-Attempts,
}
use klunok.Tests.{host}
use klunok.Tests.Disk.{Disk, disk, has}
use klunok.Tests.Queue.{empty_disk, host-IsReady}
use klunok.Tests.Buffers.{created}
use klunok.Tests.Events.{settings}

abbrev stem : Text
stem = stem_of (codes "store") (codes "a.tar.gz") (codes "v1")

abbrev extension : Text
extension = get_file_extension (codes "a.tar.gz")

abbrev first_try : ℕ × Disk × Host
first_try =
    copy_to disk settings (codes "/a.tar.gz") (codes "o") false 0 stem extension host 0 empty_disk

source_missing : first_try ≡ (0, first_try.1, throw_static sync_source_does_not_exist (try host))
unfolding sync_file clean_up create_parents create_from made remove_empty_parents remove_back
    removed ok try tnull_malloc has get_file_extension throw_static finally_catch_all throw_context
source_missing = refl

abbrev gone :
    Attempts disk settings
      (codes "/a.tar.gz")
      (codes "o")
      false
      0
      stem
      extension
      host
      0
      0
      empty_disk
      false
      (some (codes "deleted"))
      first_try.1
gone = missing 0 0 empty_disk first_try.1 source_missing

try_versions-Attempts_example :
    Reached disk settings
      (codes "/a.tar.gz")
      (codes "o")
      false
      0
      stem
      extension
      host
      0
      false
      (some (codes "deleted"))
      first_try.1
      (try_versions disk 3 settings
        (codes "/a.tar.gz")
        (codes "o")
        false
        0
        created.0
        empty_disk
        host)
try_versions-Attempts_example =
    try_versions-Attempts disk settings (codes "/a.tar.gz") (codes "o") false 0 stem extension host
      host-IsReady 3 0 0 empty_disk first_try.1 false (some (codes "deleted")) created.0 gone
      (omega arith) (omega arith) created.2
