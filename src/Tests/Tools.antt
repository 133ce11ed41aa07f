-- ===== src/Tests/Tools.antt =====
-- src/deref.c, src/journal.c, src/mountinfo.c and src/sync.c at small inputs.
use klunok.Prelude.{
  List, ℕ, [], ◌∷◌, ◌++◌, true, false, some, Text, codes, ◌≡◌, refl, arith, ◌⊎◌, length, take, drop,
}
use klunok.Trace.{ok}
use klunok.Buffer.Cells.{is_nonzero-NonZero}
use klunok.Buffer.Decimal.{decimal, padded, exponent, pow10}
use klunok.Set.{new_set}
use klunok.Set.Valid.{new_set-IsValid}
use klunok.Set.Bag.{new_set-counted}
use klunok.Config.Loads.{are_short-AreShort, Loaded}
use klunok.System.{System, gives}
use klunok.Directories.{create_parents}
use klunok.Deref.{deref_fd}
use klunok.Deref.Whole.{deref_fd-whole}
use klunok.Journal.{Journal, note}
use klunok.Journal.Notes.{line, note-Writing}
use klunok.Mountinfo.{load_mountinfo, make_mount}
use klunok.Mountinfo.Table.{Row, AreRows, table, mount_points, load_mountinfo-Loaded}
use klunok.Mountinfo.Binds.{make_mount-once}
use klunok.Tests.{host, host-IsAmple}
use klunok.Tests.Disk.{Disk, disk, content}
use klunok.Tests.Queue.{empty_disk}
use klunok.Tests.Store.{Writing, Reading, Holding, disk-IsFileStore}

deref_fd-whole_example : deref_fd disk 7 2 empty_disk host ≡ (some (codes "/home/a"), host)
unfolding decimal padded exponent pow10
deref_fd-whole_example =
    deref_fd-whole disk empty_disk host host-IsAmple 7 2 (codes "/home/a") (omega arith)
      (omega arith) refl (omega arith)

abbrev log : Journal
log = record { fd = 3; timestamp_pattern = codes "now" }

abbrev logged : Disk
logged = record empty_disk { file = some (codes "-") }

note-Writing_example :
    (((note disk (some (codes "saved")) 12 (codes "/a") (some log) logged host).1 ≡ host)
      × Writing 3
          (codes "log")
          (codes "-" ++ line (codes "now") (codes "saved") 12 (codes "/a"))
          (note disk (some (codes "saved")) 12 (codes "/a") (some log) logged host).0)
    ⊎ (ok (note disk (some (codes "saved")) 12 (codes "/a") (some log) logged host).1 ≡ false)
unfolding decimal padded exponent pow10
note-Writing_example =
    note-Writing disk Writing Reading Holding disk-IsFileStore host host-IsAmple log (codes "log")
      (codes "-") (codes "saved") (codes "/a") 12 logged refl refl (omega arith) (omega arith)
      (is_nonzero-NonZero (codes "now") refl) (is_nonzero-NonZero (codes "saved") refl)
      (omega arith) (is_nonzero-NonZero (codes "/a") refl) (omega arith)

abbrev rows : List Row
rows =
    record { device = codes "dev"; point = codes "/home"; others = codes "ext4 rw" }
    ∷ (record { device = codes "tmp"; point = codes "/tmp"; others = codes "ram" } ∷ [])

rows-AreRows : AreRows rows
rows-AreRows = (
  record {
    device_word = (refl, (refl, (refl, tt)));
    device_line = (refl, (refl, (refl, tt)));
    point_word = (refl, (refl, (refl, (refl, (refl, tt)))));
    point_line = (refl, (refl, (refl, (refl, (refl, tt)))));
    others_line = (refl, (refl, (refl, (refl, (refl, (refl, (refl, tt)))))));
  },
  (
    record {
      device_word = (refl, (refl, (refl, tt)));
      device_line = (refl, (refl, (refl, tt)));
      point_word = (refl, (refl, (refl, (refl, tt))));
      point_line = (refl, (refl, (refl, (refl, tt))));
      others_line = (refl, (refl, (refl, tt)));
    },
    tt,
  ),
)

abbrev mounted : Disk
mounted = record empty_disk { file = some (table rows) }

load_mountinfo-Loaded_example :
    (Loaded (codes "/home" ∷ (codes "/tmp" ∷ [])) (load_mountinfo disk 99 mounted host).0
      × ((load_mountinfo disk 99 mounted host).2 ≡ host))
    ⊎ (ok (load_mountinfo disk 99 mounted host).2 ≡ false)
load_mountinfo-Loaded_example =
    load_mountinfo-Loaded disk Writing Reading Holding disk-IsFileStore host host-IsAmple 99 64 3
      rows mounted mounted refl (omega arith) refl refl rows-AreRows
      (is_nonzero-NonZero (table rows) refl) (omega arith) (omega arith)
      (are_short-AreShort (mount_points rows) refl) (omega arith) (omega arith)

make_mount-once_example :
    make_mount disk
      (codes "/home")
      (make_mount disk (codes "/home") (new_set 4) empty_disk host).1
      (make_mount disk (codes "/home") (new_set 4) empty_disk host).2
      host
    ≡ (
      some (codes "/home"),
      (make_mount disk (codes "/home") (new_set 4) empty_disk host).1,
      (make_mount disk (codes "/home") (new_set 4) empty_disk host).2,
      host,
    )
make_mount-once_example =
    make_mount-once disk (codes "/home") (codes "/home") host host-IsAmple
      (is_nonzero-NonZero (codes "/home") refl) (omega arith) (new_set 4) empty_disk
      (new_set-IsValid 4 (omega arith) (omega arith))
      (omega (arith, new_set-counted 4 (codes "/home"))) refl refl refl

-- A disk with one file to read, and one to write.
abbrev original : Text
original = codes "abcd"

abbrev copying : System
copying = record disk {
  open_file = λ p d. (gives 6, d);
  file_stat = λ fd d. gives (true, length original);
  sendfile = λ out inp from n d. (
    gives (length (take n (drop from original))),
    record d { file = some (content d.file ++ take n (drop from original)) },
  );
}

abbrev Copy : ℕ → Text → Disk → Type 0
Copy fd t d = d.file ≡ some t

abbrev Source : ℕ → Text → Disk → Type 0
Source fd c d = c ≡ original

abbrev above : Disk
above = (create_parents copying (codes "/k/v1") empty_disk host).0

abbrev created : Disk
created = record above { file = some []; position = 0 }
