-- ===== src/Tests/Queue.antt =====
-- src/linq.c at small inputs.
use klunok.Prelude.{[], ◌∷◌, ◌++◌, false, none, some, Text, codes, ◌≡◌, refl, arith, ◌⊎◌}
use klunok.Trace.{Host, ok}
use klunok.Buffer.Cells.{is_nonzero-NonZero}
use klunok.Buffer.Ample.{IsReady}
use klunok.Set.{new_set}
use klunok.Set.Valid.{new_set-IsValid}
use klunok.Set.Bag.{new_set-counted, occurrences}
use klunok.Linq.{
  Linq, push, pop_head, get_head, read_entry, slashed, is_legacy, strip_legacy_metadata,
}
use klunok.Linq.Entries.{read_entry-whole}
use klunok.Linq.Queue.{Represents, IsTarget, path_in}
use klunok.Linq.Push.{linked, push-Represents}
use klunok.Linq.Pop.{pop_head-Represents}
use klunok.Buffer.Decimal.{decimal}
use klunok.Linq.Head.{Settled, Failed, get_head-Settled}
use klunok.System.{enoent, fails}
use klunok.Tests.{host, host-IsAmple}
use klunok.Tests.Disk.{Disk, disk, link_in, disk-IsLinkStore}

abbrev pub empty_disk : Disk
empty_disk = record { links = []; dirs = []; file = none; position = 0; fds = [] }

abbrev empty_queue : Linq
empty_queue = record {
  dirfd = 4;
  debounce_seconds = 60;
  length_guess = 1;
  head_index = 0;
  size = 0;
  set = new_set 4;
  head_mtime = none;
}

empty-Represents : Represents disk empty_queue empty_disk []
unfolding occurrences
empty-Represents = record {
  links = tt;
  targets = tt;
  size = refl;
  room = omega arith;
  guess = omega arith;
  valid = new_set-IsValid 4 (omega arith) (omega arith);
  counts = new_set-counted 4;
  stamp = tt;
}

pub host-IsReady : IsReady host
host-IsReady = record { ample = host-IsAmple; outside = refl }

abbrev pub name : Text
name = codes "/a"

name-IsTarget : IsTarget name
name-IsTarget = record {
  nonempty = omega arith;
  nonzero = is_nonzero-NonZero name refl;
  short = omega arith;
}

name-clean : path_in name ≡ slashed name
unfolding strip_legacy_metadata is_legacy
name-clean = refl

push-Represents_example :
    (((push disk name empty_queue empty_disk host).2 ≡ host)
      × Represents disk
          (push disk name empty_queue empty_disk host).0
          (push disk name empty_queue empty_disk host).1
          ([] ++ name ∷ []))
    ⊎ ((ok (push disk name empty_queue empty_disk host).2 ≡ false)
        × Represents disk
            (push disk name empty_queue empty_disk host).0
            (push disk name empty_queue empty_disk host).1
            [])
push-Represents_example =
    push-Represents disk disk-IsLinkStore name empty_queue empty_disk [] host host-IsAmple
      empty-Represents name-IsTarget name-clean (omega arith) (omega arith)

abbrev pub pushed : Linq × Disk × Host
pushed = push disk name empty_queue empty_disk host

pub pushed-linked : (pushed.2 ≡ host) × Represents disk pushed.0 pushed.1 (name ∷ [])
unfolding link_in
pushed-linked =
    linked disk disk-IsLinkStore name empty_queue empty_disk [] host host-IsAmple empty-Represents
      name-IsTarget name-clean (omega arith) (omega arith) refl

pop_head-Represents_example :
    (((pop_head disk pushed.0 pushed.1 host).2 ≡ host)
      × Represents disk
          (pop_head disk pushed.0 pushed.1 host).0
          (pop_head disk pushed.0 pushed.1 host).1
          []
      × (disk.link_at pushed.0.dirfd
            (decimal pushed.0.head_index)
            (pop_head disk pushed.0 pushed.1 host).1
          ≡ fails enoent)
      × ((pop_head disk pushed.0 pushed.1 host).0.head_mtime ≡ none))
    ⊎ (ok (pop_head disk pushed.0 pushed.1 host).2 ≡ false)
pop_head-Represents_example =
    pop_head-Represents disk disk-IsLinkStore pushed.0 pushed.1 name [] host host-IsReady
      pushed-linked.1

get_head-Settled_example :
    Settled disk (name ∷ []) host (get_head disk pushed.0 pushed.1 host)
    ⊎ Failed disk (get_head disk pushed.0 pushed.1 host)
get_head-Settled_example =
    get_head-Settled disk disk-IsLinkStore host host-IsReady (name ∷ []) pushed.0 pushed.1
      pushed-linked.1

abbrev one_link : Disk
one_link = record empty_disk { links = (codes "0", codes "/home/user/notes") ∷ [] }

read_entry-whole_example :
    read_entry disk (codes "0") empty_queue one_link host ≡ (some (codes "/home/user/notes"), host)
unfolding link_in
read_entry-whole_example =
    read_entry-whole disk (codes "0") empty_queue one_link host host-IsReady
      (codes "/home/user/notes") refl (omega arith) (omega arith)

abbrev two_links : Disk
two_links = record empty_disk { links = (codes "6", name) ∷ ((codes "7", codes "/b/c") ∷ []) }
