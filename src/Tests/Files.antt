-- ===== src/Tests/Files.antt =====
-- src/parents.c, src/serialize.c and `handle_timeout` of src/handler.c at small inputs.
use klunok.Prelude.{
  [], ℕ, drop, List, ◌∷◌, ◌++◌, true, Option, none, some, Text, codes, ◌≡◌, refl, arith, inl, inr,
  ap, subst, Bool-cases, text_eq_refl,
}
use klunok.Trace.{Host, ok, tnull_malloc}
use klunok.System.{Errno, eexist}
use klunok.Directories.{create_parents, create_from, made, remove_empty_parents}
use klunok.Directories.Lineage.{ancestors}
use klunok.Directories.Steps.{Makes, Removes, create_parents-Makes, remove_empty_parents-Removes}
use klunok.Directories.Tree.{IsTree, create_parents-Exists}
use mathlib.Core.List.{reverse}
use klunok.Tests.{host, host-IsAmple}
use klunok.Tests.Disk.{Disk, disk, has, make_dir}
use klunok.Tests.Queue.{empty_disk}
use klunok.Serialize.{write_u64, write_u64-u64_at}
use klunok.Flusher.{u64_at}

abbrev Stands : Text → Disk → Type 0
Stands p d = has d.dirs p ≡ true

has-more : (ts : List Text) (p q : Text) → has ts q ≡ true → has (p ∷ ts) q ≡ true
unfolding has
has-more ts p q e = rw e (ground arith)

make_dir-kept : (p q : Text) (d : Disk) → Stands q d → Stands q (make_dir p d).1
make_dir-kept p q d w = elim (Bool-cases (has d.dirs p)) [
  | inl e ↦ rw e w
  | inr e ↦ rw e (has-more d.dirs p q w)
]

make_dir-made : (p : Text) (d : Disk) → Stands p (make_dir p d).1
unfolding has
make_dir-made p d = elim (Bool-cases (has d.dirs p)) [
  | inl e ↦ ground (arith, e)
  | inr e ↦ rw (e, text_eq_refl p) refl
]

second :
    (p : Text) (d d' : Disk) (m : Option Errno) → make_dir p d ≡ (m, d') → (make_dir p d).1 ≡ d'
second p d d' m e = ap (λ (r : Option Errno × Disk). r.1) e

disk-IsTree : IsTree disk Stands
disk-IsTree = record {
  created = λ p d d' e. subst (Stands p) (second p d d' none e) (make_dir-made p d);
  found = λ p d d' e. subst (Stands p) (second p d d' (some eexist) e) (make_dir-made p d);
  kept = λ p q d d' m e w. subst (Stands q) (second p d d' m e) (make_dir-kept p q d w);
}

abbrev above : Disk × Host
above = create_parents disk (codes "/v" ++ b'/' ∷ codes "k/x") empty_disk host

create_parents-Exists_example : Stands (codes "/v") above.0
unfolding create_parents create_from made ok tnull_malloc has
create_parents-Exists_example =
    create_parents-Exists disk Stands disk-IsTree host host-IsAmple b'/' (codes "v") (codes "k/x")
      empty_disk refl

create_parents-Makes_example :
    Makes disk host
      (ancestors (codes "/var/klunok/store"))
      empty_disk
      (create_parents disk (codes "/var/klunok/store") empty_disk host)
create_parents-Makes_example =
    create_parents-Makes disk host host-IsAmple (codes "/var/klunok/store") empty_disk

remove_empty_parents-Removes_example :
    Removes disk host
      (reverse (ancestors (codes "/var/klunok/store")))
      empty_disk
      (remove_empty_parents disk (codes "/var/klunok/store") empty_disk host)
remove_empty_parents-Removes_example =
    remove_empty_parents-Removes disk host host-IsAmple (codes "/var/klunok/store") empty_disk

abbrev nine_bytes : List ℕ
nine_bytes = 1 ∷ (2 ∷ (3 ∷ (4 ∷ (5 ∷ (6 ∷ (7 ∷ (8 ∷ (9 ∷ []))))))))

write_u64-u64_at_example :
    (u64_at 0 (write_u64 1000000 nine_bytes) ≡ 1000000)
    × (drop 8 (write_u64 1000000 nine_bytes) ≡ drop 8 nine_bytes)
write_u64-u64_at_example = write_u64-u64_at 1000000 nine_bytes (omega arith) (omega arith)

-- Storing a path makes its ancestors, which is what a copy starts with.
abbrev store_parents : Text → ℕ → Disk → Host → Disk × Host
store_parents p t d h = create_parents disk p d h
