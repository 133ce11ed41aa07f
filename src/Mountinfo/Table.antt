-- ===== src/Mountinfo/Table.antt =====
-- The mount table as src/mountinfo.c reads it: rows that end in a newline, with a device, a mount
-- point and other fields.
use klunok.Prelude.{
  ℕ, ◌+◌, ◌*◌, ◌<◌, List, [], ◌∷◌, ◌++◌, append_assoc, false, Text, ◌≡◌, refl, sym, ap, ◌∙◌, arith,
  some, subst, length, ◌⊎◌, codes,
}
use klunok.Trace.{Host, ok}
use klunok.Buffer.{size_mod}
use klunok.Buffer.Cells.{NonZero}
use klunok.Buffer.Ample.{IsAmple}
use klunok.Set.{count_mod}
use klunok.Config.Loads.{AreShort, Loaded}
use klunok.System.{System, gives}
use klunok.Counter.Store.{IsFileStore}
use klunok.Mountinfo.{strseps, second_field, count_lines, load_mountinfo}
use klunok.Paths.Extension.{Free}
use klunok.Mountinfo.Points.{points, load_mountinfo-points}

pub record Row : Type 0 where
  pub device : Text
  pub point : Text
  pub others : Text

-- `device point others` and a newline for each row.
abbrev pub table : List Row → Text
table [] = []
table (row ∷ rows) = row.device ++ b' ' ∷ (row.point ++ b' ' ∷ (row.others ++ b'\n' ∷ table rows))

abbrev pub mount_points : List Row → List Text
mount_points [] = []
mount_points (row ∷ rows) = row.point ∷ mount_points rows

-- Neither the device nor the mount point has a space, and no field has a newline.
pub record IsRow (row : Row) : Type 0 where
  pub device_word : Free b' ' row.device
  pub device_line : Free b'\n' row.device
  pub point_word : Free b' ' row.point
  pub point_line : Free b'\n' row.point
  pub others_line : Free b'\n' row.others

abbrev pub AreRows : List Row → Type 0
AreRows [] = Unit {0}
AreRows (row ∷ rows) = IsRow row × AreRows rows

Free-append : (c : ℕ) (u t : Text) → Free c u → Free c t → Free c (u ++ t)
Free-append c [] t v w = w
Free-append c (d ∷ u) t v w = (v.0, Free-append c u t v.1 w)

-- A field, and what is behind its delimiter.
strseps-split : (c : ℕ) (u t : Text) → Free c u → strseps c (u ++ c ∷ t) ≡ u ∷ strseps c t
unfolding strseps
strseps-split c [] t w = ground arith
strseps-split c (d ∷ u) t w = rw (w.0, strseps-split c u t w.1) refl

count_lines-split : (u t : Text) → Free b'\n' u → count_lines (u ++ b'\n' ∷ t) ≡ count_lines t + 1
unfolding count_lines
count_lines-split [] t w = omega arith
count_lines-split (d ∷ u) t w = rw w.0 (omega (arith, count_lines-split u t w.1))

abbrev line : Row → Text
line row = row.device ++ b' ' ∷ (row.point ++ b' ' ∷ row.others)

table-line : (row : Row) (rows : List Row) → table (row ∷ rows) ≡ line row ++ b'\n' ∷ table rows
table-line row rows =
    ap (λ (x : Text). row.device ++ b' ' ∷ x)
      (sym (append_assoc row.point (b' ' ∷ row.others) (b'\n' ∷ table rows)))
    ∙ sym (append_assoc row.device (b' ' ∷ (row.point ++ b' ' ∷ row.others)) (b'\n' ∷ table rows))

line-Free : (row : Row) → IsRow row → Free b'\n' (line row)
line-Free row w =
    Free-append b'\n' row.device (b' ' ∷ (row.point ++ b' ' ∷ row.others)) w.device_line
      (refl, Free-append b'\n' row.point (b' ' ∷ row.others) w.point_line (refl, w.others_line))

-- The fields of a row.
point_of : (row : Row) → IsRow row → second_field (strseps b' ' (line row)) ≡ some row.point
point_of row w = ap second_field (
    strseps-split b' ' row.device (row.point ++ b' ' ∷ row.others) w.device_word
    ∙ ap (λ (x : List Text). row.device ∷ x) (strseps-split b' ' row.point row.others w.point_word))

points-table :
    (rows : List Row) → AreRows rows → points (strseps b'\n' (table rows)) ≡ mount_points rows
unfolding strseps
points-table [] w = refl
points-table (row ∷ rows) w =
    rw
      (
        table-line row rows,
        strseps-split b'\n' (line row) (table rows) (line-Free row w.0),
        point_of row w.0,
      )
      (ap (λ (x : List Text). row.point ∷ x) (points-table rows w.1))

count_lines-table : (rows : List Row) → AreRows rows → count_lines (table rows) ≡ length rows
unfolding count_lines
count_lines-table [] w = refl
count_lines-table (row ∷ rows) w =
    ap count_lines (table-line row rows)
    ∙ count_lines-split (line row) (table rows) (line-Free row w.0)
    ∙ omega (arith, count_lines-table rows w.1)

length-mount_points : (rows : List Row) → length (mount_points rows) ≡ length rows
length-mount_points [] = refl
length-mount_points (row ∷ rows) = omega (arith, length-mount_points rows)

module _ (sys : System) (Writing : ℕ → Text → Text → sys.State → Type 0)
    (Reading : ℕ → Text → sys.State → Type 0) (Holding : Text → Text → sys.State → Type 0)
    (store : IsFileStore sys Writing Reading Holding) (h : Host) (a : IsAmple h) where
  -- With memory left, and if the file is a table of rows, `load_mountinfo` counts the mount points
  -- of the rows, or there is an error.
  pub load_mountinfo-Loaded :
      (fuel page_size fd : ℕ) (rows : List Row) (s s' : sys.State)
      → sys.page_size s ≡ gives page_size
      → 0 < page_size
      → sys.open_file (codes "/proc/self/mounts") s ≡ (gives fd, s')
      → Reading fd (table rows) s'
      → AreRows rows
      → NonZero (table rows)
      → (length (table rows) + 1) * 2 < size_mod
      → length (table rows) < fuel
      → AreShort (mount_points rows)
      → length rows < count_mod
      → length rows * 2 + 2 < size_mod
      → (Loaded (mount_points rows) (load_mountinfo sys fuel s h).0
          × ((load_mountinfo sys fuel s h).2 ≡ h))
        ⊎ (ok (load_mountinfo sys fuel s h).2 ≡ false)
  load_mountinfo-Loaded fuel page_size fd rows s s' paged some' opened w are nz fits enough short
        few small =
      let points_are = points-table rows are in
      subst
        (λ (ts : List Text).
          (Loaded ts (load_mountinfo sys fuel s h).0 × ((load_mountinfo sys fuel s h).2 ≡ h))
          ⊎ (ok (load_mountinfo sys fuel s h).2 ≡ false))
        points_are
        (load_mountinfo-points sys Writing Reading Holding store h a fuel page_size fd (table rows)
          s s' paged some' opened w nz fits enough (rw points_are short)
          (rw points_are (omega (arith, few, length-mount_points rows)))
          (omega (arith, small, count_lines-table rows are)))
