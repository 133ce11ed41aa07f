-- ===== src/Mountinfo/Points.antt =====
-- The mount points that src/mountinfo.c counts.
use klunok.Prelude.{
  ℕ, zero, suc, ◌+◌, ◌*◌, ◌<◌, List, [], ◌∷◌, ◌++◌, append_assoc, append-nil, false, Option, none,
  some, Text, ◌≡◌, refl, sym, ap, ◌∙◌, arith, length, length-append, ◌⊎◌, inl, inr, codes,
  if◌then◌else◌, subst,
}
use klunok.Trace.{Host, ok}
use klunok.Trace.Errors.{throw_dynamic-Thrown}
use klunok.Buffer.{Buffer, size_mod, new_buffer, concat_string}
use klunok.Buffer.Cells.{NonZero, before_nul_self}
use klunok.Buffer.Contents.{Holds, new_buffer-Holds, Reads-get_string}
use klunok.Buffer.Ample.{IsAmple, string_fits}
use klunok.Set.{Set, count_mod, create_set, new_set, add}
use klunok.Set.Valid.{new_set-IsValid}
use klunok.Set.Bag.{add-same, new_set-counted, create_set-new}
use klunok.Set.Queries.{queries-entry_of}
use klunok.Config.{add_all}
use klunok.Config.Loads.{AreShort, Loaded, add_all_lem}
use klunok.System.{System, Errno, gives, Reply-cases, tneg_ask, tneg_get, throw_errno}
use klunok.Counter.Store.{IsFileStore}
use klunok.Mountinfo.{
  strseps, second_field, add_field, add_records, fill_mounts, count_lines, read_pages, load_records,
  close_proc, read_proc_file, load_mountinfo,
}
use klunok.Linq.{text_of}
use klunok.Buffer.Append.{create_buffer_lem, create_buffer_ample, tnull_malloc_ample}

abbrev with_field : Option Text → List Text → List Text
with_field none rest = rest
with_field (some point) rest = point ∷ rest

-- The second fields of the records.
abbrev pub points : List Text → List Text
points [] = []
points (record' ∷ records) = with_field (second_field (strseps b' ' record')) (points records)

module _ (h : Host) (a : IsAmple h) where
  add_point :
      (f : Option Text) (ts : List Text) (s : Set)
      → ((s' : Set) → add_records ts s' h ≡ add_all (points ts) s' h)
      → (let (s', h') = add_field f s h in
          let rest = add_records ts s' h' in if ok h then rest else (s, h))
        ≡ add_all (with_field f (points ts)) s h
  unfolding add_all
  add_point none ts s ih = rw a.fine (ih s)
  add_point (some point) ts s ih = rw (a.fine, add-same point s h a) (ih (add point s h).0)

  add_records-add_all :
      (records : List Text) (s : Set) → add_records records s h ≡ add_all (points records) s h
  unfolding add_records add_all
  add_records-add_all [] s = refl
  add_records-add_all (t ∷ ts) s =
      add_point (second_field (strseps b' ' t)) ts s (add_records-add_all ts)

  -- The set that `load_mountinfo` makes of a text.
  fill_mounts-Loaded :
      (content : Text)
      → AreShort (points (strseps b'\n' content))
      → length (points (strseps b'\n' content)) < count_mod
      → count_lines content * 2 + 2 < size_mod
      → Loaded
          (points (strseps b'\n' content))
          (fill_mounts content (create_set (count_lines content) h)).0
        × ((fill_mounts content (create_set (count_lines content) h)).1 ≡ h)
  fill_mounts-Loaded content short few small =
      let ts = points (strseps b'\n' content) in
      let n = count_lines content * 2 + 2 in
      let (same, valid, counts) =
        add_all_lem h a ts (new_set n) (new_set-IsValid n (omega arith) small) short
          (λ u. omega (arith, new_set-counted n u, few)) in
      rw
        (
          create_set-new (count_lines content) h a small,
          add_records-add_all (strseps b'\n' content) (new_set n),
          same,
          a.fine,
        )
        (
          record {
            set = (add_all ts (new_set n) h).0;
            exists = refl;
            valid = valid;
            counts = λ u v r. omega (
              arith,
              (queries-entry_of u v (add_all ts (new_set n) h).0 valid r).0,
              counts u,
              new_set-counted n u,
            );
          },
          refl,
        )

NonZero-left : (u t : Text) → NonZero (u ++ t) → NonZero u
NonZero-left [] t w = tt
NonZero-left (c ∷ u) t w = (w.0, NonZero-left u t w.1)

NonZero-right : (u t : Text) → NonZero (u ++ t) → NonZero t
NonZero-right [] t w = w
NonZero-right (c ∷ u) t w = NonZero-right u t w.1

module _ (sys : System) (Writing : ℕ → Text → Text → sys.State → Type 0)
    (Reading : ℕ → Text → sys.State → Type 0) (Holding : Text → Text → sys.State → Type 0)
    (store : IsFileStore sys Writing Reading Holding) (h : Host) (a : IsAmple h) where
  threw : (n : Errno) → ok (throw_errno sys n h) ≡ false
  threw n = (throw_dynamic-Thrown (sys.strerror n) h).fails

  -- The buffer holds the text, or there is an error.
  abbrev Held : Text → Option Buffer × sys.State × Host → Type 0
  Held t r = ((b : Buffer) × (r.0 ≡ some b) × Holds t b × (r.2 ≡ h)) ⊎ (ok r.2 ≡ false)

  read_pages-Held :
      (fuel fd page_size : ℕ) (got t : Text) (b : Buffer) (s : sys.State)
      → 0 < page_size
      → Reading fd t s
      → Holds got b
      → NonZero t
      → (length got + length t + 1) * 2 < size_mod
      → length t < fuel
      → Held (got ++ t) (read_pages sys fuel fd page_size (some b) s h)
  unfolding read_pages tneg_get
  read_pages-Held zero fd page_size got t b s some' w v nz small p = absurd (omega (arith, p))
  read_pages-Held (suc fuel) fd page_size got t b s some' w v nz small p =
      elim (Reply-cases (sys.read fd page_size s)) [
        | inl (n, s', e) ↦ rw (a.fine, e) (inr (threw n))
        | inr ([], s', e) ↦
            let whole : got ++ t ≡ got =
              rw (store.ended t fd page_size s s' w some' e) (append-nil got) in
            rw (a.fine, e, whole) (inl (b, refl, v, refl))
        | inr (c ∷ u, s', e) ↦
            let (rest, split, w') = store.came t (c ∷ u) fd page_size s s' w e in
            let size : length t ≡ length u + length rest + 1 =
              omega (arith, ap (λ (x : Text). length x) split, length-append (c ∷ u) rest) in
            let whole : got ++ t ≡ (got ++ c ∷ u) ++ rest =
              ap (λ (x : Text). got ++ x) split ∙ sym (append_assoc got (c ∷ u) rest) in
            let nz' : NonZero ((c ∷ u) ++ rest) = subst NonZero split nz in
            let page = NonZero-left (c ∷ u) rest nz' in
            let (holds, same) = string_fits got b h v a (c ∷ u) page (omega (arith, small, size)) in
            rw (a.fine, e, before_nul_self (c ∷ u) page, whole, same)
              (read_pages-Held fuel fd page_size (got ++ c ∷ u) rest (concat_string (c ∷ u) b h).0
                s' some' w' holds (NonZero-right (c ∷ u) rest nz')
                (omega (arith, small, size, length-append got (c ∷ u))) (omega (arith, p, size)))
      ]

  load_records-Loaded :
      (t : Text) (r : Option Buffer × sys.State × Host)
      → Held t r
      → AreShort (points (strseps b'\n' t))
      → length (points (strseps b'\n' t)) < count_mod
      → count_lines t * 2 + 2 < size_mod
      → (Loaded (points (strseps b'\n' t)) (load_records sys r).0 × ((load_records sys r).2 ≡ h))
        ⊎ (ok (load_records sys r).2 ≡ false)
  load_records-Loaded t r (inr bad) short few small = rw bad (inr bad)
  load_records-Loaded t r (inl (b, e, v, same)) short few small =
      let text : text_of r.0 ≡ t = rw e (Reads-get_string t b.view v.reads) in
      rw (same, a.fine, text) (inl (fill_mounts-Loaded h a t short few small))

  closed :
      (t : Text) (fd : ℕ) (r : Option Buffer × sys.State × Host)
      → Held t r
      → Held t (close_proc sys (some fd) r)
  closed t fd r w = w

  -- With memory left, `load_mountinfo` counts the second field of each line of the mount table, or
  -- there is an error.
  pub load_mountinfo-points :
      (fuel page_size fd : ℕ) (t : Text) (s s' : sys.State)
      → sys.page_size s ≡ gives page_size
      → 0 < page_size
      → sys.open_file (codes "/proc/self/mounts") s ≡ (gives fd, s')
      → Reading fd t s'
      → NonZero t
      → (length t + 1) * 2 < size_mod
      → length t < fuel
      → AreShort (points (strseps b'\n' t))
      → length (points (strseps b'\n' t)) < count_mod
      → count_lines t * 2 + 2 < size_mod
      → (Loaded (points (strseps b'\n' t)) (load_mountinfo sys fuel s h).0
          × ((load_mountinfo sys fuel s h).2 ≡ h))
        ⊎ (ok (load_mountinfo sys fuel s h).2 ≡ false)
  unfolding load_mountinfo read_proc_file tneg_ask tneg_get
  load_mountinfo-points fuel page_size fd t s s' paged some' opened w nz fits enough short few
        small =
      let made = (create_buffer_lem h).0 (rw (create_buffer_ample h a.memory) a.fine) in
      let read =
        read_pages-Held fuel fd page_size [] t new_buffer s' some' w new_buffer-Holds nz
          (omega (arith, fits)) enough in
      rw
        (
          load_mountinfo,
          read_proc_file,
          tnull_malloc_ample h a.memory,
          a.fine,
          paged,
          a.fine,
          opened,
          tnull_malloc_ample h a.memory,
          made,
          create_buffer_ample h a.memory,
        )
        (load_records-Loaded t
          (close_proc sys (some fd) (read_pages sys fuel fd page_size (some new_buffer) s' h))
          (closed t fd (read_pages sys fuel fd page_size (some new_buffer) s' h) read) short few
          small)
