-- ===== src/Mountinfo/Binds.antt =====
-- `make_mount` of src/mountinfo.c mounts a path at most once.
use klunok.Prelude.{
  ◌+◌, ◌*◌, ◌<◌, true, false, none, some, Text, ◌≡◌, refl, arith, length, inl, inr, Bool-cases,
  text_eq_refl,
}
use klunok.Trace.{Host}
use klunok.Buffer.{size_mod, new_view}
use klunok.Buffer.Cells.{NonZero}
use klunok.Buffer.Contents.{new_view-Reads}
use klunok.Buffer.Ample.{IsAmple}
use klunok.Set.{Set, count_mod, add, is_within}
use klunok.Set.Valid.{IsValid}
use klunok.Set.Queries.{queries-entry_of}
use klunok.Set.Bag.{counted, add-same, add-Added_ample}
use klunok.System.{System, gives, tneg_ask, tneg_done}
use klunok.Linq.Names.{create_buffer_view_ample}
use klunok.Mountinfo.{make_mount}

module _ (sys : System) (path r : Text) (h : Host) (a : IsAmple h) (nz : NonZero r)
    (short : (length r + 1) * 2 < size_mod) where
  known :
      (mounts : Set) (s : sys.State)
      → sys.realpath path s ≡ gives r
      → is_within (new_view r) mounts ≡ true
      → make_mount sys path mounts s h ≡ (some r, mounts, s, h)
  unfolding make_mount tneg_ask
  known mounts s e within = rw (make_mount, a.fine, e, create_buffer_view_ample h a r, within) refl

  bound :
      (mounts : Set) (s : sys.State)
      → sys.realpath path s ≡ gives r
      → is_within (new_view r) mounts ≡ false
      → (sys.bind_mount r s).0 ≡ none
      → make_mount sys path mounts s h ≡ (some r, (add r mounts h).0, (sys.bind_mount r s).1, h)
  unfolding make_mount tneg_ask
  bound mounts s e within done =
      rw
        (
          make_mount,
          a.fine,
          e,
          create_buffer_view_ample h a r,
          within,
          tneg_done sys (sys.bind_mount r) s h a.fine done,
          add-same r mounts h a,
        )
        refl

  added_within :
      (mounts : Set)
      → IsValid mounts
      → counted mounts r + 1 < count_mod
      → is_within (new_view r) (add r mounts h).0 ≡ true
  added_within mounts w room =
      let (same, d) = add-Added_ample r mounts h a w nz short room in
      let q =
        (queries-entry_of r (new_view r) (add r mounts h).0 d.valid (new_view-Reads r nz)).2 in
      ground (arith, q, d.counts r, text_eq_refl r)

  -- With memory left, and if the mount of the resolved path succeeds, a second `make_mount` of the
  -- same path finds it mounted: it gives the path and changes neither the set nor the system.
  pub make_mount-once :
      (mounts : Set) (s : sys.State)
      → IsValid mounts
      → counted mounts r + 1 < count_mod
      → sys.realpath path s ≡ gives r
      → (sys.bind_mount r s).0 ≡ none
      → sys.realpath path (sys.bind_mount r s).1 ≡ gives r
      → make_mount sys path (make_mount sys path mounts s h).1 (make_mount sys path mounts s h).2 h
        ≡ (some r, (make_mount sys path mounts s h).1, (make_mount sys path mounts s h).2, h)
  make_mount-once mounts s w room e done still = elim (Bool-cases (is_within (new_view r) mounts)) [
    | inl within ↦ rw (known mounts s e within) (known mounts s e within)
    | inr new ↦
        rw (bound mounts s e new done)
          (known (add r mounts h).0 (sys.bind_mount r s).1 still (added_within mounts w room))
  ]
