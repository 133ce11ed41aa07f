-- ===== src/Linq/Pop.antt =====
-- `pop_head` of src/linq.c.
use klunok.Prelude.{
  suc-==-zero, ℕ, ◌+◌, ◌-◌, List, [], ◌∷◌, false, Option, none, some, Text, ◌≡◌, refl, arith,
  length, text_eq→eq, text_eq_refl, ◌==◌, if◌then◌else◌, Option-cases, inl, inr, ◌⊎◌,
}
use klunok.Trace.{Host, ok}
use klunok.Trace.Errors.{throw_dynamic-Thrown}
use klunok.Buffer.{new_view}
use klunok.Buffer.Cells.{NonZero}
use klunok.Buffer.Contents.{new_view-Reads}
use klunok.Buffer.Decimal.{decimal}
use klunok.Buffer.Ample.{IsReady}
use klunok.Set.Pop.{pop-Popped}
use klunok.Set.Bag.{occurrences}
use klunok.System.{System, enoent, fails, Errno, tneg_done, tneg_failed}
use klunok.Linq.{
  Linq, slashed, strip_legacy_metadata, pop_head, unlink_head, drop_link, shorten, read_entry,
}
use klunok.Linq.Names.{build-concat_size, create_buffer_view_ample}
use klunok.Linq.Entries.{read_entry-whole}
use klunok.Linq.Push.{slashed-NonZero}
use klunok.Linq.Queue.{IsLinkStore, Represents, path_in, AllLinks, AllLinks-kept, decimal_differs}

pub strip-NonZero : (t : Text) → NonZero t → NonZero (strip_legacy_metadata t)
unfolding strip_legacy_metadata
strip-NonZero [] p = tt
strip-NonZero (c ∷ t) p = ground (arith, strip-NonZero t p.1, p.0, p.1)

-- An empty queue starts over at 0.
AllLinks-restart :
    (sys : System) (fd i : ℕ) (q : List Text) (s : sys.State)
    → AllLinks sys fd (i + 1) q s
    → AllLinks sys fd (if length q == 0 then 0 else i + 1) q s
AllLinks-restart sys fd i [] s w = tt
AllLinks-restart sys fd i (t ∷ q) s w = rw (suc-==-zero (length q)) w

module _ (sys : System) (store : IsLinkStore sys) (l : Linq) (s : sys.State) (t : Text)
    (q : List Text) (h : Host) (r : IsReady h) (w : Represents sys l s (t ∷ q)) where
  abbrev gone : Option Errno × sys.State
  gone = sys.unlinkat l.dirfd (decimal l.head_index) s

  abbrev unstamped : Linq
  unstamped = record l { head_mtime = none }

  whole : read_entry sys (decimal l.head_index) unstamped s h ≡ (some t, h)
  whole =
      read_entry-whole sys (decimal l.head_index) unstamped s h r t w.links.0 w.guess
        (omega (arith, w.targets.0.short))

  dropped :
      gone.0 ≡ none
      → unlink_head sys (decimal l.head_index) unstamped s h
        ≡ (shorten sys (new_view (path_in t)) unstamped, gone.1, h)
  unfolding unlink_head drop_link
  dropped e =
      let call = sys.unlinkat l.dirfd (decimal l.head_index) in
      rw
        (
          unlink_head,
          whole,
          tneg_done sys call s h r.ample.fine e,
          drop_link,
          r.ample.fine,
          create_buffer_view_ample h r.ample (path_in t),
        )
        refl

  stuck :
      (n : Errno)
      → gone.0 ≡ some n
      → ok (unlink_head sys (decimal l.head_index) unstamped s h).2 ≡ false
  unfolding unlink_head drop_link
  stuck n e =
      let call = sys.unlinkat l.dirfd (decimal l.head_index) in
      let bad = (throw_dynamic-Thrown (sys.strerror n) h).fails in
      rw (unlink_head, whole, tneg_failed sys call s h n r.ample.fine e, drop_link, bad) bad

  pop_eq : pop_head sys l s h ≡ unlink_head sys (decimal l.head_index) unstamped s h
  unfolding pop_head
  pop_eq =
      let (named, same) = build-concat_size h r.ample l.head_index (omega (arith, w.room)) in
      rw (r.ample.fine, pop_head, named, same) refl

  shortened : gone.0 ≡ none → Represents sys (shorten sys (new_view (path_in t)) unstamped) gone.1 q
  unfolding occurrences
  shortened e =
      let d = pop-Popped (path_in t) (new_view (path_in t)) l.set w.valid (
        new_view-Reads (path_in t)
          (strip-NonZero (slashed t) (slashed-NonZero t w.targets.0.nonzero))) in
      let left : l.size - 1 ≡ length q = omega (arith, w.size) in
      record {
        links = rw left (
            AllLinks-restart sys l.dirfd l.head_index q gone.1 (
              AllLinks-kept sys l.dirfd (l.head_index + 1) q s gone.1
                (λ j from upto. store.unlinked (decimal l.head_index) l.dirfd s e (decimal j) (
                  decimal_differs j l.head_index (omega (arith, w.room)) (omega (arith, w.room))
                    (λ e'. omega (arith, e', from))))
                w.links.1));
        targets = w.targets.1;
        size = left;
        room = rw left (ground (arith, w.room));
        guess = w.guess;
        valid = d.valid;
        counts = λ u. ground (
          arith,
          d.counts u,
          w.counts u,
          w.counts (path_in t),
          text_eq→eq u (path_in t),
          text_eq_refl (path_in t),
        );
        stamp = tt;
      }

  -- With memory left, `pop_head` takes the first target off the queue: its link is gone from the
  -- directory, the rest is represented as before, and no modification time is kept; or there is an
  -- error.
  pub pop_head-Represents :
      (((pop_head sys l s h).2 ≡ h)
        × Represents sys (pop_head sys l s h).0 (pop_head sys l s h).1 q
        × (sys.link_at l.dirfd (decimal l.head_index) (pop_head sys l s h).1 ≡ fails enoent)
        × ((pop_head sys l s h).0.head_mtime ≡ none))
      ⊎ (ok (pop_head sys l s h).2 ≡ false)
  pop_head-Represents = elim (Option-cases gone.0) [
    | inl e ↦ inl (
        rw (pop_eq, dropped e)
          (refl, shortened e, store.removed (decimal l.head_index) l.dirfd s e, refl))
    | inr (n, e) ↦ inr (rw pop_eq (stuck n e))
  ]
