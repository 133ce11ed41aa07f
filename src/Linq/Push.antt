-- ===== src/Linq/Push.antt =====
-- `push` of src/linq.c.
use klunok.Prelude.{
  ℕ, ◌+◌, ◌<◌, ◌≤◌, ◌%◌, List, [], ◌∷◌, ◌++◌, Bool, false, Option, none, some, Text, ◌≡◌, refl, ap,
  arith, length, length-append, text_eq→eq, if◌then◌else◌, Option-cases, inl, inr, ◌⊎◌,
  text_eq_refl,
}
use klunok.Trace.{Host, ok, tnull_malloc}
use klunok.Trace.Errors.{throw_dynamic-Thrown, tnull_malloc-Guarded}
use klunok.Buffer.{Buffer, size_mod, create_buffer}
use klunok.Buffer.Cells.{NonZero}
use klunok.Buffer.Decimal.{decimal}
use klunok.Buffer.Ample.{IsAmple}
use klunok.Set.{Set, add, add_with_metadata, count_mod}
use klunok.Set.Bag.{counted, occurrences, occurrences-le, occurrences-append, add-Added_ample}
use klunok.System.{System, Errno, tneg_do, throw_errno}
use klunok.Linq.{Linq, slashed, push}
use klunok.Linq.Names.{build-concat_size, build-concat_string}
use klunok.Linq.Queue.{
  IsLinkStore, IsStamp-kept, Represents, IsTarget, path_in, paths, paths-snoc, length-paths,
  AllLinks-kept, AllLinks-snoc, AllTargets-snoc, decimal_differs,
}

-- Nothing is added to a set once there is an error.
pub create_buffer_failed : (h : Host) → ok h ≡ false → create_buffer h ≡ (none, h)
unfolding create_buffer
create_buffer_failed h e =
    let same : (tnull_malloc h).1 ≡ h =
      ap (λ (r : Bool × Host). r.1) ((tnull_malloc-Guarded h).noop e) in
    rw (create_buffer, same, same, same, e) refl

add_with_metadata_failed :
    (t : Text) (m : ℕ) (s : Set) (h : Host) → ok h ≡ false → add_with_metadata t m s h ≡ (s, h)
unfolding add_with_metadata
add_with_metadata_failed t m s h e =
    let same = create_buffer_failed h e in
    let linkage : (create_buffer h).0 ≡ none = ap (λ (r : Option Buffer × Host). r.0) same in
    let left : (create_buffer h).1 ≡ h = ap (λ (r : Option Buffer × Host). r.1) same in
    rw (add_with_metadata, linkage, left) refl

add_failed : (t : Text) (s : Set) (h : Host) → ok h ≡ false → add t s h ≡ (s, h)
unfolding add
add_failed t s h e = add_with_metadata_failed t 0 s h e

pub slashed-NonZero : (t : Text) → NonZero t → NonZero (slashed t)
slashed-NonZero [] p = tt
slashed-NonZero (c ∷ t) p = (omega arith, p.1)

length-slashed : (t : Text) → length (slashed t) ≡ length t
length-slashed [] = refl
length-slashed (c ∷ t) = refl

module _ (sys : System) (store : IsLinkStore sys) (p : Text) (l : Linq) (s : sys.State)
    (q : List Text) (h : Host) (a : IsAmple h) (w : Represents sys l s q) (v : IsTarget p)
    (clean : path_in p ≡ slashed p) (room : l.head_index + length q + 1 < size_mod)
    (few : length q + 1 < count_mod) where
  abbrev linkage : Option Errno × sys.State
  linkage = sys.symlinkat p l.dirfd (decimal (l.head_index + length q)) s

  push_eq : push sys p l s h ≡ (
      let (s', h3) =
        tneg_do sys (sys.symlinkat p l.dirfd (decimal (l.head_index + length q))) s h in
      let (set', h4) = add (slashed p) l.set h3 in
      (record l { set = set'; size = (if ok h4 then l.size + 1 else l.size) }, s', h4))
  unfolding push
  push_eq =
      let (named, same) = build-concat_size h a (l.head_index + length q) (omega arith) in
      let (target, same') = build-concat_string h a p v.nonzero v.short in
      let n : (l.head_index + l.size) % size_mod ≡ l.head_index + length q =
        omega (arith, w.size, room) in
      rw (a.fine, push, n, named, same, target, same') refl

  kept :
      (j : ℕ)
      → l.head_index ≤ j
      → j < l.head_index + length q
      → linkage.0 ≡ none
      → sys.link_at l.dirfd (decimal j) linkage.1 ≡ sys.link_at l.dirfd (decimal j) s
  kept j from upto e =
      let other =
        decimal_differs j (l.head_index + length q) (omega arith) (omega arith)
          (λ e'. omega (arith, e', upto)) in
      rw other at (store.symlinked p (decimal (l.head_index + length q)) l.dirfd s e (decimal j))

  pub linked :
      linkage.0 ≡ none
      → ((push sys p l s h).2 ≡ h)
        × Represents sys (push sys p l s h).0 (push sys p l s h).1 (q ++ p ∷ [])
  unfolding tneg_do occurrences
  linked e =
      let more : counted l.set (slashed p) + 1 < count_mod =
        omega (
          arith,
          w.counts (slashed p),
          occurrences-le (slashed p) (paths q),
          length-paths q,
          few,
        ) in
      let (same, d) =
        add-Added_ample (slashed p) l.set h a w.valid (slashed-NonZero p v.nonzero)
          (omega (arith, length-slashed p, v.short)) more in
      rw (push_eq, tneg_do, a.fine, e, same, a.fine)
        (
          refl,
          record {
            links =
                AllLinks-snoc sys l.dirfd l.head_index q p linkage.1
                  (AllLinks-kept sys l.dirfd l.head_index q s linkage.1
                    (λ j from upto. kept j from upto e) w.links)
                  (rw (text_eq_refl (decimal (l.head_index + length q))) at (
                    store.symlinked p (decimal (l.head_index + length q)) l.dirfd s e
                      (decimal (l.head_index + length q))));
            targets = AllTargets-snoc q p w.targets v;
            size = omega (arith, w.size, length-append q (p ∷ []));
            room = omega (arith, room, length-append q (p ∷ []));
            guess = w.guess;
            valid = d.valid;
            counts = λ u.
                rw (paths-snoc q p, occurrences-append, clean)
                  (ground (arith, d.counts u, w.counts u, text_eq→eq u (slashed p)));
            stamp =
                IsStamp-kept sys l.head_mtime l.dirfd l.head_index (length q) (length (q ++ p ∷ []))
                  s linkage.1 (omega (arith, length-append q (p ∷ [])))
                  (λ more'.
                    store.stamped p (decimal (l.head_index + length q)) l.dirfd s e
                      (decimal l.head_index)
                      (decimal_differs l.head_index (l.head_index + length q) (omega arith)
                        (omega arith) (λ e'. omega (arith, e', more'))))
                  w.stamp;
          },
        )

  refused :
      (n : Errno)
      → linkage.0 ≡ some n
      → (ok (push sys p l s h).2 ≡ false)
        × Represents sys (push sys p l s h).0 (push sys p l s h).1 q
  unfolding tneg_do
  refused n e =
      let bad = (throw_dynamic-Thrown (sys.strerror n) h).fails in
      let nothing = add_failed (slashed p) l.set (throw_errno sys n h) bad in
      rw (push_eq, tneg_do, a.fine, e, nothing, bad)
        (
          refl,
          record {
            links =
                AllLinks-kept sys l.dirfd l.head_index q s linkage.1
                  (λ j from upto.
                    store.not_symlinked p (decimal (l.head_index + length q)) l.dirfd s n e
                      (decimal j))
                  w.links;
            targets = w.targets;
            size = w.size;
            room = w.room;
            guess = w.guess;
            valid = w.valid;
            counts = w.counts;
            stamp =
                IsStamp-kept sys l.head_mtime l.dirfd l.head_index (length q) (length q) s linkage.1
                  (omega arith)
                  (λ some'.
                    store.not_stamped p (decimal (l.head_index + length q)) l.dirfd s n e
                      (decimal l.head_index))
                  w.stamp;
          },
        )

  -- With memory left, `push` puts a link with the target behind the queue, and its path into the
  -- set; or the link is not made, there is an error, and the queue is as it was.
  pub push-Represents :
      (((push sys p l s h).2 ≡ h)
        × Represents sys (push sys p l s h).0 (push sys p l s h).1 (q ++ p ∷ []))
      ⊎ ((ok (push sys p l s h).2 ≡ false)
          × Represents sys (push sys p l s h).0 (push sys p l s h).1 q)
  push-Represents = elim (Option-cases linkage.0) [
    | inl e ↦ inl (linked e)
    | inr (n, e) ↦ inr (refused n e)
  ]
