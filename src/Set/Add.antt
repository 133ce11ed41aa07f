-- ===== src/Set/Add.antt =====
-- `add_with_metadata` and `add` of src/set.c.
use klunok.Prelude.{
  ℕ, ◌+◌, ◌-◌, ◌*◌, ◌<◌, ◌%◌, List, [], ◌∷◌, Bool, true, false, none, some, Text, ◌≡◌, refl, ap,
  ◌∙◌, sym, arith, if◌then◌else◌, length, text_eq, text_eq→eq, Bool-cases, Option-cases, inl, inr,
  ◌⊎◌,
}
use klunok.Trace.{Host, ok, tnull_malloc}
use klunok.Buffer.{Buffer, size_mod, new_buffer, create_buffer, concat_string}
use klunok.Buffer.Cells.{NonZero}
use klunok.Buffer.Contents.{Holds, new_buffer-Holds, Reads-get_string}
use klunok.Buffer.Append.{create_buffer_lem, concat_string-Holds}
use klunok.Set.{
  Entry, Set, metadata, count, attribute_of, count_mod, find, modify, find_entry, is_null, touch,
  chain_at, insert, add_with_metadata, get_head,
}
use klunok.Set.Chain.{
  text, is_text, IsEntry, find_entry-text, modify-text, find-modify, Absent-find,
}
use klunok.Set.Entries.{IsChain-modify, null-modify}
use klunok.Set.Valid.{
  IsValid, home, home-lt, count_null-le, count_empty-le, entry_of, written, written-IsValid,
  entry_of-update,
}
use klunok.Set.Queries.{get_head-home}

-- `s'` is `s` with one more `t`, which has the metadata `m`; all else is as it was.
pub record Added (t : Text) (m : ℕ) (s s' : Set) : Type 0 where
  pub valid : IsValid s'
  pub counts :
      (u : Text)
      → attribute_of count (entry_of s' u) ≡ (
          if text_eq u t
          then attribute_of count (entry_of s t) + 1
          else attribute_of count (entry_of s u))
  pub metadatas :
      (u : Text)
      → attribute_of metadata (entry_of s' u)
        ≡ (if text_eq u t then m else attribute_of metadata (entry_of s u))

module _ (t : Text) (m : ℕ) (s : Set) (w : IsValid s) where
  -- The chain of `t`.
  abbrev old : List Entry
  old = chain_at s (home t s)

  -- A write under which `t` has the entry `e` adds one `t`, if `e` counts so.
  Added-written :
      (c : List Entry) (k : ℕ) (e : Entry)
      → IsValid (written s t c k)
      → ((u : Text) → entry_of (written s t c k) u ≡ (if text_eq u t then some e else entry_of s u))
      → e.count ≡ attribute_of count (entry_of s t) + 1
      → e.metadata ≡ m
      → Added t m s (written s t c k)
  Added-written c k e valid change one same = record {
    valid = valid;
    counts = λ u. ground (arith, change u);
    metadatas = λ u. ground (arith, change u);
  }

  -- One more of what is there.
  again-Added :
      (e : Entry)
      → find (is_text t) old ≡ some e
      → e.count + 1 < count_mod
      → Added t m s (written s t (modify (is_text t) (touch m) old) s.empty_head_count)
  again-Added e found room =
      let changed = modify (is_text t) (touch m) old in
      let meaning : entry_of s t ≡ some e = unfold entry_of in found in
      let good : (x : Entry)
          → find (is_text t) old ≡ some x
          → IsEntry s.size (home t s) x
          → IsEntry s.size (home t s) (touch m x) =
        λ x p v. record {
          holds = v.holds;
          home = v.home;
          positive = ground arith;
          bounded = ground arith;
        } in
      Added-written changed s.empty_head_count (touch m e)
        (written-IsValid s w t changed s.empty_head_count
          (IsChain-modify s.size (home t s) t (touch m) old (λ x. refl) good (w.chains (home t s)))
          (ap (λ (b : Bool). s.empty_head_count + (if b then 1 else 0))
            (sym (null-modify (is_text t) (touch m) old))))
        (entry_of-update s w t changed s.empty_head_count (λ u. some (touch m e))
          (λ u. ground (arith, find-modify t u (touch m) old (λ x. refl), found, text_eq→eq u t)))
        (ground (arith, meaning)) refl

  -- A first one, in front of its chain.
  first-Added :
      (b : Buffer) (k : ℕ)
      → find (is_text t) old ≡ none
      → Holds t b
      → k + (if is_null old then 1 else 0) ≡ s.empty_head_count
      → Added t m s (written s t (record { value = b; count = 1; metadata = m } ∷ old) k)
  first-Added b k missing holds counted =
      let e : Entry = record { value = b; count = 1; metadata = m } in
      let meaning : entry_of s t ≡ none = unfold entry_of in missing in
      let named : text e ≡ t = Reads-get_string t b.view holds.reads in
      let entry : IsEntry s.size (home t s) e = record {
        holds = rw named holds;
        home = rw named (unfold home in refl);
        positive = omega arith;
        bounded = omega arith;
      } in
      Added-written (e ∷ old) k e
        (written-IsValid s w t (e ∷ old) k
          (entry, rw named (Absent-find t old missing), w.chains (home t s))
          (omega (arith, counted)))
        (entry_of-update s w t (e ∷ old) k (λ u. some e)
          (λ u. unfold find in rw named (ground arith)))
        (ground (arith, meaning)) refl

  searched :
      (b : Buffer)
      → Holds t b
      → find_entry b.view (chain_at s (get_head b.view s)) ≡ find (is_text t) old
  searched b holds =
      ap (λ (i : ℕ). find_entry b.view (chain_at s i)) (get_head-home t b.view s holds.reads)
      ∙ find_entry-text t b.view s.size (home t s) holds.reads old (w.chains (home t s))

  insert_again :
      (b : Buffer) (h : Host) (e : Entry)
      → Holds t b
      → find (is_text t) old ≡ some e
      → insert b m s h ≡ (written s t (modify (is_text t) (touch m) old) s.empty_head_count, h)
  unfolding insert
  insert_again b h e holds found = rw (
    searched b holds ∙ found,
    insert,
    get_head-home t b.view s holds.reads,
    modify-text t b.view s.size (home t s) holds.reads (touch m) old (w.chains (home t s)),
  )

  abbrev count_left : ℕ
  count_left =
      if is_null old then (s.empty_head_count + size_mod - 1) % size_mod else s.empty_head_count

  insert_first :
      (b : Buffer) (h : Host)
      → Holds t b
      → find (is_text t) old ≡ none
      → insert b m s h ≡ (
          if ok (tnull_malloc h).1
          then (
            written s t (record { value = b; count = 1; metadata = m } ∷ old) count_left,
            (tnull_malloc h).1,
          )
          else (s, (tnull_malloc h).1))
  unfolding insert
  insert_first b h holds missing =
      rw (searched b holds ∙ missing, insert, get_head-home t b.view s holds.reads)

  count_left_lem : count_left + (if is_null old then 1 else 0) ≡ s.empty_head_count
  count_left_lem = ground (
    arith,
    w.empties,
    w.width,
    w.small,
    count_empty-le s.heads,
    count_null-le s.heads (home t s) (home-lt t s w),
  )

  insert-Added :
      (b : Buffer) (h : Host)
      → Holds t b
      → ok h ≡ true
      → attribute_of count (entry_of s t) + 1 < count_mod
      → (ok (insert b m s h).1 ≡ true → Added t m s (insert b m s h).0)
        × (ok (insert b m s h).1 ≡ false → (insert b m s h).0 ≡ s)
  insert-Added b h holds fine room = elim (Option-cases (find (is_text t) old)) [
    | inr (e, found) ↦
        let meaning : entry_of s t ≡ some e = unfold entry_of in found in
        rw (insert_again b h e holds found)
          (λ good. again-Added e found (rw meaning at room), λ bad. cc)
    | inl missing ↦ elim (Bool-cases (ok (tnull_malloc h).1)) [
      | inr full ↦ rw (insert_first b h holds missing, full) (λ good. cc, λ bad. refl)
      | inl got ↦
          rw (insert_first b h holds missing, got)
            (λ good. first-Added b count_left missing holds count_left_lem, λ bad. cc)
    ]
  ]

-- By the outcome.
pub add_with_metadata_cases :
    (t : Text) (m : ℕ) (s : Set) (h : Host)
    → IsValid s
    → NonZero t
    → (length t + 1) * 2 < size_mod
    → attribute_of count (entry_of s t) + 1 < count_mod
    → (ok (add_with_metadata t m s h).1 ≡ true → Added t m s (add_with_metadata t m s h).0)
      × (ok (add_with_metadata t m s h).1 ≡ false → (add_with_metadata t m s h).0 ≡ s)
unfolding add_with_metadata
add_with_metadata_cases t m s h w p short room =
    let h' = (create_buffer h).1 in
    let made = create_buffer_lem h in
    elim (Bool-cases (ok h')) [
      | inr failed ↦ rw (made.1 failed, add_with_metadata) (λ good. cc, λ bad. refl)
      | inl fine ↦
          let copied = concat_string-Holds [] new_buffer h' t new_buffer-Holds p (omega arith) in
          elim (Bool-cases (ok (concat_string t new_buffer h').1)) [
            | inr failed ↦ rw (made.0 fine, add_with_metadata, failed) (λ good. cc, λ bad. refl)
            | inl got ↦
                rw (made.0 fine, add_with_metadata, got)
                  (insert-Added t m s w (concat_string t new_buffer h').0
                    (concat_string t new_buffer h').1 (rw got at copied) got room)
          ]
    ]

-- `add_with_metadata` counts the string once more and sets its metadata, and the trace is ok; or it
-- changes nothing, and there is an error. Strings that share a head or a hash do not disturb one
-- another.
pub add_with_metadata-Added :
    (t : Text) (m : ℕ) (s : Set) (h : Host)
    → IsValid s
    → NonZero t
    → (length t + 1) * 2 < size_mod
    → attribute_of count (entry_of s t) + 1 < count_mod
    → ((ok (add_with_metadata t m s h).1 ≡ true) × Added t m s (add_with_metadata t m s h).0)
      ⊎ ((ok (add_with_metadata t m s h).1 ≡ false) × ((add_with_metadata t m s h).0 ≡ s))
add_with_metadata-Added t m s h w p short room =
    let (good, bad) = add_with_metadata_cases t m s h w p short room in
    elim (Bool-cases (ok (add_with_metadata t m s h).1)) [
      | inl e ↦ inl (e, good e)
      | inr e ↦ inr (e, bad e)
    ]
