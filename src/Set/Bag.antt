-- ===== src/Set/Bag.antt =====
-- A set of src/set.c as a bag of texts, with memory left.
use klunok.Prelude.{
  some, ◌%◌, ℕ, ◌+◌, ◌*◌, ◌<◌, ◌≤◌, ◌%◌, List, [], ◌∷◌, ◌++◌, Text, ◌≡◌, refl, arith, if◌then◌else◌,
  length, text_eq,
}
use klunok.Trace.{Host}
use klunok.Buffer.{Buffer, size_mod, new_buffer, concat_string}
use klunok.Buffer.Cells.{NonZero}
use klunok.Buffer.Append.{
  create_buffer_lem, create_buffer_ample, concat_string_ample, tnull_malloc_ample,
}
use klunok.Buffer.Ample.{IsAmple}
use klunok.Set.{
  find, Set, count, count_mod, attribute_of, create_set, new_set, add, add_with_metadata, insert,
}
use klunok.Set.Valid.{IsValid, entry_of, get_or-replicate, home}
use klunok.Set.Add.{Added, add_with_metadata_cases}

-- How often a string stands in an array.
unfoldable pub occurrences : Text → List Text → ℕ
occurrences u [] = 0
occurrences u (t ∷ ts) = (if text_eq u t then 1 else 0) + occurrences u ts

abbrev pub counted : Set → Text → ℕ
counted s u = attribute_of count (entry_of s u)

insert_ample : (b : Buffer) (m : ℕ) (s : Set) (h : Host) → h.fates ≡ [] → (insert b m s h).1 ≡ h
unfolding insert
insert_ample b m s h e = ground (arith, tnull_malloc_ample h e)

add_ample : (t : Text) (s : Set) (h : Host) → IsAmple h → (add_with_metadata t 0 s h).1 ≡ h
unfolding add_with_metadata
add_ample t s h a =
    let q = create_buffer_ample h a.memory in
    let made = (create_buffer_lem h).0 (rw q a.fine) in
    let r = concat_string_ample t new_buffer h a.memory in
    rw (made, q, add_with_metadata, r, a.fine)
      (insert_ample (concat_string t new_buffer h).0 0 s h a.memory)

pub occurrences-le : (u : Text) (ts : List Text) → occurrences u ts ≤ length ts
unfolding occurrences
occurrences-le u [] = omega arith
occurrences-le u (t ∷ ts) = ground (arith, occurrences-le u ts)

pub new_set-counted : (n : ℕ) (u : Text) → counted (new_set n) u ≡ 0
unfolding entry_of find
new_set-counted n u = rw (get_or-replicate n (home u (new_set n))) refl

pub create_set_ample : (n : ℕ) (h : Host) → h.fates ≡ [] → (create_set n h).1 ≡ h
unfolding create_set
create_set_ample n h e = let q = tnull_malloc_ample h e in rw (q, q) (ground arith)

pub add-Added_ample :
    (t : Text) (s : Set) (h : Host)
    → IsAmple h
    → IsValid s
    → NonZero t
    → (length t + 1) * 2 < size_mod
    → counted s t + 1 < count_mod
    → ((add t s h).1 ≡ h) × Added t 0 s (add t s h).0
unfolding add
add-Added_ample t s h a w p short room =
    let same = add_ample t s h a in
    (same, (add_with_metadata_cases t 0 s h w p short room).0 (rw same a.fine))

pub add-same : (t : Text) (s : Set) (h : Host) → IsAmple h → (add t s h).1 ≡ h
unfolding add
add-same t s h a = add_ample t s h a

pub create_set-new :
    (n : ℕ) (h : Host)
    → IsAmple h
    → n * 2 + 2 < size_mod
    → create_set n h ≡ (some (new_set (n * 2 + 2)), h)
unfolding create_set
create_set-new n h a small =
    let q = tnull_malloc_ample h a.memory in
    let size : (n * 2 + 2) % size_mod ≡ n * 2 + 2 = omega (arith, small) in
    rw (create_set, q, q, a.fine, size) refl

pub occurrences-append :
    (u : Text) (ts us : List Text) → occurrences u (ts ++ us) ≡ occurrences u ts + occurrences u us
unfolding occurrences
occurrences-append u [] us = omega arith
occurrences-append u (t ∷ ts) us = omega (arith, occurrences-append u ts us)
