-- ===== src/Set/Queries.antt =====
-- The questions of src/set.c: `is_empty`, `get_count`, `get_last_metadata`, `is_within`.
use klunok.Prelude.{
  ℕ, ◌+◌, ◌<◌, ◌%◌, ◌*◌, [], true, not, none, some, Text, ◌≡◌, refl, ap, arith, ◌==◌, if◌then◌else◌,
  Bool-cases, inl, inr,
}
use klunok.Trace.{Host, ok}
use klunok.Buffer.{View, size_mod}
use klunok.Buffer.Contents.{Reads, Reads-get_hash}
use klunok.Set.{
  Set, Attribute, metadata, count, attribute_of, create_set, is_empty, get_head, get_attribute,
  new_set, get_count, get_last_metadata, is_within, find, chain_at,
}
use klunok.Set.Chain.{find_entry-text}
use klunok.Set.Valid.{IsValid, home, entry_of, all_empty, new_set-IsValid}

pub get_head-home : (t : Text) (v : View) (s : Set) → Reads t v → get_head v s ≡ home t s
unfolding get_head home
get_head-home t v s r = rw ((Reads-get_hash t v r).0)

is_empty-chain_at : (s : Set) (i : ℕ) → IsValid s → is_empty s ≡ true → chain_at s i ≡ []
unfolding is_empty
is_empty-chain_at s i w e = all_empty s.heads i (ground (arith, w.empties, w.width))

-- The shortcut for an empty set gives the answer that the search would give.
pub get_attribute-entry_of :
    (a : Attribute) (t : Text) (v : View) (s : Set)
    → IsValid s
    → Reads t v
    → get_attribute a v s ≡ attribute_of a (entry_of s t)
unfolding get_attribute entry_of
get_attribute-entry_of a t v s w r =
    let search =
      find_entry-text t v s.size (home t s) r (chain_at s (home t s)) (w.chains (home t s)) in
    elim (Bool-cases (is_empty s)) [
      | inr more ↦ rw (more, get_head-home t v s r, search)
      | inl done ↦ rw (done, is_empty-chain_at s (home t s) w done) (unfold find in refl)
    ]

-- `get_count` and `get_last_metadata` answer from the entry of the text, 0 if there is none, and
-- `is_within` tells whether the count is positive.
pub queries-entry_of :
    (t : Text) (v : View) (s : Set)
    → IsValid s
    → Reads t v
    → (get_count v s ≡ attribute_of count (entry_of s t))
      × (get_last_metadata v s ≡ attribute_of metadata (entry_of s t))
      × (is_within v s ≡ not (attribute_of count (entry_of s t) == 0))
unfolding get_count get_last_metadata is_within
queries-entry_of t v s w r =
    let c = get_attribute-entry_of count t v s w r in
    (c, get_attribute-entry_of metadata t v s w r, ap (λ (n : ℕ). not (n == 0)) c)

-- `create_set` makes an empty set in order, unless its size wraps around or there is no memory.
pub create_set_lem :
    (n : ℕ) (h : Host)
    → n * 2 + 2 < size_mod
    → ((create_set n h).0 ≡ (if ok (create_set n h).1 then some (new_set (n * 2 + 2)) else none))
      × IsValid (new_set (n * 2 + 2))
      × (is_empty (new_set (n * 2 + 2)) ≡ true)
unfolding create_set is_empty
create_set_lem n h fits =
    let size : (n * 2 + 2) % size_mod ≡ n * 2 + 2 = omega arith in
    (rw size (ground arith), new_set-IsValid (n * 2 + 2) (omega arith) fits, ground arith)
