-- ===== src/Set.antt =====
-- src/set.c: a multi-set of strings with metadata, as a hash table of chains.
-- A chain is a list of entries. Where the source follows the pointer to an entry that `find_entry`
-- returned, the entry is found again by the same test. The hash that `get_hash` caches in the
-- buffer of an entry is not written back: no answer depends on the cache.
pub mod Chain
pub mod Valid
pub mod Entries
pub mod Queries
pub mod Add
pub mod Pop
pub mod Bag
use klunok.Prelude.{
  ℕ, zero, suc, ◌+◌, ◌-◌, ◌*◌, ◌%◌, ◌^◌, List, [], ◌∷◌, ◌++◌, Bool, true, false, ◌&&◌, not, Option,
  none, some, Text, ◌==◌, if◌then◌else◌, length, get_or, set, replicate, text_eq,
}
use klunok.Trace.{Host, ok, tnull_malloc}
use klunok.Buffer.{
  View, Buffer, size_mod, create_buffer, concat_string, get_length, get_string, get_hash,
}

abbrev pub count_mod : ℕ
count_mod = 2 ^ 32

pub record Entry : Type 0 where
  pub value : Buffer
  pub count : ℕ
  pub metadata : ℕ

pub record Set : Type 0 where
  pub size : ℕ
  pub empty_head_count : ℕ
  pub heads : List (List Entry)

abbrev pub new_set : ℕ → Set
new_set size = record { size = size; empty_head_count = size; heads = replicate size [] }

unfoldable pub create_set : ℕ → Host → Option Set × Host
create_set size_guess h =
    let size = (size_guess * 2 + 2) % size_mod in
    let h' = (tnull_malloc (tnull_malloc h).1).1 in
    if ok h' then (some (new_set size), h') else (none, h')

unfoldable pub is_empty : Set → Bool
is_empty s = s.empty_head_count == s.size

-- The index of the head.
unfoldable pub get_head : View → Set → ℕ
get_head v s = (get_hash v).0 % s.size

-- The test in the loop of `find_entry`.
unfoldable pub matches : View → Entry → Bool
matches v e =
    (get_hash v).0 == (get_hash e.value.view).0
    && get_length v == get_length e.value.view
    && text_eq (get_string v) (get_string e.value.view)

-- The first entry of a chain that passes a test, and a chain with that entry changed or removed.
unfoldable pub find : (Entry → Bool) → List Entry → Option Entry
find m [] = none
find m (e ∷ c) = if m e then some e else find m c

unfoldable pub modify : (Entry → Bool) → (Entry → Entry) → List Entry → List Entry
modify m f [] = []
modify m f (e ∷ c) = if m e then f e ∷ c else e ∷ modify m f c

unfoldable pub erase : (Entry → Bool) → List Entry → List Entry
erase m [] = []
erase m (e ∷ c) = if m e then c else e ∷ erase m c

unfoldable pub find_entry : View → List Entry → Option Entry
find_entry v c = find (matches v) c

pub data Attribute : Type 0 where
  metadata count : Attribute

abbrev pub attribute_of : Attribute → Option Entry → ℕ
attribute_of a none = 0
attribute_of metadata (some e) = e.metadata
attribute_of count (some e) = e.count

abbrev pub chain_at : Set → ℕ → List Entry
chain_at s i = get_or s.heads i []

unfoldable pub get_attribute : Attribute → View → Set → ℕ
get_attribute a v s =
    if is_empty s then 0 else attribute_of a (find_entry v (chain_at s (get_head v s)))

unfoldable pub get_count : View → Set → ℕ
unfolding get_attribute
get_count v s = get_attribute count v s

unfoldable pub get_last_metadata : View → Set → ℕ
unfolding get_attribute
get_last_metadata v s = get_attribute metadata v s

unfoldable pub is_within : View → Set → Bool
unfolding get_count
is_within v s = not (get_count v s == 0)

abbrev pub touch : ℕ → Entry → Entry
touch m e = record e { count = (e.count + 1) % count_mod; metadata = m }

abbrev pub is_null : List Entry → Bool
is_null [] = true
is_null (e ∷ c) = false

-- The second half of `add_with_metadata`, from the search on.
unfoldable pub insert : Buffer → ℕ → Set → Host → Set × Host
insert b m s h =
    let i = get_head b.view s in
    let c = chain_at s i in
    elim (find_entry b.view c) [
      | some e ↦ (record s { heads = set s.heads i (modify (matches b.view) (touch m) c) }, h)
      | none ↦
          let h' = (tnull_malloc h).1 in
          if ok h'
          then (
            record s {
              empty_head_count =
                  (if is_null c
                    then (s.empty_head_count + size_mod - 1) % size_mod
                    else s.empty_head_count);
              heads = set s.heads i (record { value = b; count = 1; metadata = m } ∷ c);
            },
            h',
          )
          else (s, h')
    ]

unfoldable pub add_with_metadata : Text → ℕ → Set → Host → Set × Host
add_with_metadata t m s h =
    let (made, h') = create_buffer h in
    elim made [
      | none ↦ (s, h')
      | some b ↦
          let (b', h'') = concat_string t b h' in if ok h'' then insert b' m s h'' else (s, h'')
    ]

unfoldable pub add : Text → Set → Host → Set × Host
unfolding add_with_metadata
add t s h = add_with_metadata t 0 s h

abbrev pub release : Entry → Entry
release e = record e { count = (e.count + count_mod - 1) % count_mod }

unfoldable pub pop : View → Set → Set
pop v s =
    let i = get_head v s in
    let c = chain_at s i in
    elim (find_entry v c) [
      | none ↦ s
      | some e ↦
          if (release e).count == 0
          then record s {
            empty_head_count =
                (if is_null (erase (matches v) c)
                  then (s.empty_head_count + 1) % size_mod
                  else s.empty_head_count);
            heads = set s.heads i (erase (matches v) c);
          }
          else record s { heads = set s.heads i (modify (matches v) release c) }
    ]
