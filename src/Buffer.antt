-- ===== src/Buffer.antt =====
-- src/buffer.c: a growable string that knows its size and has lazy hashing.
-- `string` is the memory behind the pointer, cell by cell, past the terminator too: `buffer.string`
-- and `buffer.view.string` are one pointer in the source, and one field here. `size_t` has 64 bits.
pub mod Cells
pub mod Contents
pub mod Append
pub mod Decimal
pub mod Ample
pub mod Hashing
use klunok.Prelude.{
  ℕ, zero, suc, ◌+◌, ◌-◌, ◌*◌, ◌/◌, ◌%◌, ◌^◌, List, [], ◌∷◌, ◌++◌, Bool, true, false, ◌&&◌, not,
  Option, none, some, Text, ltb, leb, ◌==◌, if◌then◌else◌, length, get_or, set, take, drop,
  replicate,
}
use klunok.Trace.{Host, ok, tnull_malloc}

abbrev pub size_mod : ℕ
size_mod = 2 ^ 64

pub record Hash : Type 0 where
  pub value : ℕ
  pub seen_length : ℕ

abbrev pub empty_hash : Hash
empty_hash = record { value = 0; seen_length = 0 }

-- `struct buffer_view`
pub record View : Type 0 where
  pub string : List ℕ
  pub size : ℕ
  pub hash : Hash

pub record Buffer : Type 0 where
  pub capacity : ℕ
  pub view : View
  pub open view use *

-- `strlen` and the other string functions stop at the first zero.
unfoldable pub before_nul : List ℕ → Text
before_nul [] = []
before_nul (c ∷ cs) = if c == 0 then [] else c ∷ before_nul cs

abbrev pub new_view : Text → View
new_view t = record { string = t ++ 0 ∷ []; size = length t + 1; hash = empty_hash }

unfoldable pub create_buffer_view : Text → Host → Option View × Host
create_buffer_view t h =
    let h' = (tnull_malloc (tnull_malloc h).1).1 in
    if ok h' then (some (new_view t), h') else (none, h')

abbrev pub new_buffer : Buffer
new_buffer = record { capacity = 1; view = new_view [] }

unfoldable pub create_buffer : Host → Option Buffer × Host
create_buffer h =
    let h' = (tnull_malloc (tnull_malloc (tnull_malloc h).1).1).1 in
    if ok h' then (some new_buffer, h') else (none, h')

-- `realloc` to a block that is not smaller
abbrev grow : ℕ → ℕ → List ℕ → List ℕ
grow junk n cells = cells ++ replicate (n - length cells) junk

abbrev with_string : List ℕ → Buffer → Buffer
with_string cells b = record b { view = record (b.view) { string = cells } }

abbrev with_size : ℕ → Buffer → Buffer
with_size n b = record b { view = record (b.view) { size = n } }

unfoldable pub ensure_capacity : ℕ → Buffer → Host → Buffer × Host
ensure_capacity capacity b h =
    if ok h && ltb b.capacity capacity
    then (let new_capacity = capacity * 2 % size_mod in
        let h' = (tnull_malloc h).1 in
        if ok h'
        then (
          record (with_string (grow h.junk new_capacity b.string) b) { capacity = new_capacity },
          h',
        )
        else (b, h'))
    else (b, h)

-- `strncat(destination, source, n)` writes a terminator behind what it appends.
unfoldable pub strncat : List ℕ → List ℕ → ℕ → List ℕ
strncat destination source n =
    let old = before_nul destination in
    let new = before_nul (take n source) in
    old ++ (new ++ (0 ∷ drop (length old + length new + 1) destination))

-- `bytes` is the memory behind the pointer.
unfoldable pub concat_bytes : List ℕ → ℕ → Buffer → Host → Buffer × Host
concat_bytes bytes byte_count b h =
    if not (ok h)
    then (b, h)
    else let new_size = (b.size + byte_count) % size_mod in
      let (b', h') = ensure_capacity new_size b h in
      if ok h'
      then (with_size new_size (with_string (strncat b'.string bytes byte_count) b'), h')
      else (b', h')

unfoldable pub concat_string : Text → Buffer → Host → Buffer × Host
concat_string t b h = if not (ok h) then (b, h) else concat_bytes t (length t) b h

unfoldable pub concat_char : ℕ → Buffer → Host → Buffer × Host
concat_char c b h =
    if not (ok h)
    then (b, h)
    else let (b', h') = ensure_capacity ((b.size + 1) % size_mod) b h in
      if ok h'
      then (
        with_size ((b'.size + 1) % size_mod)
            (with_string (set (set b'.string b'.size 0) (b'.size - 1) c) b'),
        h',
      )
      else (b', h')

unfoldable pub get_length : View → ℕ
get_length v = v.size - 1

unfoldable pub get_string : View → Text
get_string v = before_nul v.string

-- The assertion `length < size` is a hypothesis of the theorems.
unfoldable pub set_length : ℕ → Buffer → Buffer
set_length n b = record b {
  view = record { string = set b.string n 0; size = n + 1; hash = empty_hash };
}

-- `while (power_of_ten <= size / 10)`; 20 rounds are enough for 64 bits.
unfoldable pub find_power : ℕ → ℕ → ℕ → ℕ
find_power zero size power = power
find_power (suc fuel) size power =
    let rest = find_power fuel size (power * 10 % size_mod) in
    if leb power (size / 10) then rest else power

-- `while (power_of_ten)`; a failed `concat_char` takes the digits back and leaves the loop.
unfoldable pub concat_digits : ℕ → ℕ → ℕ → ℕ → Buffer → Host → Buffer × Host
concat_digits zero saved power size b h = (b, h)
concat_digits (suc fuel) saved power size b h =
    let step = concat_char (b'0' + size / power) b h in
    let rest = concat_digits fuel saved (power / 10) (size % power) step.0 step.1 in
    if power == 0 then (b, h) else if ok step.1 then rest else (set_length saved step.0, step.1)

unfoldable pub concat_size : ℕ → Buffer → Host → Buffer × Host
concat_size size b h =
    if not (ok h)
    then (b, h)
    else if size == 0
    then concat_char b'0' b h
    else concat_digits 21 (get_length b.view) (find_power 20 size 1) size b h

-- `char` is signed, and widening it to `size_t` extends its sign.
abbrev pub widen : ℕ → ℕ
widen c = if ltb c 128 then c else c + (size_mod - 256)

-- `character + (hash << 6) + (hash << 16) - hash`
unfoldable pub hash_step : ℕ → ℕ → ℕ
hash_step hash c =
    (widen c + hash * 2 ^ 6 % size_mod + hash * 2 ^ 16 % size_mod + (size_mod - hash)) % size_mod

-- The loop of `get_hash`, by the rounds that are left.
unfoldable pub hash_loop : ℕ → List ℕ → Hash → Hash
hash_loop zero cells hash = hash
hash_loop (suc n) cells hash = hash_loop n cells (record {
  value = hash_step hash.value (get_or cells hash.seen_length 0);
  seen_length = hash.seen_length + 1;
})

-- The view is mutable through its pointer to the hash, so it is returned too.
unfoldable pub get_hash : View → ℕ × View
get_hash v =
    let hash = hash_loop (v.size - 1 - v.hash.seen_length) v.string v.hash in
    (hash.value, record v { hash = hash })
