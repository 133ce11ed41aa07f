-- ===== src/Bitmap.antt =====
-- src/bitmap.c: a growable array of flags, used for the process ids of editors.
pub mod Bits
use klunok.Prelude.{
  ℕ, ◌+◌, ◌-◌, ◌*◌, ◌%◌, List, ◌++◌, Bool, true, false, not, Option, none, some, ltb, leb,
  if◌then◌else◌, length, get_or, set, replicate,
}
use klunok.Trace.{Host, ok, tnull_malloc}
use klunok.Buffer.{size_mod}

pub record Bitmap : Type 0 where
  pub array : List Bool
  pub size : ℕ

abbrev pub new_bitmap : ℕ → Bitmap
new_bitmap size = record { array = replicate size false; size = size }

unfoldable pub create_bitmap : ℕ → Host → Option Bitmap × Host
create_bitmap size_guess h =
    let h' = (tnull_malloc (tnull_malloc h).1).1 in
    if ok h' then (some (new_bitmap size_guess), h') else (none, h')

-- `calloc` and `memcpy` into a bigger array
abbrev pub extend : List Bool → ℕ → List Bool
extend array n = array ++ replicate (n - length array) false

unfoldable pub set_bit : ℕ → Bitmap → Host → Bitmap × Host
set_bit bit b h =
    if not (ok h)
    then (b, h)
    else if leb b.size bit
    then (let new_size = (bit + 1) * 2 % size_mod in
        let h' = (tnull_malloc h).1 in
        if ok h'
        then (record { array = set (extend b.array new_size) bit true; size = new_size }, h')
        else (b, h'))
    else (record b { array = set b.array bit true }, h)

unfoldable pub unset_bit : ℕ → Bitmap → Bitmap
unset_bit bit b = if ltb bit b.size then record b { array = set b.array bit false } else b

unfoldable pub get_bit : ℕ → Bitmap → Bool
get_bit bit b = if ltb bit b.size then get_or b.array bit false else false
