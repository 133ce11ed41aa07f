-- ===== src/Bitmap/Bits.antt =====
-- src/bitmap.c refines a set of numbers.
use klunok.Prelude.{
  ℕ, zero, suc, ◌+◌, ◌-◌, ◌*◌, ◌<◌, ◌≤◌, ◌%◌, List, [], ◌∷◌, ◌++◌, Bool, true, false, ◌||◌, ◌&&◌,
  not, none, some, ltb, leb, ◌==◌, if◌then◌else◌, length, get_or, set, replicate, length-set,
  length-append, length-replicate, ◌≡◌, refl, ◌∙◌, arith, Bool-cases, inl, inr,
}
use klunok.Trace.{Host, ok, tnull_malloc}
use klunok.Buffer.{size_mod}
use klunok.Set.Valid.{get_or-set}
use klunok.Bitmap.{Bitmap, new_bitmap, extend, create_bitmap, set_bit, unset_bit, get_bit}

-- The size is that of the array.
pub record IsValid (b : Bitmap) : Type 0 where
  pub width : length b.array ≡ b.size

get_or-past : (xs : List Bool) (i : ℕ) → length xs ≤ i → get_or xs i false ≡ false
get_or-past [] i p = refl
get_or-past (x ∷ xs) zero p = absurd (omega arith)
get_or-past (x ∷ xs) (suc i) p = get_or-past xs i (omega arith)

get_or-replicate : (n i : ℕ) → get_or (replicate n false) i false ≡ false
get_or-replicate zero i = refl
get_or-replicate (suc n) zero = refl
get_or-replicate (suc n) (suc i) = get_or-replicate n i

get_or-extend : (xs : List Bool) (n i : ℕ) → get_or (extend xs n) i false ≡ get_or xs i false
get_or-extend xs n i = pad xs (n - length xs) i
  where
    pad : (xs : List Bool) (n i : ℕ) → get_or (xs ++ replicate n false) i false ≡ get_or xs i false
    pad [] n i = get_or-replicate n i
    pad (x ∷ xs) n zero = refl
    pad (x ∷ xs) n (suc i) = pad xs n i

-- In a valid bitmap the test on the size is that of the array.
get_bit-get_or : (i : ℕ) (b : Bitmap) → IsValid b → get_bit i b ≡ get_or b.array i false
unfolding get_bit
get_bit-get_or i b w = ground (arith, w.width, get_or-past b.array i)

written-IsValid :
    (xs : List Bool) (n i : ℕ) (v : Bool)
    → length xs ≡ n
    → IsValid (record { array = set xs i v; size = n })
written-IsValid xs n i v e = record { width = length-set xs i v ∙ e }

written-get_bit :
    (xs : List Bool) (n i j : ℕ) (v : Bool)
    → length xs ≡ n
    → i < n
    → get_bit j (record { array = set xs i v; size = n })
      ≡ (if j == i then v else get_or xs j false)
written-get_bit xs n i j v e p =
    get_bit-get_or j (record { array = set xs i v; size = n }) (written-IsValid xs n i v e)
    ∙ get_or-set xs i j v false (omega (arith, e))

length-extend : (xs : List Bool) (n : ℕ) → length xs ≤ n → length (extend xs n) ≡ n
length-extend xs n p = omega (
  arith,
  length-append xs (replicate (n - length xs) false),
  length-replicate (n - length xs) false,
)

-- `set_bit` sets the one bit, growing the bitmap if it must, or fails and changes nothing.
pub set_bit-get_bit :
    (i j : ℕ) (b : Bitmap) (h : Host)
    → IsValid b
    → (i + 1) * 2 < size_mod
    → IsValid (set_bit i b h).0
      × (get_bit j (set_bit i b h).0
          ≡ (if ok (set_bit i b h).1 then (j == i) || get_bit j b else get_bit j b))
unfolding set_bit
set_bit-get_bit i j b h w fits =
    let n = (i + 1) * 2 % size_mod in
    let grown : b.size ≤ i → length (extend b.array n) ≡ n =
      λ p. length-extend b.array n (omega (arith, w.width)) in
    let reads = get_bit-get_or j b w in
    elim (Bool-cases (ok h)) [
      | inr failed ↦ rw (failed, failed) (w, refl)
      | inl fine ↦ elim (Bool-cases (leb b.size i)) [
        | inr inside ↦
            rw (fine, inside, fine)
              (
                written-IsValid b.array b.size i true w.width,
                written-get_bit b.array b.size i j true w.width (ground arith)
                    ∙ ground (arith, reads),
              )
        | inl past ↦ elim (Bool-cases (ok (tnull_malloc h).1)) [
          | inr full ↦ rw (fine, past, full, full) (w, refl)
          | inl got ↦
              let wide = grown (ground arith) in
              rw (fine, past, got, got)
                (
                  written-IsValid (extend b.array n) n i true wide,
                  written-get_bit (extend b.array n) n i j true wide (omega arith)
                      ∙ ground (arith, reads, get_or-extend b.array n j),
                )
        ]
      ]
    ]

-- `unset_bit` clears the one bit.
pub unset_bit-get_bit :
    (i j : ℕ) (b : Bitmap)
    → IsValid b
    → IsValid (unset_bit i b) × (get_bit j (unset_bit i b) ≡ (not (j == i) && get_bit j b))
unfolding unset_bit
unset_bit-get_bit i j b w =
    let reads = get_bit-get_or j b w in
    elim (Bool-cases (ltb i b.size)) [
      | inl inside ↦ rw inside (
        written-IsValid b.array b.size i false w.width,
        written-get_bit b.array b.size i j false w.width (ground arith) ∙ ground (arith, reads),
      )
      | inr past ↦ rw past (w, ground (arith, reads, w.width, get_or-past b.array j))
    ]

-- A new bitmap has no bit set, whatever its size.
pub create_bitmap-get_bit :
    (n j : ℕ) (h : Host)
    → ((create_bitmap n h).0 ≡ (if ok (create_bitmap n h).1 then some (new_bitmap n) else none))
      × IsValid (new_bitmap n)
      × (get_bit j (new_bitmap n) ≡ false)
unfolding create_bitmap get_bit
create_bitmap-get_bit n j h = (
  ground arith,
  record { width = length-replicate n false },
  ground (arith, get_or-replicate n j),
)
