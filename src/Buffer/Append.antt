-- ===== src/Buffer/Append.antt =====
-- The operations of src/buffer.c that append to a buffer, on what it holds.
use mathlib.Core.Bool.{true, false}
use klunok.Prelude.{
  ℕ, ◌+◌, ◌-◌, ◌*◌, ◌≤◌, ◌<◌, List, [], ◌∷◌, ◌++◌, Text, ◌≡◌, refl, ap, ◌∙◌, sym, arith, length,
  take, drop, set, length-append, length-drop, length-set, ◌%◌, if◌then◌else◌, Bool-cases, inl, inr,
  none, some,
}
use klunok.Trace.{Host, ok, tnull_malloc}
use klunok.Buffer.{
  Buffer, size_mod, new_buffer, create_buffer, ensure_capacity, concat_bytes, concat_string,
  concat_char, strncat, with_string, with_size,
}
use klunok.Buffer.Cells.{NonZero, NonZero-append, length-take_le, take_all, strncat-text, set_char}
use klunok.Buffer.Hashing.{Caches-append}
use klunok.Buffer.Contents.{Holds, ensure_capacity-Holds}

append-Holds :
    (t : Text) (b : Buffer) (bytes : List ℕ) (n m : ℕ)
    → Holds t b
    → n ≤ length bytes
    → NonZero (take n bytes)
    → m ≡ b.size + n
    → m ≤ b.capacity
    → Holds (t ++ take n bytes) (with_size m (with_string (strncat b.string bytes n) b))
append-Holds t b bytes n m s le p total fits =
    let r = s.reads in
    let len = length-take_le n bytes le in
    let cells : strncat b.string bytes n
        ≡ (t ++ take n bytes) ++ 0 ∷ drop (length (take n bytes)) r.rest =
      rw r.cells (strncat-text t r.rest bytes n r.nonzero p) in
    record {
      reads = record {
        rest = drop (length (take n bytes)) r.rest;
        cells = cells;
        nonzero = NonZero-append t (take n bytes) r.nonzero p;
        sized = omega (arith, r.sized, len, length-append t (take n bytes));
        cached = Caches-append t (take n bytes) b.hash r.cached;
      };
      room = omega (
        arith,
        s.room,
        r.sized,
        len,
        ap length r.cells,
        length-append t (0 ∷ r.rest),
        ap length cells,
        length-append (t ++ take n bytes) (0 ∷ drop (length (take n bytes)) r.rest),
        length-append t (take n bytes),
        length-drop (length (take n bytes)) r.rest,
      );
    }

-- `concat_bytes` appends the first `byte_count` bytes, or fails and keeps the text; it writes
-- within the memory of the buffer in either case.
pub concat_bytes-Holds :
    (t : Text) (b : Buffer) (h : Host) (bytes : List ℕ) (n : ℕ)
    → Holds t b
    → n ≤ length bytes
    → NonZero (take n bytes)
    → (length t + n + 1) * 2 < size_mod
    → Holds
        (if ok (concat_bytes bytes n b h).1 then t ++ take n bytes else t)
        (concat_bytes bytes n b h).0
unfolding concat_bytes
concat_bytes-Holds t b h bytes n s le p fits =
    let size : (b.size + n) % size_mod ≡ b.size + n = omega (arith, s.reads.sized) in
    let e = ensure_capacity-Holds t b h (b.size + n) s (omega (arith, s.reads.sized)) in
    let b' = (ensure_capacity (b.size + n) b h).0 in
    let h' = (ensure_capacity (b.size + n) b h).1 in
    let same : b'.size ≡ b.size = e.0.reads.sized ∙ sym s.reads.sized in
    elim (Bool-cases (ok h)) [
      | inr failed ↦ rw (failed, failed) s
      | inl fine ↦ elim (Bool-cases (ok h')) [
        | inr full ↦ rw (fine, size, full, full) e.0
        | inl got ↦
            rw (fine, size, got, got)
              (append-Holds t b' bytes n (b.size + n) e.0 le p (omega (arith, same)) (e.1 got))
      ]
    ]

-- `concat_string` appends the string, or fails and keeps the text.
pub concat_string-Holds :
    (t : Text) (b : Buffer) (h : Host) (s : Text)
    → Holds t b
    → NonZero s
    → (length t + length s + 1) * 2 < size_mod
    → Holds (if ok (concat_string s b h).1 then t ++ s else t) (concat_string s b h).0
unfolding concat_string
concat_string-Holds t b h s v p fits = elim (Bool-cases (ok h)) [
  | inr failed ↦ rw (failed, failed) v
  | inl fine ↦ rw fine (
      rw (take_all s) at
        (concat_bytes-Holds t b h s (length s) v (omega arith) (rw (take_all s) p) fits))
]

-- A list that is not empty.
List-cases : (xs : List ℕ) → 0 < length xs → (x : ℕ) × (ys : List ℕ) × (xs ≡ x ∷ ys)
List-cases [] p = absurd (omega arith)
List-cases (x ∷ xs) p = (x, xs, refl)

char-Holds :
    (t : Text) (b : Buffer) (c m : ℕ)
    → Holds t b
    → 0 < c
    → m ≡ b.size + 1
    → m ≤ b.capacity
    → Holds (t ++ c ∷ []) (with_size m (with_string (set (set b.string b.size 0) (b.size - 1) c) b))
char-Holds t b c m s p total fits =
    let r = s.reads in
    let tail =
      List-cases r.rest
        (omega (arith, r.sized, s.room, ap length r.cells, length-append t (0 ∷ r.rest))) in
    record {
      reads = record {
        rest = tail.1;
        cells =
            rw (r.cells, tail.2, r.sized, (let e : length t + 1 - 1 ≡ length t = omega arith in e))
              (set_char t 0 tail.0 c tail.1);
        nonzero = NonZero-append t (c ∷ []) r.nonzero (p, tt);
        sized = omega (arith, r.sized, length-append t (c ∷ []));
        cached = Caches-append t (c ∷ []) b.hash r.cached;
      };
      room = simp length-set s.room;
    }

-- `concat_char` appends a character that is not the terminator, or fails and keeps the text.
pub concat_char-Holds :
    (t : Text) (b : Buffer) (h : Host) (c : ℕ)
    → Holds t b
    → 0 < c
    → (length t + 2) * 2 < size_mod
    → Holds (if ok (concat_char c b h).1 then t ++ c ∷ [] else t) (concat_char c b h).0
unfolding concat_char
concat_char-Holds t b h c s p fits =
    let size : (b.size + 1) % size_mod ≡ b.size + 1 = omega (arith, s.reads.sized) in
    let e = ensure_capacity-Holds t b h (b.size + 1) s (omega (arith, s.reads.sized)) in
    let b' = (ensure_capacity (b.size + 1) b h).0 in
    let h' = (ensure_capacity (b.size + 1) b h).1 in
    elim (Bool-cases (ok h)) [
      | inr failed ↦ rw (failed, failed) s
      | inl fine ↦ elim (Bool-cases (ok h')) [
        | inr full ↦ rw (fine, size, full, full) e.0
        | inl got ↦
            rw (fine, size, got, got)
              (char-Holds t b' c ((b'.size + 1) % size_mod) e.0 p (omega (arith, e.0.reads.sized))
                (omega (arith, e.0.reads.sized, s.reads.sized, e.1 got)))
      ]
    ]

-- With memory left the host is not touched, so no operation fails.
pub tnull_malloc_ample : (h : Host) → h.fates ≡ [] → (tnull_malloc h).1 ≡ h
unfolding tnull_malloc
tnull_malloc_ample h e = ground arith

pub ensure_capacity_ample :
    (n : ℕ) (b : Buffer) (h : Host) → h.fates ≡ [] → (ensure_capacity n b h).1 ≡ h
unfolding ensure_capacity
ensure_capacity_ample n b h e = ground (arith, tnull_malloc_ample h e)

pub concat_bytes_ample :
    (s : List ℕ) (n : ℕ) (b : Buffer) (h : Host) → h.fates ≡ [] → (concat_bytes s n b h).1 ≡ h
unfolding concat_bytes
concat_bytes_ample s n b h e = ground (arith, ensure_capacity_ample ((b.size + n) % size_mod) b h e)

pub concat_string_ample :
    (s : Text) (b : Buffer) (h : Host) → h.fates ≡ [] → (concat_string s b h).1 ≡ h
unfolding concat_string
concat_string_ample s b h e = ground (arith, concat_bytes_ample s (length s) b h e)

pub concat_char_ample : (c : ℕ) (b : Buffer) (h : Host) → h.fates ≡ [] → (concat_char c b h).1 ≡ h
unfolding concat_char
concat_char_ample c b h e = ground (arith, ensure_capacity_ample ((b.size + 1) % size_mod) b h e)

-- `create_buffer` gives an empty buffer exactly if the trace is ok after it.
pub create_buffer_lem :
    (h : Host)
    → (ok (create_buffer h).1 ≡ true → (create_buffer h).0 ≡ some new_buffer)
      × (ok (create_buffer h).1 ≡ false → (create_buffer h).0 ≡ none)
unfolding create_buffer
create_buffer_lem h = (ground arith, ground arith)

pub create_buffer_ample : (h : Host) → h.fates ≡ [] → (create_buffer h).1 ≡ h
unfolding create_buffer
create_buffer_ample h e = let q = tnull_malloc_ample h e in rw (q, q, q) (ground arith)
