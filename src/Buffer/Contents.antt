-- ===== src/Buffer/Contents.antt =====
-- The operations of src/buffer.c on what a buffer holds.
use klunok.Prelude.{
  ℕ, ◌+◌, ◌-◌, ◌*◌, ◌≤◌, ◌<◌, List, [], ◌∷◌, ◌++◌, Text, ◌≡◌, refl, ap, ◌∙◌, arith, true, length,
  take, drop, replicate, length-append, length-set, append_assoc, length-replicate, ◌&&◌, ltb, ◌%◌,
  Bool-cases, inl, inr,
}
use klunok.Trace.{Host, ok, tnull_malloc}
use klunok.Buffer.{
  View, Buffer, size_mod, new_view, new_buffer, ensure_capacity, set_length, get_length, get_string,
  get_hash, grow, with_string,
}
use klunok.Buffer.Cells.{
  NonZero, NonZero-take, before_nul-text, length-take_le, take-append_le, set_split,
}
use klunok.Buffer.Hashing.{Caches, Caches-empty, sdbm, get_hash_lem}

-- The view shows the text `t`: its memory begins with `t` and a terminator, its size counts the
-- terminator, and its cache stands for a prefix of `t`.
pub record Reads (t : Text) (v : View) : Type 0 where
  pub rest : List ℕ
  pub cells : v.string ≡ t ++ 0 ∷ rest
  pub nonzero : NonZero t
  pub sized : v.size ≡ length t + 1
  pub cached : Caches t v.hash

-- The buffer holds the text `t`, and its capacity is that of its memory.
pub record Holds (t : Text) (b : Buffer) : Type 0 where
  pub reads : Reads t b.view
  pub room : length b.string ≡ b.capacity

pub Reads-get_string : (t : Text) (v : View) → Reads t v → get_string v ≡ t
unfolding get_string
Reads-get_string t v r = rw r.cells (before_nul-text t r.rest r.nonzero)

pub Reads-get_length : (t : Text) (v : View) → Reads t v → get_length v ≡ length t
unfolding get_length
Reads-get_length t v r = omega (arith, r.sized)

-- `get_hash` gives the sdbm hash of the text, whatever part of it is cached, and it keeps the text.
pub Reads-get_hash :
    (t : Text) (v : View) → Reads t v → ((get_hash v).0 ≡ sdbm t) × Reads t (get_hash v).1
Reads-get_hash t v r =
    let (value, cached, cells, size) = get_hash_lem t (0 ∷ r.rest) v r.cells r.sized r.cached in
    (
      value,
      record {
        rest = r.rest;
        cells = cells ∙ r.cells;
        nonzero = r.nonzero;
        sized = size ∙ r.sized;
        cached = cached;
      },
    )

-- Memory is never written past its end.
pub size-le-capacity : (t : Text) (b : Buffer) → Holds t b → b.size ≤ b.capacity
size-le-capacity t b s =
    omega
      (arith, s.room, s.reads.sized, ap length s.reads.cells, length-append t (0 ∷ s.reads.rest))

pub new_view-Reads : (t : Text) → NonZero t → Reads t (new_view t)
new_view-Reads t p = record {
  rest = [];
  cells = refl;
  nonzero = p;
  sized = refl;
  cached = Caches-empty t;
}

pub new_buffer-Holds : Holds [] new_buffer
new_buffer-Holds = record { reads = new_view-Reads [] tt; room = refl }

grow-Holds :
    (t : Text) (b : Buffer) (junk m : ℕ)
    → Holds t b
    → b.capacity ≤ m
    → Holds t (record (with_string (grow junk m b.string) b) { capacity = m })
grow-Holds t b junk m s le = record {
  reads = record {
    rest = s.reads.rest ++ replicate (m - length b.string) junk;
    cells = rw s.reads.cells (append_assoc t (0 ∷ s.reads.rest) _);
    nonzero = s.reads.nonzero;
    sized = s.reads.sized;
    cached = s.reads.cached;
  };
  room = omega (
    arith,
    s.room,
    length-append b.string (replicate (m - length b.string) junk),
    length-replicate (m - length b.string) junk,
  );
}

-- `ensure_capacity` keeps the text, and makes the room asked for unless it fails.
pub ensure_capacity-Holds :
    (t : Text) (b : Buffer) (h : Host) (n : ℕ)
    → Holds t b
    → n * 2 < size_mod
    → Holds t (ensure_capacity n b h).0
      × (ok (ensure_capacity n b h).1 ≡ true → n ≤ (ensure_capacity n b h).0.capacity)
unfolding ensure_capacity
ensure_capacity-Holds t b h n s fits = elim (Bool-cases (ok h && ltb b.capacity n)) [
  | inr stay ↦ rw stay (s, λ e. ground arith)
  | inl more ↦ elim (Bool-cases (ok (tnull_malloc h).1)) [
    | inl got ↦
        rw (more, got) (grow-Holds t b h.junk (n * 2 % size_mod) s (ground arith), λ e. omega arith)
    | inr none_left ↦ rw (more, none_left) (s, λ e. cc)
  ]
]

-- `set_length` to a length within the text cuts the text.
pub set_length-Holds :
    (t : Text) (b : Buffer) (n : ℕ) → Holds t b → n ≤ length t → Holds (take n t) (set_length n b)
unfolding set_length
set_length-Holds t b n s le =
    let r = s.reads in
    let inside : n < length b.string =
      omega (arith, ap length r.cells, length-append t (0 ∷ r.rest)) in
    record {
      reads = record {
        rest = drop (n + 1) b.string;
        cells =
            set_split b.string n 0 inside
            ∙ ap (λ (x : List ℕ). x ++ 0 ∷ drop (n + 1) b.string)
                (ap (take n) r.cells ∙ take-append_le n t (0 ∷ r.rest) le);
        nonzero = NonZero-take n t r.nonzero;
        sized = omega (arith, length-take_le n t le);
        cached = Caches-empty (take n t);
      };
      room = length-set b.string n 0 ∙ s.room;
    }
