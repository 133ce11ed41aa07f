-- ===== src/Serialize.antt =====
-- src/serialize.c: a number as eight bytes. A write at an index is `set`.
use klunok.Prelude.{
  ℕ, zero, suc, ◌+◌, ◌*◌, ◌/◌, ◌%◌, ◌^◌, ◌<◌, ◌≤◌, List, [], ◌∷◌, ◌++◌, append_assoc, ◌≡◌, refl,
  sym, ap, ◌∙◌, arith, length, set, length-set, take, drop, take-append, drop-append, length-append,
}
use native.Mathlib.Nat.{div-lt_iff_lt-mul, pow-succ'}
use klunok.Flusher.{read_bytes, u64_at}

-- The loop from the index `i` down.
unfoldable pub write_from : ℕ → ℕ → List ℕ → List ℕ
write_from zero value destination = destination
write_from (suc i) value destination = write_from i (value / 256) (set destination i (value % 256))

unfoldable pub write_u64 : ℕ → List ℕ → List ℕ
write_u64 value destination = write_from 8 value destination

-- The bytes of a number, the most significant one first.
unfoldable big_endian : ℕ → ℕ → List ℕ
big_endian zero value = []
big_endian (suc n) value = big_endian n (value / 256) ++ value % 256 ∷ []

length-big_endian : (n v : ℕ) → length (big_endian n v) ≡ n
unfolding big_endian
length-big_endian zero v = refl
length-big_endian (suc n) v =
    omega
      (arith, length-append (big_endian n (v / 256)) (v % 256 ∷ []), length-big_endian n (v / 256))

drop-set : (n b : ℕ) (d : List ℕ) → n < length d → drop n (set d n b) ≡ b ∷ drop (suc n) d
drop-set n b [] p = absurd (omega (arith, p))
drop-set zero b (x ∷ d) p = refl
drop-set (suc n) b (x ∷ d) p = drop-set n b d (omega (arith, p))

write_from-big_endian :
    (n v : ℕ) (d : List ℕ) → n ≤ length d → write_from n v d ≡ big_endian n v ++ drop n d
unfolding write_from big_endian
write_from-big_endian zero v d p = refl
write_from-big_endian (suc n) v d p =
    write_from-big_endian n (v / 256) (set d n (v % 256))
      (omega (arith, p, length-set d n (v % 256)))
    ∙ ap (λ (t : List ℕ). big_endian n (v / 256) ++ t) (drop-set n (v % 256) d (omega (arith, p)))
    ∙ sym (append_assoc (big_endian n (v / 256)) (v % 256 ∷ []) (drop (suc n) d))

read_bytes-append : (a b : List ℕ) (v : ℕ) → read_bytes v (a ++ b) ≡ read_bytes (read_bytes v a) b
unfolding read_bytes
read_bytes-append [] b v = refl
read_bytes-append (x ∷ a) b v = read_bytes-append a b ((v * 256 % 2 ^ 64 + x) % 2 ^ 64)

read_bytes-big_endian : (n v : ℕ) → v < 256 ^ n → v < 2 ^ 64 → read_bytes 0 (big_endian n v) ≡ v
unfolding read_bytes big_endian
read_bytes-big_endian zero v p q = omega (arith, p)
read_bytes-big_endian (suc n) v p q =
    let less : v / 256 < 256 ^ n =
      (div-lt_iff_lt-mul {x = v} {y = 256 ^ n} (omega arith)).1
        (omega (arith, p, pow-succ' 256 n)) in
    let before : read_bytes 0 (big_endian n (v / 256)) ≡ v / 256 =
      read_bytes-big_endian n (v / 256) less (omega (arith, q)) in
    rw (read_bytes-append, before) (omega (arith, q))

-- A number that `write_u64` has written is read back by the loops of `get_request`, and what
-- follows on the eight bytes stays as it was.
pub write_u64-u64_at :
    (v : ℕ) (d : List ℕ)
    → v < 2 ^ 64
    → 8 ≤ length d
    → (u64_at 0 (write_u64 v d) ≡ v) × (drop 8 (write_u64 v d) ≡ drop 8 d)
unfolding write_u64 u64_at
write_u64-u64_at v d p q =
    let wire = write_from-big_endian 8 v d q in
    let eight = length-big_endian 8 v in
    let first : take 8 (big_endian 8 v ++ drop 8 d) ≡ big_endian 8 v =
      rw eight at (take-append (big_endian 8 v) (drop 8 d)) in
    let rest : drop 8 (big_endian 8 v ++ drop 8 d) ≡ drop 8 d =
      rw eight at (drop-append (big_endian 8 v) (drop 8 d)) in
    (rw (wire, first) (read_bytes-big_endian 8 v (omega (arith, p)) p), rw wire rest)
