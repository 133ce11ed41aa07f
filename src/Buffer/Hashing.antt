-- ===== src/Buffer/Hashing.antt =====
-- `get_hash` of src/buffer.c: the cached prefix never shows.
use klunok.Prelude.{
  ℕ, suc, ◌+◌, ◌-◌, List, [], ◌∷◌, ◌++◌, Text, ◌≡◌, refl, ap, ◌∙◌, sym, arith, length, get_or,
  length-append, append-nil, append_assoc,
}
use klunok.Buffer.{Hash, View, empty_hash, hash_step, hash_loop, get_hash}

-- The hash of a text, with no cache: the sdbm function.
unfoldable pub sdbm_from : ℕ → Text → ℕ
sdbm_from acc [] = acc
sdbm_from acc (c ∷ t) = sdbm_from (hash_step acc c) t

unfoldable pub sdbm : Text → ℕ
unfolding sdbm_from
sdbm t = sdbm_from 0 t

sdbm_from-append : (acc : ℕ) (a b : Text) → sdbm_from acc (a ++ b) ≡ sdbm_from (sdbm_from acc a) b
unfolding sdbm_from
sdbm_from-append acc [] b = refl
sdbm_from-append acc (c ∷ a) b = sdbm_from-append (hash_step acc c) a b

-- The cache stands for a prefix `done` of the text.
pub record Caches (t : Text) (hash : Hash) : Type 0 where
  pub done : Text
  pub todo : Text
  pub split : t ≡ done ++ todo
  pub seen : hash.seen_length ≡ length done
  pub hashed : hash.value ≡ sdbm done

-- An empty cache stands for the empty prefix.
pub Caches-empty : (t : Text) → Caches t empty_hash
unfolding sdbm
Caches-empty t = record { done = []; todo = t; split = refl; seen = refl; hashed = refl }

-- A cache outlives an append.
pub Caches-append : (t s : Text) (hash : Hash) → Caches t hash → Caches (t ++ s) hash
Caches-append t s hash c = record {
  done = c.done;
  todo = c.todo ++ s;
  split = ap (λ (x : Text). x ++ s) c.split ∙ append_assoc c.done c.todo s;
  seen = c.seen;
  hashed = c.hashed;
}

get_or-middle : (a : Text) (c d : ℕ) (b : List ℕ) → get_or (a ++ c ∷ b) (length a) d ≡ c
get_or-middle [] c d b = refl
get_or-middle (x ∷ a) c d b = get_or-middle a c d b

-- What the cache holds when it stands for `done`.
abbrev cache : Text → Hash
cache done = record { value = sdbm done; seen_length = length done }

cache_snoc :
    (done : Text) (c : ℕ)
    → record { value = hash_step (sdbm done) c; seen_length = length done + 1 }
      ≡ cache (done ++ c ∷ [])
unfolding sdbm sdbm_from
cache_snoc done c = ground (arith, sdbm_from-append 0 done (c ∷ []), length-append done (c ∷ []))

hash_loop_step :
    (n : ℕ) (done : Text) (c : ℕ) (more : List ℕ)
    → hash_loop (suc n) (done ++ c ∷ more) (cache done)
      ≡ hash_loop n (done ++ c ∷ more) (cache (done ++ c ∷ []))
unfolding hash_loop
hash_loop_step n done c more =
    let read : hash_step (sdbm done) (get_or (done ++ c ∷ more) (length done) 0)
        ≡ hash_step (sdbm done) c =
      ap (hash_step (sdbm done)) (get_or-middle done c 0 more) in
    ap (hash_loop n (done ++ c ∷ more))
      ((λ i. record { value = read i; seen_length = length done + 1 }) ∙ cache_snoc done c)

hash_loop_lem :
    (done todo : Text) (rest : List ℕ)
    → hash_loop (length todo) (done ++ (todo ++ rest)) (cache done) ≡ cache (done ++ todo)
hash_loop_lem done [] rest = rw append-nil (unfold hash_loop in refl)
hash_loop_lem done (c ∷ todo) rest =
    hash_loop_step (length todo) done c (todo ++ rest)
    ∙ (simp append_assoc at (hash_loop_lem (done ++ c ∷ []) todo rest))

-- From a cache that stands for a prefix, `get_hash` answers the hash of the whole text, and leaves
-- a cache that stands for the whole text. The memory is not changed.
pub get_hash_lem :
    (t : Text) (rest : List ℕ) (v : View)
    → v.string ≡ t ++ rest
    → v.size ≡ length t + 1
    → Caches t v.hash
    → ((get_hash v).0 ≡ sdbm t)
      × Caches t (get_hash v).1.hash
      × ((get_hash v).1.string ≡ v.string)
      × ((get_hash v).1.size ≡ v.size)
unfolding get_hash
get_hash_lem t rest v cells size c =
    let rounds : v.size - 1 - v.hash.seen_length ≡ length c.todo =
      omega (arith, ap length c.split, length-append c.done c.todo, c.seen) in
    let start : v.hash ≡ cache c.done = ground (arith, c.seen, c.hashed) in
    let memory : v.string ≡ c.done ++ (c.todo ++ rest) = cells ∙ (rw (c.split, append_assoc)) in
    let whole : hash_loop (v.size - 1 - v.hash.seen_length) v.string v.hash ≡ cache t =
      rw (rounds, start, memory) (hash_loop_lem c.done c.todo rest ∙ ap cache (sym c.split)) in
    (
      ap (λ (h : Hash). h.value) whole,
      record {
        done = t;
        todo = [];
        split = sym (append-nil t);
        seen = ap (λ (h : Hash). h.seen_length) whole;
        hashed = ap (λ (h : Hash). h.value) whole;
      },
      refl,
      refl,
    )
