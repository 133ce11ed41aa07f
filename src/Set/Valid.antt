-- ===== src/Set/Valid.antt =====
-- The invariant of src/set.c, and what a write to one head does to it.
use klunok.Prelude.{
  ℕ, zero, suc, ◌+◌, ◌%◌, ◌≤◌, ◌<◌, List, [], ◌∷◌, Option, Text, ◌≡◌, refl, ◌∙◌, sym, arith, ◌==◌,
  if◌then◌else◌, length, get_or, set, replicate, text_eq, text_eq→eq, length-set, length-replicate,
  ==_iff, Bool-cases, inl, inr,
}
use klunok.Buffer.{size_mod}
use klunok.Buffer.Hashing.{sdbm}
use klunok.Set.{Entry, Set, find, is_null, chain_at}
use klunok.Set.Chain.{is_text, IsChain}

abbrev pub count_null : List Entry → ℕ
count_null c = if is_null c then 1 else 0

pub count_empty : List (List Entry) → ℕ
count_empty [] = 0
count_empty (c ∷ cs) = count_null c + count_empty cs

-- Every chain is in order, and the empty ones are counted.
pub record IsValid (s : Set) : Type 0 where
  pub nonempty : 0 < s.size
  pub small : s.size < size_mod
  pub width : length s.heads ≡ s.size
  pub empties : s.empty_head_count ≡ count_empty s.heads
  pub chains : (i : ℕ) → IsChain s.size i (chain_at s i)

-- The head of a text.
unfoldable pub home : Text → Set → ℕ
home t s = sdbm t % s.size

pub home-lt : (t : Text) (s : Set) → IsValid s → home t s < length s.heads
unfolding home
home-lt t s w = omega (arith, w.nonempty, w.width)

-- The entry that stands for a text: the meaning of a set.
unfoldable pub entry_of : Set → Text → Option Entry
entry_of s t = find (is_text t) (chain_at s (home t s))

module _ {A : Type 0} where
  pub get_or-set :
      (xs : List A) (i j : ℕ) (v d : A)
      → i < length xs
      → get_or (set xs i v) j d ≡ (if j == i then v else get_or xs j d)
  get_or-set [] i j v d p = absurd (omega arith)
  get_or-set (x ∷ xs) zero zero v d p = refl
  get_or-set (x ∷ xs) zero (suc j) v d p = ground arith
  get_or-set (x ∷ xs) (suc i) zero v d p = ground arith
  get_or-set (x ∷ xs) (suc i) (suc j) v d p = ground (arith, get_or-set xs i j v d)

pub count_empty-set :
    (hs : List (List Entry)) (i : ℕ) (c : List Entry)
    → i < length hs
    → count_empty (set hs i c) + count_null (get_or hs i []) ≡ count_empty hs + count_null c
unfolding count_empty
count_empty-set [] i c p = absurd (omega arith)
count_empty-set (h ∷ hs) zero c p = omega arith
count_empty-set (h ∷ hs) (suc i) c p = omega (arith, count_empty-set hs i c (omega arith))

pub count_empty-le : (hs : List (List Entry)) → count_empty hs ≤ length hs
unfolding count_empty
count_empty-le [] = omega arith
count_empty-le (h ∷ hs) = ground (arith, count_empty-le hs)

pub count_null-le :
    (hs : List (List Entry)) (i : ℕ) → i < length hs → count_null (get_or hs i []) ≤ count_empty hs
unfolding count_empty
count_null-le [] i p = absurd (omega arith)
count_null-le (h ∷ hs) zero p = omega arith
count_null-le (h ∷ hs) (suc i) p = omega (arith, count_null-le hs i (omega arith))

-- If all heads are counted as empty, they are.
pub all_empty : (hs : List (List Entry)) (i : ℕ) → count_empty hs ≡ length hs → get_or hs i [] ≡ []
unfolding count_empty
all_empty [] i e = refl
all_empty ([] ∷ hs) zero e = refl
all_empty ([] ∷ hs) (suc i) e = all_empty hs i (omega arith)
all_empty ((x ∷ c) ∷ hs) i e = absurd (omega (arith, count_empty-le hs))

-- A head that is not counted as empty holds an entry.
pub some_entry :
    (hs : List (List Entry))
    → count_empty hs < length hs
    → (i : ℕ) × (e : Entry) × (c : List Entry) × (get_or hs i [] ≡ e ∷ c)
unfolding count_empty
some_entry [] p = absurd (omega arith)
some_entry ((e ∷ c) ∷ hs) p = (0, e, c, refl)
some_entry ([] ∷ hs) p = let (i, e, c, q) = some_entry hs (omega arith) in (suc i, e, c, q)

pub get_or-replicate : (n i : ℕ) → get_or {A = List Entry} (replicate n []) i [] ≡ []
get_or-replicate zero i = refl
get_or-replicate (suc n) zero = refl
get_or-replicate (suc n) (suc i) = get_or-replicate n i

count_empty-replicate : (n : ℕ) → count_empty (replicate n []) ≡ n
unfolding count_empty
count_empty-replicate zero = refl
count_empty-replicate (suc n) = omega (arith, count_empty-replicate n)

pub new_set-IsValid :
    (n : ℕ)
    → 0 < n
    → n < size_mod
    → IsValid (record { size = n; empty_head_count = n; heads = replicate n [] })
new_set-IsValid n p q = record {
  nonempty = p;
  small = q;
  width = length-replicate n [];
  empties = sym (count_empty-replicate n);
  chains = λ i. rw get_or-replicate tt;
}

-- A write of a chain to the head of a text.
abbrev pub written : Set → Text → List Entry → ℕ → Set
written s t c k = record { size = s.size; empty_head_count = k; heads = set s.heads (home t s) c }

module _ (s : Set) (w : IsValid s) (t : Text) (c : List Entry) (k : ℕ) where
  pub written-IsValid :
      IsChain s.size (home t s) c
      → k + count_null (chain_at s (home t s)) ≡ s.empty_head_count + count_null c
      → IsValid (written s t c k)
  written-IsValid chain counted = record {
    nonempty = w.nonempty;
    small = w.small;
    width = length-set s.heads (home t s) c ∙ w.width;
    empties =
        omega (arith, counted, w.empties, count_empty-set s.heads (home t s) c (home-lt t s w));
    chains = λ i.
        rw (get_or-set s.heads (home t s) i c [] (home-lt t s w))
          (elim (Bool-cases (i == home t s)) [
            | inl here ↦ rw (here, (==_iff i (home t s)).0 here) chain
            | inr other ↦ rw other (w.chains i)
          ]);
  }

  pub entry_of-written :
      (u : Text)
      → entry_of (written s t c k) u
        ≡ (if home u s == home t s then find (is_text u) c else entry_of s u)
  unfolding entry_of home
  entry_of-written u =
      rw (get_or-set s.heads (home t s) (home u s) c [] (home-lt t s w)) (ground arith)

  -- A chain that differs from the old one under `t` only changes the meaning under `t` only.
  pub entry_of-update :
      (f : Text → Option Entry)
      → ((u : Text)
          → find (is_text u) c
            ≡ (if text_eq u t then f u else find (is_text u) (chain_at s (home t s))))
      → (u : Text) → entry_of (written s t c k) u ≡ (if text_eq u t then f u else entry_of s u)
  unfolding entry_of
  entry_of-update f same u = ground (arith, entry_of-written u, same u, text_eq→eq u t)
