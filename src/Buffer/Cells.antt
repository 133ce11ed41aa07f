-- ===== src/Buffer/Cells.antt =====
-- The memory behind a buffer: what `strncat` and writes of single bytes leave in it.
use klunok.Prelude.{
  Bool, true, ltb, ◌&&◌, ℕ, zero, suc, ◌+◌, ◌≤◌, ◌<◌, List, [], ◌∷◌, ◌++◌, Text, ◌≡◌, refl, ap,
  arith, length, set, take, drop, append_assoc,
}
use klunok.Buffer.{before_nul, strncat}

-- The bytes of a C string.
abbrev pub NonZero : Text → Type 0
NonZero [] = Unit {0}
NonZero (c ∷ t) = (0 < c) × NonZero t

-- The test of it.
abbrev pub is_nonzero : Text → Bool
is_nonzero [] = true
is_nonzero (c ∷ t) = ltb 0 c && is_nonzero t

pub is_nonzero-NonZero : (t : Text) → is_nonzero t ≡ true → NonZero t
is_nonzero-NonZero [] e = tt
is_nonzero-NonZero (c ∷ t) e = (ground arith, is_nonzero-NonZero t (ground arith))

pub NonZero-append : (a b : Text) → NonZero a → NonZero b → NonZero (a ++ b)
NonZero-append [] b p q = q
NonZero-append (c ∷ a) b p q = (p.0, NonZero-append a b p.1 q)

pub NonZero-take : (n : ℕ) (t : Text) → NonZero t → NonZero (take n t)
NonZero-take zero t p = tt
NonZero-take (suc n) [] p = tt
NonZero-take (suc n) (c ∷ t) p = (p.0, NonZero-take n t p.1)

pub before_nul-text : (t : Text) (rest : List ℕ) → NonZero t → before_nul (t ++ 0 ∷ rest) ≡ t
unfolding before_nul
before_nul-text [] rest p = refl
before_nul-text (c ∷ t) rest p = ground (arith, before_nul-text t rest p.1)

pub before_nul_self : (t : Text) → NonZero t → before_nul t ≡ t
unfolding before_nul
before_nul_self [] p = refl
before_nul_self (c ∷ t) p = ground (arith, before_nul_self t p.1)

pub length-take_le : (n : ℕ) (t : List ℕ) → n ≤ length t → length (take n t) ≡ n
length-take_le zero t p = refl
length-take_le (suc n) [] p = absurd (omega arith)
length-take_le (suc n) (c ∷ t) p = ap suc (length-take_le n t (omega arith))

pub take_all : (t : Text) → take (length t) t ≡ t
take_all [] = refl
take_all (c ∷ t) = ap (λ (s : Text). c ∷ s) (take_all t)

pub take-append_le : (n : ℕ) (t s : List ℕ) → n ≤ length t → take n (t ++ s) ≡ take n t
take-append_le zero t s p = refl
take-append_le (suc n) [] s p = absurd (omega arith)
take-append_le (suc n) (c ∷ t) s p = ap (λ (x : List ℕ). c ∷ x) (take-append_le n t s (omega arith))

drop_past :
    (a : List ℕ) (n : ℕ) (rest : List ℕ) → drop (length a + n + 1) (a ++ 0 ∷ rest) ≡ drop n rest
drop_past [] n rest = rw (let e : 0 + n + 1 ≡ suc n = omega arith in e)
drop_past (c ∷ a) n rest =
    rw (let e : suc (length a) + n + 1 ≡ suc (length a + n + 1) = omega arith in e)
      (drop_past a n rest)

-- Appending by `strncat` replaces the terminator and as many bytes behind it as it needs.
pub strncat-text :
    (t rest source : List ℕ) (n : ℕ)
    → NonZero t
    → NonZero (take n source)
    → strncat (t ++ 0 ∷ rest) source n
      ≡ (t ++ take n source) ++ 0 ∷ drop (length (take n source)) rest
unfolding strncat
strncat-text t rest source n p q = rw (
  before_nul-text t rest p,
  before_nul_self (take n source) q,
  drop_past t (length (take n source)) rest,
  append_assoc,
)

pub set_split :
    (xs : List ℕ) (n v : ℕ) → n < length xs → set xs n v ≡ take n xs ++ v ∷ drop (n + 1) xs
set_split [] n v p = absurd (omega arith)
set_split (x ∷ xs) zero v p = refl
set_split (x ∷ xs) (suc n) v p =
    rw (let e : suc n + 1 ≡ suc (n + 1) = omega arith in e)
      (ap (λ (s : List ℕ). x ∷ s) (set_split xs n v (omega arith)))

-- `string[size] = 0; string[size - 1] = c` moves the terminator one byte on.
pub set_char :
    (t : Text) (z x c : ℕ) (rest : List ℕ)
    → set (set (t ++ z ∷ (x ∷ rest)) (length t + 1) 0) (length t) c ≡ (t ++ c ∷ []) ++ 0 ∷ rest
set_char [] z x c rest = refl
set_char (y ∷ t) z x c rest =
    rw (let e : suc (length t) + 1 ≡ suc (length t + 1) = omega arith in e)
      (ap (λ (s : List ℕ). y ∷ s) (set_char t z x c rest))
