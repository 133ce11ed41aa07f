-- ===== src/Set/Chain.antt =====
-- Chains of src/set.c by the texts of their entries.
use klunok.Prelude.{
  ℕ, ◌%◌, ◌<◌, List, [], ◌∷◌, Bool, true, false, none, Text, ◌≡◌, refl, arith, if◌then◌else◌,
  text_eq, text_eq→eq, Bool-cases, inl, inr,
}
use mathlib.Core.Option
use klunok.Buffer.{View, get_string}
use klunok.Buffer.Hashing.{sdbm}
use klunok.Buffer.Contents.{Reads, Holds, Reads-get_string, Reads-get_length, Reads-get_hash}
use klunok.Set.{Entry, count_mod, matches, find, modify, erase, find_entry}

abbrev pub text : Entry → Text
text e = get_string e.value.view

abbrev pub is_text : Text → Entry → Bool
is_text t e = text_eq t (text e)

-- No entry of the chain has the text.
abbrev pub Absent : Text → List Entry → Type 0
Absent t [] = Unit {0}
Absent t (e ∷ c) = (is_text t e ≡ false) × Absent t c

-- An entry of the head `i` out of `n`.
pub record IsEntry (n i : ℕ) (e : Entry) : Type 0 where
  pub holds : Holds (text e) e.value
  pub home : sdbm (text e) % n ≡ i
  pub positive : 0 < e.count
  pub bounded : e.count < count_mod

-- Every entry belongs to the head, and no text stands twice.
abbrev pub IsChain : ℕ → ℕ → List Entry → Type 0
IsChain n i [] = Unit {0}
IsChain n i (e ∷ c) = IsEntry n i e × Absent (text e) c × IsChain n i c

-- The three tests of `find_entry` decide whether the texts are equal.
pub matches-text :
    (t : Text) (v : View) (n i : ℕ) (e : Entry)
    → Reads t v
    → IsEntry n i e
    → matches v e ≡ is_text t e
unfolding matches
matches-text t v n i e r w = ground (
  arith,
  (Reads-get_hash t v r).0,
  (Reads-get_hash (text e) e.value.view w.holds.reads).0,
  Reads-get_length t v r,
  Reads-get_length (text e) e.value.view w.holds.reads,
  Reads-get_string t v r,
  text_eq→eq t (text e),
)

module _ (t : Text) (v : View) (n i : ℕ) (r : Reads t v) where
  pub find_entry-text : (c : List Entry) → IsChain n i c → find_entry v c ≡ find (is_text t) c
  unfolding find_entry find
  find_entry-text [] w = refl
  find_entry-text (e ∷ c) w = ground (arith, matches-text t v n i e r w.0, find_entry-text c w.2)

  pub modify-text :
      (f : Entry → Entry) (c : List Entry)
      → IsChain n i c
      → modify (matches v) f c ≡ modify (is_text t) f c
  unfolding modify
  modify-text f [] w = refl
  modify-text f (e ∷ c) w = rw (matches-text t v n i e r w.0, modify-text f c w.2)

  pub erase-text : (c : List Entry) → IsChain n i c → erase (matches v) c ≡ erase (is_text t) c
  unfolding erase
  erase-text [] w = refl
  erase-text (e ∷ c) w = rw (matches-text t v n i e r w.0, erase-text c w.2)

text_eq_swap : (a b : Text) → text_eq a b ≡ text_eq b a
text_eq_swap [] [] = refl
text_eq_swap [] (y ∷ b) = refl
text_eq_swap (x ∷ a) [] = refl
text_eq_swap (x ∷ a) (y ∷ b) = ground (arith, text_eq_swap a b)

pub text_eq_congr : (t u s : Text) → text_eq t s ≡ true → text_eq u s ≡ text_eq u t
text_eq_congr t u s e = rw (text_eq→eq t s e) refl

-- An entry that is not there is not found.
pub find-Absent : (t : Text) (c : List Entry) → Absent t c → find (is_text t) c ≡ none
unfolding find
find-Absent t [] w = refl
find-Absent t (e ∷ c) w = rw (w.0, find-Absent t c w.1)

pub Absent-find : (t : Text) (c : List Entry) → find (is_text t) c ≡ none → Absent t c
unfolding find
Absent-find t [] e = tt
Absent-find t (x ∷ c) e = elim (Bool-cases (is_text t x)) [
  | inl same ↦ absurd (ground arith)
  | inr other ↦ (other, Absent-find t c (rw other at e))
]

-- Changing the entry of `t` shows under `t` only.
pub find-modify :
    (t u : Text) (f : Entry → Entry) (c : List Entry)
    → ((e : Entry) → text (f e) ≡ text e)
    → find (is_text u) (modify (is_text t) f c)
      ≡ (if text_eq u t then Option.map f (find (is_text u) c) else find (is_text u) c)
unfolding find modify
find-modify t u f [] keep = ground arith
find-modify t u f (e ∷ c) keep = ground (
  arith,
  keep e,
  text_eq_congr t u (text e),
  text_eq_congr u t (text e),
  text_eq_swap t u,
  find-modify t u f c keep,
)

-- Removing the entry of `t` shows under `t` only, as no text stands twice.
pub find-erase :
    (t u : Text) (n i : ℕ) (c : List Entry)
    → IsChain n i c
    → find (is_text u) (erase (is_text t) c) ≡ (if text_eq u t then none else find (is_text u) c)
unfolding find erase
find-erase t u n i [] w = ground arith
find-erase t u n i (e ∷ c) w = ground (
  arith,
  text_eq_congr t u (text e),
  text_eq_congr u t (text e),
  text_eq_swap t u,
  text_eq→eq t (text e),
  text_eq→eq u (text e),
  find-Absent (text e) c w.1,
  find-erase t u n i c w.2,
)
