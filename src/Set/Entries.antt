-- ===== src/Set/Entries.antt =====
-- What changing or removing one entry does to the order of a chain of src/set.c.
use klunok.Prelude.{
  ℕ, List, [], ◌∷◌, Bool, true, some, Text, ◌≡◌, refl, subst, arith, Bool-cases, inl, inr,
}
use klunok.Set.{Entry, is_null, find, modify, erase}
use klunok.Set.Chain.{text, is_text, Absent, IsEntry, IsChain}

pub null-modify :
    (k : Entry → Bool) (f : Entry → Entry) (c : List Entry) → is_null (modify k f c) ≡ is_null c
unfolding modify
null-modify k f [] = refl
null-modify k f (e ∷ c) = ground arith

Absent-modify :
    (u : Text) (m : Entry → Bool) (f : Entry → Entry) (c : List Entry)
    → ((e : Entry) → text (f e) ≡ text e)
    → Absent u c
    → Absent u (modify m f c)
unfolding modify
Absent-modify u m f [] keep w = tt
Absent-modify u m f (e ∷ c) keep w = elim (Bool-cases (m e)) [
  | inl hit ↦ rw hit (rw (keep e) w.0, w.1)
  | inr miss ↦ rw miss (w.0, Absent-modify u m f c keep w.1)
]

Absent-erase : (u : Text) (m : Entry → Bool) (c : List Entry) → Absent u c → Absent u (erase m c)
unfolding erase
Absent-erase u m [] w = tt
Absent-erase u m (e ∷ c) w = elim (Bool-cases (m e)) [
  | inl hit ↦ rw hit w.1
  | inr miss ↦ rw miss (w.0, Absent-erase u m c w.1)
]

pub IsChain-modify :
    (n i : ℕ) (t : Text) (f : Entry → Entry) (c : List Entry)
    → ((e : Entry) → text (f e) ≡ text e)
    → ((e : Entry) → find (is_text t) c ≡ some e → IsEntry n i e → IsEntry n i (f e))
    → IsChain n i c
    → IsChain n i (modify (is_text t) f c)
unfolding modify find
IsChain-modify n i t f [] keep good w = tt
IsChain-modify n i t f (e ∷ c) keep good w = elim (Bool-cases (is_text t e)) [
  | inl hit ↦ rw hit (good e (rw hit) w.0, rw (keep e) w.1, w.2)
  | inr miss ↦ rw miss (
    w.0,
    Absent-modify (text e) (is_text t) f c keep w.1,
    IsChain-modify n i t f c keep (λ x q. good x (rw miss q)) w.2,
  )
]

pub IsChain-erase :
    (n i : ℕ) (m : Entry → Bool) (c : List Entry) → IsChain n i c → IsChain n i (erase m c)
unfolding erase
IsChain-erase n i m [] w = tt
IsChain-erase n i m (e ∷ c) w = elim (Bool-cases (m e)) [
  | inl hit ↦ rw hit w.2
  | inr miss ↦ rw miss (w.0, Absent-erase (text e) m c w.1, IsChain-erase n i m c w.2)
]

-- What is found stands in the chain, so it is in order, and it has the text.
pub find-IsEntry :
    (n i : ℕ) (t : Text) (c : List Entry) (e : Entry)
    → IsChain n i c
    → find (is_text t) c ≡ some e
    → IsEntry n i e × (is_text t e ≡ true)
unfolding find
find-IsEntry n i t [] e w q = absurd (ground arith)
find-IsEntry n i t (x ∷ c) e w q = elim (Bool-cases (is_text t x)) [
  | inl hit ↦
      let same : x ≡ e = ground arith in
      (subst (λ (y : Entry). IsEntry n i y) same w.0, rw (← same) hit)
  | inr miss ↦ find-IsEntry n i t c e w.2 (rw miss at q)
]
