-- ===== src/Directories/Lineage.antt =====
-- The directories above a path, which the loops of src/parents.c go over.
use klunok.Prelude.{
  ℕ, ◌<◌, List, [], ◌∷◌, ◌++◌, append-nil, append_assoc, Bool, Text, ◌==◌, ◌≡◌, refl, arith,
  if◌then◌else◌, length, length-append, Bool-cases, inl, inr,
}
use mathlib.Core.List.{reverse, reverse-cons, reverse-append, reverse-reverse}

-- The texts before a slash, from `done` on.
unfoldable pub ancestors_from : Text → Text → List Text
ancestors_from done [] = []
ancestors_from done (c ∷ t) =
    let rest = ancestors_from (done ++ c ∷ []) t in if c == b'/' then done ∷ rest else rest

-- Each directory above a path, the topmost first. The root is none.
unfoldable pub ancestors : Text → List Text
ancestors [] = []
ancestors (c ∷ t) = ancestors_from (c ∷ []) t

unfoldable pub climb : Text → List Text
climb [] = []
climb (c ∷ []) = []
climb (c ∷ (d ∷ t)) = let rest = climb (d ∷ t) in if c == b'/' then reverse (d ∷ t) ∷ rest else rest

abbrev last_if : Bool → Text → List Text
last_if b p = if b then p ∷ [] else []

ancestors_from-snoc :
    (done t : Text) (c : ℕ)
    → ancestors_from done (t ++ c ∷ []) ≡ ancestors_from done t ++ last_if (c == b'/') (done ++ t)
unfolding ancestors_from
ancestors_from-snoc done [] c =
    rw (append-nil done) (elim (Bool-cases (c == b'/')) [ inl e ↦ rw e refl | inr e ↦ rw e refl ])
ancestors_from-snoc done (x ∷ t) c =
    let rest = ancestors_from-snoc (done ++ x ∷ []) t c in
    let whole : (done ++ x ∷ []) ++ t ≡ done ++ x ∷ t = append_assoc done (x ∷ []) t in
    elim (Bool-cases (x == b'/')) [
      | inl e ↦ rw (e, rest, whole) refl
      | inr e ↦ rw (e, rest, whole) refl
    ]

ancestors-snoc :
    (p : Text) (c : ℕ)
    → 0 < length p
    → ancestors (p ++ c ∷ []) ≡ ancestors p ++ last_if (c == b'/') p
unfolding ancestors
ancestors-snoc [] c p = absurd (omega (arith, p))
ancestors-snoc (x ∷ t) c p = ancestors_from-snoc (x ∷ []) t c

climb-ancestors : (r : Text) → climb r ≡ reverse (ancestors (reverse r))
unfolding climb ancestors ancestors_from
climb-ancestors [] = refl
climb-ancestors (c ∷ []) = refl
climb-ancestors (c ∷ (d ∷ t)) =
    let some' : 0 < length (reverse (d ∷ t)) =
      rw (reverse-cons d t, length-append (reverse t) (d ∷ [])) (omega arith) in
    rw (reverse-cons c (d ∷ t), ancestors-snoc (reverse (d ∷ t)) c some')
      (elim (Bool-cases (c == b'/')) [
        | inl e ↦ rw (e, climb-ancestors (d ∷ t), reverse-append) refl
        | inr e ↦ rw (e, climb-ancestors (d ∷ t), append-nil) refl
      ])

-- Going back over a path meets its ancestors, the nearest one first.
pub climb-reverse : (path : Text) → climb (reverse path) ≡ reverse (ancestors path)
climb-reverse path = rw (climb-ancestors (reverse path), reverse-reverse) refl
