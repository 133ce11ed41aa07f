-- ===== src/Linq/Stripped.antt =====
-- The two ways in which src/linq.c makes a path of a target, with and without a slash in front.
use klunok.Prelude.{
  ℕ, ◌<◌, List, [], ◌∷◌, Bool, true, false, Text, ◌≡◌, refl, ap, arith, ◌==◌, ==_iff, Bool-cases,
  inl, inr, text_eq, text_eq→eq,
}
use klunok.Set.Bag.{occurrences}
use klunok.Linq.{is_legacy, strip_legacy_metadata}
use klunok.Linq.Queue.{path_in, paths, AllTargets}

abbrev starts : Text → Bool
starts [] = false
starts (c ∷ t) = c == b'/'

strip-starts : (t : Text) → starts (strip_legacy_metadata (b'/' ∷ t)) ≡ true
unfolding strip_legacy_metadata is_legacy
strip-starts [] = refl
strip-starts (c ∷ []) = ground arith
strip-starts (c ∷ (d ∷ t)) =
    ground (arith, strip-starts t, strip-starts (d ∷ t), ==_iff c b'/', ==_iff d b'/')

-- All paths begin with a slash.
occurs-starts :
    (u : Text) (q : List Text) → AllTargets q → 0 < occurrences u (paths q) → starts u ≡ true
unfolding occurrences
occurs-starts u [] w p = absurd (omega (arith, p))
occurs-starts u ([] ∷ q) w p = absurd (omega (arith, w.0.nonempty))
occurs-starts u ((c ∷ t) ∷ q) w p = elim (Bool-cases (text_eq u (path_in (c ∷ t)))) [
  | inl same ↦ rw (text_eq→eq u (path_in (c ∷ t)) same) (strip-starts t)
  | inr other ↦ occurs-starts u q w.1 (omega (arith, rw other at p))
]

-- A target whose path without a slash in front is in the queue has that path.
pub strip-path_in :
    (t : Text) (q : List Text)
    → AllTargets q
    → 0 < occurrences (strip_legacy_metadata t) (paths q)
    → strip_legacy_metadata t ≡ path_in t
unfolding strip_legacy_metadata
strip-path_in [] q w p = refl
strip-path_in (c ∷ t) q w p = elim (Bool-cases (is_legacy t)) [
  | inl old ↦ rw old refl
  | inr new ↦
      let first = occurs-starts (c ∷ t) q w (rw new at p) in
      rw new (ap (λ (x : ℕ). x ∷ t) ((==_iff c b'/').0 first))
]
