-- ===== src/Paths/Ancestors.antt =====
-- `get_common_parent_path_length` of src/parents.c finds the nearest common ancestor.
use klunok.Prelude.{
  ℕ, suc, ◌+◌, ◌≤◌, ◌<◌, [], ◌∷◌, ◌++◌, false, Text, ◌≡◌, refl, ap, subst, sym, ◌∙◌, arith, ◌==◌,
  ◌⊎◌, inl, inr, length, Bool-cases, ==_iff,
}
use Prim.Native.Nat.{suc-le-suc}
use klunok.Buffer.Cells.{NonZero}
use klunok.Paths.{is_separator, common_from, get_common_parent_path_length}

-- `d` is the path, or a directory above it, without the slash at its end.
pub data IsAncestor (d : Text) : Text → Type 0 where
  itself : {p : Text} → p ≡ d → IsAncestor d p
  above : {p : Text} (rest : Text) → p ≡ d ++ b'/' ∷ rest → IsAncestor d p

-- `d` is an ancestor of both, and no longer one is.
pub record IsNearest (d first second : Text) : Type 0 where
  pub of_first : IsAncestor d first
  pub of_second : IsAncestor d second
  pub nearest : (e : Text) → IsAncestor e first → IsAncestor e second → length e ≤ length d

-- What the loop finds from the index `i` on: nothing, or an ancestor of both rests.
data Finds (first second : Text) : Type 0 where
  nothing :
      ((e : Text) → IsAncestor e first → IsAncestor e second → ⊥)
      → ((i r : ℕ) → common_from first second i r ≡ r)
      → Finds first second
  found :
      (d : Text)
      → IsNearest d first second
      → ((i r : ℕ) → common_from first second i r ≡ i + length d + 1)
      → Finds first second

ancestor-nil : (e : Text) → IsAncestor e [] → e ≡ []
ancestor-nil e (itself q) = cc
ancestor-nil [] (above rest q) = refl
ancestor-nil (c ∷ e) (above rest q) = absurd (cons_not_nil q)
  where
    cons_not_nil : {x : ℕ} {t : Text} → [] ≡ x ∷ t → ⊥
    cons_not_nil q = cc

-- An ancestor of a text that is not empty is empty, before a slash, or goes on behind its head.
data Heads (e : Text) (x : ℕ) (t : Text) : Type 0 where
  root : e ≡ [] → x ≡ b'/' → Heads e x t
  deeper : (d : Text) → e ≡ x ∷ d → IsAncestor d t → Heads e x t

heads : (e : Text) (x : ℕ) (t : Text) → IsAncestor e (x ∷ t) → Heads e x t
heads [] x t (itself q) = absurd (wrong q)
  where
    wrong : {x : ℕ} {t : Text} → x ∷ t ≡ [] → ⊥
    wrong q = cc
heads (c ∷ e) x t (itself q) =
    let same : c ≡ x = cc in
    let rest : t ≡ e = cc in deeper e (ap (λ (z : ℕ). z ∷ e) same) (itself rest)
heads [] x t (above rest q) = let same : x ≡ b'/' = cc in root refl same
heads (c ∷ e) x t (above rest q) =
    let same : c ≡ x = cc in
    let more : t ≡ e ++ b'/' ∷ rest = cc in deeper e (ap (λ (z : ℕ). z ∷ e) same) (above rest more)

under : (d : Text) (x : ℕ) (t : Text) → IsAncestor d t → IsAncestor (x ∷ d) (x ∷ t)
under d x t (itself q) = itself (ap (λ (s : Text). x ∷ s) q)
under d x t (above rest q) = above rest (ap (λ (s : Text). x ∷ s) q)

here : (t : Text) → IsAncestor [] (b'/' ∷ t)
here t = above t refl

length-root : (e : Text) → e ≡ [] → length e ≤ 0
length-root e q = rw q (omega arith)

slash_free : (x : ℕ) (t : Text) → IsAncestor [] (x ∷ t) → (x == b'/') ≡ false → ⊥
slash_free x t a other = elim (heads [] x t a) [ root z s ↦ ground (arith, s) | deeper d z s ↦ cc ]

-- Where a path ends, the other has an ancestor in common with it only at a slash.
ended : (x : ℕ) (t e : Text) → (x == b'/') ≡ false → e ≡ [] → IsAncestor e (x ∷ t) → ⊥
ended x t e other q a = slash_free x t (subst (λ (z : Text). IsAncestor z (x ∷ t)) q a) other

Finds-nil_cons : (x : ℕ) (t : Text) → 0 < x → Finds [] (x ∷ t)
unfolding common_from is_separator
Finds-nil_cons x t p = elim (Bool-cases (x == b'/')) [
  | inl slash ↦
      let q : x ≡ b'/' = (==_iff x b'/').0 slash in
      found []
        (record {
          of_first = itself refl;
          of_second = rw q (here t);
          nearest = λ e a b. length-root e (ancestor-nil e a);
        })
        (λ i r. rw slash (ground arith))
  | inr other ↦
      nothing (λ e a b. ended x t e other (ancestor-nil e a) b) (λ i r. rw other (ground arith))
]

Finds-cons_nil : (x : ℕ) (t : Text) → 0 < x → Finds (x ∷ t) []
unfolding common_from is_separator
Finds-cons_nil x t p = elim (Bool-cases (x == b'/')) [
  | inl slash ↦
      let q : x ≡ b'/' = (==_iff x b'/').0 slash in
      found []
        (record {
          of_first = rw q (here t);
          of_second = itself refl;
          nearest = λ e a b. length-root e (ancestor-nil e b);
        })
        (λ i r. rw slash (ground arith))
  | inr other ↦
      nothing (λ e a b. ended x t e other (ancestor-nil e b) a) (λ i r. rw other (ground arith))
]

-- One more character that both paths have.
deepen : (x y : ℕ) (a b d : Text) → x ≡ y → IsNearest d a b → IsNearest (x ∷ d) (x ∷ a) (y ∷ b)
deepen x y a b d same n = record {
  of_first = under d x a n.of_first;
  of_second = rw (← same) (under d x b n.of_second);
  nearest = λ e p q. bound e (heads e x a p) (heads e y b q);
}
  where
    bound : (e : Text) → Heads e x a → Heads e y b → length e ≤ suc (length d)
    bound e (root z s) h = rw z (omega arith)
    bound e (deeper c z p) (root w s) = rw w (omega arith)
    bound e (deeper c z p) (deeper f w q) =
        let tails : f ≡ c = cc in
        rw z (suc-le-suc (n.nearest c p (subst (λ (u : Text). IsAncestor u b) tails q)))

-- With nothing below a slash in common, the slash itself is the nearest.
slash_only :
    (a b : Text)
    → ((e : Text) → IsAncestor e a → IsAncestor e b → ⊥)
    → IsNearest [] (b'/' ∷ a) (b'/' ∷ b)
slash_only a b none_below = record {
  of_first = here a;
  of_second = here b;
  nearest = λ e p q. bound e (heads e b'/' a p) (heads e b'/' b q);
}
  where
    bound : (e : Text) → Heads e b'/' a → Heads e b'/' b → length e ≤ 0
    bound e (root z s) h = rw z (omega arith)
    bound e (deeper c z p) (root w s) = rw w (omega arith)
    bound e (deeper c z p) (deeper f w q) =
        let tails : f ≡ c = cc in
        absurd (none_below c p (subst (λ (u : Text). IsAncestor u b) tails q))

-- Nothing in common below a character that is no slash, or two that differ.
nothing_below :
    (x y : ℕ) (a b : Text)
    → (x ≡ y → (x == b'/') ≡ false)
    → (x ≡ y → (e : Text) → IsAncestor e a → IsAncestor e b → ⊥)
    → (e : Text) → IsAncestor e (x ∷ a)
    → IsAncestor e (y ∷ b)
    → ⊥
nothing_below x y a b plain none_below e p q = split (heads e x a p) (heads e y b q)
  where
    split : Heads e x a → Heads e y b → ⊥
    split (root z s) (root w u) =
        let same : x ≡ y = omega (arith, s, u) in ground (arith, plain same, s)
    split (root z s) (deeper f w q) = cc
    split (deeper c z p) (root w u) = cc
    split (deeper c z p) (deeper f w q) =
        let tails : f ≡ c = cc in
        let same : x ≡ y = cc in none_below same c p (subst (λ (u : Text). IsAncestor u b) tails q)

-- The round of the loop at a slash of both paths.
Finds-slash : (a b : Text) → Finds a b → Finds (b'/' ∷ a) (b'/' ∷ b)
unfolding common_from is_separator
Finds-slash a b (nothing none_below stays) =
    found [] (slash_only a b none_below) (λ i r. stays (i + 1) (i + 1) ∙ omega arith)
Finds-slash a b (found d n value) =
    found (b'/' ∷ d) (deepen b'/' b'/' a b d refl n) (λ i r. value (i + 1) (i + 1) ∙ omega arith)

-- The round at one other character.
Finds-same : (x : ℕ) (a b : Text) → 0 < x → (x == b'/') ≡ false → Finds a b → Finds (x ∷ a) (x ∷ b)
unfolding common_from is_separator
Finds-same x a b p other (nothing none_below stays) =
    nothing (nothing_below x x a b (λ s. other) (λ s. none_below))
      (λ i r. ground (arith, stays (i + 1) r))
Finds-same x a b p other (found d n value) =
    found (x ∷ d) (deepen x x a b d refl n) (λ i r. ground (arith, value (i + 1) r))

-- The round at two characters that differ.
Finds-differ : (x y : ℕ) (a b : Text) → 0 < x → 0 < y → (x == y) ≡ false → Finds (x ∷ a) (y ∷ b)
unfolding common_from is_separator
Finds-differ x y a b p q differ =
    nothing (nothing_below x y a b (λ s. absurd (ground arith)) (λ s. absurd (ground arith)))
      (λ i r. ground arith)

finds : (a b : Text) → NonZero a → NonZero b → Finds a b
finds [] [] p q =
    found []
      (record {
        of_first = itself refl;
        of_second = itself refl;
        nearest = λ e u v. length-root e (ancestor-nil e u);
      })
      (λ i r. unfold common_from is_separator in omega arith)
finds [] (y ∷ b) p q = Finds-nil_cons y b q.0
finds (x ∷ a) [] p q = Finds-cons_nil x a p.0
finds (x ∷ a) (y ∷ b) p q =
    let below = finds a b p.1 q.1 in
    elim (Bool-cases (x == y)) [
      | inr differ ↦ Finds-differ x y a b p.0 q.0 differ
      | inl same ↦
          let e : y ≡ x = sym ((==_iff x y).0 same) in
          subst (λ (z : ℕ). Finds (x ∷ a) (z ∷ b)) (sym e)
            (elim (Bool-cases (x == b'/')) [
              | inr other ↦ Finds-same x a b p.0 other below
              | inl slash ↦
                  subst (λ (z : ℕ). Finds (z ∷ a) (z ∷ b)) (sym ((==_iff x b'/').0 slash))
                    (Finds-slash a b below)
            ])
    ]

-- Of the absolute paths `/first` and `/second` the length is that of the nearest common ancestor, with the slash that
-- follows it; if only the root is common to both, it is 1.
pub common_parent-IsNearest :
    (first second : Text)
    → NonZero first
    → NonZero second
    → ((d : Text) × IsNearest d first second
        × (get_common_parent_path_length (b'/' ∷ first) (b'/' ∷ second) ≡ length (b'/' ∷ d) + 1))
      ⊎ (((e : Text) → IsAncestor e first → IsAncestor e second → ⊥)
          × (get_common_parent_path_length (b'/' ∷ first) (b'/' ∷ second) ≡ 1))
unfolding get_common_parent_path_length
common_parent-IsNearest first second p q = elim (finds first second p q) [
  | found d n value ↦ inl (d, n, value 1 1 ∙ omega arith)
  | nothing none_common stays ↦ inr (none_common, stays 1 1)
]
