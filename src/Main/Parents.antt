-- ===== src/Main/Parents.antt =====
-- What the length that src/main.c computes over its mounts stands for.
use klunok.Prelude.{
  ℕ, zero, suc, ◌+◌, ◌≤◌, ◌<◌, [], ◌∷◌, ◌++◌, true, Text, ◌≡◌, refl, sym, ap, ◌∙◌, arith, length,
  take, inl, inr, Bool-cases, ◌==◌, ◌&&◌,
}
use klunok.Buffer.Cells.{NonZero}
use klunok.Paths.{common_from, is_separator, get_common_parent_path_length}

-- A path as a directory.
abbrev pub directory : Text → Text
directory t = t ++ b'/' ∷ []

-- Both directories begin with the same `n` characters.
pub record Shares (n : ℕ) (first second : Text) : Type 0 where
  pub start : take n (directory first) ≡ take n (directory second)
  pub first_fits : n ≤ length first + 1
  pub second_fits : n ≤ length second + 1

pub data Agrees (first second : Text) (i r : ℕ) : Type 0 where
  nothing : common_from first second i r ≡ r → Agrees first second i r
  some_of :
      (k : ℕ)
      → common_from first second i r ≡ i + k
      → Shares k first second
      → Agrees first second i r

Shares-suc : (x y k : ℕ) (t u : Text) → x ≡ y → Shares k t u → Shares (suc k) (x ∷ t) (y ∷ u)
Shares-suc x y k t u same w = record {
  start = rw same (ap (λ (v : Text). y ∷ v) w.start);
  first_fits = omega (arith, w.first_fits);
  second_fits = omega (arith, w.second_fits);
}

Shares-head : (x y : ℕ) (t u : Text) → x ≡ y → Shares 1 (x ∷ t) (y ∷ u)
Shares-head x y t u same = record {
  start = rw same refl;
  first_fits = omega arith;
  second_fits = omega arith;
}

is_slash : (x : ℕ) → 0 < x → is_separator x ≡ true → x ≡ b'/'
unfolding is_separator
is_slash x p e = ground (arith, p, e)

-- One more character is shared.
Agrees-suc :
    (x y i r n : ℕ) (t u : Text)
    → x ≡ y
    → common_from (x ∷ t) (y ∷ u) i r ≡ common_from t u (i + 1) n
    → Agrees t u (i + 1) n
    → (common_from (x ∷ t) (y ∷ u) i r ≡ n → Agrees (x ∷ t) (y ∷ u) i r)
    → Agrees (x ∷ t) (y ∷ u) i r
Agrees-suc x y i r n t u same step (nothing e) other = other (step ∙ e)
Agrees-suc x y i r n t u same step (some_of k e w) other =
    some_of (suc k) (omega (arith, step, e)) (Shares-suc x y k t u same w)

-- `common_from` gives the length of something that is shared.
common_from-Agrees :
    (first second : Text) (i r : ℕ) → NonZero first → NonZero second → Agrees first second i r
unfolding common_from
common_from-Agrees [] [] i r w v =
    some_of 1 refl (record { start = refl; first_fits = omega arith; second_fits = omega arith })
common_from-Agrees [] (y ∷ u) i r w v = elim (Bool-cases (is_separator y)) [
  | inr e ↦ nothing (rw e refl)
  | inl e ↦
      let slash = is_slash y v.0 e in
      some_of 1 (rw e refl)
        (record { start = rw slash refl; first_fits = omega arith; second_fits = omega arith })
]
common_from-Agrees (x ∷ t) [] i r w v = elim (Bool-cases (is_separator x)) [
  | inr e ↦ nothing (rw e refl)
  | inl e ↦
      let slash = is_slash x w.0 e in
      some_of 1 (rw e refl)
        (record { start = rw slash refl; first_fits = omega arith; second_fits = omega arith })
]
common_from-Agrees (x ∷ t) (y ∷ u) i r w v = elim (Bool-cases (is_separator x && is_separator y)) [
  | inl both ↦
      let sx = is_slash x w.0 (ground (arith, both)) in
      let sy = is_slash y v.0 (ground (arith, both)) in
      let step : common_from (x ∷ t) (y ∷ u) i r ≡ common_from t u (i + 1) (i + 1) =
        rw both (ground (arith, sx, sy)) in
      Agrees-suc x y i r (i + 1) t u (sx ∙ sym sy) step
        (common_from-Agrees t u (i + 1) (i + 1) w.1 v.1)
        (λ e. some_of 1 e (Shares-head x y t u (sx ∙ sym sy)))
  | inr e ↦ elim (Bool-cases (x == y)) [
    | inr differ ↦ nothing (rw (e, differ) refl)
    | inl same ↦
        Agrees-suc x y i r r t u (ground (arith, same)) (rw (e, same) refl)
          (common_from-Agrees t u (i + 1) r w.1 v.1) nothing
  ]
]

-- An absolute path of text.
pub record IsAbsolute (path : Text) : Type 0 where
  pub rest : Text
  pub path_is : path ≡ b'/' ∷ rest
  pub nonzero : NonZero rest

-- The length of the common parent is that of a start that both directories share.
pub common_parent-Shares :
    (first second : Text)
    → IsAbsolute first
    → IsAbsolute second
    → Shares (get_common_parent_path_length first second) first second
unfolding get_common_parent_path_length
common_parent-Shares first second w v =
    rw (w.path_is, v.path_is)
      (slashed w.rest v.rest (common_from-Agrees w.rest v.rest 1 1 w.nonzero v.nonzero))
  where
    slashed : (t u : Text) → Agrees t u 1 1 → Shares (common_from t u 1 1) (b'/' ∷ t) (b'/' ∷ u)
    slashed t u (nothing e) = rw e (Shares-head b'/' b'/' t u refl)
    slashed t u (some_of k e s) =
        let e' : common_from t u 1 1 ≡ suc k = omega (arith, e) in
        rw e' (Shares-suc b'/' b'/' k t u refl s)

take-less : (n m : ℕ) (t : Text) → n ≤ m → take n (take m t) ≡ take n t
take-less zero m t p = refl
take-less (suc n) zero t p = absurd (omega (arith, p))
take-less (suc n) (suc m) [] p = refl
take-less (suc n) (suc m) (x ∷ t) p = ap (λ (u : Text). x ∷ u) (take-less n m t (omega (arith, p)))

pub Shares-less : (n m : ℕ) (t u : Text) → n ≤ m → Shares m t u → Shares n t u
Shares-less n m t u p w = record {
  start = sym (take-less n m (directory t) p) ∙ ap (take n) w.start ∙ take-less n m (directory u) p;
  first_fits = omega (arith, p, w.first_fits);
  second_fits = omega (arith, p, w.second_fits);
}

pub Shares-trans : (n : ℕ) (t u v : Text) → Shares n t u → Shares n u v → Shares n t v
Shares-trans n t u v a b = record {
  start = a.start ∙ b.start;
  first_fits = a.first_fits;
  second_fits = b.second_fits;
}
