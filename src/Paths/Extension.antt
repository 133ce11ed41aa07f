-- ===== src/Paths/Extension.antt =====
-- `get_file_extension` of src/extension.c.
use klunok.Prelude.{
  ℕ, ◌-◌, ◌≤◌, [], ◌∷◌, ◌++◌, Bool, false, ◌&&◌, not, Option, none, some, Text, ◌≡◌, refl, arith,
  ◌==◌, leb, if◌then◌else◌, length, Bool-cases, Option-cases, inl, inr, ◌⊎◌, ap, subst, ◌∙◌, ==_iff,
}
use klunok.Buffer.Cells.{NonZero}
use klunok.Paths.{strchr, strrchr, from_or, behind, get_file_extension, extension_in}

-- The character does not occur.
abbrev pub Free : ℕ → Text → Type 0
Free c [] = Unit {0}
Free c (x ∷ t) = ((x == c) ≡ false) × Free c t

-- What stands from the first dot on, unless that is the first character of the name.
unfoldable pub extension_of : Text → Text
extension_of name = from_or [] (strchr b'.' (behind name))

abbrev pub starts_with_dot : Text → Bool
starts_with_dot [] = false
starts_with_dot (y ∷ t) = y == b'.'

length-strchr : (c : ℕ) (t s : Text) → strchr c t ≡ some s → length s ≤ length t
unfolding strchr
length-strchr c [] s e = absurd (ground arith)
length-strchr c (x ∷ t) s e = ground (arith, length-strchr c t s)

strrchr-Free : (c : ℕ) (t : Text) → Free c t → strrchr c t ≡ none
unfolding strrchr
strrchr-Free c [] p = refl
strrchr-Free c (x ∷ t) p = rw (strrchr-Free c t p.1, p.0)

strrchr-append : (c : ℕ) (a t : Text) → Free c t → strrchr c (a ++ c ∷ t) ≡ some (c ∷ t)
unfolding strrchr
strrchr-append c [] t p = rw (strrchr-Free c t p) (ground arith)
strrchr-append c (x ∷ a) t p = rw (strrchr-append c a t p)

-- A search that found its character begins there.
strchr-head : (c : ℕ) (t s : Text) → strchr c t ≡ some s → s ≡ c ∷ behind s
unfolding strchr
strchr-head c [] s e = absurd (ground arith)
strchr-head c (x ∷ t) s e = elim (Bool-cases (x == c)) [
  | inl hit ↦
      let same : x ∷ t ≡ s = some_inj (rw hit at e) in
      subst (λ (z : Text). z ≡ c ∷ behind z) same (ap (λ (z : ℕ). z ∷ t) ((==_iff x c).0 hit))
  | inr miss ↦ strchr-head c t s (rw miss at e)
]
  where
    some_inj : {a b : Text} → some a ≡ some b → a ≡ b
    some_inj q = cc

-- Behind a slash, a dot in first place is passed over, and any other is taken.
extension_in-slash : (name : Text) → extension_in (b'/' ∷ name) ≡ extension_of name
unfolding extension_in extension_of strchr
extension_in-slash [] = refl
extension_in-slash (x ∷ t) = elim (Option-cases (strchr b'.' t)) [
  | inl none_there ↦ ground (arith, none_there)
  | inr (s, there) ↦ ground (arith, there, length-strchr b'.' t s there)
]

-- With no slash in front, a dot in second place is passed over too.
extension_in-bare :
    (x : ℕ) (t : Text)
    → extension_in (x ∷ t)
      ≡ (if not (x == b'.') && starts_with_dot t then extension_of t else extension_of (x ∷ t))
unfolding extension_in extension_of strchr
extension_in-bare x [] = ground arith
extension_in-bare x (y ∷ t) = elim (Option-cases (strchr b'.' t)) [
  | inl none_there ↦ ground (arith, none_there)
  | inr (s, there) ↦ ground (arith, there, length-strchr b'.' t s there)
]

-- Of a path with a directory, the extension is that of the name: from the first dot behind the
-- first character of the name on, or nothing. Of a path with no slash it is the same unless the
-- second character is the first dot: then that dot is passed over like that of a hidden file.
pub get_file_extension_lem :
    (dir : Text) (x : ℕ) (t : Text)
    → Free b'/' (x ∷ t)
    → (get_file_extension (dir ++ b'/' ∷ (x ∷ t)) ≡ extension_of (x ∷ t))
      × (get_file_extension (x ∷ t)
          ≡ (if not (x == b'.') && starts_with_dot t then extension_of t else extension_of (x ∷ t)))
unfolding get_file_extension
get_file_extension_lem dir x t p = (
  ap (λ (o : Option Text). extension_in (from_or (dir ++ b'/' ∷ (x ∷ t)) o))
        (strrchr-append b'/' dir (x ∷ t) p)
      ∙ extension_in-slash (x ∷ t),
  ap (λ (o : Option Text). extension_in (from_or (x ∷ t) o)) (strrchr-Free b'/' (x ∷ t) p)
      ∙ extension_in-bare x t,
)

-- An extension is empty or begins with a dot.
pub get_file_extension-dot :
    (path : Text)
    → (get_file_extension path ≡ [])
      ⊎ (get_file_extension path ≡ b'.' ∷ behind (get_file_extension path))
unfolding get_file_extension extension_in
get_file_extension-dot path =
    let base = from_or path (strrchr b'/' path) in
    elim (Option-cases (strchr b'.' base)) [
      | inl none_there ↦ inl (rw (none_there, extension_in))
      | inr (s, there) ↦ elim (Bool-cases (leb (length base - length s) 1)) [
        | inr late ↦ inr (rw (there, extension_in, late) (strchr-head b'.' base s there))
        | inl early ↦ elim (Option-cases (strchr b'.' (behind s))) [
          | inl none_more ↦ inl (rw (there, extension_in, early, none_more))
          | inr (u, more) ↦
              inr (rw (there, extension_in, early, more) (strchr-head b'.' (behind s) u more))
        ]
      ]
    ]

-- `s` is made of bytes of `t`.
abbrev IsPart : Text → Text → Type 0
IsPart s t = NonZero s × (length s ≤ length t)

some_same : {a b : Text} → some a ≡ some b → a ≡ b
some_same q = cc

strchr-IsPart : (c : ℕ) (t s : Text) → NonZero t → strchr c t ≡ some s → IsPart s t
unfolding strchr
strchr-IsPart c [] s p e = absurd (ground arith)
strchr-IsPart c (x ∷ t) s p e = elim (Bool-cases (x == c)) [
  | inl hit ↦ subst (λ (z : Text). IsPart z (x ∷ t)) (some_same (rw hit at e)) (p, omega arith)
  | inr miss ↦ let (q, l) = strchr-IsPart c t s p.1 (rw miss at e) in (q, omega arith)
]

strrchr-IsPart : (c : ℕ) (t s : Text) → NonZero t → strrchr c t ≡ some s → IsPart s t
unfolding strrchr
strrchr-IsPart c [] s p e = absurd (ground arith)
strrchr-IsPart c (x ∷ t) s p e = elim (Option-cases (strrchr c t)) [
  | inr (u, there) ↦
      let (q, l) = strrchr-IsPart c t u p.1 there in
      subst (λ (z : Text). IsPart z (x ∷ t)) (some_same (rw (there, strrchr) at e)) (q, omega arith)
  | inl none_there ↦ elim (Bool-cases (x == c)) [
    | inl hit ↦
        subst (λ (z : Text). IsPart z (x ∷ t)) (some_same (rw (none_there, strrchr, hit) at e))
          (p, omega arith)
    | inr miss ↦ absurd (none_same (rw (none_there, strrchr, miss) at e))
  ]
]
  where
    none_same : {a : Text} → none ≡ some a → ⊥
    none_same q = cc

or_nil-IsPart : (c : ℕ) (t : Text) → NonZero t → IsPart (from_or [] (strchr c t)) t
or_nil-IsPart c t p = elim (Option-cases (strchr c t)) [
  | inl e ↦ rw e (tt, omega arith)
  | inr (s, e) ↦ rw e (strchr-IsPart c t s p e)
]

behind-IsPart : (t : Text) → NonZero t → IsPart (behind t) t
behind-IsPart [] p = (tt, omega arith)
behind-IsPart (x ∷ t) p = (p.1, omega arith)

extension_in-IsPart : (base : Text) → NonZero base → IsPart (extension_in base) base
unfolding extension_in
extension_in-IsPart base p = elim (Option-cases (strchr b'.' base)) [
  | inl e ↦ rw (e, extension_in) (tt, omega arith)
  | inr (s, e) ↦
      let (q, l) = strchr-IsPart b'.' base s p e in
      let (q', l') = behind-IsPart s q in
      let (q'', l'') = or_nil-IsPart b'.' (behind s) q' in
      elim (Bool-cases (leb (length base - length s) 1)) [
        | inl early ↦ rw (e, extension_in, early) (q'', omega arith)
        | inr late ↦ rw (e, extension_in, late) (q, l)
      ]
]

-- The extension is made of bytes of the path.
pub get_file_extension-part :
    (path : Text)
    → NonZero path
    → NonZero (get_file_extension path) × (length (get_file_extension path) ≤ length path)
unfolding get_file_extension
get_file_extension-part path p = elim (Option-cases (strrchr b'/' path)) [
  | inl e ↦ rw e (extension_in-IsPart path p)
  | inr (s, e) ↦
      let (q, l) = strrchr-IsPart b'/' path s p e in
      let (q', l') = extension_in-IsPart s q in rw e (q', omega arith)
]
