-- ===== src/Linq/Queue.antt =====
-- The queue that the directory and the set of src/linq.c stand for: the targets of the links, in
-- the order of their numbers.
use klunok.Prelude.{
  ℕ, suc, ◌+◌, ◌*◌, ◌<◌, ◌≤◌, List, [], ◌∷◌, ◌++◌, false, Option, none, some, Text, ◌≡◌, ◌≢◌, refl,
  sym, ap, ◌∙◌, arith, length, text_eq, text_eq→eq, if◌then◌else◌, Bool-cases, inl, inr,
}
use klunok.Buffer.{size_mod}
use klunok.Buffer.Cells.{NonZero}
use klunok.Buffer.Decimal.{decimal, value_from, value-decimal}
use klunok.Set.Valid.{IsValid}
use klunok.Set.Bag.{counted, occurrences}
use klunok.System.{System, Errno, enoent, fails, gives}
use klunok.Linq.{Linq, slashed, strip_legacy_metadata}

-- What the calls on links do to the links of a directory.
pub record IsLinkStore (sys : System) : Type 0 where
  pub symlinked :
      (t n : Text) (fd : ℕ) (s : sys.State)
      → (sys.symlinkat t fd n s).0 ≡ none
      → (m : Text)
      → sys.link_at fd m (sys.symlinkat t fd n s).1
        ≡ (if text_eq m n then gives t else sys.link_at fd m s)
  pub not_symlinked :
      (t n : Text) (fd : ℕ) (s : sys.State) (e : Errno)
      → (sys.symlinkat t fd n s).0 ≡ some e
      → (m : Text) → sys.link_at fd m (sys.symlinkat t fd n s).1 ≡ sys.link_at fd m s
  pub unlinked :
      (n : Text) (fd : ℕ) (s : sys.State)
      → (sys.unlinkat fd n s).0 ≡ none
      → (m : Text) → text_eq m n ≡ false
      → sys.link_at fd m (sys.unlinkat fd n s).1 ≡ sys.link_at fd m s
  pub removed :
      (n : Text) (fd : ℕ) (s : sys.State)
      → (sys.unlinkat fd n s).0 ≡ none
      → sys.link_at fd n (sys.unlinkat fd n s).1 ≡ fails enoent
  -- Another link, and a link that is not made, leave the modification times.
  pub stamped :
      (t n : Text) (fd : ℕ) (s : sys.State)
      → (sys.symlinkat t fd n s).0 ≡ none
      → (m : Text) → text_eq m n ≡ false
      → sys.mtime_at fd m (sys.symlinkat t fd n s).1 ≡ sys.mtime_at fd m s
  pub not_stamped :
      (t n : Text) (fd : ℕ) (s : sys.State) (e : Errno)
      → (sys.symlinkat t fd n s).0 ≡ some e
      → (m : Text) → sys.mtime_at fd m (sys.symlinkat t fd n s).1 ≡ sys.mtime_at fd m s

-- The path that a target stands for in the set.
abbrev pub path_in : Text → Text
path_in t = strip_legacy_metadata (slashed t)

abbrev pub paths : List Text → List Text
paths [] = []
paths (t ∷ q) = path_in t ∷ paths q

pub record IsTarget (t : Text) : Type 0 where
  pub nonempty : 0 < length t
  pub nonzero : NonZero t
  pub short : (length t + 1) * 2 < size_mod

abbrev pub AllTargets : List Text → Type 0
AllTargets [] = Unit {0}
AllTargets (t ∷ q) = IsTarget t × AllTargets q

-- Different numbers are written differently.
pub decimal_differs :
    (m n : ℕ) → m < size_mod → n < size_mod → m ≢ n → text_eq (decimal m) (decimal n) ≡ false
decimal_differs m n p q other' = elim (Bool-cases (text_eq (decimal m) (decimal n))) [
  | inr other ↦ other
  | inl same ↦
      let e : m ≡ n =
        sym (value-decimal m p)
        ∙ ap (value_from 0) (text_eq→eq (decimal m) (decimal n) same)
        ∙ value-decimal n q in
      absurd (other' e)
]

module _ (sys : System) where
  -- The links from the number `i` on have the targets of the queue.
  abbrev pub AllLinks : ℕ → ℕ → List Text → sys.State → Type 0
  AllLinks fd i [] s = Unit {0}
  AllLinks fd i (t ∷ q) s = (sys.link_at fd (decimal i) s ≡ gives t) × AllLinks fd (i + 1) q s

  -- A modification time that is kept is that of the first link, of a queue that has one.
  abbrev pub IsStamp : Option ℕ → ℕ → ℕ → ℕ → sys.State → Type 0
  IsStamp none fd i n s = Unit {0}
  IsStamp (some m) fd i n s = (0 < n) × (sys.mtime_at fd (decimal i) s ≡ gives m)

  pub record Represents (l : Linq) (s : sys.State) (q : List Text) : Type 0 where
    pub links : AllLinks l.dirfd l.head_index q s
    pub targets : AllTargets q
    pub size : l.size ≡ length q
    pub room : l.head_index + length q < size_mod
    pub guess : l.length_guess + 1 < size_mod
    pub valid : IsValid l.set
    pub counts : (u : Text) → counted l.set u ≡ occurrences u (paths q)
    pub stamp : IsStamp l.head_mtime l.dirfd l.head_index (length q) s

  pub IsStamp-kept :
      (o : Option ℕ) (fd i n n' : ℕ) (s s' : sys.State)
      → n ≤ n'
      → (0 < n → sys.mtime_at fd (decimal i) s' ≡ sys.mtime_at fd (decimal i) s)
      → IsStamp o fd i n s
      → IsStamp o fd i n' s'
  IsStamp-kept none fd i n n' s s' p same w = tt
  IsStamp-kept (some m) fd i n n' s s' p same w = (omega (arith, p, w.0), same w.0 ∙ w.1)

  -- Links that are not touched keep their targets.
  pub AllLinks-kept :
      (fd i : ℕ) (q : List Text) (s s' : sys.State)
      → ((j : ℕ)
          → i ≤ j
          → j < i + length q
          → sys.link_at fd (decimal j) s' ≡ sys.link_at fd (decimal j) s)
      → AllLinks fd i q s
      → AllLinks fd i q s'
  AllLinks-kept fd i [] s s' same w = tt
  AllLinks-kept fd i (t ∷ q) s s' same w = (
    same i (omega arith) (omega arith) ∙ w.0,
    AllLinks-kept fd (i + 1) q s s' (λ j p r. same j (omega arith) (omega arith)) w.1,
  )

  pub AllLinks-snoc :
      (fd i : ℕ) (q : List Text) (t : Text) (s : sys.State)
      → AllLinks fd i q s
      → sys.link_at fd (decimal (i + length q)) s ≡ gives t
      → AllLinks fd i (q ++ t ∷ []) s
  AllLinks-snoc fd i [] t s w e =
      ((ap (λ (n : ℕ). sys.link_at fd (decimal n) s) (omega arith) ∙ e), tt)
  AllLinks-snoc fd i (u ∷ q) t s w e = (
    w.0,
    AllLinks-snoc fd (i + 1) q t s w.1
        (ap (λ (n : ℕ). sys.link_at fd (decimal n) s) (omega arith) ∙ e),
  )

pub paths-snoc : (q : List Text) (t : Text) → paths (q ++ t ∷ []) ≡ paths q ++ path_in t ∷ []
paths-snoc [] t = refl
paths-snoc (u ∷ q) t = ap (λ (l : List Text). path_in u ∷ l) (paths-snoc q t)

pub AllTargets-snoc :
    (q : List Text) (t : Text) → AllTargets q → IsTarget t → AllTargets (q ++ t ∷ [])
AllTargets-snoc [] t w v = (v, tt)
AllTargets-snoc (u ∷ q) t w v = (w.0, AllTargets-snoc q t w.1 v)

pub length-paths : (q : List Text) → length (paths q) ≡ length q
length-paths [] = refl
length-paths (t ∷ q) = ap suc (length-paths q)
