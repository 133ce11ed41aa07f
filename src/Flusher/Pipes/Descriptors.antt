-- ===== src/Flusher/Pipes/Descriptors.antt =====
-- The laws of the calls on descriptors that `acknowledge` of src/flusher.c makes.
use klunok.Prelude.{
  List, ℕ, Option, none, some, Text, ◌≡◌, sym, ap, ◌==◌, ◌≢◌, ◌⊎◌, Bool-cases, inl, inr, arith,
}
use klunok.System.{System, Errno, Answer, fails, gives}

-- What the calls on descriptors do. `Open fd s`: the descriptor is open.
pub record IsPipes (sys : System) (Open : ℕ → sys.State → Type 0) : Type 0 where
  pub opened :
      (path : Text) (fd : ℕ) (s s' : sys.State)
      → sys.open_pipe path s ≡ (gives fd, s')
      → Open fd s' × ¬ Open fd s
  pub kept : (path : Text) (g : ℕ) (s : sys.State) → Open g s → Open g (sys.open_pipe path s).1
  pub only :
      (path : Text) (g : ℕ) (s : sys.State)
      → Open g (sys.open_pipe path s).1
      → Open g s ⊎ ((sys.open_pipe path s).0 ≡ gives g)
  pub closes : (fd g : ℕ) (s : sys.State) → Open g (sys.close fd s) → Open g s × (g ≢ fd)
  pub spares : (fd g : ℕ) (s : sys.State) → Open g s → g ≢ fd → Open g (sys.close fd s)
  pub write_keeps :
      (fd : ℕ) (t : List ℕ) (g : ℕ) (s : sys.State) → Open g s → Open g (sys.write fd t s).1
  pub write_only :
      (fd : ℕ) (t : List ℕ) (g : ℕ) (s : sys.State) → Open g (sys.write fd t s).1 → Open g s

pub is_some-cases : (o : Option ℕ) (g : ℕ) → (o ≡ some g) ⊎ (o ≢ some g)
is_some-cases none g = inr (λ e. ground (arith, e))
is_some-cases (some fd) g = elim (Bool-cases (fd == g)) [
  | inl e ↦ inl (ground (arith, e))
  | inr e ↦ inr (λ same. ground (arith, e, same))
]

pub gives-fd : (fd g : ℕ) → gives fd ≡ gives g → g ≡ fd
gives-fd fd g e = ap value (sym e)
  where
    value : Answer ℕ → ℕ
    value (fails n) = 0
    value (gives m) = m

pub fails-gives : (n : Errno) (g : ℕ) → ¬ (fails n ≡ gives g)
fails-gives n g e = ground (arith, e)
