-- ===== src/Counter/Store.antt =====
-- What the calls on files do, for src/counter.c.
use klunok.Prelude.{ℕ, ◌<◌, ◌≤◌, [], ◌++◌, none, Text, ◌≡◌, ◌≢◌, length, take}
use klunok.System.{System, enoent, fails, gives}

-- `Writing fd p t`: the descriptor is at the end of the file at the path, which has this text.
-- `Reading fd t`: the text is left to be read from it.
pub record IsFileStore (sys : System) (Writing : ℕ → Text → Text → sys.State → Type 0)
    (Reading : ℕ → Text → sys.State → Type 0) (Holding : Text → Text → sys.State → Type 0)
    : Type 0 where
  pub truncated :
      (p : Text) (fd : ℕ) (s s' s2 : sys.State)
      → sys.create_file p s ≡ (gives fd, s')
      → sys.ftruncate fd s' ≡ (none, s2)
      → Writing fd p [] s2
  pub wrote :
      (p t u : Text) (fd n : ℕ) (s s' : sys.State)
      → Writing fd p t s
      → sys.write fd u s ≡ (gives n, s')
      → Writing fd p (t ++ take n u) s'
  pub progress :
      (u : Text) (fd n : ℕ) (s s' : sys.State)
      → sys.write fd u s ≡ (gives n, s')
      → 0 < length u
      → (0 < n) × (n ≤ length u)
  pub closed :
      (p t : Text) (fd : ℕ) (s : sys.State) → Writing fd p t s → Holding p t (sys.close fd s)
  pub opened :
      (p t : Text) (fd : ℕ) (s s' : sys.State)
      → Holding p t s
      → sys.open_file p s ≡ (gives fd, s')
      → Reading fd t s'
  pub present :
      (p t : Text) (s s' : sys.State) → Holding p t s → sys.open_file p s ≢ (fails enoent, s')
  pub came :
      (t u : Text) (fd n : ℕ) (s s' : sys.State)
      → Reading fd t s
      → sys.read fd n s ≡ (gives u, s')
      → (rest : Text) × (t ≡ u ++ rest) × Reading fd rest s'
  -- Only the end of the file gives no bytes.
  pub ended :
      (t : Text) (fd n : ℕ) (s s' : sys.State)
      → Reading fd t s
      → 0 < n
      → sys.read fd n s ≡ (gives [], s')
      → t ≡ []
