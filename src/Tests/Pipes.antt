-- ===== src/Tests/Pipes.antt =====
-- The answers of src/flusher.c on a small disk with pipes.
use klunok.Prelude.{ℕ, ◌+◌, ◌==◌, List, [], ◌∷◌, Bool, true, false, ◌≡◌, if◌then◌else◌}
use klunok.System.{System, Answer, fails, gives}
use klunok.Tests.Disk.{Disk, disk}

unfoldable member : ℕ → List ℕ → Bool
member n [] = false
member n (m ∷ ms) = let rest = member n ms in if n == m then true else rest

unfoldable drop_fd : ℕ → List ℕ → List ℕ
drop_fd n [] = []
drop_fd n (m ∷ ms) = let rest = drop_fd n ms in if n == m then rest else m ∷ rest

unfoldable sum : List ℕ → ℕ
sum [] = 0
sum (m ∷ ms) = m + sum ms

-- A descriptor that is not open yet.
abbrev unused : List ℕ → ℕ
unused ms = sum ms + 1

abbrev piped : System
piped = record disk {
  open_pipe = λ p d. (gives (unused d.fds), record d { fds = unused d.fds ∷ d.fds });
  is_pipe = λ fd d. true;
  close = λ fd d. record d { fds = drop_fd fd d.fds };
}

abbrev Open : ℕ → Disk → Type 0
Open fd d = member fd d.fds ≡ true

answer : Answer ℕ × Disk → ℕ
answer (fails e, d) = 0
answer (gives n, d) = n
