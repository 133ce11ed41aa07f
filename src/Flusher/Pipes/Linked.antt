-- ===== src/Flusher/Pipes/Linked.antt =====
-- The pipe that `acknowledge` of src/flusher.c keeps.
use klunok.Prelude.{ℕ, none, some, ◌≡◌, ◌<◌, ◌≢◌, ◌⊎◌}
use klunok.Buffer.{Buffer}
use klunok.System.{System}
use klunok.Flusher.{Flusher, FlushRequest}
use klunok.Flusher.Pipes.Descriptors.{IsPipes}

module _ (sys : System) (Open : ℕ → sys.State → Type 0) (pipes : IsPipes sys Open)
    (request : FlushRequest) where
  -- A process is remembered as long as its pipe is open.
  pub data IsLinked (f : Flusher) (s : sys.State) : Type 0 where
    unlinked : f.last_pid ≡ 0 → f.last_pid_fd ≡ none → IsLinked f s
    linked : 0 < f.last_pid → (fd : ℕ) → f.last_pid_fd ≡ some fd → Open fd s → IsLinked f s

  -- What is open behind it is the pipe that is kept, or was open before and is not the old pipe.
  pub record Answered (f : Flusher) (s : sys.State) (f' : Flusher) (s' : sys.State) : Type 0 where
    pub still : IsLinked f' s'
    pub no_leak :
        (g : ℕ) → Open g s' → (f'.last_pid_fd ≡ some g) ⊎ (Open g s × (f.last_pid_fd ≢ some g))
