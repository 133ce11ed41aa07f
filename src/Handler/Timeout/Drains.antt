-- ===== src/Handler/Timeout/Drains.antt =====
-- What `handle_timeout` of src/handler.c leaves of the queue.
use klunok.Prelude.{ℕ, ◌+◌, ◌-◌, ◌<◌, List, [], ◌∷◌, false, some, Text, ◌≡◌, ◌⊎◌}
use klunok.Trace.{Host, ok, try}
use klunok.Buffer.Ample.{IsReady}
use klunok.Buffer.Decimal.{decimal}
use klunok.System.{System, gives}
use klunok.Linq.{Linq, LinqHead, forever, seconds, get_head, pop_head}
use klunok.Linq.Queue.{IsLinkStore, Represents}
use klunok.Handler.Timeout.{Timeout}
use klunok.Handler.Timeout.Marked.{KeepsQueue, stored}

module _ (sys : System) (store : Text → ℕ → sys.State → Host → sys.State × Host) where
  -- `Rounds l s l' s' ps`: `get_head` gives one due head after the other, with the paths `ps`, and
  -- each is stored and then taken off, in this order, until a head has a pause.
  pub data Rounds (h : Host) (l' : Linq) (s' : sys.State)
      : Linq → sys.State → List Text → Type 0 where
    rests :
        (l : Linq) (s : sys.State) (head : LinqHead)
        → get_head sys l s (try h) ≡ (some head, l', s', try h)
        → Rounds h l' s' l s []
    stores :
        (l l1 l2 : Linq) (s s1 s2 : sys.State) (head : LinqHead) (p : Text) (ps : List Text)
        → get_head sys l s (try h) ≡ (some head, l1, s1, try h)
        → head.path ≡ some p
        → head.pause ≡ seconds 0
        → pop_head sys l1 (stored sys store p s1 h) h ≡ (l2, s2, h)
        → Rounds h l' s' l2 s2 ps
        → Rounds h l' s' l s (p ∷ ps)

  -- The due heads were stored and taken off. What is left of the queue is empty, or its head is not
  -- due, by its modification time.
  pub record Drained (l : Linq) (s : sys.State) (h : Host) (r : Timeout sys store) : Type 0 where
    pub rest : List Text
    pub taken : List Text
    pub rounds : Rounds h r.1 r.2 l s taken
    pub host : r.3 ≡ h
    pub represents : Represents sys r.1 r.2 rest
    pub pause :
        ((r.0 ≡ forever) × (rest ≡ []))
        ⊎ ((mtime : ℕ) × (sys.mtime_at r.1.dirfd (decimal r.1.head_index) r.2 ≡ gives mtime)
            × (sys.time r.2 < mtime + r.1.debounce_seconds)
            × (r.0 ≡ seconds (mtime + r.1.debounce_seconds - sys.time r.2)))

  module _ (links : IsLinkStore sys) (dirfd : ℕ) (keeps : KeepsQueue sys store dirfd) (h : Host)
      (a : IsReady h) where
    abbrev Outcome : Linq → sys.State → Timeout sys store → Type 0
    Outcome l s r = Drained l s h r ⊎ (ok r.3 ≡ false)

    abbrev Again : Type 0
    Again = Linq → sys.State → Host → Timeout sys store
