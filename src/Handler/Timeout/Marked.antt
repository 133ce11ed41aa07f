-- ===== src/Handler/Timeout/Marked.antt =====
-- What `handle_timeout` of src/handler.c asks of `store`, and what a call of it for a head leaves.
use klunok.Prelude.{
  ℕ, List, false, Text, ◌≡◌, refl, sym, if◌then◌else◌, arith, length, ◌==◌, Bool-cases, inl, inr,
  ◌⊎◌, subst,
}
use klunok.Trace.{Host, ok}
use klunok.Paths.{char_of}
use klunok.Buffer.Ample.{IsReady}
use klunok.Buffer.Decimal.{decimal}
use klunok.System.{System}
use klunok.Linq.{Linq}
use klunok.Linq.Queue.{IsStamp-kept, Represents, AllLinks-kept}
use klunok.Handler.Timeout.{store_marked}

-- What `store` does with memory left: it changes nothing of the host if there is no error, and
-- nothing of the links in the directory of the queue.
pub record KeepsQueue (sys : System) (store : Text → ℕ → sys.State → Host → sys.State × Host)
    (dirfd : ℕ) : Type 0 where
  pub quiet :
      (p : Text) (t : ℕ) (s : sys.State) (h : Host)
      → IsReady h
      → ((store p t s h).1 ≡ h) ⊎ (ok (store p t s h).1 ≡ false)
  pub kept :
      (p : Text) (t : ℕ) (s : sys.State) (h : Host) (n : Text)
      → sys.link_at dirfd n (store p t s h).0 ≡ sys.link_at dirfd n s
  pub kept_time :
      (p : Text) (t : ℕ) (s : sys.State) (h : Host) (n : Text)
      → sys.mtime_at dirfd n (store p t s h).0 ≡ sys.mtime_at dirfd n s

module _ (sys : System) (store : Text → ℕ → sys.State → Host → sys.State × Host) where
  -- The state behind the call of `store` for a head: only a path that begins with a slash is stored.
  abbrev pub stored : Text → sys.State → Host → sys.State
  stored p s h = if char_of p == b'/' then (store p (sys.time s) s h).0 else s

  module _ (dirfd : ℕ) (keeps : KeepsQueue sys store dirfd) (h : Host) (a : IsReady h) where
    pub store_marked-quiet :
        (p : Text) (s : sys.State)
        → ((store_marked sys store p s h).1 ≡ h) ⊎ (ok (store_marked sys store p s h).1 ≡ false)
    store_marked-quiet p s = elim (Bool-cases (char_of p == b'/')) [
      | inl e ↦ rw e (keeps.quiet p (sys.time s) s h a)
      | inr e ↦ rw e (inl refl)
    ]

    pub store_marked-Represents :
        (p : Text) (l : Linq) (s : sys.State) (q : List Text)
        → l.dirfd ≡ dirfd
        → Represents sys l s q
        → Represents sys l (store_marked sys store p s h).0 q
    store_marked-Represents p l s q same w = elim (Bool-cases (char_of p == b'/')) [
      | inr e ↦ rw e w
      | inl e ↦ rw e (record {
        links =
            AllLinks-kept sys l.dirfd l.head_index q s (store p (sys.time s) s h).0
              (λ j from upto.
                subst
                  (λ (fd : ℕ).
                    sys.link_at fd (decimal j) (store p (sys.time s) s h).0
                    ≡ sys.link_at fd (decimal j) s)
                  (sym same) (keeps.kept p (sys.time s) s h (decimal j)))
              w.links;
        targets = w.targets;
        size = w.size;
        room = w.room;
        guess = w.guess;
        valid = w.valid;
        counts = w.counts;
        stamp =
            IsStamp-kept sys l.head_mtime l.dirfd l.head_index (length q) (length q) s
              (store p (sys.time s) s h).0 (omega arith)
              (λ some'.
                subst
                  (λ (fd : ℕ).
                    sys.mtime_at fd (decimal l.head_index) (store p (sys.time s) s h).0
                    ≡ sys.mtime_at fd (decimal l.head_index) s)
                  (sym same) (keeps.kept_time p (sys.time s) s h (decimal l.head_index)))
              w.stamp;
      })
    ]

    pub store_marked-stored :
        (p : Text) (s : sys.State) → (store_marked sys store p s h).0 ≡ stored p s h
    store_marked-stored p s = elim (Bool-cases (char_of p == b'/')) [
      | inl e ↦ rw e refl
      | inr e ↦ rw e refl
    ]
