-- ===== src/Main/Mounts.antt =====
-- The loop over the write mounts of src/main.c.
use klunok.Prelude.{
  ℕ, ◌+◌, ◌≤◌, List, [], ◌∷◌, Option, none, some, Text, ◌≡◌, refl, ap, subst, arith, length, inl,
  inr, Bool-cases,
}
use klunok.Trace.{Host, ok}
use klunok.Set.{Set, is_within}
use klunok.Buffer.{View, create_buffer_view}
use klunok.System.{System, Errno, Answer, fails, gives, tneg_ask, asked}
use klunok.Mountinfo.{make_mount, mount_resolved, mount_unless}
use klunok.Paths.{get_common_parent_path_length}
use klunok.Main.{or_null, next_length, write_round, watch, watch_writes}
use klunok.Main.Parents.{Shares, Shares-less, Shares-trans, common_parent-Shares, IsAbsolute}

abbrev or_none : Option ℕ → ℕ
or_none none = 0
or_none (some n) = n

-- The mounts from one on, and the length behind them.
pub common_over : Text → ℕ → List Text → ℕ
common_over previous common [] = common
common_over previous common (mount ∷ mounts) =
    common_over mount (next_length (some previous) common mount) mounts

-- All directories begin with the characters of the first one.
abbrev pub AllShare : ℕ → Text → List Text → Type 0
AllShare n first [] = Unit {0}
AllShare n first (mount ∷ mounts) = Shares n first mount × AllShare n first mounts

abbrev pub AllAbsolute : List Text → Type 0
AllAbsolute [] = Unit {0}
AllAbsolute (mount ∷ mounts) = IsAbsolute mount × AllAbsolute mounts

next_length-le :
    (previous mount : Text) (common : ℕ)
    → (next_length (some previous) common mount ≤ common)
      × (next_length (some previous) common mount ≤ get_common_parent_path_length previous mount)
next_length-le previous mount common = (ground arith, ground arith)

AllShare-moved :
    (n : ℕ) (first second : Text) (mounts : List Text)
    → Shares n first second
    → AllShare n second mounts
    → AllShare n first mounts
AllShare-moved n first second [] w v = tt
AllShare-moved n first second (mount ∷ mounts) w v =
    (Shares-trans n first second mount w v.0, AllShare-moved n first second mounts w v.1)

common_over-AllShare :
    (previous : Text) (common : ℕ) (mounts : List Text)
    → IsAbsolute previous
    → AllAbsolute mounts
    → (common_over previous common mounts ≤ common)
      × AllShare (common_over previous common mounts) previous mounts
unfolding common_over
common_over-AllShare previous common [] w v = (omega arith, tt)
common_over-AllShare previous common (mount ∷ mounts) w v =
    let next = next_length (some previous) common mount in
    let (less, shared) = common_over-AllShare mount next mounts v.0 v.1 in
    let (small, near) = next_length-le previous mount common in
    let here : Shares (common_over mount next mounts) previous mount =
      Shares-less (common_over mount next mounts) (get_common_parent_path_length previous mount)
        previous mount (omega (arith, less, near)) (common_parent-Shares previous mount w v.0) in
    (
      omega (arith, less, small),
      (here, AllShare-moved (common_over mount next mounts) previous mount mounts here shared),
    )

module _ (sys : System) where
  -- Each mount is what a path is resolved to.
  pub data Resolves : List Text → List Text → Type 0 where
    end : Resolves [] []
    one :
        (path mount : Text) (s : sys.State) (paths mounts : List Text)
        → sys.realpath path s ≡ gives mount
        → Resolves paths mounts
        → Resolves (path ∷ paths) (mount ∷ mounts)

  AllAbsolute-Resolves :
      ((path r : Text) (s : sys.State) → sys.realpath path s ≡ gives r → IsAbsolute r)
      → (paths mounts : List Text) → Resolves paths mounts
      → AllAbsolute mounts
  AllAbsolute-Resolves absolute _ _ end = tt
  AllAbsolute-Resolves absolute _ _ (one path mount s paths mounts e w) =
      (absolute path mount s e, AllAbsolute-Resolves absolute paths mounts w)

  unless-path :
      (path : Text) (view : Option View × Host) (mounts : Set) (s : sys.State) (m : Text)
      → (mount_unless sys path view mounts s).0 ≡ some m
      → path ≡ m
  unless-path path (none, h) mounts s m e = absurd (ground (arith, e))
  unless-path path (some view, h) mounts s m e = elim (Bool-cases (is_within view mounts)) [
    | inl within ↦ ap or_null (rw within at e)
    | inr new ↦ ap or_null (rw new at e)
  ]

  resolved-path :
      (r : Option Text × Host) (mounts : Set) (s : sys.State) (m : Text)
      → (mount_resolved sys r mounts s).0 ≡ some m
      → r.0 ≡ some m
  resolved-path (none, h) mounts s m e = absurd (ground (arith, e))
  resolved-path (some path, h) mounts s m e =
      ap (λ (t : Text). some t) (unless-path path (create_buffer_view path h) mounts s m e)

  asked-gives : (r : Answer Text) (h : Host) (m : Text) → (asked sys r h).0 ≡ some m → r ≡ gives m
  asked-gives (fails n) h m e = absurd (ground (arith, e))
  asked-gives (gives t) h m e = ap (λ (o : Option Text). gives (or_null o)) e

  tneg_ask-gives :
      (call : sys.State → Answer Text) (s : sys.State) (h : Host) (m : Text)
      → (tneg_ask sys call s h).0 ≡ some m
      → call s ≡ gives m
  unfolding tneg_ask
  tneg_ask-gives call s h m e = elim (Bool-cases (ok h)) [
    | inl fine ↦ asked-gives (call s) h m (rw (tneg_ask, fine) at e)
    | inr bad ↦ let none' = rw (tneg_ask, bad) at e in absurd (ground (arith, none'))
  ]

  make_mount-path :
      (path m : Text) (mounts : Set) (s : sys.State) (h : Host)
      → (make_mount sys path mounts s h).0 ≡ some m
      → sys.realpath path s ≡ gives m
  unfolding make_mount
  make_mount-path path m mounts s h e =
      tneg_ask-gives (sys.realpath path) s h m
        (resolved-path (tneg_ask sys (sys.realpath path) s h) mounts s m e)

  module _ (fanotify_mark : ℕ → Text → sys.State → Option Errno × sys.State) (events : ℕ) where
    write_round-path :
        (again : Option Text → ℕ → Set → sys.State → Host → Option ℕ × Set × sys.State × Host)
        (path : Text) (previous : Option Text) (common n : ℕ)
        (r : Option Text × Set × sys.State × Host)
        → (write_round sys fanotify_mark again path previous common r).0 ≡ some n
        → (m : Text) × (r.0 ≡ some m)
          × ((again (some m) (next_length previous common m) r.1 r.2 r.3).0 ≡ some n)
    write_round-path again path previous common n (none, mounts, s, h) e =
        absurd (ground (arith, e))
    write_round-path again path previous common n (some m, mounts, s, h) e =
        elim (Bool-cases (ok h)) [
          | inl fine ↦ (m, refl, rw fine at e)
          | inr bad ↦ let none' = rw bad at e in absurd (ground (arith, none'))
        ]

    -- The loop gives the length over what the paths are resolved to.
    watch_writes-Resolves :
        (paths : List Text) (previous : Text) (common n : ℕ) (mounts : Set) (s : sys.State)
        (h : Host)
        → (watch_writes sys fanotify_mark events paths (some previous) common mounts s h).0 ≡ some n
        → (found : List Text) × Resolves paths found × (common_over previous common found ≡ n)
    unfolding watch_writes common_over
    watch_writes-Resolves [] previous common n mounts s h e =
        ([], end, ap (λ (o : Option ℕ). or_none o) e)
    watch_writes-Resolves (path ∷ paths) previous common n mounts s h e =
        let r = watch sys fanotify_mark events path mounts s h in
        let (m, made, more) =
          write_round-path (watch_writes sys fanotify_mark events paths) path (some previous) common
            n r e in
        let (found, resolved, same) =
          watch_writes-Resolves paths m (next_length (some previous) common m) n r.1 r.2 r.3 more in
        (
          m ∷ found,
          one path m s paths found (make_mount-path path m mounts s h made) resolved,
          same,
        )

    -- If the loop over the mounts to watch ends without an error, there is a length `n` for it, and
    -- the directories that the paths are resolved to all begin with the same `n` characters; no path
    -- below one of them is shorter. `realpath` gives absolute paths.
    pub watch_writes-AllShare :
        ((path r : Text) (s : sys.State) → sys.realpath path s ≡ gives r → IsAbsolute r)
        → (path : Text) (paths : List Text) (n : ℕ) (mounts : Set) (s : sys.State) (h : Host)
        → (watch_writes sys fanotify_mark events (path ∷ paths) none 0 mounts s h).0 ≡ some n
        → (first : Text) × (found : List Text) × Resolves (path ∷ paths) (first ∷ found)
          × (n ≤ length first + 1)
          × AllShare n first found
    unfolding watch_writes
    watch_writes-AllShare absolute path paths n mounts s h e =
        let r = watch sys fanotify_mark events path mounts s h in
        let (m, made, more) =
          write_round-path (watch_writes sys fanotify_mark events paths) path none 0 n r e in
        let (found, resolved, same) =
          watch_writes-Resolves paths m (length m + 1) n r.1 r.2 r.3 more in
        let at_path = make_mount-path path m mounts s h made in
        let (less, shared) =
          common_over-AllShare m (length m + 1) found (absolute path m s at_path)
            (AllAbsolute-Resolves absolute paths found resolved) in
        (
          m,
          found,
          one path m s paths found at_path resolved,
          omega (arith, less, same),
          subst (λ (k : ℕ). AllShare k m found) same shared,
        )
