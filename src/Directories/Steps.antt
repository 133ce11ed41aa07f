-- ===== src/Directories/Steps.antt =====
-- The loops of src/parents.c as steps over the directories above the path.
use klunok.Prelude.{
  List, [], ◌∷◌, ◌++◌, Option, none, some, Text, ◌==◌, ◌≡◌, ◌≢◌, refl, sym, arith, Bool-cases, inl,
  inr, ◌⊎◌,
}
use mathlib.Core.List.{reverse}
use klunok.Trace.{Host}
use klunok.Buffer.Append.{tnull_malloc_ample}
use klunok.Buffer.Ample.{IsAmple}
use klunok.Messages.{parents_cannot_create_ancestor, parents_cannot_remove_ancestor}
use klunok.System.{System, Errno, enoent, eexist, eacces, enotempty, epipe, other}
use klunok.Directories.{
  stop, made, create_from, create_behind, create_parents, removed, remove_back,
  remove_empty_parents,
}
use klunok.Directories.Lineage.{ancestors, ancestors_from, climb, climb-reverse}

module _ (sys : System) (h : Host) where
  -- Directories are made one after the other. One that is there already is no error, and any other
  -- failure ends the steps with one.
  pub data Makes : List Text → sys.State → sys.State × Host → Type 0 where
    made_all : {s : sys.State} → Makes [] s (s, h)
    made_one :
        {a : Text} {down : List Text} {s s' : sys.State} {r : sys.State × Host}
        → (sys.mkdir a s ≡ (none, s')) ⊎ (sys.mkdir a s ≡ (some eexist, s'))
        → Makes down s' r
        → Makes (a ∷ down) s r
    not_made :
        {a : Text} {down : List Text} {s s' : sys.State} (e : Errno)
        → sys.mkdir a s ≡ (some e, s')
        → e ≢ eexist
        → Makes (a ∷ down) s (s', stop sys e a parents_cannot_create_ancestor h)

  -- Directories are removed one after the other, up to one that is not empty. Any other failure
  -- ends the steps with an error.
  pub data Removes : List Text → sys.State → sys.State × Host → Type 0 where
    removed_all : {s : sys.State} → Removes [] s (s, h)
    removed_one :
        {a : Text} {up : List Text} {s s' : sys.State} {r : sys.State × Host}
        → sys.rmdir a s ≡ (none, s')
        → Removes up s' r
        → Removes (a ∷ up) s r
    not_empty :
        {a : Text} {up : List Text} {s s' : sys.State}
        → sys.rmdir a s ≡ (some enotempty, s')
        → Removes (a ∷ up) s (s', h)
    not_removed :
        {a : Text} {up : List Text} {s s' : sys.State} (e : Errno)
        → sys.rmdir a s ≡ (some e, s')
        → e ≢ enotempty
        → Removes (a ∷ up) s (s', stop sys e a parents_cannot_remove_ancestor h)

  made-Makes :
      (a : Text) (down : List Text) (s : sys.State) (rest : sys.State → Host → sys.State × Host)
      (m : Option Errno × sys.State)
      → sys.mkdir a s ≡ m
      → Makes down m.1 (rest m.1 h)
      → Makes (a ∷ down) s (made sys m a rest h)
  unfolding made
  made-Makes a down s rest (none, s') e w = made_one (inl e) w
  made-Makes a down s rest (some eexist, s') e w = made_one (inr e) w
  made-Makes a down s rest (some enoent, s') e w = not_made enoent e (λ q. ground (arith, q))
  made-Makes a down s rest (some eacces, s') e w = not_made eacces e (λ q. ground (arith, q))
  made-Makes a down s rest (some epipe, s') e w = not_made epipe e (λ q. ground (arith, q))
  made-Makes a down s rest (some enotempty, s') e w = not_made enotempty e (λ q. ground (arith, q))
  made-Makes a down s rest (some (other n), s') e w = not_made (other n) e (λ q. ground (arith, q))

  removed-Removes :
      (a : Text) (up : List Text) (s : sys.State) (rest : sys.State → Host → sys.State × Host)
      (m : Option Errno × sys.State)
      → sys.rmdir a s ≡ m
      → Removes up m.1 (rest m.1 h)
      → Removes (a ∷ up) s (removed sys m a rest h)
  unfolding removed
  removed-Removes a up s rest (none, s') e w = removed_one e w
  removed-Removes a up s rest (some enotempty, s') e w = not_empty e
  removed-Removes a up s rest (some enoent, s') e w = not_removed enoent e (λ q. ground (arith, q))
  removed-Removes a up s rest (some eacces, s') e w = not_removed eacces e (λ q. ground (arith, q))
  removed-Removes a up s rest (some epipe, s') e w = not_removed epipe e (λ q. ground (arith, q))
  removed-Removes a up s rest (some eexist, s') e w = not_removed eexist e (λ q. ground (arith, q))
  removed-Removes a up s rest (some (other n), s') e w =
      not_removed (other n) e (λ q. ground (arith, q))

  create_from-Makes :
      (t done : Text) (s : sys.State) → Makes (ancestors_from done t) s (create_from sys done t s h)
  unfolding create_from ancestors_from
  create_from-Makes [] done s = made_all
  create_from-Makes (c ∷ t) done s = elim (Bool-cases (c == b'/')) [
    | inr e ↦ rw e (create_from-Makes t (done ++ c ∷ []) s)
    | inl e ↦ rw e (
        made-Makes done (ancestors_from (done ++ c ∷ []) t) s (create_from sys (done ++ c ∷ []) t)
          (sys.mkdir done s) refl (create_from-Makes t (done ++ c ∷ []) (sys.mkdir done s).1))
  ]

  remove_back-Removes : (t : Text) (s : sys.State) → Removes (climb t) s (remove_back sys t s h)
  unfolding remove_back climb
  remove_back-Removes [] s = removed_all
  remove_back-Removes (c ∷ []) s = removed_all
  remove_back-Removes (c ∷ (d ∷ t)) s = elim (Bool-cases (c == b'/')) [
    | inr e ↦ rw e (remove_back-Removes (d ∷ t) s)
    | inl e ↦ rw e (
        removed-Removes (reverse (d ∷ t)) (climb (d ∷ t)) s (remove_back sys (d ∷ t))
          (sys.rmdir (reverse (d ∷ t)) s) refl
          (remove_back-Removes (d ∷ t) (sys.rmdir (reverse (d ∷ t)) s).1))
  ]

  create_behind-Makes :
      (path : Text) (s : sys.State) → Makes (ancestors path) s (create_behind sys path s h)
  unfolding ancestors
  create_behind-Makes [] s = made_all
  create_behind-Makes (c ∷ t) s = create_from-Makes t (c ∷ []) s

  module _ (a : IsAmple h) (path : Text) (s : sys.State) where
    -- With memory left, `create_parents` makes the directories above the path, the topmost first.
    -- One that is there already is no error; any other failure of `mkdir` is, and ends the work.
    pub create_parents-Makes : Makes (ancestors path) s (create_parents sys path s h)
    unfolding create_parents
    create_parents-Makes =
        rw (create_parents, tnull_malloc_ample h a.memory, a.fine) (create_behind-Makes path s)

    -- With memory left, `remove_empty_parents` removes the directories above the path, the nearest
    -- first, up to one that is not empty. Any other failure of `rmdir` is an error and ends the work.
    pub remove_empty_parents-Removes :
        Removes (reverse (ancestors path)) s (remove_empty_parents sys path s h)
    unfolding remove_empty_parents
    remove_empty_parents-Removes =
        rw (remove_empty_parents, tnull_malloc_ample h a.memory, a.fine, sym (climb-reverse path))
          (remove_back-Removes (reverse path) s)
