-- ===== src/Directories/Tree.antt =====
-- What `create_parents` of src/parents.c leaves in the file system.
use klunok.Prelude.{
  false, refl, refl, ℕ, List, [], ◌∷◌, ◌++◌, append_assoc, append-nil, true, Option, none, some,
  Text, ◌==◌, ◌≡◌, sym, arith, Bool-cases, inl, inr, ◌⊎◌,
}
use klunok.Trace.{Host, ok, throw_context}
use klunok.Messages.{parents_cannot_create_ancestor}
use klunok.Trace.Errors.{throw_static-Thrown}
use klunok.Buffer.Ample.{IsAmple}
use klunok.System.{System, Errno, eexist, throw_errno}
use klunok.Directories.{create_parents}
use klunok.Directories.Lineage.{ancestors, ancestors_from}
use klunok.Directories.Steps.{Makes, made_all, made_one, not_made, create_parents-Makes}

-- What exists once `mkdir` was called.
pub record IsTree (sys : System) (Exists : Text → sys.State → Type 0) : Type 0 where
  pub created : (p : Text) (s s' : sys.State) → sys.mkdir p s ≡ (none, s') → Exists p s'
  pub found : (p : Text) (s s' : sys.State) → sys.mkdir p s ≡ (some eexist, s') → Exists p s'
  pub kept :
      (p q : Text) (s s' : sys.State) (m : Option Errno)
      → sys.mkdir p s ≡ (m, s')
      → Exists q s
      → Exists q s'

module _ (sys : System) (Exists : Text → sys.State → Type 0) (tree : IsTree sys Exists) where
  abbrev AllExist : List Text → sys.State → Type 0
  AllExist [] s = Unit {0}
  AllExist (a ∷ down) s = Exists a s × AllExist down s

  -- An ancestor is a text before a slash.
  AllExist-before :
      (t done rest : Text) (s : sys.State)
      → AllExist (ancestors_from done (t ++ b'/' ∷ rest)) s
      → Exists (done ++ t) s
  unfolding ancestors_from
  AllExist-before [] done rest s w = rw (append-nil done) w.0
  AllExist-before (c ∷ t) done rest s w = elim (Bool-cases (c == b'/')) [
    | inl e ↦
        rw (sym (append_assoc done (c ∷ []) t))
          (AllExist-before t (done ++ c ∷ []) rest s (rw e at w).1)
    | inr e ↦
        rw (sym (append_assoc done (c ∷ []) t))
          (AllExist-before t (done ++ c ∷ []) rest s (rw e at w))
  ]

  one-kept :
      (a q : Text) (s s' : sys.State)
      → (sys.mkdir a s ≡ (none, s')) ⊎ (sys.mkdir a s ≡ (some eexist, s'))
      → Exists q s
      → Exists q s'
  one-kept a q s s' (inl e) w = tree.kept a q s s' none e w
  one-kept a q s s' (inr e) w = tree.kept a q s s' (some eexist) e w

  one-made :
      (a : Text) (s s' : sys.State)
      → (sys.mkdir a s ≡ (none, s')) ⊎ (sys.mkdir a s ≡ (some eexist, s'))
      → Exists a s'
  one-made a s s' (inl e) = tree.created a s s' e
  one-made a s s' (inr e) = tree.found a s s' e

  Makes-kept :
      (h : Host) (down : List Text) (s : sys.State) (r : sys.State × Host) (q : Text)
      → Makes sys h down s r
      → Exists q s
      → Exists q r.0
  Makes-kept h [] s r q made_all w = w
  Makes-kept h (a ∷ down) s r q (made_one {s' = s'} e m) w =
      Makes-kept h down s' r q m (one-kept a q s s' e w)
  Makes-kept h (a ∷ down) s r q (not_made {s' = s'} n e other) w = tree.kept a q s s' (some n) e w

  Makes-AllExist :
      (h : Host) (down : List Text) (s : sys.State) (r : sys.State × Host)
      → ok r.1 ≡ true
      → Makes sys h down s r
      → AllExist down r.0
  Makes-AllExist h [] s r fine made_all = tt
  Makes-AllExist h (a ∷ down) s r fine (made_one {s' = s'} e m) =
      (Makes-kept h down s' r a m (one-made a s s' e), Makes-AllExist h down s' r fine m)
  Makes-AllExist h (a ∷ down) s r fine (not_made {s' = s'} n e other) =
      let bad =
        (throw_static-Thrown parents_cannot_create_ancestor
          (throw_context a (throw_errno sys n h))).fails in
      absurd (ground (arith, fine, bad))

  -- Once `create_parents` is done without an error, what stands before a slash of the path exists.
  pub create_parents-Exists :
      (h : Host)
      → IsAmple h
      → (c : ℕ) (t rest : Text) (s : sys.State)
      → ok (create_parents sys (c ∷ t ++ b'/' ∷ rest) s h).1 ≡ true
      → Exists (c ∷ t) (create_parents sys (c ∷ t ++ b'/' ∷ rest) s h).0
  unfolding ancestors
  create_parents-Exists h a c t rest s fine =
      let path = c ∷ t ++ b'/' ∷ rest in
      AllExist-before t (c ∷ []) rest (create_parents sys path s h).0 (
        Makes-AllExist h (ancestors path) s (create_parents sys path s h) fine
          (create_parents-Makes sys h a path s))

Makes-quiet :
    (sys : System) (h : Host) (down : List Text) (s : sys.State) (r : sys.State × Host)
    → Makes sys h down s r
    → (r.1 ≡ h) ⊎ (ok r.1 ≡ false)
Makes-quiet sys h [] s r made_all = inl refl
Makes-quiet sys h (a ∷ down) s r (made_one {s' = s'} e m) = Makes-quiet sys h down s' r m
Makes-quiet sys h (a ∷ down) s r (not_made n e other) = inr (
    (throw_static-Thrown parents_cannot_create_ancestor
      (throw_context a (throw_errno sys n h))).fails)

-- Nothing but an error changes the host.
pub create_parents-quiet :
    (sys : System) (h : Host)
    → IsAmple h
    → (path : Text) (s : sys.State)
    → ((create_parents sys path s h).1 ≡ h) ⊎ (ok (create_parents sys path s h).1 ≡ false)
create_parents-quiet sys h a path s =
    Makes-quiet sys h (ancestors path) s (create_parents sys path s h)
      (create_parents-Makes sys h a path s)
