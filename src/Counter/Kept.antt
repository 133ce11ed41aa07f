-- ===== src/Counter/Kept.antt =====
-- `write_counter` and `read_counter` of src/counter.c one after the other.
use klunok.Prelude.{
  ℕ, zero, suc, ◌+◌, ◌-◌, ◌^◌, ◌<◌, [], ◌∷◌, ◌++◌, append-nil, append_assoc, true, false, Option,
  none, some, Text, ◌≡◌, ◌≢◌, refl, sym, ap, ◌∙◌, arith, length, length-append, length-drop, take,
  drop, ltb, ◌==◌, Bool-cases, inl, inr, ◌⊎◌,
}
use klunok.Trace.{Host, ok}
use klunok.Trace.Errors.{throw_dynamic-Thrown}
use klunok.Buffer.{Buffer, create_buffer, size_mod, concat_size}
use klunok.Buffer.Ample.{IsAmple}
use klunok.Buffer.Decimal.{decimal, length-decimal}
use klunok.System.{
  System, Errno, enoent, eexist, eacces, enotempty, epipe, other, fails, gives, Reply-cases,
  tneg_get, tneg_do, Result-cases, throw_errno,
}
use klunok.Linq.Names.{build-concat_size-some}
use klunok.Counter.{
  write_opened, write_counter, take_digits, read_digits, write_digits, read_opened, read_counter,
}
use klunok.Linq.{build}
use klunok.Linq.Push.{create_buffer_failed}
use klunok.Directories.{create_parents}
use klunok.Directories.Tree.{create_parents-quiet}
use klunok.Counter.Store.{IsFileStore}
use klunok.Numerals.{strtol-decimal}

nil_of : (t : Text) → length t < 1 → t ≡ []
nil_of [] p = refl
nil_of (c ∷ t) p = absurd (omega (arith, p))

all_got : (got t : Text) → t ≡ [] → some got ≡ some (got ++ t)
all_got got t e = rw (e, append-nil got) refl

take-drop : (n : ℕ) (t : Text) → take n t ++ drop n t ≡ t
take-drop zero t = refl
take-drop (suc n) [] = refl
take-drop (suc n) (c ∷ t) = ap (λ (u : Text). c ∷ u) (take-drop n t)

module _ (sys : System) (Writing : ℕ → Text → Text → sys.State → Type 0)
    (Reading : ℕ → Text → sys.State → Type 0) (Holding : Text → Text → sys.State → Type 0)
    (store : IsFileStore sys Writing Reading Holding) (h : Host) (a : IsAmple h) where
  threw : (n : Errno) → ok (throw_errno sys n h) ≡ false
  threw n = (throw_dynamic-Thrown (sys.strerror n) h).fails

  abbrev Digits : Text → Option Text × sys.State × Host → Type 0
  Digits t r = ((r.0 ≡ some t) × (r.2 ≡ h)) ⊎ ((r.0 ≡ none) × (ok r.2 ≡ false))

  pub read_digits-Digits :
      (fuel fd : ℕ) (got t : Text) (s : sys.State)
      → Reading fd t s
      → length got + length t < 21
      → length t < fuel
      → Digits (got ++ t) (read_digits sys fuel fd got s h)
  unfolding read_digits take_digits tneg_get
  read_digits-Digits zero fd got t s w small p = absurd (omega (arith, p))
  read_digits-Digits (suc fuel) fd got t s w small p = elim (Bool-cases (ltb (length got + 1) 21)) [
    | inr full ↦ rw full (inl (all_got got t (nil_of t (ground (arith, full, small))), refl))
    | inl room ↦ elim (Reply-cases (sys.read fd (21 - length got - 1) s)) [
      | inl (n, s', e) ↦ rw (room, a.fine, e) (inr (refl, threw n))
      | inr ([], s', e) ↦
          rw (room, a.fine, e)
            (inl (
              all_got got t
                  (store.ended t fd (21 - length got - 1) s s' w (ground (arith, room)) e),
              refl,
            ))
      | inr (b ∷ u, s', e) ↦
          let (rest, split, w') = store.came t (b ∷ u) fd (21 - length got - 1) s s' w e in
          let size : length t ≡ length u + length rest + 1 =
            omega (arith, ap (λ (x : Text). length x) split, length-append (b ∷ u) rest) in
          let whole : got ++ t ≡ (got ++ b ∷ u) ++ rest =
            ap (λ (x : Text). got ++ x) split ∙ sym (append_assoc got (b ∷ u) rest) in
          rw (room, a.fine, e, whole)
            (read_digits-Digits fuel fd (got ++ b ∷ u) rest s' w'
              (omega (arith, small, size, length-append got (b ∷ u))) (omega (arith, p, size)))
    ]
  ]

  abbrev Written : ℕ → Text → Text → sys.State × Host → Type 0
  Written fd p t r = ((r.1 ≡ h) × Writing fd p t r.0) ⊎ (ok r.1 ≡ false)

  pub write_digits-Written :
      (fuel fd : ℕ) (p t u : Text) (s : sys.State)
      → Writing fd p t s
      → length u < fuel
      → Written fd p (t ++ u) (write_digits sys fuel fd u s h)
  unfolding write_digits tneg_get
  write_digits-Written zero fd p t u s w q = absurd (omega (arith, q))
  write_digits-Written (suc fuel) fd p t [] s w q = rw (a.fine, append-nil t) (inl (refl, w))
  write_digits-Written (suc fuel) fd p t (c ∷ u) s w q =
      let left : ltb 0 (length (c ∷ u)) ≡ true = ground arith in
      elim (Reply-cases (sys.write fd (c ∷ u) s)) [
        | inl (n, s', e) ↦ rw (a.fine, left, e) (inr (threw n))
        | inr (n, s', e) ↦
            let (some', most) = store.progress (c ∷ u) fd n s s' e (omega arith) in
            let whole : t ++ (c ∷ u) ≡ (t ++ take n (c ∷ u)) ++ drop n (c ∷ u) =
              ap (λ (x : Text). t ++ x) (sym (take-drop n (c ∷ u)))
              ∙ sym (append_assoc t (take n (c ∷ u)) (drop n (c ∷ u))) in
            rw (a.fine, left, e, whole)
              (write_digits-Written fuel fd p (t ++ take n (c ∷ u)) (drop n (c ∷ u)) s'
                (store.wrote p t (c ∷ u) fd n s s' w e)
                (omega (arith, q, some', length-drop n (c ∷ u))))
      ]

  open_failed :
      (e : Errno) (s : sys.State) → e ≢ enoent → ok (read_opened sys (fails e, s) h).2 ≡ false
  open_failed enoent s other' = absurd (other' refl)
  open_failed eexist s other' = threw eexist
  open_failed eacces s other' = threw eacces
  open_failed epipe s other' = threw epipe
  open_failed enotempty s other' = threw enotempty
  open_failed (other n) s other' = threw (other n)

  -- The digits of a number that the file at a path has are read as the number.
  read_counter-Holding :
      (p : Text) (n : ℕ) (s : sys.State)
      → n < 2 ^ 63
      → Holding p (decimal n) s
      → ((read_counter sys p s h).0 ≡ n) ⊎ (ok (read_counter sys p s h).2 ≡ false)
  unfolding read_counter
  read_counter-Holding p n s small w = elim (Reply-cases (sys.open_file p s)) [
    | inl (e, s', failed) ↦ inr (
        rw (read_counter, a.fine, failed)
          (open_failed e s' (λ same.
            store.present p (decimal n) s s' w (failed ∙ ap (λ (x : Errno). (fails x, s')) same))))
    | inr (fd, s', opened) ↦
        elim (read_digits-Digits 21 fd [] (decimal n) s'
          (store.opened p (decimal n) fd s s' w opened)
          (omega (arith, length-decimal n (omega (arith, small))))
          (omega (arith, length-decimal n (omega (arith, small))))) [
            | inl (got, calm) ↦
                inl (rw (read_counter, a.fine, opened, got) (strtol-decimal n small))
            | inr (none', bad) ↦ inr (rw (read_counter, a.fine, opened, none') bad)
          ]
  ]

  -- The file holds the digits, or there is an error.
  abbrev Held : Text → ℕ → sys.State × Host → Type 0
  Held p n r = ((r.1 ≡ h) × Holding p (decimal n) r.0) ⊎ (ok r.1 ≡ false)

  build-failed : (n : ℕ) (k : Host) → ok k ≡ false → build (concat_size n) k ≡ (none, k)
  unfolding build
  build-failed n k bad =
      let e = create_buffer_failed k bad in
      let left : (create_buffer k).1 ≡ k = ap (λ (r : Option Buffer × Host). r.1) e in
      rw (build, e, left) refl

  write_opened-failed :
      (n : ℕ) (s : sys.State) (k : Host) → ok k ≡ false → write_opened sys n (none, s, k) ≡ (s, k)
  unfolding write_opened
  write_opened-failed n s k bad = rw (write_opened, build-failed n k bad) refl

  write_opened-Held :
      (p : Text) (n fd : ℕ) (s s' : sys.State)
      → n < size_mod
      → sys.create_file p s ≡ (gives fd, s')
      → Held p n (write_opened sys n (some fd, s', h))
  unfolding write_opened tneg_do
  write_opened-Held p n fd s s' small created = elim (Result-cases (sys.ftruncate fd s')) [
    | inl (e, s2, failed) ↦
        rw (write_opened, a.fine, failed, build-failed n (throw_errno sys e h) (threw e), threw e)
          (inr (threw e))
    | inr (s2, done) ↦
        let (b, made, named) = build-concat_size-some h a n small in
        let empty = store.truncated p fd s s' s2 created done in
        rw (write_opened, a.fine, done, made, a.fine, named)
          (elim (write_digits-Written (length (decimal n) + 1) fd p [] (decimal n) s2 empty
            (omega arith)) [
              | inr bad ↦ inr bad
              | inl (calm, w) ↦ inl (
                calm,
                store.closed p (decimal n) fd
                    (write_digits sys (length (decimal n) + 1) fd (decimal n) s2 h).0 w,
              )
            ])
  ]

  write_created-Held :
      (p : Text) (n : ℕ) (s : sys.State)
      → n < size_mod
      → Held p n (write_opened sys n (tneg_get sys (sys.create_file p) s h))
  unfolding tneg_get
  write_created-Held p n s small = elim (Reply-cases (sys.create_file p s)) [
    | inl (e, s', failed) ↦
        rw (a.fine, failed, write_opened-failed n s' (throw_errno sys e h) (threw e))
          (inr (threw e))
    | inr (fd, s', created) ↦ rw (a.fine, created) (write_opened-Held p n fd s s' small created)
  ]

  write_counter-Held :
      (p : Text) (n : ℕ) (s : sys.State)
      → n < size_mod
      → 0 < n
      → Held p n (write_counter sys p n s h)
  unfolding write_counter tneg_get
  write_counter-Held p n s small some' =
      let nonzero : (n == 0) ≡ false = ground (arith, some') in
      rw (write_counter, a.fine, nonzero)
        (elim (create_parents-quiet sys h a p s) [
          | inl calm ↦ rw calm (write_created-Held p n (create_parents sys p s h).0 small)
          | inr bad ↦
              rw
                (
                  tneg_get,
                  bad,
                  write_opened-failed n (create_parents sys p s h).0 (create_parents sys p s h).1
                      bad,
                )
                (inr bad)
        ])

  -- With memory left, a number below 2^63 and not 0 that `write_counter` has written is read back by
  -- `read_counter`, or one of them ends with an error.
  pub read_counter-write_counter :
      (p : Text) (n : ℕ) (s : sys.State)
      → 0 < n
      → n < 2 ^ 63
      → ((read_counter sys p (write_counter sys p n s h).0 h).0 ≡ n)
        ⊎ (ok (write_counter sys p n s h).1 ≡ false)
        ⊎ (ok (read_counter sys p (write_counter sys p n s h).0 h).2 ≡ false)
  read_counter-write_counter p n s some' small =
      elim (write_counter-Held p n s (omega (arith, small)) some') [
        | inr bad ↦ inr (inl bad)
        | inl (calm, held) ↦
            elim (read_counter-Holding p n (write_counter sys p n s h).0 small held) [
              | inl same ↦ inl same
              | inr bad ↦ inr (inr bad)
            ]
      ]
