-- ===== src/Sync/Copies.antt =====
-- What the loop of `sync_file` of src/sync.c copies.
use klunok.Prelude.{
  ℕ, zero, suc, ◌+◌, ◌-◌, ◌<◌, ◌≤◌, [], ◌++◌, append-nil, append_assoc, false, Option, none, some,
  Text, ◌≡◌, refl, sym, ap, ◌∙◌, arith, length, length-append, take, drop, drop-drop, take-take,
  take-nil, length-take, ◌⊎◌, inl, inr, suc-==-zero,
}
use klunok.Trace.{Host, ok}
use klunok.Trace.Errors.{throw_dynamic-Thrown}
use klunok.Buffer.Ample.{IsAmple}
use klunok.System.{System, Errno, gives, Reply-cases, throw_errno}
use klunok.Sync.{send, give_up}
use klunok.Directories.{create_parents}

-- What `sendfile` does. `Writing fd t`: the descriptor is at the end of a file with this text.
-- `Source fd t`: the file that is open to read has this text.
pub record IsCopier (sys : System) (Writing : ℕ → Text → sys.State → Type 0)
    (Source : ℕ → Text → sys.State → Type 0) : Type 0 where
  pub copied :
      (t c : Text) (out_fd in_fd offset n k : ℕ) (s s' : sys.State)
      → Writing out_fd t s
      → Source in_fd c s
      → sys.sendfile out_fd in_fd offset n s ≡ (gives k, s')
      → (k ≤ n)
        × (k ≤ length (drop offset c))
        × Writing out_fd (t ++ take k (drop offset c)) s'
        × Source in_fd c s'
  -- Only at the end nothing is sent.
  pub ended :
      (c : Text) (out_fd in_fd offset n : ℕ) (s s' : sys.State)
      → Source in_fd c s
      → 0 < n
      → sys.sendfile out_fd in_fd offset n s ≡ (gives 0, s')
      → drop offset c ≡ []

module _ (sys : System) (Writing : ℕ → Text → sys.State → Type 0)
    (Source : ℕ → Text → sys.State → Type 0) (copier : IsCopier sys Writing Source) (h : Host)
    (out_fd in_fd : ℕ) (c : Text) where
  -- The text was sent, and the offset is behind it; or there is an error.
  abbrev pub Sent : Text → Text → ℕ → Option ℕ × sys.State × Host → Type 0
  Sent t u offset r =
      ((r.0 ≡ some (offset + length u)) × Writing out_fd (t ++ u) r.1 × (r.2 ≡ h))
      ⊎ ((r.0 ≡ none) × (ok r.2 ≡ false))

  Sent-join :
      (t : Text) (k n offset : ℕ) (r : Option ℕ × sys.State × Host)
      → k ≤ n
      → k ≤ length (drop offset c)
      → Sent (t ++ take k (drop offset c)) (take (n - k) (drop (offset + k) c)) (offset + k) r
      → Sent t (take n (drop offset c)) offset r
  Sent-join t k n offset r fits there (inr bad) = inr bad
  Sent-join t k n offset r fits there (inl (to, w, same)) =
      let whole : take n (drop offset c)
          ≡ take k (drop offset c) ++ take (n - k) (drop (offset + k) c) =
        take-take k n (drop offset c) fits
        ∙ ap (λ (x : Text). take k (drop offset c) ++ take (n - k) x)
            (sym (drop-drop offset k c)) in
      let size : length (take n (drop offset c)) ≡ k + length (take (n - k) (drop (offset + k) c)) =
        omega (
          arith,
          ap (λ (x : Text). length x) whole,
          length-append (take k (drop offset c)) (take (n - k) (drop (offset + k) c)),
          length-take k (drop offset c) there,
        ) in
      inl (
        to ∙ ap (λ (m : ℕ). some m) (omega (arith, size)),
        rw
            (
              whole,
              sym (append_assoc t (take k (drop offset c)) (take (n - k) (drop (offset + k) c))),
            )
            w,
        same,
      )

  pub send-Sent :
      (fuel offset size : ℕ) (t : Text) (s : sys.State)
      → Writing out_fd t s
      → Source in_fd c s
      → size < fuel
      → Sent t (take size (drop offset c)) offset (send sys fuel out_fd in_fd offset size s h)
  unfolding send
  send-Sent zero offset size t s w v p = absurd (omega (arith, p))
  send-Sent (suc fuel) offset zero t s w v p =
      inl (ap (λ (n : ℕ). some n) (omega arith), rw (append-nil t) w, refl)
  send-Sent (suc fuel) offset (suc m) t s w v p =
      elim (Reply-cases (sys.sendfile out_fd in_fd offset (suc m) s)) [
        | inl (e, s', failed) ↦
            rw (suc-==-zero m, failed, failed)
              (inr (refl, (throw_dynamic-Thrown (sys.strerror e) h).fails))
        | inr (zero, s', e) ↦
            let end : drop offset c ≡ [] =
              copier.ended c out_fd in_fd offset (suc m) s s' v (omega arith) e in
            let (_, _, w', _) = copier.copied t c out_fd in_fd offset (suc m) 0 s s' w v e in
            let none' : take (suc m) (drop offset c) ≡ [] = rw (end, take-nil (suc m)) refl in
            rw (suc-==-zero m, e, e, none') (inl (ap (λ (n : ℕ). some n) (omega arith), w', refl))
        | inr (suc k, s', e) ↦
            let (fits, there, w', v') =
              copier.copied t c out_fd in_fd offset (suc m) (suc k) s s' w v e in
            rw (suc-==-zero m, e, suc-==-zero k, e)
              (Sent-join t (suc k) (suc m) offset
                (send sys fuel out_fd in_fd (offset + suc k) (suc m - suc k) s' h) fits there
                (send-Sent fuel (offset + suc k) (suc m - suc k) (t ++ take (suc k) (drop offset c))
                  s' w' v' (omega (arith, p, fits))))
      ]

module _ (sys : System) (Writing : ℕ → Text → sys.State → Type 0)
    (Source : ℕ → Text → sys.State → Type 0) (copier : IsCopier sys Writing Source) (h : Host)
    (a : IsAmple h) where
  -- The copy is whole, and both files are closed behind it.
  pub record Copied (out_fd in_fd offset : ℕ) (c : Text) (r : ℕ × sys.State × Host) : Type 0 where
    pub last : sys.State
    pub written : Writing out_fd (drop offset c) last
    pub offset_is : r.0 ≡ offset + length (drop offset c)
    pub state : r.1 ≡ sys.close in_fd (sys.close_checked out_fd last).1
    pub host : r.2 ≡ h

  -- The copy was not made. Both files are closed where they were opened, and then what is left of
  -- the destination's ancestors is cleaned up: if the ancestors cannot be made, no file was opened;
  -- else sending failed, or the checked close of the destination did.
  pub data GivenUp (destination : Text) (out_fd in_fd : ℕ) (s : sys.State)
      (r : ℕ × sys.State × Host) : Type 0 where
    unopened :
        ok (create_parents sys destination s h).1 ≡ false
        → r
          ≡ give_up sys destination
              (create_parents sys destination s h).0
              (create_parents sys destination s h).1
        → GivenUp destination out_fd in_fd s r
    unsent :
        (last : sys.State) (k : Host)
        → ok k ≡ false
        → r ≡ give_up sys destination (sys.close in_fd (sys.close out_fd last)) k
        → GivenUp destination out_fd in_fd s r
    unsaved :
        (last : sys.State) (n : Errno)
        → (sys.close_checked out_fd last).0 ≡ some n
        → r
          ≡ give_up sys destination
              (sys.close in_fd (sys.close_checked out_fd last).1)
              (throw_errno sys n h)
        → GivenUp destination out_fd in_fd s r

  abbrev pub Synced : Text → ℕ → ℕ → ℕ → Text → sys.State → ℕ × sys.State × Host → Type 0
  Synced destination out_fd in_fd offset c s r =
      Copied out_fd in_fd offset c r ⊎ ((ok r.2 ≡ false) × GivenUp destination out_fd in_fd s r)
