-- ===== src/Linq/Entries.antt =====
-- `read_entry` of src/linq.c reads the whole target, in as many rounds as that takes.
use native.Mathlib.Nat.{mul_assoc, pow-succ'}
use klunok.Prelude.{
  ℕ, zero, suc, ◌+◌, ◌*◌, ◌<◌, ◌%◌, ◌^◌, false, none, some, Text, ◌≡◌, refl, ◌∙◌, arith, length,
  Bool-cases, inl, inr, ltb, Option, [], if◌then◌else◌,
}
use klunok.Trace.{Host, ok, try, tnull_malloc}
use klunok.Trace.Errors.{throw_dynamic-Thrown}
use klunok.Trace.Rethrown.{IsClear, rethrown, rethrown-try, ok-try, ok-rethrown}
use klunok.Messages.{linq_invalid_entry}
use klunok.Buffer.{size_mod}
use klunok.Buffer.Append.{tnull_malloc_ample}
use klunok.Buffer.Ample.{IsReady}
use klunok.System.{System, Errno, Answer, fails, gives, tneg_ask, throw_errno}
use klunok.Linq.{Linq, read_entry_from, read_entry}

memory-try : (h : Host) → h.fates ≡ [] → (try h).fates ≡ []
unfolding try
memory-try h e = ground (arith, e)

module _ (sys : System) (entry : Text) (l : Linq) (s : sys.State) (h : Host) (r : IsReady h) where
  inside : (tnull_malloc (try h)).1 ≡ try h
  inside = tnull_malloc_ample (try h) (memory-try h r.ample.memory)

  clear : IsClear h
  clear = record { fine = r.ample.fine; outside = r.outside }

  abbrev link : Answer Text
  link = sys.link_at l.dirfd entry s

  -- What a round asks, and the host that it ends with.
  abbrev round : Option Text × Host
  round = tneg_ask sys (sys.link_at l.dirfd entry) s (tnull_malloc (try h)).1

  round_given :
      (t : Text)
      → link ≡ gives t
      → (round.0 ≡ some t) × (rethrown linq_invalid_entry entry round.1 ≡ h)
  unfolding tneg_ask
  round_given t e =
      let fine = ok-try h ∙ r.ample.fine in
      (
        rw (inside, tneg_ask, e, fine) refl,
        rw (inside, tneg_ask, e, fine) (rethrown-try linq_invalid_entry entry h clear),
      )

  round_failed :
      (n : Errno) → link ≡ fails n → ok (rethrown linq_invalid_entry entry round.1) ≡ false
  unfolding tneg_ask
  round_failed n e =
      let fine = ok-try h ∙ r.ample.fine in
      rw (inside, tneg_ask, e, fine)
        (ok-rethrown linq_invalid_entry entry (throw_errno sys n (try h))
          (throw_dynamic-Thrown (sys.strerror n) (try h)).fails)

  read_entry_from-round :
      (fuel max : ℕ) (t : Text)
      → sys.link_at l.dirfd entry s ≡ gives t
      → read_entry_from sys (suc fuel) entry l max s h ≡ (
          if ltb (length t) max
          then (some t, h)
          else read_entry_from sys fuel entry l (max * 2 % size_mod) s h)
  unfolding read_entry_from
  read_entry_from-round fuel max t e =
      let (got, ended) = round_given t e in rw (read_entry_from, got, ended, r.ample.fine) refl

  read_entry_from-whole :
      (n max : ℕ) (t : Text)
      → sys.link_at l.dirfd entry s ≡ gives t
      → length t < max * 2 ^ n
      → length t * 2 < size_mod
      → read_entry_from sys (suc n) entry l max s h ≡ (some t, h)
  read_entry_from-whole zero max t e enough short =
      ground (arith, read_entry_from-round zero max t e)
  read_entry_from-whole (suc n) max t e enough short = elim (Bool-cases (ltb (length t) max)) [
    | inl fits ↦ ground (arith, read_entry_from-round (suc n) max t e, fits)
    | inr long ↦
        let twice : max * 2 % size_mod ≡ max * 2 = ground arith in
        let power : max * 2 * 2 ^ n ≡ max * 2 ^ (suc n) =
          (rw (pow-succ' 2 n) (mul_assoc max 2 (2 ^ n))) in
        read_entry_from-round (suc n) max t e
        ∙ (rw (long, twice) (read_entry_from-whole n (max * 2) t e (rw power enough) short))
  ]

  -- A target is read whole, whatever the guess of its length.
  pub read_entry-whole :
      (t : Text)
      → sys.link_at l.dirfd entry s ≡ gives t
      → l.length_guess + 1 < size_mod
      → length t * 2 < size_mod
      → read_entry sys entry l s h ≡ (some t, h)
  unfolding read_entry
  read_entry-whole t e guess short =
      let first : length t < (l.length_guess + 1) % size_mod * 2 ^ 63 = omega arith in
      rw (r.ample.fine, read_entry)
        (read_entry_from-whole 63 ((l.length_guess + 1) % size_mod) t e first short)

  read_entry_from-fails :
      (fuel max : ℕ) (n : Errno)
      → link ≡ fails n
      → ((read_entry_from sys (suc fuel) entry l max s h).0 ≡ none)
        × (ok (read_entry_from sys (suc fuel) entry l max s h).1 ≡ false)
  unfolding read_entry_from
  read_entry_from-fails fuel max n e =
      let bad = round_failed n e in rw (read_entry_from, bad) (refl, bad)

  -- An entry that cannot be read is an error.
  pub read_entry-fails :
      (n : Errno)
      → sys.link_at l.dirfd entry s ≡ fails n
      → ((read_entry sys entry l s h).0 ≡ none) × (ok (read_entry sys entry l s h).1 ≡ false)
  unfolding read_entry
  read_entry-fails n e =
      rw (r.ample.fine, read_entry) (read_entry_from-fails 63 ((l.length_guess + 1) % size_mod) n e)
