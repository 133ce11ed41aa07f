-- ===== src/Deref/Whole.antt =====
-- `deref_fd` of src/deref.c gives the whole path, in as many rounds as that takes.
use native.Mathlib.Nat.{mul_assoc, pow-succ'}
use klunok.Prelude.{
  ℕ, zero, suc, ◌+◌, ◌*◌, ◌<◌, ◌%◌, ◌^◌, [], ◌∷◌, ◌++◌, append-nil, Option, some, Text, ◌≡◌, refl,
  ap, ◌∙◌, arith, length, length-append, Bool-cases, inl, inr, ltb, if◌then◌else◌,
}
use klunok.Trace.{Host, tnull_malloc}
use klunok.Buffer.{Buffer, size_mod}
use klunok.Buffer.Cells.{is_nonzero-NonZero}
use klunok.Buffer.Append.{tnull_malloc_ample}
use klunok.Buffer.Decimal.{decimal, length-decimal}
use klunok.Buffer.Ample.{IsAmple}
use klunok.System.{System, gives, tneg_ask}
use klunok.Building.{assemble-spelled, string, size}
use klunok.Deref.{fd_directory, deref_from, deref_link, deref_fd}
use klunok.Linq.{text_of}

module _ (sys : System) (s : sys.State) (h : Host) (a : IsAmple h) where
  module _ (link t : Text) (e : sys.readlink link s ≡ gives t) where
    abbrev round : Option Text × Host
    round = tneg_ask sys (sys.readlink link) s (tnull_malloc h).1

    round_given : (round.0 ≡ some t) × (round.1 ≡ h)
    unfolding tneg_ask
    round_given = (
      rw (tnull_malloc_ample h a.memory, tneg_ask, e, a.fine) refl,
      rw (tnull_malloc_ample h a.memory, tneg_ask, e, a.fine) refl,
    )

    deref_from-round :
        (fuel max : ℕ)
        → deref_from sys (suc fuel) link max s h ≡ (
            if ltb (length t) max
            then (some t, h)
            else deref_from sys fuel link (max * 2 % size_mod) s h)
    unfolding deref_from
    deref_from-round fuel max = rw (deref_from, round_given.0, round_given.1) refl

    deref_from-whole :
        (n max : ℕ)
        → length t < max * 2 ^ n
        → length t * 2 < size_mod
        → deref_from sys (suc n) link max s h ≡ (some t, h)
    deref_from-whole zero max enough short = ground (arith, deref_from-round zero max)
    deref_from-whole (suc n) max enough short = elim (Bool-cases (ltb (length t) max)) [
      | inl fits ↦ ground (arith, deref_from-round (suc n) max, fits)
      | inr long ↦
          let twice : max * 2 % size_mod ≡ max * 2 = ground arith in
          let power : max * 2 * 2 ^ n ≡ max * 2 ^ suc n =
            (rw (pow-succ' 2 n) (mul_assoc max 2 (2 ^ n))) in
          deref_from-round (suc n) max
          ∙ rw (long, twice) (deref_from-whole n (max * 2) (rw power enough) short)
    ]

  deref_link-whole :
      (length_guess : ℕ) (link t : Text) (b : Buffer)
      → length_guess + 1 < size_mod
      → sys.readlink link s ≡ gives t
      → length t * 2 < size_mod
      → text_of (some b) ≡ link
      → deref_link sys length_guess (some b, h) s ≡ (some t, h)
  deref_link-whole length_guess link t b guess e short text =
      let first : length t < (length_guess + 1) % size_mod * 2 ^ 63 = omega arith in
      rw (a.fine, text) (deref_from-whole link t e 63 ((length_guess + 1) % size_mod) first short)

  -- With memory left, `deref_fd` ends and gives the whole target of the link of the descriptor,
  -- whatever the guess of its length.
  pub deref_fd-whole :
      (fd length_guess : ℕ) (t : Text)
      → fd < size_mod
      → length_guess + 1 < size_mod
      → sys.readlink (fd_directory ++ decimal fd) s ≡ gives t
      → length t * 2 < size_mod
      → deref_fd sys fd length_guess s h ≡ (some t, h)
  unfolding deref_fd
  deref_fd-whole fd length_guess t small guess e short =
      let digits = length-decimal fd small in
      let joined = length-append (decimal fd) [] in
      let (b, made, text) =
        assemble-spelled h a (string fd_directory ∷ (size fd ∷ []))
          (is_nonzero-NonZero fd_directory refl, (small, tt)) (omega (arith, digits, joined)) in
      let text' = text ∙ ap (λ (x : Text). fd_directory ++ x) (append-nil (decimal fd)) in
      ap (λ (r : Option Buffer × Host). deref_link sys length_guess r s) made
      ∙ deref_link-whole length_guess (fd_directory ++ decimal fd) t b guess e short text'
