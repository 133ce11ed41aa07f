-- ===== src/Sync/Cleanup.antt =====
-- `clean_up` of src/sync.c works with a trace of its own.
use klunok.Prelude.{List, [], ◌∷◌, Bool, Text, ◌≡◌, refl, ap, Bool-cases, inl, inr}
use klunok.Trace.{Host, Trace, ok, malloc, take_fate}
use klunok.System.{System}
use klunok.Sync.{clean_up, give_up}

-- Whether there is an error is a matter of the trace.
ok-same : (j k : Host) → j.trace ≡ k.trace → ok j ≡ ok k
unfolding ok
ok-same j k e = ap (λ (t : Trace). ok (record k { trace = t })) e

malloc_trace : (k : Host) → (malloc k).1.trace ≡ k.trace
unfolding malloc
malloc_trace k = by_fates k.fates
  where
    by_fates : (fs : List Bool) → (take_fate fs k).1.trace ≡ k.trace
    by_fates [] = refl
    by_fates (f ∷ fs) = refl

module _ (sys : System) (destination : Text) (s : sys.State) (k : Host) where
  clean_up_trace : (clean_up sys destination s k).1.trace ≡ k.trace
  unfolding clean_up
  clean_up_trace = elim (Bool-cases (malloc k).0) [
    | inl got ↦ rw (clean_up, got) (malloc_trace k)
    | inr none' ↦ rw (clean_up, none') (malloc_trace k)
  ]

  -- The error that it follows on stays, and none comes from it.
  pub ok-give_up : ok (give_up sys destination s k).2 ≡ ok k
  ok-give_up = ok-same (give_up sys destination s k).2 k clean_up_trace
