-- ===== src/Trace/Caught.antt =====
-- A `try` whose block throws one static message, as the callers of src/sync.c catch it.
use klunok.Prelude.{ℕ, [], true, false, ◌≡◌, arith, ◌==◌}
use klunok.Trace.{
  Host, ok, try, throw_static, throw_common, catch_static, finally, decrement_depth, malloc,
}
use klunok.Trace.Rethrown.{IsClear}

module _ (h : Host) (a : IsClear h) (memory : h.fates ≡ []) where
  -- The message is caught, and the block leaves nothing behind.
  pub caught :
      (m : ℕ)
      → ((catch_static m (throw_static m (try h))).0 ≡ true)
        × (finally (catch_static m (throw_static m (try h))).1 ≡ h)
  unfolding catch_static throw_static throw_common try ok finally decrement_depth malloc
  caught m = (ground (arith, a.fine, a.outside, memory), ground (arith, a.fine, a.outside, memory))

  -- Another message is not.
  pub missed : (m n : ℕ) → (m == n) ≡ false → (catch_static n (throw_static m (try h))).0 ≡ false
  unfolding catch_static throw_static throw_common try ok malloc
  missed m n e = ground (arith, a.fine, a.outside, memory, e)

  -- Without an error nothing is caught.
  pub calm : (n : ℕ) → (catch_static n (try h)).0 ≡ false
  unfolding catch_static try ok
  calm n = ground (arith, a.fine, a.outside)

  pub finally-try : finally (try h) ≡ h
  unfolding try ok finally decrement_depth
  finally-try = ground (arith, a.fine, a.outside)
