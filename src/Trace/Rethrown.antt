-- ===== src/Trace/Rethrown.antt =====
-- A `try` whose block does one thing and ends in `rethrow_context` and `finally_rethrow_static`, as
-- the callers of src/linq.c and src/handler.c write it.
use klunok.Prelude.{ℕ, true, false, Text, ◌≡◌, ap, ◌∙◌, arith}
use klunok.Trace.{Host, ok, try, rethrow_context, finally_rethrow_static, decrement_depth}
use klunok.Trace.Errors.{throw_static-Thrown, throw_context-Thrown}

-- Outside of every block that failed, with no error.
pub record IsClear (h : Host) : Type 0 where
  pub fine : ok h ≡ true
  pub outside : h.post_throw_depth ≡ 0

abbrev pub rethrown : ℕ → Text → Host → Host
rethrown m c h = finally_rethrow_static m (rethrow_context c h)

rethrow_context_fine : (c : Text) (h : Host) → ok h ≡ true → rethrow_context c h ≡ h
unfolding rethrow_context
rethrow_context_fine c h e = ground (arith, e)

pub try-finally : (m : ℕ) (h : Host) → IsClear h → finally_rethrow_static m (try h) ≡ h
unfolding try finally_rethrow_static decrement_depth ok
try-finally m h a = ground (arith, a.fine, a.outside)

pub ok-try : (h : Host) → ok (try h) ≡ ok h
unfolding try ok
ok-try h = ground arith

-- A block in which nothing was done.
pub rethrown-try : (m : ℕ) (c : Text) (h : Host) → IsClear h → rethrown m c (try h) ≡ h
rethrown-try m c h a =
    ap (finally_rethrow_static m) (rethrow_context_fine c (try h) (ok-try h ∙ a.fine))
    ∙ try-finally m h a

pub ok-rethrow_context : (c : Text) (h : Host) → ok h ≡ false → ok (rethrow_context c h) ≡ false
unfolding rethrow_context
ok-rethrow_context c h e = ground (arith, (throw_context-Thrown c h).fails)

ok-decrement_depth : (h : Host) → ok (decrement_depth h).1 ≡ ok h
unfolding decrement_depth ok
ok-decrement_depth h = ground arith

pub ok-finally_rethrow : (m : ℕ) (h : Host) → ok h ≡ false → ok (finally_rethrow_static m h) ≡ false
unfolding finally_rethrow_static
ok-finally_rethrow m h e =
    ground (arith, ok-decrement_depth h, e, (throw_static-Thrown m (decrement_depth h).1).fails)

-- A block in which something failed.
pub ok-rethrown : (m : ℕ) (c : Text) (h : Host) → ok h ≡ false → ok (rethrown m c h) ≡ false
ok-rethrown m c h e = ok-finally_rethrow m (rethrow_context c h) (ok-rethrow_context c h e)
