-- ===== src/Trace/Blocks.antt =====
-- Programs over a trace: how `try`, the calls under `TNEG`, `catch_static`, `rethrow_context` and
-- the three endings of a block are combined in the sources. Every block is closed once.
use klunok.Prelude.{ℕ, ◌+◌, ◌<◌, Bool, false, Text, Option, ◌≡◌, refl, ap, ◌∙◌, arith}
use klunok.Trace.{
  Host, ok, try, catch_static, decrement_depth, finally, finally_catch_all, finally_rethrow_static,
  rethrow_context, tneg,
}
use klunok.Trace.Errors.{throw_static-Thrown, throw_context-Thrown, tneg-Guarded}

pub data Ending : Type 0 where
  plain : Ending
  rethrow : ℕ → Ending
  catch_all : Ending

mutual
  -- `call none` is a call that succeeds, `call (some e)` one that fails with the message `e`.
  pub data Stmt : Type 0 where
    call : Option Text → Stmt
    catch : ℕ → Stmt
    context : Text → Stmt
    block : Ending → Body → Stmt

  pub data Body : Type 0 where
    done : Body
    next : Stmt → Body → Body

close : Ending → Host → Host
close plain = finally
close (rethrow m) = finally_rethrow_static m
close catch_all = finally_catch_all

mutual
  pub run : Stmt → Host → Host
  run (call r) h = (tneg r h).1
  run (catch m) h = (catch_static m h).1
  run (context t) h = rethrow_context t h
  run (block e b) h = close e (run_body b (try h))

  pub run_body : Body → Host → Host
  run_body done h = h
  run_body (next s b) h = run_body b (run s h)

-- The number of blocks that are open.
abbrev pub depth : Host → ℕ
depth h = h.pre_throw_depth + h.post_throw_depth

try-depth : (h : Host) → depth (try h) ≡ depth h + 1
unfolding try
try-depth h = ground arith

-- Each ending closes one block: the assertion in `decrement_depth` holds.
close-depth : (e : Ending) (h : Host) → 0 < depth h → depth (close e h) + 1 ≡ depth h
unfolding close finally finally_catch_all finally_rethrow_static decrement_depth
close-depth plain h p = ground arith
close-depth catch_all h p = ground arith
close-depth (rethrow m) h p =
    let u = throw_static-Thrown m (decrement_depth h).1 in ground (arith, u.pre, u.post)

-- The pairs of depths, for what opens no block.
record Same (h h' : Host) : Type 0 where
  pre : h'.pre_throw_depth ≡ h.pre_throw_depth
  post : h'.post_throw_depth ≡ h.post_throw_depth

tneg-Same : (r : Option Text) (h : Host) → Same h (tneg r h).1
tneg-Same r h = let g = tneg-Guarded r h in record { pre = g.pre; post = g.post }

catch_static-Same : (m : ℕ) (h : Host) → Same h (catch_static m h).1
unfolding catch_static
catch_static-Same m h = ground arith

rethrow_context-Same : (t : Text) (h : Host) → Same h (rethrow_context t h)
unfolding rethrow_context
rethrow_context-Same t h = let u = throw_context-Thrown t h in ground (arith, u.pre, u.post)

mutual
  unfolding run run_body

  run-depth_lem : (s : Stmt) (h : Host) → depth (run s h) ≡ depth h
  run-depth_lem (call r) h = let q = tneg-Same r h in omega (arith, q.pre, q.post)
  run-depth_lem (catch m) h = let q = catch_static-Same m h in omega (arith, q.pre, q.post)
  run-depth_lem (context t) h = let q = rethrow_context-Same t h in omega (arith, q.pre, q.post)
  run-depth_lem (block e b) h =
      omega (arith, close-depth e (run_body b (try h)), run_body-depth_lem b (try h), try-depth h)

  run_body-depth_lem : (b : Body) (h : Host) → depth (run_body b h) ≡ depth h
  run_body-depth_lem done h = refl
  run_body-depth_lem (next s b) h = run_body-depth_lem b (run s h) ∙ run-depth_lem s h

-- Whatever fails inside, a program of these statements leaves as many blocks open as it found.
pub run-depth : (s : Stmt) (h : Host) → depth (run s h) ≡ depth h
run-depth s h = run-depth_lem s h

-- No block ends in `finally_catch_all`.
abbrev mutual
  pub Rethrows : Stmt → Type 0
  Rethrows (call r) = Unit {0}
  Rethrows (catch m) = Unit {0}
  Rethrows (context t) = Unit {0}
  Rethrows (block plain b) = RethrowsBody b
  Rethrows (block (rethrow m) b) = RethrowsBody b
  Rethrows (block catch_all b) = ⊥

  pub RethrowsBody : Body → Type 0
  RethrowsBody done = Unit {0}
  RethrowsBody (next s b) = Rethrows s × RethrowsBody b

-- Inside a block that was entered with an error nothing changes.
catch_static_noop : (m : ℕ) (h : Host) → 0 < h.post_throw_depth → (catch_static m h).1 ≡ h
unfolding catch_static
catch_static_noop m h p = ground arith

rethrow_context_noop : (t : Text) (h : Host) → 0 < h.post_throw_depth → rethrow_context t h ≡ h
unfolding rethrow_context
rethrow_context_noop t h p = ground arith

abbrev inside : Host → Host
inside h = record h { trace = record (h.trace) { post_throw_depth = h.post_throw_depth + 1 } }

try_failed : (h : Host) → ok h ≡ false → try h ≡ inside h
unfolding try
try_failed h e = rw e

ok-inside : (h : Host) → ok (inside h) ≡ ok h
unfolding ok
ok-inside h = refl

close_failed : (e : Ending) (b : Body) (h : Host) → Rethrows (block e b) → close e (inside h) ≡ h
unfolding close finally finally_rethrow_static decrement_depth
close_failed plain b h w = ground arith
close_failed (rethrow m) b h w = ground arith
close_failed catch_all b h w = absurd w

body_of : (e : Ending) (b : Body) → Rethrows (block e b) → RethrowsBody b
body_of plain b w = w
body_of (rethrow m) b w = w
body_of catch_all b w = absurd w

mutual
  unfolding run run_body

  run_noop_lem :
      (s : Stmt) (h : Host) → Rethrows s → ok h ≡ false → 0 < h.post_throw_depth → run s h ≡ h
  run_noop_lem (call r) h w e p = ap (λ (x : Bool × Host). x.1) ((tneg-Guarded r h).noop e)
  run_noop_lem (catch m) h w e p = catch_static_noop m h p
  run_noop_lem (context t) h w e p = rethrow_context_noop t h p
  run_noop_lem (block c b) h w e p =
      rw
        (
          try_failed h e,
          run_body_noop_lem b (inside h) (body_of c b w) (ok-inside h ∙ e) (omega arith),
        )
        (close_failed c b h w)

  run_body_noop_lem :
      (b : Body) (h : Host)
      → RethrowsBody b
      → ok h ≡ false
      → 0 < h.post_throw_depth
      → run_body b h ≡ h
  run_body_noop_lem done h w e p = refl
  run_body_noop_lem (next s b) h w e p =
      rw (run_noop_lem s h w.0 e p) (run_body_noop_lem b h w.1 e p)

-- A block that rethrows or just ends, as do all blocks in it, is a no-op on a trace with an error:
-- the trace and the allocations to come stay as they are.
pub run_block_noop :
    (e : Ending) (b : Body) (h : Host) → Rethrows (block e b) → ok h ≡ false → run (block e b) h ≡ h
unfolding run
run_block_noop e b h w failed =
    rw
      (
        try_failed h failed,
        run_body_noop_lem b (inside h) (body_of e b w) (ok-inside h ∙ failed) (omega arith),
      )
      (close_failed e b h w)
