-- ===== src/Trace/Errors.antt =====
-- src/trace.c: what throwing and catching do to a trace, whatever the allocator answers.
use klunok.Prelude.{
  ℕ, ◌+◌, List, ◌∷◌, ◌≢◌, refl, [], Bool, true, false, Text, ◌≡◌, arith, Option, none, some,
}
use klunok.Trace.{
  Host, Payload, static_message, dynamic_message, throw_common, throw_static, throw_dynamic,
  throw_context, malloc, ok, catch_static, finally_rethrow_static, tnull_malloc, tneg,
}

-- What every throw does: no error is lost, and the depths stay.
pub record Thrown (h h' : Host) : Type 0 where
  pub fails : ok h' ≡ false
  pub pre : h'.pre_throw_depth ≡ h.pre_throw_depth
  pub post : h'.post_throw_depth ≡ h.post_throw_depth

throw_common-Thrown : (p : Payload) (c : Bool) (h : Host) → Thrown h (throw_common p c h)
unfolding throw_common ok
throw_common-Thrown (static_message m) c h = ground arith
throw_common-Thrown (dynamic_message t) c h = ground arith

-- The frame is put on top of the earlier ones, which stay; or they stay and one more is counted as
-- dropped.
pub data Recorded (p : Payload) (c : Bool) (h h' : Host) : Type 0 where
  on_top :
      h'.head ≡ record { message = p; is_context = c } ∷ h.head
      → h'.dropped_frame_count ≡ h.dropped_frame_count
      → Recorded p c h h'
  counted :
      h.fates ≢ []
      → h'.head ≡ h.head
      → h'.dropped_frame_count ≡ h.dropped_frame_count + 1
      → Recorded p c h h'

throw_common-Recorded :
    (p : Payload) (c : Bool) (fates : List Bool) (h : Host)
    → h.fates ≡ fates
    → Recorded p c h (throw_common p c h)
unfolding throw_common malloc
throw_common-Recorded (static_message m) c [] h e = on_top (ground (arith, e)) (ground (arith, e))
throw_common-Recorded (static_message m) c (true ∷ fs) h e =
    on_top (ground (arith, e)) (ground (arith, e))
throw_common-Recorded (static_message m) c (false ∷ fs) h e =
    counted (λ empty. ground (arith, e, empty)) (ground (arith, e)) (ground (arith, e))
throw_common-Recorded (dynamic_message t) c [] h e = on_top (ground (arith, e)) (ground (arith, e))
throw_common-Recorded (dynamic_message t) c (false ∷ fs) h e =
    counted (λ empty. ground (arith, e, empty)) (ground (arith, e)) (ground (arith, e))
throw_common-Recorded (dynamic_message t) c (true ∷ []) h e =
    on_top (ground (arith, e)) (ground (arith, e))
throw_common-Recorded (dynamic_message t) c (true ∷ (true ∷ fs)) h e =
    on_top (ground (arith, e)) (ground (arith, e))
throw_common-Recorded (dynamic_message t) c (true ∷ (false ∷ fs)) h e =
    counted (λ empty. ground (arith, e, empty)) (ground (arith, e)) (ground (arith, e))

-- A throw never leaves the trace without an error, and keeps the depths: it puts its frame on top of
-- the earlier ones, or, if an allocation may fail, leaves the frames and counts one more as dropped.
pub throw_common_lem :
    (p : Payload) (c : Bool) (h : Host)
    → Thrown h (throw_common p c h) × Recorded p c h (throw_common p c h)
throw_common_lem p c h = (throw_common-Thrown p c h, throw_common-Recorded p c h.fates h refl)

pub throw_static-Thrown : (m : ℕ) (h : Host) → Thrown h (throw_static m h)
unfolding throw_static
throw_static-Thrown m h = throw_common-Thrown (static_message m) false h

pub throw_dynamic-Thrown : (t : Text) (h : Host) → Thrown h (throw_dynamic t h)
unfolding throw_dynamic
throw_dynamic-Thrown t h = throw_common-Thrown (dynamic_message t) false h

pub throw_context-Thrown : (t : Text) (h : Host) → Thrown h (throw_context t h)
unfolding throw_context
throw_context-Thrown t h = throw_common-Thrown (dynamic_message t) true h

-- `TNULL` and `TNEG` do nothing on a failed trace, answer true exactly if the trace is ok after
-- them, and keep the depths.
pub record Guarded (h : Host) (r : Bool × Host) : Type 0 where
  pub noop : ok h ≡ false → r ≡ (false, h)
  pub tells : r.0 ≡ ok r.1
  pub pre : r.1.pre_throw_depth ≡ h.pre_throw_depth
  pub post : r.1.post_throw_depth ≡ h.post_throw_depth

pub tneg-Guarded : (r : Option Text) (h : Host) → Guarded h (tneg r h)
unfolding tneg
tneg-Guarded none h = ground arith
tneg-Guarded (some t) h = let u = throw_dynamic-Thrown t h in ground (arith, u.fails, u.pre, u.post)

pub tnull_malloc-Guarded : (h : Host) → Guarded h (tnull_malloc h)
unfolding tnull_malloc throw_dynamic throw_common ok
tnull_malloc-Guarded h = ground arith

-- With memory left, `finally_rethrow_static m` closes a failed block with the message `m` on top,
-- so that the `try` around it catches `m`.
pub catch-rethrow :
    (m : ℕ) (h : Host)
    → h.fates ≡ []
    → h.dropped_frame_count ≡ 0
    → h.post_throw_depth ≡ 0
    → ok h ≡ false
    → (catch_static m (finally_rethrow_static m h)).0 ≡ true
unfolding catch_static finally_rethrow_static ok throw_common
catch-rethrow m h f d p e = ground arith
