-- ===== src/Sieve/Rounds.antt =====
-- The rounds of the loop of src/sieve.c.
use klunok.Prelude.{
  ℕ, zero, suc, ◌+◌, ◌*◌, ◌≤◌, ◌<◌, List, [], ◌∷◌, ◌++◌, Bool, ◌&&◌, ◌||◌, not, Option, none, some,
  Text, ◌≡◌, refl, ap, ◌∙◌, sym, subst, arith, ◌==◌, leb, ltb, if◌then◌else◌, length, get_or,
  replicate, drop, length-append, Bool-cases, inl, inr,
}
use klunok.Trace.{Host}
use klunok.Buffer.{View, Buffer, size_mod, new_buffer, set_length, get_length}
use klunok.Buffer.Cells.{NonZero}
use klunok.Buffer.Contents.{Reads, Holds, new_buffer-Holds, set_length-Holds, Reads-get_length}
use klunok.Buffer.Append.{create_buffer_ample, tnull_malloc_ample}
use klunok.Buffer.Ample.{IsAmple}
use klunok.Set.{Set, is_within}
use klunok.Set.Valid.{IsValid}
use klunok.Sieve.{Walk, mark, append_char, is_end, mark_ends, mark_dot, walk, start, sieve}
use klunok.Sieve.Texts.{
  has, hits, last_end, last_dot, map_ends, map_ends_twice, AllValid, Carries, is_within-has,
  append_char-Carries,
}

ends-mark :
    (sets : List Set) (ends : List (Option ℕ)) (offset : ℕ) (t : Text) (a r : View) (b p : Bool)
    (n : ℕ)
    → AllValid sets
    → Reads t a
    → Reads (drop offset t) r
    → p ≡ ltb offset (length t)
    → n ≡ length t
    → (if b then mark a r p n sets ends else ends)
      ≡ map_ends (λ s e. if b && hits s offset t then some (length t) else e) sets ends
unfolding mark hits
ends-mark [] ends offset t a r b p n w x y e q = ground arith
ends-mark (s ∷ sets) [] offset t a r b p n w x y e q = ground arith
ends-mark (s ∷ sets) (l ∷ ends) offset t a r b p n w x y e q =
    rw (e, q)
      (ground (
        arith,
        is_within-has s t a w.0 x,
        is_within-has s (drop offset t) r w.0 y,
        rw (e, q) at (ends-mark sets ends offset t a r b p n w.1 x y e q),
      ))

module _ (path : Text) (i : ℕ) (rest : Text) where
  module _ (p : Bool) (sets : List Set) (w : Walk) where
    mark_ends_lem :
        ((mark_ends i rest p sets w).ends ≡ (
          if is_end rest || i == 0
          then mark w.absolute.view w.relative.view p (i + 1) sets w.ends
          else w.ends))
        × ((mark_ends i rest p sets w).absolute ≡ w.absolute)
        × ((mark_ends i rest p sets w).relative ≡ w.relative)
        × ((mark_ends i rest p sets w).segment ≡ w.segment)
        × ((mark_ends i rest p sets w).segment_start ≡ w.segment_start)
        × ((mark_ends i rest p sets w).hiding_dot ≡ w.hiding_dot)
    unfolding mark_ends
    mark_ends_lem = elim (Bool-cases (is_end rest || i == 0)) [
      | inl e ↦ rw (e, mark_ends) (refl, refl, refl, refl, refl, refl)
      | inr e ↦ rw (e, mark_ends) (refl, refl, refl, refl, refl, refl)
    ]

  module _ (ignored : Set) (w : Walk) where
    mark_dot_lem :
        ((mark_dot path i rest ignored w).ends ≡ w.ends)
        × ((mark_dot path i rest ignored w).absolute ≡ w.absolute)
        × ((mark_dot path i rest ignored w).relative ≡ w.relative)
        × ((mark_dot path i rest ignored w).segment
            ≡ (if is_end rest then set_length 0 w.segment else w.segment))
        × ((mark_dot path i rest ignored w).segment_start
            ≡ (if is_end rest then i + 2 else w.segment_start))
        × ((mark_dot path i rest ignored w).hiding_dot ≡ (
            if is_end rest
              && (not (get_length w.segment.view == 0)
                  && (get_or path w.segment_start 0 == b'.'
                      && not (is_within w.segment.view ignored)))
            then some w.segment_start
            else w.hiding_dot))
    unfolding mark_dot
    mark_dot_lem = elim (Bool-cases (is_end rest)) [
      | inl e ↦ rw (e, mark_dot) (refl, refl, refl, refl, refl, refl)
      | inr e ↦ rw (e, mark_dot) (refl, refl, refl, refl, refl, refl)
    ]

append_char_kept :
    (c : ℕ) (p : Bool) (w : Walk) (h : Host)
    → ((append_char c p w h).0.ends ≡ w.ends)
      × ((append_char c p w h).0.segment_start ≡ w.segment_start)
      × ((append_char c p w h).0.hiding_dot ≡ w.hiding_dot)
unfolding append_char
append_char_kept c p w h = (refl, refl, refl)

map_ends_same : (sets : List Set) (ends : List (Option ℕ)) → ends ≡ map_ends (λ s e. e) sets ends
map_ends_same [] ends = refl
map_ends_same (s ∷ sets) [] = refl
map_ends_same (s ∷ sets) (e ∷ ends) = ap (λ (l : List (Option ℕ)). e ∷ l) (map_ends_same sets ends)

module _ (path : Text) (offset : ℕ) (ignored : Set) (sets : List Set) (w0 : IsValid ignored)
    (ws : AllValid sets) where
  -- What the tests after the three appends make of a walk.
  record Tested (t seg rest : Text) (i : ℕ) (w v : Walk) : Type 0 where
    carries : Carries t (if is_end rest then [] else seg) offset v
    ends :
        v.ends
        ≡ map_ends
            (λ s e. if (is_end rest || i == 0) && hits s offset t then some (length t) else e)
            sets
            w.ends
    start : v.segment_start ≡ (if is_end rest then i + 2 else w.segment_start)
    dot : v.hiding_dot ≡ (
        if is_end rest
          && (not (length seg == 0)
              && (get_or path w.segment_start 0 == b'.' && not (has ignored seg)))
        then some w.segment_start
        else w.hiding_dot)

  -- `p` says that the path has come to the offset.
  tests-Tested :
      (t seg rest : Text) (i : ℕ) (p : Bool) (w : Walk)
      → Carries t seg offset w
      → length t ≡ i + 1
      → p ≡ leb offset i
      → Tested t seg rest i w (mark_dot path i rest ignored (mark_ends i rest p sets w))
  tests-Tested t seg rest i p w k e q =
      let m = mark_ends i rest p sets w in
      let (me, ma, mr, mg, ms, mh) = mark_ends_lem path i rest p sets w in
      let (de, da, dr, dg, ds, dh) = mark_dot_lem path i rest ignored m in
      record {
        carries = record {
          absolute = subst (λ (b : Buffer). Holds t b) (sym (da ∙ ma)) k.absolute;
          relative = subst (λ (b : Buffer). Holds (drop offset t) b) (sym (dr ∙ mr)) k.relative;
          segment =
              rw (dg, mg)
                (elim (Bool-cases (is_end rest)) [
                  | inl end ↦ rw end (set_length-Holds seg w.segment 0 k.segment (omega arith))
                  | inr more ↦ rw more k.segment
                ]);
        };
        ends =
            rw (de, me)
              (ground (
                arith,
                ends-mark sets w.ends offset t w.absolute.view w.relative.view
                    (is_end rest || i == 0) p (i + 1) ws k.absolute.reads k.relative.reads
                    (ground arith) (omega arith),
              ));
        start = ground (arith, ds, ms);
        dot =
            rw
              (
                dh,
                mg,
                ms,
                mh,
                Reads-get_length seg w.segment.view k.segment.reads,
                is_within-has ignored seg w.segment.view w0 k.segment.reads,
              )
              refl;
      }

  module _ (h : Host) (a : IsAmple h) where
    -- What the loop from `done` over `rest` comes to.
    record Walked (done seg rest : Text) (w : Walk) : Type 0 where
      last : Walk
      ran : walk path offset ignored sets (length done) rest w h ≡ (some last, h)
      ends : last.ends ≡ map_ends (λ s e. last_end s offset done rest e) sets w.ends
      dot :
          last.hiding_dot
          ≡ last_dot ignored path w.segment_start seg (length done) rest w.hiding_dot

    Walked-step :
        (c : ℕ) (rest done seg : Text) (w step : Walk)
        → (append_char c (leb offset (length done)) w h).0 ≡ step
        → (append_char c (leb offset (length done)) w h).1 ≡ h
        → (step.ends ≡ w.ends)
          × (step.segment_start ≡ w.segment_start)
          × (step.hiding_dot ≡ w.hiding_dot)
        → Tested
            (done ++ c ∷ [])
            (if c == b'/' then seg else seg ++ c ∷ [])
            rest
            (length done)
            step
            (mark_dot path
              (length done)
              rest
              ignored
              (mark_ends (length done) rest (leb offset (length done)) sets step))
        → Walked
            (done ++ c ∷ [])
            (if is_end rest then [] else (if c == b'/' then seg else seg ++ c ∷ []))
            rest
            (mark_dot path
              (length done)
              rest
              ignored
              (mark_ends (length done) rest (leb offset (length done)) sets step))
        → Walked done seg (c ∷ rest) w
    unfolding walk last_end last_dot
    Walked-step c rest done seg w step e same (kept, begun, hidden) d more =
        let grown : length (done ++ c ∷ []) ≡ length done + 1 = length-append done (c ∷ []) in
        let t = done ++ c ∷ [] in
        record {
          last = more.last;
          ran = rw (walk, e, same, a.fine) (rw grown at more.ran);
          ends =
              more.ends
              ∙ ap (λ (l : List (Option ℕ)). map_ends (λ s e. last_end s offset t rest e) sets l)
                  d.ends
              ∙ map_ends_twice (λ s e. last_end s offset t rest e)
                  (λ s e.
                    if (is_end rest || length done == 0) && hits s offset t
                    then some (length t)
                    else e)
                  sets step.ends
              ∙ ap (map_ends (λ s e. last_end s offset done (c ∷ rest) e) sets) kept;
          dot = rw (d.start, d.dot, grown, begun, hidden) at more.dot;
        }

    walk-Walked :
        (rest done seg : Text) (w : Walk)
        → Carries done seg offset w
        → length seg ≤ length done
        → NonZero rest
        → (length done + length rest + 2) * 2 < size_mod
        → Walked done seg rest w
    unfolding walk last_end last_dot
    walk-Walked [] done seg w k short p fits = record {
      last = w;
      ran = refl;
      ends = map_ends_same sets w.ends;
      dot = refl;
    }
    walk-Walked (c ∷ rest) done seg w k short p fits =
        let i = length done in
        let t = done ++ c ∷ [] in
        let grown : length t ≡ i + 1 = length-append done (c ∷ []) in
        let seg' = if c == b'/' then seg else seg ++ c ∷ [] in
        let (k1, same) = append_char-Carries offset h a done seg c w k p.0 short (omega arith) in
        let step = (append_char c (leb offset i) w h).0 in
        let d = tests-Tested t seg' rest i (leb offset i) step k1 grown refl in
        let short' : length (if is_end rest then [] else seg') ≤ length t =
          ground (arith, length-append seg (c ∷ [])) in
        Walked-step c rest done seg w step refl same (append_char_kept c (leb offset i) w h) d (
          walk-Walked rest t (if is_end rest then [] else seg') _ d.carries short' p.1
            (omega arith))

-- The last ends of all sets, over a whole path.
pub last_ends : ℕ → Text → List Set → List (Option ℕ)
last_ends offset path [] = []
last_ends offset path (s ∷ sets) = last_end s offset [] path none ∷ last_ends offset path sets

last_ends-replicate :
    (offset : ℕ) (path : Text) (sets : List Set)
    → map_ends (λ s e. last_end s offset [] path e) sets (replicate (length sets) none)
      ≡ last_ends offset path sets
unfolding last_ends
last_ends-replicate offset path [] = refl
last_ends-replicate offset path (s ∷ sets) =
    ap (λ (l : List (Option ℕ)). last_end s offset [] path none ∷ l)
      (last_ends-replicate offset path sets)

start-Carries : (offset : ℕ) (sets : List Set) → Carries [] [] offset (start sets)
start-Carries offset sets = record {
  absolute = new_buffer-Holds;
  relative = subst (λ (t : Text). Holds t new_buffer) (sym (drop_nil offset)) new_buffer-Holds;
  segment = new_buffer-Holds;
}
  where
    drop_nil : (n : ℕ) → drop {A = ℕ} n [] ≡ []
    drop_nil zero = refl
    drop_nil (suc n) = refl

-- With memory left, `sieve` gives each set the last end of the path at which the set has the path
-- up to there, or its part behind the offset, and it gives the last segment that starts with a dot
-- and is not ignored; the trace stays as it was.
pub sieve_lem :
    (path : Text) (offset : ℕ) (ignored : Set) (sets : List Set) (h : Host)
    → IsValid ignored
    → AllValid sets
    → IsAmple h
    → NonZero path
    → (length path + 2) * 2 < size_mod
    → sieve path offset ignored sets h ≡ (
      some (record {
        ends = last_ends offset path sets;
        hiding_dot = last_dot ignored path 1 [] 0 path none;
      }),
      h,
    )
unfolding sieve
sieve_lem path offset ignored sets h w0 ws a p fits =
    let q = tnull_malloc_ample h a.memory in
    let c = create_buffer_ample h a.memory in
    let done =
      walk-Walked path offset ignored sets w0 ws h a path [] [] (start sets)
        (start-Carries offset sets) (omega arith) p (omega arith) in
    let e : done.last.ends ≡ last_ends offset path sets =
      done.ends ∙ last_ends-replicate offset path sets in
    rw (sieve, q, q, c, c, c, a.fine, done.ran) (ground (arith, e, done.dot))
