-- ===== src/Linq/Rounds.antt =====
-- The rounds of `get_head` of src/linq.c.
use klunok.Prelude.{
  ℕ, zero, suc, ◌+◌, length, ◌-◌, ◌<◌, List, ◌∷◌, Bool, true, false, Option, none, some, Text, ◌≡◌,
  refl, ap, ◌∙◌, arith, text_eq, text_eq→eq, text_eq_refl, ltb, ◌==◌, if◌then◌else◌, Bool-cases,
  Option-cases, inl, inr, ◌⊎◌, subst,
}
use klunok.Trace.{Host, ok, tnull_malloc}
use klunok.Trace.Errors.{throw_dynamic-Thrown, tnull_malloc-Guarded}
use klunok.Buffer.{Buffer, new_view}
use klunok.Buffer.Contents.{new_view-Reads}
use klunok.Buffer.Append.{tnull_malloc_ample}
use klunok.Buffer.Decimal.{decimal}
use klunok.Buffer.Ample.{IsReady}
use klunok.Set.Queries.{queries-entry_of}
use klunok.Set.Bag.{occurrences}
use klunok.System.{System, gives, tneg_ask, Answer-cases}
use klunok.Linq.{
  Linq, forever, seconds, strip_legacy_metadata, text_of, pop_head, stat_head, link_or, due_at,
  seconds_of, Answered, judge_head, view_head, take_head, await_head, get_head_from,
}
use klunok.Linq.Names.{build-concat_size-some, create_buffer_view_ample}
use klunok.Linq.Entries.{read_entry-whole}
use klunok.Linq.Queue.{Represents, path_in, paths}
use klunok.Linq.Pop.{strip-NonZero}
use klunok.Linq.Stripped.{strip-path_in}

module _ (sys : System) where
  pub get_head_failed :
      (fuel : ℕ) (l : Linq) (s : sys.State) (h : Host)
      → ok h ≡ false
      → get_head_from sys fuel l s h ≡ (none, l, s, h)
  unfolding get_head_from
  get_head_failed zero l s h e = refl
  get_head_failed (suc fuel) l s h e =
      let same : (tnull_malloc h).1 ≡ h =
        ap (λ (r : Bool × Host). r.1) ((tnull_malloc-Guarded h).noop e) in
      rw (get_head_from, same, e) refl

  module _ (l : Linq) (s : sys.State) (q : List Text) (h : Host) (r : IsReady h)
      (w : Represents sys l s q) where
    -- When the head was changed, as the directory says.
    pub record Stamped (l' : Linq) : Type 0 where
      pub mtime : ℕ
      pub due : due_at l' ≡ mtime + l'.debounce_seconds
      pub said : sys.mtime_at l'.dirfd (decimal l'.head_index) s ≡ gives mtime

    -- The time of the head is known, or there is an error.
    pub stat_cases :
        0 < length q
        → ((made : Option Buffer) × (l' : Linq) × (stat_head sys l s h ≡ (made, l', h))
            × Represents sys l' s q
            × Stamped l'
            × ((b : Buffer) × (link_or sys made l' h ≡ (some b, h))
                × (text_of (some b) ≡ decimal l'.head_index)))
          ⊎ (ok (stat_head sys l s h).2 ≡ false)
    unfolding stat_head tneg_ask
    stat_cases some' =
        let (b, made, named) =
          build-concat_size-some h r.ample l.head_index (omega (arith, w.room)) in
        elim (Option-cases l.head_mtime) [
          | inr (m, e) ↦ inl (
            none,
            l,
            ground (arith, e),
            w,
            record {
              mtime = m;
              due = ap (λ (o : Option ℕ). seconds_of o + l.debounce_seconds) e;
              said = (rw e at w.stamp).1;
            },
            (b, made, named),
          )
          | inl e ↦ elim (Answer-cases (sys.mtime_at l.dirfd (decimal l.head_index) s)) [
            | inl (n, failed) ↦
                let bad = (throw_dynamic-Thrown (sys.strerror n) h).fails in
                inr (
                  rw
                    (
                      stat_head, e, made, named, tneg_ask, r.ample.fine, failed, made, named,
                      r.ample.fine, failed,
                    )
                    bad)
            | inr (m, got) ↦ inl (
              some b,
              record l { head_mtime = some m },
              rw
                  (
                    stat_head, e, made, named, tneg_ask, r.ample.fine, got, made, named,
                    r.ample.fine, got,
                  )
                  refl,
              record {
                links = w.links;
                targets = w.targets;
                size = w.size;
                room = w.room;
                guess = w.guess;
                valid = w.valid;
                counts = w.counts;
                stamp = (some', got);
              },
              record { mtime = m; due = refl; said = got },
              (b, refl, named),
            )
          ]
        ]

    -- The head is due: it is taken, unless its path is in the queue once more.
    pub judged :
        (again : Linq → sys.State → Host → Answered sys) (b : Buffer) (t : Text) (later : List Text)
        → text_of (some b) ≡ decimal l.head_index
        → q ≡ t ∷ later
        → take_head sys again (some b, h) l s ≡ (
            if ltb 1 (occurrences (strip_legacy_metadata t) (paths q))
            then again (pop_head sys l s h).0 (pop_head sys l s h).1 (pop_head sys l s h).2
            else (
              some (record {
                target = some t;
                path = some (strip_legacy_metadata t);
                pause = seconds 0;
              }),
              l,
              s,
              h,
            ))
    unfolding take_head view_head judge_head
    judged again b t later named e =
        let u = subst (λ (x : List Text). Represents sys l s x) e w in
        let path = strip_legacy_metadata t in
        let whole =
          read_entry-whole sys (decimal l.head_index) l s h r t u.links.0 u.guess
            (omega (arith, u.targets.0.short)) in
        let counts =
          (queries-entry_of path (new_view path) l.set w.valid
            (new_view-Reads path (strip-NonZero t u.targets.0.nonzero))).0
          ∙ w.counts path in
        rw
          (
            take_head,
            r.ample.fine,
            named,
            whole,
            view_head,
            create_buffer_view_ample h r.ample path,
            judge_head,
            counts,
          )
          refl

    -- A path that is in the queue once more is still in it without its first place.
    pub still :
        (t : Text) (later : List Text)
        → q ≡ t ∷ later
        → 1 < occurrences (strip_legacy_metadata t) (paths q)
        → (p : Text) → ltb 0 (occurrences p (paths later)) ≡ ltb 0 (occurrences p (paths q))
    unfolding occurrences
    still t later e twice p =
        let u = subst (λ (x : List Text). Represents sys l s x) e w in
        let twice' = rw e at twice in
        let same = strip-path_in t (t ∷ later) u.targets (omega (arith, twice')) in
        rw e (elim (Bool-cases (text_eq p (path_in t))) [
          | inr other ↦ rw other (ground arith)
          | inl found ↦
              rw (found, text_eq→eq p (path_in t) found)
                (ground (arith, rw (same, text_eq_refl (path_in t)) at twice'))
        ])

  module _ (h : Host) (r : IsReady h) where
    pub round_empty :
        (fuel : ℕ) (l : Linq) (s : sys.State)
        → (l.size == 0) ≡ true
        → get_head_from sys (suc fuel) l s h
          ≡ (some (record { target = none; path = none; pause = forever }), l, s, h)
    unfolding get_head_from
    round_empty fuel l s e =
        rw (get_head_from, tnull_malloc_ample h r.ample.memory, r.ample.fine, e) refl

    pub round_more :
        (fuel : ℕ) (l : Linq) (s : sys.State)
        → (l.size == 0) ≡ false
        → get_head_from sys (suc fuel) l s h
          ≡ await_head sys (get_head_from sys fuel) (stat_head sys l s h) s
    unfolding get_head_from
    round_more fuel l s e =
        rw (get_head_from, tnull_malloc_ample h r.ample.memory, r.ample.fine, e) refl

    pub await_early :
        (again : Linq → sys.State → Host → Answered sys) (made : Option Buffer) (l : Linq)
        (s : sys.State)
        → ltb (sys.time s) (due_at l) ≡ true
        → await_head sys again (made, l, h) s ≡ (
          some (record { target = none; path = none; pause = seconds (due_at l - sys.time s) }),
          l,
          s,
          h,
        )
    unfolding await_head
    await_early again made l s e = rw (await_head, r.ample.fine, e) refl

    pub await_bad :
        (again : Linq → sys.State → Host → Answered sys) (u : Option Buffer × Linq × Host)
        (s : sys.State)
        → ok u.2 ≡ false
        → await_head sys again u s ≡ (none, u.1, s, u.2)
    unfolding await_head
    await_bad again u s e = rw (await_head, e) refl

    pub await_due :
        (again : Linq → sys.State → Host → Answered sys) (made : Option Buffer) (l : Linq)
        (s : sys.State) (link : Option Buffer × Host)
        → ltb (sys.time s) (due_at l) ≡ false
        → link_or sys made l h ≡ link
        → await_head sys again (made, l, h) s ≡ take_head sys again link l s
    unfolding await_head
    await_due again made l s link e named = rw (await_head, r.ample.fine, e, named) refl
