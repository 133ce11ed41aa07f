-- ===== src/Linq/Head.antt =====
-- `get_head` of src/linq.c.
use klunok.Prelude.{
  ℕ, zero, suc, suc-==-zero, ◌+◌, ◌-◌, ◌<◌, ◌≤◌, List, [], ◌∷◌, true, false, none, some, Text, ◌≡◌,
  refl, ap, ◌∙◌, arith, length, ltb, ◌==◌, Bool-cases, inl, inr, ◌⊎◌,
}
use klunok.Trace.{Host, ok}
use klunok.Buffer.Ample.{IsReady}
use klunok.Set.Bag.{occurrences}
use klunok.System.{System, gives}
use klunok.Buffer.Decimal.{decimal}
use klunok.Linq.{
  Linq, LinqHead, forever, seconds, strip_legacy_metadata, pop_head, stat_head, due_at, Answered,
  get_head_from, get_head,
}
use klunok.Linq.Queue.{IsLinkStore, Represents, paths}
use klunok.Linq.Pop.{pop_head-Represents}
use klunok.Linq.Rounds.{
  get_head_failed, stat_cases, judged, still, round_empty, round_more, await_early, await_bad,
  await_due,
}

-- What a head says of the queue that it is the head of. `mtime` is when its link was changed, as the
-- directory says.
pub data Says (sys : System) (l : Linq) (s : sys.State) (head : LinqHead) : List Text → Type 0 where
  idle : {q : List Text} → q ≡ [] → head.pause ≡ forever → Says sys l s head q
  waits :
      {q : List Text} (mtime : ℕ)
      → sys.mtime_at l.dirfd (decimal l.head_index) s ≡ gives mtime
      → sys.time s < mtime + l.debounce_seconds
      → head.pause ≡ seconds (mtime + l.debounce_seconds - sys.time s)
      → Says sys l s head q
  ready :
      {q : List Text} (t : Text) (later : List Text) (mtime : ℕ)
      → q ≡ t ∷ later
      → sys.mtime_at l.dirfd (decimal l.head_index) s ≡ gives mtime
      → mtime + l.debounce_seconds ≤ sys.time s
      → head ≡ record { target = some t; path = some (strip_legacy_metadata t); pause = seconds 0 }
      → occurrences (strip_legacy_metadata t) (paths q) < 2
      → Says sys l s head q

module _ (sys : System) where
  -- A head is given for what is left of the queue, which has the same paths.
  pub record Settled (q : List Text) (h : Host) (r : Answered sys) : Type 0 where
    pub head : LinqHead
    pub rest : List Text
    pub given : r.0 ≡ some head
    pub host : r.3 ≡ h
    pub represents : Represents sys r.1 r.2 rest
    pub says : Says sys r.1 r.2 head rest
    pub shorter : length rest ≤ length q
    pub kept : (p : Text) → ltb 0 (occurrences p (paths rest)) ≡ ltb 0 (occurrences p (paths q))

  abbrev pub Failed : Answered sys → Type 0
  Failed r = (r.0 ≡ none) × (ok r.3 ≡ false)

  Settled-again :
      (q later : List Text) (h : Host) (r : Answered sys)
      → ((p : Text) → ltb 0 (occurrences p (paths later)) ≡ ltb 0 (occurrences p (paths q)))
      → length later ≤ length q
      → Settled later h r ⊎ Failed r
      → Settled q h r ⊎ Failed r
  Settled-again q later h r still' less (inr bad) = inr bad
  Settled-again q later h r still' less (inl w) = inl (record {
    head = w.head;
    rest = w.rest;
    given = w.given;
    host = w.host;
    represents = w.represents;
    says = w.says;
    shorter = omega (arith, w.shorter, less);
    kept = λ p. w.kept p ∙ still' p;
  })

  module _ (store : IsLinkStore sys) (h : Host) (r : IsReady h) where
    get_head_from-Settled :
        (fuel : ℕ) (q : List Text) (l : Linq) (s : sys.State)
        → Represents sys l s q
        → length q < fuel
        → Settled q h (get_head_from sys fuel l s h) ⊎ Failed (get_head_from sys fuel l s h)
    get_head_from-Settled zero q l s w p = absurd (omega (arith, p))
    get_head_from-Settled (suc fuel) [] l s w p =
        let e : (l.size == 0) ≡ true = ap (λ (n : ℕ). n == 0) w.size in
        inl (
          rw (round_empty sys h r fuel l s e) (record {
            head = record { target = none; path = none; pause = forever };
            rest = [];
            given = refl;
            host = refl;
            represents = w;
            says = idle refl refl;
            shorter = omega arith;
            kept = λ p. refl;
          }))
    get_head_from-Settled (suc fuel) (t ∷ q) l s w p =
        let e : (l.size == 0) ≡ false = ap (λ (n : ℕ). n == 0) w.size ∙ suc-==-zero (length q) in
        rw (round_more sys h r fuel l s e) (elim (stat_cases sys l s (t ∷ q) h r w (omega arith)) [
          | inr bad ↦ inr (
              rw (await_bad sys h r (get_head_from sys fuel) (stat_head sys l s h) s bad)
                (refl, bad))
          | inl (made, l', stat, w', st, (b, link, named)) ↦
              rw stat (elim (Bool-cases (ltb (sys.time s) (due_at l'))) [
                | inl early ↦ rw (await_early sys h r (get_head_from sys fuel) made l' s early) (
                    inl (record {
                      head = record {
                        target = none;
                        path = none;
                        pause = seconds (due_at l' - sys.time s);
                      };
                      rest = t ∷ q;
                      given = refl;
                      host = refl;
                      represents = w';
                      says =
                          waits st.mtime st.said (ground (arith, early, st.due))
                            (ap (λ (n : ℕ). seconds (n - sys.time s)) st.due);
                      shorter = omega arith;
                      kept = λ p. refl;
                    }))
                | inr due ↦
                    rw
                      (
                        await_due sys h r (get_head_from sys fuel) made l' s (some b, h) due link,
                        judged sys l' s (t ∷ q) h r w' (get_head_from sys fuel) b t q named refl,
                      )
                      (elim (Bool-cases
                        (ltb 1 (occurrences (strip_legacy_metadata t) (paths (t ∷ q))))) [
                          | inr once ↦ rw once (
                              inl (record {
                                head = record {
                                  target = some t;
                                  path = some (strip_legacy_metadata t);
                                  pause = seconds 0;
                                };
                                rest = t ∷ q;
                                given = refl;
                                host = refl;
                                represents = w';
                                says =
                                    ready t q st.mtime refl st.said (ground (arith, due, st.due))
                                      refl (ground (arith, once));
                                shorter = omega arith;
                                kept = λ p. refl;
                              }))
                          | inl twice ↦
                              rw twice (elim (pop_head-Represents sys store l' s t q h r w') [
                                | inr bad ↦ inr (
                                    rw
                                      (get_head_failed sys fuel (pop_head sys l' s h).0
                                        (pop_head sys l' s h).1 (pop_head sys l' s h).2 bad)
                                      (refl, bad))
                                | inl (same, w2, _, _) ↦ rw same (
                                    Settled-again (t ∷ q) q h
                                      (get_head_from sys fuel (pop_head sys l' s h).0
                                        (pop_head sys l' s h).1 h)
                                      (still sys l' s (t ∷ q) h r w' t q refl
                                        (ground (arith, twice)))
                                      (omega arith)
                                      (get_head_from-Settled fuel q (pop_head sys l' s h).0
                                        (pop_head sys l' s h).1 w2 (omega (arith, p))))
                              ])
                        ])
              ])
        ])

    -- With memory left, `get_head` gives a head for what is left of a queue that the links
    -- represent: nothing to wait for if that is empty; the rest of the debouncing time, counted from
    -- the modification time of the first link, if its target is not due; or the first target, due,
    -- whose path is not in the queue again. No path is missing from what is left. Or else there is an
    -- error.
    pub get_head-Settled :
        (q : List Text) (l : Linq) (s : sys.State)
        → Represents sys l s q
        → Settled q h (get_head sys l s h) ⊎ Failed (get_head sys l s h)
    unfolding get_head
    get_head-Settled q l s w = get_head_from-Settled (l.size + 1) q l s w (omega (arith, w.size))
