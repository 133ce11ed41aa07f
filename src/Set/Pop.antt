-- ===== src/Set/Pop.antt =====
-- `pop` of src/set.c.
use klunok.Prelude.{
  ltb, not, ◌&&◌, ℕ, ◌+◌, ◌-◌, ◌%◌, List, [], ◌∷◌, Bool, true, false, none, some, Text, ◌≡◌, refl,
  ap, ◌∙◌, sym, arith, ◌==◌, if◌then◌else◌, set, length-set, text_eq, text_eq→eq, Bool-cases,
  Option-cases, inl, inr,
}
use klunok.Buffer.{View, size_mod}
use klunok.Buffer.Contents.{Reads}
use klunok.Set.{
  Entry, Set, metadata, count, attribute_of, find, modify, erase, find_entry, is_null, release,
  chain_at, pop, get_head,
}
use klunok.Set.Chain.{
  is_text, IsEntry, find_entry-text, modify-text, erase-text, find-modify, find-erase,
}
use klunok.Set.Entries.{IsChain-modify, IsChain-erase, find-IsEntry, null-modify}
use klunok.Set.Valid.{
  IsValid, home, home-lt, count_empty-set, count_empty-le, entry_of, written, written-IsValid,
  entry_of-update,
}
use klunok.Set.Queries.{get_head-home}

-- `s'` is `s` with one `t` less, if it has any; the metadata of what is left stays,
-- and that of what is forgotten is 0.
pub record Popped (t : Text) (s s' : Set) : Type 0 where
  pub valid : IsValid s'
  pub counts :
      (u : Text)
      → attribute_of count (entry_of s' u) ≡ (
          if text_eq u t
          then attribute_of count (entry_of s t) - 1
          else attribute_of count (entry_of s u))
  pub metadatas :
      (u : Text)
      → attribute_of metadata (entry_of s' u) ≡ (
          if text_eq u t && not (ltb 1 (attribute_of count (entry_of s t)))
          then 0
          else attribute_of metadata (entry_of s u))

is_null-found :
    (t : Text) (c : List Entry) (e : Entry) → find (is_text t) c ≡ some e → is_null c ≡ false
unfolding find
is_null-found t [] e q = absurd (ground arith)
is_null-found t (x ∷ c) e q = refl

module _ (t : Text) (v : View) (s : Set) (w : IsValid s) (r : Reads t v) where
  abbrev old : List Entry
  old = chain_at s (home t s)

  searched : find_entry v (chain_at s (get_head v s)) ≡ find (is_text t) old
  searched =
      ap (λ (i : ℕ). find_entry v (chain_at s i)) (get_head-home t v s r)
      ∙ find_entry-text t v s.size (home t s) r old (w.chains (home t s))

  pop-none : find (is_text t) old ≡ none → pop v s ≡ s
  unfolding pop
  pop-none missing = rw (searched ∙ missing, pop)

  pop_more :
      (e : Entry)
      → find (is_text t) old ≡ some e
      → ((release e).count == 0) ≡ false
      → pop v s ≡ written s t (modify (is_text t) release old) s.empty_head_count
  unfolding pop
  pop_more e found more = rw (
    searched ∙ found,
    pop,
    more,
    get_head-home t v s r,
    modify-text t v s.size (home t s) r release old (w.chains (home t s)),
  )

  abbrev count_after : ℕ
  count_after =
      if is_null (erase (is_text t) old)
      then (s.empty_head_count + 1) % size_mod
      else s.empty_head_count

  pop_last :
      (e : Entry)
      → find (is_text t) old ≡ some e
      → ((release e).count == 0) ≡ true
      → pop v s ≡ written s t (erase (is_text t) old) count_after
  unfolding pop
  pop_last e found last = rw (
    searched ∙ found,
    pop,
    last,
    get_head-home t v s r,
    erase-text t v s.size (home t s) r old (w.chains (home t s)),
  )

  -- The chain had an entry, so its head was not counted as empty.
  count_after_lem :
      (e : Entry)
      → find (is_text t) old ≡ some e
      → count_after + (if is_null old then 1 else 0)
        ≡ s.empty_head_count + (if is_null (erase (is_text t) old) then 1 else 0)
  count_after_lem e found =
      let full : is_null old ≡ false = is_null-found t old e found in
      let freed = count_empty-set s.heads (home t s) [] (home-lt t s w) in
      let most = count_empty-le (set s.heads (home t s) []) in
      let kept = length-set s.heads (home t s) [] in
      ground (arith, full, freed, most, kept, w.empties, w.width, w.small)

  -- `pop` counts the string once less, forgets it at 0, and does nothing if it is not there.
  pub pop-Popped : Popped t s (pop v s)
  pop-Popped = elim (Option-cases (find (is_text t) old)) [
    | inl missing ↦
        let meaning : entry_of s t ≡ none = unfold entry_of in missing in
        rw (pop-none missing) (record {
          valid = w;
          counts = λ u. ground (arith, meaning, text_eq→eq u t);
          metadatas = λ u. ground (arith, meaning, text_eq→eq u t);
        })
    | inr (e, found) ↦
        let meaning : entry_of s t ≡ some e = unfold entry_of in found in
        let there = (find-IsEntry s.size (home t s) t old e (w.chains (home t s)) found).0 in
        elim (Bool-cases ((release e).count == 0)) [
          | inr more ↦
              let changed = modify (is_text t) release old in
              let change =
                entry_of-update s w t changed s.empty_head_count (λ u. some (release e))
                  (λ u.
                    ground
                      (arith, find-modify t u release old (λ x. refl), found, text_eq→eq u t)) in
              let good : (x : Entry)
                  → find (is_text t) old ≡ some x
                  → IsEntry s.size (home t s) x
                  → IsEntry s.size (home t s) (release x) =
                λ x p q. record {
                  holds = q.holds;
                  home = q.home;
                  positive = ground arith;
                  bounded = ground arith;
                } in
              rw (pop_more e found more) (record {
                valid =
                    written-IsValid s w t changed s.empty_head_count
                      (IsChain-modify s.size (home t s) t release old (λ x. refl) good
                        (w.chains (home t s)))
                      (ap (λ (b : Bool). s.empty_head_count + (if b then 1 else 0))
                        (sym (null-modify (is_text t) release old)));
                counts = λ u. ground (arith, change u, meaning, there.positive, there.bounded);
                metadatas = λ u. ground (arith, change u, meaning, text_eq→eq u t);
              })
          | inl last ↦
              let changed = erase (is_text t) old in
              let change =
                entry_of-update s w t changed count_after (λ u. none)
                  (λ u. find-erase t u s.size (home t s) old (w.chains (home t s))) in
              rw (pop_last e found last) (record {
                valid =
                    written-IsValid s w t changed count_after
                      (IsChain-erase s.size (home t s) (is_text t) old (w.chains (home t s)))
                      (count_after_lem e found);
                counts = λ u. ground (arith, change u, meaning, there.positive, there.bounded);
                metadatas = λ u. ground (arith, change u, meaning, there.positive, there.bounded);
              })
        ]
  ]
