-- ===== src/Sieve/Texts.antt =====
-- src/sieve.c by the texts that its buffers hold.
use klunok.Prelude.{
  ℕ, zero, suc, ◌+◌, ◌*◌, ◌≤◌, ◌<◌, List, [], ◌∷◌, ◌++◌, Bool, true, false, ◌&&◌, ◌||◌, not, Option,
  some, Text, ◌≡◌, refl, ap, ◌∙◌, subst, arith, ◌==◌, leb, ltb, if◌then◌else◌, length, get_or, drop,
}
use klunok.Trace.{Host}
use klunok.Buffer.{View, Buffer, size_mod, concat_char}
use klunok.Buffer.Contents.{Reads, Holds}
use klunok.Buffer.Ample.{IsAmple, IsAmple-same, char_fits}
use klunok.Set.{Set, count, attribute_of, is_within}
use klunok.Set.Valid.{IsValid, entry_of}
use klunok.Set.Queries.{queries-entry_of}
use klunok.Sieve.{Walk, append_char, is_end}

-- The set counts the text.
unfoldable pub has : Set → Text → Bool
has s t = not (attribute_of count (entry_of s t) == 0)

-- The path up to an end, or its part behind the offset, is in the set.
unfoldable pub hits : Set → ℕ → Text → Bool
unfolding has
hits s offset t = has s t || (ltb offset (length t) && has s (drop offset t))

-- The last end that a set is hit at, going on from `done` with `rest`.
unfoldable pub last_end : Set → ℕ → Text → Text → Option ℕ → Option ℕ
last_end s offset done [] last = last
last_end s offset done (c ∷ rest) last =
    let t = done ++ c ∷ [] in
    last_end s offset t rest
      (if (is_end rest || length done == 0) && hits s offset t then some (length t) else last)

-- The start of the last hidden segment that is not ignored, going on from the segment `seg`.
unfoldable pub last_dot : Set → Text → ℕ → Text → ℕ → Text → Option ℕ → Option ℕ
last_dot ignored path at seg i [] last = last
last_dot ignored path at seg i (c ∷ rest) last =
    let seg' = if c == b'/' then seg else seg ++ c ∷ [] in
    let hidden = not (length seg' == 0) && (get_or path at 0 == b'.' && not (has ignored seg')) in
    last_dot ignored path (if is_end rest then i + 2 else at) (if is_end rest then [] else seg')
      (i + 1) rest (if is_end rest && hidden then some at else last)

abbrev pub map_ends : (Set → Option ℕ → Option ℕ) → List Set → List (Option ℕ) → List (Option ℕ)
map_ends f [] ends = ends
map_ends f (s ∷ sets) [] = []
map_ends f (s ∷ sets) (e ∷ ends) = f s e ∷ map_ends f sets ends

abbrev pub AllValid : List Set → Type 0
AllValid [] = Unit {0}
AllValid (s ∷ sets) = IsValid s × AllValid sets

-- What the buffers of the loop hold, between two rounds.
pub record Carries (done seg : Text) (offset : ℕ) (w : Walk) : Type 0 where
  pub absolute : Holds done w.absolute
  pub relative : Holds (drop offset done) w.relative
  pub segment : Holds seg w.segment

pub is_within-has :
    (s : Set) (t : Text) (v : View) → IsValid s → Reads t v → is_within v s ≡ has s t
unfolding has
is_within-has s t v w r = (queries-entry_of t v s w r).2

pub map_ends_twice :
    (f g : Set → Option ℕ → Option ℕ) (sets : List Set) (ends : List (Option ℕ))
    → map_ends f sets (map_ends g sets ends) ≡ map_ends (λ s e. f s (g s e)) sets ends
map_ends_twice f g [] ends = refl
map_ends_twice f g (s ∷ sets) [] = refl
map_ends_twice f g (s ∷ sets) (e ∷ ends) =
    ap (λ (l : List (Option ℕ)). f s (g s e) ∷ l) (map_ends_twice f g sets ends)

drop-snoc_le : (n c : ℕ) (t : Text) → n ≤ length t → drop n (t ++ c ∷ []) ≡ drop n t ++ c ∷ []
drop-snoc_le zero c t p = refl
drop-snoc_le (suc n) c [] p = absurd (omega arith)
drop-snoc_le (suc n) c (x ∷ t) p = drop-snoc_le n c t (omega arith)

drop-snoc_lt : (n c : ℕ) (t : Text) → length t < n → drop n (t ++ c ∷ []) ≡ drop n t
drop-snoc_lt zero c t p = absurd (omega arith)
drop-snoc_lt (suc n) c [] p = drop_nil n
  where
    drop_nil : (n : ℕ) → drop {A = ℕ} n [] ≡ drop (suc n) []
    drop_nil zero = refl
    drop_nil (suc n) = refl
drop-snoc_lt (suc n) c (x ∷ t) p = drop-snoc_lt n c t (omega arith)

length-drop_le : (n : ℕ) (t : Text) → length (drop n t) ≤ length t
length-drop_le zero t = omega arith
length-drop_le (suc n) [] = omega arith
length-drop_le (suc n) (x ∷ t) = omega (arith, length-drop_le n t)

module _ (offset : ℕ) (h : Host) (a : IsAmple h) where
  append_if :
      (t : Text) (b : Buffer) (c : ℕ) (p : Bool) (h' : Host)
      → h' ≡ h
      → Holds t b
      → 0 < c
      → (length t + 2) * 2 < size_mod
      → Holds (if p then t ++ c ∷ [] else t) (if p then concat_char c b h' else (b, h')).0
        × ((if p then concat_char c b h' else (b, h')).1 ≡ h)
  append_if t b c false h' e v q fits = (v, e)
  append_if t b c true h' e v q fits =
      let (w, same) = char_fits t b h' v (IsAmple-same h h' e a) c q fits in (w, same ∙ e)

  -- The three appends of a round.
  pub append_char-Carries :
      (done seg : Text) (c : ℕ) (w : Walk)
      → Carries done seg offset w
      → 0 < c
      → length seg ≤ length done
      → (length done + 2) * 2 < size_mod
      → Carries
          (done ++ c ∷ [])
          (if c == b'/' then seg else seg ++ c ∷ [])
          offset
          (append_char c (leb offset (length done)) w h).0
        × ((append_char c (leb offset (length done)) w h).1 ≡ h)
  unfolding append_char
  append_char-Carries done seg c w k q short fits =
      let p = leb offset (length done) in
      let (v1, e1) = append_if done w.absolute c true h refl k.absolute q fits in
      let h1 = (concat_char c w.absolute h).1 in
      let (v2, e2) =
        append_if (drop offset done) w.relative c p h1 e1 k.relative q
          (omega (arith, length-drop_le offset done)) in
      let h2 = (if p then concat_char c w.relative h1 else (w.relative, h1)).1 in
      let (v3, e3) = append_if seg w.segment c (not (c == b'/')) h2 e2 k.segment q (omega arith) in
      (
        record {
          absolute = v1;
          relative =
              subst
                (λ (t : Text).
                  Holds t (if p then concat_char c w.relative h1 else (w.relative, h1)).0)
                (relative_text done c) v2;
          segment =
              subst
                (λ (t : Text).
                  Holds t
                    (if not (c == b'/') then concat_char c w.segment h2 else (w.segment, h2)).0)
                (segment_text seg c) v3;
        },
        e3,
      )
    where
      relative_text :
          (done : Text) (c : ℕ)
          → (if leb offset (length done) then drop offset done ++ c ∷ [] else drop offset done)
            ≡ drop offset (done ++ c ∷ [])
      relative_text done c = ground (arith, drop-snoc_le offset c done, drop-snoc_lt offset c done)

      segment_text :
          (seg : Text) (c : ℕ)
          → (if not (c == b'/') then seg ++ c ∷ [] else seg)
            ≡ (if c == b'/' then seg else seg ++ c ∷ [])
      segment_text seg c = ground arith
