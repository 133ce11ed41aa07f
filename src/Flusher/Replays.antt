-- ===== src/Flusher/Replays.antt =====
-- src/flusher.c takes each request once.
use klunok.Prelude.{
  ◌⊎◌, ℕ, ◌+◌, ◌*◌, ◌<◌, List, Bool, true, false, none, some, Text, ◌≡◌, refl, ap, sym, ◌∙◌, arith,
  ◌&&◌, not, leb, length, text_eq_refl, Bool-cases, inl, inr, ◌^◌,
}
use klunok.Trace.{Host, ok, tnull_malloc}
use klunok.Trace.Errors.{tnull_malloc-Guarded}
use klunok.Buffer.{new_view, size_mod, create_buffer_view}
use klunok.Buffer.Cells.{NonZero}
use klunok.Buffer.Contents.{new_view-Reads}
use klunok.Set.{count, metadata, count_mod, attribute_of, add_with_metadata, get_last_metadata}
use klunok.Set.Valid.{IsValid, entry_of}
use klunok.Set.Queries.{queries-entry_of}
use klunok.Set.Add.{Added, add_with_metadata-Added}
use klunok.Flusher.{Flusher, FlushRequest, u64_at, is_current, accept, get_request}

create_buffer_view_cases :
    (t : Text) (h : Host)
    → ((create_buffer_view t h).0 ≡ none) ⊎ ((create_buffer_view t h).0 ≡ some (new_view t))
unfolding create_buffer_view
create_buffer_view_cases t h = ground arith

tnull_malloc-ok : (h : Host) → ok (tnull_malloc h).1 ≡ true → ok h ≡ true
tnull_malloc-ok h e = elim (Bool-cases (ok h)) [
  | inl fine ↦ fine
  | inr bad ↦
      let same = ap (λ (r : Bool × Host). r.1) ((tnull_malloc-Guarded h).noop bad) in
      absurd (ground (arith, same))
]

none-some : {r : FlushRequest} → none ≡ some r → ⊥
none-some e = cc

false-true : false ≡ true → ⊥
false-true e = cc

module _ (path : Text) (wire : List ℕ) (localtime : ℕ → Bool) (f : Flusher)
    (w : IsValid f.path_timestamps) (p : NonZero path) (short : (length path + 1) * 2 < size_mod)
    (room : attribute_of count (entry_of f.path_timestamps path) + 1 < count_mod) where
  accept-Added :
      (h : Host) (r : FlushRequest)
      → (accept path wire localtime f h).0 ≡ some r
      → Added path
          (u64_at 37 wire)
          f.path_timestamps
          (accept path wire localtime f h).1.path_timestamps
  unfolding accept
  accept-Added h r e =
      let t = u64_at 37 wire in
      let good = not (leb (2 ^ 63) (u64_at 53 wire)) && localtime (u64_at 53 wire) in
      let h1 = (add_with_metadata path t f.path_timestamps h).1 in
      elim (Bool-cases good) [
        | inr bad ↦ absurd (none-some (rw (bad, accept) at e))
        | inl fit ↦ elim (Bool-cases (ok (tnull_malloc h1).1)) [
          | inr full ↦ absurd (none-some (rw (fit, accept, full) at e))
          | inl got ↦ elim (add_with_metadata-Added path t f.path_timestamps h w p short room) [
            | inl done ↦ rw (fit, accept, got) done.1
            | inr failed ↦ absurd (false-true (sym failed.0 ∙ tnull_malloc-ok h1 got))
          ]
        ]
      ]

  request-Added :
      (h : Host) (r : FlushRequest)
      → (get_request path (some wire) localtime f h).0 ≡ some r
      → Added path
          (u64_at 37 wire)
          f.path_timestamps
          (get_request path (some wire) localtime f h).1.path_timestamps
  unfolding get_request
  request-Added h r e = elim (Bool-cases (ok h && is_current wire f)) [
    | inr bad ↦ absurd (none-some (rw (bad, get_request) at e))
    | inl fit ↦ elim (create_buffer_view_cases path h) [
      | inl missing ↦ absurd (none-some (rw (fit, missing, get_request) at e))
      | inr made ↦
          let last = get_last_metadata (new_view path) f.path_timestamps in
          elim (Bool-cases (leb (u64_at 37 wire) last)) [
            | inl old ↦ absurd (none-some (rw (fit, made, get_request, old) at e))
            | inr young ↦
                rw (fit, made, get_request, young)
                  (accept-Added (create_buffer_view path h).1 r
                    (rw (fit, made, get_request, young) at e))
          ]
    ]
  ]

  stale :
      (g : Flusher) (k : Host)
      → IsValid g.path_timestamps
      → attribute_of metadata (entry_of g.path_timestamps path) ≡ u64_at 37 wire
      → (get_request path (some wire) localtime g k).0 ≡ none
  unfolding get_request
  stale g k v q =
      let last =
        (queries-entry_of path (new_view path) g.path_timestamps v (new_view-Reads path p)).1 in
      elim (Bool-cases (ok k && is_current wire g)) [
        | inr bad ↦ rw (bad, get_request) refl
        | inl fit ↦ elim (create_buffer_view_cases path k) [
          | inl missing ↦ rw (fit, missing, get_request) refl
          | inr made ↦ rw (fit, made, get_request) (ground (arith, last, q))
        ]
      ]

  -- A request that was given is not given again: the attribute that it was read from is stale
  -- then, whatever the host.
  pub get_request-once :
      (h : Host) (r : FlushRequest) (k : Host)
      → (get_request path (some wire) localtime f h).0 ≡ some r
      → (get_request path (some wire) localtime (get_request path (some wire) localtime f h).1 k).0
        ≡ none
  get_request-once h r k e =
      let d = request-Added h r e in
      stale (get_request path (some wire) localtime f h).1 k d.valid
        (ground (arith, d.metadatas path, text_eq_refl path))
