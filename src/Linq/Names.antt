-- ===== src/Linq/Names.antt =====
-- The buffers that src/linq.c builds, with memory left.
use klunok.Prelude.{ℕ, ◌+◌, ◌*◌, ◌<◌, [], some, Text, ◌≡◌, refl, arith, length}
use klunok.Trace.{Host}
use klunok.Buffer.{
  Buffer, size_mod, new_buffer, new_view, create_buffer_view, concat_size, concat_string,
}
use klunok.Buffer.Cells.{NonZero}
use klunok.Buffer.Contents.{Holds, new_buffer-Holds, Reads-get_string}
use klunok.Buffer.Append.{create_buffer_lem, create_buffer_ample, tnull_malloc_ample}
use klunok.Buffer.Decimal.{decimal}
use klunok.Buffer.Ample.{IsAmple, size_fits, string_fits}
use klunok.Linq.{build, text_of}

module _ (h : Host) (a : IsAmple h) where
  build_ample :
      (f : Buffer → Host → Buffer × Host) (t : Text)
      → Holds t (f new_buffer h).0 × ((f new_buffer h).1 ≡ h)
      → (text_of (build f h).0 ≡ t) × ((build f h).1 ≡ h)
  unfolding build
  build_ample f t (holds, same) =
      let e = create_buffer_ample h a.memory in
      let made = (create_buffer_lem h).0 (rw e a.fine) in
      rw (made, e, build) (Reads-get_string t (f new_buffer h).0.view holds.reads, same)

  pub build-concat_size :
      (n : ℕ)
      → n < size_mod
      → (text_of (build (concat_size n) h).0 ≡ decimal n) × ((build (concat_size n) h).1 ≡ h)
  build-concat_size n small =
      build_ample (concat_size n) (decimal n)
        (size_fits [] new_buffer h new_buffer-Holds a n small (omega arith))

  -- The buffer itself.
  pub build-concat_size-some :
      (n : ℕ)
      → n < size_mod
      → (b : Buffer) × (build (concat_size n) h ≡ (some b, h)) × (text_of (some b) ≡ decimal n)
  unfolding build
  build-concat_size-some n small =
      let e = create_buffer_ample h a.memory in
      let made = (create_buffer_lem h).0 (rw e a.fine) in
      let (holds, same) = size_fits [] new_buffer h new_buffer-Holds a n small (omega arith) in
      let b = (concat_size n new_buffer h).0 in
      (b, rw (made, e, build, same) refl, Reads-get_string (decimal n) b.view holds.reads)

  pub build-concat_string :
      (t : Text)
      → NonZero t
      → (length t + 1) * 2 < size_mod
      → (text_of (build (concat_string t) h).0 ≡ t) × ((build (concat_string t) h).1 ≡ h)
  build-concat_string t p fits =
      build_ample (concat_string t) t
        (string_fits [] new_buffer h new_buffer-Holds a t p (omega arith))

  pub create_buffer_view_ample : (t : Text) → create_buffer_view t h ≡ (some (new_view t), h)
  unfolding create_buffer_view
  create_buffer_view_ample t =
      let q = tnull_malloc_ample h a.memory in rw (create_buffer_view, q, q, a.fine) refl
