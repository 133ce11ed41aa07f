-- ===== src/Buffer/Ample.antt =====
-- Appending with memory left: each `concat` appends, and the host is not touched.
use klunok.Prelude.{
  ℕ, ◌+◌, ◌*◌, ◌<◌, [], ◌∷◌, ◌++◌, true, Text, ◌≡◌, length, subst, sym, ◌∙◌, arith,
}
use klunok.Trace.{Host, ok, try}
use klunok.Trace.Rethrown.{ok-try}
use klunok.Buffer.{Buffer, size_mod, concat_string, concat_char, concat_size}
use klunok.Buffer.Cells.{NonZero}
use klunok.Buffer.Contents.{Holds}
use klunok.Buffer.Append.{
  concat_string-Holds, concat_char-Holds, concat_string_ample, concat_char_ample,
}
use klunok.Buffer.Decimal.{decimal, concat_size-Holds, concat_size_ample}

-- Every allocation to come succeeds, and there is no error yet.
pub record IsAmple (h : Host) : Type 0 where
  pub memory : h.fates ≡ []
  pub fine : ok h ≡ true

-- A host that is equal to an ample one.
pub IsAmple-same : (h h' : Host) → h' ≡ h → IsAmple h → IsAmple h'
IsAmple-same h h' e a = subst IsAmple (sym e) a

module _ (t : Text) (b : Buffer) (h : Host) (v : Holds t b) (a : IsAmple h) where
  pub string_fits :
      (s : Text)
      → NonZero s
      → (length t + length s + 1) * 2 < size_mod
      → Holds (t ++ s) (concat_string s b h).0 × ((concat_string s b h).1 ≡ h)
  string_fits s p fits =
      let same = concat_string_ample s b h a.memory in
      let fine : ok (concat_string s b h).1 ≡ true = rw same a.fine in
      (rw fine at (concat_string-Holds t b h s v p fits), same)

  pub char_fits :
      (c : ℕ)
      → 0 < c
      → (length t + 2) * 2 < size_mod
      → Holds (t ++ c ∷ []) (concat_char c b h).0 × ((concat_char c b h).1 ≡ h)
  char_fits c p fits =
      let same = concat_char_ample c b h a.memory in
      let fine : ok (concat_char c b h).1 ≡ true = rw same a.fine in
      (rw fine at (concat_char-Holds t b h c v p fits), same)

  pub size_fits :
      (n : ℕ)
      → n < size_mod
      → (length t + 22) * 2 < size_mod
      → Holds (t ++ decimal n) (concat_size n b h).0 × ((concat_size n b h).1 ≡ h)
  size_fits n small fits =
      let same = concat_size_ample n b h a.memory in
      let fine : ok (concat_size n b h).1 ≡ true = rw same a.fine in
      (rw fine at (concat_size-Holds t b h n v small fits), same)

-- Memory is left, and the host is outside of every block that failed.
pub record IsReady (h : Host) : Type 0 where
  pub ample : IsAmple h
  pub outside : h.post_throw_depth ≡ 0

pub try-IsReady : (h : Host) → IsReady h → IsReady (try h)
unfolding try ok
try-IsReady h a = record {
  ample = record {
    memory = ground (arith, a.ample.memory, a.ample.fine);
    fine = ok-try h ∙ a.ample.fine;
  };
  outside = ground (arith, a.outside, a.ample.fine);
}
