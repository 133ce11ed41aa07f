-- ===== src/StorePath/Sequence.antt =====
-- The paths that `create_store_path` and `increment` of src/storepath.c run through.
use klunok.Prelude.{
  ℕ, zero, suc, ◌+◌, ◌*◌, ◌%◌, ◌<◌, [], ◌∷◌, ◌++◌, true, Text, ◌≡◌, ap, ◌∙◌, arith, subst, length,
  take, length-append, append_assoc,
}
use klunok.Trace.{Host, ok}
use klunok.Buffer.{
  Buffer, size_mod, new_buffer, concat_string, concat_char, concat_size, set_length,
}
use klunok.Buffer.Cells.{NonZero, take-append_le, take_all}
use klunok.Buffer.Contents.{Holds, set_length-Holds, new_buffer-Holds}
use klunok.Buffer.Decimal.{decimal, length-decimal}
use klunok.Buffer.Ample.{IsAmple, IsAmple-same, string_fits, char_fits, size_fits}
use klunok.StorePath.{StorePath, concat_version, increment}

-- The number that tells duplicates of a version apart.
abbrev pub suffix : ℕ → Text
suffix zero = []
suffix (suc n) = b'-' ∷ decimal (suc n)

-- The path is `stem`, then the number of duplicates seen so far, then the extension.
pub record Names (stem extension : Text) (n : ℕ) (s : StorePath) : Type 0 where
  pub buffer : Holds (stem ++ (suffix n ++ extension)) s.buffer
  pub extension_kept : s.extension ≡ extension
  pub stem_length : s.extensionless_length ≡ length stem
  pub count : s.duplicate_count ≡ n
  pub extension_text : NonZero extension
  pub short : (length stem + length extension + 48) * 2 < size_mod

cut :
    (stem more : Text) (b : Buffer) (n : ℕ)
    → Holds (stem ++ more) b
    → n ≡ length stem
    → Holds stem (set_length n b)
cut stem more b n v e =
    let at_stem =
      set_length-Holds (stem ++ more) b n v (omega (arith, e, length-append stem more)) in
    subst (λ (x : Text). Holds x (set_length n b))
      (ap (λ (k : ℕ). take k (stem ++ more)) e
        ∙ take-append_le (length stem) stem more (omega arith)
        ∙ take_all stem)
      at_stem

spell :
    (stem extension x : Text) (n m : ℕ)
    → m ≡ n + 1
    → x ≡ extension
    → ((stem ++ b'-' ∷ []) ++ decimal m) ++ x ≡ stem ++ (suffix (n + 1) ++ extension)
spell stem extension x n m e f =
    let next : n + 1 ≡ suc n = omega arith in rw (e ∙ next, next, f) (simp append_assoc)

-- With memory left, each `increment` moves on to the next number.
pub increment-Names :
    (stem extension : Text) (n : ℕ) (s : StorePath) (h : Host)
    → IsAmple h
    → n + 1 < size_mod
    → Names stem extension n s
    → Names stem extension (n + 1) (increment s h).0 × ((increment s h).1 ≡ h)
unfolding increment
increment-Names stem extension n s h a small w =
    let b0 = set_length s.extensionless_length s.buffer in
    let m = (s.duplicate_count + 1) % size_mod in
    let s1 = concat_char b'-' b0 h in
    let s2 = concat_size m s1.0 s1.1 in
    let s3 = concat_string s.extension s2.0 s2.1 in
    let next : m ≡ n + 1 = omega (arith, w.count) in
    let v0 : Holds stem b0 =
      cut stem (suffix n ++ extension) s.buffer s.extensionless_length w.buffer w.stem_length in
    let (v1, e1) = char_fits stem b0 h v0 a b'-' (omega arith) (omega (arith, w.short)) in
    let a1 = IsAmple-same h s1.1 e1 a in
    let (v2, e2) =
      size_fits (stem ++ b'-' ∷ []) s1.0 s1.1 v1 a1 m (omega arith)
        (omega (arith, w.short, length-append stem (b'-' ∷ []))) in
    let a2 = IsAmple-same s1.1 s2.1 e2 a1 in
    let (v3, e3) =
      string_fits ((stem ++ b'-' ∷ []) ++ decimal m) s2.0 s2.1 v2 a2 s.extension
        (rw w.extension_kept w.extension_text)
        (omega (
          arith,
          w.short,
          ap length w.extension_kept,
          length-decimal m (omega arith),
          length-append (stem ++ b'-' ∷ []) (decimal m),
          length-append stem (b'-' ∷ []),
        )) in
    let fine : ok s3.1 ≡ true = rw e3 a2.fine in
    rw (a.fine, fine)
      (
        record {
          buffer =
              subst (λ (x : Text). Holds x s3.0)
                (spell stem extension s.extension n m next w.extension_kept) v3;
          extension_kept = w.extension_kept;
          stem_length = w.stem_length;
          count = next;
          extension_text = w.extension_text;
          short = w.short;
        },
        e3 ∙ e2 ∙ e1,
      )

-- `root/relative_path/version`
abbrev pub stem_of : Text → Text → Text → Text
stem_of root relative_path version =
    (((root ++ b'/' ∷ []) ++ relative_path) ++ b'/' ∷ []) ++ version

pub concat_version_fits :
    (root relative_path version : Text) (h : Host)
    → IsAmple h
    → NonZero root
    → NonZero relative_path
    → NonZero version
    → (length root + length relative_path + length version + 3) * 2 < size_mod
    → Holds
        (stem_of root relative_path version)
        (concat_version root relative_path version new_buffer h).0
      × ((concat_version root relative_path version new_buffer h).1 ≡ h)
unfolding concat_version
concat_version_fits root path version h a p q r fits =
    let s1 = concat_string root new_buffer h in
    let (v1, e1) = string_fits [] new_buffer h new_buffer-Holds a root p (omega arith) in
    let a1 = IsAmple-same h s1.1 e1 a in
    let s2 = concat_char b'/' s1.0 s1.1 in
    let (v2, e2) = char_fits root s1.0 s1.1 v1 a1 b'/' (omega arith) (omega arith) in
    let a2 = IsAmple-same s1.1 s2.1 e2 a1 in
    let l2 = length-append root (b'/' ∷ []) in
    let s3 = concat_string path s2.0 s2.1 in
    let (v3, e3) = string_fits (root ++ b'/' ∷ []) s2.0 s2.1 v2 a2 path q (omega (arith, l2)) in
    let a3 = IsAmple-same s2.1 s3.1 e3 a2 in
    let l3 = length-append (root ++ b'/' ∷ []) path in
    let s4 = concat_char b'/' s3.0 s3.1 in
    let (v4, e4) =
      char_fits ((root ++ b'/' ∷ []) ++ path) s3.0 s3.1 v3 a3 b'/' (omega arith)
        (omega (arith, l2, l3)) in
    let a4 = IsAmple-same s3.1 s4.1 e4 a3 in
    let l4 = length-append ((root ++ b'/' ∷ []) ++ path) (b'/' ∷ []) in
    let (v5, e5) =
      string_fits (((root ++ b'/' ∷ []) ++ path) ++ b'/' ∷ []) s4.0 s4.1 v4 a4 version r
        (omega (arith, l2, l3, l4)) in
    (v5, e5 ∙ e4 ∙ e3 ∙ e2 ∙ e1)
