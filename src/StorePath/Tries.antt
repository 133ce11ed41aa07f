-- ===== src/StorePath/Tries.antt =====
-- Every path that src/storepath.c tries is new.
use mathlib.Core.List.{append_cancel_left, append_cancel_right}
use klunok.Prelude.{
  ℕ, zero, suc, ◌+◌, ◌*◌, ◌<◌, [], ◌∷◌, ◌++◌, some, Text, ◌≡◌, refl, ap, ◌∙◌, sym, arith, length,
  length-append,
}
use klunok.Trace.{Host, tnull_malloc}
use klunok.Buffer.{size_mod, new_buffer, create_buffer, concat_string, get_length}
use klunok.Buffer.Cells.{NonZero}
use klunok.Buffer.Contents.{Reads-get_string, Reads-get_length}
use klunok.Buffer.Append.{create_buffer_lem, create_buffer_ample, tnull_malloc_ample}
use klunok.Buffer.Ample.{IsAmple, IsAmple-same, string_fits}
use klunok.Buffer.Decimal.{decimal, value_from, value-decimal}
use klunok.Paths.{get_file_extension}
use klunok.Paths.Extension.{get_file_extension-part}
use klunok.StorePath.{StorePath, concat_version, create_store_path, get_current_path, increment}
use klunok.StorePath.Sequence.{suffix, Names, increment-Names, stem_of, concat_version_fits}

length-stem_of :
    (root path version : Text)
    → length (stem_of root path version) ≡ length root + length path + length version + 2
length-stem_of root path version = omega (
  arith,
  length-append root (b'/' ∷ []),
  length-append (root ++ b'/' ∷ []) path,
  length-append ((root ++ b'/' ∷ []) ++ path) (b'/' ∷ []),
  length-append (((root ++ b'/' ∷ []) ++ path) ++ b'/' ∷ []) version,
)

-- With memory left, the first path is the root, the relative path and the version, joined by
-- slashes, with the extension of the file.
pub create_store_path-Names :
    (root relative_path version : Text) (h : Host)
    → IsAmple h
    → NonZero root
    → NonZero relative_path
    → NonZero version
    → (length root + 2 * length relative_path + length version + 60) * 2 < size_mod
    → (s : StorePath) × (create_store_path root relative_path version h ≡ (some s, h))
      × Names (stem_of root relative_path version) (get_file_extension relative_path) 0 s
unfolding create_store_path
create_store_path-Names root path version h a p q r fits =
    let stem = stem_of root path version in
    let ext = get_file_extension path in
    let (ext_text, ext_short) = get_file_extension-part path q in
    let h1 = (create_buffer (tnull_malloc h).1).1 in
    let e0 = tnull_malloc_ample h a.memory in
    let e1 : h1 ≡ h = rw e0 (create_buffer_ample h a.memory) in
    let a1 = IsAmple-same h h1 e1 a in
    let made = (create_buffer_lem (tnull_malloc h).1).0 a1.fine in
    let s2 = concat_version root path version new_buffer h1 in
    let (v2, e2) = concat_version_fits root path version h1 a1 p q r (omega arith) in
    let a2 = IsAmple-same h1 s2.1 e2 a1 in
    let e3 = tnull_malloc_ample s2.1 a2.memory in
    let a3 = IsAmple-same s2.1 (tnull_malloc s2.1).1 e3 a2 in
    let s4 = concat_string ext s2.0 (tnull_malloc s2.1).1 in
    let (v4, e4) =
      string_fits stem s2.0 (tnull_malloc s2.1).1 v2 a3 ext ext_text
        (omega (arith, ext_short, length-stem_of root path version)) in
    let a4 = IsAmple-same (tnull_malloc s2.1).1 s4.1 e4 a3 in
    let path_made : StorePath = record {
      buffer = s4.0;
      extension = ext;
      extensionless_length = get_length s2.0.view;
      duplicate_count = 0;
    } in
    (
      path_made,
      rw (made, create_store_path, a2.fine, a4.fine)
          (ap (λ (x : Host). (some path_made, x)) (e4 ∙ e3 ∙ e2 ∙ e1)),
      record {
        buffer = v4;
        extension_kept = refl;
        stem_length = Reads-get_length stem s2.0.view v2.reads;
        count = refl;
        extension_text = ext_text;
        short = omega (arith, ext_short, length-stem_of root path version);
      },
    )

-- `n` calls of `increment`.
pub increments : ℕ → StorePath → Host → StorePath × Host
increments zero s h = (s, h)
increments (suc n) s h = increments n (increment s h).0 (increment s h).1

increments-Names :
    (k : ℕ) (stem extension : Text) (n : ℕ) (s : StorePath) (h : Host)
    → IsAmple h
    → n + k < size_mod
    → Names stem extension n s
    → Names stem extension (n + k) (increments k s h).0
unfolding increments
increments-Names zero stem extension n s h a small w = let e : n + 0 ≡ n = omega arith in rw e w
increments-Names (suc k) stem extension n s h a small w =
    let e : n + suc k ≡ n + 1 + k = omega arith in
    let (v, same) = increment-Names stem extension n s h a (omega arith) w in
    rw e (
      increments-Names k stem extension (n + 1) (increment s h).0 (increment s h).1
        (IsAmple-same h (increment s h).1 same a) (omega arith) v)

pub current :
    (stem extension : Text) (n : ℕ) (s : StorePath)
    → Names stem extension n s
    → get_current_path s ≡ stem ++ (suffix n ++ extension)
unfolding get_current_path
current stem extension n s w =
    Reads-get_string (stem ++ (suffix n ++ extension)) s.buffer.view w.buffer.reads

-- The path after `n` increments is the stem, a dash and `n` if `n` is not 0, and the extension.
pub increments-get_current_path :
    (n : ℕ) (stem extension : Text) (s : StorePath) (h : Host)
    → IsAmple h
    → n < size_mod
    → Names stem extension 0 s
    → get_current_path (increments n s h).0 ≡ stem ++ (suffix n ++ extension)
increments-get_current_path n stem extension s h a small w =
    let e : 0 + n ≡ n = omega arith in
    current stem extension n (increments n s h).0
      (rw e at (increments-Names n stem extension 0 s h a (omega arith) w))

suffix-injective : (i j : ℕ) → i < size_mod → j < size_mod → suffix i ≡ suffix j → i ≡ j
suffix-injective zero zero p q e = refl
suffix-injective zero (suc j) p q e = absurd (nil_not_cons e)
  where
    nil_not_cons : {x : ℕ} {t : Text} → [] ≡ x ∷ t → ⊥
    nil_not_cons e = cc
suffix-injective (suc i) zero p q e = absurd (cons_not_nil e)
  where
    cons_not_nil : {x : ℕ} {t : Text} → x ∷ t ≡ [] → ⊥
    cons_not_nil e = cc
suffix-injective (suc i) (suc j) p q e =
    let same : decimal (suc i) ≡ decimal (suc j) = cc in
    sym (value-decimal (suc i) p) ∙ ap (value_from 0) same ∙ value-decimal (suc j) q

-- A retry is never at a path that was tried before: the paths after different numbers of
-- increments differ.
pub increments_injective :
    (i j : ℕ) (stem extension : Text) (s : StorePath) (h : Host)
    → IsAmple h
    → i < size_mod
    → j < size_mod
    → Names stem extension 0 s
    → get_current_path (increments i s h).0 ≡ get_current_path (increments j s h).0
    → i ≡ j
increments_injective i j stem extension s h a p q w e =
    let both =
      sym (increments-get_current_path i stem extension s h a p w)
      ∙ e
      ∙ increments-get_current_path j stem extension s h a q w in
    suffix-injective i j p q (
      append_cancel_right (suffix i) (suffix j) extension
        (append_cancel_left stem (suffix i ++ extension) (suffix j ++ extension) both))
