-- ===== src/Tests/Buffers.antt =====
-- src/buffer.c, src/bitmap.c, src/storepath.c and the paths at small inputs.
use klunok.Prelude.{
  ℕ, ◌+◌, [], ◌∷◌, ◌++◌, some, ◌==◌, not, ◌&&◌, Text, codes, ◌≡◌, refl, arith, ◌⊎◌, if◌then◌else◌,
  length,
}
use klunok.Buffer.{new_view, new_buffer, concat_string, get_hash}
use klunok.Buffer.Cells.{is_nonzero-NonZero}
use klunok.Buffer.Hashing.{sdbm}
use klunok.Buffer.Contents.{Reads, Holds, new_view-Reads, new_buffer-Holds, Reads-get_hash}
use klunok.Buffer.Ample.{string_fits}
use klunok.Bitmap.{new_bitmap}
use klunok.Bitmap.Bits.{IsValid}
use klunok.StorePath.{StorePath, create_store_path, get_current_path}
use klunok.StorePath.Sequence.{Names, suffix, stem_of}
use klunok.StorePath.Tries.{
  create_store_path-Names, increments, increments-get_current_path, increments_injective,
}
use klunok.Paths.{get_file_extension, get_common_parent_path_length}
use klunok.Paths.Ancestors.{IsAncestor, IsNearest, common_parent-IsNearest}
use klunok.Paths.Extension.{extension_of, starts_with_dot, get_file_extension_lem}
use klunok.Tests.{host, host-IsAmple}

abbrev abc : Holds (codes "abc") (concat_string (codes "abc") new_buffer host).0
abc =
    (string_fits [] new_buffer host new_buffer-Holds host-IsAmple (codes "abc")
      (is_nonzero-NonZero (codes "abc") refl) (omega arith)).0

Reads-get_hash_example :
    ((get_hash (new_view (codes "abc"))).0 ≡ sdbm (codes "abc"))
    × Reads (codes "abc") (get_hash (new_view (codes "abc"))).1
Reads-get_hash_example =
    Reads-get_hash (codes "abc") (new_view (codes "abc"))
      (new_view-Reads (codes "abc") (is_nonzero-NonZero (codes "abc") refl))

new_bitmap-IsValid : IsValid (new_bitmap 3)
new_bitmap-IsValid = record { width = refl }

abbrev pub created :
    (s : StorePath) × (create_store_path (codes "store") (codes "a.tar.gz") (codes "v1") host
      ≡ (some s, host))
    × Names
        (stem_of (codes "store") (codes "a.tar.gz") (codes "v1"))
        (get_file_extension (codes "a.tar.gz"))
        0
        s
created =
    create_store_path-Names (codes "store") (codes "a.tar.gz") (codes "v1") host host-IsAmple
      (is_nonzero-NonZero (codes "store") refl) (is_nonzero-NonZero (codes "a.tar.gz") refl)
      (is_nonzero-NonZero (codes "v1") refl) (omega arith)

create_store_path-Names_example :
    (s : StorePath) × (create_store_path (codes "store") (codes "a.tar.gz") (codes "v1") host
      ≡ (some s, host))
    × Names
        (stem_of (codes "store") (codes "a.tar.gz") (codes "v1"))
        (get_file_extension (codes "a.tar.gz"))
        0
        s
create_store_path-Names_example =
    create_store_path-Names (codes "store") (codes "a.tar.gz") (codes "v1") host host-IsAmple
      (is_nonzero-NonZero (codes "store") refl) (is_nonzero-NonZero (codes "a.tar.gz") refl)
      (is_nonzero-NonZero (codes "v1") refl) (omega arith)

increments-get_current_path_example :
    get_current_path (increments 2 created.0 host).0
    ≡ stem_of (codes "store") (codes "a.tar.gz") (codes "v1")
      ++ (suffix 2 ++ get_file_extension (codes "a.tar.gz"))
increments-get_current_path_example =
    increments-get_current_path 2 (stem_of (codes "store") (codes "a.tar.gz") (codes "v1"))
      (get_file_extension (codes "a.tar.gz")) created.0 host host-IsAmple (omega arith) created.2

increments_injective_example : ◌≡◌ {A = ℕ} 2 2
increments_injective_example =
    increments_injective 2 2 (stem_of (codes "store") (codes "a.tar.gz") (codes "v1"))
      (get_file_extension (codes "a.tar.gz")) created.0 host host-IsAmple (omega arith)
      (omega arith) created.2 refl

common_parent-IsNearest_example :
    ((d : Text) × IsNearest d (codes "a/bc/d") (codes "a/bd")
      × (get_common_parent_path_length (codes "/a/bc/d") (codes "/a/bd") ≡ length (b'/' ∷ d) + 1))
    ⊎ (((e : Text) → IsAncestor e (codes "a/bc/d") → IsAncestor e (codes "a/bd") → ⊥)
        × (get_common_parent_path_length (codes "/a/bc/d") (codes "/a/bd") ≡ 1))
common_parent-IsNearest_example =
    common_parent-IsNearest (codes "a/bc/d") (codes "a/bd")
      (is_nonzero-NonZero (codes "a/bc/d") refl) (is_nonzero-NonZero (codes "a/bd") refl)

-- The common parent of `/a/bc/d` and `/a/bd` is `/a/`.
common_parent_run : get_common_parent_path_length (codes "/a/bc/d") (codes "/a/bd") ≡ 3
unfolding get_common_parent_path_length
common_parent_run = refl

-- A name without a directory whose second character is its first dot has no extension.
get_file_extension_run :
    (get_file_extension (codes "a.c") ≡ [])
    × (get_file_extension (codes "/a.c") ≡ codes ".c")
    × (get_file_extension (codes "x/.a.tar.gz") ≡ codes ".tar.gz")
unfolding get_file_extension
get_file_extension_run = (refl, refl, refl)

get_file_extension_lem_example :
    (get_file_extension (codes "x/.a.c") ≡ extension_of (codes ".a.c"))
    × (get_file_extension (codes ".a.c") ≡ (
        if not (b'.' == b'.') && starts_with_dot (codes "a.c")
        then extension_of (codes "a.c")
        else extension_of (codes ".a.c")))
get_file_extension_lem_example =
    get_file_extension_lem (codes "x") b'.' (codes "a.c") (refl, (refl, (refl, (refl, tt))))
