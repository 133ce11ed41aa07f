-- ===== src/StorePath.antt =====
-- src/storepath.c: the path in the store at which a version of a file is tried next.
pub mod Sequence
pub mod Tries
use klunok.Prelude.{ℕ, ◌+◌, ◌%◌, [], Bool, not, Option, none, some, Text, if◌then◌else◌}
use klunok.Trace.{Host, ok, tnull_malloc}
use klunok.Buffer.{
  Buffer, size_mod, new_buffer, create_buffer, concat_string, concat_char, concat_size, set_length,
  get_length, get_string,
}
use klunok.Paths.{get_file_extension}

pub record StorePath : Type 0 where
  pub buffer : Buffer
  pub extension : Text
  pub extensionless_length : ℕ
  pub duplicate_count : ℕ

-- The path without its extension.
unfoldable pub concat_version : Text → Text → Text → Buffer → Host → Buffer × Host
concat_version root relative_path version b h =
    let (b1, h1) = concat_string root b h in
    let (b2, h2) = concat_char b'/' b1 h1 in
    let (b3, h3) = concat_string relative_path b2 h2 in
    let (b4, h4) = concat_char b'/' b3 h3 in concat_string version b4 h4

unfoldable pub create_store_path : Text → Text → Text → Host → Option StorePath × Host
unfolding concat_version
create_store_path root relative_path version h =
    let (made, h1) = create_buffer (tnull_malloc h).1 in
    elim made [
      | none ↦ (none, h1)
      | some b ↦
          let (b', h2) = concat_version root relative_path version b h1 in
          if not (ok h2)
          then (none, h2)
          else let extension = get_file_extension relative_path in
            let (b'', h3) = concat_string extension b' (tnull_malloc h2).1 in
            if ok h3
            then (
              some (record {
                buffer = b'';
                extension = extension;
                extensionless_length = get_length b'.view;
                duplicate_count = 0;
              }),
              h3,
            )
            else (none, h3)
    ]

unfoldable pub get_current_path : StorePath → Text
get_current_path s = get_string s.buffer.view

unfoldable pub increment : StorePath → Host → StorePath × Host
increment s h =
    if not (ok h)
    then (s, h)
    else let b = set_length s.extensionless_length s.buffer in
      let (b1, h1) = concat_char b'-' b h in
      let (b2, h2) = concat_size ((s.duplicate_count + 1) % size_mod) b1 h1 in
      let (b3, h3) = concat_string s.extension b2 h2 in
      if ok h3
      then (record s { buffer = b3; duplicate_count = (s.duplicate_count + 1) % size_mod }, h3)
      else (record s { buffer = b3 }, h3)
