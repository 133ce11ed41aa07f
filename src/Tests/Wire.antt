-- ===== src/Tests/Wire.antt =====
-- src/flusher.c and src/handler.c at small inputs.
use klunok.Prelude.{
  ℕ, ◌+◌, ◌<◌, List, [], ◌∷◌, ◌++◌, true, none, some, codes, ◌≡◌, refl, arith, replicate, Text,
}
use klunok.Trace.{ok, tnull_malloc, malloc}
use klunok.Buffer.{
  create_buffer_view, create_buffer, concat_string, concat_bytes, ensure_capacity, strncat,
  before_nul, get_hash, hash_loop, hash_step, get_string, get_length,
}
use klunok.Buffer.Cells.{is_nonzero-NonZero}
use klunok.Set.{
  Set, new_set, count, count_mod, attribute_of, find, find_entry, matches, get_head, get_attribute,
  is_empty, get_last_metadata, add_with_metadata, insert,
}
use klunok.Set.Valid.{IsValid, new_set-IsValid, entry_of, get_or-replicate, home}
use klunok.Flusher.{Flusher, FlushRequest, u64_at, read_bytes, is_current, accept, get_request}
use klunok.Flusher.Replays.{get_request-once}
use klunok.Tests.{host}

abbrev small : Set
small = new_set 4

small-IsValid : IsValid small
small-IsValid = new_set-IsValid 4 (omega arith) (omega arith)

small-counts : (t : Text) → attribute_of count (entry_of small t) + 1 < count_mod
unfolding entry_of find
small-counts t = rw (get_or-replicate 4 (home t small)) (omega arith)

abbrev flusher : Flusher
flusher = record {
  boot_id = replicate 36 7;
  boot_id_size = 36;
  global_timestamp = 2;
  path_timestamps = small;
  last_pid = 0;
  last_pid_fd = none;
}

-- Version 1, the boot, the timestamp 3, the request 258 and the time 5.
abbrev wire : List ℕ
wire =
    1
    ∷ (replicate 36 7
        ++ (replicate 7 0 ++ (3 ∷ (replicate 6 0 ++ (1 ∷ (2 ∷ (replicate 7 0 ++ (5 ∷ []))))))))

abbrev request : FlushRequest
request = record { id = 258; time = 5 }

get_request_run : (get_request (codes "/a") (some wire) (λ t. true) flusher host).0 ≡ some request
unfolding get_request is_current accept u64_at read_bytes ok tnull_malloc malloc create_buffer_view
    create_buffer concat_string concat_bytes ensure_capacity strncat before_nul get_hash hash_loop
    hash_step get_string get_length find find_entry matches get_head get_attribute is_empty
    get_last_metadata add_with_metadata insert
get_request_run = refl

get_request-once_example :
    (get_request
      (codes "/a")
      (some wire)
      (λ t. true)
      (get_request (codes "/a") (some wire) (λ t. true) flusher host).1
      host).0
    ≡ none
get_request-once_example =
    get_request-once (codes "/a") wire (λ t. true) flusher small-IsValid
      (is_nonzero-NonZero (codes "/a") refl) (omega arith) (small-counts (codes "/a")) host request
      host get_request_run
