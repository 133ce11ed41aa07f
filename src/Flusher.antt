-- ===== src/Flusher.antt =====
-- src/flusher.c: `get_request`. What `getxattr` answers is a parameter: the
-- bytes of the attribute, or `none` where it fails. So is `localtime`, by whether it succeeds on a
-- time. Times and identifiers are 64 bits wide.
pub mod Replays
pub mod Pipes
use klunok.Prelude.{
  ℕ, zero, suc, ◌+◌, ◌*◌, ◌/◌, ◌%◌, ◌^◌, List, [], ◌∷◌, Bool, true, false, ◌&&◌, ◌||◌, not, Option,
  none, some, Text, ◌==◌, ltb, leb, if◌then◌else◌, length, get_or, set, drop, take, text_eq,
}
use klunok.Trace.{Host, ok, tnull_malloc}
use klunok.Buffer.{create_buffer_view}
use klunok.Set.{Set, get_last_metadata, add_with_metadata}

-- The loops of `get_request` that read a number, most significant byte first.
unfoldable pub read_bytes : ℕ → List ℕ → ℕ
read_bytes value [] = value
read_bytes value (b ∷ bytes) = read_bytes ((value * 256 % 2 ^ 64 + b) % 2 ^ 64) bytes

pub record Flusher : Type 0 where
  pub boot_id : List ℕ
  pub boot_id_size : ℕ
  pub global_timestamp : ℕ
  pub path_timestamps : Set
  pub last_pid : ℕ
  -- −1 is `none`
  pub last_pid_fd : Option ℕ

pub record FlushRequest : Type 0 where
  pub id : ℕ
  pub time : ℕ

-- The fields of the attribute.
abbrev pub boot_id_in : List ℕ → List ℕ
boot_id_in wire = take 36 (drop 1 wire)

unfoldable pub u64_at : ℕ → List ℕ → ℕ
unfolding read_bytes
u64_at n wire = read_bytes 0 (take 8 (drop n wire))

-- The tests that do not look at the path: the version, the boot, and the age.
unfoldable pub is_current : List ℕ → Flusher → Bool
is_current wire f =
    not (ltb (length wire) 61)
    && (get_or wire 0 0 == 1)
    && text_eq (take f.boot_id_size (boot_id_in wire)) (take f.boot_id_size f.boot_id)
    && not (ltb (u64_at 37 wire) f.global_timestamp)

-- The rest, once the last timestamp of the path is known.
unfoldable pub accept :
    Text → List ℕ → (ℕ → Bool) → Flusher → Host → Option FlushRequest × Flusher × Host
accept path wire localtime f h =
    let (timestamps, h1) = add_with_metadata path (u64_at 37 wire) f.path_timestamps h in
    let h2 = (tnull_malloc h1).1 in
    let f' = record f { path_timestamps = timestamps } in
    if not (leb (2 ^ 63) (u64_at 53 wire)) && localtime (u64_at 53 wire)
    then (if ok h2
        then (some (record { id = u64_at 45 wire; time = u64_at 53 wire }), f', h2)
        else (none, f', h2))
    else (none, f, h)

unfoldable pub get_request :
    Text → Option (List ℕ) → (ℕ → Bool) → Flusher → Host → Option FlushRequest × Flusher × Host
unfolding is_current accept
get_request path none localtime f h = (none, f, h)
get_request path (some wire) localtime f h =
    if not (ok h && is_current wire f)
    then (none, f, h)
    else let (view, h') = create_buffer_view path h in
      elim view [
        | none ↦ (none, f, h')
        | some v ↦
            if leb (u64_at 37 wire) (get_last_metadata v f.path_timestamps)
            then (none, f, h')
            else accept path wire localtime f h'
      ]
