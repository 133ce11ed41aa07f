-- ===== src/Flusher/Pipes.antt =====
-- `create_flusher` and `acknowledge` of src/flusher.c.
pub mod Descriptors
pub mod Linked
use klunok.Prelude.{
  ℕ, zero, suc, ◌+◌, ◌-◌, ◌%◌, List, [], ◌∷◌, ◌++◌, Bool, true, false, not, Option, none, some,
  codes, ◌==◌, ltb, if◌then◌else◌, length, replicate,
}
use klunok.Trace.{Host, ok, throw_dynamic, tnull_malloc}
use klunok.Buffer.{Buffer}
use klunok.Set.{Set, create_set}
use klunok.System.{System, epipe, Errno, Answer, fails, gives, tneg_ask, tneg_get}
use klunok.Linq.{text_of}
use klunok.Building.{string, size, assemble}
use klunok.Serialize.{write_u64}
use klunok.Flusher.{Flusher, FlushRequest}

-- `TNULL(create_set(…), trace)`: `errno` is still that of the allocation that failed.
unfoldable pub tnull_create_set : ℕ → Host → Option Set × Host
tnull_create_set size_guess h =
    let (made, h') = create_set size_guess h in
    elim made [
      | some set ↦ (some set, h')
      | none ↦ if ok h then (none, throw_dynamic h'.out_of_memory h') else (none, h')
    ]

module _ (sys : System) where
  abbrev pub Created : Type 0
  Created = Option Flusher × sys.State × Host

  abbrev pub new_flusher : List ℕ → ℕ → Set → Flusher
  new_flusher boot_id timestamp set = record {
    boot_id = boot_id;
    boot_id_size = length boot_id;
    global_timestamp = timestamp;
    path_timestamps = set;
    last_pid = 0;
    last_pid_fd = none;
  }

  abbrev pub take_boot_id :
      (List ℕ → sys.State → Host → Option (List ℕ) × sys.State × Host)
      → List ℕ
      → Option (List ℕ) × sys.State × Host
      → Option (List ℕ) × sys.State × Host
  take_boot_id again got (none, s, h) = (none, s, h)
  take_boot_id again got (some [], s, h) = (some got, s, h)
  take_boot_id again got (some (b ∷ bytes), s, h) = again (got ++ b ∷ bytes) s h

  -- The loop that fills `boot_id`; at most 36 rounds add to it.
  unfoldable pub read_boot_id :
      ℕ → ℕ → List ℕ → sys.State → Host → Option (List ℕ) × sys.State × Host
  read_boot_id zero fd got s h = (some got, s, h)
  read_boot_id (suc fuel) fd got s h =
      let again = read_boot_id fuel fd in
      if ltb (length got) 36
      then take_boot_id again got (tneg_get sys (sys.read fd (36 - length got)) s h)
      else (some got, s, h)

  abbrev pub close_boot_id : ℕ → ℕ → Set → Option (List ℕ) × sys.State × Host → Created
  close_boot_id fd timestamp set (none, s, h) = (none, sys.close fd s, h)
  close_boot_id fd timestamp set (some boot_id, s, h) =
      (some (new_flusher boot_id timestamp set), sys.close fd s, h)

  abbrev pub boot_id_opened : Option Set → Option ℕ → Option ℕ × sys.State × Host → Created
  boot_id_opened (some set) (some timestamp) (some fd, s, h) =
      close_boot_id fd timestamp set (read_boot_id 37 fd [] s h)
  boot_id_opened set timestamp (fd, s, h) = (none, s, h)

  unfoldable pub create_flusher : ℕ → sys.State → Host → Created
  create_flusher flushed_path_count_guess s h =
      let (set, h1) = tnull_create_set flushed_path_count_guess (tnull_malloc h).1 in
      let (timestamp, h2) = tneg_ask sys sys.clock s h1 in
      boot_id_opened set timestamp
        (tneg_get sys (sys.open_file (codes "/proc/sys/kernel/random/boot_id")) s h2)

  -- `close` of a descriptor that is not −1.
  abbrev pub close_pipe : Option ℕ → sys.State → sys.State
  close_pipe none s = s
  close_pipe (some fd) s = sys.close fd s

  -- What follows on the call of `write`.
  abbrev pub respond_behind : Flusher → Answer ℕ × sys.State → Flusher × sys.State
  respond_behind f (fails epipe, s) =
      (record f { last_pid = 0; last_pid_fd = none }, close_pipe f.last_pid_fd s)
  respond_behind f (r, s) = (f, s)

  -- A write to the descriptor −1 fails with `EBADF`, which is not looked at.
  unfoldable pub respond_to : FlushRequest → Flusher → Option ℕ → sys.State → Flusher × sys.State
  respond_to request f none s = (f, s)
  respond_to request f (some fd) s =
      respond_behind f (sys.write fd (1 ∷ write_u64 request.id (replicate 8 0)) s)

  abbrev pub respond : FlushRequest → Flusher → sys.State → Flusher × sys.State
  respond request f s = respond_to request f f.last_pid_fd s

  abbrev pub pipe_opened : FlushRequest → ℕ → Flusher → Answer ℕ × sys.State → Flusher × sys.State
  pipe_opened request pid f (fails e, s) = (f, s)
  pipe_opened request pid f (gives fd, s) =
      if not (sys.is_pipe fd s)
      then (f, sys.close fd s)
      else respond request (record f { last_pid = pid; last_pid_fd = some fd })
          (close_pipe f.last_pid_fd s)

  abbrev pub pipe_named :
      FlushRequest → ℕ → Flusher → Option Buffer × Host → sys.State → Flusher × sys.State × Host
  pipe_named request pid f (path, h) s =
      let (f', s') = pipe_opened request pid f (sys.open_pipe (text_of path) s) in
      if not (ok h) then (f, s, h) else (f', s', h)

  unfoldable pub acknowledge :
      FlushRequest → ℕ → Flusher → sys.State → Host → Flusher × sys.State × Host
  acknowledge request pid f s h =
      let (f', s') = respond request f s in
      let named =
        pipe_named request pid f (assemble (string (codes "/tmp/klunok.") ∷ (size pid ∷ [])) h) s in
      if not (ok h) then (f, s, h) else if not (pid == f.last_pid) then named else (f', s', h)
