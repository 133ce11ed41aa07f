-- ===== src/System.antt =====
-- The calls of the C library that the sources make, as a parameter: a state and the operations on
-- it. No code of the program is modelled here, but for `throw_errno` and `TNEG` of inc/trace.h over
-- such a call.
use klunok.Prelude.{
  ℕ, List, Bool, true, false, Option, none, some, Text, ◌≡◌, refl, ◌⊎◌, inl, inr, if◌then◌else◌,
}
use klunok.Trace.{Host, ok, throw_dynamic}

-- The values of `errno` that the sources tell apart.
pub data Errno : Type 0 where
  enoent eexist eacces enotempty epipe : Errno
  other : ℕ → Errno

pub data Answer (A : Type 0) : Type 0 where
  fails : Errno → Answer A
  gives : A → Answer A

pub Answer-cases :
    {A : Type 0} (r : Answer A) → ((n : Errno) × (r ≡ fails n)) ⊎ ((a : A) × (r ≡ gives a))
Answer-cases (fails n) = inl (n, refl)
Answer-cases (gives a) = inr (a, refl)

pub Reply-cases :
    {A S : Type 0} (r : Answer A × S)
    → ((n : Errno) × (s : S) × (r ≡ (fails n, s))) ⊎ ((a : A) × (s : S) × (r ≡ (gives a, s)))
Reply-cases (fails n, s) = inl (n, s, refl)
Reply-cases (gives a, s) = inr (a, s, refl)

pub Result-cases :
    {S : Type 0} (r : Option Errno × S)
    → ((n : Errno) × (s : S) × (r ≡ (some n, s))) ⊎ ((s : S) × (r ≡ (none, s)))
Result-cases (some n, s) = inl (n, s, refl)
Result-cases (none, s) = inr (s, refl)

-- `fts_info`, where an error of an entry has its number.
pub data Visit : Type 0 where
  before_directory after_directory file neither : Visit
  unreadable : Errno → Visit

pub record System : Type 1 where
  pub State : Type 0
  pub strerror : Errno → Text
  -- `time(NULL)`; a state that follows on a call may be later
  pub time : State → ℕ
  pub mkdir : Text → State → Option Errno × State
  pub rmdir : Text → State → Option Errno × State
  pub unlink : Text → State → Option Errno × State
  -- a link in an open directory: its whole target, and its modification time
  pub link_at : ℕ → Text → State → Answer Text
  pub mtime_at : ℕ → Text → State → Answer ℕ
  -- target, directory, name
  pub symlinkat : Text → ℕ → Text → State → Option Errno × State
  pub unlinkat : ℕ → Text → State → Option Errno × State
  -- `scandir` with a filter and the order `>` of its comparison
  pub scandir : (Text → Bool) → (Text → Text → Bool) → Text → State → Answer (List Text)
  pub opendir : Text → State → Answer ℕ × State
  -- `open` to read, and `open` to write with `O_CREAT`
  pub open_file : Text → State → Answer ℕ × State
  pub create_file : Text → State → Answer ℕ × State
  pub ftruncate : ℕ → State → Option Errno × State
  -- at most so many bytes; no bytes at the end of the file
  pub read : ℕ → ℕ → State → Answer (List ℕ) × State
  -- how many of the bytes were written
  pub write : ℕ → List ℕ → State → Answer ℕ × State
  pub close : ℕ → State → State
  -- `close` where its result is looked at
  pub close_checked : ℕ → State → Option Errno × State
  -- `open` with `O_CREAT` to append, and with `O_CREAT | O_EXCL`
  pub append_file : Text → State → Answer ℕ × State
  pub create_new : Text → State → Answer ℕ × State
  -- `fstat`: whether it is a regular file, and its size
  pub file_stat : ℕ → State → Answer (Bool × ℕ)
  -- output, input, offset, and the number of bytes; the offset moves on by what is given
  pub sendfile : ℕ → ℕ → ℕ → ℕ → State → Answer ℕ × State
  pub lseek : ℕ → ℕ → State → Option Errno × State
  -- the whole target of a link at a path
  pub readlink : Text → State → Answer Text
  pub realpath : Text → State → Answer Text
  pub lstat : Text → State → Option Errno
  -- whether `access` with `F_OK` succeeds
  pub exists : Text → State → Bool
  -- target and path; old and new path
  pub symlink : Text → Text → State → Option Errno × State
  pub link : Text → Text → State → Option Errno × State
  -- old path, directory and name; directory and name
  pub link_into : Text → ℕ → Text → State → Option Errno × State
  pub make_dir_at : ℕ → Text → State → Option Errno × State
  -- `fts_open` of one path, and `fts_read`: the kind, the path, and no entry at the end
  pub fts_open : Text → State → Answer ℕ × State
  pub fts_read : ℕ → State → Answer (Option (Visit × Text)) × State
  pub fts_close : ℕ → State → State
  -- a bind mount on itself, and the size of a page
  pub bind_mount : Text → State → Option Errno × State
  pub page_size : State → Answer ℕ
  -- `localtime`, and what `strftime` writes if there is room
  pub localtime : ℕ → State → Option Errno
  pub strftime : Text → ℕ → State → Text
  -- the value of an attribute, at most so many bytes
  pub getxattr : Text → Text → ℕ → State → Answer (List ℕ)
  -- the monotonic clock, in nanoseconds
  pub clock : State → Answer ℕ
  -- `open` with `O_WRONLY | O_NONBLOCK`, and whether `fstat` finds a pipe
  pub open_pipe : Text → State → Answer ℕ × State
  pub is_pipe : ℕ → State → Bool

module _ (sys : System) where
  -- `throw_errno`
  abbrev pub throw_errno : Errno → Host → Host
  throw_errno e h = throw_dynamic (sys.strerror e) h

  abbrev after : Option Errno × sys.State → Host → sys.State × Host
  after (none, s) h = (s, h)
  after (some e, s) h = (s, throw_errno e h)

  -- `TNEG` over a call without a result, and over one with a result.
  unfoldable pub tneg_do :
      (sys.State → Option Errno × sys.State) → sys.State → Host → sys.State × Host
  tneg_do call s h = if ok h then after (call s) h else (s, h)

  abbrev answered : {A : Type 0} → Answer A × sys.State → Host → Option A × sys.State × Host
  answered (fails e, s) h = (none, s, throw_errno e h)
  answered (gives a, s) h = (some a, s, h)

  unfoldable pub tneg_get :
      {A : Type 0}
      → (sys.State → Answer A × sys.State)
      → sys.State
      → Host
      → Option A × sys.State × Host
  tneg_get call s h = if ok h then answered (call s) h else (none, s, h)

  abbrev pub asked : {A : Type 0} → Answer A → Host → Option A × Host
  asked (fails e) h = (none, throw_errno e h)
  asked (gives a) h = (some a, h)

  -- `TNEG` over a call that changes nothing.
  unfoldable pub tneg_ask :
      {A : Type 0} → (sys.State → Answer A) → sys.State → Host → Option A × Host
  tneg_ask call s h = if ok h then asked (call s) h else (none, h)

  module _ (call : sys.State → Option Errno × sys.State) (s : sys.State) (h : Host) where
    pub tneg_done : ok h ≡ true → (call s).0 ≡ none → tneg_do call s h ≡ ((call s).1, h)
    unfolding tneg_do
    tneg_done fine e = rw (tneg_do, fine, e) refl

    pub tneg_failed :
        (n : Errno)
        → ok h ≡ true
        → (call s).0 ≡ some n
        → tneg_do call s h ≡ ((call s).1, throw_errno n h)
    unfolding tneg_do
    tneg_failed n fine e = rw (tneg_do, fine, e) refl

    pub tneg_skipped : ok h ≡ false → tneg_do call s h ≡ (s, h)
    unfolding tneg_do
    tneg_skipped bad = rw (tneg_do, bad) refl
