-- ===== src/Elf.antt =====
-- src/elfinterp.c on a little-endian machine with 64 bits. The name of the interpreter is what is
-- before its terminator.
use klunok.Prelude.{
  ℕ, zero, suc, ◌+◌, ◌-◌, ◌*◌, List, [], ◌∷◌, ◌++◌, ◌||◌, not, Option, none, some, Text, ◌==◌, ltb,
  if◌then◌else◌, length, take, drop, text_eq,
}
use klunok.Trace.{Host, malloc}
use klunok.Buffer.{before_nul}
use klunok.System.{System, Errno, tneg_get, tneg_ask}

-- A field of a header.
unfoldable pub little_endian : List ℕ → ℕ
little_endian [] = 0
little_endian (b ∷ bytes) = b + 256 * little_endian bytes

abbrev pub field : ℕ → ℕ → List ℕ → ℕ
field offset size header = little_endian (take size (drop offset header))

-- `ELFMAG`
abbrev pub magic : List ℕ
magic = 0x7f ∷ (b'E' ∷ (b'L' ∷ (b'F' ∷ [])))

-- `PT_INTERP`
abbrev pub pt_interp : ℕ
pt_interp = 3

module _ (sys : System) where
  abbrev pub Filled : Type 0
  Filled = Option (List ℕ) × sys.State × Host

  abbrev pub take_bytes :
      (List ℕ → sys.State → Host → Filled) → List ℕ → Option (List ℕ) × sys.State × Host → Filled
  take_bytes again got (none, s, h) = (none, s, h)
  take_bytes again got (some [], s, h) = (none, s, h)
  take_bytes again got (some (b ∷ bytes), s, h) = again (got ++ b ∷ bytes) s h

  -- The loops that fill a block of `size` bytes; nothing is given if the file ends before.
  unfoldable pub fill : ℕ → ℕ → ℕ → List ℕ → sys.State → Host → Filled
  fill zero fd size got s h = (some got, s, h)
  fill (suc fuel) fd size got s h =
      let again = fill fuel fd size in
      if ltb (length got) size
      then take_bytes again got (tneg_get sys (sys.read fd (size - length got)) s h)
      else (some got, s, h)

  abbrev pub Interpreter : Type 0
  Interpreter = Option Text × sys.State × Host

  abbrev pub resolve : Filled → Interpreter
  resolve (none, s, h) = (none, s, h)
  resolve (some bytes, s, h) =
      let (path, h') = tneg_ask sys (sys.realpath (before_nul bytes)) s h in (path, s, h')

  abbrev pub read_interpreter : ℕ → ℕ → Option Errno × sys.State → Host → Interpreter
  read_interpreter fd size (some e, s) h = (none, s, h)
  read_interpreter fd size (none, s) h =
      let (got, h') = malloc h in
      if got then resolve (fill (size + 1) fd size [] s h') else (none, s, h')

  abbrev pub judge_header : (sys.State → Host → Interpreter) → ℕ → Filled → Interpreter
  judge_header again fd (none, s, h) = (none, s, h)
  judge_header again fd (some header, s, h) =
      if field 0 4 header == pt_interp
      then read_interpreter fd (field 32 8 header) (sys.lseek fd (field 8 8 header) s) h
      else again s h

  -- The loop over the program headers.
  unfoldable pub find_interpreter : ℕ → ℕ → sys.State → Host → Interpreter
  find_interpreter zero fd s h = (none, s, h)
  find_interpreter (suc n) fd s h =
      let again = find_interpreter n fd in judge_header again fd (fill 57 fd 56 [] s h)

  abbrev pub seek_headers : ℕ → ℕ → Option Errno × sys.State → Host → Interpreter
  seek_headers fd count (some e, s) h = (none, s, h)
  seek_headers fd count (none, s) h = find_interpreter count fd s h

  abbrev pub judge_file : ℕ → Filled → Interpreter
  judge_file fd (none, s, h) = (none, s, h)
  judge_file fd (some header, s, h) =
      if not (text_eq (take 4 header) magic) || field 32 8 header == 0
      then (none, s, h)
      else seek_headers fd (field 56 2 header) (sys.lseek fd (field 32 8 header) s) h

  unfoldable pub get_elf_interpreter : ℕ → sys.State → Host → Interpreter
  get_elf_interpreter exe_fd s h = judge_file exe_fd (fill 65 exe_fd 64 [] s h)
