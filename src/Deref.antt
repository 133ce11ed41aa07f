-- ===== src/Deref.antt =====
-- src/deref.c: the path of a descriptor, from the link that stands for it.
pub mod Whole
use klunok.Prelude.{
  ℕ, zero, suc, ◌+◌, ◌*◌, ◌%◌, [], ◌∷◌, Bool, true, false, not, Option, none, some, Text, codes,
  ltb, if◌then◌else◌, length,
}
use klunok.Trace.{Host, ok, tnull_malloc}
use klunok.Buffer.{Buffer, size_mod}
use klunok.System.{System, tneg_ask}
use klunok.Linq.{text_of}
use klunok.Building.{string, size, assemble}

abbrev pub fd_directory : Text
fd_directory = codes "/proc/self/fd/"

module _ (sys : System) where
  -- The loop; `max_size` doubles in each round.
  unfoldable pub deref_from : ℕ → Text → ℕ → sys.State → Host → Option Text × Host
  deref_from zero link max_size s h = (none, h)
  deref_from (suc fuel) link max_size s h =
      let (target, h') = tneg_ask sys (sys.readlink link) s (tnull_malloc h).1 in
      let more = deref_from fuel link (max_size * 2 % size_mod) s h' in
      elim target [
        | none ↦ (none, h')
        | some t ↦ if ltb (length t) max_size then (some t, h') else more
      ]

  -- 64 doublings pass every size.
  abbrev pub deref_link : ℕ → Option Buffer × Host → sys.State → Option Text × Host
  deref_link length_guess (link, h) s =
      if not (ok h)
      then (none, h)
      else deref_from 64 (text_of link) ((length_guess + 1) % size_mod) s h

  unfoldable pub deref_fd : ℕ → ℕ → sys.State → Host → Option Text × Host
  deref_fd fd length_guess s h =
      deref_link length_guess (assemble (string fd_directory ∷ (size fd ∷ [])) h) s
