-- ===== src/Tests.antt =====
-- Runs of the definitions on small inputs, and the theorems at such inputs.
mod Sets
mod Wire
mod Buffers
mod Programs
mod Disk
mod Queue
mod Files
mod Store
mod Tools
mod Events
mod Pipes
mod Versions
mod Scripts
use klunok.Prelude.{ℕ, List, [], ◌∷◌, Bool, true, false, Text, codes, refl}
use klunok.Trace.{Host, ok, create_trace}
use klunok.Buffer.Ample.{IsAmple}

-- A host whose next allocations go as the list says, and all further ones succeed.
abbrev pub host_with : List Bool → Host
host_with fates = record {
  trace = create_trace;
  fates = fates;
  junk = 7;
  out_of_memory = codes "no memory";
}

abbrev pub host : Host
host = host_with []

-- A host that fails the third allocation.
abbrev pub poor : Host
poor = host_with (true ∷ (true ∷ (false ∷ [])))

pub host-IsAmple : IsAmple host
unfolding ok
host-IsAmple = record { memory = refl; fine = refl }
