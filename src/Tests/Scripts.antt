-- ===== src/Tests/Scripts.antt =====
-- src/config-lua.c at a small input.
use klunok.Prelude.{ℕ, suc, [], ◌∷◌, none, some, Text, codes, ◌≡◌, refl, arith}
use klunok.Config.Loads.{are_short-AreShort}
use klunok.Scripted.{Lua, LuaConfig, load_config, run_chunks}
use klunok.Scripted.Globals.{IsTable, Read, load_config-Read}
use klunok.Tests.{host, host-IsAmple}

-- An interpreter that counts its chunks; each table has one key, and each text is its name.
abbrev counter : Lua
counter = record {
  State = ℕ;
  newstate = some 0;
  run = λ chunk n. (none, suc n);
  to_text = λ name n. some name;
  to_integer = λ name n. n;
  raw_length = λ name n. 0;
  keys = λ name n. codes "vi" ∷ [];
}

every-IsTable : (name : Text) → IsTable counter 3 host host-IsAmple name
every-IsTable name = record {
  short = are_short-AreShort (codes "vi" ∷ []) refl;
  few = omega arith;
  small = omega arith;
}

load_config-Read_example :
    (c : LuaConfig) × (load_config counter (some (codes "/c")) host ≡ (some c, host))
    × Read counter 3 host host-IsAmple c
unfolding run_chunks
load_config-Read_example =
    load_config-Read counter (some (codes "/c")) 0 3 host host-IsAmple refl refl every-IsTable
