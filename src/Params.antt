-- ===== src/Params.antt =====
-- src/params.c: the command line. A C string of the command line is a `Text`; `argv[i - 1]` is
-- passed along, as the loop reads `argv` in order. The build decides `WATCH_NIX_STORE`.
pub mod Accepts
pub mod Refuses
use klunok.Prelude.{
  ℕ, List, [], ◌∷◌, Bool, true, false, ◌&&◌, ◌||◌, not, Option, none, some, Text, codes, ◌==◌,
  if◌then◌else◌,
}
use klunok.Trace.{Host, ok, throw_static, throw_context, tnull_malloc}
use klunok.Messages.{params_unknown_option, params_stray_option, params_redefined_option}
use klunok.StringList.{StringList, new_list, create_list, join}

pub record Params : Type 0 where
  pub is_version_requested : Bool
  pub is_help_requested : Bool
  pub config_path : Option Text
  pub privilege_dropping_path : Option Text
  pub write_mounts : StringList
  pub exec_mounts : StringList

-- The locals of the loop: `params` with its two lists, and `opt`, 0 outside an option.
pub record Parse : Type 0 where
  pub params : Params
  pub open params use *
  pub opt : ℕ

abbrev pub new_params : Params
new_params = record {
  is_version_requested = false;
  is_help_requested = false;
  config_path = none;
  privilege_dropping_path = none;
  write_mounts = new_list;
  exec_mounts = new_list;
}

abbrev pub is_some : Option Text → Bool
is_some none = false
is_some (some t) = true

-- `argv[i][1]`, unless `argv[i][0] != '-' || !argv[i][1] || argv[i][2]`
unfoldable pub option_letter : Text → Option ℕ
option_letter (d ∷ c ∷ []) = if d == b'-' then some c else none
option_letter _ = none

abbrev pub refuse : ℕ → Text → Host → Host
refuse message context h = throw_static message (throw_context context h)

-- The body of the loop: the `switch`.
unfoldable pub read_argument : Text → Text → Parse → Host → Parse × Host
read_argument previous arg p h =
    if p.opt == 0
    then elim (option_letter arg) [
      | none ↦ (p, refuse params_unknown_option arg h)
      | some c ↦ (record p { opt = c }, h)
    ]
    else if p.opt == b'c'
    then (if is_some p.config_path
        then (p, refuse params_redefined_option previous h)
        else (record { params = record (p.params) { config_path = some arg }; opt = 0 }, h))
    else if p.opt == b'd'
    then (if is_some p.privilege_dropping_path
        then (p, refuse params_redefined_option previous h)
        else (
          record { params = record (p.params) { privilege_dropping_path = some arg }; opt = 0 },
          h,
        ))
    else if p.opt == b'w'
    then (let (l, h') = join arg p.write_mounts h in
        (record { params = record (p.params) { write_mounts = l }; opt = 0 }, h'))
    else if p.opt == b'e'
    then (let (l, h') = join arg p.exec_mounts h in
        (record { params = record (p.params) { exec_mounts = l }; opt = 0 }, h'))
    else (p, refuse params_unknown_option previous h)

unfoldable pub read_arguments : Text → List Text → Parse → Host → Parse × Host
unfolding read_argument
read_arguments previous [] p h = (p, h)
read_arguments previous (arg ∷ rest) p h =
    let step = read_argument previous arg p h in
    let more = read_arguments arg rest step.0 step.1 in
    if ok h && not (p.opt == b'h') && not (p.opt == b'v') then more else (p, h)

-- `argv[argc - 1]`
unfoldable pub last_argument : Text → List Text → Text
last_argument first [] = first
last_argument first (arg ∷ rest) = last_argument arg rest

-- The `switch` behind the loop.
unfoldable pub finish_option : Text → Parse → Host → Params × Host
finish_option last p h =
    if p.opt == 0 || not (ok h)
    then (p.params, h)
    else if p.opt == b'h'
    then (record (p.params) { is_help_requested = true }, h)
    else if p.opt == b'v'
    then (record (p.params) { is_version_requested = true }, h)
    else if p.opt == b'c' || p.opt == b'd' || p.opt == b'w' || p.opt == b'e'
    then (p.params, refuse params_stray_option last h)
    else (p.params, refuse params_unknown_option last h)

-- What is watched and whose privileges are taken if the command line does not say.
unfoldable pub default_exec_mounts : Bool → Params → Host → Params × Host
default_exec_mounts watch_nix_store p h =
    if ok h
    then elim (p.exec_mounts.head) [
      | t ∷ ts ↦ (p, h)
      | [] ↦
          let (l, h') = join (codes "/") p.exec_mounts h in
          let (l', h'') = if watch_nix_store then join (codes "/nix/store") l h' else (l, h') in
          (record p { exec_mounts = l' }, h'')
    ]
    else (p, h)

unfoldable pub default_write_mounts : Params → Host → Params × Host
default_write_mounts p h =
    if ok h
    then elim (p.write_mounts.head) [
      | t ∷ ts ↦ (p, h)
      | [] ↦ let (l, h') = join (codes ".") p.write_mounts h in (record p { write_mounts = l }, h')
    ]
    else (p, h)

unfoldable pub default_privilege_dropping_path : Params → Host → Params
default_privilege_dropping_path p h =
    if ok h && not (is_some p.privilege_dropping_path)
    then record p { privilege_dropping_path = some (codes ".") }
    else p

-- `argv` begins with the name of the program. Where an allocation fails the loop is not entered.
unfoldable pub parse_params : Bool → Text → List Text → Host → Option Params × Host
parse_params watch_nix_store name args h =
    let h0 = (create_list (create_list (tnull_malloc h).1).1).1 in
    let (p, h1) = read_arguments name args (record { params = new_params; opt = 0 }) h0 in
    let (p', h2) = finish_option (last_argument name args) p h1 in
    let (e, h3) = default_exec_mounts watch_nix_store p' h2 in
    let (w, h4) = default_write_mounts e h3 in
    if ok h4 then (some (default_privilege_dropping_path w h4), h4) else (none, h4)
