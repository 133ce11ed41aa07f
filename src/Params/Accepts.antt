-- ===== src/Params/Accepts.antt =====
-- Command lines that `parse_params` of src/params.c accepts.
use klunok.Prelude.{
  List, [], ◌∷◌, ◌++◌, Bool, true, Option, none, some, Text, codes, ◌≡◌, refl, arith, ap, ◌∙◌,
  if◌then◌else◌, Option-cases, inl, inr, append-nil,
}
use klunok.Trace.{Host, ok}
use klunok.Buffer.Append.{tnull_malloc_ample}
use klunok.StringList.{StringList, join, create_list}
use klunok.Params.{
  Params, Parse, new_params, is_some, option_letter, read_arguments, last_argument, finish_option,
  default_exec_mounts, default_write_mounts, default_privilege_dropping_path, parse_params,
}

-- An option with its value.
pub data Choice : Type 0 where
  config drop write exec : Text → Choice

abbrev pub flag : Choice → Text
flag (config t) = codes "-c"
flag (drop t) = codes "-d"
flag (write t) = codes "-w"
flag (exec t) = codes "-e"

abbrev pub value : Choice → Text
value (config t) = t
value (drop t) = t
value (write t) = t
value (exec t) = t

abbrev pub render : List Choice → List Text
render [] = []
render (c ∷ cs) = flag c ∷ (value c ∷ render cs)

-- What an option asks for; a path may be given once.
abbrev pub choose : Choice → Params → Option Params
choose (config t) p =
    if is_some p.config_path then none else some (record p { config_path = some t })
choose (drop t) p =
    if is_some p.privilege_dropping_path
    then none
    else some (record p { privilege_dropping_path = some t })
choose (write t) p = some (record p { write_mounts = record { head = t ∷ p.write_mounts.head } })
choose (exec t) p = some (record p { exec_mounts = record { head = t ∷ p.exec_mounts.head } })

unfoldable pub choose_all : List Choice → Params → Option Params
choose_all [] p = some p
choose_all (c ∷ cs) p = elim (choose c p) [ none ↦ none | some q ↦ choose_all cs q ]

abbrev or_default : List Text → List Text → List Text
or_default [] default = default
or_default (t ∷ ts) default = t ∷ ts

abbrev or_here : Option Text → Option Text
or_here none = some (codes ".")
or_here (some t) = some t

-- What stands where the command line is silent.
abbrev pub complete : Bool → Params → Params
complete watch_nix_store p = record p {
  exec_mounts = record {
    head =
        or_default p.exec_mounts.head
          (if watch_nix_store then codes "/nix/store" ∷ (codes "/" ∷ []) else codes "/" ∷ []);
  };
  write_mounts = record { head = or_default p.write_mounts.head (codes "." ∷ []) };
  privilege_dropping_path = or_here p.privilege_dropping_path;
}

abbrev pub outside : Params → Parse
outside p = record { params = p; opt = 0 }

pub join_ample :
    (t : Text) (l : StringList) (h : Host)
    → h.fates ≡ []
    → ok h ≡ true
    → join t l h ≡ (record { head = t ∷ l.head }, h)
unfolding join
join_ample t l h e fine = let q = tnull_malloc_ample h e in rw (q, q, fine)

some_not_none : {A : Type 0} {x : A} → none ≡ some x → ⊥
some_not_none e = cc

module _ (h : Host) (ample : h.fates ≡ []) (fine : ok h ≡ true) where
  -- An option and its value are two rounds of the loop.
  read_choice :
      (c : Choice) (previous : Text) (rest : List Text) (p q : Params)
      → choose c p ≡ some q
      → read_arguments previous (flag c ∷ (value c ∷ rest)) (outside p) h
        ≡ read_arguments (value c) rest (outside q) h
  unfolding read_arguments option_letter
  read_choice (config t) previous rest p q e = ground (arith, fine)
  read_choice (drop t) previous rest p q e = ground (arith, fine)
  read_choice (write t) previous rest p q e =
      ground (arith, fine, join_ample t p.write_mounts h ample fine)
  read_choice (exec t) previous rest p q e =
      ground (arith, fine, join_ample t p.exec_mounts h ample fine)

  -- The loop reads any options with their values, in order.
  pub read_choices :
      (cs : List Choice) (previous : Text) (rest : List Text) (p q : Params)
      → choose_all cs p ≡ some q
      → read_arguments previous (render cs ++ rest) (outside p) h
        ≡ read_arguments (last_argument previous (render cs)) rest (outside q) h
  unfolding choose_all last_argument
  read_choices [] previous rest p q e =
      ap (λ (x : Params). read_arguments previous rest (outside x) h)
        (let same : p ≡ q = cc in same)
  read_choices (c ∷ cs) previous rest p q e = elim (Option-cases (choose c p)) [
    | inl clash ↦ absurd (some_not_none (rw (clash, choose_all) at e))
    | inr (r, next) ↦
        read_choice c previous (render cs ++ rest) p r next
        ∙ read_choices cs (value c) rest r q (rw (next, choose_all) at e)
  ]

  default_exec_mounts_fine :
      (b : Bool) (p : Params)
      → default_exec_mounts b p h ≡ (record p { exec_mounts = (complete b p).exec_mounts }, h)
  unfolding default_exec_mounts
  default_exec_mounts_fine b p = ground (
    arith,
    fine,
    join_ample (codes "/") p.exec_mounts h ample fine,
    join_ample (codes "/nix/store") (record { head = codes "/" ∷ p.exec_mounts.head }) h ample fine,
  )

  default_write_mounts_fine :
      (p : Params)
      → default_write_mounts p h ≡ (record p { write_mounts = (complete true p).write_mounts }, h)
  unfolding default_write_mounts
  default_write_mounts_fine p =
      ground (arith, fine, join_ample (codes ".") p.write_mounts h ample fine)

  default_path_fine :
      (p : Params)
      → default_privilege_dropping_path p h
        ≡ record p { privilege_dropping_path = (complete true p).privilege_dropping_path }
  unfolding default_privilege_dropping_path
  default_path_fine p = ground (arith, fine)

  stop :
      (previous : Text) (rest : List Text) (q : Params)
      → read_arguments previous (codes "-h" ∷ rest) (outside q) h
        ≡ (record { params = q; opt = b'h' }, h)
  unfolding read_arguments option_letter
  stop previous [] q = ground (arith, fine)
  stop previous (t ∷ rest) q = ground (arith, fine)

  pub create_list_ample : (create_list h).1 ≡ h
  unfolding create_list
  create_list_ample = rw (tnull_malloc_ample h ample) (ground arith)

  -- Where the loop and the `switch` behind it end without an error, the defaults are put in.
  accepted :
      (b : Bool) (name : Text) (args : List Text) (r : Parse) (p : Params)
      → read_arguments name args (outside new_params) h ≡ (r, h)
      → finish_option (last_argument name args) r h ≡ (p, h)
      → parse_params b name args h ≡ (some (complete b p), h)
  unfolding parse_params
  accepted b name args r p read finish = rw (
    tnull_malloc_ample h ample,
    create_list_ample,
    create_list_ample,
    read,
    finish,
    default_exec_mounts_fine b p,
    default_write_mounts_fine (record p { exec_mounts = (complete b p).exec_mounts }),
    fine,
    default_path_fine
        (record (complete b p) { privilege_dropping_path = p.privilege_dropping_path }),
  )

  -- Options with their values, none of the two paths given twice: they are all taken, the last
  -- mount in front, and the defaults stand where the command line is silent.
  pub parse_params-render :
      (b : Bool) (name : Text) (cs : List Choice) (q : Params)
      → choose_all cs new_params ≡ some q
      → parse_params b name (render cs) h ≡ (some (complete b q), h)
  parse_params-render b name cs q e =
      accepted b name (render cs) (outside q) q
        (rw append-nil at (read_choices cs name [] new_params q e)
          ∙ (unfold read_arguments in refl))
        (unfold finish_option in refl)

  -- `-h` ends the command line: what follows is not looked at.
  pub parse_params-help :
      (b : Bool) (name : Text) (cs : List Choice) (rest : List Text) (q : Params)
      → choose_all cs new_params ≡ some q
      → parse_params b name (render cs ++ codes "-h" ∷ rest) h
        ≡ (some (record (complete b q) { is_help_requested = true }), h)
  parse_params-help b name cs rest q e =
      accepted b name (render cs ++ codes "-h" ∷ rest) (record { params = q; opt = b'h' })
        (record q { is_help_requested = true })
        (read_choices cs name (codes "-h" ∷ rest) new_params q e
          ∙ stop (last_argument name (render cs)) rest q)
        (unfold finish_option in ground (arith, fine))
