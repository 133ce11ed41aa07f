-- ===== src/Params/Refuses.antt =====
-- Command lines that `parse_params` of src/params.c refuses, and what main.c asserts of the others.
use klunok.Prelude.{
  ℕ, List, [], ◌∷◌, ◌++◌, Bool, true, false, none, some, Text, codes, ◌≡◌, ◌≢◌, refl, arith, subst,
  ◌∙◌, Bool-cases, inl, inr,
}
use klunok.Trace.{Host, ok, tnull_malloc, throw_context}
use klunok.Trace.Errors.{throw_static-Thrown}
use klunok.Buffer.Append.{tnull_malloc_ample}
use klunok.Messages.{params_unknown_option, params_stray_option, params_redefined_option}
use klunok.StringList.{StringList, join, create_list}
use klunok.Params.{
  Params, Parse, new_params, refuse, option_letter, read_arguments, last_argument, finish_option,
  default_exec_mounts, default_write_mounts, default_privilege_dropping_path, parse_params,
}
use klunok.Params.Accepts.{
  Choice, config, drop, write, exec, flag, value, render, choose, choose_all, read_choices,
  create_list_ample, outside,
}

-- What main.c asserts of parsed parameters.
pub record IsUsable (p : Params) : Type 0 where
  pub writes : p.write_mounts.head ≢ []
  pub executes : p.exec_mounts.head ≢ []
  pub drops : p.privilege_dropping_path ≢ none

join_filled :
    (t : Text) (l : StringList) (h : Host) → ok (join t l h).1 ≡ true → (join t l h).0.head ≢ []
unfolding join
join_filled t l h = ground arith

default_exec_mounts-filled :
    (b : Bool) (p : Params) (h : Host)
    → ok (default_exec_mounts b p h).1 ≡ true
    → (default_exec_mounts b p h).0.exec_mounts.head ≢ []
unfolding default_exec_mounts
default_exec_mounts-filled b p h e =
    let first = join (codes "/") p.exec_mounts h in
    ground (
      arith,
      join_filled (codes "/") p.exec_mounts h,
      join_filled (codes "/nix/store") first.0 first.1,
    )

default_write_mounts-filled :
    (p : Params) (h : Host)
    → ok (default_write_mounts p h).1 ≡ true
    → (ok h ≡ true)
      × ((default_write_mounts p h).0.write_mounts.head ≢ [])
      × ((default_write_mounts p h).0.exec_mounts ≡ p.exec_mounts)
unfolding default_write_mounts
default_write_mounts-filled p h e =
    (ground arith, ground (arith, join_filled (codes ".") p.write_mounts h), ground arith)

default_path :
    (p : Params) (h : Host)
    → ok h ≡ true
    → ((default_privilege_dropping_path p h).privilege_dropping_path ≢ none)
      × (((default_privilege_dropping_path p h).write_mounts ≡ p.write_mounts)
          × ((default_privilege_dropping_path p h).exec_mounts ≡ p.exec_mounts))
unfolding default_privilege_dropping_path
default_path p h e = (ground arith, (ground arith, ground arith))

none_not_some : {x : Params} → none ≡ some x → ⊥
none_not_some e = cc

some_inj : {x y : Params} → some x ≡ some y → x ≡ y
some_inj e = cc

-- Whatever the command line and wherever memory runs out: parameters are given only if no error is
-- in the trace, and then there is a mount of each kind to watch and a path to take the
-- privileges of.
pub parse_params-IsUsable :
    (b : Bool) (name : Text) (args : List Text) (h : Host) (p : Params)
    → (parse_params b name args h).0 ≡ some p
    → (ok (parse_params b name args h).1 ≡ true) × IsUsable p
unfolding parse_params
parse_params-IsUsable b name args h p e =
    let h0 = (create_list (create_list (tnull_malloc h).1).1).1 in
    let r = read_arguments name args (record { params = new_params; opt = 0 }) h0 in
    let f = finish_option (last_argument name args) r.0 r.1 in
    let x = default_exec_mounts b f.0 f.1 in
    let w = default_write_mounts x.0 x.1 in
    elim (Bool-cases (ok w.1)) [
      | inr failed ↦ absurd (none_not_some (rw failed at e))
      | inl fine ↦
          let (before, writes, same) = default_write_mounts-filled x.0 x.1 fine in
          let path = default_path w.0 w.1 fine in
          let given : default_privilege_dropping_path w.0 w.1 ≡ p = some_inj (rw fine at e) in
          rw fine (
            fine,
            subst IsUsable given (record {
              writes = rw path.1.0 writes;
              executes = rw (path.1.1, same) (default_exec_mounts-filled b f.0 f.1 before);
              drops = path.0;
            }),
          )
    ]

refuse_fails : (m : ℕ) (t : Text) (h : Host) → ok (refuse m t h) ≡ false
refuse_fails m t h = (throw_static-Thrown m (throw_context t h)).fails

abbrev letter : Choice → ℕ
letter (config t) = b'c'
letter (drop t) = b'd'
letter (write t) = b'w'
letter (exec t) = b'e'

last_argument-snoc :
    (first last : Text) (args : List Text) → last_argument first (args ++ last ∷ []) ≡ last
unfolding last_argument
last_argument-snoc first last [] = refl
last_argument-snoc first last (t ∷ args) = last_argument-snoc t last args

module _ (h : Host) (ample : h.fates ≡ []) (fine : ok h ≡ true) where
  -- An error of the loop or of the `switch` behind it is what the parse ends with.
  rejected :
      (b : Bool) (name : Text) (args : List Text) (r : Parse) (p : Params) (h1 h2 : Host)
      → read_arguments name args (outside new_params) h ≡ (r, h1)
      → finish_option (last_argument name args) r h1 ≡ (p, h2)
      → ok h2 ≡ false
      → parse_params b name args h ≡ (none, h2)
  unfolding parse_params default_exec_mounts default_write_mounts
  rejected b name args r p h1 h2 read finish failed = rw (
    tnull_malloc_ample h ample,
    create_list_ample h ample fine,
    create_list_ample h ample fine,
    read,
    finish,
    failed,
    failed,
    failed,
  )

  loop_rejected :
      (b : Bool) (name : Text) (args : List Text) (r : Parse) (m : ℕ) (t : Text)
      → read_arguments name args (outside new_params) h ≡ (r, refuse m t h)
      → parse_params b name args h ≡ (none, refuse m t h)
  loop_rejected b name args r m t read =
      rejected b name args r r.params (refuse m t h) (refuse m t h) read
        (unfold finish_option in ground (arith, refuse_fails m t h)) (refuse_fails m t h)

  read_failed :
      (previous : Text) (args : List Text) (p : Parse) (h' : Host)
      → ok h' ≡ false
      → read_arguments previous args p h' ≡ (p, h')
  unfolding read_arguments
  read_failed previous [] p h' failed = refl
  read_failed previous (t ∷ args) p h' failed = ground (arith, failed)

  unknown_argument :
      (previous arg : Text) (rest : List Text) (q : Params)
      → option_letter arg ≡ none
      → read_arguments previous (arg ∷ rest) (outside q) h
        ≡ (outside q, refuse params_unknown_option arg h)
  unfolding read_arguments
  unknown_argument previous arg rest q e =
      let h' = refuse params_unknown_option arg h in
      rw (e, fine) (read_failed arg rest (outside q) h' (refuse_fails params_unknown_option arg h))

  lone_flag :
      (c : Choice) (previous : Text) (q : Params)
      → read_arguments previous (flag c ∷ []) (outside q) h
        ≡ (record { params = q; opt = letter c }, h)
  unfolding read_arguments option_letter
  lone_flag (config t) previous q = ground (arith, fine)
  lone_flag (drop t) previous q = ground (arith, fine)
  lone_flag (write t) previous q = ground (arith, fine)
  lone_flag (exec t) previous q = ground (arith, fine)

  second_value :
      (c : Choice) (previous : Text) (rest : List Text) (q : Params)
      → choose c q ≡ none
      → read_arguments previous (flag c ∷ (value c ∷ rest)) (outside q) h
        ≡ (record { params = q; opt = letter c }, refuse params_redefined_option (flag c) h)
  unfolding read_arguments option_letter
  second_value (config t) previous rest q clash = ground (
    arith,
    fine,
    read_failed t rest (record { params = q; opt = b'c' })
        (refuse params_redefined_option (codes "-c") h)
        (refuse_fails params_redefined_option (codes "-c") h),
  )
  second_value (drop t) previous rest q clash = ground (
    arith,
    fine,
    read_failed t rest (record { params = q; opt = b'd' })
        (refuse params_redefined_option (codes "-d") h)
        (refuse_fails params_redefined_option (codes "-d") h),
  )
  second_value (write t) previous rest q clash = absurd (ground arith)
  second_value (exec t) previous rest q clash = absurd (ground arith)

  stray :
      (c : Choice) (q : Params)
      → finish_option (flag c) (record { params = q; opt = letter c }) h
        ≡ (q, refuse params_stray_option (flag c) h)
  unfolding finish_option
  stray (config t) q = ground (arith, fine)
  stray (drop t) q = ground (arith, fine)
  stray (write t) q = ground (arith, fine)
  stray (exec t) q = ground (arith, fine)

  -- After options that are in order: an argument that is no option ends the parse with no
  -- parameters and with that error over the argument, whatever follows.
  pub parse_params-unknown :
      (b : Bool) (name : Text) (cs : List Choice) (q : Params) (arg : Text) (rest : List Text)
      → choose_all cs new_params ≡ some q
      → option_letter arg ≡ none
      → parse_params b name (render cs ++ arg ∷ rest) h ≡ (none, refuse params_unknown_option arg h)
  parse_params-unknown b name cs q arg rest e unknown =
      loop_rejected b name (render cs ++ arg ∷ rest) (outside q) params_unknown_option arg (
        read_choices h ample fine cs name (arg ∷ rest) new_params q e
        ∙ unknown_argument (last_argument name (render cs)) arg rest q unknown)

  -- After options that are in order: an option with its value that may not be chosen again ends the
  -- parse with no parameters and with that error over the option, whatever follows.
  pub parse_params-redefined :
      (b : Bool) (name : Text) (cs : List Choice) (q : Params) (c : Choice) (rest : List Text)
      → choose_all cs new_params ≡ some q
      → choose c q ≡ none
      → parse_params b name (render cs ++ flag c ∷ (value c ∷ rest)) h
        ≡ (none, refuse params_redefined_option (flag c) h)
  parse_params-redefined b name cs q c rest e clash =
      let more = flag c ∷ (value c ∷ rest) in
      loop_rejected b name (render cs ++ more) (record { params = q; opt = letter c })
        params_redefined_option (flag c)
        (read_choices h ample fine cs name more new_params q e
          ∙ second_value c (last_argument name (render cs)) rest q clash)

  -- After options that are in order: an option that stands last, without its value, ends the parse
  -- with no parameters and with that error over the option.
  pub parse_params-stray :
      (b : Bool) (name : Text) (cs : List Choice) (q : Params) (c : Choice)
      → choose_all cs new_params ≡ some q
      → parse_params b name (render cs ++ flag c ∷ []) h
        ≡ (none, refuse params_stray_option (flag c) h)
  parse_params-stray b name cs q c e =
      rejected b name (render cs ++ flag c ∷ []) (record { params = q; opt = letter c }) q h
        (refuse params_stray_option (flag c) h)
        (read_choices h ample fine cs name (flag c ∷ []) new_params q e
          ∙ lone_flag c (last_argument name (render cs)) q)
        (rw last_argument-snoc (stray c q)) (refuse_fails params_stray_option (flag c) h)
