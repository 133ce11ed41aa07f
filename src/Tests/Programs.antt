-- ===== src/Tests/Programs.antt =====
-- src/trace.c and src/params.c at small inputs.
use klunok.Prelude.{ap, List, [], ◌∷◌, true, false, Option, some, codes, ◌≡◌, refl}
use klunok.Trace.{Host, ok, try, throw_static, throw_common, static_message}
use klunok.Trace.Errors.{Thrown, Recorded, throw_common_lem}
use klunok.Trace.Blocks.{Stmt, call, catch, block, rethrow, done, next, run, depth, run-depth}
use klunok.Params.{Params, new_params, parse_params}
use klunok.Params.Accepts.{Choice, config, write, render, complete, choose_all, parse_params-render}
use klunok.Params.Refuses.{IsUsable, parse_params-IsUsable}
use klunok.Tests.{host, host_with}

-- A trace with one error, thrown in a block.
abbrev failed : Host
failed = throw_static 5 (try host)

abbrev program : Stmt
program = block (rethrow 3) (next (call (some (codes "x"))) (next (catch 4) done))

throw_common_lem_example :
    Thrown (host_with (false ∷ [])) (throw_common (static_message 5) false (host_with (false ∷ [])))
    × Recorded
        (static_message 5)
        false
        (host_with (false ∷ []))
        (throw_common (static_message 5) false (host_with (false ∷ [])))
throw_common_lem_example = throw_common_lem (static_message 5) false (host_with (false ∷ []))

run-depth_example : depth (run program failed) ≡ depth failed
run-depth_example = run-depth program failed

abbrev choices : List Choice
choices = write (codes "w") ∷ (config (codes "c") ∷ [])

abbrev chosen : Params
chosen = record new_params {
  config_path = some (codes "c");
  write_mounts = record { head = codes "w" ∷ [] };
}

parse_params-render_example :
    parse_params true (codes "klunok") (render choices) host ≡ (some (complete true chosen), host)
unfolding ok choose_all
parse_params-render_example =
    parse_params-render host refl refl true (codes "klunok") choices chosen refl

abbrev parsed : Params
parsed = complete true chosen

parsed_lem : parse_params true (codes "klunok") (render choices) host ≡ (some parsed, host)
unfolding ok choose_all
parsed_lem = parse_params-render host refl refl true (codes "klunok") choices chosen refl

parse_params-IsUsable_example :
    (ok (parse_params true (codes "klunok") (render choices) host).1 ≡ true) × IsUsable parsed
parse_params-IsUsable_example =
    parse_params-IsUsable true (codes "klunok") (render choices) host parsed
      (ap (λ (r : Option Params × Host). r.0) parsed_lem)
