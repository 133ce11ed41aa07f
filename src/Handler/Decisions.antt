-- ===== src/Handler/Decisions.antt =====
-- What decides of `push_to_linq` of src/handler.c.
use klunok.Prelude.{ap, ℕ, List, [], ◌∷◌, Bool, true, false, not, ◌&&◌, Option, ◌≡◌, refl}
use klunok.Handler.{Status, is_farther, judge_all, is_pushed, is_set, statuses}
use klunok.Sieve.{SievedPath}

-- No entry is farther than the end.
abbrev pub AllNear : List (Status × Option ℕ) → Option ℕ → Type 0
AllNear [] far = Unit {0}
AllNear (e ∷ es) far = (is_farther e.1 far ≡ false) × AllNear es far

-- Every entry is nearer than the end.
abbrev pub AllNearer : List (Status × Option ℕ) → Option ℕ → Type 0
AllNearer [] far = Unit {0}
AllNearer (e ∷ es) far = (is_farther far e.1 ≡ true) × AllNearer es far

judge_all-near :
    (editor : Bool) (es : List (Status × Option ℕ)) (far : Option ℕ) (pushed : Bool)
    → AllNear es far
    → judge_all editor es far pushed ≡ (far, pushed)
unfolding judge_all
judge_all-near editor [] far pushed w = refl
judge_all-near editor (e ∷ es) far pushed w = rw w.0 (judge_all-near editor es far pushed w.1)

-- Where no set has an end farther than the segment that hides the path, the path is pushed if an
-- editor wrote it and nothing hides it.
pub is_pushed-plain :
    (editor : Bool) (sieved : SievedPath)
    → AllNear (statuses sieved.ends) sieved.hiding_dot
    → is_pushed editor sieved ≡ (not (is_set sieved.hiding_dot) && editor)
unfolding is_pushed
is_pushed-plain editor sieved w =
    ap (λ (r : Option ℕ × Bool). r.1)
      (judge_all-near editor (statuses sieved.ends) sieved.hiding_dot
        (not (is_set sieved.hiding_dot) && editor) w)
