-- ===== src/Config/Loads.antt =====
-- Loading the sets of src/config-static.c.
use klunok.Prelude.{
  ◌+◌, ◌*◌, ◌<◌, List, [], ◌∷◌, Bool, true, ltb, ◌&&◌, Option, none, some, Text, ◌≡◌, refl, arith,
  length, text_eq→eq,
}
use klunok.Trace.{Host, throw_static}
use klunok.Buffer.{View, size_mod}
use klunok.Buffer.Cells.{NonZero, is_nonzero, is_nonzero-NonZero}
use klunok.Buffer.Contents.{Reads}
use klunok.Buffer.Append.{tnull_malloc_ample}
use klunok.Buffer.Ample.{IsAmple}
use klunok.Set.{Set, count_mod, create_set, new_set, add, get_count}
use klunok.Set.Valid.{IsValid}
use klunok.Set.Queries.{queries-entry_of, create_set_lem}
use klunok.Set.Bag.{counted, occurrences, add-Added_ample, new_set-counted, create_set_ample}
use klunok.Messages.{config_is_static}
use klunok.Config.Constants
use klunok.Config.{Config, add_all, load_set, load_config}

-- The strings of an array are C strings that a buffer can hold.
abbrev pub AreShort : List Text → Type 0
AreShort [] = Unit {0}
AreShort (t ∷ ts) = NonZero t × ((length t + 1) * 2 < size_mod) × AreShort ts

abbrev pub are_short : List Text → Bool
are_short [] = true
are_short (t ∷ ts) = is_nonzero t && (ltb ((length t + 1) * 2) size_mod && are_short ts)

pub are_short-AreShort : (ts : List Text) → are_short ts ≡ true → AreShort ts
are_short-AreShort [] e = tt
are_short-AreShort (t ∷ ts) e =
    (is_nonzero-NonZero t (ground arith), ground arith, are_short-AreShort ts (ground arith))

-- The set was created, is in order, and answers for a view by the array.
pub record Loaded (ts : List Text) (made : Option Set) : Type 0 where
  pub set : Set
  pub exists : made ≡ some set
  pub valid : IsValid set
  pub counts : (u : Text) (v : View) → Reads u v → get_count v set ≡ occurrences u ts

module _ (h : Host) (a : IsAmple h) where
  pub add_all_lem :
      (ts : List Text) (s : Set)
      → IsValid s
      → AreShort ts
      → ((u : Text) → counted s u + length ts < count_mod)
      → ((add_all ts s h).1 ≡ h)
        × IsValid (add_all ts s h).0
        × ((u : Text) → counted (add_all ts s h).0 u ≡ counted s u + occurrences u ts)
  unfolding add_all occurrences
  add_all_lem [] s w p room = (refl, w, λ u. omega arith)
  add_all_lem (t ∷ ts) s w (p, short, ps) room =
      let (same, d) = add-Added_ample t s h a w p short (omega (arith, room t)) in
      let (e, v, c) =
        add_all_lem ts (add t s h).0 d.valid ps
          (λ u. ground (arith, d.counts u, room u, text_eq→eq u t)) in
      rw (a.fine, same) (e, v, λ u. ground (arith, c u, d.counts u, text_eq→eq u t))

  -- With memory left, `load_set` creates a set that counts each string as often as it stands in
  -- the array, and the trace stays as it was.
  pub load_set-Loaded :
      (ts : List Text)
      → AreShort ts
      → length ts < count_mod
      → ((load_set ts h).1 ≡ h) × Loaded ts (load_set ts h).0
  unfolding load_set
  load_set-Loaded ts p few =
      let n = length ts * 2 + 2 in
      let q = create_set_ample (length ts) h a.memory in
      let (made, valid, _) = create_set_lem (length ts) h (omega (arith, few)) in
      let exists : (create_set (length ts) h).0 ≡ some (new_set n) = rw (made, q, a.fine) refl in
      let (same, w, c) =
        add_all_lem ts (new_set n) valid p (λ u. omega (arith, new_set-counted n u, few)) in
      rw (exists, q, load_set)
        (
          same,
          record {
            set = (add_all ts (new_set n) h).0;
            exists = refl;
            valid = w;
            counts = λ u v r. omega (
              arith,
              (queries-entry_of u v (add_all ts (new_set n) h).0 w r).0,
              c u,
              new_set-counted n u,
            );
          },
        )

-- Each set of the configuration answers by its array.
pub record LoadedConfig (c : Config) : Type 0 where
  pub editors : Loaded Constants.editors c.editors
  pub project_roots : Loaded Constants.project_roots c.project_roots
  pub project_parents : Loaded Constants.project_parents c.project_parents
  pub history_paths : Loaded Constants.history_paths c.history_paths
  pub excluded_paths : Loaded Constants.excluded_paths c.excluded_paths
  pub included_paths : Loaded Constants.included_paths c.included_paths
  pub cluded_paths : Loaded Constants.cluded_paths c.cluded_paths
  pub ignored_leading_dots : Loaded Constants.ignored_leading_dots c.ignored_leading_dots

module _ (h : Host) (a : IsAmple h) where
  set_of :
      (ts : List Text)
      → are_short ts ≡ true
      → length ts < count_mod
      → ((load_set ts h).1 ≡ h) × Loaded ts (load_set ts h).0
  set_of ts e = load_set-Loaded h a ts (are_short-AreShort ts e)

  -- Without a path and with memory left, `load_config` gives a configuration whose sets count the
  -- strings of the arrays; with a path it throws that the configuration is static.
  pub load_config-Loaded :
      ((c : Config) × (load_config none h ≡ (some c, h)) × LoadedConfig c)
      × ((path : Text) → load_config (some path) h ≡ (none, throw_static config_is_static h))
  unfolding load_config
  load_config-Loaded = (
    (
      record {
        editors = (load_set Constants.editors h).0;
        project_roots = (load_set Constants.project_roots h).0;
        project_parents = (load_set Constants.project_parents h).0;
        history_paths = (load_set Constants.history_paths h).0;
        excluded_paths = (load_set Constants.excluded_paths h).0;
        included_paths = (load_set Constants.included_paths h).0;
        cluded_paths = (load_set Constants.cluded_paths h).0;
        ignored_leading_dots = (load_set Constants.ignored_leading_dots h).0;
      },
      rw
          (
            load_config,
            tnull_malloc_ample h a.memory,
            a.fine,
            (set_of Constants.editors refl (omega arith)).0,
            (set_of Constants.project_roots refl (omega arith)).0,
            (set_of Constants.project_parents refl (omega arith)).0,
            (set_of Constants.history_paths refl (omega arith)).0,
            (set_of Constants.excluded_paths refl (omega arith)).0,
            (set_of Constants.included_paths refl (omega arith)).0,
            (set_of Constants.cluded_paths refl (omega arith)).0,
            (set_of Constants.ignored_leading_dots refl (omega arith)).0,
            a.fine,
          )
          refl,
      record {
        editors = (set_of Constants.editors refl (omega arith)).1;
        project_roots = (set_of Constants.project_roots refl (omega arith)).1;
        project_parents = (set_of Constants.project_parents refl (omega arith)).1;
        history_paths = (set_of Constants.history_paths refl (omega arith)).1;
        excluded_paths = (set_of Constants.excluded_paths refl (omega arith)).1;
        included_paths = (set_of Constants.included_paths refl (omega arith)).1;
        cluded_paths = (set_of Constants.cluded_paths refl (omega arith)).1;
        ignored_leading_dots = (set_of Constants.ignored_leading_dots refl (omega arith)).1;
      },
    ),
    λ path. rw (a.fine, load_config) refl,
  )
