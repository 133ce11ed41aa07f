-- ===== src/Tests/Sets.antt =====
-- src/set.c, src/sieve.c and src/config-static.c at small inputs.
use klunok.Prelude.{
  ◌+◌, ◌<◌, List, [], ◌∷◌, true, false, none, some, Text, codes, ◌≡◌, refl, arith, ◌⊎◌,
}
use klunok.Trace.{ok}
use klunok.Buffer.{new_view}
use klunok.Buffer.Contents.{new_view-Reads}
use klunok.Buffer.Cells.{is_nonzero-NonZero}
use klunok.Set.{Set, count, count_mod, attribute_of, new_set, add_with_metadata, pop, find}
use klunok.Set.Valid.{IsValid, new_set-IsValid, entry_of, get_or-replicate, home}
use klunok.Set.Add.{Added, add_with_metadata-Added}
use klunok.Set.Pop.{Popped, pop-Popped}
use klunok.Sieve.{sieve}
use klunok.Sieve.Texts.{last_dot}
use klunok.Sieve.Rounds.{last_ends, sieve_lem}
use klunok.Config.{load_set}
use klunok.Config.Loads.{are_short-AreShort, Loaded, load_set-Loaded}
use klunok.Tests.{host, host-IsAmple, poor}

abbrev words : List Text
words = codes "vi" ∷ (codes "nano" ∷ (codes "vi" ∷ []))

abbrev small : Set
small = new_set 6

small-IsValid : IsValid small
small-IsValid = new_set-IsValid 6 (omega arith) (omega arith)

small-counts : (t : Text) → attribute_of count (entry_of small t) + 1 < count_mod
unfolding entry_of find
small-counts t = rw (get_or-replicate 6 (home t small)) (omega arith)

add_with_metadata-Added_example :
    ((ok (add_with_metadata (codes "vi") 3 small poor).1 ≡ true)
      × Added (codes "vi") 3 small (add_with_metadata (codes "vi") 3 small poor).0)
    ⊎ ((ok (add_with_metadata (codes "vi") 3 small poor).1 ≡ false)
        × ((add_with_metadata (codes "vi") 3 small poor).0 ≡ small))
add_with_metadata-Added_example =
    add_with_metadata-Added (codes "vi") 3 small poor small-IsValid
      (is_nonzero-NonZero (codes "vi") refl) (omega arith) (small-counts (codes "vi"))

abbrev loaded : Loaded words (load_set words host).0
loaded = (load_set-Loaded host host-IsAmple words (are_short-AreShort words refl) (omega arith)).1

pop-Popped_example : Popped (codes "vi") loaded.set (pop (new_view (codes "vi")) loaded.set)
pop-Popped_example =
    pop-Popped (codes "vi") (new_view (codes "vi")) loaded.set loaded.valid
      (new_view-Reads (codes "vi") (is_nonzero-NonZero (codes "vi") refl))

sieve_lem_example : sieve (codes "/vi/.a") 1 small (loaded.set ∷ []) host ≡ (
  some (record {
    ends = last_ends 1 (codes "/vi/.a") (loaded.set ∷ []);
    hiding_dot = last_dot small (codes "/vi/.a") 1 [] 0 (codes "/vi/.a") none;
  }),
  host,
)
sieve_lem_example =
    sieve_lem (codes "/vi/.a") 1 small (loaded.set ∷ []) host small-IsValid (loaded.valid, tt)
      host-IsAmple (is_nonzero-NonZero (codes "/vi/.a") refl) (omega arith)
