-- ===== src/Linq/Reload.antt =====
-- `load_linq` of src/linq.c over a directory that is there.
use klunok.Prelude.{ℕ, zero, suc, ◌+◌, ◌*◌, ◌^◌, ◌<◌, List, [], ◌∷◌, Text, ◌≡◌, length}
use klunok.Trace.{Host}
use klunok.Buffer.{size_mod}
use klunok.Buffer.Decimal.{decimal}
use klunok.Buffer.Ample.{IsReady}
use klunok.Set.{Set, new_set, count_mod}
use klunok.Config.{add_all}
use klunok.System.{System, gives}
use klunok.Linq.{Linq}
use klunok.Linq.Queue.{AllLinks, AllTargets, paths}
use klunok.Linq.Load.{dot_filter, compare, greater, new_linq}

-- The names of so many links from a number on.
abbrev pub numbers : ℕ → ℕ → List Text
numbers i zero = []
numbers i (suc n) = decimal i ∷ numbers (i + 1) n

module _ (sys : System) (path : Text) (debounce_seconds count_guess length_guess : ℕ)
    (s s' : sys.State) (dirfd i : ℕ) (q : List Text) (h : Host) (r : IsReady h)
    (listed : sys.scandir dot_filter compare path s ≡ gives (numbers i (length q)))
    (opened : sys.opendir path s ≡ (gives dirfd, s')) (links : AllLinks sys dirfd i q s')
    (targets : AllTargets q) (room : i + length q < 2 ^ 63) (guess : length_guess + 1 < size_mod)
    (few : length q < count_mod) (small : greater count_guess (length q) * 2 + 2 < size_mod) where
  abbrev names : List Text
  names = numbers i (length q)

  abbrev empty_set : Set
  empty_set = new_set (greater count_guess (length q) * 2 + 2)

  abbrev loaded : Linq
  loaded =
      record (new_linq names debounce_seconds length_guess dirfd
        (add_all (paths q) empty_set h).0) { size = length q }
