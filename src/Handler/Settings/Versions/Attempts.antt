-- ===== src/Handler/Settings/Versions/Attempts.antt =====
-- The loop of `store` of src/handler.c over the paths of a version.
use klunok.Prelude.{
  ℕ, zero, suc, ◌+◌, ◌<◌, Bool, true, false, Option, Text, ◌++◌, ◌≡◌, refl, ap, ◌∙◌, arith,
  if◌then◌else◌,
}
use klunok.Trace.{Host, try, throw_static}
use klunok.Trace.Rethrown.{IsClear, ok-try}
use klunok.Trace.Caught.{caught, missed, calm, finally-try}
use klunok.Messages.{
  sync_source_does_not_exist, sync_source_is_not_regular_file, sync_source_permission_denied,
  sync_destination_already_exists,
}
use klunok.Buffer.{size_mod}
use klunok.Buffer.Ample.{IsReady}
use klunok.System.{System}
use klunok.StorePath.{StorePath, get_current_path, increment}
use klunok.StorePath.Sequence.{suffix, Names, increment-Names}
use klunok.StorePath.Tries.{current}
use klunok.Counter.{write_counter}
use klunok.Sync.{sync_file}
use klunok.Handler.Settings.{Settings}
use klunok.Handler.Settings.Versions.{Tried, settle, try_versions, keep_offset}

module _ (sys : System) (config : Settings) (path offset_path : Text) (is_history : Bool)
    (offset : ℕ) (stem extension : Text) (h : Host) where
  abbrev pub copy_to : ℕ → sys.State → ℕ × sys.State × Host
  copy_to n s = sync_file sys (stem ++ (suffix n ++ extension)) path offset s (try h)

  -- `Attempts k n s b e s'`: from the path with number `n` on, so many paths are taken. At the next
  -- one the file is copied, or the source cannot be: whether there is a version, the event, and the
  -- state behind it.
  pub data Attempts : ℕ → ℕ → sys.State → Bool → Option Text → sys.State → Type 0 where
    missing :
        (n o : ℕ) (s s' : sys.State)
        → copy_to n s ≡ (o, s', throw_static sync_source_does_not_exist (try h))
        → Attempts 0 n s false config.event_queue_head_deleted s'
    irregular :
        (n o : ℕ) (s s' : sys.State)
        → copy_to n s ≡ (o, s', throw_static sync_source_is_not_regular_file (try h))
        → Attempts 0 n s false config.event_queue_head_deleted s'
    denied :
        (n o : ℕ) (s s' : sys.State)
        → copy_to n s ≡ (o, s', throw_static sync_source_permission_denied (try h))
        → Attempts 0 n s false config.event_queue_head_forbidden s'
    copied :
        (n o : ℕ) (s s1 s' : sys.State)
        → copy_to n s ≡ (o, s1, try h)
        → write_counter sys offset_path (if is_history then o else 0) s1 (try h) ≡ (s', try h)
        → Attempts 0 n s true config.event_queue_head_stored s'
    taken :
        (k n o : ℕ) (s s1 s' : sys.State) (b : Bool) (e : Option Text)
        → copy_to n s ≡ (o, s1, throw_static sync_destination_already_exists (try h))
        → Attempts k (n + 1) s1 b e s'
        → Attempts (suc k) n s b e s'

  -- The outcome is at the path with number `n`, without an error.
  pub record Reached (n : ℕ) (b : Bool) (e : Option Text) (s : sys.State) (r : Tried sys)
      : Type 0 where
    pub store_path : StorePath
    pub names : Names stem extension n store_path
    pub result_is : r ≡ (record { is_stored = b; event = e; store_path = store_path }, s, h)

  module _ (a : IsReady h) where
    clear : IsClear h
    clear = record { fine = a.ample.fine; outside = a.outside }

    abbrev ends : Bool → Option Text → StorePath → sys.State → Tried sys
    ends b e p s = (record { is_stored = b; event = e; store_path = p }, s, h)

    module _ (again : StorePath → sys.State → Host → Tried sys) (p : StorePath) (o : ℕ)
        (s : sys.State) where
      abbrev settled : Host → Tried sys
      settled k = settle sys again config offset_path p (keep_offset sys is_history (o, s, k))

      settle-missing :
          settled (throw_static sync_source_does_not_exist (try h))
          ≡ ends false config.event_queue_head_deleted p s
      unfolding settle
      settle-missing =
          let (hit, clean) = caught h clear a.ample.memory sync_source_does_not_exist in
          rw (settle, hit, clean) refl

      settle-irregular :
          settled (throw_static sync_source_is_not_regular_file (try h))
          ≡ ends false config.event_queue_head_deleted p s
      unfolding settle
      settle-irregular =
          let m = sync_source_is_not_regular_file in
          let (hit, clean) = caught h clear a.ample.memory m in
          rw (settle, missed h clear a.ample.memory m sync_source_does_not_exist refl, hit, clean)
            refl

      settle-denied :
          settled (throw_static sync_source_permission_denied (try h))
          ≡ ends false config.event_queue_head_forbidden p s
      unfolding settle
      settle-denied =
          let m = sync_source_permission_denied in
          let (hit, clean) = caught h clear a.ample.memory m in
          rw
            (
              settle,
              missed h clear a.ample.memory m sync_source_does_not_exist refl,
              missed h clear a.ample.memory m sync_source_is_not_regular_file refl,
              hit,
              clean,
            )
            refl

      settle-taken :
          (increment p h).1 ≡ h
          → settled (throw_static sync_destination_already_exists (try h))
            ≡ again (increment p h).0 s h
      unfolding settle
      settle-taken same =
          let m = sync_destination_already_exists in
          let (hit, clean) = caught h clear a.ample.memory m in
          rw
            (
              settle,
              missed h clear a.ample.memory m sync_source_does_not_exist refl,
              missed h clear a.ample.memory m sync_source_is_not_regular_file refl,
              missed h clear a.ample.memory m sync_source_permission_denied refl,
              hit,
              clean,
              same,
            )
            refl

      settle-copied :
          (s' : sys.State)
          → write_counter sys offset_path (if is_history then o else 0) s (try h) ≡ (s', try h)
          → settled (try h) ≡ ends true config.event_queue_head_stored p s'
      unfolding settle
      settle-copied s' counted =
          let fine = ok-try h ∙ a.ample.fine in
          rw
            (
              settle,
              calm h clear a.ample.memory sync_source_does_not_exist,
              calm h clear a.ample.memory sync_source_is_not_regular_file,
              calm h clear a.ample.memory sync_source_permission_denied,
              calm h clear a.ample.memory sync_destination_already_exists,
              counted,
              finally-try h clear a.ample.memory,
              fine,
            )
            refl

    reached :
        (n : ℕ) (b : Bool) (e : Option Text) (p : StorePath) (s : sys.State) (r : Tried sys)
        → Names stem extension n p
        → r ≡ ends b e p s
        → Reached (n + 0) b e s r
    reached n b e p s r v same =
        let none' : n + 0 ≡ n = omega arith in
        rw none' (record { store_path = p; names = v; result_is = same })

    -- The copy is made to the path with the number.
    copy_at :
        (n : ℕ) (p : StorePath) (s : sys.State) (r : ℕ × sys.State × Host)
        → Names stem extension n p
        → copy_to n s ≡ r
        → sync_file sys (get_current_path p) path offset s (try h) ≡ r
    copy_at n p s r v did = rw (current stem extension n p v) did

    -- With memory left, the loop passes over all paths that are taken, and ends at the first one that
    -- is not: with the version there, or, without an error, with the event of a source that is gone,
    -- no regular file, or forbidden. The bound of the loop is enough if it is above the number of the
    -- paths that are taken.
    pub try_versions-Attempts :
        (tries k n : ℕ) (s s' : sys.State) (b : Bool) (e : Option Text) (p : StorePath)
        → Attempts k n s b e s'
        → k < tries
        → n + k < size_mod
        → Names stem extension n p
        → Reached
            (n + k)
            b
            e
            s'
            (try_versions sys tries config path offset_path is_history offset p s h)
    unfolding try_versions
    try_versions-Attempts zero k n s s' b e p w q small v = absurd (omega (arith, q))
    try_versions-Attempts (suc tries) _ n s s' b e p (missing n' o s1 s2 did) q small v =
        let again = try_versions sys tries config path offset_path is_history offset in
        let round = settle sys again config offset_path p in
        reached n false config.event_queue_head_deleted p s'
          (try_versions sys (suc tries) config path offset_path is_history offset p s h) v
          (ap (λ (r : ℕ × sys.State × Host). round (keep_offset sys is_history r))
              (copy_at n p s (o, s', throw_static sync_source_does_not_exist (try h)) v did)
            ∙ settle-missing again p o s')
    try_versions-Attempts (suc tries) _ n s s' b e p (irregular n' o s1 s2 did) q small v =
        let again = try_versions sys tries config path offset_path is_history offset in
        let round = settle sys again config offset_path p in
        reached n false config.event_queue_head_deleted p s'
          (try_versions sys (suc tries) config path offset_path is_history offset p s h) v
          (ap (λ (r : ℕ × sys.State × Host). round (keep_offset sys is_history r))
              (copy_at n p s (o, s', throw_static sync_source_is_not_regular_file (try h)) v did)
            ∙ settle-irregular again p o s')
    try_versions-Attempts (suc tries) _ n s s' b e p (denied n' o s1 s2 did) q small v =
        let again = try_versions sys tries config path offset_path is_history offset in
        let round = settle sys again config offset_path p in
        reached n false config.event_queue_head_forbidden p s'
          (try_versions sys (suc tries) config path offset_path is_history offset p s h) v
          (ap (λ (r : ℕ × sys.State × Host). round (keep_offset sys is_history r))
              (copy_at n p s (o, s', throw_static sync_source_permission_denied (try h)) v did)
            ∙ settle-denied again p o s')
    try_versions-Attempts (suc tries) _ n s s' b e p (copied n' o s1 s2 s3 did counted) q small v =
        let again = try_versions sys tries config path offset_path is_history offset in
        let round = settle sys again config offset_path p in
        reached n true config.event_queue_head_stored p s'
          (try_versions sys (suc tries) config path offset_path is_history offset p s h) v
          (ap (λ (r : ℕ × sys.State × Host). round (keep_offset sys is_history r))
              (copy_at n p s (o, s2, try h) v did)
            ∙ settle-copied again p o s2 s' counted)
    try_versions-Attempts (suc tries) _ n s s' b e p (taken k n' o s1 s2 s3 b' e' did w) q small v =
        let again = try_versions sys tries config path offset_path is_history offset in
        let round = settle sys again config offset_path p in
        let (names, same) = increment-Names stem extension n p h a.ample (omega (arith, small)) v in
        let whole =
          ap (λ (r : ℕ × sys.State × Host). round (keep_offset sys is_history r))
            (copy_at n p s (o, s2, throw_static sync_destination_already_exists (try h)) v did)
          ∙ settle-taken again p o s2 same in
        let sum : n + suc k ≡ (n + 1) + k = omega arith in
        rw (whole, sum)
          (try_versions-Attempts tries k (n + 1) s2 s' b e (increment p h).0 w (omega (arith, q))
            (omega (arith, small)) names)
