-- ===== src/Handler/Settings/Versions/Projects.antt =====
-- The branch of `store` of src/handler.c for the root of a project.
use klunok.Prelude.{ℕ, zero, suc, [], ◌∷◌, List, Option, none, some, Text, if◌then◌else◌}
use klunok.Trace.{Host, ok, try, catch_static, finally}
use klunok.Messages.{
  sync_source_does_not_exist, sync_source_permission_denied, sync_destination_already_exists,
}
use klunok.Buffer.{Buffer}
use klunok.Paths.{strrchr, from_or, behind}
use klunok.System.{System}
use klunok.Linq.{text_of}
use klunok.StorePath.{StorePath, create_store_path, get_current_path, increment}
use klunok.Building.{Piece, string, char, assemble}
use klunok.Sync.Tree.{sync_shallow_tree}
use klunok.Handler.Settings.{Settings}

abbrev pub unstable_pieces : Settings → Text → List Piece
unstable_pieces config project_name =
    string config.unstable_project_store_root ∷ (char b'/' ∷ (string project_name ∷ []))

module _ (sys : System) where
  abbrev pub Synced : Type 0
  Synced = Option Text × sys.State × Host

  -- A round behind the call of `sync_shallow_tree`.
  unfoldable pub settle_tree :
      (StorePath → sys.State → Host → Synced) → Settings → StorePath → sys.State × Host → Synced
  settle_tree again config store_path (s, h) =
      let (taken, h1) = catch_static sync_destination_already_exists h in
      let (missing, h2) = catch_static sync_source_does_not_exist h in
      let (denied, h3) = catch_static sync_source_permission_denied h in
      let (store_path', h4) = increment store_path (finally h1) in
      if taken
      then again store_path' s h4
      else if missing
      then (config.event_queue_head_deleted, s, finally h2)
      else if denied
      then (config.event_queue_head_forbidden, s, finally h3)
      else (config.event_queue_head_stored, s, finally h)

  -- The loop; there is a path as long as there is no error.
  unfoldable pub try_trees : ℕ → ℕ → Settings → Text → Text → StorePath → sys.State → Host → Synced
  try_trees zero entries config unstable_path path store_path s h =
      (config.event_queue_head_stored, s, h)
  try_trees (suc tries) entries config unstable_path path store_path s h =
      let again = try_trees tries entries config unstable_path path in
      let synced = settle_tree again config store_path (
        sync_shallow_tree sys entries (get_current_path store_path) unstable_path path s (try h)) in
      if ok h then synced else (config.event_queue_head_stored, s, h)

  abbrev pub try_named :
      ℕ → ℕ → Settings → Text → Option StorePath → Option Buffer × Host → sys.State → Synced
  try_named tries entries config path none (unstable_path, h) s =
      (config.event_queue_head_stored, s, h)
  try_named tries entries config path (some store_path) (unstable_path, h) s =
      try_trees tries entries config (text_of unstable_path) path store_path s h

  abbrev pub try_created :
      ℕ → ℕ → Settings → Text → Text → Option StorePath × Host → sys.State → Synced
  try_created tries entries config path project_name (store_path, h) s =
      try_named tries entries config path store_path
        (assemble (unstable_pieces config project_name) h) s

  unfoldable pub store_project : ℕ → ℕ → Settings → Text → Text → sys.State → Host → Synced
  store_project tries entries config path version s h =
      let project_name = behind (from_or [] (strrchr b'/' path)) in
      try_created tries entries config path project_name
        (create_store_path config.project_store_root project_name version h) s
