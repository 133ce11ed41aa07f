-- ===== src/Handler/Settings/Versions/Links.antt =====
-- The links that `store` of src/handler.c makes to a new version.
use klunok.Prelude.{
  ℕ, [], ◌∷◌, List, Bool, ◌&&◌, not, Option, none, some, Text, ◌==◌, take, drop, if◌then◌else◌,
}
use klunok.Trace.{Host, ok}
use klunok.Buffer.{Buffer}
use klunok.Paths.{strrchr, from_or, behind, get_file_extension, char_of}
use klunok.System.{System, Errno, enoent, tneg_do, throw_errno}
use klunok.Directories.{create_parents}
use klunok.Linq.{text_of}
use klunok.Building.{Piece, string, char, assemble}
use klunok.Handler.{goes_on}
use klunok.Handler.Settings.{Settings}

abbrev pub working_copy_pieces : Settings → Text → List Piece
working_copy_pieces config relative_path =
    string config.store_root
    ∷ (char b'/'
        ∷ (string relative_path
            ∷ (char b'/'
                ∷ (string config.working_copy_link_name
                    ∷ (string (get_file_extension relative_path) ∷ [])))))

-- The loop that goes back from the end of the root to the slash before its name.
abbrev pub project_name : Text → ℕ → Text
project_name path end = behind (from_or [] (strrchr b'/' (take end path)))

abbrev pub project_pieces : Settings → Text → ℕ → List Piece
project_pieces config path end =
    string config.unstable_project_store_root
    ∷ (char b'/' ∷ (string (project_name path end) ∷ (string (drop end path) ∷ [])))

module _ (sys : System) where
  abbrev pub link_if_missing : Text → Text → Option Errno → sys.State → Host → sys.State × Host
  link_if_missing path working_copy_path none s h = (s, h)
  link_if_missing path working_copy_path (some enoent) s h =
      tneg_do sys (sys.symlink path working_copy_path) s h
  link_if_missing path working_copy_path (some e) s h = (s, throw_errno sys e h)

  abbrev pub link_named : Text → Option Buffer × Host → sys.State → sys.State × Host
  link_named path (b, h) s =
      if ok h then link_if_missing path (text_of b) (sys.lstat (text_of b) s) s h else (s, h)

  -- The link to the file in the directory of its versions.
  unfoldable pub link_working_copy :
      Settings → Text → Text → Bool → sys.State → Host → sys.State × Host
  link_working_copy config path relative_path is_stored s h =
      if ok h && is_stored && not (char_of config.working_copy_link_name == 0)
      then link_named path (assemble (working_copy_pieces config relative_path) h) s
      else (s, h)

  abbrev pub unlinked : Option Errno × sys.State → Host → sys.State × Host
  unlinked (none, s) h = (s, h)
  unlinked (some enoent, s) h = (s, h)
  unlinked (some e, s) h = (s, throw_errno sys e h)

  abbrev pub link_created : Text → Text → sys.State × Host → sys.State × Host
  link_created store_path project_path (s, h) = tneg_do sys (sys.link store_path project_path) s h

  abbrev pub link_unlinked : Text → Text → sys.State × Host → sys.State × Host
  link_unlinked store_path project_path (s, h) =
      link_created store_path project_path (create_parents sys project_path s h)

  abbrev pub link_project_at : Text → Option Buffer × Host → sys.State → sys.State × Host
  link_project_at store_path (b, h) s =
      let unlinked' = unlinked (sys.unlink (text_of b) s) h in
      if ok h then link_unlinked store_path (text_of b) unlinked' else (s, h)

  -- The hard link in the unstable tree of the project.
  unfoldable pub link_project :
      Settings → Text → Option ℕ → Bool → Text → sys.State → Host → sys.State × Host
  link_project config path none is_stored store_path s h = (s, h)
  link_project config path (some end) is_stored store_path s h =
      if ok h && goes_on path (some end) && is_stored
      then link_project_at store_path (assemble (project_pieces config path end) h) s
      else (s, h)
