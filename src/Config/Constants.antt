-- ===== src/Config/Constants.antt =====
-- src/config-static.c: the constants. A pattern that is not set is the null pointer, which is
-- `none`.
use klunok.Prelude.{ℕ, ◌^◌, ◌*◌, List, [], ◌∷◌, Option, none, some, Text, codes}

abbrev pub store_root : Text
store_root = codes "klunok/store"

abbrev pub project_store_root : Text
project_store_root = codes "klunok/projects"

abbrev pub unstable_project_store_root : Text
unstable_project_store_root = codes "klunok/var/projects"

abbrev pub queue_path : Text
queue_path = codes "klunok/var/queue"

abbrev pub journal_path : Text
journal_path = codes "klunok/var/journal"

abbrev pub offset_store_root : Text
offset_store_root = codes "klunok/var/offsets"

abbrev pub journal_timestamp_pattern : Text
journal_timestamp_pattern = codes "%Y-%m-%d-%H-%M"

abbrev pub version_pattern : Text
version_pattern = codes "v%Y-%m-%d-%H-%M"

abbrev pub working_copy_link_name : Text
working_copy_link_name = codes ""

abbrev pub debounce_seconds : ℕ
debounce_seconds = 60

abbrev pub path_length_guess : ℕ
path_length_guess = 256

abbrev pub max_pid_guess : ℕ
max_pid_guess = 2 ^ 15

abbrev pub elf_interpreter_count_guess : ℕ
elf_interpreter_count_guess = 1

abbrev pub queue_size_guess : ℕ
queue_size_guess = 2 * debounce_seconds

abbrev pub flushed_path_count_guess : ℕ
flushed_path_count_guess = 32

abbrev pub editors : List Text
editors =
    codes "atom"
    ∷ codes "code"
    ∷ codes "codium"
    ∷ codes "gedit"
    ∷ codes "gnome-text-editor"
    ∷ codes "howl"
    ∷ codes "hx"
    ∷ codes "inkscape"
    ∷ codes "kak"
    ∷ codes "kate"
    ∷ codes "kwrite"
    ∷ codes "micro"
    ∷ codes "nano"
    ∷ codes "notepadqq-bin"
    ∷ codes "nvim"
    ∷ codes "pluma"
    ∷ codes "rsession"
    ∷ codes "soffice.bin"
    ∷ codes "sublime_text"
    ∷ codes "vi"
    ∷ codes "vim"
    ∷ codes "vim.basic"
    ∷ codes "vim.tiny"
    ∷ codes "xed"
    ∷ codes ".gedit-wrapped"
    ∷ codes ".gnome-text-editor-wrapped"
    ∷ codes ".howl-wrapped"
    ∷ codes ".hx-wrapped"
    ∷ codes ".inkscape-wrapped"
    ∷ codes ".kate-wrapped"
    ∷ codes ".kwrite-wrapped"
    ∷ codes ".pluma-wrapped"
    ∷ codes ".xed-wrapped"
    ∷ []

abbrev pub project_roots : List Text
project_roots = []

abbrev pub project_parents : List Text
project_parents = []

abbrev pub history_paths : List Text
history_paths = []

abbrev pub excluded_paths : List Text
excluded_paths = []

abbrev pub included_paths : List Text
included_paths = []

abbrev pub cluded_paths : List Text
cluded_paths = []

abbrev pub ignored_leading_dots : List Text
ignored_leading_dots =
    codes ".clang-format"
    ∷ codes ".clang-format-ignore"
    ∷ codes ".clang-tidy"
    ∷ codes ".clangd"
    ∷ codes ".dockerignore"
    ∷ codes ".editorconfig"
    ∷ codes ".gitattributes"
    ∷ codes ".github"
    ∷ codes ".gitignore"
    ∷ codes ".gitlab"
    ∷ codes ".gitlab-ci.yml"
    ∷ codes ".mailmap"
    ∷ codes ".pre-commit-config.yaml"
    ∷ codes ".pre-commit-config.yml"
    ∷ codes ".prettierignore"
    ∷ codes ".prettierrc"
    ∷ codes ".prettierrc.cjs"
    ∷ codes ".prettierrc.js"
    ∷ codes ".prettierrc.json"
    ∷ codes ".prettierrc.json5"
    ∷ codes ".prettierrc.mjs"
    ∷ codes ".prettierrc.toml"
    ∷ codes ".prettierrc.yaml"
    ∷ codes ".prettierrc.yml"
    ∷ []

abbrev pub event_open_exec_not_editor : Option Text
event_open_exec_not_editor = none

abbrev pub event_open_exec_editor : Option Text
event_open_exec_editor = none

abbrev pub event_close_write_ignored : Option Text
event_close_write_ignored = none

abbrev pub event_close_write_not_ignored : Option Text
event_close_write_not_ignored = none

abbrev pub event_queue_head_deleted : Option Text
event_queue_head_deleted = none

abbrev pub event_queue_head_forbidden : Option Text
event_queue_head_forbidden = none

abbrev pub event_queue_head_stored : Option Text
event_queue_head_stored = some (codes "")
