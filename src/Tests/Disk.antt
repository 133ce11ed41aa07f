-- ===== src/Tests/Disk.antt =====
-- The C library on a small disk, for the tests: links in one directory, directories, and one file.
use klunok.Prelude.{
  ℕ, ◌+◌, List, [], ◌∷◌, ◌++◌, Bool, true, false, Option, none, some, Text, ◌≡◌, refl, codes,
  length, take, drop, text_eq, text_eq→eq, if◌then◌else◌, Bool-cases, inl, inr, arith,
}
use klunok.System.{System, Errno, enoent, eexist, other, Answer, fails, gives}
use klunok.Linq.Queue.{IsLinkStore}

pub record Disk : Type 0 where
  pub links : List (Text × Text)
  pub dirs : List Text
  pub file : Option Text
  pub position : ℕ
  -- the open pipes
  pub fds : List ℕ

unfoldable pub link_in : List (Text × Text) → Text → Answer Text
link_in [] m = fails enoent
link_in ((n, t) ∷ ls) m = if text_eq m n then gives t else link_in ls m

unfoldable pub without : List (Text × Text) → Text → List (Text × Text)
without [] m = []
without ((n, t) ∷ ls) m = let rest = without ls m in if text_eq m n then rest else (n, t) ∷ rest

abbrev pub names_of : List (Text × Text) → List Text
names_of [] = []
names_of ((n, t) ∷ ls) = n ∷ names_of ls

abbrev pub add_link : Answer Text → Text → Text → Disk → Option Errno × Disk
add_link (gives old) t n d = (some eexist, d)
add_link (fails e) t n d = (none, record d { links = (n, t) ∷ d.links })

abbrev pub take_link : Answer Text → Text → Disk → Option Errno × Disk
take_link (gives old) n d = (none, record d { links = without d.links n })
take_link (fails e) n d = (some e, d)

unfoldable pub has : List Text → Text → Bool
has [] p = false
has (t ∷ ts) p = let rest = has ts p in if text_eq p t then true else rest

abbrev pub make_dir : Text → Disk → Option Errno × Disk
make_dir p d = if has d.dirs p then (some eexist, d) else (none, record d { dirs = p ∷ d.dirs })

abbrev pub open_content : Option Text → Disk → Answer ℕ × Disk
open_content none d = (fails enoent, d)
open_content (some t) d = (gives 3, record d { position = 0 })

abbrev pub content : Option Text → Text
content none = []
content (some t) = t

abbrev pub create_content : Option Text → Disk → Answer ℕ × Disk
create_content (some t) d = (fails eexist, d)
create_content none d = (gives 3, record d { file = some []; position = 0 })

abbrev pub fails_open : Disk → Answer ℕ × Disk
fails_open d = (fails enoent, d)

abbrev pub disk : System
disk = record {
  State = Disk;
  strerror = λ e. codes "error";
  time = λ d. 100;
  mkdir = make_dir;
  rmdir = λ p d. (some (other 95), d);
  unlink = λ p d. (none, record d { file = none });
  link_at = λ fd n d. link_in d.links n;
  mtime_at = λ fd n d. gives 40;
  symlinkat = λ t fd n d. add_link (link_in d.links n) t n d;
  unlinkat = λ fd n d. take_link (link_in d.links n) n d;
  scandir = λ keep after p d. gives (names_of d.links);
  opendir = λ p d. (gives 4, d);
  open_file = λ p d. open_content d.file d;
  create_file = λ p d. (gives 3, record d { file = some (content d.file); position = 0 });
  ftruncate = λ fd d. (none, record d { file = some [] });
  read = λ fd n d. (
    gives (take n (drop d.position (content d.file))),
    record d { position = d.position + length (take n (drop d.position (content d.file))) },
  );
  write = λ fd t d. (gives (length t), record d { file = some (content d.file ++ t) });
  close = λ fd d. d;
  close_checked = λ fd d. (none, d);
  append_file = λ p d. (gives 3, record d { file = some (content d.file) });
  create_new = λ p d. create_content d.file d;
  file_stat = λ fd d. gives (true, length (content d.file));
  sendfile = λ out inp from n d. (gives n, d);
  lseek = λ fd n d. (none, record d { position = n });
  readlink = λ p d. gives (codes "/home/a");
  realpath = λ p d. gives p;
  lstat = λ p d. some enoent;
  exists = λ p d. has d.dirs p;
  symlink = λ t p d. (none, d);
  link = λ t p d. (none, d);
  link_into = λ t fd p d. (none, d);
  make_dir_at = λ fd p d. make_dir p d;
  fts_open = λ p d. (gives 5, d);
  fts_read = λ fd d. (gives none, d);
  fts_close = λ fd d. d;
  bind_mount = λ p d. (none, record d { dirs = p ∷ d.dirs });
  page_size = λ d. gives 64;
  localtime = λ t d. none;
  strftime = λ f t d. f;
  getxattr = λ p n m d. fails (other 61);
  clock = λ d. gives 5;
  open_pipe = λ p d. fails_open d;
  is_pipe = λ fd d. false;
}

add_link-found :
    (r : Answer Text) (t n : Text) (d : Disk)
    → (add_link r t n d).0 ≡ none
    → (m : Text)
    → link_in (add_link r t n d).1.links m ≡ (if text_eq m n then gives t else link_in d.links m)
unfolding link_in
add_link-found (gives old) t n d e m = absurd (ground (arith, e))
add_link-found (fails x) t n d e m = refl

add_link-kept :
    (r : Answer Text) (t n : Text) (d : Disk) (x : Errno)
    → (add_link r t n d).0 ≡ some x
    → (m : Text) → link_in (add_link r t n d).1.links m ≡ link_in d.links m
add_link-kept (gives old) t n d x e m = refl
add_link-kept (fails y) t n d x e m = absurd (ground (arith, e))

link_in-without :
    (ls : List (Text × Text)) (n m : Text)
    → text_eq m n ≡ false
    → link_in (without ls n) m ≡ link_in ls m
unfolding link_in without
link_in-without [] n m e = refl
link_in-without ((k, t) ∷ ls) n m e = elim (Bool-cases (text_eq n k)) [
  | inr other' ↦ rw other' (ground (arith, link_in-without ls n m e))
  | inl same ↦
      let miss : text_eq m k ≡ false = rw (text_eq→eq n k same) at e in
      rw (same, miss) (link_in-without ls n m e)
]

take_link-kept :
    (r : Answer Text) (n : Text) (d : Disk)
    → (take_link r n d).0 ≡ none
    → (m : Text) → text_eq m n ≡ false
    → link_in (take_link r n d).1.links m ≡ link_in d.links m
take_link-kept (gives old) n d e m miss = link_in-without d.links n m miss
take_link-kept (fails x) n d e m miss = refl

link_in-removed : (ls : List (Text × Text)) (n : Text) → link_in (without ls n) n ≡ fails enoent
unfolding link_in without
link_in-removed [] n = refl
link_in-removed ((k, t) ∷ ls) n = elim (Bool-cases (text_eq n k)) [
  | inl same ↦ rw same (link_in-removed ls n)
  | inr other' ↦ rw (other', other') (link_in-removed ls n)
]

take_link-removed :
    (r : Answer Text) (n : Text) (d : Disk)
    → (take_link r n d).0 ≡ none
    → link_in (take_link r n d).1.links n ≡ fails enoent
take_link-removed (gives old) n d e = link_in-removed d.links n
take_link-removed (fails x) n d e = absurd (ground (arith, e))

pub disk-IsLinkStore : IsLinkStore disk
disk-IsLinkStore = record {
  symlinked = λ t n fd d. add_link-found (link_in d.links n) t n d;
  not_symlinked = λ t n fd d. add_link-kept (link_in d.links n) t n d;
  unlinked = λ n fd d. take_link-kept (link_in d.links n) n d;
  removed = λ n fd d. take_link-removed (link_in d.links n) n d;
  stamped = λ t n fd d e m miss. refl;
  not_stamped = λ t n fd d x e m. refl;
}
