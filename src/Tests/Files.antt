-- ===== src/Tests/Files.antt =====
-- Directories as a list of their paths.
use unix_backup_c.Common.{
  ◌≡◌, refl, sym, ap, ◌∙◌, ◌↔◌, inl, inr, Bool, true, false, ◌||◌, none, some, List, [], ◌∷◌, arith,
  if◌then◌else◌, Bool-cases,
}
use unix_backup_c.Common.Bytes.{Bytes, bytes, str_eq}
use unix_backup_c.FileOps.Reads.{is_empty_dir-iff_empty}
use unix_backup_c.Outcome.{fault}
use unix_backup_c.FileOps.{make_path, is_empty_dir}
use unix_backup_c.FileOps.Targets.{Accepted, is_empty_dir-Accepted}
use unix_backup_c.FileOps.Parents.{IsDirAt, MkdirKeeps, Above, make_path-Above}
use unix_backup_c.System.{eexist, other, Reply, done, failed, directory, Stat, Sys}

abbrev pub dir_stat : Stat
dir_stat = record { kind = directory; mode = 16877; size = 4096; atime = 0; mtime = 0 }

abbrev pub listed : Bytes → List Bytes → Bool
listed path [] = false
listed path (dir ∷ dirs) = str_eq dir path || listed path dirs

abbrev pub dirs_only : Sys
dirs_only = record {
  World = List Bytes;
  stat = λ path w. if listed path w then some dir_stat else none;
  lstat = λ path w. if listed path w then done dir_stat else failed other;
  mkdir = λ path w. if listed path w then failed eexist else done (path ∷ w);
  remove = λ path w. failed other;
  unlink = λ path w. failed other;
  rename = λ path new w. failed other;
  chmod = λ path mode w. some w;
  utimensat = λ path time w. some w;
  utimensat_link = λ path atime mtime w. some w;
  readlink = λ path n w. none;
  symlink = λ text path w. none;
  open_read = λ path w. none;
  open_write = λ path w. none;
  read = λ fd n w. none;
  write = λ fd b w. none;
  close = λ fd w. (true, w);
  entries = λ path w. some 2;
  nftw = λ path w. [];
  nftw_depth = λ path w. none;
  unread = λ fd w. [];
  inotify_init = λ w. none;
  add_watch = λ path w. none;
  rm_watch = λ wd w. w;
}

listed_of_stat :
    (q : Bytes) (w : List Bytes) {st : Stat} → dirs_only.stat q w ≡ some st → listed q w ≡ true
listed_of_stat q w found = elim (Bool-cases (listed q w)) [
  | inl there ↦ there
  | inr missing ↦ absurd (ground (arith, found, missing))
]

IsDirAt-listed : (q : Bytes) (w : List Bytes) → listed q w ≡ true → IsDirAt dirs_only q w
IsDirAt-listed q w there = (dir_stat, rw there refl, refl)

abbrev pub world_of : List Bytes → Reply (List Bytes) → List Bytes
world_of old (done w) = w
world_of old (failed e) = old

mkdir-listed :
    (path : Bytes) (w : List Bytes) (q : Bytes)
    → listed q w ≡ true
    → listed q (world_of w (dirs_only.mkdir path w)) ≡ true
mkdir-listed path w q there = elim (Bool-cases (listed path w)) [
  | inl old ↦ rw old there
  | inr new ↦ rw new (ground (arith, there))
]

dirs_only-MkdirKeeps : MkdirKeeps dirs_only
dirs_only-MkdirKeeps path w w' made q (st, found, dir) = IsDirAt-listed q w' (
    ap (λ r. listed q (world_of w r)) (sym made) ∙ mkdir-listed path w q (listed_of_stat q w found))

make_path-Above_example :
    Above dirs_only dirs_only-MkdirKeeps
      (bytes "/t/a/b")
      []
      (make_path dirs_only (bytes "/t/a/b") [])
make_path-Above_example =
    make_path-Above dirs_only dirs_only-MkdirKeeps (bytes "/t/a/b") [] (λ e. cc)

is_empty_dir-Accepted_example :
    Accepted dirs_only (bytes "/t/a") [] (is_empty_dir dirs_only (bytes "/t/a") [])
is_empty_dir-Accepted_example = is_empty_dir-Accepted dirs_only (bytes "/t/a") []

abbrev no_name : Bytes
no_name = []

is_empty_dir-iff_empty_example :
    (is_empty_dir dirs_only no_name [] ≡ fault)
    ↔ ((no_name ≡ []) × (dirs_only.stat no_name [] ≡ none))
is_empty_dir-iff_empty_example = is_empty_dir-iff_empty dirs_only no_name []
