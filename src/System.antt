-- ===== src/System.antt =====
-- The system calls of the file operations, as a parameter: what they take and what they return.
use unix_backup_c.Common.{ℕ, ◌≡◌, refl, ◌⊎◌, inl, inr, Bool, true, false, Option, List}
use unix_backup_c.Common.Bytes.{Bytes}

-- `errno`, as far as the code tells its values apart.
pub data Errno : Type 0 where
  eexist enoent enotempty eacces exdev other : Errno

-- What a call returns: a value, or -1 with `errno`. A call that fails leaves the files as they are.
pub data Reply {ℓ} (A : Type ℓ) : Type ℓ where
  done : A → Reply A
  failed : Errno → Reply A

pub Reply-cases :
    {A : Type 0} (r : Reply A) → ((a : A) × (r ≡ done a)) ⊎ ((e : Errno) × (r ≡ failed e))
Reply-cases (done a) = inl (a, refl)
Reply-cases (failed e) = inr (e, refl)

-- `S_ISREG`, `S_ISDIR`, `S_ISLNK`, or none of them.
pub data Kind : Type 0 where
  regular directory link special : Kind

-- `struct stat`, as far as the code looks. A time is its seconds and nanoseconds as one number.
pub record Stat : Type 0 where
  pub kind : Kind
  -- `st_mode`, the bits of the kind among them
  pub mode : ℕ
  pub size : ℕ
  pub atime : ℕ
  pub mtime : ℕ

abbrev pub is_dir : Stat → Bool
is_dir st = elim st.kind [ regular ↦ false | directory ↦ true | link ↦ false | special ↦ false ]

abbrev pub is_reg : Stat → Bool
is_reg st = elim st.kind [ regular ↦ true | directory ↦ false | link ↦ false | special ↦ false ]

abbrev pub is_lnk : Stat → Bool
is_lnk st = elim st.kind [ regular ↦ false | directory ↦ false | link ↦ true | special ↦ false ]

-- The kinds that nftw tells apart, `FTW_D`, `FTW_F`, `FTW_SL` and the rest.
pub data Flag : Type 0 where
  ftw_d ftw_f ftw_sl ftw_other : Flag

-- One entry that nftw visits.
pub record Visit : Type 0 where
  pub path : Bytes
  pub stat : Stat
  pub flag : Flag

pub record Sys : Type 1 where
  pub World : Type 0
  pub stat : Bytes → World → Option Stat
  pub lstat : Bytes → World → Reply Stat
  pub mkdir : Bytes → World → Reply World
  pub remove : Bytes → World → Reply World
  pub unlink : Bytes → World → Reply World
  pub rename : Bytes → Bytes → World → Reply World
  pub chmod : Bytes → ℕ → World → Option World
  -- `utimensat` with the time of the last change alone, and with both times on a link itself
  pub utimensat : Bytes → ℕ → World → Option World
  pub utimensat_link : Bytes → ℕ → ℕ → World → Option World
  -- `readlink` with room for a number of bytes, and `symlink(text, path)`
  pub readlink : Bytes → ℕ → World → Option Bytes
  pub symlink : Bytes → Bytes → World → Option World
  -- `open(path, O_RDONLY)`, and `open(path, O_WRONLY | O_CREAT | O_TRUNC, 0644)`
  pub open_read : Bytes → World → Option (ℕ × World)
  pub open_write : Bytes → World → Option (ℕ × World)
  -- `read(fd, buff, n)`, `write(fd, bytes, length)`, and `close`, which can fail
  pub read : ℕ → ℕ → World → Option (Bytes × World)
  pub write : ℕ → Bytes → World → Option (ℕ × World)
  pub close : ℕ → World → Bool × World
  -- `opendir`, and the number of entries that `readdir` gives
  pub entries : Bytes → World → Option ℕ
  -- the entries that nftw visits, with FTW_PHYS, and with FTW_DEPTH too
  pub nftw : Bytes → World → List Visit
  pub nftw_depth : Bytes → World → Option (List Visit)
  -- the bytes of an open file that reads on the descriptor have still to give
  pub unread : ℕ → World → Bytes
  -- `inotify_init1`, and `inotify_add_watch` and `inotify_rm_watch` on the descriptor
  pub inotify_init : World → Option (ℕ × World)
  pub add_watch : Bytes → World → Option (ℕ × World)
  pub rm_watch : ℕ → World → World
