-- ===== src/Child/Files.antt =====
-- What the code of a child calls to read and change files, as an interface: the system calls, and
-- the functions of src/generic_file_functions.c. `none` as a result is the end of the process by
-- `ERR`.
use unix_backup_c.System.{Flag}
use unix_backup_c.Paths.Inside.{Within}
use unix_backup_c.Common.{ℕ, Bool, Option, List, All}
use unix_backup_c.Common.Bytes.{Bytes}

pub record Files : Type 1 where
  -- the file systems and the inotify instance
  pub World : Type 0
  -- `lstat`, as far as the code looks: nothing, or whether it is a directory
  pub lstat_is_dir : Bytes → World → Option Bool
  -- the entries that `nftw(path, …, FTW_PHYS)` visits, in order
  pub nftw : Bytes → World → List (Bytes × Flag)
  -- `inotify_init1`
  pub inotify_init : World → Option (ℕ × World)
  -- `inotify_add_watch` and `inotify_rm_watch` on the child's descriptor
  pub add_watch : Bytes → World → Option (ℕ × World)
  pub rm_watch : ℕ → World → World
  -- `create_empty_files(dest, _, _, src)`
  pub create_empty_files : Bytes → Bytes → World → Option World
  -- `copy_files(dest, target, _, src)`, by `target_full`
  pub copy_files : Bytes → Bytes → Bytes → World → Option World
  -- `attribs(dest, _, _, src)`
  pub attribs : Bytes → Bytes → World → Option World
  -- `delete_multi(dest, _, _, _)`
  pub delete_multi : Bytes → World → Option World
  -- `move_all(dest, target, _, suffix)`, by `target_full`
  pub move_all : Bytes → Bytes → Bytes → World → Option World
  -- `backup_walk(path, _, flag, _)`, with `_source` and `_target` set
  pub backup_walk : Bytes → Bytes → Bytes → Flag → World → Option World

-- What nftw(3) says of the visited entries: each is the path itself or lies below it.
abbrev pub Visits : Files → Type 0
Visits files = (path : Bytes) (w : files.World) → All (λ e. Within path e.0) (files.nftw path w)
