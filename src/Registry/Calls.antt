-- ===== src/Registry/Calls.antt =====
-- The interface of the commands, filled by the functions of src/generic_file_functions.c and
-- src/restore.c over the system calls; the calls on processes are a parameter still.
use unix_backup_c.Common.{ℕ, ◌≢◌, Option, none, some, []}
use unix_backup_c.Common.Bytes.{Bytes}
use unix_backup_c.Registry.Add.{IsReadable}
use unix_backup_c.FileOps.Reads.{is_empty_dir-iff_empty}
use unix_backup_c.System.{Reply, done, failed, Sys}
use unix_backup_c.FileOps.{is_empty_dir}
use unix_backup_c.Restore.{restore_files}
use unix_backup_c.Registry.{Os}

abbrev resolved : Reply Bytes → Option Bytes
resolved (done path) = some path
resolved (failed e) = none

module _ (sys : Sys) (realpath : Bytes → sys.World → Reply Bytes)
    (fork : Bytes → Bytes → sys.World → Option (ℕ × sys.World))
    (stop_child : ℕ → sys.World → sys.World) (stop_children : sys.World → sys.World) where
  abbrev pub os_of : Os
  os_of = record {
    World = sys.World;
    is_empty_dir = is_empty_dir sys;
    realpath = λ path w. resolved (realpath path w);
    fork = fork;
    stop_child = stop_child;
    stop_children = stop_children;
    restore_files = restore_files sys realpath;
  }

  -- A token that is not empty is read without a fault.
  os_of-IsReadable : (tok : Bytes) → tok ≢ [] → IsReadable os_of tok
  os_of-IsReadable tok ne w e = ne ((is_empty_dir-iff_empty sys tok w).0 e).0
