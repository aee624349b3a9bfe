-- ===== src/Child/Calls.antt =====
-- The interface of a child's file operations, filled by the functions of
-- src/generic_file_functions.c over the system calls.
use unix_backup_c.Common.{Bool, Option, none, some, List, [], ◌∷◌}
use unix_backup_c.Common.Bytes.{Bytes}
use unix_backup_c.Outcome.{returned}
use unix_backup_c.System.{Reply, done, failed, Stat, is_dir, Visit, Flag, Sys}
use unix_backup_c.FileOps.{create_empty_files, copy_permissions_and_attributes, del_handling}
use unix_backup_c.FileOps.Copies.{copy_files, move_all, backup_walk}
use unix_backup_c.Child.Files.{Files}

abbrev found_dir : Reply Stat → Option Bool
found_dir (done st) = some (is_dir st)
found_dir (failed e) = none

abbrev pub visited : List Visit → List (Bytes × Flag)
visited [] = []
visited (v ∷ vs) = (v.path, v.flag) ∷ visited vs

abbrev pub files_of : Sys → Files
files_of sys = record {
  World = sys.World;
  lstat_is_dir = λ path w. found_dir (sys.lstat path w);
  nftw = λ path w. visited (sys.nftw path w);
  inotify_init = sys.inotify_init;
  add_watch = sys.add_watch;
  rm_watch = sys.rm_watch;
  create_empty_files = λ dest src w. returned (create_empty_files sys dest (some src) w);
  copy_files = λ dest target src w. returned (copy_files sys dest target src w);
  attribs = λ dest src w. returned (copy_permissions_and_attributes sys src dest w);
  delete_multi = λ dest w. returned (del_handling sys dest w);
  move_all = λ dest target suffix w. returned (move_all sys dest target suffix w);
  backup_walk = λ source target path flag w. returned (backup_walk sys source target path flag w);
}
