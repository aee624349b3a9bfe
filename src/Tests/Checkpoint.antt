-- ===== src/Tests/Checkpoint.antt =====
-- A restore that copies and deletes on files as a function of their paths.
use unix_backup_c.Common.{
  ℕ, ◌≡◌, refl, sym, ap, ◌∙◌, inl, inr, false, Option, none, some, List, [], ◌∷◌, arith, is_some,
  if◌then◌else◌, Bool-cases, All,
}
use unix_backup_c.Common.Bytes.{Bytes, bytes, str_eq}
use mathlib.Core.Path.{subst}
use unix_backup_c.Tests.Restored.{source_apart, before_restore, after_restore}
use unix_backup_c.Restore.Lost.{file_at}
use unix_backup_c.Restore.{restore_file}
use unix_backup_c.FileOps.Kept.{IsKept}
use unix_backup_c.Tests.Files.{dir_stat}
use unix_backup_c.System.{enoent, done, failed, Reply, Sys, Visit}
use unix_backup_c.Outcome.{Outcome, ok}
use unix_backup_c.Tests.Disk.{Disk, set, file_stat, disk, content, disk-IsKept}
use mathlib.Core.Option.{some-injective}
use unix_backup_c.FileOps.Kept.{Kept}
use unix_backup_c.FileOps.Places.{IsMade}
use unix_backup_c.Paths.Inside.{Within}
use unix_backup_c.Restore.{delete_all_missing, restore_checkpoint}
use unix_backup_c.Restore.Confined.{restore_checkpoint-confined}
use unix_backup_c.FileOps.{recursive_deleter}
use unix_backup_c.Restore.{need_copy, restorer, delete_missing}

-- The disk with walks, and with files that can be removed.
abbrev unset : Bytes → (Bytes → Option Bytes) → Bytes → Option Bytes
unset p files q = if str_eq p q then none else files q

abbrev tree : Sys
tree = record disk {
  remove = λ path w.
      if is_some (w.files path)
      then done (record w { files = unset path w.files })
      else failed enoent;
  nftw = λ path w. file_at (bytes "/b/f") file_stat ∷ [];
  nftw_depth = λ path w.
      if str_eq path (bytes "/s")
      then some (file_at (bytes "/s/g") file_stat ∷ file_at path dir_stat ∷ [])
      else some (file_at path file_stat ∷ []);
}

unset_other :
    (p q : Bytes) (files : Bytes → Option Bytes) → str_eq q p ≡ false → unset q files p ≡ files p
unset_other p q files ne = rw ne refl

abbrev disk_of : Disk → Reply Disk → Disk
disk_of old (done w) = w
disk_of old (failed e) = old

remove_keeps :
    (q : Bytes) (w w' : Disk)
    → str_eq q (bytes "/b/f") ≡ false
    → tree.remove q w ≡ done w'
    → content (bytes "/b/f") w' ≡ content (bytes "/b/f") w
remove_keeps q w w' ne e = elim (Bool-cases (is_some (w.files q))) [
  | inl there ↦
      sym (ap (content (bytes "/b/f")) (rw there at (ap (disk_of w) e)))
      ∙ unset_other (bytes "/b/f") q w.files ne
  | inr gone ↦ absurd (ground (arith, gone, e))
]

visits_source :
    (q : Bytes) (w : Disk) (vs : List Visit)
    → Within (bytes "/s") q
    → tree.nftw_depth q w ≡ some vs
    → All (λ v. Within (bytes "/s") v.path) vs
visits_source q w vs h e = elim (Bool-cases (str_eq q (bytes "/s"))) [
  | inl root ↦
      subst (All (λ v. Within (bytes "/s") v.path)) (some-injective _ vs (rw root at e))
        ((bytes "/g", refl, refl), (h, tt))
  | inr below ↦
      subst (All (λ v. Within (bytes "/s") v.path)) (some-injective _ vs (rw below at e)) (h, tt)
]

abbrev BackupKept : Disk → Type 0
BackupKept w = content (bytes "/b/f") w ≡ some (bytes "abc")

abbrev NotWritten : ℕ → Disk → Type 0
NotWritten fd w = str_eq w.out (bytes "/b/f") ≡ false

disk_keeps : IsKept disk (IsMade (bytes "/s")) (Within (bytes "/s")) BackupKept NotWritten
disk_keeps =
    disk-IsKept (IsMade (bytes "/s")) (Within (bytes "/s")) (bytes "/b/f") BackupKept
      (λ w w' same h. same ∙ h) (λ q h. inl h) source_apart

tree-IsKept : IsKept tree (IsMade (bytes "/s")) (Within (bytes "/s")) BackupKept NotWritten
tree-IsKept = record {
  makes_inside = disk_keeps.makes_inside;
  visits_inside = visits_source;
  mkdir_keeps = disk_keeps.mkdir_keeps;
  remove_keeps = λ q w w' h i e. remove_keeps q w w' (source_apart q h) e ∙ i;
  unlink_keeps = disk_keeps.unlink_keeps;
  rename_keeps = disk_keeps.rename_keeps;
  chmod_keeps = disk_keeps.chmod_keeps;
  utimensat_keeps = disk_keeps.utimensat_keeps;
  utimensat_link_keeps = disk_keeps.utimensat_link_keeps;
  symlink_keeps = disk_keeps.symlink_keeps;
  open_read_keeps = disk_keeps.open_read_keeps;
  open_write_keeps = disk_keeps.open_write_keeps;
  read_keeps = disk_keeps.read_keeps;
  write_keeps = disk_keeps.write_keeps;
  close_keeps = disk_keeps.close_keeps;
}

-- The source has a file that the backup does not have.
abbrev before_checkpoint : Disk
before_checkpoint = record before_restore {
  files = set (bytes "/s/g") (bytes "x") before_restore.files;
}

abbrev checkpoint : Outcome Disk
checkpoint = restore_checkpoint tree (some (bytes "/s")) (some (bytes "/b")) before_checkpoint

-- The restore runs to its end: it copies the file of the backup and deletes the other.
checkpoint_runs :
    (checkpoint ≡ ok (after_restore checkpoint))
    × (content (bytes "/s/f") (after_restore checkpoint) ≡ some (bytes "abc"))
    × (content (bytes "/s/g") (after_restore checkpoint) ≡ none)
unfolding restore_checkpoint delete_all_missing unix_backup_c.Restore.for_each restorer
    delete_missing unix_backup_c.Restore.restore_file unix_backup_c.Restore.clear_if
    unix_backup_c.Paths.concat unix_backup_c.Paths.get_end_suffix need_copy
    unix_backup_c.Restore.is_missing unix_backup_c.FileOps.recursive_deleter
    unix_backup_c.FileOps.delete_all unix_backup_c.FileOps.deleter
    unix_backup_c.FileOps.unless_missing unix_backup_c.FileOps.make_path
    unix_backup_c.FileOps.make_parents unix_backup_c.FileOps.checked_mkdir
    unix_backup_c.FileOps.check_dir unix_backup_c.FileOps.Copies.copy
    unix_backup_c.FileOps.Copies.copy_file unix_backup_c.FileOps.Copies.make_dir_of
    unix_backup_c.FileOps.Copies.copy_data unix_backup_c.FileOps.Copies.copy_bytes
    unix_backup_c.FileOps.Copies.write_all unix_backup_c.FileOps.copy_permissions_and_attributes
checkpoint_runs = (refl, refl, refl)

restore_checkpoint-confined_example :
    Kept tree
      (IsMade (bytes "/s"))
      (Within (bytes "/s"))
      BackupKept
      NotWritten
      tree-IsKept
      checkpoint
restore_checkpoint-confined_example =
    restore_checkpoint-confined tree (bytes "/s") BackupKept NotWritten tree-IsKept (bytes "/b")
      before_checkpoint ((bytes "/f", refl, refl), tt) refl
