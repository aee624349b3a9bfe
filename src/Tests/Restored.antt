-- ===== src/Tests/Restored.antt =====
-- Restores of files as a list of their paths.
use unix_backup_c.Common.{
  ℕ, ◌≡◌, refl, sym, ap, ◌∙◌, inl, inr, false, none, some, List, [], ◌∷◌, arith, is_some,
  if◌then◌else◌, Bool-cases,
}
use unix_backup_c.Common.Bytes.{Bytes, bytes, str_eq}
use unix_backup_c.Restore.Lost.{file_at, mode_only-Gone}
use unix_backup_c.Restore.{restore_file}
use unix_backup_c.System.{enoent, done, failed, regular, Stat, Sys}
use unix_backup_c.Outcome.{Outcome, ok, exited, fault}
use unix_backup_c.Restore.Contents.{restorer_copies}
use unix_backup_c.FileOps.Contents.{IsFile}
use unix_backup_c.Tests.Disk.{
  Disk, set, file_stat, disk, content, IsOpen, Apart, disk-IsStorage, disk-IsKept,
}
use unix_backup_c.Tests.Files.{dirs_only, listed, world_of}
use mathlib.Core.Option.{some-injective}
use unix_backup_c.FileOps.Places.{IsMade}
use unix_backup_c.Paths.Inside.{Within}
use unix_backup_c.Restore.{delete_all_missing, restore_checkpoint}
use unix_backup_c.Restore.Missing.{delete_all_missing-Gone}
use unix_backup_c.FileOps.Removals.{IsMissing, IsRemoving, Gone}
use unix_backup_c.FileOps.{recursive_deleter}
use unix_backup_c.Restore.{need_copy, restorer, delete_missing}

abbrev file_of_mode : ℕ → Stat
file_of_mode mode = record { kind = regular; mode = mode; size = 5; atime = 0; mtime = 9 }

-- Files by their paths, which can be removed.
abbrev without : Bytes → List Bytes → List Bytes
without path [] = []
without path (p ∷ ps) = let rest = without path ps in if str_eq p path then rest else p ∷ rest

-- The backup in /b has the file with one mode, the source in /s with another.
abbrev mode_of : Bytes → ℕ
mode_of path = if str_eq path (bytes "/b/f") then 33188 else 33261

abbrev pub files_only : Sys
files_only = record dirs_only {
  lstat = λ path w. if listed path w then done (file_of_mode (mode_of path)) else failed enoent;
  remove = λ path w. if listed path w then done (without path w) else failed enoent;
  nftw = λ path w. file_at (bytes "/b/f") (file_of_mode 33188) ∷ [];
  nftw_depth = λ path w.
      some (file_at (bytes "/s/f") (file_of_mode 33261) ∷ file_at path (file_of_mode 33188) ∷ []);
}

listed-without : (p : Bytes) (w : List Bytes) → listed p (without p w) ≡ false
listed-without p [] = refl
listed-without p (x ∷ w) = ground (arith, listed-without p w)

without_adds_nothing :
    (p q : Bytes) (w : List Bytes) → listed q w ≡ false → listed q (without p w) ≡ false
without_adds_nothing p q [] h = refl
without_adds_nothing p q (x ∷ w) h = ground (arith, without_adds_nothing p q w)

IsMissing-unlisted : (p : Bytes) (w : List Bytes) → listed p w ≡ false → IsMissing files_only p w
IsMissing-unlisted p w h = rw h refl

listed_missing : (p : Bytes) (w : List Bytes) → IsMissing files_only p w → listed p w ≡ false
listed_missing p w h = elim (Bool-cases (listed p w)) [
  | inl there ↦ absurd (ground (arith, there, h))
  | inr gone ↦ gone
]

removed : (p : Bytes) (w w' : List Bytes) → files_only.remove p w ≡ done w' → w' ≡ without p w
removed p w w' e = elim (Bool-cases (listed p w)) [
  | inl there ↦ sym (rw there at (ap (world_of w) e))
  | inr gone ↦ absurd (ground (arith, gone, e))
]

refused :
    (p : Bytes) (w : List Bytes) → files_only.remove p w ≡ failed enoent → IsMissing files_only p w
refused p w e = elim (Bool-cases (listed p w)) [
  | inl there ↦ absurd (ground (arith, there, e))
  | inr gone ↦ IsMissing-unlisted p w gone
]

pub files_only-IsRemoving : IsRemoving files_only
files_only-IsRemoving = record {
  removes =
      λ p w w' e. IsMissing-unlisted p w' (ap (listed p) (removed p w w' e) ∙ listed-without p w);
  appears_not = λ p q w w' e h.
      IsMissing-unlisted q w'
        (ap (listed q) (removed p w w' e) ∙ without_adds_nothing p q w (listed_missing q w h));
  missing = refused;
  visits_itself = λ p w vs e. (
    file_at (bytes "/s/f") (file_of_mode 33261) ∷ [],
    [],
    file_at p (file_of_mode 33188),
    sym (some-injective _ vs e),
    refl,
  );
}

delete_all_missing-Gone_example :
    Gone files_only files_only-IsRemoving
      (bytes "/s/f")
      (delete_all_missing files_only (bytes "/s") (bytes "/b") (bytes "/s/f" ∷ []))
unfolding unix_backup_c.Paths.get_end_suffix unix_backup_c.Paths.concat
delete_all_missing-Gone_example =
    delete_all_missing-Gone files_only files_only-IsRemoving (bytes "/s") (bytes "/b") []
      (file_at (bytes "/s/f") (file_of_mode 33261)) (file_at (bytes "/s") (file_of_mode 33188) ∷ [])
      47 (bytes "f") (bytes "/s/f" ∷ []) refl refl refl

abbrev two_files : List Bytes
two_files = bytes "/s/f" ∷ bytes "/b/f" ∷ []

-- The restore runs to its end, and the file of the source is lost.
run_mode_only :
    restore_checkpoint files_only (some (bytes "/s")) (some (bytes "/b")) two_files
    ≡ ok (bytes "/b/f" ∷ [])
unfolding restore_checkpoint delete_all_missing unix_backup_c.Restore.for_each restorer
    delete_missing unix_backup_c.Restore.restore_file unix_backup_c.Restore.clear_if
    unix_backup_c.Paths.concat unix_backup_c.Paths.get_end_suffix need_copy
    unix_backup_c.Restore.other_kind unix_backup_c.Restore.differs unix_backup_c.Restore.is_missing
    unix_backup_c.FileOps.recursive_deleter unix_backup_c.FileOps.delete_all
    unix_backup_c.FileOps.deleter unix_backup_c.FileOps.unless_missing
run_mode_only = refl

mode_only-Gone_example :
    Gone files_only files_only-IsRemoving
      (bytes "/s/f")
      (restore_checkpoint files_only (some (bytes "/s")) (some (bytes "/b")) two_files)
mode_only-Gone_example =
    mode_only-Gone files_only (bytes "/s") (bytes "/b") 47 (bytes "f") (file_of_mode 33188)
      (file_of_mode 33261) files_only-IsRemoving refl refl refl refl (λ e. omega (arith, e)) [] []
      two_files (refl, refl) refl tt tt
      (λ w h. ([], file_at (bytes "/s") (file_of_mode 33188) ∷ [], refl, tt))

abbrev Backup : Disk → Type 0
Backup = IsFile disk content Apart IsOpen disk-IsStorage (bytes "/b/f") (bytes "/s/f") (bytes "abc")

Backup-stays :
    (w w' : Disk) → content (bytes "/b/f") w' ≡ content (bytes "/b/f") w → Backup w → Backup w'
Backup-stays w w' same ((st, found, file), has, apart) = (
  (st, ap (λ x. if is_some x then done file_stat else failed enoent) same ∙ found, file),
  same ∙ has,
  apart,
)

pub source_apart : (q : Bytes) → Within (bytes "/s") q → str_eq q (bytes "/b/f") ≡ false
source_apart q (rest, e, b) = rw e refl

abbrev pub before_restore : Disk
before_restore = record {
  files = set (bytes "/b/f") (bytes "abc") (λ q. none);
  left = [];
  out = [];
}

abbrev restored : Outcome Disk
restored = restorer disk (bytes "/s") (bytes "/b") (file_at (bytes "/b/f") file_stat) before_restore

abbrev pub after_restore : Outcome Disk → Disk
after_restore (ok w) = w
after_restore exited = before_restore
after_restore fault = before_restore

restore_runs : restored ≡ ok (after_restore restored)
unfolding restorer unix_backup_c.Restore.restore_file unix_backup_c.Restore.clear_if
    unix_backup_c.Paths.concat unix_backup_c.Paths.get_end_suffix need_copy
    unix_backup_c.FileOps.make_path unix_backup_c.FileOps.make_parents
    unix_backup_c.FileOps.checked_mkdir unix_backup_c.FileOps.check_dir
    unix_backup_c.FileOps.Copies.copy unix_backup_c.FileOps.Copies.copy_file
    unix_backup_c.FileOps.Copies.make_dir_of unix_backup_c.FileOps.Copies.copy_data
    unix_backup_c.FileOps.Copies.copy_bytes unix_backup_c.FileOps.Copies.write_all
    unix_backup_c.FileOps.copy_permissions_and_attributes
restore_runs = refl

restorer_copies_example : content (bytes "/s/f") (after_restore restored) ≡ some (bytes "abc")
unfolding need_copy
restorer_copies_example =
    restorer_copies disk content Apart IsOpen disk-IsStorage (bytes "/s") (bytes "/b") (bytes "/f")
      (bytes "abc") file_stat before_restore (after_restore restored)
      (λ fd w. str_eq w.out (bytes "/b/f") ≡ false) (λ e. cc) refl (λ e. cc)
      (disk-IsKept (IsMade (bytes "/s")) (Within (bytes "/s")) (bytes "/b/f") Backup Backup-stays
        (λ q h. inl h) source_apart)
      refl ((file_stat, refl, refl), refl, refl) restore_runs
