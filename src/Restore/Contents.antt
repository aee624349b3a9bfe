-- ===== src/Restore/Contents.antt =====
-- What the walk of the backup leaves in the source.
use unix_backup_c.Common.{ℕ, ◌≡◌, refl, ◌≢◌, true, Option, some, [], ◌++◌}
use unix_backup_c.Common.Bytes.{Bytes}
use mathlib.Core.Path.{subst}
use unix_backup_c.FileOps.Contents.{IsFile, copy-content}
use unix_backup_c.Outcome.{and_then-eq-ok}
use unix_backup_c.System.{Sys, Stat}
use unix_backup_c.Outcome.{ok}
use unix_backup_c.Paths.Inside.{IsBoundary, Within}
use unix_backup_c.Paths.Mirror.{IsTrimmed}
use unix_backup_c.Paths.Suffix.{concat-get_end_suffix}
use unix_backup_c.FileOps.{make_path}
use unix_backup_c.FileOps.Copies.{dir_of, copy}
use unix_backup_c.FileOps.Kept.{IsKept, Kept}
use unix_backup_c.FileOps.Places.{IsMade, dir_of-below}
use unix_backup_c.FileOps.Storage.{IsStorage}
use unix_backup_c.Restore.{need_copy, other_kind, clear_if, restore_file, restorer}
use unix_backup_c.Restore.Confined.{clear_if-Keeps, made}
use unix_backup_c.Restore.Lost.{file_at}

module _ (sys : Sys) (content : Bytes → sys.World → Option Bytes)
    (Apart : Bytes → Bytes → sys.World → Type 0) (IsOpen : ℕ → ℕ → Bytes → sys.World → Type 0)
    (storage : IsStorage sys content Apart IsOpen) where
  restore_file-content :
      (source target p q b : Bytes) (s : Stat) (w w' : sys.World) (Writes : ℕ → sys.World → Type 0)
      → IsKept sys
          (IsMade source)
          (Within source)
          (IsFile sys content Apart IsOpen storage p q b)
          Writes
      → Within source q
      → dir_of q ≢ some []
      → need_copy s (sys.lstat q w) ≡ true
      → IsFile sys content Apart IsOpen storage p q b w
      → restore_file sys source target p q s w ≡ ok w'
      → content q w' ≡ some b
  unfolding restore_file
  restore_file-content source target p q b s w w' Writes kept inside below needed backup e =
      let (w1, cleared, more) =
        and_then-eq-ok (clear_if sys (other_kind s) (sys.lstat q w) q w) _ w' e in
      let i1 =
        subst
          (Kept sys (IsMade source) (Within source) (IsFile sys content Apart IsOpen storage p q b)
            Writes kept)
          cleared
          (clear_if-Keeps sys source (IsFile sys content Apart IsOpen storage p q b) Writes kept
            (other_kind s) (sys.lstat q w) q w inside backup) in
      let (w2, parents, last) =
        and_then-eq-ok (make_path sys q w1) (copy sys p q (some target) (some source)) w'
          (rw needed at more) in
      let i2 =
        subst
          (Kept sys (IsMade source) (Within source) (IsFile sys content Apart IsOpen storage p q b)
            Writes kept)
          parents
          (made sys source (IsFile sys content Apart IsOpen storage p q b) Writes kept q w1 inside
            i1) in
      copy-content sys content Apart IsOpen storage p q b (some target) (some source) w2 w' below i2
        last

  -- Where changes in the source leave a regular file of the backup as it is, the visit of the file by
  -- the first walk of a restore that finds that a copy is needed leaves its partner in the source
  -- with the content that the file has, if it returns.
  pub restorer_copies :
      (source target rest b : Bytes) (s : Stat) (w w' : sys.World) (Writes : ℕ → sys.World → Type 0)
      → IsTrimmed source
      → IsBoundary rest
      → rest ≢ []
      → IsKept sys
          (IsMade source)
          (Within source)
          (IsFile sys content Apart IsOpen storage (target ++ rest) (source ++ rest) b)
          Writes
      → need_copy s (sys.lstat (source ++ rest) w) ≡ true
      → IsFile sys content Apart IsOpen storage (target ++ rest) (source ++ rest) b w
      → restorer sys source target (file_at (target ++ rest) s) w ≡ ok w'
      → content (source ++ rest) w' ≡ some b
  unfolding restorer
  restorer_copies source target rest b s w w' Writes trimmed boundary ne kept needed backup e =
      restore_file-content source target (target ++ rest) (source ++ rest) b s w w' Writes kept
        (rest, refl, boundary) (dir_of-below source rest trimmed boundary ne) needed backup
        (rw (concat-get_end_suffix target source rest) at e)
