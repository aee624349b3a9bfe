-- ===== src/FileOps/Contents.antt =====
-- What a copy of a regular file leaves in its destination.
use unix_backup_c.Common.{ℕ, ◌≡◌, refl, sym, ◌∙◌, ◌≢◌, Option, some, []}
use unix_backup_c.Common.Bytes.{Bytes}
use mathlib.Core.Path.{subst}
use unix_backup_c.System.{done, regular, Sys, Stat}
use unix_backup_c.Outcome.{ok}
use unix_backup_c.FileOps.Copies.{dir_of, copy, copy_file}
use unix_backup_c.FileOps.Storage.{IsStorage, Filled, copy_file_copies}

module _ (sys : Sys) (content : Bytes → sys.World → Option Bytes)
    (Apart : Bytes → Bytes → sys.World → Type 0) (IsOpen : ℕ → ℕ → Bytes → sys.World → Type 0)
    (storage : IsStorage sys content Apart IsOpen) where
  -- The file at the first path is a regular file with this content, and not the same file as that at
  -- the second.
  abbrev pub IsFile : Bytes → Bytes → Bytes → sys.World → Type 0
  IsFile p q b w =
      ((st : Stat) × (sys.lstat p w ≡ done st) × (st.kind ≡ regular))
      × (content p w ≡ some b)
      × Apart p q w

  pub copy_regular :
      (p q : Bytes) (source target : Option Bytes) (st : Stat) (w : sys.World)
      → sys.lstat p w ≡ done st
      → st.kind ≡ regular
      → copy sys p q source target w ≡ copy_file sys p q w
  unfolding copy
  copy_regular p q source target st w found file = rw (copy, found, file) refl

  pub copy-content :
      (p q b : Bytes) (source target : Option Bytes) (w w' : sys.World)
      → dir_of q ≢ some []
      → IsFile p q b w
      → copy sys p q source target w ≡ ok w'
      → content q w' ≡ some b
  copy-content p q b source target w w' below ((st, found, file), has, apart) e =
      subst (Filled sys content Apart IsOpen storage q b)
        (sym (copy_regular p q source target st w found file) ∙ e)
        (copy_file_copies sys content Apart IsOpen storage p q b w below apart has)
