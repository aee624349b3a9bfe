-- ===== src/Child/Confined.antt =====
-- What a child changes: the files that its file operations change, as a property of the world that
-- they keep at the paths of the target.
pub mod Walks
pub mod Moves
pub mod Dict
pub mod Blocks
pub mod Rounds
pub mod Calls
use unix_backup_c.Common.{
  ℕ, zero, suc, ◌+◌, ◌-◌, ◌*◌, ◌/◌, ◌%◌, ◌^◌, ◌≤◌, ◌<◌, ◌≡◌, refl, sym, ap, ◌∙◌, ◌≢◌, ◌↔◌, ◌⊎◌, inl,
  inr, Bool, true, false, not, ◌&&◌, ◌||◌, Option, none, some, List, [], ◌∷◌, ◌++◌, map, arith, ltb,
  leb, ◌==◌, ==_iff, ==_refl, ==_false_sym, ==_ne, &&_split, ||_split, ◌>>=◌, >>=-eq-some, is_some,
  if◌then◌else◌, Bool-cases, Option-cases, length, get_elem?, take, drop, length-append,
  length-drop, drop-length_plus, drop-plus, drop_of_length, take-append-drop, drop-length-append,
  All, All-append,
}
use unix_backup_c.Common.Bytes.{
  Bytes, bytes, char_at, str_eq, starts_with, str_eq_sound, str_eq_refl, starts_with-append,
  starts_with_sound, char_at-length-append,
}
use mathlib.Core.List.{append-nil, append_assoc, map-append}
use mathlib.Core.Path.{subst}
use unix_backup_c.Types.{Watch, Move}
use unix_backup_c.Paths.{concat, get_end_suffix}
use unix_backup_c.Paths.Inside.{IsBoundary, Within}
use unix_backup_c.Paths.Suffix.{get_end_suffix-append, concat-get_end_suffix}
use unix_backup_c.System.{Flag}
use unix_backup_c.Events.Inside.{IsWatch}
use unix_backup_c.Child.Files.{Files, Visits}
use unix_backup_c.Child.Folders.{Pair, Env}
use unix_backup_c.Child.Moves.{dest_of}

-- Each operation of the interface keeps the property where the path that it is to change lies in
-- the target, and a visit of the initial backup where it lies in the source.
pub record IsConfined (files : Files) (pair : Pair) (Inv : files.World → Type 0) : Type 0 where
  pub visits : Visits files
  pub inotify_init_keeps :
      (w w' : files.World) (fd : ℕ) → Inv w → files.inotify_init w ≡ some (fd, w') → Inv w'
  pub add_watch_keeps :
      (p : Bytes) (w w' : files.World) (wd : ℕ)
      → Inv w
      → files.add_watch p w ≡ some (wd, w')
      → Inv w'
  pub rm_watch_keeps : (wd : ℕ) (w : files.World) → Inv w → Inv (files.rm_watch wd w)
  pub create_empty_files_keeps :
      (dest src : Bytes) (w w' : files.World)
      → Within pair.target_full dest
      → Inv w
      → files.create_empty_files dest src w ≡ some w'
      → Inv w'
  pub copy_files_keeps :
      (dest src : Bytes) (w w' : files.World)
      → Within pair.target_full dest
      → Inv w
      → files.copy_files dest pair.target_full src w ≡ some w'
      → Inv w'
  pub attribs_keeps :
      (dest src : Bytes) (w w' : files.World)
      → Within pair.target_full dest
      → Inv w
      → files.attribs dest src w ≡ some w'
      → Inv w'
  pub delete_multi_keeps :
      (dest : Bytes) (w w' : files.World)
      → Within pair.target_full dest
      → Inv w
      → files.delete_multi dest w ≡ some w'
      → Inv w'
  pub move_all_keeps :
      (dest suffix : Bytes) (w w' : files.World)
      → Within pair.target_full dest
      → IsBoundary suffix
      → Inv w
      → files.move_all dest pair.target_full suffix w ≡ some w'
      → Inv w'
  pub backup_walk_keeps :
      (path : Bytes) (flag : Flag) (w w' : files.World)
      → Within pair.source_full path
      → Inv w
      → files.backup_walk pair.source_full pair.target_full path flag w ≡ some w'
      → Inv w'

-- A path of the source has its partner in the target.
pub dest_of-Within :
    (pair : Pair) (path : Bytes)
    → Within pair.source_full path
    → Within pair.target_full (dest_of pair path)
dest_of-Within pair path (rest, e, b) =
    (rest, ap (dest_of pair) e ∙ concat-get_end_suffix pair.source_full pair.target_full rest, b)

module _ (files : Files) (pair : Pair) (Inv : files.World → Type 0) where
  -- The files are as the property says, and every watch is on a directory of the source.
  abbrev pub Good : Env files → Type 0
  Good env = Inv env.0 × All (IsWatch pair.source_full) env.1

  abbrev pub GoodResult : Option (Env files) → Type 0
  GoodResult none = Unit
  GoodResult (some env) = Good env

  pub >>=-Good :
      (m : Option (Env files)) (f : Env files → Option (Env files))
      → GoodResult m
      → ((e : Env files) → Good e → GoodResult (f e))
      → GoodResult (m >>= f)
  >>=-Good none f g h = tt
  >>=-Good (some e) f g h = h e g

  -- An operation on the files alone.
  pub world_then :
      (ws : List Watch) (m : Option files.World)
      → All (IsWatch pair.source_full) ws
      → ((w : files.World) → m ≡ some w → Inv w)
      → GoodResult (m >>= λ w. some (w, ws))
  world_then ws none sound h = tt
  world_then ws (some w) sound h = (h w refl, sound)
