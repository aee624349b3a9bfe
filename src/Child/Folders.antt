-- ===== src/Child/Folders.antt =====
-- `backup_walk_inotify_init`, `initial_backup` and `new_folder_init` of src/inotify_functions.c:
-- the watches on a directory tree, and its copy in the target.
pub mod Laws
use unix_backup_c.Common.{
  ◌>>=◌, ℕ, zero, suc, ◌+◌, ◌-◌, ◌*◌, ◌/◌, ◌%◌, ◌^◌, ◌≤◌, ◌<◌, ◌≡◌, refl, sym, ap, ◌∙◌, ◌≢◌, ◌↔◌,
  ◌⊎◌, inl, inr, Bool, true, false, not, ◌&&◌, ◌||◌, Option, none, some, List, [], ◌∷◌, ◌++◌, map,
  arith, ltb, leb, ◌==◌, ==_iff, ==_refl, ==_false_sym, ==_ne, &&_split, ||_split, if◌then◌else◌,
  Bool-cases, Option-cases, length, get_elem?, take, drop, length-append, length-drop,
  drop-length_plus, drop-plus, drop_of_length, take-append-drop, drop-length-append, All,
  All-append,
}
use unix_backup_c.Common.Bytes.{
  Bytes, bytes, char_at, str_eq, starts_with, str_eq_sound, str_eq_refl, starts_with-append,
  starts_with_sound, char_at-length-append,
}
use mathlib.Core.List.{append-nil, append_assoc}
use mathlib.Core.Path.{subst}
use unix_backup_c.Types.{Watch}
use unix_backup_c.Paths.{get_end_suffix}
use unix_backup_c.Watches.{new_watch}
use unix_backup_c.Child.Files.{Files}
use unix_backup_c.System.{Flag, ftw_d, ftw_f, ftw_sl, ftw_other}

-- The fields of the source and of the target that the functions read. They do not change.
pub record Pair : Type 0 where
  pub source_full : Bytes
  pub source_friendly : Bytes
  pub target_full : Bytes

module _ (files : Files) where
  open files use {World, nftw, inotify_init, add_watch, backup_walk}

  -- The part of a child's state that these functions change.
  abbrev pub Env : Type 0
  Env = World × List Watch

  -- One visit: a directory is watched, anything else is passed over.
  unfoldable pub backup_walk_inotify_init : Pair → Bytes → Flag → Env → Option Env
  backup_walk_inotify_init pair path ftw_d (w, ws) = do
    (wd, w') ← add_watch path w
    some (
      w',
      ws
          ++ (new_watch wd pair.source_friendly pair.source_full path
                (get_end_suffix (some pair.source_full) (some path))
              ∷ []),
    )
  backup_walk_inotify_init pair path flag env = some env

  -- `nftw(path, backup_walk_inotify_init, …)` over the visited entries.
  unfoldable pub watch_all : Pair → List (Bytes × Flag) → Env → Option Env
  watch_all pair [] env = some env
  watch_all pair ((path, flag) ∷ more) env = do
    env' ← backup_walk_inotify_init pair path flag env
    watch_all pair more env'

  -- `nftw(path, backup_walk, …)`
  unfoldable pub copy_all : Pair → List (Bytes × Flag) → World → Option World
  copy_all pair [] w = some w
  copy_all pair ((path, flag) ∷ more) w = do
    w' ← backup_walk pair.source_full pair.target_full path flag w
    copy_all pair more w'

  unfoldable pub new_folder_init : Pair → Bytes → Env → Option Env
  new_folder_init pair path (w, ws) = do
    (w', ws') ← watch_all pair (nftw path w) (w, ws)
    w'' ← copy_all pair (nftw path w') w'
    some (w'', ws')

  -- `initial_backup`: the descriptor of the target is opened and the tree watched if it is not yet.
  unfoldable pub initial_backup : Pair → Option ℕ → Env → Option (ℕ × Env)
  initial_backup pair (some fd) (w, ws) = do
    w' ← copy_all pair (nftw pair.source_full w) w
    some (fd, (w', ws))
  initial_backup pair none (w, ws) = do
    (fd, w1) ← inotify_init w
    (w2, ws') ← watch_all pair (nftw pair.source_full w1) (w1, ws)
    w3 ← copy_all pair (nftw pair.source_full w2) w2
    some (fd, (w3, ws'))
