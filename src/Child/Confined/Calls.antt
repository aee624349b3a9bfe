-- ===== src/Child/Confined/Calls.antt =====
-- A child over the system calls changes nothing outside the target.
use unix_backup_c.Common.{ℕ, ◌≡◌, refl, some, List, [], ◌∷◌, All}
use unix_backup_c.Common.Bytes.{Bytes}
use mathlib.Core.Path.{subst}
use unix_backup_c.Outcome.{returned}
use unix_backup_c.FileOps.Places.{IsPlace-Within}
use mathlib.Core.Option.{some-injective}
use unix_backup_c.Outcome.{fault}
use unix_backup_c.Child.Confined.Blocks.{SafeResult}
use unix_backup_c.System.{Visit, Sys}
use unix_backup_c.Outcome.{Outcome, ok, exited}
use unix_backup_c.Paths.{concat}
use unix_backup_c.Paths.Inside.{IsBoundary, Within}
use unix_backup_c.Paths.Mirror.{IsTrimmed}
use unix_backup_c.FileOps.{create_empty_files, copy_permissions_and_attributes, del_handling}
use unix_backup_c.FileOps.Copies.{copy_files, move_all, backup_walk}
use unix_backup_c.FileOps.Kept.{
  IsKept, IsPlace, Kept, create_empty_files-Kept, copy_permissions_and_attributes-Kept,
}
use unix_backup_c.FileOps.DeletesKept.{del_handling-Kept}
use unix_backup_c.FileOps.MovesKept.{copy_files-Good, move_all-Good, backup_walk-Good}
use unix_backup_c.Child.Folders.{Pair}
use unix_backup_c.Child.Handler.{State}
use unix_backup_c.Child.Jobs.{Round, child_loop}
use unix_backup_c.Child.Calls.{visited, files_of}
use unix_backup_c.Child.Confined.{IsConfined}
use unix_backup_c.FileOps.Places.{IsMade, get_path_to_target-Within}
use unix_backup_c.Child.Confined.Rounds.{child_loop-SafeResult}

-- What the walks and inotify(7) say: nftw visits nothing outside its path, and the calls of inotify
-- keep the property.
pub record IsWatching (sys : Sys) (Inv : sys.World → Type 0) : Type 0 where
  pub visits : (path : Bytes) (w : sys.World) → All (λ v. Within path v.path) (sys.nftw path w)
  pub init_keeps : (w w' : sys.World) (fd : ℕ) → Inv w → sys.inotify_init w ≡ some (fd, w') → Inv w'
  pub add_keeps :
      (p : Bytes) (w w' : sys.World) (wd : ℕ) → Inv w → sys.add_watch p w ≡ some (wd, w') → Inv w'
  pub rm_keeps : (wd : ℕ) (w : sys.World) → Inv w → Inv (sys.rm_watch wd w)

visited-Within :
    (path : Bytes) (vs : List Visit)
    → All (λ v. Within path v.path) vs
    → All (λ e. Within path e.0) (visited vs)
visited-Within path [] all = tt
visited-Within path (v ∷ vs) (h, all) = (h, visited-Within path vs all)

module _ (sys : Sys) (pair : Pair) (trimmed : IsTrimmed pair.target_full) (Inv : sys.World → Type 0)
    (Writes : ℕ → sys.World → Type 0)
    (kept : IsKept sys (IsMade pair.target_full) (Within pair.target_full) Inv Writes)
    (watching : IsWatching sys Inv) where
  abbrev Spot : Bytes → Type 0
  Spot = IsPlace sys (IsMade pair.target_full) (Within pair.target_full) Inv Writes kept

  abbrev Good : Outcome sys.World → Type 0
  Good = Kept sys (IsMade pair.target_full) (Within pair.target_full) Inv Writes kept

  Spot-Within : (p : Bytes) → Within pair.target_full p → Spot p
  Spot-Within = IsPlace-Within sys pair.target_full Inv Writes kept

  returned_keeps : (m : Outcome sys.World) (w' : sys.World) → Good m → returned m ≡ some w' → Inv w'
  returned_keeps (ok w) w' h e = subst Inv (some-injective w w' e) h
  returned_keeps exited w' h e = absurd (cc)
  returned_keeps fault w' h e = absurd (cc)

  suffix_in :
      (suffix : Bytes)
      → IsBoundary suffix
      → Within pair.target_full (concat (some pair.target_full) (some suffix))
  unfolding concat
  suffix_in suffix b = (suffix, refl, b)

  files_of-IsConfined : IsConfined (files_of sys) pair Inv
  files_of-IsConfined = record {
    visits = λ path w. visited-Within path (sys.nftw path w) (watching.visits path w);
    inotify_init_keeps = watching.init_keeps;
    add_watch_keeps = watching.add_keeps;
    rm_watch_keeps = watching.rm_keeps;
    create_empty_files_keeps = λ dest src w w' h i.
        returned_keeps (create_empty_files sys dest (some src) w) w'
          (create_empty_files-Kept sys _ _ Inv Writes kept dest (some src) w h i);
    copy_files_keeps = λ dest src w w' h i.
        returned_keeps (copy_files sys dest pair.target_full src w) w' (
          copy_files-Good sys _ _ Inv Writes kept dest pair.target_full src w (Spot-Within dest h)
            i);
    attribs_keeps = λ dest src w w' h i.
        returned_keeps (copy_permissions_and_attributes sys src dest w) w'
          (copy_permissions_and_attributes-Kept sys _ _ Inv Writes kept src dest w h i);
    delete_multi_keeps = λ dest w w' h i.
        returned_keeps (del_handling sys dest w) w'
          (del_handling-Kept sys _ _ Inv Writes kept dest w h i);
    move_all_keeps = λ dest suffix w w' h b i.
        returned_keeps (move_all sys dest pair.target_full suffix w) w' (
          move_all-Good sys _ _ Inv Writes kept dest pair.target_full suffix w (Spot-Within dest h)
            (suffix_in suffix b) i);
    backup_walk_keeps = λ path flag w w' h i.
        returned_keeps (backup_walk sys pair.source_full pair.target_full path flag w) w' (
          backup_walk-Good sys _ _ Inv Writes kept pair.source_full pair.target_full path flag w
            (λ new e.
              Spot-Within new
                (get_path_to_target-Within pair.source_full pair.target_full path new trimmed h e))
            i);
  }

  -- Where the child has not ended, the property holds of its world.
  abbrev pub WorldKept : Outcome (State (files_of sys) pair) → Type 0
  WorldKept (ok s) = Inv s.world
  WorldKept exited = Unit
  WorldKept fault = Unit

  world_kept :
      (m : Outcome (State (files_of sys) pair))
      → SafeResult (files_of sys) pair Inv files_of-IsConfined m
      → WorldKept m
  world_kept (ok s) h = h.world
  world_kept exited h = tt
  world_kept fault h = tt

  -- A child whose target does not end in a slash keeps every property of the files that the system
  -- calls keep when they change paths of the target and make directories above it, through the
  -- initial backup and any number of rounds, whatever the reads of the events give, up to where
  -- the process ends.
  pub child_loop-confined :
      (rs : List (Round (files_of sys) pair)) (w : sys.World)
      → Inv w
      → WorldKept (child_loop (files_of sys) pair rs w)
  child_loop-confined rs w i =
      world_kept (child_loop (files_of sys) pair rs w)
        (child_loop-SafeResult (files_of sys) pair Inv files_of-IsConfined rs w i)
