-- ===== src/Restore/Confined.antt =====
-- What a restore changes: nothing outside the source.
use unix_backup_c.Common.{
  ℕ, sym, ap, ◌∙◌, inl, inr, Bool, some, List, [], ◌∷◌, Bool-cases, Option-cases, All,
}
use unix_backup_c.Common.Bytes.{Bytes}
use mathlib.Core.List.{append-nil}
use unix_backup_c.System.{
  Reply, done, failed, Flag, ftw_d, ftw_f, ftw_sl, ftw_other, Visit, Sys, Stat,
}
use unix_backup_c.Outcome.{Outcome, ok, and_then}
use unix_backup_c.Paths.{concat, get_end_suffix}
use unix_backup_c.Paths.Inside.{Within}
use unix_backup_c.Paths.Suffix.{concat-get_end_suffix}
use unix_backup_c.FileOps.{make_path, checked_mkdir, recursive_deleter}
use unix_backup_c.FileOps.Kept.{
  IsKept, Kept, and_then-Kept, checked_mkdir-Kept, make_path-Kept,
  copy_permissions_and_attributes-Kept,
}
use unix_backup_c.FileOps.DeletesKept.{recursive_deleter-Kept}
use unix_backup_c.FileOps.MovesKept.{copy-Good}
use unix_backup_c.FileOps.Places.{IsMade, IsPlace-Within}
use unix_backup_c.Restore.{
  need_copy, other_kind, is_missing, clear_if, restore_dir, restore_file, restorer, delete_missing,
  for_each, delete_all_missing, restore_checkpoint,
}

module _ (sys : Sys) (source : Bytes) (Inv : sys.World → Type 0) (Writes : ℕ → sys.World → Type 0)
    (kept : IsKept sys (IsMade source) (Within source) Inv Writes) where
  abbrev Keeps : Outcome sys.World → Type 0
  Keeps = Kept sys (IsMade source) (Within source) Inv Writes kept

  then_keeps :
      (m : Outcome sys.World) (f : sys.World → Outcome sys.World)
      → Keeps m
      → ((w : sys.World) → Inv w → Keeps (f w))
      → Keeps (and_then m f)
  then_keeps = and_then-Kept sys (IsMade source) (Within source) Inv Writes kept

  pub made : (p : Bytes) (w : sys.World) → Within source p → Inv w → Keeps (make_path sys p w)
  made p w h i =
      make_path-Kept sys (IsMade source) (Within source) Inv Writes kept p w
        (IsPlace-Within sys source Inv Writes kept p h).parents i

  deleted :
      (p : Bytes) (w : sys.World) → Within source p → Inv w → Keeps (recursive_deleter sys p w)
  deleted = recursive_deleter-Kept sys (IsMade source) (Within source) Inv Writes kept

  pub clear_if-Keeps :
      (test : Stat → Bool) (r : Reply Stat) (p : Bytes) (w : sys.World)
      → Within source p
      → Inv w
      → Keeps (clear_if sys test r p w)
  unfolding clear_if
  clear_if-Keeps test (failed e) p w h i = i
  clear_if-Keeps test (done st) p w h i = elim (Bool-cases (test st)) [
    | inl cleared ↦ rw (cleared, Keeps, Kept) (deleted p w h i)
    | inr left ↦ rw (left, Keeps, Kept) i
  ]

  restore_dir-Keeps :
      (path p : Bytes) (w : sys.World) → Within source p → Inv w → Keeps (restore_dir sys path p w)
  unfolding restore_dir
  restore_dir-Keeps path p w h i =
      then_keeps _ _ (clear_if-Keeps _ (sys.lstat p w) p w h i) λ w1 i1.
        then_keeps (make_path sys p w1) _ (made p w1 h i1) λ w2 i2.
          then_keeps (checked_mkdir sys p w2) _
            (checked_mkdir-Kept sys (IsMade source) (Within source) Inv Writes kept p w2 (inl h) i2)
            λ w3 i3.
              copy_permissions_and_attributes-Kept sys (IsMade source) (Within source) Inv Writes
                kept path p w3 h i3

  restore_file-Keeps :
      (target path p : Bytes) (s : Stat) (w : sys.World)
      → Within source p
      → Inv w
      → Keeps (restore_file sys source target path p s w)
  unfolding restore_file
  restore_file-Keeps target path p s w h i =
      then_keeps _ _ (clear_if-Keeps (other_kind s) (sys.lstat p w) p w h i) λ w1 i1.
        elim (Bool-cases (need_copy s (sys.lstat p w))) [
          | inl needed ↦
              rw (needed, Keeps, Kept)
                (then_keeps (make_path sys p w1) _ (made p w1 h i1) (λ w2 i2.
                  copy-Good sys (IsMade source) (Within source) Inv Writes kept path p (some target)
                    (some source) w2 (IsPlace-Within sys source Inv Writes kept p h) i2))
          | inr current ↦ rw (current, Keeps, Kept) i1
        ]

  dest_in :
      (target path : Bytes)
      → Within target path
      → Within source (concat (some source) (get_end_suffix (some target) (some path)))
  dest_in target path (rest, e, b) = (
    rest,
    ap (λ p. concat (some source) (get_end_suffix (some target) (some p))) e
        ∙ concat-get_end_suffix target source rest,
    b,
  )

  restorer-Keeps :
      (target : Bytes) (v : Visit) (w : sys.World)
      → Within target v.path
      → Inv w
      → Keeps (restorer sys source target v w)
  unfolding restorer
  restorer-Keeps target v w h i = by_flag v.flag
    where
      by_flag :
          (f : Flag)
          → Keeps (elim f [
            | ftw_d ↦
                restore_dir sys v.path
                  (concat (some source) (get_end_suffix (some target) (some v.path)))
                  w
            | ftw_f ↦
                restore_file sys source target v.path
                  (concat (some source) (get_end_suffix (some target) (some v.path)))
                  v.stat
                  w
            | ftw_sl ↦
                restore_file sys source target v.path
                  (concat (some source) (get_end_suffix (some target) (some v.path)))
                  v.stat
                  w
            | ftw_other ↦ ok w
          ])
      by_flag ftw_d = restore_dir-Keeps v.path _ w (dest_in target v.path h) i
      by_flag ftw_f = restore_file-Keeps target v.path _ v.stat w (dest_in target v.path h) i
      by_flag ftw_sl = restore_file-Keeps target v.path _ v.stat w (dest_in target v.path h) i
      by_flag ftw_other = i

  delete_missing-Keeps :
      (target : Bytes) (v : Visit) (w : sys.World)
      → Within source v.path
      → Inv w
      → Keeps (delete_missing sys source target v w)
  unfolding delete_missing
  delete_missing-Keeps target v w h i =
      elim (Option-cases (get_end_suffix (some source) (some v.path))) [
        | inl nothing ↦ rw (nothing, Keeps, Kept) i
        | inr ([], itself) ↦ rw (itself, Keeps, Kept) i
        | inr (c ∷ rest, suffix) ↦
            elim (Bool-cases
              (is_missing v.stat (sys.lstat (concat (some target) (some (c ∷ rest))) w))) [
                | inl gone ↦ rw (suffix, gone, Keeps, Kept) (deleted v.path w h i)
                | inr there ↦ rw (suffix, there, Keeps, Kept) i
              ]
      ]

  for_each-Keeps :
      (f : Visit → sys.World → Outcome sys.World) (Ok : Visit → Type 0) (vs : List Visit)
      (w : sys.World)
      → ((v : Visit) (w : sys.World) → Ok v → Inv w → Keeps (f v w))
      → All Ok vs
      → Inv w
      → Keeps (for_each sys f vs w)
  unfolding for_each
  for_each-Keeps f Ok [] w each all i = i
  for_each-Keeps f Ok (v ∷ vs) w each (h, all) i =
      then_keeps (f v w) _ (each v w h i) (λ w' i'. for_each-Keeps f Ok vs w' each all i')

  delete_all_missing-Keeps :
      (target : Bytes) (w : sys.World) → Inv w → Keeps (delete_all_missing sys source target w)
  unfolding delete_all_missing
  delete_all_missing-Keeps target w i = elim (Option-cases (sys.nftw_depth source w)) [
    | inl refused ↦ rw (refused, Keeps, Kept) i
    | inr (vs, found) ↦
        rw (found, Keeps, Kept)
          (for_each-Keeps (delete_missing sys source target) (λ v. Within source v.path) vs w
            (delete_missing-Keeps target)
            (kept.visits_inside source w vs ([], sym (append-nil source), tt) found) i)
  ]

  -- A restore of a backup, whose walk visits nothing outside the backup, keeps every property of
  -- the files that the system calls keep when they change paths of the source and make directories
  -- above it, up to where the process ends.
  pub restore_checkpoint-confined :
      (target : Bytes) (w : sys.World)
      → All (λ v. Within target v.path) (sys.nftw target w)
      → Inv w
      → Kept sys
          (IsMade source)
          (Within source)
          Inv
          Writes
          kept
          (restore_checkpoint sys (some source) (some target) w)
  unfolding restore_checkpoint
  restore_checkpoint-confined target w visits i =
      then_keeps (for_each sys (restorer sys source target) (sys.nftw target w) w) _
        (for_each-Keeps (restorer sys source target) (λ v. Within target v.path) (sys.nftw target w)
          w (restorer-Keeps target) visits i)
        (λ w' i'. delete_all_missing-Keeps target w' i')
