-- ===== src/FileOps.antt =====
-- The operations of src/generic_file_functions.c that make and remove directories and files, over
-- the system calls. Copies are in FileOps.Copies.
pub mod Parents
pub mod Copies
pub mod Streams
pub mod Storage
pub mod Targets
pub mod Reads
pub mod Contents
pub mod Removals
pub mod Kept
pub mod DeletesKept
pub mod CopiesKept
pub mod MovesKept
pub mod Places
use unix_backup_c.Common.{
  ℕ, zero, suc, ◌+◌, ◌-◌, ◌*◌, ◌/◌, ◌%◌, ◌^◌, ◌≤◌, ◌<◌, ◌≡◌, refl, sym, ap, ◌∙◌, ◌≢◌, ◌↔◌, ◌⊎◌, inl,
  inr, Bool, true, false, not, ◌&&◌, ◌||◌, Option, none, some, List, [], ◌∷◌, ◌++◌, map, arith, ltb,
  leb, ◌==◌, ==_iff, ==_refl, ==_false_sym, ==_ne, &&_split, ||_split, ◌>>=◌, >>=-eq-some, is_some,
  if◌then◌else◌, Bool-cases, Option-cases, length, get_elem?, take, drop, length-append,
  length-drop, drop-length_plus, drop-plus, drop_of_length, take-append-drop, drop-length-append,
  All, All-append,
}
use unix_backup_c.Common.Bytes.{
  Bytes, bytes, char_at, str_eq, starts_with, str_eq_sound, str_eq_refl, starts_with-append,
  starts_with_sound, char_at-length-append,
}
use mathlib.Core.List.{append-nil, append_assoc, map-append}
use mathlib.Core.Path.{subst}
use unix_backup_c.System.{
  Errno, eexist, enoent, enotempty, eacces, exdev, other, Reply, done, failed, Stat, is_dir, Visit,
  Sys,
}
use unix_backup_c.Outcome.{Outcome, ok, exited, fault, and_then}
use unix_backup_c.Paths.{slash}

-- `if (errno != ENOENT) ERR(…);`
unfoldable pub unless_missing {ℓ} : {A : Type ℓ} → Errno → A → Outcome A
unless_missing eexist a = exited
unless_missing enoent a = ok a
unless_missing enotempty a = exited
unless_missing eacces a = exited
unless_missing exdev a = exited
unless_missing other a = exited

module _ (sys : Sys) where
  open sys use {
    World, stat, mkdir, remove, chmod, utimensat, open_write, close, entries, nftw_depth,
  }

  -- `stat` has to find a directory.
  unfoldable pub check_dir : Bytes → World → Outcome World
  check_dir path w = elim (stat path w) [
    | none ↦ exited
    | some st ↦ if is_dir st then ok w else exited
  ]

  -- `checked_mkdir`
  unfoldable pub checked_mkdir : Bytes → World → Outcome World
  checked_mkdir path w = elim (mkdir path w) [
    | done w' ↦ check_dir path w'
    | failed e ↦ elim e [
      | eexist ↦ check_dir path w
      | enoent ↦ exited
      | enotempty ↦ exited
      | eacces ↦ exited
      | exdev ↦ exited
      | other ↦ exited
    ]
  ]

  -- The loop of `make_path` over the bytes from `p` on, behind those of `made`.
  unfoldable pub make_parents : Bytes → Bytes → World → Outcome World
  make_parents made [] w = ok w
  make_parents made (c ∷ s) w = elim (c == slash) [
    | true ↦ and_then (checked_mkdir made w) (make_parents (made ++ (c ∷ [])) s)
    | false ↦ make_parents (made ++ (c ∷ [])) s w
  ]

  -- `make_path`; the loop starts behind the first byte, which an empty path does not have.
  unfoldable pub make_path : Bytes → World → Outcome World
  make_path [] w = fault
  make_path (c ∷ s) w = make_parents (c ∷ []) s w

  -- `is_empty_dir`, `true` for 0 and `false` for -1.
  unfoldable pub is_empty_dir : Bytes → World → Outcome (Bool × World)
  is_empty_dir path w = elim (stat path w) [
    | none ↦
        and_then (make_path path w) λ w'. and_then (checked_mkdir path w') λ w''. ok (true, w'')
    | some st ↦
        if is_dir st
        then elim (entries path w) [ none ↦ ok (false, w) | some n ↦ ok (n == 2, w) ]
        else ok (false, w)
  ]

  unfoldable pub copy_permissions_and_attributes : Bytes → Bytes → World → Outcome World
  copy_permissions_and_attributes source dest w = elim (stat source w) [
    | none ↦ exited
    | some st ↦ elim (chmod dest (st.mode % 4096) w) [
      | none ↦ exited
      | some w' ↦ elim (utimensat dest st.mtime w') [ none ↦ exited | some w'' ↦ ok w'' ]
    ]
  ]

  unfoldable pub create_empty_files : Bytes → Option Bytes → World → Outcome World
  create_empty_files dest source w = elim (open_write dest w) [
    | none ↦ exited
    | some (fd, w1) ↦
        let shut = close fd w1 in
        elim shut.0 [
          | false ↦ exited
          | true ↦ elim source [
            | none ↦ ok shut.1
            | some path ↦ copy_permissions_and_attributes path dest shut.1
          ]
        ]
  ]

  -- `remove`, where a missing entry is no error.
  unfoldable pub deleter : Bytes → World → Outcome World
  deleter path w = elim (remove path w) [ done w' ↦ ok w' | failed e ↦ unless_missing e w ]

  unfoldable pub delete_all : List Visit → World → Outcome World
  delete_all [] w = ok w
  delete_all (v ∷ vs) w = and_then (deleter v.path w) (delete_all vs)

  unfoldable pub recursive_deleter : Bytes → World → Outcome World
  recursive_deleter path w = elim (nftw_depth path w) [
    | none ↦ exited
    | some visits ↦ delete_all visits w
  ]

  unfoldable pub del_handling : Bytes → World → Outcome World
  del_handling path w = elim (remove path w) [
    | done w' ↦ ok w'
    | failed e ↦ elim e [
      | enotempty ↦ and_then (recursive_deleter path w) (deleter path)
      | enoent ↦ ok w
      | eexist ↦ exited
      | eacces ↦ exited
      | exdev ↦ exited
      | other ↦ exited
    ]
  ]
