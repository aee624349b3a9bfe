-- ===== src/Restore.antt =====
-- src/restore.c, over the system calls: the walk of the backup that copies what differs, and the walk
-- of the source that deletes what the backup does not have; and the part of `restore` in src/main.c
-- that resolves the two paths.
pub mod Copies
pub mod Missing
pub mod Confined
pub mod Contents
pub mod Lost
use unix_backup_c.Common.{
  Bool, true, false, not, ◌&&◌, ◌||◌, Option, none, some, List, [], ◌∷◌, ◌==◌, if◌then◌else◌,
}
use unix_backup_c.Common.Bytes.{Bytes}
use unix_backup_c.System.{
  eexist, enoent, enotempty, eacces, exdev, other, Reply, done, failed, Stat, is_dir, is_reg,
  is_lnk, ftw_d, ftw_f, ftw_sl, ftw_other, Visit, Sys,
}
use unix_backup_c.Outcome.{Outcome, ok, and_then}
use unix_backup_c.Paths.{concat, get_end_suffix}
use unix_backup_c.FileOps.{
  make_path, checked_mkdir, copy_permissions_and_attributes, recursive_deleter,
}
use unix_backup_c.FileOps.Copies.{copy}

-- Whether the entry at the destination is of another kind than the backup's, and deleted first.
unfoldable pub other_kind : Stat → Stat → Bool
other_kind s st = is_reg s && not (is_reg st) || is_lnk s && not (is_lnk st)

-- Whether an entry of the same kind has to be copied again.
unfoldable pub differs : Stat → Stat → Bool
differs s st =
    if is_reg s
    then not (s.size == st.size) || not (s.mtime == st.mtime)
    else if is_lnk s
    then not (s.mtime == st.mtime)
    else false

-- `need_copy`, by what `lstat` says of the destination.
unfoldable pub need_copy : Stat → Reply Stat → Bool
need_copy s (done st) = other_kind s st || differs s st
need_copy s (failed eexist) = false
need_copy s (failed enoent) = true
need_copy s (failed enotempty) = false
need_copy s (failed eacces) = false
need_copy s (failed exdev) = false
need_copy s (failed other) = false

-- What `delete_missing` does with an entry, by what `lstat` says of its partner in the backup.
unfoldable pub is_missing : Stat → Reply Stat → Bool
is_missing s (done st) = not (s.mode == st.mode)
is_missing s (failed eexist) = false
is_missing s (failed enoent) = true
is_missing s (failed enotempty) = false
is_missing s (failed eacces) = false
is_missing s (failed exdev) = false
is_missing s (failed other) = false

module _ (sys : Sys) where
  open sys use {World, lstat, nftw, nftw_depth}

  -- `if (exists && …) recursive_deleter(dest_path);`
  unfoldable pub clear_if : (Stat → Bool) → Reply Stat → Bytes → World → Outcome World
  clear_if test (failed e) dest w = ok w
  clear_if test (done st) dest w = elim (test st) [
    | true ↦ recursive_deleter sys dest w
    | false ↦ ok w
  ]

  -- The branch of a directory.
  unfoldable pub restore_dir : Bytes → Bytes → World → Outcome World
  restore_dir path dest w = and_then (clear_if (λ st. not (is_dir st)) (lstat dest w) dest w) λ w1.
      and_then (make_path sys dest w1)
        λ w2. and_then (checked_mkdir sys dest w2) (copy_permissions_and_attributes sys path dest)

  -- The branch of a file or a link.
  unfoldable pub restore_file : Bytes → Bytes → Bytes → Bytes → Stat → World → Outcome World
  restore_file source target path dest s w =
      let found = lstat dest w in
      and_then (clear_if (other_kind s) found dest w) λ w1. elim (need_copy s found) [
        | true ↦ and_then (make_path sys dest w1) (copy sys path dest (some target) (some source))
        | false ↦ ok w1
      ]

  -- `restorer`, with `_source_path` and `_target_path`.
  unfoldable pub restorer : Bytes → Bytes → Visit → World → Outcome World
  restorer source target v w =
      let dest = concat (some source) (get_end_suffix (some target) (some v.path)) in
      elim v.flag [
        | ftw_d ↦ restore_dir v.path dest w
        | ftw_f ↦ restore_file source target v.path dest v.stat w
        | ftw_sl ↦ restore_file source target v.path dest v.stat w
        | ftw_other ↦ ok w
      ]

  -- `delete_missing`; the source itself, whose suffix is empty, stays.
  unfoldable pub delete_missing : Bytes → Bytes → Visit → World → Outcome World
  delete_missing source target v w = elim (get_end_suffix (some source) (some v.path)) [
    | none ↦ ok w
    | some [] ↦ ok w
    | some (c ∷ s) ↦ elim (is_missing v.stat (lstat (concat (some target) (some (c ∷ s))) w)) [
      | true ↦ recursive_deleter sys v.path w
      | false ↦ ok w
    ]
  ]

  -- `nftw` with one of the two, over the visited entries.
  unfoldable pub for_each : (Visit → World → Outcome World) → List Visit → World → Outcome World
  for_each f [] w = ok w
  for_each f (v ∷ vs) w = and_then (f v w) (for_each f vs)

  -- The walk of the source; where nftw fails, nothing happens.
  unfoldable pub delete_all_missing : Bytes → Bytes → World → Outcome World
  delete_all_missing source target w = elim (nftw_depth source w) [
    | none ↦ ok w
    | some visits ↦ for_each (delete_missing source target) visits w
  ]

  unfoldable pub restore_checkpoint : Option Bytes → Option Bytes → World → Outcome World
  restore_checkpoint none target w = ok w
  restore_checkpoint (some source) none w = ok w
  restore_checkpoint (some source) (some target) w =
      and_then (for_each (restorer source target) (nftw target w) w)
        (delete_all_missing source target)

  module _ (realpath : Bytes → World → Reply Bytes) where
    -- The second call of `realpath`; without a result `restore` returns.
    resolve_made : Bytes → World → Outcome (Option Bytes × World)
    resolve_made tok w = elim (realpath tok w) [
      | done path ↦ ok (some path, w)
      | failed e ↦ ok (none, w)
    ]

    -- `realpath` of a token, where a directory that is missing is made. Any other failure, and a
    -- token that is not there, is answered with a message.
    unfoldable pub resolve : Option Bytes → World → Outcome (Option Bytes × World)
    unfolding resolve_made
    resolve none w = ok (none, w)
    resolve (some tok) w = elim (realpath tok w) [
      | done path ↦ ok (some path, w)
      | failed e ↦ elim e [
        | enoent ↦
            and_then (make_path sys tok w)
              λ w1. and_then (checked_mkdir sys tok w1) (resolve_made tok)
        | eexist ↦ ok (none, w)
        | enotempty ↦ ok (none, w)
        | eacces ↦ ok (none, w)
        | exdev ↦ ok (none, w)
        | other ↦ ok (none, w)
      ]
    ]

    -- `restore` with its two tokens, but for the signals, which are in Signals.
    unfoldable pub restore_files : Option Bytes → Option Bytes → World → Outcome World
    restore_files source_tok target_tok w = and_then (resolve source_tok w) λ (real_source, w1).
        elim real_source [
          | none ↦ ok w1
          | some source ↦ and_then (resolve target_tok w1) λ (real_target, w2). elim real_target [
            | none ↦ ok w2
            | some target ↦ restore_checkpoint (some source) (some target) w2
          ]
        ]
