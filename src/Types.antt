-- ===== src/Types.antt =====
-- The structs of src/lists_common.h, without their `next` and `prev`, which Dlist models. A `char
-- *` that can be NULL is an `Option`; `int` and `uint32_t` fields are numbers, and -1 as a process
-- id or as a descriptor is `none`.
use unix_backup_c.Common.{ℕ, Option, List}
use unix_backup_c.Common.Bytes.{Bytes}

-- `Node_wd`: a watch on one directory of the source.
pub record Watch : Type 0 where
  pub wd : ℕ
  pub source_friendly : Bytes
  pub source_full : Bytes
  pub path : Bytes
  pub suffix : Bytes

-- `M_node`: one half of a move, or both.
pub record Move : Type 0 where
  pub cookie : ℕ
  pub move_from : Option Bytes
  pub move_to : Option Bytes
  pub token : ℕ

-- `Ino_Node`: a queued event.
pub record Event : Type 0 where
  pub wd : ℕ
  pub mask : ℕ
  pub cookie : ℕ
  pub len : ℕ
  pub name : Bytes
  pub full_path : Bytes
  pub suffix : Bytes

-- `node_tr`. The child's lists start empty; the parent never fills them.
pub record Target : Type 0 where
  pub target_friendly : Bytes
  pub target_full : Bytes
  pub child_pid : Option ℕ
  pub inotify_fd : Option ℕ
  pub watchers : List Watch
  pub events : List Event
  pub mov_dict : List Move

-- `node_sc`
pub record Source : Type 0 where
  pub source_full : Bytes
  pub source_friendly : Bytes
  pub targets : List Target
