-- ===== src/FileOps/Copies.antt =====
-- The operations of src/generic_file_functions.c that copy and move files and links. A loop that does
-- not end is a `fault`, as is a read behind the end of a string.
use unix_backup_c.Common.{
  ℕ, zero, suc, ◌+◌, ◌-◌, ◌&&◌, Option, none, some, [], ◌∷◌, ltb, ◌==◌, is_some, if◌then◌else◌,
  length, drop,
}
use unix_backup_c.Common.Bytes.{Bytes}
use unix_backup_c.Paths.{last_char, strip_trail}
use unix_backup_c.FileOps.{unless_missing}
use unix_backup_c.System.{
  eexist, enoent, enotempty, eacces, exdev, other, done, failed, regular, directory, link, special,
  Flag, ftw_d, ftw_f, ftw_sl, ftw_other, Sys,
}
use unix_backup_c.Outcome.{Outcome, ok, exited, fault, and_then}
use unix_backup_c.Paths.{slash, concat, is_target_in_source, get_path_to_target}
use unix_backup_c.FileOps.{checked_mkdir, make_path, copy_permissions_and_attributes, del_handling}

-- The part of a path in front of its last slash, by `strrchr`.
unfoldable pub dir_of : Bytes → Option Bytes
dir_of [] = none
dir_of (c ∷ s) = elim (dir_of s) [
  | some dir ↦ some (c ∷ dir)
  | none ↦ if c == slash then some [] else none
]

-- `sizeof(buff)` in `copy_file` and `copy_link`
abbrev pub buff_size : ℕ
buff_size = 1024

-- `get_path_to_target` on the text in its buffer. `is_target_in_source` strips a leading slash of
-- the source, so the text may be one byte shorter than it. What is read behind it is then a byte of
-- the buffer, and for each value of this byte the result is the target without a slash at its end.
unfoldable text_in_target : Bytes → Bytes → Bytes → Outcome Bytes
text_in_target source target text = elim (get_path_to_target source target text) [
  | some new ↦ ok new
  | none ↦
      if ltb (length text) (length source) && is_some (last_char target)
      then ok (strip_trail target)
      else fault
]

-- The text of the new link: a link into the source goes to the same place in the target.
unfoldable pub link_text : Option Bytes → Option Bytes → Bytes → Outcome Bytes
unfolding text_in_target
link_text none target text = ok text
link_text (some source) target text =
    if is_target_in_source (some source) (some text)
    then elim target [ none ↦ fault | some t ↦ text_in_target source t text ]
    else ok text

module _ (sys : Sys) where
  open sys use {
    World, lstat, unlink, rename, utimensat_link, readlink, symlink, open_read, open_write, read,
    write, close, unread,
  }

  -- `while (offset < r)`, over the bytes from `offset` on.
  unfoldable pub write_all : ℕ → ℕ → Bytes → World → Outcome World
  write_all fuel fd [] w = ok w
  write_all zero fd (c ∷ s) w = fault
  write_all (suc fuel) fd (c ∷ s) w = elim (write fd (c ∷ s) w) [
    | none ↦ exited
    | some (n, w') ↦ write_all fuel fd (drop n (c ∷ s)) w'
  ]

  -- `while ((r = read(…)) > 0)`; a write needs a round for each byte at most.
  unfoldable pub copy_bytes : ℕ → ℕ → ℕ → World → Outcome World
  copy_bytes zero read_fd write_fd w = fault
  copy_bytes (suc fuel) read_fd write_fd w = elim (read read_fd buff_size w) [
    | none ↦ exited
    | some ([], w') ↦ ok w'
    | some (c ∷ s, w') ↦
        and_then (write_all (length (c ∷ s)) write_fd (c ∷ s) w') (copy_bytes fuel read_fd write_fd)
  ]

  -- The part of `copy_file` that makes the directory of the destination.
  unfoldable pub make_dir_of : Bytes → World → Outcome World
  unfolding dir_of
  make_dir_of path w = elim (dir_of path) [
    | none ↦ ok w
    | some dir ↦ and_then (make_path sys dir w) (checked_mkdir sys dir)
  ]

  -- The rest of it, with the loop; a round passes a byte at least.
  unfoldable pub copy_data : Bytes → Bytes → World → Outcome World
  copy_data path1 path2 w = elim (open_read path1 w) [
    | none ↦ exited
    | some (read_fd, w1) ↦ elim (open_write path2 w1) [
      | none ↦ exited
      | some (write_fd, w2) ↦
          and_then (copy_bytes (length (unread read_fd w2) + 1) read_fd write_fd w2) λ w3.
            copy_permissions_and_attributes sys path1 path2 (close write_fd (close read_fd w3).1).1
    ]
  ]

  unfoldable pub copy_file : Bytes → Bytes → World → Outcome World
  copy_file path1 path2 w = and_then (make_dir_of path2 w) (copy_data path1 path2)

  -- `if (unlink(path_dest) == -1 && errno != ENOENT) ERR("unlink");`
  unfoldable pub unlink_old : Bytes → World → Outcome World
  unlink_old path w = elim (unlink path w) [ done w' ↦ ok w' | failed e ↦ unless_missing e w ]

  -- `copy_link`, with `_source` and `_target`.
  unfoldable pub copy_link : Option Bytes → Option Bytes → Bytes → Bytes → World → Outcome World
  copy_link source target path_where path_dest w = elim (lstat path_where w) [
    | failed e ↦ exited
    | done st ↦ and_then (unlink_old path_dest w) λ w1.
        elim (readlink path_where (buff_size - 1) w1) [
          | none ↦ exited
          | some buff ↦ and_then (link_text source target buff) λ text.
              elim (symlink text path_dest w1) [
                | none ↦ exited
                | some w2 ↦ elim (utimensat_link path_dest st.atime st.mtime w2) [
                  | none ↦ exited
                  | some w3 ↦ ok w3
                ]
              ]
        ]
  ]

  -- `copy`; a missing entry is passed over.
  unfoldable pub copy : Bytes → Bytes → Option Bytes → Option Bytes → World → Outcome World
  copy source dest backup_source backup_target w = elim (lstat source w) [
    | failed e ↦ unless_missing e w
    | done st ↦ elim st.kind [
      | link ↦ copy_link backup_source backup_target source dest w
      | regular ↦ copy_file source dest w
      | directory ↦ ok w
      | special ↦ ok w
    ]
  ]

  -- `copy_files(dest, target, _, src)`, by `target_full`
  unfoldable pub copy_files : Bytes → Bytes → Bytes → World → Outcome World
  copy_files dest target source w = copy source dest none (some target) w

  -- `move_all(dest, target, _, suffix)`, by `target_full`
  unfoldable pub move_all : Bytes → Bytes → Bytes → World → Outcome World
  move_all dest target suffix w =
      let src_path = concat (some target) (some suffix) in
      and_then (make_path sys dest w) λ w1. elim (rename src_path dest w1) [
        | done w2 ↦ ok w2
        | failed e ↦ elim e [
          | exdev ↦ and_then (copy src_path dest none (some target) w1) (del_handling sys src_path)
          | enoent ↦ ok w1
          | eexist ↦ exited
          | enotempty ↦ exited
          | eacces ↦ exited
          | other ↦ exited
        ]
      ]

  -- `backup_walk`, with `_source` and `_target`.
  unfoldable pub backup_walk : Bytes → Bytes → Bytes → Flag → World → Outcome World
  backup_walk source target path flag w = elim (get_path_to_target source target path) [
    | none ↦ fault
    | some path_new ↦ elim flag [
      | ftw_d ↦ checked_mkdir sys path_new w
      | ftw_f ↦ copy path path_new (some source) (some target) w
      | ftw_sl ↦ copy_link (some source) (some target) path path_new w
      | ftw_other ↦ ok w
    ]
  ]
