-- ===== src/FileOps/MovesKept.antt =====
-- What the copies of links, the moves, and the walk of the initial backup keep.
use unix_backup_c.Common.{ℕ, ◌-◌, ◌≡◌, inl, inr, Option, none, some, Option-cases}
use unix_backup_c.Common.Bytes.{Bytes}
use unix_backup_c.System.{
  eexist, enoent, enotempty, eacces, exdev, other, Reply-cases, Kind, regular, directory, link,
  special, Flag, ftw_d, ftw_f, ftw_sl, ftw_other, Stat, Sys,
}
use unix_backup_c.Outcome.{Outcome, ok, exited, fault, and_then}
use unix_backup_c.Paths.{concat, get_path_to_target}
use unix_backup_c.FileOps.{checked_mkdir, make_path}
use unix_backup_c.FileOps.Copies.{
  buff_size, copy_file, unlink_old, link_text, copy_link, copy, copy_files, move_all, backup_walk,
}
use unix_backup_c.FileOps.Kept.{
  IsKept, Kept, unless_missing-Kept, checked_mkdir-Kept, make_path-Kept,
}
use unix_backup_c.FileOps.DeletesKept.{del_handling-Kept}
use unix_backup_c.FileOps.CopiesKept.{Place, Keeps, then_keeps, copy_file-Keeps, unlink_old-Keeps}

module _ (sys : Sys) (Makes Inside : Bytes → Type 0) (Inv : sys.World → Type 0)
    (Writes : ℕ → sys.World → Type 0) (kept : IsKept sys Makes Inside Inv Writes) where
  abbrev Good : Outcome sys.World → Type 0
  Good = Keeps sys Makes Inside Inv Writes kept

  abbrev Spot : Bytes → Type 0
  Spot = Place sys Makes Inside Inv Writes kept

  then-Good :
      (m : Outcome sys.World) (f : sys.World → Outcome sys.World)
      → Good m
      → ((w : sys.World) → Inv w → Good (f w))
      → Good (and_then m f)
  then-Good = then_keeps sys Makes Inside Inv Writes kept

  -- The new link and its times.
  abbrev linked : Stat → Bytes → sys.World → Bytes → Outcome sys.World
  linked st path_dest w1 text = elim (sys.symlink text path_dest w1) [
    | none ↦ exited
    | some w2 ↦ elim (sys.utimensat_link path_dest st.atime st.mtime w2) [
      | none ↦ exited
      | some w3 ↦ ok w3
    ]
  ]

  linked-Good :
      (st : Stat) (p : Bytes) (w1 : sys.World) (text : Bytes)
      → Inside p
      → Inv w1
      → Good (linked st p w1 text)
  linked-Good st p w1 text d i = elim (Option-cases (sys.symlink text p w1)) [
    | inl refused ↦ rw (refused, Good, Keeps, Kept) tt
    | inr (w2, made) ↦
        let i2 = kept.symlink_keeps text p w1 w2 d i made in
        elim (Option-cases (sys.utimensat_link p st.atime st.mtime w2)) [
          | inl refused ↦ rw (made, refused, Good, Keeps, Kept) tt
          | inr (w3, timed) ↦
              rw (made, timed, Good, Keeps, Kept)
                (kept.utimensat_link_keeps p st.atime st.mtime w2 w3 d i2 timed)
        ]
  ]

  with_text :
      (m : Outcome Bytes) (f : Bytes → Outcome sys.World)
      → ((text : Bytes) → Good (f text))
      → Good (and_then m f)
  with_text (ok text) f h = h text
  with_text exited f h = tt
  with_text fault f h = tt

  read_link :
      (st : Stat) (bs bt : Option Bytes) (from p : Bytes) (w1 : sys.World)
      → Inside p
      → Inv w1
      → Good (elim (sys.readlink from (buff_size - 1) w1) [
        | none ↦ exited
        | some buff ↦ and_then (link_text bs bt buff) (linked st p w1)
      ])
  read_link st bs bt from p w1 d i1 = elim (Option-cases (sys.readlink from (buff_size - 1) w1)) [
    | inl refused ↦ rw (refused, Good, Keeps, Kept) tt
    | inr (buff, text) ↦
        rw (text, Good, Keeps, Kept)
          (with_text (link_text bs bt buff) (linked st p w1) (λ new. linked-Good st p w1 new d i1))
  ]

  copy_link-Good :
      (bs bt : Option Bytes) (from p : Bytes) (w : sys.World)
      → Inside p
      → Inv w
      → Good (copy_link sys bs bt from p w)
  unfolding copy_link
  copy_link-Good bs bt from p w d i = elim (Reply-cases (sys.lstat from w)) [
    | inr (e, refused) ↦ rw (refused, Good, Keeps, Kept) tt
    | inl (st, found) ↦
        rw (found, Good, Keeps, Kept)
          (then-Good (unlink_old sys p w) _
            (unlink_old-Keeps sys Makes Inside Inv Writes kept p w d i)
            (λ w1 i1. read_link st bs bt from p w1 d i1))
  ]

  pub copy-Good :
      (from p : Bytes) (bs bt : Option Bytes) (w : sys.World)
      → Spot p
      → Inv w
      → Good (copy sys from p bs bt w)
  unfolding copy
  copy-Good from p bs bt w place i = elim (Reply-cases (sys.lstat from w)) [
    | inr (e, refused) ↦
        rw (refused, Good, Keeps, Kept) (unless_missing-Kept sys Makes Inside Inv Writes kept e w i)
    | inl (st, found) ↦ rw (found, Good, Keeps, Kept) (by_kind st.kind)
  ]
    where
      by_kind :
          (k : Kind)
          → Good (elim k [
            | link ↦ copy_link sys bs bt from p w
            | regular ↦ copy_file sys from p w
            | directory ↦ ok w
            | special ↦ ok w
          ])
      by_kind link = copy_link-Good bs bt from p w place.inside i
      by_kind regular = copy_file-Keeps sys Makes Inside Inv Writes kept from p w place i
      by_kind directory = i
      by_kind special = i

  pub copy_files-Good :
      (p target from : Bytes) (w : sys.World)
      → Spot p
      → Inv w
      → Good (copy_files sys p target from w)
  unfolding copy_files
  copy_files-Good p target from w place i = copy-Good from p none (some target) w place i

  pub move_all-Good :
      (p target suffix : Bytes) (w : sys.World)
      → Spot p
      → Inside (concat (some target) (some suffix))
      → Inv w
      → Good (move_all sys p target suffix w)
  unfolding move_all
  move_all-Good p target suffix w place from i =
      let src = concat (some target) (some suffix) in
      then-Good (make_path sys p w) _
        (make_path-Kept sys Makes Inside Inv Writes kept p w place.parents i)
        (λ w1 i1. elim (Reply-cases (sys.rename src p w1)) [
          | inl (w2, moved) ↦
              rw (moved, Good, Keeps, Kept)
                (kept.rename_keeps src p w1 w2 from place.inside i1 moved)
          | inr (exdev, e) ↦
              rw (e, Good, Keeps, Kept)
                (then-Good (copy sys src p none (some target) w1) _
                  (copy-Good src p none (some target) w1 place i1)
                  (λ w2 i2. del_handling-Kept sys Makes Inside Inv Writes kept src w2 from i2))
          | inr (enoent, e) ↦ rw (e, Good, Keeps, Kept) i1
          | inr (eexist, e) ↦ rw (e, Good, Keeps, Kept) tt
          | inr (enotempty, e) ↦ rw (e, Good, Keeps, Kept) tt
          | inr (eacces, e) ↦ rw (e, Good, Keeps, Kept) tt
          | inr (other, e) ↦ rw (e, Good, Keeps, Kept) tt
        ])

  pub backup_walk-Good :
      (source target path : Bytes) (flag : Flag) (w : sys.World)
      → ((new : Bytes) → get_path_to_target source target path ≡ some new → Spot new)
      → Inv w
      → Good (backup_walk sys source target path flag w)
  unfolding backup_walk
  backup_walk-Good source target path flag w place i =
      elim (Option-cases (get_path_to_target source target path)) [
        | inl overread ↦ rw (overread, Good, Keeps, Kept) tt
        | inr (new, mirrored) ↦
            rw (mirrored, Good, Keeps, Kept) (by_flag new (place new mirrored) flag)
      ]
    where
      by_flag :
          (new : Bytes)
          → Spot new
          → (f : Flag)
          → Good (elim f [
            | ftw_d ↦ checked_mkdir sys new w
            | ftw_f ↦ copy sys path new (some source) (some target) w
            | ftw_sl ↦ copy_link sys (some source) (some target) path new w
            | ftw_other ↦ ok w
          ])
      by_flag new spot ftw_d =
          checked_mkdir-Kept sys Makes Inside Inv Writes kept new w
            (kept.makes_inside new spot.inside) i
      by_flag new spot ftw_f = copy-Good path new (some source) (some target) w spot i
      by_flag new spot ftw_sl = copy_link-Good (some source) (some target) path new w spot.inside i
      by_flag new spot ftw_other = i
