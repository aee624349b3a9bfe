-- ===== src/FileOps/CopiesKept.antt =====
-- What the copies and moves keep.
use unix_backup_c.Common.{
  ℕ, zero, suc, ◌+◌, ◌≡◌, refl, ap, ◌∙◌, inl, inr, Option, none, some, [], ◌∷◌, ◌++◌, arith, ◌==◌,
  ==_iff, if◌then◌else◌, Bool-cases, Option-cases, length, drop,
}
use unix_backup_c.Common.Bytes.{Bytes}
use mathlib.Core.List.{append_assoc}
use mathlib.Core.Option.{some-injective}
use unix_backup_c.System.{Reply-cases, Sys}
use unix_backup_c.Outcome.{Outcome, ok, exited, fault, and_then}
use unix_backup_c.Paths.{slash}
use unix_backup_c.FileOps.{make_path}
use unix_backup_c.FileOps.Copies.{
  dir_of, buff_size, write_all, copy_bytes, make_dir_of, copy_data, copy_file, unlink_old,
}
use unix_backup_c.FileOps.Kept.{
  IsKept, IsPlace, Kept, and_then-Kept, unless_missing-Kept, checked_mkdir-Kept, make_path-Kept,
  copy_permissions_and_attributes-Kept,
}

abbrev SplitAt : Bytes → Bytes → Type 0
SplitAt p d = (r : Bytes) × (p ≡ d ++ (slash ∷ r))

dir_step :
    (c : ℕ) (s : Bytes) (r : Option Bytes)
    → ((d : Bytes) → r ≡ some d → SplitAt s d)
    → (d : Bytes)
    → (elim r [ some dir ↦ some (c ∷ dir) | none ↦ if c == slash then some [] else none ]) ≡ some d
    → SplitAt (c ∷ s) d
dir_step c s (some d') h d e =
    let (r, split) = h d' refl in
    (r, ap (λ x. c ∷ x) split ∙ ap (λ x. x ++ (slash ∷ r)) (some-injective _ _ e))
dir_step c s none h d e = elim (Bool-cases (c == slash)) [
  | inl at ↦
      let top : [] ≡ d = some-injective _ _ (rw at at e) in
      (s, ap (λ x. x ∷ s) ((==_iff c slash).0 at) ∙ ap (λ x. x ++ (slash ∷ s)) top)
  | inr off ↦ absurd (ground (arith, off, e))
]

-- What `strrchr` finds is a slash of the path.
pub dir_of_lem : (p d : Bytes) → dir_of p ≡ some d → SplitAt p d
unfolding dir_of
dir_of_lem [] d e = cc
dir_of_lem (c ∷ s) d e = dir_step c s (dir_of s) (dir_of_lem s) d e

module _ (sys : Sys) (Makes Inside : Bytes → Type 0) (Inv : sys.World → Type 0)
    (Writes : ℕ → sys.World → Type 0) (kept : IsKept sys Makes Inside Inv Writes) where
  abbrev pub Place : Bytes → Type 0
  Place = IsPlace sys Makes Inside Inv Writes kept

  abbrev pub Keeps : Outcome sys.World → Type 0
  Keeps = Kept sys Makes Inside Inv Writes kept

  pub then_keeps :
      (m : Outcome sys.World) (f : sys.World → Outcome sys.World)
      → Keeps m
      → ((w : sys.World) → Inv w → Keeps (f w))
      → Keeps (and_then m f)
  then_keeps = and_then-Kept sys Makes Inside Inv Writes kept

  -- The same with a descriptor that stays open for writing.
  abbrev KeepsOpen : ℕ → Outcome sys.World → Type 0
  KeepsOpen fd (ok w) = Inv w × Writes fd w
  KeepsOpen fd exited = Unit
  KeepsOpen fd fault = Unit

  and_then-KeepsOpen :
      (fd : ℕ) (m : Outcome sys.World) (f : sys.World → Outcome sys.World)
      → KeepsOpen fd m
      → ((w : sys.World) → Inv w × Writes fd w → KeepsOpen fd (f w))
      → KeepsOpen fd (and_then m f)
  and_then-KeepsOpen fd (ok w) f h k = k w h
  and_then-KeepsOpen fd exited f h k = tt
  and_then-KeepsOpen fd fault f h k = tt

  close_after :
      (fd : ℕ) (m : Outcome sys.World) (f : sys.World → Outcome sys.World)
      → KeepsOpen fd m
      → ((w : sys.World) → Inv w → Keeps (f w))
      → Keeps (and_then m f)
  close_after fd (ok w) f h k = k w h.0
  close_after fd exited f h k = tt
  close_after fd fault f h k = tt

  write_all-KeepsOpen :
      (fuel fd : ℕ) (b : Bytes) (w : sys.World)
      → Inv w × Writes fd w
      → KeepsOpen fd (write_all sys fuel fd b w)
  unfolding write_all
  write_all-KeepsOpen fuel fd [] w i = i
  write_all-KeepsOpen zero fd (c ∷ s) w i = tt
  write_all-KeepsOpen (suc fuel) fd (c ∷ s) w i = elim (Option-cases (sys.write fd (c ∷ s) w)) [
    | inl refused ↦ rw (refused, KeepsOpen) tt
    | inr ((n, w'), wrote) ↦
        rw (wrote, KeepsOpen)
          (write_all-KeepsOpen fuel fd (drop n (c ∷ s)) w'
            (kept.write_keeps fd n w w' (c ∷ s) i wrote))
  ]

  copy_bytes-KeepsOpen :
      (fuel from fd : ℕ) (w : sys.World)
      → Inv w × Writes fd w
      → KeepsOpen fd (copy_bytes sys fuel from fd w)
  unfolding copy_bytes
  copy_bytes-KeepsOpen zero from fd w i = tt
  copy_bytes-KeepsOpen (suc fuel) from fd w i = elim (Option-cases (sys.read from buff_size w)) [
    | inl refused ↦ rw (refused, KeepsOpen) tt
    | inr (([], w'), nothing) ↦
        rw (nothing, KeepsOpen) (kept.read_keeps from buff_size fd w w' [] i nothing)
    | inr ((c ∷ s, w'), chunk) ↦
        rw (chunk, KeepsOpen)
          (and_then-KeepsOpen fd (write_all sys (length (c ∷ s)) fd (c ∷ s) w') _
            (write_all-KeepsOpen (length (c ∷ s)) fd (c ∷ s) w'
              (kept.read_keeps from buff_size fd w w' (c ∷ s) i chunk))
            (copy_bytes-KeepsOpen fuel from fd))
  ]

  make_dir_of-Keeps : (p : Bytes) (w : sys.World) → Place p → Inv w → Keeps (make_dir_of sys p w)
  unfolding make_dir_of make_path
  make_dir_of-Keeps p w place i = elim (Option-cases (dir_of p)) [
    | inl nothing ↦ rw (nothing, Keeps, Kept) i
    | inr ([], at_root) ↦ rw (at_root, Keeps, Kept) tt
    | inr (c ∷ d, found) ↦
        let (r, split) = dir_of_lem p (c ∷ d) found in
        rw (found, Keeps, Kept)
          (then_keeps (make_path sys (c ∷ d) w) _
            (make_path-Kept sys Makes Inside Inv Writes kept (c ∷ d) w
              (λ a b ne e.
                place.parents a (b ++ (slash ∷ r)) ne
                  (split ∙ (ap (λ x. x ++ (slash ∷ r)) e ∙ append_assoc a (slash ∷ b) (slash ∷ r))))
              i)
            (λ w' i'.
              checked_mkdir-Kept sys Makes Inside Inv Writes kept (c ∷ d) w'
                (place.parents (c ∷ d) r (λ e. cc) split) i'))
  ]

  copy_data-Keeps :
      (from p : Bytes) (w : sys.World) → Inside p → Inv w → Keeps (copy_data sys from p w)
  unfolding copy_data
  copy_data-Keeps from p w d i = elim (Option-cases (sys.open_read from w)) [
    | inl refused ↦ rw (refused, Keeps, Kept) tt
    | inr ((read_fd, w1), readable) ↦
        let i1 = kept.open_read_keeps from w w1 read_fd i readable in
        elim (Option-cases (sys.open_write p w1)) [
          | inl refused ↦ rw (readable, refused, Keeps, Kept) tt
          | inr ((fd, w2), writable) ↦
              rw (readable, writable, Keeps, Kept)
                (close_after fd (copy_bytes sys (length (sys.unread read_fd w2) + 1) read_fd fd w2)
                  _
                  (copy_bytes-KeepsOpen _ read_fd fd w2
                    (kept.open_write_keeps p w1 w2 fd d i1 writable))
                  (λ w3 i3.
                    copy_permissions_and_attributes-Kept sys Makes Inside Inv Writes kept from p _ d
                      (kept.close_keeps fd _ (kept.close_keeps read_fd w3 i3))))
        ]
  ]

  pub copy_file-Keeps :
      (from p : Bytes) (w : sys.World) → Place p → Inv w → Keeps (copy_file sys from p w)
  unfolding copy_file
  copy_file-Keeps from p w place i =
      then_keeps (make_dir_of sys p w) _ (make_dir_of-Keeps p w place i)
        (λ w' i'. copy_data-Keeps from p w' place.inside i')

  pub unlink_old-Keeps : (p : Bytes) (w : sys.World) → Inside p → Inv w → Keeps (unlink_old sys p w)
  unfolding unlink_old
  unlink_old-Keeps p w d i = elim (Reply-cases (sys.unlink p w)) [
    | inl (w', gone) ↦ rw (gone, Keeps, Kept) (kept.unlink_keeps p w w' d i gone)
    | inr (e, refused) ↦
        rw (refused, Keeps, Kept) (unless_missing-Kept sys Makes Inside Inv Writes kept e w i)
  ]
