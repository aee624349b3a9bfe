-- ===== src/FileOps/Kept.antt =====
-- What the file operations keep, where every system call that changes files keeps it at the paths
-- that it is allowed.
use unix_backup_c.Common.{
  ℕ, ◌%◌, ◌≡◌, refl, sym, ap, ◌≢◌, inl, inr, Option, some, List, [], ◌∷◌, ◌++◌, ◌==◌, ==_iff,
  Bool-cases, Option-cases, All,
}
use unix_backup_c.Common.Bytes.{Bytes}
use mathlib.Core.List.{append-nil, append_assoc}
use mathlib.Core.Path.{subst}
use unix_backup_c.System.{
  Errno, eexist, enoent, enotempty, eacces, exdev, other, Reply-cases, done, is_dir, Visit, Sys,
}
use unix_backup_c.Outcome.{Outcome, ok, exited, fault, and_then}
use unix_backup_c.Paths.{slash}
use unix_backup_c.FileOps.{
  unless_missing, check_dir, checked_mkdir, make_parents, make_path,
  copy_permissions_and_attributes, create_empty_files,
}

append_ne : (a b : Bytes) → a ≢ [] → a ++ b ≢ []
append_ne [] b ne = absurd (ne refl)
append_ne (c ∷ a) b ne = λ e. cc

-- A property of the files, and of a descriptor that is open for writing, that the system calls keep:
-- at the paths `Makes` for mkdir, at the paths `Inside` for the others.
pub record IsKept (sys : Sys) (Makes Inside : Bytes → Type 0) (Inv : sys.World → Type 0)
    (Writes : ℕ → sys.World → Type 0) : Type 0 where
  pub makes_inside : (p : Bytes) → Inside p → Makes p
  pub visits_inside :
      (p : Bytes) (w : sys.World) (vs : List Visit)
      → Inside p
      → sys.nftw_depth p w ≡ some vs
      → All (λ v. Inside v.path) vs
  pub mkdir_keeps :
      (p : Bytes) (w w' : sys.World) → Makes p → Inv w → sys.mkdir p w ≡ done w' → Inv w'
  pub remove_keeps :
      (p : Bytes) (w w' : sys.World) → Inside p → Inv w → sys.remove p w ≡ done w' → Inv w'
  pub unlink_keeps :
      (p : Bytes) (w w' : sys.World) → Inside p → Inv w → sys.unlink p w ≡ done w' → Inv w'
  pub rename_keeps :
      (p q : Bytes) (w w' : sys.World)
      → Inside p
      → Inside q
      → Inv w
      → sys.rename p q w ≡ done w'
      → Inv w'
  pub chmod_keeps :
      (p : Bytes) (mode : ℕ) (w w' : sys.World)
      → Inside p
      → Inv w
      → sys.chmod p mode w ≡ some w'
      → Inv w'
  pub utimensat_keeps :
      (p : Bytes) (time : ℕ) (w w' : sys.World)
      → Inside p
      → Inv w
      → sys.utimensat p time w ≡ some w'
      → Inv w'
  pub utimensat_link_keeps :
      (p : Bytes) (atime mtime : ℕ) (w w' : sys.World)
      → Inside p
      → Inv w
      → sys.utimensat_link p atime mtime w ≡ some w'
      → Inv w'
  pub symlink_keeps :
      (text p : Bytes) (w w' : sys.World)
      → Inside p
      → Inv w
      → sys.symlink text p w ≡ some w'
      → Inv w'
  pub open_read_keeps :
      (p : Bytes) (w w' : sys.World) (fd : ℕ) → Inv w → sys.open_read p w ≡ some (fd, w') → Inv w'
  pub open_write_keeps :
      (p : Bytes) (w w' : sys.World) (fd : ℕ)
      → Inside p
      → Inv w
      → sys.open_write p w ≡ some (fd, w')
      → Inv w' × Writes fd w'
  pub read_keeps :
      (fd n out : ℕ) (w w' : sys.World) (b : Bytes)
      → Inv w × Writes out w
      → sys.read fd n w ≡ some (b, w')
      → Inv w' × Writes out w'
  pub write_keeps :
      (fd n : ℕ) (w w' : sys.World) (b : Bytes)
      → Inv w × Writes fd w
      → sys.write fd b w ≡ some (n, w')
      → Inv w' × Writes fd w'
  pub close_keeps : (fd : ℕ) (w : sys.World) → Inv w → Inv (sys.close fd w).1

module _ (sys : Sys) (Makes Inside : Bytes → Type 0) (Inv : sys.World → Type 0)
    (Writes : ℕ → sys.World → Type 0) (kept : IsKept sys Makes Inside Inv Writes) where
  -- A path that may be changed, and that has parents that may be made.
  pub record IsPlace (p : Bytes) : Type 0 where
    pub inside : Inside p
    pub parents : (a b : Bytes) → a ≢ [] → p ≡ a ++ (slash ∷ b) → Makes a

  -- Where the operation returns, the property holds.
  abbrev pub Kept : Outcome sys.World → Type 0
  Kept (ok w) = Inv w
  Kept exited = Unit
  Kept fault = Unit

  pub and_then-Kept :
      (m : Outcome sys.World) (f : sys.World → Outcome sys.World)
      → Kept m
      → ((w : sys.World) → Inv w → Kept (f w))
      → Kept (and_then m f)
  and_then-Kept (ok w) f h k = k w h
  and_then-Kept exited f h k = tt
  and_then-Kept fault f h k = tt

  pub unless_missing-Kept : (e : Errno) (w : sys.World) → Inv w → Kept (unless_missing e w)
  unfolding unless_missing
  unless_missing-Kept eexist w i = tt
  unless_missing-Kept enoent w i = i
  unless_missing-Kept enotempty w i = tt
  unless_missing-Kept eacces w i = tt
  unless_missing-Kept exdev w i = tt
  unless_missing-Kept other w i = tt

  check_dir-Kept : (p : Bytes) (w : sys.World) → Inv w → Kept (check_dir sys p w)
  unfolding check_dir
  check_dir-Kept p w i = elim (Option-cases (sys.stat p w)) [
    | inl missing ↦ rw (missing, Kept) tt
    | inr (st, found) ↦ elim (Bool-cases (is_dir st)) [
      | inl dir ↦ rw (found, dir, Kept) i
      | inr file ↦ rw (found, file, Kept) tt
    ]
  ]

  pub checked_mkdir-Kept :
      (p : Bytes) (w : sys.World) → Makes p → Inv w → Kept (checked_mkdir sys p w)
  unfolding checked_mkdir
  checked_mkdir-Kept p w m i = elim (Reply-cases (sys.mkdir p w)) [
    | inl (w', made) ↦ rw (made, Kept) (check_dir-Kept p w' (kept.mkdir_keeps p w w' m i made))
    | inr (eexist, e) ↦ rw (e, Kept) (check_dir-Kept p w i)
    | inr (enoent, e) ↦ rw (e, Kept) tt
    | inr (enotempty, e) ↦ rw (e, Kept) tt
    | inr (eacces, e) ↦ rw (e, Kept) tt
    | inr (exdev, e) ↦ rw (e, Kept) tt
    | inr (other, e) ↦ rw (e, Kept) tt
  ]

  make_parents-Kept :
      (rest made : Bytes) (w : sys.World)
      → made ≢ []
      → ((a b : Bytes) → rest ≡ a ++ (slash ∷ b) → Makes (made ++ a))
      → Inv w
      → Kept (make_parents sys made rest w)
  unfolding make_parents
  make_parents-Kept [] made w ne m i = i
  make_parents-Kept (c ∷ s) made w ne m i =
      let further : (a b : Bytes) → s ≡ a ++ (slash ∷ b) → Makes ((made ++ (c ∷ [])) ++ a) =
        λ a b e.
          subst Makes (sym (append_assoc made (c ∷ []) a)) (m (c ∷ a) b (ap (λ x. c ∷ x) e)) in
      let ne' : made ++ (c ∷ []) ≢ [] = append_ne made (c ∷ []) ne in
      elim (Bool-cases (c == slash)) [
        | inl at ↦
            rw (at, Kept)
              (and_then-Kept (checked_mkdir sys made w) _
                (checked_mkdir-Kept made w
                  (subst Makes (append-nil made) (m [] s (ap (λ x. x ∷ s) ((==_iff c slash).0 at))))
                  i)
                (λ w' i'. make_parents-Kept s (made ++ (c ∷ [])) w' ne' further i'))
        | inr off ↦ rw (off, Kept) (make_parents-Kept s (made ++ (c ∷ [])) w ne' further i)
      ]

  pub make_path-Kept :
      (p : Bytes) (w : sys.World)
      → ((a b : Bytes) → a ≢ [] → p ≡ a ++ (slash ∷ b) → Makes a)
      → Inv w
      → Kept (make_path sys p w)
  unfolding make_path
  make_path-Kept [] w m i = tt
  make_path-Kept (c ∷ s) w m i =
      make_parents-Kept s (c ∷ []) w (λ e. cc) (λ a b e. m (c ∷ a) b (λ n. cc) (ap (λ x. c ∷ x) e))
        i

  pub copy_permissions_and_attributes-Kept :
      (source dest : Bytes) (w : sys.World)
      → Inside dest
      → Inv w
      → Kept (copy_permissions_and_attributes sys source dest w)
  unfolding copy_permissions_and_attributes
  copy_permissions_and_attributes-Kept source dest w d i = elim (Option-cases (sys.stat source w)) [
    | inl missing ↦ rw (missing, Kept) tt
    | inr (st, found) ↦ elim (Option-cases (sys.chmod dest (st.mode % 4096) w)) [
      | inl refused ↦ rw (found, refused, Kept) tt
      | inr (w1, changed) ↦ elim (Option-cases (sys.utimensat dest st.mtime w1)) [
        | inl refused ↦ rw (found, changed, refused, Kept) tt
        | inr (w2, timed) ↦
            rw (found, changed, timed, Kept)
              (kept.utimensat_keeps dest st.mtime w1 w2 d
                (kept.chmod_keeps dest (st.mode % 4096) w w1 d i changed) timed)
      ]
    ]
  ]

  pub create_empty_files-Kept :
      (dest : Bytes) (source : Option Bytes) (w : sys.World)
      → Inside dest
      → Inv w
      → Kept (create_empty_files sys dest source w)
  unfolding create_empty_files
  create_empty_files-Kept dest source w d i = elim (Option-cases (sys.open_write dest w)) [
    | inl refused ↦ rw (refused, Kept) tt
    | inr ((fd, w1), opened) ↦
        let i' = kept.close_keeps fd w1 (kept.open_write_keeps dest w w1 fd d i opened).0 in
        elim (Bool-cases (sys.close fd w1).0) [
          | inr bad ↦ rw (opened, bad, Kept) tt
          | inl shut ↦ elim (Option-cases source) [
            | inl nothing ↦ rw (opened, shut, nothing, Kept) i'
            | inr (path, given) ↦
                rw (opened, shut, given, Kept)
                  (copy_permissions_and_attributes-Kept path dest (sys.close fd w1).1 d i')
          ]
        ]
  ]
