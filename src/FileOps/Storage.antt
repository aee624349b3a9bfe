-- ===== src/FileOps/Storage.antt =====
-- What a copy of a file leaves in its destination.
use unix_backup_c.Common.{
  ℕ, ◌+◌, ◌%◌, ◌≡◌, ◌∙◌, ◌≢◌, inl, inr, Option, some, [], ◌∷◌, ◌++◌, ◌==◌, Bool-cases, Option-cases,
  length,
}
use unix_backup_c.Common.Bytes.{Bytes}
use mathlib.Core.Path.{subst}
use unix_backup_c.System.{
  Reply-cases, eexist, enoent, enotempty, eacces, exdev, other, done, is_dir, Sys,
}
use unix_backup_c.Outcome.{Outcome, ok, exited, fault, and_then}
use unix_backup_c.Paths.{slash}
use unix_backup_c.FileOps.{
  check_dir, checked_mkdir, make_parents, make_path, copy_permissions_and_attributes,
}
use unix_backup_c.FileOps.Copies.{dir_of, copy_bytes, make_dir_of, copy_data, copy_file}
use unix_backup_c.FileOps.Streams.{IsStream, Writes, copy_bytes_whole}

-- What the system calls say of the content of the regular files, by their paths. Two paths are apart
-- where they name different files; a file that is opened for reading has its content to give, and
-- one that is opened for writing is empty at first.
pub record IsStorage (sys : Sys) (content : Bytes → sys.World → Option Bytes)
    (Apart : Bytes → Bytes → sys.World → Type 0) (IsOpen : ℕ → ℕ → Bytes → sys.World → Type 0)
    : Type 0 where
  pub opens :
      (p q b : Bytes) (w w1 w2 : sys.World) (r o : ℕ)
      → Apart p q w
      → content p w ≡ some b
      → sys.open_read p w ≡ some (r, w1)
      → sys.open_write q w1 ≡ some (o, w2)
      → IsOpen r o q w2 × (sys.unread r w2 ≡ b) × (content q w2 ≡ some [])
  pub streams : (r o : ℕ) (q : Bytes) → IsStream sys r o (content q) (IsOpen r o q)
  pub close_keeps :
      (fd : ℕ) (q : Bytes) (w : sys.World) → content q (sys.close fd w).1 ≡ content q w
  pub chmod_keeps :
      (p q : Bytes) (mode : ℕ) (w w' : sys.World)
      → sys.chmod p mode w ≡ some w'
      → content q w' ≡ content q w
  pub utimensat_keeps :
      (p q : Bytes) (time : ℕ) (w w' : sys.World)
      → sys.utimensat p time w ≡ some w'
      → content q w' ≡ content q w
  pub mkdir_keeps :
      (d p : Bytes) (w w' : sys.World) → sys.mkdir d w ≡ done w' → content p w' ≡ content p w
  pub mkdir_apart :
      (d p q : Bytes) (w w' : sys.World) → sys.mkdir d w ≡ done w' → Apart p q w → Apart p q w'

module _ (sys : Sys) (content : Bytes → sys.World → Option Bytes)
    (Apart : Bytes → Bytes → sys.World → Type 0) (IsOpen : ℕ → ℕ → Bytes → sys.World → Type 0)
    (storage : IsStorage sys content Apart IsOpen) where
  -- The copy does not run on, and where the process goes on the file has the content.
  abbrev pub Filled : Bytes → Bytes → Outcome sys.World → Type 0
  Filled q b (ok w) = (content q w ≡ some b)
  Filled q b exited = Unit
  Filled q b fault = ⊥

  -- The source has the content still, and the two paths are apart.
  abbrev Ready : Bytes → Bytes → Bytes → Outcome sys.World → Type 0
  Ready p q b (ok w) = Apart p q w × (content p w ≡ some b)
  Ready p q b exited = Unit
  Ready p q b fault = ⊥

  then-Ready :
      (p q b : Bytes) (m : Outcome sys.World) (f : sys.World → Outcome sys.World)
      → Ready p q b m
      → ((w : sys.World) → Apart p q w × (content p w ≡ some b) → Ready p q b (f w))
      → Ready p q b (and_then m f)
  then-Ready p q b (ok w) f h k = k w h
  then-Ready p q b exited f h k = tt
  then-Ready p q b fault f h k = h

  Ready-Filled :
      (p q b : Bytes) (m : Outcome sys.World) (f : sys.World → Outcome sys.World)
      → Ready p q b m
      → ((w : sys.World) → Apart p q w × (content p w ≡ some b) → Filled q b (f w))
      → Filled q b (and_then m f)
  Ready-Filled p q b (ok w) f h k = k w h
  Ready-Filled p q b exited f h k = tt
  Ready-Filled p q b fault f h k = h

  check_dir-Ready :
      (p q b d : Bytes) (w : sys.World)
      → Apart p q w × (content p w ≡ some b)
      → Ready p q b (check_dir sys d w)
  unfolding check_dir
  check_dir-Ready p q b d w h = elim (Option-cases (sys.stat d w)) [
    | inl missing ↦ rw (missing, Ready) tt
    | inr (st, found) ↦ elim (Bool-cases (is_dir st)) [
      | inl dir ↦ rw (found, dir, Ready) h
      | inr file ↦ rw (found, file, Ready) tt
    ]
  ]

  checked_mkdir-Ready :
      (p q b d : Bytes) (w : sys.World)
      → Apart p q w × (content p w ≡ some b)
      → Ready p q b (checked_mkdir sys d w)
  unfolding checked_mkdir
  checked_mkdir-Ready p q b d w h = elim (Reply-cases (sys.mkdir d w)) [
    | inl (w', made) ↦
        rw (made, Ready)
          (check_dir-Ready p q b d w'
            (storage.mkdir_apart d p q w w' made h.0, storage.mkdir_keeps d p w w' made ∙ h.1))
    | inr (eexist, e) ↦ rw (e, Ready) (check_dir-Ready p q b d w h)
    | inr (enoent, e) ↦ rw (e, Ready) tt
    | inr (enotempty, e) ↦ rw (e, Ready) tt
    | inr (eacces, e) ↦ rw (e, Ready) tt
    | inr (exdev, e) ↦ rw (e, Ready) tt
    | inr (other, e) ↦ rw (e, Ready) tt
  ]

  make_parents-Ready :
      (p q b made rest : Bytes) (w : sys.World)
      → Apart p q w × (content p w ≡ some b)
      → Ready p q b (make_parents sys made rest w)
  unfolding make_parents
  make_parents-Ready p q b made [] w h = h
  make_parents-Ready p q b made (c ∷ s) w h = elim (Bool-cases (c == slash)) [
    | inl at ↦
        rw (at, Ready)
          (then-Ready p q b (checked_mkdir sys made w) _ (checked_mkdir-Ready p q b made w h)
            (make_parents-Ready p q b (made ++ (c ∷ [])) s))
    | inr off ↦ rw (off, Ready) (make_parents-Ready p q b (made ++ (c ∷ [])) s w h)
  ]

  make_dir_of-Ready :
      (p q b : Bytes) (w : sys.World)
      → dir_of q ≢ some []
      → Apart p q w × (content p w ≡ some b)
      → Ready p q b (make_dir_of sys q w)
  unfolding make_dir_of make_path
  make_dir_of-Ready p q b w below h = elim (Option-cases (dir_of q)) [
    | inl nothing ↦ rw (nothing, Ready) h
    | inr ([], at_root) ↦ absurd (below at_root)
    | inr (c ∷ d, found) ↦
        rw (found, Ready)
          (then-Ready p q b (make_path sys (c ∷ d) w) _ (make_parents-Ready p q b (c ∷ []) d w h)
            (checked_mkdir-Ready p q b (c ∷ d)))
  ]

  attributes-Filled :
      (p q b : Bytes) (w : sys.World)
      → content q w ≡ some b
      → Filled q b (copy_permissions_and_attributes sys p q w)
  unfolding copy_permissions_and_attributes
  attributes-Filled p q b w h = elim (Option-cases (sys.stat p w)) [
    | inl missing ↦ rw (missing, Filled) tt
    | inr (st, found) ↦ elim (Option-cases (sys.chmod q (st.mode % 4096) w)) [
      | inl refused ↦ rw (found, refused, Filled) tt
      | inr (w1, changed) ↦
          let h1 = storage.chmod_keeps q q (st.mode % 4096) w w1 changed ∙ h in
          elim (Option-cases (sys.utimensat q st.mtime w1)) [
            | inl refused ↦ rw (found, changed, refused, Filled) tt
            | inr (w2, timed) ↦
                rw (found, changed, timed, Filled)
                  (storage.utimensat_keeps q q st.mtime w1 w2 timed ∙ h1)
          ]
    ]
  ]

  closed :
      (r o : ℕ) (p q b : Bytes) (m : Outcome sys.World)
      → Writes sys r o (content q) (IsOpen r o q) (storage.streams r o q) b [] m
      → Filled q b (
          and_then m
            λ w3. copy_permissions_and_attributes sys p q (sys.close o (sys.close r w3).1).1)
  closed r o p q b (ok w) h =
      attributes-Filled p q b _
        (storage.close_keeps o q (sys.close r w).1 ∙ (storage.close_keeps r q w ∙ h.1))
  closed r o p q b exited h = tt
  closed r o p q b fault h = h

  copy_data-Filled :
      (p q b : Bytes) (w : sys.World)
      → Apart p q w × (content p w ≡ some b)
      → Filled q b (copy_data sys p q w)
  unfolding copy_data
  copy_data-Filled p q b w (apart, has) = elim (Option-cases (sys.open_read p w)) [
    | inl refused ↦ rw (refused, Filled) tt
    | inr ((r, w1), readable) ↦ elim (Option-cases (sys.open_write q w1)) [
      | inl refused ↦ rw (readable, refused, Filled) tt
      | inr ((o, w2), writable) ↦
          let (open_now, left, empty) =
            storage.opens p q b w w1 w2 r o apart has readable writable in
          rw (readable, writable, Filled)
            (closed r o p q b _ (
              subst
                (λ all.
                  Writes sys r o (content q) (IsOpen r o q) (storage.streams r o q) all []
                    (copy_bytes sys (length (sys.unread r w2) + 1) r o w2))
                left
                (copy_bytes_whole sys r o (content q) (IsOpen r o q) (storage.streams r o q) [] w2
                  open_now empty)))
    ]
  ]

  -- Where the system calls are as they say, a copy of a file to a path of another file that does
  -- not lie at the root ends, and unless a call fails and the process ends, the destination then
  -- has the content that the source had.
  pub copy_file_copies :
      (p q b : Bytes) (w : sys.World)
      → dir_of q ≢ some []
      → Apart p q w
      → content p w ≡ some b
      → Filled q b (copy_file sys p q w)
  unfolding copy_file
  copy_file_copies p q b w below apart has =
      Ready-Filled p q b (make_dir_of sys q w) _ (make_dir_of-Ready p q b w below (apart, has))
        (copy_data-Filled p q b)
