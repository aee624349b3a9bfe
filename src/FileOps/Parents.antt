-- ===== src/FileOps/Parents.antt =====
-- `make_path` makes every directory above a path.
use unix_backup_c.Common.{
  ℕ, ◌≡◌, refl, sym, ap, ◌∙◌, ◌≢◌, inl, inr, true, some, [], ◌∷◌, ◌++◌, arith, ◌==◌, ==_iff,
  Bool-cases, Option-cases,
}
use unix_backup_c.Common.Bytes.{Bytes}
use mathlib.Core.List.{append-nil, append_assoc}
use mathlib.Core.Path.{subst}
use unix_backup_c.System.{
  Reply-cases, eexist, enoent, enotempty, eacces, exdev, other, done, Stat, is_dir, Sys,
}
use unix_backup_c.FileOps.{check_dir, checked_mkdir, make_parents, make_path}
use unix_backup_c.Outcome.{and_then}
use unix_backup_c.Paths.{slash}
use unix_backup_c.Outcome.{Outcome, ok, exited, fault}

-- The path is a directory.
abbrev pub IsDirAt : (sys : Sys) → Bytes → sys.World → Type 0
IsDirAt sys path w = (st : Stat) × (sys.stat path w ≡ some st) × (is_dir st ≡ true)

abbrev pub Keeps : (sys : Sys) → sys.World → sys.World → Type 0
Keeps sys w w' = (path : Bytes) → IsDirAt sys path w → IsDirAt sys path w'

-- What mkdir(2) says: a directory that is there stays.
abbrev pub MkdirKeeps : Sys → Type 0
MkdirKeeps sys = (path : Bytes) (w w' : sys.World) → sys.mkdir path w ≡ done w' → Keeps sys w w'

module _ (sys : Sys) (keeps : MkdirKeeps sys) where
  -- The directory is there, and so are those that were.
  abbrev Made : Bytes → sys.World → Outcome sys.World → Type 0
  Made path w (ok w') = IsDirAt sys path w' × Keeps sys w w'
  Made path w exited = Unit
  Made path w fault = ⊥

  check_dir-Made :
      (path : Bytes) (w w' : sys.World) → Keeps sys w w' → Made path w (check_dir sys path w')
  unfolding check_dir
  check_dir-Made path w w' k = elim (Option-cases (sys.stat path w')) [
    | inl missing ↦ rw (missing, Made) tt
    | inr (st, found) ↦ elim (Bool-cases (is_dir st)) [
      | inl dir ↦ rw (found, dir, Made) ((st, found, dir), k)
      | inr file ↦ rw (found, file, Made) tt
    ]
  ]

  checked_mkdir-Made : (path : Bytes) (w : sys.World) → Made path w (checked_mkdir sys path w)
  unfolding checked_mkdir
  checked_mkdir-Made path w = elim (Reply-cases (sys.mkdir path w)) [
    | inl (w', made) ↦ rw (made, Made) (check_dir-Made path w w' (keeps path w w' made))
    | inr (eexist, there) ↦ rw (there, Made) (check_dir-Made path w w (λ q d. d))
    | inr (enoent, e) ↦ rw (e, Made) tt
    | inr (enotempty, e) ↦ rw (e, Made) tt
    | inr (eacces, e) ↦ rw (e, Made) tt
    | inr (exdev, e) ↦ rw (e, Made) tt
    | inr (other, e) ↦ rw (e, Made) tt
  ]

  -- Every directory above `made ++ rest` that reaches behind `made` is there.
  abbrev pub Parents : Bytes → Bytes → sys.World → Outcome sys.World → Type 0
  Parents made rest w (ok w') =
      ((a b : Bytes) → rest ≡ a ++ (slash ∷ b) → IsDirAt sys (made ++ a) w') × Keeps sys w w'
  Parents made rest w exited = Unit
  Parents made rest w fault = ⊥

  shift :
      (made s a b : Bytes) (c x : ℕ) (w : sys.World)
      → c ∷ s ≡ (x ∷ a) ++ (slash ∷ b)
      → ((a' b' : Bytes) → s ≡ a' ++ (slash ∷ b') → IsDirAt sys ((made ++ (c ∷ [])) ++ a') w)
      → IsDirAt sys (made ++ (x ∷ a)) w
  shift made s a b c x w e h =
      let head : c ≡ x = cc in
      let rest : s ≡ a ++ (slash ∷ b) = cc in
      subst (λ p. IsDirAt sys p w) (append_assoc made (c ∷ []) a ∙ ap (λ y. made ++ (y ∷ a)) head)
        (h a b rest)

  Parents-Made :
      (made s : Bytes) (c : ℕ) (w w' : sys.World) (r : Outcome sys.World)
      → c ≡ slash
      → Made made w (ok w')
      → Parents (made ++ (c ∷ [])) s w' r
      → Parents made (c ∷ s) w r
  Parents-Made made s c w w' (ok w'') at (dir, k) (h, k') = (
    λ a b e.
        elim a as (λ a. c ∷ s ≡ a ++ (slash ∷ b) → IsDirAt sys (made ++ a) w'') [
          | [] ↦ λ e. subst (λ p. IsDirAt sys p w'') (sym (append-nil made)) (k' made dir)
          | x ∷ a' ↦ λ e. shift made s a' b c x w'' e h
        ]
          e,
    λ p d. k' p (k p d),
  )
  Parents-Made made s c w w' exited at m h = tt
  Parents-Made made s c w w' fault at m h = h

  Parents-slash :
      (made s : Bytes) (c : ℕ) (w : sys.World) (m : Outcome sys.World)
      (f : sys.World → Outcome sys.World)
      → c ≡ slash
      → Made made w m
      → ((w' : sys.World) → Parents (made ++ (c ∷ [])) s w' (f w'))
      → Parents made (c ∷ s) w (and_then m f)
  Parents-slash made s c w (ok w') f at m h = Parents-Made made s c w w' (f w') at m (h w')
  Parents-slash made s c w exited f at m h = tt
  Parents-slash made s c w fault f at m h = m

  Parents-byte :
      (made s : Bytes) (c : ℕ) (w : sys.World) (r : Outcome sys.World)
      → c ≢ slash
      → Parents (made ++ (c ∷ [])) s w r
      → Parents made (c ∷ s) w r
  Parents-byte made s c w (ok w') ne (h, k) = (
    λ a b e.
        elim a as (λ a. c ∷ s ≡ a ++ (slash ∷ b) → IsDirAt sys (made ++ a) w') [
          | [] ↦ λ e. absurd (ne cc)
          | x ∷ a' ↦ λ e. shift made s a' b c x w' e h
        ]
          e,
    k,
  )
  Parents-byte made s c w exited ne h = tt
  Parents-byte made s c w fault ne h = h

  nothing_above :
      (made a b : Bytes) (w : sys.World) → [] ≡ a ++ (slash ∷ b) → IsDirAt sys (made ++ a) w
  nothing_above made [] b w e = cc
  nothing_above made (x ∷ a) b w e = cc

  make_parents-Parents :
      (rest made : Bytes) (w : sys.World) → Parents made rest w (make_parents sys made rest w)
  unfolding make_parents
  make_parents-Parents [] made w = (λ a b e. nothing_above made a b w e, λ p d. d)
  make_parents-Parents (c ∷ s) made w = elim (Bool-cases (c == slash)) [
    | inl at ↦
        rw (at, Parents)
          (Parents-slash made s c w (checked_mkdir sys made w) _ ((==_iff c slash).0 at)
            (checked_mkdir-Made made w) (make_parents-Parents s (made ++ (c ∷ []))))
    | inr differs ↦
        rw (differs, Parents)
          (Parents-byte made s c w _ (λ e. ground arith)
            (make_parents-Parents s (made ++ (c ∷ [])) w))
  ]

  -- Everything in front of a slash of the path that is not empty is a directory.
  abbrev pub Above : Bytes → sys.World → Outcome sys.World → Type 0
  Above path w (ok w') =
      ((a b : Bytes) → a ≢ [] → path ≡ a ++ (slash ∷ b) → IsDirAt sys a w') × Keeps sys w w'
  Above path w exited = Unit
  Above path w fault = ⊥

  Above-cons :
      (c : ℕ) (s : Bytes) (w : sys.World) (r : Outcome sys.World)
      → Parents (c ∷ []) s w r
      → Above (c ∷ s) w r
  Above-cons c s w (ok w') (above, k) = (
    λ a b ne e.
        elim a as (λ a. a ≢ [] → c ∷ s ≡ a ++ (slash ∷ b) → IsDirAt sys a w') [
          | [] ↦ λ ne e. absurd (ne refl)
          | x ∷ a' ↦ λ ne e. shift [] s a' b c x w' e above
        ]
          ne e,
    k,
  )
  Above-cons c s w exited h = tt
  Above-cons c s w fault h = h

  -- Where mkdir takes no directory away, `make_path` on a path that is not empty reads nothing
  -- behind it, and unless it ends the process, everything in front of a slash of the path, if not
  -- empty, is a directory afterwards, and each directory that was there still is.
  pub make_path-Above :
      (path : Bytes) (w : sys.World) → path ≢ [] → Above path w (make_path sys path w)
  unfolding make_path
  make_path-Above [] w ne = absurd (ne refl)
  make_path-Above (c ∷ s) w ne = Above-cons c s w _ (make_parents-Parents s (c ∷ []) w)
