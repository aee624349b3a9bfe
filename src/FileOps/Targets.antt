-- ===== src/FileOps/Targets.antt =====
-- The directories that are accepted as targets.
use unix_backup_c.Common.{
  ℕ, ◌≡◌, refl, sym, ap, ◌∙◌, ◌⊎◌, inl, inr, Bool, true, false, none, some, ◌==◌, ==_iff,
  Bool-cases, Option-cases,
}
use unix_backup_c.Common.Bytes.{Bytes}
use mathlib.Core.Path.{subst}
use unix_backup_c.System.{Stat}
use unix_backup_c.System.{Reply-cases, eexist, enoent, enotempty, eacces, exdev, other, is_dir, Sys}
use unix_backup_c.Outcome.{Outcome, ok, exited, fault, and_then}
use unix_backup_c.FileOps.{check_dir, checked_mkdir, make_path, is_empty_dir}
use unix_backup_c.FileOps.Parents.{IsDirAt}

module _ (sys : Sys) where
  abbrev Dir : Bytes → Outcome sys.World → Type 0
  Dir path (ok w) = IsDirAt sys path w
  Dir path exited = Unit
  Dir path fault = Unit

  check_dir-Dir : (path : Bytes) (w : sys.World) → Dir path (check_dir sys path w)
  unfolding check_dir
  check_dir-Dir path w = elim (Option-cases (sys.stat path w)) [
    | inl missing ↦ rw (missing, Dir) tt
    | inr (st, found) ↦ elim (Bool-cases (is_dir st)) [
      | inl dir ↦ rw (found, dir, Dir) (st, found, dir)
      | inr file ↦ rw (found, file, Dir) tt
    ]
  ]

  checked_mkdir-Dir : (path : Bytes) (w : sys.World) → Dir path (checked_mkdir sys path w)
  unfolding checked_mkdir
  checked_mkdir-Dir path w = elim (Reply-cases (sys.mkdir path w)) [
    | inl (w1, made) ↦ rw (made, Dir) (check_dir-Dir path w1)
    | inr (eexist, e) ↦ rw (e, Dir) (check_dir-Dir path w)
    | inr (enoent, e) ↦ rw (e, Dir) tt
    | inr (enotempty, e) ↦ rw (e, Dir) tt
    | inr (eacces, e) ↦ rw (e, Dir) tt
    | inr (exdev, e) ↦ rw (e, Dir) tt
    | inr (other, e) ↦ rw (e, Dir) tt
  ]

  -- Where the answer is yes, the path is a directory afterwards, and it was missing, or had no
  -- entries but its own two.
  abbrev pub Accepted : Bytes → sys.World → Outcome (Bool × sys.World) → Type 0
  Accepted path w (ok (true, w')) =
      IsDirAt sys path w' × ((sys.stat path w ≡ none) ⊎ (sys.entries path w ≡ some 2))
  Accepted path w (ok (false, w')) = Unit
  Accepted path w exited = Unit
  Accepted path w fault = Unit

  then_made :
      (path : Bytes) (w : sys.World) (m : Outcome sys.World)
      → sys.stat path w ≡ none
      → Dir path m
      → Accepted path w (and_then m λ w2. ok (true, w2))
  then_made path w (ok w2) missing dir = (dir, inl missing)
  then_made path w exited missing dir = tt
  then_made path w fault missing dir = tt

  then_any :
      (path : Bytes) (w : sys.World) (m : Outcome sys.World)
      (f : sys.World → Outcome (Bool × sys.World))
      → ((w1 : sys.World) → Accepted path w (f w1))
      → Accepted path w (and_then m f)
  then_any path w (ok w1) f h = h w1
  then_any path w exited f h = tt
  then_any path w fault f h = tt

  counted :
      (path : Bytes) (w : sys.World) (n : ℕ)
      → IsDirAt sys path w
      → sys.entries path w ≡ some n
      → Accepted path w (ok (n == 2, w))
  counted path w n dir has = elim (Bool-cases (n == 2)) [
    | inl two ↦ rw (two, Accepted) (dir, inr (has ∙ ap some ((==_iff n 2).0 two)))
    | inr more ↦ rw (more, Accepted) tt
  ]

  is_empty_dir_counts :
      (path : Bytes) (w : sys.World) (n : ℕ) (st : Stat)
      → sys.stat path w ≡ some st
      → is_dir st ≡ true
      → sys.entries path w ≡ some n
      → is_empty_dir sys path w ≡ ok (n == 2, w)
  unfolding is_empty_dir
  is_empty_dir_counts path w n st found dir has = rw (is_empty_dir, found, dir, has) refl

  -- A path that `is_empty_dir` accepts as a target is a directory afterwards, and either it was
  -- missing before, or it was there with no entries but its own two.
  pub is_empty_dir-Accepted :
      (path : Bytes) (w : sys.World) → Accepted path w (is_empty_dir sys path w)
  unfolding is_empty_dir
  is_empty_dir-Accepted path w = elim (Option-cases (sys.stat path w)) [
    | inl missing ↦
        rw (missing, Accepted)
          (then_any path w (make_path sys path w) _ (λ w1.
            then_made path w (checked_mkdir sys path w1) missing (checked_mkdir-Dir path w1)))
    | inr (st, found) ↦ elim (Bool-cases (is_dir st)) [
      | inr file ↦ rw (found, file, Accepted) tt
      | inl dir ↦ elim (Option-cases (sys.entries path w)) [
        | inl failed ↦ rw (found, dir, failed, Accepted) tt
        | inr (n, has) ↦
            subst (Accepted path w) (sym (is_empty_dir_counts path w n st found dir has))
              (counted path w n (st, found, dir) has)
      ]
    ]
  ]
