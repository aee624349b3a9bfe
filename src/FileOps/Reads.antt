-- ===== src/FileOps/Reads.antt =====
-- Where `make_path` and `is_empty_dir` read behind the end of their path.
use unix_backup_c.Common.{
  ◌≡◌, refl, sym, ◌≢◌, ◌↔◌, inl, inr, none, some, [], ◌∷◌, ◌++◌, ◌==◌, Bool-cases, Option-cases,
}
use unix_backup_c.Common.Bytes.{Bytes}
use mathlib.Core.Path.{subst}
use unix_backup_c.System.{
  Stat, Reply-cases, eexist, enoent, enotempty, eacces, exdev, other, is_dir, Sys,
}
use unix_backup_c.Outcome.{Outcome, ok, exited, fault, and_then}
use unix_backup_c.Paths.{slash}
use unix_backup_c.FileOps.{check_dir, checked_mkdir, make_parents, make_path, is_empty_dir}

abbrev NoFault {ℓ} : {A : Type ℓ} → Outcome A → Type 0
NoFault (ok a) = Unit
NoFault exited = Unit
NoFault fault = ⊥

and_then-NoFault :
    {A B : Type 0} (m : Outcome A) (f : A → Outcome B)
    → NoFault m
    → ((a : A) → NoFault (f a))
    → NoFault (and_then m f)
and_then-NoFault (ok a) f h k = k a
and_then-NoFault exited f h k = tt
and_then-NoFault fault f h k = h

NoFault-ne : {A : Type 0} (m : Outcome A) → NoFault m → m ≢ fault
NoFault-ne (ok a) h e = cc
NoFault-ne exited h e = cc
NoFault-ne fault h e = h

module _ (sys : Sys) where
  check_dir-NoFault : (path : Bytes) (w : sys.World) → NoFault (check_dir sys path w)
  unfolding check_dir
  check_dir-NoFault path w = elim (Option-cases (sys.stat path w)) [
    | inl missing ↦ rw (missing, NoFault) tt
    | inr (st, found) ↦ elim (Bool-cases (is_dir st)) [
      | inl dir ↦ rw (found, dir, NoFault) tt
      | inr file ↦ rw (found, file, NoFault) tt
    ]
  ]

  checked_mkdir-NoFault : (path : Bytes) (w : sys.World) → NoFault (checked_mkdir sys path w)
  unfolding checked_mkdir
  checked_mkdir-NoFault path w = elim (Reply-cases (sys.mkdir path w)) [
    | inl (w1, made) ↦ rw (made, NoFault) (check_dir-NoFault path w1)
    | inr (eexist, e) ↦ rw (e, NoFault) (check_dir-NoFault path w)
    | inr (enoent, e) ↦ rw (e, NoFault) tt
    | inr (enotempty, e) ↦ rw (e, NoFault) tt
    | inr (eacces, e) ↦ rw (e, NoFault) tt
    | inr (exdev, e) ↦ rw (e, NoFault) tt
    | inr (other, e) ↦ rw (e, NoFault) tt
  ]

  make_parents-NoFault : (s made : Bytes) (w : sys.World) → NoFault (make_parents sys made s w)
  unfolding make_parents
  make_parents-NoFault [] made w = tt
  make_parents-NoFault (c ∷ s) made w = elim (Bool-cases (c == slash)) [
    | inl at ↦
        rw (at, NoFault)
          (and_then-NoFault (checked_mkdir sys made w) _ (checked_mkdir-NoFault made w)
            (make_parents-NoFault s (made ++ (c ∷ []))))
    | inr differs ↦ rw (differs, NoFault) (make_parents-NoFault s (made ++ (c ∷ [])) w)
  ]

  make_path-NoFault : (path : Bytes) (w : sys.World) → path ≢ [] → NoFault (make_path sys path w)
  unfolding make_path
  make_path-NoFault [] w ne = absurd (ne refl)
  make_path-NoFault (c ∷ s) w ne = make_parents-NoFault s (c ∷ []) w

  found_reads :
      (path : Bytes) (w : sys.World) (st : Stat)
      → sys.stat path w ≡ some st
      → NoFault (is_empty_dir sys path w)
  unfolding is_empty_dir
  found_reads path w st found = elim (Bool-cases (is_dir st)) [
    | inr file ↦ rw (found, file, NoFault) tt
    | inl dir ↦ elim (Option-cases (sys.entries path w)) [
      | inl failed ↦ rw (found, dir, failed, NoFault) tt
      | inr (n, has) ↦ rw (found, dir, has, NoFault) tt
    ]
  ]

  is_empty_dir-NoFault :
      (path : Bytes) (w : sys.World) → path ≢ [] → NoFault (is_empty_dir sys path w)
  unfolding is_empty_dir
  is_empty_dir-NoFault path w ne = elim (Option-cases (sys.stat path w)) [
    | inl missing ↦
        rw (missing, NoFault)
          (and_then-NoFault (make_path sys path w) _ (make_path-NoFault path w ne) (λ w1.
            and_then-NoFault (checked_mkdir sys path w1) _ (checked_mkdir-NoFault path w1)
              (λ w2. tt)))
    | inr (st, found) ↦ found_reads path w st found
  ]

  faults_then_empty : (path : Bytes) (w : sys.World) → is_empty_dir sys path w ≡ fault → path ≡ []
  faults_then_empty [] w e = refl
  faults_then_empty (c ∷ s) w e =
      absurd (NoFault-ne (is_empty_dir sys (c ∷ s) w) (is_empty_dir-NoFault (c ∷ s) w (λ n. cc)) e)

  faults_then_missing :
      (path : Bytes) (w : sys.World) → is_empty_dir sys path w ≡ fault → sys.stat path w ≡ none
  faults_then_missing path w e = elim (Option-cases (sys.stat path w)) [
    | inl missing ↦ missing
    | inr (st, found) ↦
        absurd (NoFault-ne (is_empty_dir sys path w) (found_reads path w st found) e)
  ]

  -- `is_empty_dir` reads behind the end of its path exactly where the path is empty and `stat` does
  -- not find it.
  pub is_empty_dir-iff_empty :
      (path : Bytes) (w : sys.World)
      → (is_empty_dir sys path w ≡ fault) ↔ ((path ≡ []) × (sys.stat path w ≡ none))
  unfolding is_empty_dir make_path
  is_empty_dir-iff_empty path w = (
    λ e. (faults_then_empty path w e, faults_then_missing path w e),
    λ (empty, missing).
        subst (λ p. sys.stat p w ≡ none → is_empty_dir sys p w ≡ fault) (sym empty)
          (λ gone. rw (is_empty_dir, gone) refl) missing,
  )
