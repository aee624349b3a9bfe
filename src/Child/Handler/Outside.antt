-- ===== src/Child/Handler/Outside.antt =====
-- The guard against watches that were moved out of the source.
use unix_backup_c.Paths.{slash}
use unix_backup_c.Common.{
  ◌≡◌, refl, sym, ◌∙◌, ◌↔◌, inl, inr, Bool, true, false, not, [], ◌∷◌, ◌++◌, arith, ◌==◌,
  if◌then◌else◌, Bool-cases, length, drop, drop-length-append,
}
use unix_backup_c.Common.Bytes.{Bytes, starts_with, starts_with-append, starts_with_sound}
use mathlib.Core.Path.{subst}
use unix_backup_c.Types.{Event}
use unix_backup_c.Paths.Inside.{IsBoundary, Within}
use unix_backup_c.Events.Inside.{IsEvent}
use unix_backup_c.Child.Handler.{outside_source}

goes_on : Bytes → Bool
goes_on [] = false
goes_on (c ∷ rest) = not (c == slash)

IsBoundary-iff : (rest : Bytes) → (goes_on rest ≡ false) ↔ IsBoundary rest
unfolding goes_on
IsBoundary-iff [] = (λ h. tt, λ h. refl)
IsBoundary-iff (c ∷ rest) = ground arith

outside_source-goes_on :
    (source path : Bytes)
    → outside_source source path
      ≡ (if starts_with source path then goes_on (drop (length source) path) else true)
unfolding outside_source goes_on
outside_source-goes_on source path = ground arith

outside_source_sound :
    (source path : Bytes) → outside_source source path ≡ false → Within source path
outside_source_sound source path h = elim (Bool-cases (starts_with source path)) [
  | inl begins ↦ (
    drop (length source) path,
    starts_with_sound source path begins,
    (IsBoundary-iff (drop (length source) path)).0
        (rw begins at (sym (outside_source-goes_on source path) ∙ h)),
  )
  | inr other ↦ absurd (ground (arith, outside_source-goes_on source path))
]

outside_source-append :
    (source rest : Bytes) → IsBoundary rest → outside_source source (source ++ rest) ≡ false
outside_source-append source rest b =
    rw (outside_source-goes_on, starts_with-append, drop-length-append) ((IsBoundary-iff rest).1 b)

-- The guard passes exactly the paths that are the source or continue it with a slash.
pub outside_source-iff_Within :
    (source path : Bytes) → (outside_source source path ≡ false) ↔ Within source path
outside_source-iff_Within source path = (
  outside_source_sound source path,
  λ (rest, e, b).
      subst (λ p. outside_source source p ≡ false) (sym e) (outside_source-append source rest b),
)

-- An event that a watch on a directory of the source has queued passes the guard.
pub outside_source-IsEvent :
    (source : Bytes) (e : Event) → IsEvent source e → outside_source source e.full_path ≡ false
outside_source-IsEvent source e is =
    (outside_source-iff_Within source e.full_path).1 (e.suffix, is.path, is.boundary)
