-- ===== src/Paths/Inside.antt =====
-- `is_target_in_source` of src/utils.c decides containment at a component boundary.
use unix_backup_c.Common.{
  ℕ, zero, suc, ◌≡◌, refl, sym, ◌≢◌, ◌↔◌, ◌⊎◌, inl, inr, true, false, some, [], ◌∷◌, ◌++◌, arith,
  length, drop, length-append,
}
use mathlib.Core.Path.{subst}
use unix_backup_c.Common.Bytes.{Bytes, starts_with, starts_with-append, starts_with_sound}
use unix_backup_c.Paths.{slash, strip_lead, slash_at, is_inside, is_target_in_source}

-- What may follow a directory's path in the path of something in it.
abbrev pub IsBoundary : Bytes → Type 0
IsBoundary [] = Unit
IsBoundary (c ∷ s) = c ≡ slash

-- `path` is `dir` itself or lies below it, by whole components.
abbrev pub Within : Bytes → Bytes → Type 0
Within dir path = (rest : Bytes) × (path ≡ dir ++ rest) × IsBoundary rest

slash_at-append : (a b : Bytes) → slash_at (length a) (a ++ b) ≡ slash_at 0 b
unfolding slash_at
slash_at-append [] b = refl
slash_at-append (x ∷ a) b = slash_at-append a b

is_inside-append :
    (dir rest : Bytes) → dir ≢ [] → IsBoundary rest → is_inside dir (dir ++ rest) ≡ true
unfolding is_inside slash_at
is_inside-append [] rest h b = absurd (h refl)
is_inside-append (c ∷ dir) [] h b =
    ground (arith, starts_with-append (c ∷ dir) [], length-append dir [])
is_inside-append (c ∷ dir) (d ∷ rest) h b = ground (
  arith,
  starts_with-append (c ∷ dir) (d ∷ rest),
  length-append dir (d ∷ rest),
  slash_at-append dir (d ∷ rest),
)

IsBoundary-of_slash_at : (n : ℕ) (s : Bytes) → slash_at n s ≡ true → IsBoundary (drop n s)
unfolding slash_at
IsBoundary-of_slash_at n [] h = cc
IsBoundary-of_slash_at zero (c ∷ s) h = ground arith
IsBoundary-of_slash_at (suc n) (c ∷ s) h = IsBoundary-of_slash_at n s h

IsBoundary-of_length : (n : ℕ) (s : Bytes) → length s ≡ n → IsBoundary (drop n s)
IsBoundary-of_length zero [] h = tt
IsBoundary-of_length zero (c ∷ s) h = absurd (omega arith)
IsBoundary-of_length (suc n) [] h = tt
IsBoundary-of_length (suc n) (c ∷ s) h = IsBoundary-of_length n s (omega arith)

is_inside_parts :
    (dir path : Bytes)
    → is_inside dir path ≡ true
    → (starts_with dir path ≡ true)
      × ((length path ≡ length dir) ⊎ (slash_at (length dir) path ≡ true))
unfolding is_inside
is_inside_parts dir path h = ground arith

is_inside_sound : (dir path : Bytes) → is_inside dir path ≡ true → Within dir path
is_inside_sound dir path h =
    let (begins, ends) = is_inside_parts dir path h in
    (
      drop (length dir) path,
      starts_with_sound dir path begins,
      elim ends [
        | inl e ↦ IsBoundary-of_length (length dir) path e
        | inr e ↦ IsBoundary-of_slash_at (length dir) path e
      ],
    )

is_inside-ne_nil : (path : Bytes) → is_inside [] path ≢ true
unfolding is_inside
is_inside-ne_nil path h = cc

-- For a directory that is not empty once its leading slash is stripped, the test says yes exactly
-- when, with one leading slash of each stripped, the second path is the first or continues it with
-- a slash.
pub is_target_in_source-iff_Within :
    (dir path : Bytes)
    → strip_lead dir ≢ []
    → (is_target_in_source (some dir) (some path) ≡ true)
      ↔ Within (strip_lead dir) (strip_lead path)
unfolding is_target_in_source
is_target_in_source-iff_Within dir path h = (
  is_inside_sound (strip_lead dir) (strip_lead path),
  λ (rest, e, b).
      subst (λ p. is_inside (strip_lead dir) p ≡ true) (sym e)
        (is_inside-append (strip_lead dir) rest h b),
)

-- Nothing is inside `/`: the slash is stripped and the empty rest is refused.
pub is_target_in_source_root :
    (path : Bytes) → is_target_in_source (some (slash ∷ [])) (some path) ≡ false
unfolding is_target_in_source
is_target_in_source_root path = refl
