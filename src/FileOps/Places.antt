-- ===== src/FileOps/Places.antt =====
-- The paths in and above a directory, and the partner of a path of the source in the target.
use mathlib.Core.Option.{some-injective}
use unix_backup_c.Paths.{slash, get_path_to_target, strip_trail}
use unix_backup_c.Paths.Inside.{IsBoundary, Within}
use unix_backup_c.Common.{
  ℕ, ◌≡◌, refl, sym, ap, ◌∙◌, ◌≢◌, ◌⊎◌, inl, inr, some, [], ◌∷◌, ◌++◌, arith, Option-cases,
  drop-length-append,
}
use unix_backup_c.Common.Bytes.{Bytes, char_at-length-append}
use unix_backup_c.FileOps.Copies.{dir_of}
use unix_backup_c.System.{Sys}
use unix_backup_c.FileOps.Kept.{IsKept, IsPlace}
use unix_backup_c.Paths.Mirror.{IsTrimmed, last_of-IsTrimmed, get_path_to_target-append}

-- A path in the target, or a directory above the target.
abbrev pub IsMade : Bytes → Bytes → Type 0
IsMade target p = Within target p ⊎ ((b : Bytes) × (target ≡ p ++ (slash ∷ b)))

-- Two ways to split a string: one first part is the other with more behind it.
split_twice :
    (t r a b : Bytes)
    → t ++ r ≡ a ++ (slash ∷ b)
    → ((m : Bytes) × (a ≡ t ++ m) × (r ≡ m ++ (slash ∷ b))) ⊎ ((m : Bytes) × (t ≡ a ++ (slash ∷ m)))
split_twice [] r a b e = inl (a, refl, e)
split_twice (c ∷ t) r [] b e = inr (t, cc)
split_twice (c ∷ t) r (d ∷ a) b e = elim (split_twice t r a b (cc)) [
  | inl (m, x, y) ↦ inl (m, cc, y)
  | inr (m, x) ↦ inr (m, cc)
]

IsBoundary-front : (m b r : Bytes) → r ≡ m ++ b → IsBoundary r → IsBoundary m
IsBoundary-front [] b r e h = tt
IsBoundary-front (c ∷ m) b [] e h = absurd (cc)
IsBoundary-front (c ∷ m) b (d ∷ r) e h = cc

-- What stands in front of a slash in a path of the target is in the target or above it.
pub IsMade-parent :
    (target p a b : Bytes) → Within target p → p ≡ a ++ (slash ∷ b) → IsMade target a
IsMade-parent target p a b (r, e, h) at = elim (split_twice target r a b (sym e ∙ at)) [
  | inl (m, front, rest) ↦ inl (m, front, IsBoundary-front m (slash ∷ b) r rest h)
  | inr (m, above) ↦ inr (m, above)
]

strip_trail-append :
    (a : Bytes) (c : ℕ) (s : Bytes) → strip_trail (a ++ (c ∷ s)) ≡ a ++ strip_trail (c ∷ s)
unfolding strip_trail
strip_trail-append [] c s = refl
strip_trail-append (d ∷ []) c s = refl
strip_trail-append (d ∷ x ∷ a) c s = ap (λ l. d ∷ l) (strip_trail-append (x ∷ a) c s)

IsBoundary-strip_trail : (s : Bytes) → IsBoundary s → IsBoundary (strip_trail s)
unfolding strip_trail
IsBoundary-strip_trail [] h = tt
IsBoundary-strip_trail (c ∷ []) h = ground arith
IsBoundary-strip_trail (c ∷ d ∷ s) h = h

mirror_of :
    (source target rest : Bytes)
    → IsTrimmed target
    → IsBoundary rest
    → get_path_to_target source target (source ++ rest) ≡ some (target ++ strip_trail rest)
unfolding get_path_to_target strip_trail
mirror_of source target [] trimmed b = get_path_to_target-append source target [] trimmed (inl refl)
mirror_of source target (d ∷ rest) trimmed b =
    let (c, last, ne) = last_of-IsTrimmed target trimmed in
    ground (
      arith,
      char_at-length-append source (d ∷ rest),
      drop-length-append source (d ∷ rest),
      strip_trail-append target d rest,
    )

-- The path in the target for a path of the source lies in the target, where the target does not end
-- in a slash.
pub get_path_to_target-Within :
    (source target path new : Bytes)
    → IsTrimmed target
    → Within source path
    → get_path_to_target source target path ≡ some new
    → Within target new
get_path_to_target-Within source target path new trimmed (rest, e, b) found = (
  strip_trail rest,
  some-injective new (target ++ strip_trail rest) (
      sym found
      ∙ (ap (get_path_to_target source target) e ∙ mirror_of source target rest trimmed b)),
  IsBoundary-strip_trail rest b,
)

-- The directory of a path with a slash in it starts with what is in front of the slash.
dir_of-append : (a s : Bytes) → (x : Bytes) × (dir_of (a ++ (slash ∷ s)) ≡ some (a ++ x))
unfolding dir_of
dir_of-append [] s = elim (Option-cases (dir_of s)) [
  | inl nothing ↦ ([], rw nothing refl)
  | inr (d, found) ↦ (slash ∷ d, rw found refl)
]
dir_of-append (c ∷ a) s = let (x, e) = dir_of-append a s in (x, rw e refl)

IsTrimmed-ne_nil : (t x : Bytes) → IsTrimmed t → t ++ x ≢ []
IsTrimmed-ne_nil [] x h = absurd h
IsTrimmed-ne_nil (c ∷ t) x h = λ e. cc

pub dir_of-below :
    (t rest : Bytes) → IsTrimmed t → IsBoundary rest → rest ≢ [] → dir_of (t ++ rest) ≢ some []
dir_of-below t [] h b ne e = absurd (ne refl)
dir_of-below t (c ∷ s) h b ne e =
    let (x, found) = dir_of-append t s in
    IsTrimmed-ne_nil t x h
      (some-injective (t ++ x) [] (sym found ∙ (ap (λ d. dir_of (t ++ (d ∷ s))) (sym b) ∙ e)))

module _ (sys : Sys) (dir : Bytes) (Inv : sys.World → Type 0) (Writes : ℕ → sys.World → Type 0)
    (kept : IsKept sys (IsMade dir) (Within dir) Inv Writes) where
  -- A path of the directory may be changed, and the directories above it made.
  pub IsPlace-Within :
      (p : Bytes) → Within dir p → IsPlace sys (IsMade dir) (Within dir) Inv Writes kept p
  IsPlace-Within p h = record { inside = h; parents = λ a b ne e. IsMade-parent dir p a b h e }
