-- ===== src/Paths/Mirror.antt =====
-- `get_path_to_target` of src/generic_file_functions.c: the mirror of a source path.
use unix_backup_c.Common.{
  ℕ, ◌+◌, ◌-◌, ◌≤◌, ◌≡◌, refl, ◌≢◌, ◌⊎◌, inl, inr, some, [], ◌∷◌, ◌++◌, arith, Option-cases, length,
  drop, length-append, length-drop, drop-length-append,
}
use unix_backup_c.Common.Bytes.{Bytes, char_at, char_at-length-append}
use mathlib.Core.List.{append-nil}
use unix_backup_c.Paths.{
  slash, last_char, strip_trail, join_point, concat, get_end_suffix, get_path_to_target,
}
use unix_backup_c.Paths.Inside.{IsBoundary}
use unix_backup_c.Paths.Suffix.{concat-get_end_suffix}

-- The string is not empty and its last byte is not a slash.
abbrev pub IsTrimmed : Bytes → Type 0
IsTrimmed [] = ⊥
IsTrimmed (c ∷ []) = c ≢ slash
IsTrimmed (c ∷ d ∷ s) = IsTrimmed (d ∷ s)

strip_trail-IsTrimmed : (s : Bytes) → IsTrimmed s → strip_trail s ≡ s
unfolding strip_trail
strip_trail-IsTrimmed [] h = absurd h
strip_trail-IsTrimmed (c ∷ []) h = ground arith
strip_trail-IsTrimmed (c ∷ d ∷ s) h = ground (arith, strip_trail-IsTrimmed (d ∷ s) h)

strip_trail-slash : (s : Bytes) → strip_trail (s ++ (slash ∷ [])) ≡ s
unfolding strip_trail
strip_trail-slash [] = refl
strip_trail-slash (c ∷ []) = refl
strip_trail-slash (c ∷ d ∷ s) = ground (arith, strip_trail-slash (d ∷ s))

IsTrimmed-append : (a b : Bytes) → IsTrimmed b → IsTrimmed (a ++ b)
IsTrimmed-append [] b h = h
IsTrimmed-append (c ∷ []) [] h = absurd h
IsTrimmed-append (c ∷ []) (d ∷ b) h = h
IsTrimmed-append (c ∷ d ∷ a) b h = IsTrimmed-append (d ∷ a) b h

pub last_of-IsTrimmed : (s : Bytes) → IsTrimmed s → (c : ℕ) × (last_char s ≡ some c) × (c ≢ slash)
last_of-IsTrimmed [] h = absurd h
last_of-IsTrimmed (c ∷ []) h = (c, refl, h)
last_of-IsTrimmed (c ∷ d ∷ s) h = last_of-IsTrimmed (d ∷ s) h

length-strip_trail : (s : Bytes) → length (strip_trail s) ≤ length s
unfolding strip_trail
length-strip_trail [] = omega arith
length-strip_trail (c ∷ []) = ground arith
length-strip_trail (c ∷ d ∷ s) = omega (arith, length-strip_trail (d ∷ s))

length-join_point :
    (last c s : ℕ) (path : Bytes)
    → length ((join_point last c s).0 ++ drop (join_point last c s).1 path) ≤ length path - s + 1
unfolding join_point
length-join_point last c s path = ground (arith, length-drop (s + 1) path, length-drop s path)

length-assemble :
    (last c s : ℕ) (target path : Bytes)
    → length
        (strip_trail (target ++ ((join_point last c s).0 ++ drop (join_point last c s).1 path)))
      ≤ length target + (length path - s + 1)
length-assemble last c s target path =
    let (sep, j) = join_point last c s in
    omega (
      arith,
      length-strip_trail (target ++ (sep ++ drop j path)),
      length-append target (sep ++ drop j path),
      length-join_point last c s path,
    )

-- With the target trimmed, and the rest empty or starting with a slash and trimmed, the mirror of
-- the source path is the target followed by the rest.
pub get_path_to_target-append :
    (source target rest : Bytes)
    → IsTrimmed target
    → (rest ≡ []) ⊎ (IsBoundary rest × IsTrimmed rest)
    → get_path_to_target source target (source ++ rest) ≡ some (target ++ rest)
unfolding get_path_to_target
get_path_to_target-append source target [] trimmed shape =
    let (c, e, ne) = last_of-IsTrimmed target trimmed in
    ground (
      arith,
      char_at-length-append source [],
      drop-length-append source [],
      append-nil target,
      strip_trail-slash target,
    )
get_path_to_target-append source target (d ∷ rest) trimmed (inl e) = absurd (cc)
get_path_to_target-append source target (d ∷ rest) trimmed (inr (b, t)) =
    let (c, e, ne) = last_of-IsTrimmed target trimmed in
    ground (
      arith,
      char_at-length-append source (d ∷ rest),
      drop-length-append source (d ∷ rest),
      strip_trail-IsTrimmed (target ++ (d ∷ rest)) (IsTrimmed-append target (d ∷ rest) t),
    )

-- Where the target does not end in a slash, and the path is the source itself or continues it with
-- a slash and does not end in one, the initial backup and the event handler name the same path in
-- the target for it.
pub get_path_to_target-eq-concat :
    (source target rest : Bytes)
    → IsTrimmed target
    → (rest ≡ []) ⊎ (IsBoundary rest × IsTrimmed rest)
    → get_path_to_target source target (source ++ rest)
      ≡ some (concat (some target) (get_end_suffix (some source) (some (source ++ rest))))
get_path_to_target-eq-concat source target rest trimmed shape =
    rw concat-get_end_suffix (get_path_to_target-append source target rest trimmed shape)

-- The result and its NUL fit the `p - s + t + 5` bytes that are allocated for it, where the
-- path is at least as long as the source.
pub length-get_path_to_target :
    (source target path : Bytes) {out : Bytes}
    → length source ≤ length path
    → get_path_to_target source target path ≡ some out
    → length out + 1 ≤ length path - length source + length target + 5
unfolding get_path_to_target
length-get_path_to_target source target path h e = elim (Option-cases (last_char target)) [
  | inl empty ↦ cc
  | inr (last, l) ↦ elim (Option-cases (char_at path (length source))) [
    | inl over ↦ cc
    | inr (c, at) ↦ ground (arith, length-assemble last c (length source) target path)
  ]
]
