-- ===== src/Paths/Suffix.antt =====
-- `get_end_suffix` and `concat` of src/utils.c: what is left of a path behind a base.
use unix_backup_c.Common.{
  drop_of_length, sym, ◌≡◌, refl, ◌≢◌, some, [], ◌∷◌, ◌++◌, arith, length, drop, take,
  drop-length-append, take-append-drop,
}
use unix_backup_c.Common.Bytes.{Bytes}
use unix_backup_c.Paths.{concat, mismatch, get_end_suffix}

-- The first characters of two strings are missing or differ.
abbrev pub Diverge : Bytes → Bytes → Type 0
Diverge [] t = Unit
Diverge (a ∷ s) [] = Unit
Diverge (a ∷ s) (b ∷ t) = a ≢ b

mismatch-append : (base rest : Bytes) → mismatch base (base ++ rest) ≡ length base
unfolding mismatch
mismatch-append [] rest = refl
mismatch-append (b ∷ base) rest = ground (arith, mismatch-append base rest)

-- The early return for equal strings is what the general case gives.
get_end_suffix-drop :
    (base full : Bytes)
    → get_end_suffix (some base) (some full) ≡ some (drop (mismatch base full) full)
unfolding get_end_suffix
get_end_suffix-drop base full = ground (arith, drop_of_length (mismatch base full) full)

take-mismatch :
    (base full : Bytes) → take (mismatch base full) base ≡ take (mismatch base full) full
unfolding mismatch
take-mismatch [] full = refl
take-mismatch (b ∷ base) [] = refl
take-mismatch (b ∷ base) (c ∷ full) = ground (arith, take-mismatch base full)

mismatch-Diverge :
    (base full : Bytes) → Diverge (drop (mismatch base full) base) (drop (mismatch base full) full)
unfolding mismatch
mismatch-Diverge [] full = tt
mismatch-Diverge (b ∷ base) [] = tt
mismatch-Diverge (b ∷ base) (c ∷ full) = ground (arith, mismatch-Diverge base full)

-- `get_end_suffix` cuts off the longest common prefix of the two strings, and nothing more: the
-- result is what follows it in the second, and there the strings end or differ.
pub get_end_suffix_longest :
    (base full : Bytes)
    → (common : Bytes) × (left : Bytes) × (suffix : Bytes) × (get_end_suffix (some base) (some full)
        ≡ some suffix)
      × (base ≡ common ++ left)
      × (full ≡ common ++ suffix)
      × Diverge left suffix
get_end_suffix_longest base full =
    let i = mismatch base full in
    (
      take i base,
      drop i base,
      drop i full,
      get_end_suffix-drop base full,
      sym (take-append-drop i base),
      rw take-mismatch (sym (take-append-drop i full)),
      mismatch-Diverge base full,
    )

-- Of a path that continues the base, the suffix is the continuation.
pub get_end_suffix-append :
    (base rest : Bytes) → get_end_suffix (some base) (some (base ++ rest)) ≡ some rest
get_end_suffix-append base rest = rw (get_end_suffix-drop, mismatch-append, drop-length-append) refl

-- The path in the target that the event handler writes to, `concat(2, target, suffix)`.
pub concat-get_end_suffix :
    (source target rest : Bytes)
    → concat (some target) (get_end_suffix (some source) (some (source ++ rest))) ≡ target ++ rest
unfolding concat
concat-get_end_suffix source target rest = rw get_end_suffix-append
