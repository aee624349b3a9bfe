-- ===== src/Paths.antt =====
-- The path arithmetic of src/utils.c and of src/generic_file_functions.c: which paths lie in a
-- directory, the part of a path behind a directory, and the mirror of a path in the target.
-- A `char *` that the code tests against NULL is an `Option`.
pub mod Inside
pub mod Suffix
pub mod Mirror
use unix_backup_c.Common.{
  ℕ, zero, suc, ◌+◌, Bool, true, false, not, ◌&&◌, ◌||◌, Option, none, some, List, [], ◌∷◌, ◌++◌,
  ◌==◌, ltb, if◌then◌else◌, length, drop,
}
use unix_backup_c.Common.Bytes.{Bytes, char_at, starts_with}

-- `'/'`
abbrev pub slash : ℕ
slash = 47

-- `if (p[0] == '/') p = p + 1;`
unfoldable pub strip_lead : Bytes → Bytes
strip_lead [] = []
strip_lead (c ∷ s) = if c == slash then s else c ∷ s

-- `target[n] == '/'` at an index within the string.
slash_at : ℕ → Bytes → Bool
slash_at n [] = false
slash_at zero (c ∷ s) = c == slash
slash_at (suc n) (c ∷ s) = slash_at n s

-- The part of `is_target_in_source` behind the NULL tests, on the stripped strings.
is_inside : Bytes → Bytes → Bool
unfolding slash_at
is_inside source target =
    if length source == 0 || ltb (length target) (length source)
    then false
    else if not (starts_with source target)
    then false
    else if length target == length source
    then true
    else slash_at (length source) target

unfoldable pub is_target_in_source : Option Bytes → Option Bytes → Bool
unfolding strip_lead is_inside
is_target_in_source none target = false
is_target_in_source (some source) none = false
is_target_in_source (some source) (some target) = is_inside (strip_lead source) (strip_lead target)

-- `concat(2, a, b)`; a NULL argument is skipped.
unfoldable pub concat : Option Bytes → Option Bytes → Bytes
concat none none = []
concat none (some b) = b
concat (some a) none = a
concat (some a) (some b) = a ++ b

-- `while (i < limit && base[i] == full[i]) i++;` from `i = 0`.
pub mismatch : Bytes → Bytes → ℕ
mismatch [] full = 0
mismatch (b ∷ base) [] = 0
mismatch (b ∷ base) (c ∷ full) = let rest = mismatch base full in if b == c then suc rest else 0

unfoldable pub get_end_suffix : Option Bytes → Option Bytes → Option Bytes
unfolding mismatch
get_end_suffix none full = none
get_end_suffix (some base) none = none
get_end_suffix (some base) (some full) =
    let i = mismatch base full in
    if length base == length full && i == length base then some [] else some (drop i full)

-- `new_path[i - 1]` once `i` bytes are written: out of bounds for an empty string.
abbrev pub last_char : Bytes → Option ℕ
last_char [] = none
last_char (c ∷ []) = some c
last_char (c ∷ d ∷ s) = last_char (d ∷ s)

-- `if (new_path[i - 1] == '/') new_path[i - 1] = '\0'; else new_path[i] = '\0';`
unfoldable pub strip_trail : Bytes → Bytes
strip_trail [] = []
strip_trail (c ∷ []) = if c == slash then [] else c ∷ []
strip_trail (c ∷ d ∷ s) = c ∷ strip_trail (d ∷ s)

-- What stands between the target and the rest of the path, and the index `j` the copy starts from.
unfoldable pub join_point : ℕ → ℕ → ℕ → Bytes × ℕ
join_point last c s =
    if last == slash && c == slash
    then ([], s + 1)
    else if not (last == slash) && not (c == slash)
    then (slash ∷ [], s)
    else ([], s)

-- `none` is a read outside a string: an empty target, or a path shorter than the source.
unfoldable pub get_path_to_target : Bytes → Bytes → Bytes → Option Bytes
unfolding strip_trail join_point
get_path_to_target source target path = elim (last_char target) [
  | none ↦ none
  | some last ↦ elim (char_at path (length source)) [
    | none ↦ none
    | some c ↦
        let (sep, j) = join_point last c (length source) in
        some (strip_trail (target ++ (sep ++ drop j path)))
  ]
]
