-- ===== src/Common/Bytes.antt =====
-- C strings as their bytes, without the terminating NUL.
use Prim.Native.Nat.{ℕ, zero, suc}
use Prim.Native.Char.{code}
use Prim.Native.String.{String}
use mathlib.Core.Path.{◌≡◌, refl}
use mathlib.Core.Bool.{Bool, true, false, ◌&&◌}
use mathlib.Core.Option.{Option, none, some}
use mathlib.Core.List.{List, [], ◌∷◌, ◌++◌}
use native.Mathlib.Omega.{arith}
use unix_backup_c.Common.Tests.{◌==◌}
use unix_backup_c.Common.Lists.{length, drop}

abbrev pub Bytes : Type 0
Bytes = List ℕ

-- A string literal as bytes (ASCII).
abbrev pub bytes : String → Bytes
bytes String.[] = []
bytes (String.◌∷◌ c s) = code c ∷ bytes s

-- `s[i]`: the terminating NUL is readable, what lies behind it is not (`none`).
abbrev pub char_at : Bytes → ℕ → Option ℕ
char_at [] zero = some 0
char_at [] (suc i) = none
char_at (c ∷ s) zero = some c
char_at (c ∷ s) (suc i) = char_at s i

-- `strcmp(a, b) == 0`
abbrev pub str_eq : Bytes → Bytes → Bool
str_eq [] [] = true
str_eq [] (y ∷ ys) = false
str_eq (x ∷ xs) [] = false
str_eq (x ∷ xs) (y ∷ ys) = x == y && str_eq xs ys

-- `strncmp(p, s, strlen(p)) == 0`
abbrev pub starts_with : Bytes → Bytes → Bool
starts_with [] ys = true
starts_with (x ∷ xs) [] = false
starts_with (x ∷ xs) (y ∷ ys) = x == y && starts_with xs ys

pub str_eq_sound : (a b : Bytes) → str_eq a b ≡ true → a ≡ b
str_eq_sound [] [] h = refl
str_eq_sound [] (y ∷ ys) h = cc
str_eq_sound (x ∷ xs) [] h = cc
str_eq_sound (x ∷ xs) (y ∷ ys) h = ground (arith, str_eq_sound xs ys)

pub str_eq_refl : (a : Bytes) → str_eq a a ≡ true
str_eq_refl [] = refl
str_eq_refl (x ∷ xs) = ground (arith, str_eq_refl xs)

pub starts_with-append : (a b : Bytes) → starts_with a (a ++ b) ≡ true
starts_with-append [] b = refl
starts_with-append (x ∷ xs) b = ground (arith, starts_with-append xs b)

pub starts_with_sound : (a s : Bytes) → starts_with a s ≡ true → s ≡ a ++ drop (length a) s
starts_with_sound [] s h = refl
starts_with_sound (x ∷ xs) [] h = cc
starts_with_sound (x ∷ xs) (y ∷ ys) h = ground (arith, starts_with_sound xs ys)

pub char_at-length-append : (a b : Bytes) → char_at (a ++ b) (length a) ≡ char_at b 0
char_at-length-append [] b = refl
char_at-length-append (x ∷ xs) b = char_at-length-append xs b
