-- ===== src/Registry/Listing.antt =====
-- The command list, `list_sources_and_targets` and `print_targets` of src/main.c, as the text that
-- it prints.
use unix_backup_c.Common.{
  ℕ, zero, suc, ◌+◌, ◌-◌, ◌*◌, ◌/◌, ◌%◌, ◌≤◌, ◌<◌, ◌≡◌, refl, inl, inr, List, [], ◌∷◌, ◌++◌, arith,
  ltb, if◌then◌else◌, Bool-cases, length,
}
use unix_backup_c.Common.Bytes.{Bytes, bytes}
use unix_backup_c.Types.{Target, Source}

-- `%d` of a size: the digits of the number.
unfoldable pub digits : ℕ → ℕ → Bytes
digits zero n = []
digits (suc fuel) n =
    let rest = digits fuel (n / 10) in
    if ltb n 10 then (48 + n) ∷ [] else rest ++ ((48 + n % 10) ∷ [])

unfoldable pub decimal : ℕ → Bytes
decimal n = digits (suc n) n

unfoldable pub target_line : Target → Bytes
target_line t =
    bytes "    Target: '"
    ++ (t.target_friendly ++ (bytes "'  real path: '" ++ (t.target_full ++ bytes "' \n")))

unfoldable pub target_lines : List Target → Bytes
target_lines [] = []
target_lines (t ∷ ts) = target_line t ++ target_lines ts

unfoldable pub print_targets : List Target → Bytes
print_targets ts =
    bytes "amount of targets: " ++ (decimal (length ts) ++ (bytes "\n" ++ target_lines ts))

unfoldable pub source_lines : List Source → Bytes
source_lines [] = []
source_lines (s ∷ ss) =
    bytes "Source: '"
    ++ (s.source_friendly
        ++ (bytes "', real path: '"
            ++ (s.source_full ++ (bytes "' ," ++ (print_targets s.targets ++ source_lines ss)))))

unfoldable pub list_sources_and_targets : List Source → Bytes
list_sources_and_targets [] = bytes "No sources to show\n"
list_sources_and_targets (s ∷ ss) = source_lines (s ∷ ss)

-- The number that digits stand for.
unfoldable pub value_from : ℕ → Bytes → ℕ
value_from acc [] = acc
value_from acc (c ∷ s) = value_from (acc * 10 + (c - 48)) s

value_from-append :
    (acc : ℕ) (s t : Bytes) → value_from acc (s ++ t) ≡ value_from (value_from acc s) t
unfolding value_from
value_from-append acc [] t = refl
value_from-append acc (c ∷ s) t = value_from-append (acc * 10 + (c - 48)) s t

value_from-digits : (fuel n : ℕ) → n < fuel → value_from 0 (digits fuel n) ≡ n
unfolding digits value_from
value_from-digits zero n lt = absurd (omega (arith, lt))
value_from-digits (suc fuel) n lt = elim (Bool-cases (ltb n 10)) [
  | inl short ↦ rw short (omega arith)
  | inr long ↦
      let above : 10 ≤ n = ground (arith, long) in
      rw
        (
          long,
          value_from-append 0 (digits fuel (n / 10)) ((48 + n % 10) ∷ []),
          value_from-digits fuel (n / 10) (omega (arith, above, lt)),
        )
        (omega arith)
]

-- The digits that are printed for a number of targets stand for that number.
pub value_from-decimal : (n : ℕ) → value_from 0 (decimal n) ≡ n
unfolding decimal
value_from-decimal n = value_from-digits (suc n) n (omega arith)
