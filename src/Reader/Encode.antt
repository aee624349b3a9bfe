-- ===== src/Reader/Encode.antt =====
-- The bytes that the kernel writes for an event, by inotify(7): the fields in order, then the name
-- with NULs up to `len` bytes.
use unix_backup_c.Common.{
  ℕ, zero, suc, ◌+◌, ◌-◌, ◌/◌, ◌%◌, ◌^◌, ◌<◌, ◌≡◌, refl, ap, ◌≢◌, ◌⊎◌, inl, inr, List, [], ◌∷◌,
  ◌++◌, arith, length, length-append, All,
}
use unix_backup_c.Common.Bytes.{Bytes}
use unix_backup_c.Events.{RawEvent}

pub u32_bytes : ℕ → Bytes
u32_bytes n = (n % 256) ∷ (n / 256 % 256) ∷ (n / 65536 % 256) ∷ (n / 16777216 % 256) ∷ []

unfoldable pub zeros : ℕ → Bytes
zeros zero = []
zeros (suc n) = 0 ∷ zeros n

-- The name and its NULs.
unfoldable pub name_field : RawEvent → Bytes
unfolding zeros
name_field e = e.name ++ zeros (e.len - length e.name)

unfoldable pub encode : RawEvent → Bytes
unfolding u32_bytes
encode e =
    u32_bytes e.wd
    ++ (u32_bytes e.mask ++ (u32_bytes e.cookie ++ (u32_bytes e.len ++ name_field e)))

unfoldable pub encode_all : List RawEvent → Bytes
encode_all [] = []
encode_all (e ∷ es) = encode e ++ encode_all es

-- What the kernel guarantees of an event: fields of 32 bits, a name without NUL, ended by at least
-- one NUL if there is room for a name, and a multiple of 4 as length.
pub record IsKernel (e : RawEvent) : Type 0 where
  pub wd_bound : e.wd < 2 ^ 32
  pub mask_bound : e.mask < 2 ^ 32
  pub cookie_bound : e.cookie < 2 ^ 32
  pub len_bound : e.len < 2 ^ 32
  pub aligned : e.len % 4 ≡ 0
  pub no_nul : All (λ c. c ≢ 0) e.name
  pub room : (length e.name < e.len) ⊎ ((e.name ≡ []) × (e.len ≡ 0))

length-zeros : (n : ℕ) → length (zeros n) ≡ n
unfolding zeros
length-zeros zero = refl
length-zeros (suc n) = ap suc (length-zeros n)

pub length-name_field : (e : RawEvent) → IsKernel e → length (name_field e) ≡ e.len
unfolding name_field
length-name_field e k = elim k.room [
  | inl fits ↦ omega (
    arith,
    length-append e.name (zeros (e.len - length e.name)),
    length-zeros (e.len - length e.name),
  )
  | inr (empty, zero_len) ↦ omega (
    arith,
    length-append e.name (zeros (e.len - length e.name)),
    length-zeros (e.len - length e.name),
    ap length empty,
  )
]

pub length-encode : (e : RawEvent) → IsKernel e → length (encode e) ≡ 16 + e.len
unfolding encode
length-encode e k = omega (arith, length-name_field e k)
