-- ===== src/Reader.antt =====
-- `inotify_reader` of src/inotify_functions.c: the events in one buffer that `read` has filled.
-- The fields are little-endian, as on the machines that the program is built for.
pub mod Encode
pub mod Roundtrip
use unix_backup_c.Common.{
  ℕ, zero, suc, ◌+◌, ◌-◌, ◌*◌, ◌/◌, ◌%◌, ◌^◌, ◌≤◌, ◌<◌, ◌≡◌, refl, sym, ap, ◌∙◌, ◌≢◌, ◌↔◌, ◌⊎◌, inl,
  inr, Bool, true, false, not, ◌&&◌, ◌||◌, Option, none, some, List, [], ◌∷◌, ◌++◌, map, arith, ltb,
  leb, ◌==◌, ==_iff, ==_refl, ==_false_sym, ==_ne, &&_split, ||_split, if◌then◌else◌, Bool-cases,
  Option-cases, length, get_elem?, take, drop, length-append, length-drop, drop-length_plus,
  drop-plus, drop_of_length, take-append-drop, drop-length-append, All, All-append,
}
use unix_backup_c.Common.Bytes.{
  Bytes, bytes, char_at, str_eq, starts_with, str_eq_sound, str_eq_refl, starts_with-append,
  starts_with_sound, char_at-length-append,
}
use mathlib.Core.List.{append-nil, append_assoc}
use mathlib.Core.Path.{subst}
use unix_backup_c.Events.{RawEvent}

-- `uint32_t` at the front of some bytes; `none` behind their end.
abbrev pub u32 : Bytes → Option ℕ
u32 (a ∷ b ∷ c ∷ d ∷ s) = some (a + 256 * b + 65536 * c + 16777216 * d)
u32 s = none

-- The C string at the front of some bytes.
pub c_string : Bytes → Bytes
c_string [] = []
c_string (c ∷ s) = let rest = c_string s in if c == 0 then [] else c ∷ rest

-- `sizeof(struct inotify_event)`
abbrev pub header_size : ℕ
header_size = 16

-- `(4 - (event_size % 4)) % 4`
abbrev pub padding : ℕ → ℕ
padding event_size = (4 - event_size % 4) % 4

-- The loop's end: at the end of the bytes, at a header that is cut off, or with `ERR("partial
-- read")`.
pub data Status : Type 0 where
  whole partial_header partial_read : Status

-- A `uint32_t` field at an offset into the event.
field : ℕ → Bytes → ℕ
field i rest = elim (u32 (drop i rest)) [ none ↦ 0 | some n ↦ n ]

-- The event as `add_inotify_event` sees it. `name` is read up to a NUL, also behind the bytes that
-- were read, where the buffer holds `stale`.
event_at : Bytes → Bytes → RawEvent
unfolding field c_string
event_at stale rest = record {
  wd = field 0 rest;
  mask = field 4 rest;
  cookie = field 8 rest;
  len = field 12 rest;
  name = c_string (drop header_size (rest ++ stale));
}

-- `while (offset < bytes_read)`, over the bytes from `offset` on: each round passes at least a
-- header, so the number of bytes is fuel enough. Each event is handed to `add_inotify_event`.
unfoldable pub read_events : ℕ → Bytes → Bytes → List RawEvent × Status
unfolding field event_at
read_events zero stale rest = ([], whole)
read_events (suc fuel) stale [] = ([], whole)
read_events (suc fuel) stale (c ∷ s) =
    let rest = c ∷ s in
    let event_size = header_size + field 12 rest in
    let more = read_events fuel stale (drop (event_size + padding event_size) rest) in
    if ltb (length rest) header_size
    then ([], partial_header)
    else if ltb (length rest) event_size
    then ([], partial_read)
    else (event_at stale rest ∷ more.0, more.1)
