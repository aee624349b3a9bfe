-- ===== src/Reader/Roundtrip.antt =====
-- What the kernel wrote is what the reader hands over.
use unix_backup_c.Common.{
  ℕ, zero, suc, ◌+◌, ◌-◌, ◌≤◌, ◌<◌, ◌≡◌, refl, ap, ◌∙◌, ◌≢◌, inl, inr, List, [], ◌∷◌, ◌++◌, arith,
  length, drop, length-append, drop-length-append, All,
}
use unix_backup_c.Common.Bytes.{Bytes}
use mathlib.Core.List.{append_assoc}
use unix_backup_c.Events.{RawEvent}
use unix_backup_c.Reader.{c_string, header_size, padding, field, event_at, whole, read_events}
use unix_backup_c.Reader.Encode.{zeros, name_field, encode, encode_all, IsKernel, length-encode}

-- The fields agree, and the names if the event has one.
pub record IsSame (a b : RawEvent) : Type 0 where
  pub wd : a.wd ≡ b.wd
  pub mask : a.mask ≡ b.mask
  pub cookie : a.cookie ≡ b.cookie
  pub len : a.len ≡ b.len
  pub name : 0 < b.len → a.name ≡ b.name

abbrev pub AllSame : List RawEvent → List RawEvent → Type 0
AllSame [] [] = Unit
AllSame [] (b ∷ bs) = ⊥
AllSame (a ∷ as') [] = ⊥
AllSame (a ∷ as') (b ∷ bs) = IsSame a b × AllSame as' bs

fields_encode :
    (e : RawEvent) (more : Bytes)
    → IsKernel e
    → (field 0 (encode e ++ more) ≡ e.wd)
      × (field 4 (encode e ++ more) ≡ e.mask)
      × (field 8 (encode e ++ more) ≡ e.cookie)
      × (field 12 (encode e ++ more) ≡ e.len)
unfolding field encode
fields_encode e more k = (omega arith, omega arith, omega arith, omega arith)

c_string-append : (s : Bytes) (more : Bytes) → All (λ c. c ≢ 0) s → c_string (s ++ (0 ∷ more)) ≡ s
unfolding c_string
c_string-append [] more h = refl
c_string-append (c ∷ s) more h = ground (arith, c_string-append s more h.1)

zeros_pos : (n : ℕ) → 0 < n → zeros n ≡ 0 ∷ zeros (n - 1)
unfolding zeros
zeros_pos zero h = absurd (omega arith)
zeros_pos (suc n) h = ap (λ m. 0 ∷ zeros m) (omega arith)

c_string-name_field :
    (e : RawEvent) (more : Bytes)
    → IsKernel e
    → 0 < e.len
    → c_string (name_field e ++ more) ≡ e.name
unfolding name_field
c_string-name_field e more k pos = elim k.room [
  | inl fits ↦
      rw (append_assoc, zeros_pos (e.len - length e.name) (omega arith))
        (c_string-append e.name _ k.no_nul)
  | inr (empty, zero_len) ↦ absurd (omega arith)
]

drop-encode : (e : RawEvent) (more : Bytes) → drop 16 (encode e ++ more) ≡ name_field e ++ more
unfolding encode
drop-encode e more = refl

event_at-encode :
    (e : RawEvent) (stale more : Bytes) → IsKernel e → IsSame (event_at stale (encode e ++ more)) e
unfolding event_at
event_at-encode e stale more k =
    let (a, b, c, d) = fields_encode e more k in
    record {
      wd = a;
      mask = b;
      cookie = c;
      len = d;
      name = λ pos.
          rw (append_assoc, drop-encode e (more ++ stale))
            (c_string-name_field e (more ++ stale) k pos);
    }

-- One round on an event that is complete.
read_events_complete :
    (fuel : ℕ) (stale rest : Bytes)
    → header_size ≤ length rest
    → header_size + field 12 rest ≤ length rest
    → let size = header_size + field 12 rest in
      let more = read_events fuel stale (drop (size + padding size) rest) in
      read_events (suc fuel) stale rest ≡ (event_at stale rest ∷ more.0, more.1)
unfolding read_events
read_events_complete fuel stale [] h k = absurd (omega arith)
read_events_complete fuel stale (c ∷ s) h k = ground arith

-- The events behind the first, by the lengths that the kernel guarantees.
drop-first :
    (e : RawEvent) (more : Bytes)
    → IsKernel e
    → (n : ℕ) → n ≡ e.len
    → drop (header_size + n + padding (header_size + n)) (encode e ++ more) ≡ more
drop-first e more k n h =
    ap (λ m. drop m (encode e ++ more)) (omega (arith, length-encode e k))
    ∙ drop-length-append (encode e) more

read_nil :
    (fuel : ℕ) (stale : Bytes)
    → AllSame (read_events fuel stale []).0 [] × ((read_events fuel stale []).1 ≡ whole)
unfolding read_events
read_nil zero stale = (tt, refl)
read_nil (suc fuel) stale = (tt, refl)

read_events-encode_all_from :
    (fuel : ℕ) (stale : Bytes) (es : List RawEvent)
    → All IsKernel es
    → length (encode_all es) ≤ fuel
    → AllSame (read_events fuel stale (encode_all es)).0 es
      × ((read_events fuel stale (encode_all es)).1 ≡ whole)
unfolding encode_all
read_events-encode_all_from fuel stale [] ks f = read_nil fuel stale
read_events-encode_all_from zero stale (e ∷ es) ks f =
    absurd (omega (arith, length-encode e ks.0, length-append (encode e) (encode_all es)))
read_events-encode_all_from (suc fuel) stale (e ∷ es) (k, ks) f =
    let (_, _, _, len) = fields_encode e (encode_all es) k in
    let total = length-append (encode e) (encode_all es) in
    let long = length-encode e k in
    let ih = read_events-encode_all_from fuel stale es ks (omega arith) in
    rw
      (
        read_events_complete fuel stale (encode e ++ encode_all es) (omega arith) (omega arith),
        drop-first e (encode_all es) k _ len,
      )
      ((event_at-encode e stale (encode_all es) k, ih.0), ih.1)

-- Of a buffer with any number of whole events, as the kernel writes them, the reader hands over
-- exactly these, in order, and ends at the buffer's end; the names agree where an event has one.
pub read_events-encode_all :
    (stale : Bytes) (es : List RawEvent)
    → All IsKernel es
    → let buffer = encode_all es in
      let result = read_events (length buffer) stale buffer in
      AllSame result.0 es × (result.1 ≡ whole)
read_events-encode_all stale es ks = read_events-encode_all_from _ stale es ks (omega arith)
