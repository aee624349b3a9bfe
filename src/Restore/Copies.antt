-- ===== src/Restore/Copies.antt =====
-- Which files and links the walk of the backup copies.
use unix_backup_c.Common.{◌≡◌, refl, ◌≢◌, ◌↔◌, ◌⊎◌, inl, inr, false, ◌||◌, some, arith, Bool-cases}
use unix_backup_c.Common.Bytes.{Bytes}
use unix_backup_c.Outcome.{Outcome, ok, and_then}
use unix_backup_c.FileOps.{make_path}
use unix_backup_c.FileOps.Copies.{copy}
use unix_backup_c.System.{Sys, regular}
use unix_backup_c.Restore.{clear_if, restore_file}
use unix_backup_c.System.{
  eexist, enoent, enotempty, eacces, exdev, other, Reply, done, failed, Kind, directory, link,
  special, Stat,
}
use unix_backup_c.Restore.{other_kind, differs, need_copy}

-- What the destination has of an entry of the backup: the same kind and time of the last change,
-- and for a regular file the same size.
abbrev pub SameAs : Kind → Stat → Stat → Type 0
SameAs regular s st = (st.kind ≡ regular) × (st.size ≡ s.size) × (st.mtime ≡ s.mtime)
SameAs link s st = (st.kind ≡ link) × (st.mtime ≡ s.mtime)
SameAs directory s st = Unit
SameAs special s st = Unit

-- The destination is there and has it, or `lstat` fails but the entry is not missing.
abbrev pub UpToDate : Stat → Reply Stat → Type 0
UpToDate s (done st) = SameAs s.kind s st
UpToDate s (failed e) = e ≢ enoent

by_kind :
    (k k' : Kind) (s st : Stat)
    → s.kind ≡ k
    → st.kind ≡ k'
    → (other_kind s st || differs s st ≡ false) ↔ SameAs s.kind s st
unfolding other_kind differs
by_kind regular regular s st e f = ground (arith, e, f)
by_kind regular link s st e f = ground (arith, e, f)
by_kind regular directory s st e f = ground (arith, e, f)
by_kind regular special s st e f = ground (arith, e, f)
by_kind link regular s st e f = ground (arith, e, f)
by_kind link link s st e f = ground (arith, e, f)
by_kind link directory s st e f = ground (arith, e, f)
by_kind link special s st e f = ground (arith, e, f)
by_kind directory regular s st e f = ground (arith, e, f)
by_kind directory link s st e f = ground (arith, e, f)
by_kind directory directory s st e f = ground (arith, e, f)
by_kind directory special s st e f = ground (arith, e, f)
by_kind special regular s st e f = ground (arith, e, f)
by_kind special link s st e f = ground (arith, e, f)
by_kind special directory s st e f = ground (arith, e, f)
by_kind special special s st e f = ground (arith, e, f)

-- The flag `need_copy` is clear exactly where the destination is up to date; a difference in the
-- mode alone does not count.
pub need_copy-iff_UpToDate : (s : Stat) (r : Reply Stat) → (need_copy s r ≡ false) ↔ UpToDate s r
unfolding need_copy other_kind differs
need_copy-iff_UpToDate s (done st) = by_kind s.kind st.kind s st refl refl
need_copy-iff_UpToDate s (failed eexist) = (λ h e. cc, λ h. refl)
need_copy-iff_UpToDate s (failed enoent) = (λ h. cc, λ h. absurd (h refl))
need_copy-iff_UpToDate s (failed enotempty) = (λ h e. cc, λ h. refl)
need_copy-iff_UpToDate s (failed eacces) = (λ h e. cc, λ h. refl)
need_copy-iff_UpToDate s (failed exdev) = (λ h e. cc, λ h. refl)
need_copy-iff_UpToDate s (failed other) = (λ h e. cc, λ h. refl)

module _ (sys : Sys) where
  same_file : (s st : Stat) → s.kind ≡ regular → st.kind ≡ regular → other_kind s st ≡ false
  unfolding other_kind
  same_file s st file here = ground (arith, file, here)

  -- The branch of a file or a link without and with a copy.
  abbrev pub copied : Bytes → Bytes → Bytes → Bytes → Stat → sys.World → Outcome sys.World
  copied source target path dest s w =
      and_then (clear_if sys (other_kind s) (sys.lstat dest w) dest w)
        λ w1. and_then (make_path sys dest w1) (copy sys path dest (some target) (some source))

  other_kind-need_copy : (s st : Stat) → need_copy s (done st) ≡ false → other_kind s st ≡ false
  unfolding need_copy
  other_kind-need_copy s st e = ground (arith, e)

  cleared_not :
      (s : Stat) (r : Reply Stat) (dest : Bytes) (w : sys.World)
      → need_copy s r ≡ false
      → clear_if sys (other_kind s) r dest w ≡ ok w
  unfolding clear_if
  cleared_not s (failed e) dest w h = refl
  cleared_not s (done st) dest w h = rw (clear_if, other_kind-need_copy s st h) refl

  pub restore_file-UpToDate :
      (source target path dest : Bytes) (s : Stat) (w : sys.World)
      → (s.kind ≡ regular) ⊎ (s.kind ≡ link)
      → (UpToDate s (sys.lstat dest w) → restore_file sys source target path dest s w ≡ ok w)
        × ((UpToDate s (sys.lstat dest w) → ⊥)
            → restore_file sys source target path dest s w ≡ copied source target path dest s w)
  unfolding restore_file
  restore_file-UpToDate source target path dest s w kind = (
    λ same.
        let flag = (need_copy-iff_UpToDate s (sys.lstat dest w)).1 same in
        rw (cleared_not s (sys.lstat dest w) dest w flag, flag) refl,
    λ differs. elim (Bool-cases (need_copy s (sys.lstat dest w))) [
      | inl flag ↦ rw flag refl
      | inr clear ↦ absurd (differs ((need_copy-iff_UpToDate s (sys.lstat dest w)).0 clear))
    ],
  )
