-- ===== src/Tests/Backup.antt =====
-- A backup of two files.
use unix_backup_c.Common.{
  ℕ, ◌≡◌, refl, sym, ap, ◌∙◌, ◌≢◌, inl, inr, false, Option, none, some, [], ◌∷◌, arith, is_some,
  if◌then◌else◌, Bool-cases,
}
use unix_backup_c.Common.Bytes.{Bytes, bytes, str_eq, str_eq_sound}
use mathlib.Core.List.{append-nil}
use mathlib.Core.Path.{subst}
use unix_backup_c.Tests.Disk.{
  Disk, set, file_stat, disk, content, IsOpen, Apart, disk-IsStorage, disk-IsKept,
}
use unix_backup_c.FileOps.Copies.{buff_size, dir_of, copy_file}
use unix_backup_c.FileOps.Storage.{Filled, copy_file_copies}
use unix_backup_c.FileOps.Places.{IsMade}
use unix_backup_c.Child.Backup.{IsSource, Later, copy_all_copies}
use unix_backup_c.System.{ftw_d, ftw_f}
use unix_backup_c.Paths.Mirror.{IsTrimmed}
use unix_backup_c.Paths.Inside.{Within}
use unix_backup_c.Child.Folders.{Pair, copy_all}
use unix_backup_c.Child.Calls.{files_of}
use mathlib.Core.Option.{some-injective}
use unix_backup_c.System.{enoent, done, failed}

abbrev pub s_to_t : Pair
s_to_t = record { source_full = bytes "/s"; source_friendly = bytes "/s"; target_full = bytes "/t" }

pub t-IsTrimmed : IsTrimmed (bytes "/t")
t-IsTrimmed = λ e. cc

abbrev Source : Disk → Type 0
Source =
    IsSource disk s_to_t t-IsTrimmed content Apart IsOpen disk-IsStorage (bytes "/f") (bytes "abc")

source_stays :
    (w w' : Disk) → content (bytes "/s/f") w' ≡ content (bytes "/s/f") w → Source w → Source w'
source_stays w w' same ((st, found, file), has, apart) = (
  (st, ap (λ x. if is_some x then done file_stat else failed enoent) same ∙ found, file),
  same ∙ has,
  apart,
)

target_apart : (q : Bytes) → Within (bytes "/t") q → str_eq q (bytes "/s/f") ≡ false
target_apart q (rest, e, b) = rw e refl

spared_apart : (q : Bytes) → (Within q (bytes "/t/f") → ⊥) → str_eq q (bytes "/t/f") ≡ false
spared_apart q spared = elim (Bool-cases (str_eq q (bytes "/t/f"))) [
  | inl same ↦
      absurd (spared ([], sym (str_eq_sound q (bytes "/t/f") same) ∙ sym (append-nil q), tt))
  | inr differs ↦ differs
]

abbrev pub before_backup : Disk
before_backup = record {
  files = set (bytes "/s/f") (bytes "abc") (set (bytes "/s/g") (bytes "x") (λ q. none));
  left = [];
  out = [];
}

abbrev ran : Option Disk → Disk
ran none = before_backup
ran (some w) = w

abbrev backup : Option Disk
backup =
    copy_all (files_of disk) s_to_t
      ((bytes "/s", ftw_d) ∷ (bytes "/s/f", ftw_f) ∷ (bytes "/s/g", ftw_f) ∷ []) before_backup

backup_runs : backup ≡ some (ran backup)
unfolding copy_all unix_backup_c.FileOps.Copies.backup_walk unix_backup_c.Paths.get_path_to_target
    unix_backup_c.FileOps.checked_mkdir unix_backup_c.FileOps.check_dir
    unix_backup_c.FileOps.Copies.copy unix_backup_c.FileOps.Copies.copy_file
    unix_backup_c.FileOps.Copies.make_dir_of unix_backup_c.FileOps.make_path
    unix_backup_c.FileOps.make_parents unix_backup_c.FileOps.Copies.copy_data
    unix_backup_c.FileOps.Copies.copy_bytes unix_backup_c.FileOps.Copies.write_all
    unix_backup_c.FileOps.copy_permissions_and_attributes
backup_runs = refl

abbrev fourth : Bytes → ℕ
fourth (a ∷ b ∷ c ∷ d ∷ s) = d
fourth s = 0

g_below : Within (bytes "/t/g") (bytes "/t/f") → ⊥
g_below (rest, e, b) = let h : 102 ≡ 103 = ap fourth e in omega (arith, h)

g-Later :
    Later disk s_to_t t-IsTrimmed content Apart IsOpen disk-IsStorage
      (bytes "/f")
      (bytes "/s/g", ftw_f)
unfolding unix_backup_c.Paths.get_path_to_target
g-Later new e h = g_below (subst (λ q. Within q (bytes "/t/f")) (sym (some-injective _ new e)) h)

copy_all_copies_example : content (bytes "/t/f") (ran backup) ≡ some (bytes "abc")
copy_all_copies_example =
    copy_all_copies disk s_to_t t-IsTrimmed content Apart IsOpen disk-IsStorage (bytes "/f")
      (bytes "abc") ((bytes "/s", ftw_d) ∷ []) ((bytes "/s/g", ftw_f) ∷ []) before_backup
      (ran backup) (λ fd w. str_eq w.out (bytes "/s/f") ≡ false)
      (λ fd w. str_eq w.out (bytes "/t/f") ≡ false) refl (λ e. cc)
      (disk-IsKept (IsMade (bytes "/t")) (Within (bytes "/t")) (bytes "/s/f") Source source_stays
        (λ q h. inl h) target_apart)
      (disk-IsKept (λ q. Unit) (λ q. Within q (bytes "/t/f") → ⊥) (bytes "/t/f")
        (λ w. content (bytes "/t/f") w ≡ some (bytes "abc")) (λ w w' same i. same ∙ i) (λ q h. tt)
        spared_apart)
      (([], refl, tt), tt) (g-Later, tt) ((file_stat, refl, refl), refl, refl) backup_runs

below_root : dir_of (bytes "/t/f") ≢ some []
unfolding dir_of
below_root = λ e. cc

copy_file_copies_example :
    Filled disk content Apart IsOpen disk-IsStorage
      (bytes "/t/f")
      (bytes "abc")
      (copy_file disk (bytes "/s/f") (bytes "/t/f") before_backup)
copy_file_copies_example =
    copy_file_copies disk content Apart IsOpen disk-IsStorage (bytes "/s/f") (bytes "/t/f")
      (bytes "abc") before_backup below_root refl refl
