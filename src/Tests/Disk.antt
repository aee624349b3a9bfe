-- ===== src/Tests/Disk.antt =====
-- Files as a function of their paths, with one that is read and one that is written.
use unix_backup_c.Common.{
  ℕ, suc, ◌<◌, ◌≡◌, refl, sym, ap, ◌∙◌, inl, inr, true, false, Option, none, some, [], ◌∷◌, ◌++◌,
  is_some, if◌then◌else◌, Option-cases, length, take, drop, take-append-drop,
}
use unix_backup_c.Common.Bytes.{Bytes, str_eq, str_eq_refl}
use mathlib.Core.Path.{subst}
use unix_backup_c.FileOps.Copies.{buff_size}
use unix_backup_c.FileOps.Storage.{IsStorage}
use unix_backup_c.FileOps.Kept.{IsKept}
use mathlib.Core.Option.{some-injective}
use unix_backup_c.System.{eexist, enoent, other, done, failed, regular, Stat, Sys}
use unix_backup_c.FileOps.Streams.{IsStream}
use unix_backup_c.Tests.Files.{dir_stat}

-- The files, the bytes that are left to read, and the path that is written.
pub record Disk : Type 0 where
  pub files : Bytes → Option Bytes
  pub left : Bytes
  pub out : Bytes

abbrev pub set : Bytes → Bytes → (Bytes → Option Bytes) → Bytes → Option Bytes
set p b files q = if str_eq p q then some b else files q

abbrev pub old_content : Option Bytes → Bytes
old_content none = []
old_content (some b) = b

abbrev pub file_stat : Stat
file_stat = record { kind = regular; mode = 33188; size = 3; atime = 0; mtime = 0 }

abbrev pub reading : Disk → Option Bytes → Option (ℕ × Disk)
reading w none = none
reading w (some b) = some (3, record w { left = b })

abbrev pub disk : Sys
disk = record {
  World = Disk;
  stat = λ path w. some dir_stat;
  lstat = λ path w. if is_some (w.files path) then done file_stat else failed enoent;
  mkdir = λ path w. failed eexist;
  remove = λ path w. failed other;
  unlink = λ path w. failed other;
  rename = λ path new w. failed other;
  chmod = λ path mode w. some w;
  utimensat = λ path time w. some w;
  utimensat_link = λ path atime mtime w. some w;
  readlink = λ path n w. none;
  symlink = λ text path w. none;
  open_read = λ path w. reading w (w.files path);
  open_write = λ path w. some (4, record w { files = set path [] w.files; out = path });
  read = λ fd n w. some (take n w.left, record w { left = drop n w.left });
  write = λ fd b w.
      some (length b, record w { files = set w.out (old_content (w.files w.out) ++ b) w.files });
  close = λ fd w. (true, w);
  entries = λ path w. none;
  nftw = λ path w. [];
  nftw_depth = λ path w. none;
  unread = λ fd w. w.left;
  inotify_init = λ w. none;
  add_watch = λ path w. none;
  rm_watch = λ wd w. w;
}

abbrev pub content : Bytes → Disk → Option Bytes
content q w = w.files q

abbrev pub IsOpen : ℕ → ℕ → Bytes → Disk → Type 0
IsOpen r o q w = w.out ≡ q

abbrev pub Apart : Bytes → Bytes → Disk → Type 0
Apart p q w = str_eq p q ≡ false

set_same : (p b : Bytes) (files : Bytes → Option Bytes) → set p b files p ≡ some b
set_same p b files = rw (str_eq_refl p) refl

take_whole : (b : Bytes) → take (length b) b ≡ b
take_whole [] = refl
take_whole (c ∷ s) = ap (λ t. c ∷ t) (take_whole s)

take-nil : (n : ℕ) (u : Bytes) → take (suc n) u ≡ [] → u ≡ []
take-nil n [] e = refl
take-nil n (c ∷ s) e = absurd (cc)

did_read :
    (fd : ℕ) (w w' : Disk) (b : Bytes)
    → disk.read fd buff_size w ≡ some (b, w')
    → ◌≡◌ {A = Bytes × Disk}
        (take buff_size w.left, record w { left = drop buff_size w.left })
        (b, w')
did_read fd w w' b e = some-injective _ _ e

did_write :
    (fd : ℕ) (w w' : Disk) (b : Bytes) (n : ℕ)
    → disk.write fd b w ≡ some (n, w')
    → ◌≡◌ {A = ℕ × Disk}
        (length b, record w { files = set w.out (old_content (w.files w.out) ++ b) w.files })
        (n, w')
did_write fd w w' b n e = some-injective _ _ e

disk-IsStream : (r o : ℕ) (q : Bytes) → IsStream disk r o (content q) (IsOpen r o q)
disk-IsStream r o q = record {
  read_open = λ w w' b h e. sym (ap (λ p. p.1.out) (did_read r w w' b e)) ∙ h;
  write_open = λ w w' b n h e. sym (ap (λ p. p.1.out) (did_write o w w' b n e)) ∙ h;
  takes = λ w w' b h e.
      sym (take-append-drop buff_size w.left) ∙ ap (λ p. p.0 ++ p.1.left) (did_read r w w' b e);
  at_end = λ w w' h e. take-nil 1023 w.left (ap (λ p. p.0) (did_read r w w' [] e));
  read_only = λ w w' b h e. sym (ap (λ p. content q p.1) (did_read r w w' b e));
  appends = λ w w' b old n h c e.
      let both = did_write o w w' b n e in
      sym (ap (λ p. content q p.1) both)
      ∙ (subst
            (λ x.
              set x (old_content (w.files x) ++ b) w.files q ≡ some (old_content (w.files q) ++ b))
            (sym h) (set_same q (old_content (w.files q) ++ b) w.files)
          ∙ (ap (λ x. some (old_content x ++ b)) c
              ∙ ap (λ x. some (old ++ x))
                  (sym (take_whole b) ∙ ap (λ k. take k b) (ap (λ p. p.0) both))));
  progress = λ w w' b n h e k. subst (λ m. 0 < m) (ap (λ p. p.0) (did_write o w w' b n e)) k;
  write_only = λ w w' b n h e. sym (ap (λ p. p.1.left) (did_write o w w' b n e));
}

did_open :
    (p b : Bytes) (w w1 : Disk) (r : ℕ)
    → content p w ≡ some b
    → disk.open_read p w ≡ some (r, w1)
    → record w { left = b } ≡ w1
did_open p b w w1 r has e = ap (λ x. x.1) (some-injective _ _ (sym (ap (reading w) has) ∙ e))

did_create :
    (q : Bytes) (w w1 : Disk) (o : ℕ)
    → disk.open_write q w ≡ some (o, w1)
    → record w { files = set q [] w.files; out = q } ≡ w1
did_create q w w1 o e = ap (λ x. x.1) (some-injective _ _ e)

pub disk-IsStorage : IsStorage disk content Apart IsOpen
disk-IsStorage = record {
  opens = λ p q b w w1 w2 r o apart has readable writable.
      let first = did_open p b w w1 r has readable in
      let second = did_create q w1 w2 o writable in
      (
        sym (ap (λ v. v.out) second),
        sym (ap (λ v. v.left) second) ∙ sym (ap (λ v. v.left) first),
        sym (ap (λ v. v.files q) second) ∙ set_same q [] w1.files,
      );
  streams = disk-IsStream;
  close_keeps = λ fd q w. refl;
  chmod_keeps = λ p q mode w w' e. sym (ap (content q) (some-injective _ _ e));
  utimensat_keeps = λ p q time w w' e. sym (ap (content q) (some-injective _ _ e));
  mkdir_keeps = λ d p w w' e. absurd (cc);
  mkdir_apart = λ d p q w w' e. absurd (cc);
}

-- Where a file that is opened or written is not that at `p`, the content at `p` stays.
set_other :
    (p q b : Bytes) (files : Bytes → Option Bytes) → str_eq q p ≡ false → set q b files p ≡ files p
set_other p q b files ne = rw ne refl

none-ne_some : {A : Type 0} (a : A) → ◌≡◌ {A = Option A} none (some a) → ⊥
none-ne_some a e = cc

read_open_keeps :
    (p q : Bytes) (w w' : Disk) (fd : ℕ)
    → disk.open_read q w ≡ some (fd, w')
    → content p w' ≡ content p w
read_open_keeps p q w w' fd e = elim (Option-cases (w.files q)) [
  | inl nothing ↦ absurd (none-ne_some (fd, w') (sym (ap (reading w) nothing) ∙ e))
  | inr (b, found) ↦ sym (ap (content p) (did_open q b w w' fd found e))
]

pub disk-IsKept :
    (Makes Inside : Bytes → Type 0) (p : Bytes) (Inv : Disk → Type 0)
    → ((w w' : Disk) → content p w' ≡ content p w → Inv w → Inv w')
    → ((q : Bytes) → Inside q → Makes q)
    → ((q : Bytes) → Inside q → str_eq q p ≡ false)
    → IsKept disk Makes Inside Inv (λ fd w. str_eq w.out p ≡ false)
disk-IsKept Makes Inside p Inv stays makes apart = record {
  makes_inside = makes;
  visits_inside = λ q w vs h e. absurd (cc);
  mkdir_keeps = λ q w w' h i e. absurd (cc);
  remove_keeps = λ q w w' h i e. absurd (cc);
  unlink_keeps = λ q w w' h i e. absurd (cc);
  rename_keeps = λ q r w w' h k i e. absurd (cc);
  chmod_keeps = λ q mode w w' h i e. subst Inv (some-injective w w' e) i;
  utimensat_keeps = λ q time w w' h i e. subst Inv (some-injective w w' e) i;
  utimensat_link_keeps = λ q a m w w' h i e. subst Inv (some-injective w w' e) i;
  symlink_keeps = λ text q w w' h i e. absurd (cc);
  open_read_keeps = λ q w w' fd i e. stays w w' (read_open_keeps p q w w' fd e) i;
  open_write_keeps = λ q w w' fd h i e.
      let new = did_create q w w' fd e in
      (
        stays w w' (sym (ap (content p) new) ∙ set_other p q [] w.files (apart q h)) i,
        subst (λ v. str_eq v.out p ≡ false) new (apart q h),
      );
  read_keeps = λ fd n out w w' x (i, ne) e.
      let new : record w { left = drop n w.left } ≡ w' = ap (λ r. r.1) (some-injective _ _ e) in
      (stays w w' (sym (ap (content p) new)) i, subst (λ v. str_eq v.out p ≡ false) new ne);
  write_keeps = λ fd n w w' x (i, ne) e.
      let new = ap (λ r. r.1) (did_write fd w w' x n e) in
      (
        stays w w'
            (sym (ap (content p) new)
              ∙ set_other p w.out (old_content (w.files w.out) ++ x) w.files ne)
            i,
        subst (λ v. str_eq v.out p ≡ false) new ne,
      );
  close_keeps = λ fd w i. i;
}
