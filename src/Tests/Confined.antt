-- ===== src/Tests/Confined.antt =====
-- A child on directories as a list of their paths, and what it leaves alone.
use unix_backup_c.Common.{
  ℕ, ◌≡◌, refl, sym, ap, ◌≢◌, inl, inr, false, some, List, [], ◌∷◌, arith, Bool-cases,
}
use unix_backup_c.Common.Bytes.{Bytes, bytes, str_eq, str_eq_sound}
use mathlib.Core.List.{append-nil}
use mathlib.Core.Path.{subst}
use unix_backup_c.Reader.{read_events}
use unix_backup_c.Outcome.{fault}
use unix_backup_c.Child.Files.{Visits}
use unix_backup_c.Child.NoFault.{child_loop_no_fault}
use unix_backup_c.Types.{Watch}
use unix_backup_c.Child.Folders.Laws.{watch_for, watch_for-IsWatch}
use unix_backup_c.Child.Jobs.{inotify_reader}
use unix_backup_c.Child.Confined.Rounds.{Queued, inotify_reader-Queued}
use unix_backup_c.Paths.Mirror.{IsTrimmed}
use mathlib.Core.Option.{some-injective}
use unix_backup_c.System.{done, ftw_d, Sys}
use unix_backup_c.Paths.Inside.{Within}
use unix_backup_c.FileOps.Kept.{IsKept}
use unix_backup_c.Child.Folders.{Pair}
use unix_backup_c.Child.Jobs.{Round, child_loop, again, chunk}
use unix_backup_c.Child.Calls.{files_of}
use unix_backup_c.FileOps.Places.{IsMade}
use unix_backup_c.Child.Confined.Calls.{IsWatching, WorldKept, child_loop-confined}
use unix_backup_c.Tests.Files.{dirs_only, listed, dir_stat, world_of}

abbrev pub watched_dirs : Sys
watched_dirs = record dirs_only {
  nftw = λ path w. record { path = path; stat = dir_stat; flag = ftw_d } ∷ [];
  inotify_init = λ w. some (3, w);
  add_watch = λ path w. some (1, w);
}

abbrev s_to_t : Pair
s_to_t = record { source_full = bytes "/s"; source_friendly = bytes "/s"; target_full = bytes "/t" }

abbrev pub NoHome : List Bytes → Type 0
NoHome w = listed (bytes "/home") w ≡ false

abbrev second : Bytes → ℕ
second [] = 0
second (c ∷ []) = 0
second (c ∷ d ∷ s) = d

home_not_made : IsMade (bytes "/t") (bytes "/home") → ⊥
home_not_made (inl (rest, e, b)) = let h : 104 ≡ 116 = ap second e in omega (arith, h)
home_not_made (inr (b, e)) = let h : 116 ≡ 104 = ap second e in omega (arith, h)

home-ne_made : (p : Bytes) → IsMade (bytes "/t") p → str_eq p (bytes "/home") ≡ false
home-ne_made p made = elim (Bool-cases (str_eq p (bytes "/home"))) [
  | inl same ↦
      absurd
        (home_not_made (subst (IsMade (bytes "/t")) (str_eq_sound p (bytes "/home") same) made))
  | inr differs ↦ differs
]

mkdir-NoHome :
    (p : Bytes) (w w' : List Bytes)
    → IsMade (bytes "/t") p
    → NoHome w
    → watched_dirs.mkdir p w ≡ done w'
    → NoHome w'
mkdir-NoHome p w w' made old e = elim (Bool-cases (listed p w)) [
  | inl there ↦ absurd (ground (arith, there, e))
  | inr new ↦
      subst (λ r. NoHome (world_of w r)) e (rw new (ground (arith, home-ne_made p made, old)))
]

pub watched_dirs-IsKept :
    IsKept watched_dirs (IsMade (bytes "/t")) (Within (bytes "/t")) NoHome (λ fd w. Unit)
watched_dirs-IsKept = record {
  makes_inside = λ p h. inl h;
  visits_inside = λ p w vs h e. absurd (cc);
  mkdir_keeps = mkdir-NoHome;
  remove_keeps = λ p w w' h i e. absurd (cc);
  unlink_keeps = λ p w w' h i e. absurd (cc);
  rename_keeps = λ p q w w' h k i e. absurd (cc);
  chmod_keeps = λ p mode w w' h i e. subst NoHome (some-injective w w' e) i;
  utimensat_keeps = λ p time w w' h i e. subst NoHome (some-injective w w' e) i;
  utimensat_link_keeps = λ p a m w w' h i e. subst NoHome (some-injective w w' e) i;
  symlink_keeps = λ text p w w' h i e. absurd (cc);
  open_read_keeps = λ p w w' fd i e. absurd (cc);
  open_write_keeps = λ p w w' fd h i e. absurd (cc);
  read_keeps = λ fd n out w w' b i e. absurd (cc);
  write_keeps = λ fd n w w' b i e. absurd (cc);
  close_keeps = λ fd w i. i;
}

watched_dirs-IsWatching : IsWatching watched_dirs NoHome
watched_dirs-IsWatching = record {
  visits = λ path w. (([], sym (append-nil path), tt), tt);
  init_keeps = λ w w' fd i e. subst NoHome (ap (λ p. p.1) (some-injective _ _ e)) i;
  add_keeps = λ p w w' wd i e. subst NoHome (ap (λ p. p.1) (some-injective _ _ e)) i;
  rm_keeps = λ wd w i. i;
}

-- A round in which the directory `a` appears in the source.
abbrev one_round : Round (files_of watched_dirs) s_to_t
one_round = record {
  clock = λ n. 0;
  now = 0;
  reads =
      chunk (1 ∷ 0 ∷ 0 ∷ 0 ∷ 0 ∷ 1 ∷ 0 ∷ 64 ∷ 0 ∷ 0 ∷ 0 ∷ 0 ∷ 4 ∷ 0 ∷ 0 ∷ 0 ∷ 97 ∷ 0 ∷ 0 ∷ 0 ∷ [])
        [] again;
}

t-IsTrimmed : IsTrimmed (bytes "/t")
t-IsTrimmed = λ e. cc

child_loop-confined_example :
    WorldKept watched_dirs s_to_t t-IsTrimmed NoHome
      (λ fd w. Unit)
      watched_dirs-IsKept
      watched_dirs-IsWatching
      (child_loop (files_of watched_dirs) s_to_t (one_round ∷ []) [])
child_loop-confined_example =
    child_loop-confined watched_dirs s_to_t t-IsTrimmed NoHome (λ fd w. Unit) watched_dirs-IsKept
      watched_dirs-IsWatching (one_round ∷ []) [] refl

abbrev s_watch : Watch
s_watch = watch_for s_to_t 1 (bytes "/s")

inotify_reader-Queued_example :
    Queued (bytes "/s") (inotify_reader (s_watch ∷ []) one_round.reads [])
inotify_reader-Queued_example =
    inotify_reader-Queued (bytes "/s") (s_watch ∷ []) one_round.reads []
      (watch_for-IsWatch s_to_t 1 (bytes "/s") ([], refl, tt), tt) tt

watched_dirs-Visits : Visits (files_of watched_dirs)
watched_dirs-Visits path w = (([], sym (append-nil path), tt), tt)

child_loop_no_fault_example : child_loop (files_of watched_dirs) s_to_t (one_round ∷ []) [] ≢ fault
unfolding read_events
child_loop_no_fault_example =
    child_loop_no_fault (files_of watched_dirs) s_to_t watched_dirs-Visits (one_round ∷ []) []
      (((λ h. tt), tt), tt)
