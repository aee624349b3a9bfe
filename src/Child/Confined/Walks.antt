-- ===== src/Child/Confined/Walks.antt =====
-- The walks of src/inotify_functions.c change nothing outside the target.
use unix_backup_c.Common.{
  ℕ, ◌≡◌, refl, inl, inr, Option, none, some, List, [], ◌∷◌, ◌>>=◌, >>=-eq-some, Option-cases, All,
  All-append,
}
use unix_backup_c.Common.Bytes.{Bytes}
use mathlib.Core.Path.{subst}
use unix_backup_c.Child.Folders.{initial_backup}
use mathlib.Core.Option.{some-injective}
use unix_backup_c.Paths.Inside.{Within}
use unix_backup_c.System.{Flag, ftw_d, ftw_f, ftw_sl, ftw_other}
use unix_backup_c.Events.Inside.{IsWatch}
use unix_backup_c.Child.Files.{Files}
use unix_backup_c.Child.Folders.{
  Pair, Env, backup_walk_inotify_init, watch_all, copy_all, new_folder_init,
}
use unix_backup_c.Child.Folders.Laws.{watch_for-IsWatch, Within-all}
use unix_backup_c.Child.Confined.{Watch, IsConfined, Good, GoodResult, >>=-Good, world_then}

module _ (files : Files) (pair : Pair) (Inv : files.World → Type 0)
    (confined : IsConfined files pair Inv) where
  abbrev Sound : Env files → Type 0
  Sound = Good files pair Inv

  abbrev SoundResult : Option (Env files) → Type 0
  SoundResult = GoodResult files pair Inv

  visit-Sound :
      (path : Bytes) (flag : Flag) (env : Env files)
      → Within pair.source_full path
      → Sound env
      → SoundResult (backup_walk_inotify_init files pair path flag env)
  unfolding backup_walk_inotify_init
  visit-Sound path ftw_d (w, ws) inside (i, sound) = elim (Option-cases (files.add_watch path w)) [
    | inl failed ↦ rw failed tt
    | inr ((wd, w'), added) ↦ rw added (
      confined.add_watch_keeps path w w' wd i added,
      All-append (IsWatch pair.source_full) ws _ sound (watch_for-IsWatch pair wd path inside, tt),
    )
  ]
  visit-Sound path ftw_f env inside g = g
  visit-Sound path ftw_sl env inside g = g
  visit-Sound path ftw_other env inside g = g

  watch_all-Sound :
      (entries : List (Bytes × Flag)) (env : Env files)
      → All (λ e. Within pair.source_full e.0) entries
      → Sound env
      → SoundResult (watch_all files pair entries env)
  unfolding watch_all
  watch_all-Sound [] env inside g = g
  watch_all-Sound ((path, flag) ∷ more) env (here, inside) g =
      >>=-Good files pair Inv _ _ (visit-Sound path flag env here g)
        (λ e h. watch_all-Sound more e inside h)

  copy_all-Inv :
      (entries : List (Bytes × Flag)) (w w' : files.World)
      → All (λ e. Within pair.source_full e.0) entries
      → Inv w
      → copy_all files pair entries w ≡ some w'
      → Inv w'
  unfolding copy_all
  copy_all-Inv [] w w' inside i e = subst Inv (some-injective _ _ e) i
  copy_all-Inv ((path, flag) ∷ more) w w' (here, inside) i e =
      let (w1, copied, rest) =
        >>=-eq-some (files.backup_walk pair.source_full pair.target_full path flag w) _ e in
      copy_all-Inv more w1 w' inside (confined.backup_walk_keeps path flag w w1 here i copied) rest

  walk_inside :
      (path : Bytes) (w : files.World)
      → Within pair.source_full path
      → All (λ e. Within pair.source_full e.0) (files.nftw path w)
  walk_inside path w inside =
      Within-all files pair.source_full path (files.nftw path w) inside (confined.visits path w)

  pub new_folder_init-Sound :
      (path : Bytes) (env : Env files)
      → Within pair.source_full path
      → Sound env
      → SoundResult (new_folder_init files pair path env)
  unfolding new_folder_init
  new_folder_init-Sound path (w, ws) inside g =
      >>=-Good files pair Inv (watch_all files pair (files.nftw path w) (w, ws)) _
        (watch_all-Sound (files.nftw path w) (w, ws) (walk_inside path w inside) g)
        (λ (w1, ws1) (i, sound).
          world_then files pair Inv ws1 (copy_all files pair (files.nftw path w1) w1) sound
            (λ w2 copied. copy_all-Inv _ w1 w2 (walk_inside path w1 inside) i copied))

  abbrev pub SoundStart : Option (ℕ × Env files) → Type 0
  SoundStart none = Unit
  SoundStart (some (fd, env)) = Good files pair Inv env

  copied_start :
      (fd : ℕ) (ws : List Watch) (m : Option files.World)
      → All (IsWatch pair.source_full) ws
      → ((w : files.World) → m ≡ some w → Inv w)
      → SoundStart (m >>= λ w. some (fd, (w, ws)))
  copied_start fd ws none sound h = tt
  copied_start fd ws (some w) sound h = (h w refl, sound)

  walked_start :
      (fd : ℕ) (m : Option (Env files))
      → SoundResult m
      → SoundStart (
          m >>= λ (w1, ws1).
          (copy_all files pair (files.nftw pair.source_full w1) w1 >>= λ w2. some (fd, (w2, ws1))))
  walked_start fd none g = tt
  walked_start fd (some (w1, ws1)) (i, sound) =
      copied_start fd ws1 (copy_all files pair (files.nftw pair.source_full w1) w1) sound
        (λ w2 copied. copy_all-Inv _ w1 w2 (confined.visits pair.source_full w1) i copied)

  pub initial_backup-Sound :
      (fd : Option ℕ) (env : Env files) → Sound env → SoundStart (initial_backup files pair fd env)
  unfolding initial_backup
  initial_backup-Sound (some fd) (w, ws) (i, sound) =
      copied_start fd ws (copy_all files pair (files.nftw pair.source_full w) w) sound
        (λ w' copied. copy_all-Inv _ w w' (confined.visits pair.source_full w) i copied)
  initial_backup-Sound none (w, ws) (i, sound) = elim (Option-cases (files.inotify_init w)) [
    | inl failed ↦ rw (failed, SoundStart) tt
    | inr ((fd, w1), opened) ↦
        rw (opened, SoundStart)
          (walked_start fd (watch_all files pair (files.nftw pair.source_full w1) (w1, ws)) (
            watch_all-Sound (files.nftw pair.source_full w1) (w1, ws)
              (confined.visits pair.source_full w1)
              (confined.inotify_init_keeps w w1 fd i opened, sound)))
  ]
