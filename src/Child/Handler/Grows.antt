-- ===== src/Child/Handler/Grows.antt =====
-- The file operations of a child only ever add watches: a descriptor that is known stays known.
use unix_backup_c.Common.{
  ℕ, ◌≡◌, inl, inr, Bool, true, false, Option, none, some, List, [], ◌∷◌, ◌++◌, arith, ◌==◌, ◌>>=◌,
  if◌then◌else◌, Bool-cases, Option-cases,
}
use unix_backup_c.Common.Bytes.{Bytes}
use unix_backup_c.Types.{Watch}
use unix_backup_c.Dlist.Refine.{exists}
use unix_backup_c.Watches.{has_wd}
use unix_backup_c.Paths.{get_end_suffix}
use unix_backup_c.Child.Files.{Files}
use unix_backup_c.System.{Flag, ftw_d}
use unix_backup_c.Types.{Move}
use unix_backup_c.Child.Moves.{
  match_all, completed_move, expired_move, expired_to, expired_from, add_move_event, is_expired,
  is_complete, match_node, new_move,
}
use unix_backup_c.Child.Folders.{
  Pair, Env, backup_walk_inotify_init, watch_all, copy_all, new_folder_init,
}

-- Every descriptor that has a watch in the first list has one in the second.
abbrev pub Grows : List Watch → List Watch → Type 0
Grows ws ws' = (wd : ℕ) → exists (has_wd wd) ws ≡ true → exists (has_wd wd) ws' ≡ true

pub Grows-refl : (ws : List Watch) → Grows ws ws
Grows-refl ws wd h = h

pub Grows-append : (ws vs : List Watch) → Grows ws (ws ++ vs)
Grows-append [] vs wd h = cc
Grows-append (w ∷ ws) vs wd h = ground (arith, Grows-append ws vs wd)

module _ (files : Files) (pair : Pair) where
  -- What a step may do to the watches, where it does not end the process.
  abbrev pub GrowsEnv : Env files → Option (Env files) → Type 0
  GrowsEnv env none = Unit
  GrowsEnv env (some env') = Grows env.1 env'.1

  visit-Grows :
      (path : Bytes) (flag : Flag) (env : Env files)
      → GrowsEnv env (backup_walk_inotify_init files pair path flag env)
  unfolding backup_walk_inotify_init
  visit-Grows path ftw_d (w, ws) = elim (Option-cases (files.add_watch path w)) [
    | inl failed ↦ rw failed tt
    | inr ((wd, w'), added) ↦ rw added (Grows-append ws _)
  ]
  visit-Grows path flag (w, ws) = Grows-refl ws

  GrowsEnv-trans :
      (env e : Env files) (r : Option (Env files)) → Grows env.1 e.1 → GrowsEnv e r → GrowsEnv env r
  GrowsEnv-trans env e none g h = tt
  GrowsEnv-trans env e (some e') g h = λ wd k. h wd (g wd k)

  >>=-Grows :
      (env : Env files) (m : Option (Env files)) (f : Env files → Option (Env files))
      → GrowsEnv env m
      → ((e : Env files) → GrowsEnv e (f e))
      → GrowsEnv env (m >>= f)
  >>=-Grows env none f g h = tt
  >>=-Grows env (some e) f g h = GrowsEnv-trans env e (f e) g (h e)

  watch_all-Grows :
      (entries : List (Bytes × Flag)) (env : Env files)
      → GrowsEnv env (watch_all files pair entries env)
  unfolding watch_all
  watch_all-Grows [] env = Grows-refl env.1
  watch_all-Grows ((path, flag) ∷ more) env =
      >>=-Grows env _ _ (visit-Grows path flag env) (watch_all-Grows more)

  pub new_folder_init-Grows :
      (path : Bytes) (env : Env files) → GrowsEnv env (new_folder_init files pair path env)
  unfolding new_folder_init
  new_folder_init-Grows path (w, ws) =
      >>=-Grows (w, ws) (watch_all files pair (files.nftw path w) (w, ws)) _
        (watch_all-Grows (files.nftw path w) (w, ws))
        (λ e. elim (Option-cases (copy_all files pair (files.nftw path e.0) e.0)) [
          | inl failed ↦ rw failed tt
          | inr (w', copied) ↦ rw copied (Grows-refl e.1)
        ])

  -- A change of the world alone.
  world_then :
      (w : files.World) (ws : List Watch) (m : Option files.World)
      → GrowsEnv (w, ws) (m >>= λ w'. some (w', ws))
  world_then w ws none = tt
  world_then w ws (some w') = Grows-refl ws

  completed_move-Grows :
      (m : Move) (env : Env files) → GrowsEnv env (completed_move files pair m env)
  unfolding completed_move
  completed_move-Grows m (w, ws) =
      elim (Option-cases (get_end_suffix (some pair.source_full) m.move_from)) [
        | inl missing ↦ rw (missing, GrowsEnv) (Grows-refl ws)
        | inr (suf_from, found) ↦ rw (found, GrowsEnv) (world_then w ws _)
      ]

  expired_move-Grows :
      (from to : Option Bytes) (env : Env files)
      → GrowsEnv env (expired_move files pair from to env)
  unfolding expired_move expired_to expired_from
  expired_move-Grows none none env = Grows-refl env.1
  expired_move-Grows (some from) (some to) env = Grows-refl env.1
  expired_move-Grows (some from) none (w, ws) = world_then w ws _
  expired_move-Grows none (some to) (w, ws) = elim (Option-cases (files.lstat_is_dir to w)) [
    | inl gone ↦ rw (gone, GrowsEnv) (Grows-refl ws)
    | inr (true, dir) ↦ rw (dir, GrowsEnv) (new_folder_init-Grows to (w, ws))
    | inr (false, file) ↦ rw (file, GrowsEnv) (world_then w ws _)
  ]

  -- The same for a walk over the dictionary.
  abbrev GrowsWalk : Env files → Option (Bool × List Move × Env files) → Type 0
  GrowsWalk env none = Unit
  GrowsWalk env (some r) = Grows env.1 r.2.1

  GrowsWalk-trans :
      (env e : Env files) (r : Option (Bool × List Move × Env files))
      → Grows env.1 e.1
      → GrowsWalk e r
      → GrowsWalk env r
  GrowsWalk-trans env e none g h = tt
  GrowsWalk-trans env e (some r) g h = λ wd k. h wd (g wd k)

  then_walk :
      (env : Env files) (m : Option (Env files))
      (f : Env files → Option (Bool × List Move × Env files))
      → GrowsEnv env m
      → ((e : Env files) → GrowsWalk e (f e))
      → GrowsWalk env (m >>= f)
  then_walk env none f g h = tt
  then_walk env (some e) f g h = GrowsWalk-trans env e (f e) g (h e)

  -- A walk whose answer or entries are changed afterwards.
  walk_then :
      (env : Env files) (m : Option (Bool × List Move × Env files))
      (f : Bool × List Move → Bool × List Move)
      → GrowsWalk env m
      → GrowsWalk env (m >>= λ r. some ((f (r.0, r.1)).0, (f (r.0, r.1)).1, r.2))
  walk_then env none f g = tt
  walk_then env (some r) f g = g

  match_all-Grows :
      (cookie : ℕ) (is_from : Bool) (path : Bytes) (now : ℕ) (ms : List Move) (env : Env files)
      → GrowsWalk env (match_all files pair cookie is_from path now ms env)
  unfolding match_all
  match_all-Grows cookie is_from path now [] env = Grows-refl env.1
  match_all-Grows cookie is_from path now (m ∷ ms) env =
      let ih = match_all-Grows cookie is_from path now ms in
      elim (Bool-cases (m.cookie == cookie)) [
        | inl same ↦ elim (Bool-cases (is_complete (match_node is_from path now m))) [
          | inl full ↦
              rw (same, full, match_all)
                (then_walk env _ _ (completed_move-Grows (match_node is_from path now m) env)
                  (λ e. walk_then e _ (λ r. (true, r.1)) (ih e)))
          | inr part ↦
              rw (same, part, match_all)
                (walk_then env _ (λ r. (true, match_node is_from path now m ∷ r.1)) (ih env))
        ]
        | inr other ↦ elim (Bool-cases (is_expired now m)) [
          | inl old ↦
              rw (other, old, match_all)
                (then_walk env _ _ (expired_move-Grows m.move_from m.move_to env) ih)
          | inr young ↦
              rw (other, young, match_all) (walk_then env _ (λ r. (r.0, m ∷ r.1)) (ih env))
        ]
      ]

  -- The same for the result of `add_move_event`.
  abbrev pub GrowsDict : Env files → Option (List Move × Env files) → Type 0
  GrowsDict env none = Unit
  GrowsDict env (some r) = Grows env.1 r.1.1

  added :
      (env : Env files) (r : Option (Bool × List Move × Env files)) (m : Move)
      → GrowsWalk env r
      → GrowsDict env (
          r >>= λ (found, rest, env').
          if found then some (rest, env') else some (rest ++ (m ∷ []), env'))
  added env none m g = tt
  added env (some (true, rest, env')) m g = g
  added env (some (false, rest, env')) m g = g

  pub add_move_event-Grows :
      (cookie : ℕ) (is_from : Bool) (path : Bytes) (now : ℕ) (ms : List Move) (env : Env files)
      → GrowsDict env (add_move_event files pair cookie is_from path now ms env)
  unfolding add_move_event
  add_move_event-Grows cookie is_from path now ms env =
      added env (match_all files pair cookie is_from path now ms env)
        (new_move cookie is_from path now) (match_all-Grows cookie is_from path now ms env)
