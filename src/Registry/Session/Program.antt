-- ===== src/Registry/Session/Program.antt =====
-- `main` of src/main.c behind its signal handlers: the session, and the wait for the children.
use unix_backup_c.Common.{◌≡◌, refl, Bool, true, false, ◌&&◌, List, [], ◌∷◌, ltb, if◌then◌else◌}
use unix_backup_c.Outcome.{Outcome, ok, exited, fault, and_then}
use unix_backup_c.Registry.{Os, Main}
use unix_backup_c.Registry.Session.{Read, input_round, stop_all_backups, input_handler}

-- The calls of the parent, and `while (wait(NULL) > 0)`.
module _ (os : Os) (wait_all : os.World → os.World) where
  -- `init_lists`
  abbrev pub init_lists : os.World → Main os
  init_lists w = record { world = w; backups = []; child_count = 0 }

  -- The end of `main`, behind a session that has ended.
  unfoldable pub wait_children : Bool × Main os → Bool × os.World
  wait_children (ended, m) =
      (ended, if ended && ltb 0 m.child_count then wait_all m.world else m.world)

  unfoldable pub main : List Read → os.World → Outcome (Bool × os.World)
  main rs w = and_then (input_handler os rs (init_lists w)) (λ r. ok (wait_children r))

module _ (os : Os) where
  -- The world that a session leaves, without any wait.
  abbrev pub session : List Read → Main os → Outcome (Bool × os.World)
  session rs m = and_then (input_handler os rs m) (λ r. ok (r.0, r.1.world))

  next_unwaited :
      (wait_all : os.World → os.World) (rs : List Read) (r : Outcome (Bool × Main os))
      → ((m : Main os)
          → and_then (input_handler os rs m) (λ s. ok (wait_children os wait_all s)) ≡ session rs m)
      → and_then
          (and_then r λ (stop, m). elim stop [
            | true ↦ ok (true, stop_all_backups os m)
            | false ↦ input_handler os rs m
          ])
          (λ s. ok (wait_children os wait_all s))
        ≡ and_then
            (and_then r λ (stop, m). elim stop [
              | true ↦ ok (true, stop_all_backups os m)
              | false ↦ input_handler os rs m
            ])
            (λ s. ok (s.0, s.1.world))
  unfolding wait_children stop_all_backups
  next_unwaited wait_all rs (ok (true, m)) more = refl
  next_unwaited wait_all rs (ok (false, m)) more = more m
  next_unwaited wait_all rs exited more = refl
  next_unwaited wait_all rs fault more = refl

  unwaited :
      (wait_all : os.World → os.World) (rs : List Read) (m : Main os)
      → and_then (input_handler os rs m) (λ s. ok (wait_children os wait_all s)) ≡ session rs m
  unfolding input_handler wait_children
  unwaited wait_all [] m = refl
  unwaited wait_all (r ∷ rs) m =
      next_unwaited wait_all rs (input_round os r m) (λ m'. unwaited wait_all rs m')

  -- Whatever lines and signals a session gets: `main` leaves the world as the session leaves it and
  -- never waits for a child, since `stop_all_backups` sets `child_count` to 0 before the test.
  pub main-eq-session :
      (wait_all : os.World → os.World) (rs : List Read) (w : os.World)
      → main os wait_all rs w ≡ session rs (init_lists os wait_all w)
  unfolding main
  main-eq-session wait_all rs w = unwaited wait_all rs (init_lists os wait_all w)
