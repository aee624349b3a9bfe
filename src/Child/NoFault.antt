-- ===== src/Child/NoFault.antt =====
-- A child never reads through NULL.
use unix_backup_c.Common.{
  ℕ, ◌≡◌, refl, sym, ◌≢◌, Bool, true, false, Option, none, some, List, [], ◌∷◌, if◌then◌else◌, All,
}
use mathlib.Core.Path.{subst}
use unix_backup_c.Types.{Watch, Move, Event}
use unix_backup_c.Events.Inside.{IsEvent}
use unix_backup_c.Outcome.{Outcome, ok, exited, fault, and_then}
use unix_backup_c.Child.Files.{Files, Visits}
use unix_backup_c.Child.Folders.{Pair, Env, initial_backup}
use unix_backup_c.Child.Moves.{check_move_events_list}
use unix_backup_c.Child.Handler.{State, event_handler}
use unix_backup_c.Child.Handler.NoFault.{IsFinal, AllKnown, event_handler_no_fault}
use unix_backup_c.Child.Jobs.{
  Reads, inotify_reader, check_moves, inotify_jobs, Round, rounds, child_loop,
}
use unix_backup_c.Child.Queued.{
  IsFinalRaw, events_of, queue, queue-IsFinal, queue-AllKnown, Queues, inotify_reader-Queues,
}
use unix_backup_c.Child.Confined.{IsConfined}
use unix_backup_c.Child.Confined.Walks.{SoundStart, initial_backup-Sound}
use unix_backup_c.Child.Confined.Dict.{SoundDict, check_move_events_list-Sound}
use unix_backup_c.Child.Confined.Blocks.{IsSafe, SafeResult, event_handler-Safe}
use unix_backup_c.Child.Confined.Rounds.{Queued, inotify_reader-Queued}

module _ (files : Files) (pair : Pair) (visits : Visits files) where
  -- Nothing is asked of the files: what stays is that the watches, the events and the moves are on
  -- paths of the source.
  abbrev Any : files.World → Type 0
  Any w = Unit

  confined : IsConfined files pair Any
  confined = record {
    visits = visits;
    inotify_init_keeps = λ w w' fd i e. tt;
    add_watch_keeps = λ p w w' wd i e. tt;
    rm_watch_keeps = λ wd w i. tt;
    create_empty_files_keeps = λ dest src w w' h i e. tt;
    copy_files_keeps = λ dest src w w' h i e. tt;
    attribs_keeps = λ dest src w w' h i e. tt;
    delete_multi_keeps = λ dest w w' h i e. tt;
    move_all_keeps = λ dest suffix w w' h b i e. tt;
    backup_walk_keeps = λ path flag w w' h i e. tt;
  }

  abbrev Safe : State files pair → Type 0
  Safe = IsSafe files pair Any confined

  abbrev Runs : Outcome (State files pair) → Type 0
  Runs (ok s) = Safe s
  Runs exited = Unit
  Runs fault = ⊥

  Runs-of_both :
      (m : Outcome (State files pair)) → m ≢ fault → SafeResult files pair Any confined m → Runs m
  Runs-of_both (ok s) h i = i
  Runs-of_both exited h i = tt
  Runs-of_both fault h i = absurd (h refl)

  and_then-Runs :
      (m : Outcome (State files pair)) (f : State files pair → Outcome (State files pair))
      → Runs m
      → ((s : State files pair) → Safe s → Runs (f s))
      → Runs (and_then m f)
  and_then-Runs (ok s) f h k = k s h
  and_then-Runs exited f h k = tt
  and_then-Runs fault f h k = h

  checked :
      (s : State files pair) (r : Option (List Move × Env files))
      → SoundDict files pair Any confined r
      → Runs (elim r [
        | none ↦ exited
        | some r ↦ ok (record s { mov_dict = r.0; world = r.1.0; watchers = r.1.1 })
      ])
  checked s none g = tt
  checked s (some r) g = record { world = g.1.0; watchers = g.1.1; mov_dict = g.0 }

  check_moves-Runs : (now : ℕ) (s : State files pair) → Safe s → Runs (check_moves files pair now s)
  unfolding check_moves
  check_moves-Runs now s i =
      checked s (check_move_events_list files pair now s.mov_dict (s.world, s.watchers)) (
        check_move_events_list-Sound files pair Any confined now s.mov_dict (s.world, s.watchers)
          i.mov_dict (i.world, i.watchers))

  handled :
      (clock : ℕ → ℕ) (reads : Reads) (es : List Event) (s : State files pair)
      → IsFinalRaw (events_of reads)
      → Safe s
      → es ≡ queue s.watchers (events_of reads)
      → All (IsEvent pair.source_full) es
      → Runs (event_handler files pair clock es s)
  handled clock reads es s final i queued inside =
      Runs-of_both (event_handler files pair clock es s)
        (event_handler_no_fault files pair clock es s
          (subst IsFinal (sym queued) (queue-IsFinal s.watchers (events_of reads) final))
          (subst (AllKnown pair.source_full s.watchers) (sym queued)
            (queue-AllKnown pair.source_full s.watchers (events_of reads) i.watchers)))
        (event_handler-Safe files pair Any confined clock es s inside i)

  read_then :
      (ws : List Watch) (reads : Reads) (m : Outcome (List Event))
      (f : List Event → Outcome (State files pair))
      → Queues ws reads [] m
      → Queued pair.source_full m
      → ((es : List Event)
          → es ≡ queue ws (events_of reads)
          → All (IsEvent pair.source_full) es
          → Runs (f es))
      → Runs (and_then m f)
  read_then ws reads (ok es) f q inside k = k es q inside
  read_then ws reads exited f q inside k = tt
  read_then ws reads fault f q inside k = q

  inotify_jobs-Runs :
      (clock : ℕ → ℕ) (now : ℕ) (reads : Reads) (s : State files pair)
      → IsFinalRaw (events_of reads)
      → Safe s
      → Runs (inotify_jobs files pair clock now reads s)
  unfolding inotify_jobs
  inotify_jobs-Runs clock now reads s final i =
      read_then s.watchers reads (inotify_reader s.watchers reads []) _
        (inotify_reader-Queues s.watchers reads [])
        (inotify_reader-Queued pair.source_full s.watchers reads [] i.watchers tt)
        (λ es queued inside.
          and_then-Runs (event_handler files pair clock es s) _
            (handled clock reads es s final i queued inside) (check_moves-Runs now))

  leaving_or :
      (b : Bool) (s : State files pair) (r : Outcome (State files pair))
      → Safe s
      → Runs r
      → Runs (if b then ok s else r)
  leaving_or true s r i h = i
  leaving_or false s r i h = h

  rounds-Runs :
      (rs : List (Round files pair)) (s : State files pair)
      → All (λ r. IsFinalRaw (events_of r.reads)) rs
      → Safe s
      → Runs (rounds files pair rs s)
  unfolding rounds
  rounds-Runs [] s final i = i
  rounds-Runs (r ∷ more) s (here, final) i = leaving_or s.should_exit s _ i (
      and_then-Runs (inotify_jobs files pair r.clock r.now r.reads s) _
        (inotify_jobs-Runs r.clock r.now r.reads s here i) (λ s' i'. rounds-Runs more s' final i'))

  started :
      (rs : List (Round files pair)) (r : Option (ℕ × Env files))
      → All (λ r. IsFinalRaw (events_of r.reads)) rs
      → SoundStart files pair Any confined r
      → Runs (elim r [
        | none ↦ exited
        | some (fd, env) ↦
            rounds files pair rs
              (record { world = env.0; watchers = env.1; mov_dict = []; should_exit = false })
      ])
  started rs none final g = tt
  started rs (some (fd, env)) final g =
      rounds-Runs rs _ final (record { world = g.0; watchers = g.1; mov_dict = tt })

  child_loop-Runs :
      (rs : List (Round files pair)) (w : files.World)
      → All (λ r. IsFinalRaw (events_of r.reads)) rs
      → Runs (child_loop files pair rs w)
  unfolding child_loop
  child_loop-Runs rs w final =
      started rs (initial_backup files pair none (w, [])) final
        (initial_backup-Sound files pair Any confined none (w, []) (tt, tt))

  not_fault : (m : Outcome (State files pair)) → Runs m → m ≢ fault
  not_fault (ok s) h = λ e. cc
  not_fault exited h = λ e. cc
  not_fault fault h = absurd h

  -- Where nftw visits nothing outside its path, and in each round no event comes from a descriptor
  -- behind an IN_IGNORED of it, a child never reads a field through NULL: from the initial backup
  -- on, any number of rounds ends in a state or with the process.
  pub child_loop_no_fault :
      (rs : List (Round files pair)) (w : files.World)
      → All (λ r. IsFinalRaw (events_of r.reads)) rs
      → child_loop files pair rs w ≢ fault
  child_loop_no_fault rs w final =
      not_fault (child_loop files pair rs w) (child_loop-Runs rs w final)
