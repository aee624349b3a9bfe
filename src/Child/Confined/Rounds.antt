-- ===== src/Child/Confined/Rounds.antt =====
-- The rounds of a child change nothing outside the target.
use unix_backup_c.Common.{
  ℕ, Bool, true, false, Option, none, some, List, [], ◌∷◌, if◌then◌else◌, length, All,
}
use unix_backup_c.Common.Bytes.{Bytes}
use unix_backup_c.Types.{Watch, Move, Event}
use unix_backup_c.Events.{RawEvent, enqueue}
use unix_backup_c.Events.Inside.{IsWatch, IsEvent, enqueue-IsEvent}
use unix_backup_c.Reader.{read_events, Status, whole, partial_header, partial_read}
use unix_backup_c.Outcome.{Outcome, ok, exited, fault, and_then}
use unix_backup_c.Child.Files.{Files}
use unix_backup_c.Child.Folders.{Pair, Env, initial_backup}
use unix_backup_c.Child.Moves.{check_move_events_list}
use unix_backup_c.Child.Handler.{State, event_handler}
use unix_backup_c.Child.Jobs.{
  Reads, again, refused, chunk, enqueue_all, inotify_reader, check_moves, inotify_jobs, Round,
  rounds, child_loop,
}
use unix_backup_c.Child.Confined.{IsConfined}
use unix_backup_c.Child.Confined.Walks.{SoundStart, initial_backup-Sound}
use unix_backup_c.Child.Confined.Dict.{SoundDict, check_move_events_list-Sound}
use unix_backup_c.Child.Confined.Blocks.{IsSafe, SafeResult, and_then-Safe, event_handler-Safe}

enqueue_all-IsEvent :
    (source : Bytes) (ws : List Watch) (raw : List RawEvent) (es : List Event)
    → All (IsWatch source) ws
    → All (IsEvent source) es
    → All (IsEvent source) (enqueue_all ws raw es)
unfolding enqueue_all
enqueue_all-IsEvent source ws [] es sound inside = inside
enqueue_all-IsEvent source ws (e ∷ raw) es sound inside =
    enqueue_all-IsEvent source ws raw (enqueue ws e es) sound
      (enqueue-IsEvent source ws e es sound inside)

abbrev pub Queued : Bytes → Outcome (List Event) → Type 0
Queued source (ok es) = All (IsEvent source) es
Queued source exited = Unit
Queued source fault = Unit

by_status :
    (source : Bytes) (ws : List Watch) (more : Reads) (es : List Event) (r : List RawEvent × Status)
    → (All (IsEvent source) (enqueue_all ws r.0 es)
        → Queued source (inotify_reader ws more (enqueue_all ws r.0 es)))
    → All (IsEvent source) (enqueue_all ws r.0 es)
    → Queued source (elim r.1 [
      | whole ↦ inotify_reader ws more (enqueue_all ws r.0 es)
      | partial_header ↦ inotify_reader ws more (enqueue_all ws r.0 es)
      | partial_read ↦ exited
    ])
by_status source ws more es (events, whole) rest inside = rest inside
by_status source ws more es (events, partial_header) rest inside = rest inside
by_status source ws more es (events, partial_read) rest inside = tt

-- Where all watches are on directories of the source, every event that the reader queues lies in the
-- source, whatever the reads give.
pub inotify_reader-Queued :
    (source : Bytes) (ws : List Watch) (reads : Reads) (es : List Event)
    → All (IsWatch source) ws
    → All (IsEvent source) es
    → Queued source (inotify_reader ws reads es)
unfolding inotify_reader
inotify_reader-Queued source ws again es sound inside = inside
inotify_reader-Queued source ws refused es sound inside = tt
inotify_reader-Queued source ws (chunk b stale more) es sound inside =
    let r = read_events (length b) stale b in
    by_status source ws more es r
      (inotify_reader-Queued source ws more (enqueue_all ws r.0 es) sound)
      (enqueue_all-IsEvent source ws r.0 es sound inside)

module _ (files : Files) (pair : Pair) (Inv : files.World → Type 0)
    (confined : IsConfined files pair Inv) where
  abbrev Safe : State files pair → Type 0
  Safe = IsSafe files pair Inv confined

  abbrev Ends : Outcome (State files pair) → Type 0
  Ends = SafeResult files pair Inv confined

  checked :
      (s : State files pair) (r : Option (List Move × Env files))
      → SoundDict files pair Inv confined r
      → Ends (elim r [
        | none ↦ exited
        | some r ↦ ok (record s { mov_dict = r.0; world = r.1.0; watchers = r.1.1 })
      ])
  checked s none g = tt
  checked s (some r) g = record { world = g.1.0; watchers = g.1.1; mov_dict = g.0 }

  check_moves-Ends : (now : ℕ) (s : State files pair) → Safe s → Ends (check_moves files pair now s)
  unfolding check_moves
  check_moves-Ends now s i =
      checked s (check_move_events_list files pair now s.mov_dict (s.world, s.watchers)) (
        check_move_events_list-Sound files pair Inv confined now s.mov_dict (s.world, s.watchers)
          i.mov_dict (i.world, i.watchers))

  with_events :
      (m : Outcome (List Event)) (f : List Event → Outcome (State files pair))
      → Queued pair.source_full m
      → ((es : List Event) → All (IsEvent pair.source_full) es → Ends (f es))
      → Ends (and_then m f)
  with_events (ok es) f h k = k es h
  with_events exited f h k = tt
  with_events fault f h k = tt

  inotify_jobs-Ends :
      (clock : ℕ → ℕ) (now : ℕ) (reads : Reads) (s : State files pair)
      → Safe s
      → Ends (inotify_jobs files pair clock now reads s)
  unfolding inotify_jobs
  inotify_jobs-Ends clock now reads s i =
      with_events (inotify_reader s.watchers reads []) _
        (inotify_reader-Queued pair.source_full s.watchers reads [] i.watchers tt)
        (λ es inside.
          and_then-Safe files pair Inv confined (event_handler files pair clock es s) _
            (event_handler-Safe files pair Inv confined clock es s inside i)
            (λ s' i'. check_moves-Ends now s' i'))

  leaving_or :
      (b : Bool) (s : State files pair) (r : Outcome (State files pair))
      → Safe s
      → Ends r
      → Ends (if b then ok s else r)
  leaving_or true s r i h = i
  leaving_or false s r i h = h

  rounds-Ends :
      (rs : List (Round files pair)) (s : State files pair) → Safe s → Ends (rounds files pair rs s)
  unfolding rounds
  rounds-Ends [] s i = i
  rounds-Ends (r ∷ more) s i = leaving_or s.should_exit s _ i (
      and_then-Safe files pair Inv confined (inotify_jobs files pair r.clock r.now r.reads s) _
        (inotify_jobs-Ends r.clock r.now r.reads s i) (λ s' i'. rounds-Ends more s' i'))

  started :
      (rs : List (Round files pair)) (r : Option (ℕ × Env files))
      → SoundStart files pair Inv confined r
      → Ends (elim r [
        | none ↦ exited
        | some (fd, env) ↦
            rounds files pair rs
              (record { world = env.0; watchers = env.1; mov_dict = []; should_exit = false })
      ])
  started rs none g = tt
  started rs (some (fd, env)) g =
      rounds-Ends rs _ (record { world = g.0; watchers = g.1; mov_dict = tt })

  pub child_loop-SafeResult :
      (rs : List (Round files pair)) (w : files.World)
      → Inv w
      → SafeResult files pair Inv confined (child_loop files pair rs w)
  unfolding child_loop
  child_loop-SafeResult rs w i =
      started rs (initial_backup files pair none (w, []))
        (initial_backup-Sound files pair Inv confined none (w, []) (i, tt))
