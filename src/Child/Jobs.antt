-- ===== src/Child/Jobs.antt =====
-- The rounds of a child: `inotify_reader` of src/inotify_functions.c over successive reads, and
-- `inotify_jobs` and the loop of `child_loop` in src/main.c. Pauses are in Signals.
use unix_backup_c.Common.{ℕ, false, none, some, List, [], ◌∷◌, if◌then◌else◌, length}
use unix_backup_c.Common.Bytes.{Bytes}
use unix_backup_c.Types.{Watch, Event}
use unix_backup_c.Events.{RawEvent, enqueue}
use unix_backup_c.Reader.{read_events, whole, partial_header, partial_read}
use unix_backup_c.Outcome.{Outcome, ok, exited, and_then}
use unix_backup_c.Child.Files.{Files}
use unix_backup_c.Child.Folders.{Pair, initial_backup}
use unix_backup_c.Child.Moves.{check_move_events_list}
use unix_backup_c.Child.Handler.{State, event_handler}

-- What `read` gives on a descriptor that does not block, until there is nothing to read or it
-- fails: the bytes of a read, and what stands in the buffer behind them.
pub data Reads : Type 0 where
  again refused : Reads
  chunk : (bytes stale : Bytes) (more : Reads) → Reads

-- `add_inotify_event` for each event, in order.
unfoldable pub enqueue_all : List Watch → List RawEvent → List Event → List Event
enqueue_all ws [] es = es
enqueue_all ws (e ∷ more) es = enqueue_all ws more (enqueue ws e es)

-- `inotify_reader`; a header that is cut off ends the loop over the buffer, a name ends the process.
unfoldable pub inotify_reader : List Watch → Reads → List Event → Outcome (List Event)
inotify_reader ws again es = ok es
inotify_reader ws refused es = exited
inotify_reader ws (chunk b stale more) es =
    let (events, status) = read_events (length b) stale b in
    elim status [
      | whole ↦ inotify_reader ws more (enqueue_all ws events es)
      | partial_header ↦ inotify_reader ws more (enqueue_all ws events es)
      | partial_read ↦ exited
    ]

module _ (files : Files) (pair : Pair) where
  -- `check_move_events_list` on the state.
  unfoldable pub check_moves : ℕ → State files pair → Outcome (State files pair)
  check_moves now s =
      elim (check_move_events_list files pair now s.mov_dict (s.world, s.watchers)) [
        | none ↦ exited
        | some r ↦ ok (record s { mov_dict = r.0; world = r.1.0; watchers = r.1.1 })
      ]

  -- `inotify_jobs`, where the descriptor is open. The queue is empty between the rounds.
  unfoldable pub inotify_jobs : (ℕ → ℕ) → ℕ → Reads → State files pair → Outcome (State files pair)
  inotify_jobs clock now reads s =
      and_then (inotify_reader s.watchers reads [])
        λ events. and_then (event_handler files pair clock events s) (check_moves now)

  -- The rounds of `while (!child_should_exit)`: the times of the events, the time of the check of
  -- the moves, and the reads.
  pub record Round : Type 0 where
    pub clock : ℕ → ℕ
    pub now : ℕ
    pub reads : Reads

  unfoldable pub rounds : List Round → State files pair → Outcome (State files pair)
  rounds [] s = ok s
  rounds (r ∷ more) s =
      let next = and_then (inotify_jobs r.clock r.now r.reads s) (rounds more) in
      if s.should_exit then ok s else next

  -- `child_loop`: the initial backup, and the rounds.
  unfoldable pub child_loop : List Round → files.World → Outcome (State files pair)
  child_loop rs w = elim (initial_backup files pair none (w, [])) [
    | none ↦ exited
    | some (fd, env) ↦
        rounds rs (record { world = env.0; watchers = env.1; mov_dict = []; should_exit = false })
  ]
