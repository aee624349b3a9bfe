-- ===== src/Child/Handler/Mirrors.antt =====
-- What the handling of an event does to the target: a file that was written is copied, an entry that
-- was deleted is deleted.
use unix_backup_c.Common.{
  ℕ, ◌≡◌, refl, sym, ap, ◌∙◌, ◌≢◌, Bool, true, false, Option, none, some, [], ◌++◌, if◌then◌else◌,
  length,
}
use unix_backup_c.Common.Bytes.{Bytes}
use mathlib.Core.Path.{subst}
use unix_backup_c.Paths.Mirror.{IsTrimmed}
use unix_backup_c.FileOps.{del_handling}
use unix_backup_c.FileOps.Places.{dir_of-below}
use unix_backup_c.FileOps.Storage.{IsStorage}
use unix_backup_c.FileOps.Contents.{IsFile, copy-content}
use unix_backup_c.FileOps.Removals.{IsMissing, IsRemoving, Gone, del_handling-Gone}
use unix_backup_c.Outcome.{Outcome, ok, exited, fault, and_then, returned}
use unix_backup_c.Child.Handler.{State, on_world, block, blocks, handle_event, outside_source}
use unix_backup_c.Child.Handler.Outside.{outside_source-iff_Within}
use unix_backup_c.System.{Sys}
use unix_backup_c.Types.{Watch, Event}
use unix_backup_c.Paths.{concat}
use unix_backup_c.Paths.Inside.{IsBoundary}
use unix_backup_c.Dlist.Refine.{find_first}
use unix_backup_c.Watches.{has_wd}
use unix_backup_c.FileOps.Copies.{copy_files}
use unix_backup_c.Child.Folders.{Pair}
use unix_backup_c.Child.Calls.{files_of}

-- An event on a path of the source, with a mask.
abbrev pub event_on : Pair → ℕ → ℕ → Bytes → Bytes → Event
event_on pair mask wd rest name = record {
  wd = wd;
  mask = mask;
  cookie = 0;
  len = length name;
  name = name;
  full_path = pair.source_full ++ rest;
  suffix = rest;
}

-- The masks that the kernel gives for a deletion: IN_DELETE, with IN_ISDIR for a directory.
abbrev pub delete_mask : Bool → ℕ
delete_mask is_dir = if is_dir then 1073742336 else 512

module _ (sys : Sys) (pair : Pair) where
  inside :
      (rest : Bytes)
      → IsBoundary rest
      → outside_source pair.source_full (pair.source_full ++ rest) ≡ false
  inside rest b =
      (outside_source-iff_Within pair.source_full (pair.source_full ++ rest)).1 (rest, refl, b)

  and_then-ok : (m : Outcome (State (files_of sys) pair)) → and_then m (λ s. ok s) ≡ m
  and_then-ok (ok s) = refl
  and_then-ok exited = refl
  and_then-ok fault = refl

  -- The mask IN_CLOSE_WRITE: the one block that runs is that of the copy.
  closed_write :
      (now wd : ℕ) (rest name : Bytes) (s : State (files_of sys) pair) (w : Watch)
      → IsBoundary rest
      → find_first (has_wd wd) s.watchers ≡ some w
      → handle_event (files_of sys) pair now (event_on pair 8 wd rest name) s
        ≡ on_world
            (files_of sys)
            pair
            (λ v. returned (
              copy_files sys
                (pair.target_full ++ rest)
                pair.target_full
                (pair.source_full ++ rest)
                v))
            s
  unfolding handle_event blocks block concat on_world
  closed_write now wd rest name s w b known =
      (rw (handle_event, inside rest b, known) refl) ∙ and_then-ok _

  -- The mask IN_DELETE: the one block that runs is that of the deletion.
  deleted :
      (is_dir : Bool) (now wd : ℕ) (rest name : Bytes) (s : State (files_of sys) pair) (w : Watch)
      → IsBoundary rest
      → find_first (has_wd wd) s.watchers ≡ some w
      → handle_event (files_of sys) pair now (event_on pair (delete_mask is_dir) wd rest name) s
        ≡ on_world
            (files_of sys)
            pair
            (λ v. returned (del_handling sys (pair.target_full ++ rest) v))
            s
  unfolding handle_event blocks block concat on_world
  deleted true now wd rest name s w b known =
      (rw (handle_event, inside rest b, known) refl) ∙ and_then-ok _
  deleted false now wd rest name s w b known =
      (rw (handle_event, inside rest b, known) refl) ∙ and_then-ok _

  world_of : Outcome (State (files_of sys) pair) → Outcome sys.World
  world_of (ok s) = ok s.world
  world_of exited = exited
  world_of fault = fault

  by_result :
      (m : Outcome sys.World) (s s' : State (files_of sys) pair)
      → (elim (returned m) [ none ↦ exited | some w ↦ ok (record s { world = w }) ]) ≡ ok s'
      → m ≡ ok s'.world
  unfolding world_of
  by_result (ok w) s s' e = ap world_of e
  by_result exited s s' e = ap world_of e
  by_result fault s s' e = absurd (cc)

  -- The world behind an operation that returns.
  ran :
      (f : sys.World → Outcome sys.World) (s s' : State (files_of sys) pair)
      → on_world (files_of sys) pair (λ v. returned (f v)) s ≡ ok s'
      → f s.world ≡ ok s'.world
  unfolding on_world
  ran f s s' e = by_result (f s.world) s s' e

module _ (sys : Sys) (pair : Pair) (content : Bytes → sys.World → Option Bytes)
    (Apart : Bytes → Bytes → sys.World → Type 0) (IsOpen : ℕ → ℕ → Bytes → sys.World → Type 0)
    (storage : IsStorage sys content Apart IsOpen) where
  -- Where the watch of an IN_CLOSE_WRITE event on a regular file of the source is known, the handling
  -- of the event, if it goes on, leaves the file's partner in the target with the file's content.
  pub handle_event-written :
      (now wd : ℕ) (rest name b : Bytes) (s s' : State (files_of sys) pair) (w : Watch)
      → IsTrimmed pair.target_full
      → IsBoundary rest
      → rest ≢ []
      → find_first (has_wd wd) s.watchers ≡ some w
      → IsFile sys content Apart IsOpen storage
          (pair.source_full ++ rest)
          (pair.target_full ++ rest)
          b
          s.world
      → handle_event (files_of sys) pair now (event_on pair 8 wd rest name) s ≡ ok s'
      → content (pair.target_full ++ rest) s'.world ≡ some b
  unfolding copy_files
  handle_event-written now wd rest name b s s' w trimmed boundary ne known file e =
      copy-content sys content Apart IsOpen storage (pair.source_full ++ rest)
        (pair.target_full ++ rest) b none (some pair.target_full) s.world s'.world
        (dir_of-below pair.target_full rest trimmed boundary ne) file
        (ran sys pair
          (copy_files sys (pair.target_full ++ rest) pair.target_full (pair.source_full ++ rest)) s
          s' (sym (closed_write sys pair now wd rest name s w boundary known) ∙ e))

module _ (sys : Sys) (pair : Pair) (removing : IsRemoving sys) where
  -- Where the watch of an IN_DELETE event on a path of the source is known, for a directory (with
  -- IN_ISDIR) or for another entry, the handling of the event, if it goes on, leaves nothing at the
  -- path's partner in the target.
  pub handle_event-deleted :
      (is_dir : Bool) (now wd : ℕ) (rest name : Bytes) (s s' : State (files_of sys) pair)
      (w : Watch)
      → IsBoundary rest
      → find_first (has_wd wd) s.watchers ≡ some w
      → handle_event (files_of sys) pair now (event_on pair (delete_mask is_dir) wd rest name) s
        ≡ ok s'
      → IsMissing sys (pair.target_full ++ rest) s'.world
  handle_event-deleted is_dir now wd rest name s s' w boundary known e =
      subst (Gone sys removing (pair.target_full ++ rest))
        (ran sys pair (del_handling sys (pair.target_full ++ rest)) s s'
          (sym (deleted sys pair is_dir now wd rest name s w boundary known) ∙ e))
        (del_handling-Gone sys removing (pair.target_full ++ rest) s.world)
