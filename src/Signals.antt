-- ===== src/Signals.antt =====
-- The pause of the children for a restore, `restore` and `child_loop` of src/main.c, as steps of
-- the parent and of single children: the start of a child, the tests of its loop, `sigsuspend`, its
-- end at any place, and its reaping. SIGUSR1 is delivered to all children at once, before anything
-- else, and a child has its handlers from its start on.
pub mod Held
pub mod Restores
pub mod Stuck
pub mod Lost
use unix_backup_c.Common.{
  ℕ, zero, suc, ◌+◌, ◌-◌, ◌*◌, ◌/◌, ◌%◌, ◌^◌, ◌≤◌, ◌<◌, ◌≡◌, refl, sym, ap, ◌∙◌, ◌≢◌, ◌↔◌, ◌⊎◌, inl,
  inr, Bool, true, false, not, ◌&&◌, ◌||◌, Option, none, some, List, [], ◌∷◌, ◌++◌, map, arith, ltb,
  leb, ◌==◌, ==_iff, ==_refl, ==_false_sym, ==_ne, &&_split, ||_split, ◌>>=◌, >>=-eq-some, is_some,
  if◌then◌else◌, Bool-cases, Option-cases, length, get_elem?, take, drop, length-append,
  length-drop, drop-length_plus, drop-plus, drop_of_length, take-append-drop, drop-length-append,
  All, All-append,
}
use unix_backup_c.Common.Bytes.{
  Bytes, bytes, char_at, str_eq, starts_with, str_eq_sound, str_eq_refl, starts_with-append,
  starts_with_sound, char_at-length-append,
}
use mathlib.Core.List.{append-nil, append_assoc, map-append}
use mathlib.Core.Path.{subst}

-- Where a child is: in `initial_backup`, before the test for the acknowledgement, before the test for
-- the pause, behind it, in `sigsuspend`, in `inotify_jobs`, in `sleep`.
pub data Phase : Type 0 where
  starting at_tests at_pause suspending suspended working sleeping : Phase

pub record Child : Type 0 where
  -- `child_pause_requested` and `child_ack_sent`
  pub pause_requested : Bool
  pub ack_sent : Bool
  pub phase : Phase

-- `sigsuspend` returns once a handler has run.
unfoldable pub wake : Phase → Phase
wake starting = starting
wake at_tests = at_tests
wake at_pause = at_pause
wake suspending = suspending
wake suspended = at_tests
wake working = working
wake sleeping = sleeping

-- `sigusr1_child`
unfoldable pub sigusr1_child : Child → Child
unfolding wake
sigusr1_child c = record c { pause_requested = not c.pause_requested; phase = wake c.phase }

-- The test for the acknowledgement: the child behind it, and whether it has sent one.
unfoldable pub ack_test : Child → Child × Bool
ack_test c =
    if c.pause_requested && not c.ack_sent
    then (record c { ack_sent = true; phase = at_pause }, true)
    else (record c { phase = at_pause }, false)

-- The test for the pause.
unfoldable pub pause_test : Child → Child
pause_test c =
    if c.pause_requested
    then record c { phase = suspending }
    else record c { ack_sent = false; phase = working }

-- A child goes on by itself; a suspended one does not.
unfoldable pub loop_step : Child → Child × Bool
loop_step c = elim c.phase [
  | starting ↦ (record c { phase = at_tests }, false)
  | at_tests ↦ ack_test c
  | at_pause ↦ (pause_test c, false)
  | suspending ↦ (record c { phase = suspended }, false)
  | suspended ↦ (c, false)
  | working ↦ (record c { phase = sleeping }, false)
  | sleeping ↦ (record c { phase = at_tests }, false)
]

-- Where `restore` is: not running, before or in its wait, in `restore_checkpoint`.
pub data Parent : Type 0 where
  idle waiting restoring : Parent

pub record Protocol : Type 0 where
  pub parent : Parent
  -- the children that run, and how many have ended and are not reaped
  pub children : List Child
  pub ended : ℕ
  pub child_count : ℕ
  -- `restore_expected` and `restore_received`
  pub expected : ℕ
  pub received : ℕ
  -- acknowledgements that are queued, not handled
  pub queued : ℕ

-- `kill(-getpid(), SIGUSR1)` where children are expected
unfoldable pub broadcast : ℕ → List Child → List Child
broadcast expected_waiting cs = if ltb 0 expected_waiting then map sigusr1_child cs else cs

-- `restore` to its wait
unfoldable pub begin_restore : Protocol → Protocol
begin_restore p = record p {
  parent = waiting;
  children = broadcast p.child_count p.children;
  expected = p.child_count;
  received = 0;
}

-- `sigack_parent`
unfoldable pub sigack_parent : Protocol → Protocol
sigack_parent p = record p { received = p.received + 1; queued = p.queued - 1 }

-- The end of the wait, and the end of `restore`.
unfoldable pub end_wait : Protocol → Protocol
end_wait p = record p { parent = restoring }

unfoldable pub end_restore : Protocol → Protocol
end_restore p = record p { parent = idle; children = broadcast p.expected p.children }

-- A child as `fork` leaves it.
abbrev pub started : Child
started = record { pause_requested = false; ack_sent = false; phase = starting }

-- `spawn_child_for_target` in the parent
unfoldable pub spawn : Protocol → Protocol
spawn p = record p { children = p.children ++ (started ∷ []); child_count = p.child_count + 1 }

-- A round of the loop of `reap_dead_children`, with `handle_dead_children`
unfoldable pub reap : Protocol → Protocol
reap p = record p { ended = p.ended - 1; child_count = p.child_count - 1 }

-- A step of one child.
unfoldable pub step_child : List Child → Child → List Child → Protocol → Protocol
step_child before c after p = record p {
  children = before ++ ((loop_step c).0 ∷ after);
  queued = p.queued + (if (loop_step c).1 then 1 else 0);
}

-- The end of one child.
unfoldable pub end_child : List Child → List Child → Protocol → Protocol
end_child before after p = record p { children = before ++ after; ended = p.ended + 1 }

-- `handle_end_for_target`: the child is ended and waited for.
unfoldable pub stop : List Child → List Child → Protocol → Protocol
stop before after p = record p { children = before ++ after; child_count = p.child_count - 1 }

pub data Step : Protocol → Protocol → Type 0 where
  begins : (p : Protocol) → p.parent ≡ idle → Step p (begin_restore p)
  acks : (p : Protocol) → 0 < p.queued → Step p (sigack_parent p)
  waited : (p : Protocol) → p.parent ≡ waiting → p.expected ≤ p.received → Step p (end_wait p)
  ends : (p : Protocol) → p.parent ≡ restoring → Step p (end_restore p)
  spawns : (p : Protocol) → p.parent ≡ idle → Step p (spawn p)
  reaps : (p : Protocol) → p.parent ≡ idle → 0 < p.ended → Step p (reap p)
  loops :
      (before : List Child) (c : Child) (after : List Child) (p : Protocol)
      → p.children ≡ before ++ (c ∷ after)
      → Step p (step_child before c after p)
  dies :
      (before : List Child) (c : Child) (after : List Child) (p : Protocol)
      → p.children ≡ before ++ (c ∷ after)
      → Step p (end_child before after p)
  stops :
      (before : List Child) (c : Child) (after : List Child) (p : Protocol)
      → p.parent ≡ idle
      → p.children ≡ before ++ (c ∷ after)
      → Step p (stop before after p)

pub data Steps : Protocol → Protocol → Type 0 where
  done : (p : Protocol) → Steps p p
  more : (p q r : Protocol) → Step p q → Steps q r → Steps p r

-- A parent without children.
abbrev pub start : Protocol
start = record {
  parent = idle;
  children = [];
  ended = 0;
  child_count = 0;
  expected = 0;
  received = 0;
  queued = 0;
}
