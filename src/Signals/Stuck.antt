-- ===== src/Signals/Stuck.antt =====
-- When the wait for acknowledgements never ends. A child that is asked to pause again before it has
-- passed its tests since the last restore has `child_ack_sent` still set, and sends nothing; a child
-- that has ended sends nothing either, and is counted until it is reaped.
use unix_backup_c.Common.{
  ◌+◌, ◌<◌, ◌≡◌, refl, Bool, true, false, List, ◌∷◌, ◌++◌, arith, All, All-append,
}
use mathlib.Core.Path.{subst}
use unix_backup_c.Signals.{stop, stops}
use unix_backup_c.Signals.{
  Phase, starting, at_tests, at_pause, suspending, suspended, working, sleeping, Child, loop_step,
  ack_test, pause_test, waiting, Protocol, begin_restore, sigack_parent, end_wait, end_restore,
  spawn, reap, step_child, end_child, Step, begins, acks, waited, ends, spawns, reaps, loops, dies,
  Steps, done, more,
}
use unix_backup_c.Signals.Held.{is_held, child, split_at}

-- A child that the pause holds and that has acknowledged.
pub record IsSilent (c : Child) : Type 0 where
  pub paused : c.pause_requested ≡ true
  pub sent : c.ack_sent ≡ true
  pub held : is_held c.phase ≡ true

-- The parent waits for more than is received and queued, and all children are silent.
pub record IsStuck (p : Protocol) : Type 0 where
  pub waits : p.parent ≡ waiting
  pub all_silent : All IsSilent p.children
  pub missing : p.received + p.queued < p.expected

loop_step-IsSilent :
    (r s : Bool) (ph : Phase)
    → IsSilent (child r s ph)
    → IsSilent (loop_step (child r s ph)).0 × ((loop_step (child r s ph)).1 ≡ false)
unfolding loop_step ack_test pause_test
loop_step-IsSilent false s ph i = absurd (ground (arith, i.paused))
loop_step-IsSilent true false ph i = absurd (ground (arith, i.sent))
loop_step-IsSilent true true starting i = absurd (ground (arith, i.held))
loop_step-IsSilent true true at_tests i = (record { paused = refl; sent = refl; held = refl }, refl)
loop_step-IsSilent true true at_pause i = (record { paused = refl; sent = refl; held = refl }, refl)
loop_step-IsSilent true true suspending i =
    (record { paused = refl; sent = refl; held = refl }, refl)
loop_step-IsSilent true true suspended i = (i, refl)
loop_step-IsSilent true true working i = absurd (ground (arith, i.held))
loop_step-IsSilent true true sleeping i = absurd (ground (arith, i.held))

one_steps :
    (before : List Child) (c : Child) (after : List Child)
    → All IsSilent (before ++ (c ∷ after))
    → All IsSilent (before ++ ((loop_step c).0 ∷ after)) × ((loop_step c).1 ≡ false)
one_steps before c after h =
    let (l, i, r) = split_at IsSilent before c after h in
    let (same, quiet) = loop_step-IsSilent c.pause_requested c.ack_sent c.phase i in
    (All-append IsSilent before ((loop_step c).0 ∷ after) l (same, r), quiet)

Step-IsStuck : (p q : Protocol) → Step p q → IsStuck p → IsStuck q
unfolding begin_restore sigack_parent end_wait end_restore spawn reap step_child end_child stop
Step-IsStuck p q (begins _ e) s = cc
Step-IsStuck p q (acks _ pos) s = record {
  waits = s.waits;
  all_silent = s.all_silent;
  missing = omega (arith, s.missing);
}
Step-IsStuck p q (waited _ e enough) s = absurd (omega (arith, enough, s.missing))
Step-IsStuck p q (ends _ e) s = cc
Step-IsStuck p q (spawns _ e) s = cc
Step-IsStuck p q (reaps _ e dead) s = cc
Step-IsStuck p q (stops before c after _ e _) s = cc
Step-IsStuck p q (loops before c after _ e) s =
    let (all, quiet) = one_steps before c after (subst (All IsSilent) e s.all_silent) in
    record { waits = s.waits; all_silent = all; missing = rw quiet (omega (arith, s.missing)) }
Step-IsStuck p q (dies before c after _ e) s =
    let (l, i, r) = split_at IsSilent before c after (subst (All IsSilent) e s.all_silent) in
    record {
      waits = s.waits;
      all_silent = All-append IsSilent before after l r;
      missing = s.missing;
    }

-- Where the parent waits for more acknowledgements than are received and queued, and every child
-- that still runs is held by the pause with its acknowledgement already sent, the parent waits for
-- ever, whichever children go on or end.
pub wait_never_ends : (p q : Protocol) → Steps p q → IsStuck p → q.parent ≡ waiting
wait_never_ends p q (done _) s = s.waits
wait_never_ends p q (more _ r _ step steps) s = wait_never_ends r q steps (Step-IsStuck p r step s)
