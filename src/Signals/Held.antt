-- ===== src/Signals/Held.antt =====
-- The rounds of a child that is asked to pause, and of one that is not.
use unix_backup_c.Common.{
  ℕ, ◌+◌, ◌≡◌, refl, ap, Bool, true, false, not, List, [], ◌∷◌, ◌++◌, map, arith, if◌then◌else◌,
  All,
}
use unix_backup_c.Counts.{count}
use unix_backup_c.Signals.{
  Phase, starting, at_tests, at_pause, suspending, suspended, working, sleeping, Child,
  sigusr1_child, ack_test, pause_test, loop_step,
}

-- At the tests or behind them, where it does no work.
abbrev pub is_held : Phase → Bool
is_held starting = false
is_held at_tests = true
is_held at_pause = true
is_held suspending = true
is_held suspended = true
is_held working = false
is_held sleeping = false

abbrev pub unacked : Child → Bool
unacked c = not c.ack_sent

-- The flag `child_pause_requested` is as given, and a child that has acknowledged is held.
pub record IsAt (paused : Bool) (c : Child) : Type 0 where
  pub flag : c.pause_requested ≡ paused
  pub held : c.ack_sent ≡ true → is_held c.phase ≡ true

abbrev pub child : Bool → Bool → Phase → Child
child r s ph = record { pause_requested = r; ack_sent = s; phase = ph }

signalled :
    (b r s : Bool) (ph : Phase)
    → IsAt b (child r s ph)
    → IsAt (not b) (sigusr1_child (child r s ph))
unfolding sigusr1_child
signalled b r s starting i = record { flag = ap not i.flag; held = i.held }
signalled b r s at_tests i = record { flag = ap not i.flag; held = λ h. refl }
signalled b r s at_pause i = record { flag = ap not i.flag; held = λ h. refl }
signalled b r s suspending i = record { flag = ap not i.flag; held = λ h. refl }
signalled b r s suspended i = record { flag = ap not i.flag; held = λ h. refl }
signalled b r s working i = record { flag = ap not i.flag; held = i.held }
signalled b r s sleeping i = record { flag = ap not i.flag; held = i.held }

sigusr1_child-IsAt : (b : Bool) (c : Child) → IsAt b c → IsAt (not b) (sigusr1_child c)
sigusr1_child-IsAt b c i = signalled b c.pause_requested c.ack_sent c.phase i

pub all_signalled :
    (b : Bool) (cs : List Child) → All (IsAt b) cs → All (IsAt (not b)) (map sigusr1_child cs)
all_signalled b [] h = tt
all_signalled b (c ∷ cs) (i, h) = (sigusr1_child-IsAt b c i, all_signalled b cs h)

-- A round of a child that is asked to pause: it stays so, and acknowledges once.
abbrev pub one : Bool → ℕ
one b = if b then 1 else 0

pub asked :
    (r s : Bool) (ph : Phase)
    → IsAt true (child r s ph)
    → IsAt true (loop_step (child r s ph)).0
      × (one (unacked (loop_step (child r s ph)).0) + one (loop_step (child r s ph)).1
          ≡ one (not s))
unfolding loop_step ack_test pause_test
asked false s ph i = absurd (ground (arith, i.flag))
asked true s starting i = (record { flag = refl; held = λ h. refl }, omega arith)
asked true false at_tests i = (record { flag = refl; held = λ h. refl }, refl)
asked true true at_tests i = (record { flag = refl; held = λ h. refl }, refl)
asked true s at_pause i = (record { flag = refl; held = λ h. refl }, omega arith)
asked true s suspending i = (record { flag = refl; held = λ h. refl }, omega arith)
asked true s suspended i = (i, omega arith)
asked true s working i =
    (record { flag = refl; held = λ h. absurd (ground (arith, i.held h)) }, omega arith)
asked true s sleeping i = (record { flag = refl; held = λ h. refl }, omega arith)

pub free :
    (r s : Bool) (ph : Phase)
    → IsAt false (child r s ph)
    → IsAt false (loop_step (child r s ph)).0 × ((loop_step (child r s ph)).1 ≡ false)
unfolding loop_step ack_test pause_test
free true s ph i = absurd (ground (arith, i.flag))
free false s starting i = (record { flag = refl; held = λ h. refl }, refl)
free false s at_tests i = (record { flag = refl; held = λ h. refl }, refl)
free false s at_pause i = (record { flag = refl; held = λ h. absurd (ground arith) }, refl)
free false s suspending i = (record { flag = refl; held = λ h. refl }, refl)
free false s suspended i = (i, refl)
free false s working i =
    (record { flag = refl; held = λ h. absurd (ground (arith, i.held h)) }, refl)
free false s sleeping i = (record { flag = refl; held = λ h. refl }, refl)

abbrev pub unacked_of : List Child → ℕ
unacked_of = count unacked

pub split_at :
    (P : Child → Type 0) (before : List Child) (c : Child) (after : List Child)
    → All P (before ++ (c ∷ after))
    → All P before × P c × All P after
split_at P [] c after h = (tt, h.0, h.1)
split_at P (x ∷ before) c after (i, h) =
    let (l, j, r) = split_at P before c after h in ((i, l), j, r)
