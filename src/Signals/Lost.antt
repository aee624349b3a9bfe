-- ===== src/Signals/Lost.antt =====
-- A resume that comes between the test for the pause and `sigsuspend`.
use unix_backup_c.Common.{ℕ, zero, suc, ◌≡◌, refl, Bool, true, false}
use unix_backup_c.Signals.{suspending, suspended, Child, sigusr1_child, loop_step}
use unix_backup_c.Signals.Held.{child}

-- Rounds of a child that no signal reaches.
unfoldable pub rounds : ℕ → Child → Child
rounds zero c = c
rounds (suc n) c = rounds n (loop_step c).0

stays_suspended : (n : ℕ) (r s : Bool) → rounds n (child r s suspended) ≡ child r s suspended
unfolding rounds loop_step
stays_suspended zero r s = refl
stays_suspended (suc n) r s = stays_suspended n r s

-- A child that the resume of a restore finds behind its test for the pause is in `sigsuspend` after
-- each number of rounds but 0, although no pause is requested any more.
pub resume_lost :
    (n : ℕ) (s : Bool)
    → rounds (suc n) (sigusr1_child (child true s suspending)) ≡ child false s suspended
unfolding rounds loop_step sigusr1_child
resume_lost n s = stays_suspended n false s
