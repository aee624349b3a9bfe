-- ===== src/Signals/Restores.antt =====
-- The checkpoint is restored only while no child works.
use unix_backup_c.Common.{
  ℕ, zero, suc, ◌+◌, ◌-◌, ◌≤◌, ◌<◌, ◌≡◌, refl, sym, ap, ◌∙◌, Bool, true, false, List, [], ◌∷◌, ◌++◌,
  map, arith, length, length-append, All, All-append,
}
use mathlib.Core.Path.{subst}
use unix_backup_c.Signals.{stop, stops}
use unix_backup_c.Counts.{count-append, count-cons, count-nil}
use unix_backup_c.Signals.{
  begin_restore, sigack_parent, end_wait, end_restore, spawn, reap, step_child, end_child,
  broadcast, Step, begins, acks, waited, ends, spawns, reaps, loops, dies, Steps, done, more, start,
  started, Parent, idle, waiting, restoring, Protocol, Child, sigusr1_child, loop_step,
}
use unix_backup_c.Signals.Held.{
  is_held, unacked, IsAt, all_signalled, one, asked, free, unacked_of, split_at,
}

-- What holds of the protocol, by where the parent is: the children, what is expected, received and
-- queued.
abbrev IsFairAt : Parent → List Child → ℕ → ℕ → ℕ → Type 0
IsFairAt idle cs expected received queued = All (IsAt false) cs × (queued ≡ 0)
IsFairAt waiting cs expected received queued =
    All (IsAt true) cs × (length cs ≤ expected) × (received + queued + unacked_of cs ≤ expected)
IsFairAt restoring cs expected received queued =
    All (IsAt true) cs
    × (length cs ≤ expected)
    × (received + queued + unacked_of cs ≤ expected)
    × (expected ≤ received)

record IsFair (p : Protocol) : Type 0 where
  counted : length p.children + p.ended ≤ p.child_count
  fair : IsFairAt p.parent p.children p.expected p.received p.queued

unacked_of-length : (cs : List Child) → unacked_of cs ≤ length cs
unacked_of-length [] = omega (arith, count-nil unacked)
unacked_of-length (c ∷ cs) = ground (arith, unacked_of-length cs, count-cons unacked c cs)

length-map : (cs : List Child) → length (map sigusr1_child cs) ≡ length cs
length-map [] = refl
length-map (c ∷ cs) = ap suc (length-map cs)

-- Where no child is expected, none is there to be signalled.
broadcast-map : (n : ℕ) (cs : List Child) → length cs ≤ n → broadcast n cs ≡ map sigusr1_child cs
unfolding broadcast
broadcast-map zero [] le = refl
broadcast-map zero (c ∷ cs) le = absurd (omega (arith, le))
broadcast-map (suc n) cs le = ground arith

all_held :
    (cs : List Child)
    → All (IsAt true) cs
    → unacked_of cs ≡ 0
    → All (λ c. is_held c.phase ≡ true) cs
all_held [] h none_left = tt
all_held (c ∷ cs) (i, h) none_left = (
  i.held (ground (arith, none_left, count-cons unacked c cs)),
  all_held cs h (ground (arith, none_left, count-cons unacked c cs)),
)

sigack_parent-IsFairAt :
    (x : Parent) (cs : List Child) (e r q : ℕ)
    → 0 < q
    → IsFairAt x cs e r q
    → IsFairAt x cs e (r + 1) (q - 1)
sigack_parent-IsFairAt idle cs e r q pos f = absurd (omega (arith, f.1))
sigack_parent-IsFairAt waiting cs e r q pos f = (f.0, f.1, omega (arith, f.2))
sigack_parent-IsFairAt restoring cs e r q pos f = (f.0, f.1, omega (arith, f.2), omega (arith, f.3))

rejoined :
    (b : Bool) (before : List Child) (c : Child) (after : List Child)
    → All (IsAt b) before
    → IsAt b c
    → All (IsAt b) after
    → All (IsAt b) (before ++ (c ∷ after))
rejoined b before c after l i r = All-append (IsAt b) before (c ∷ after) l (i, r)

length-cons_in :
    (before : List Child) (c : Child) (after : List Child)
    → length (before ++ (c ∷ after)) ≡ suc (length (before ++ after))
length-cons_in before c after =
    omega (arith, length-append before (c ∷ after), length-append before after)

unacked_of-cons_in :
    (before : List Child) (c : Child) (after : List Child)
    → unacked_of (before ++ (c ∷ after)) ≡ one (unacked c) + unacked_of (before ++ after)
unacked_of-cons_in before c after = omega (
  arith,
  count-append unacked before (c ∷ after),
  count-append unacked before after,
  count-cons unacked c after,
)

-- A round of a child that is asked to pause, in the list.
asked_in :
    (before : List Child) (c : Child) (after : List Child)
    → All (IsAt true) (before ++ (c ∷ after))
    → All (IsAt true) (before ++ ((loop_step c).0 ∷ after))
      × (unacked_of (before ++ ((loop_step c).0 ∷ after)) + one (loop_step c).1
          ≡ unacked_of (before ++ (c ∷ after)))
      × (length (before ++ ((loop_step c).0 ∷ after)) ≡ length (before ++ (c ∷ after)))
asked_in before c after h =
    let (l, i, r) = split_at (IsAt true) before c after h in
    let (i', counted) = asked c.pause_requested c.ack_sent c.phase i in
    (
      rejoined true before (loop_step c).0 after l i' r,
      omega (
        arith,
        counted,
        unacked_of-cons_in before (loop_step c).0 after,
        unacked_of-cons_in before c after,
      ),
      length-cons_in before (loop_step c).0 after ∙ sym (length-cons_in before c after),
    )

step_child-IsFairAt :
    (x : Parent) (before : List Child) (c : Child) (after : List Child) (e r q : ℕ)
    → IsFairAt x (before ++ (c ∷ after)) e r q
    → IsFairAt x (before ++ ((loop_step c).0 ∷ after)) e r (q + one (loop_step c).1)
step_child-IsFairAt idle before c after e r q (h, none_queued) =
    let (l, i, k) = split_at (IsAt false) before c after h in
    let (i', silent) = free c.pause_requested c.ack_sent c.phase i in
    (rejoined false before (loop_step c).0 after l i' k, rw silent (omega (arith, none_queued)))
step_child-IsFairAt waiting before c after e r q (h, all, le) =
    let (h', counted, same) = asked_in before c after h in
    (h', omega (arith, all, same), omega (arith, le, counted))
step_child-IsFairAt restoring before c after e r q (h, all, le, enough) =
    let (h', counted, same) = asked_in before c after h in
    (h', omega (arith, all, same), omega (arith, le, counted), enough)

without :
    (b : Bool) (before : List Child) (c : Child) (after : List Child)
    → All (IsAt b) (before ++ (c ∷ after))
    → All (IsAt b) (before ++ after)
without b before c after h =
    let (l, i, r) = split_at (IsAt b) before c after h in All-append (IsAt b) before after l r

end_child-IsFairAt :
    (x : Parent) (before : List Child) (c : Child) (after : List Child) (e r q : ℕ)
    → IsFairAt x (before ++ (c ∷ after)) e r q
    → IsFairAt x (before ++ after) e r q
end_child-IsFairAt idle before c after e r q (h, none_queued) =
    (without false before c after h, none_queued)
end_child-IsFairAt waiting before c after e r q (h, all, le) = (
  without true before c after h,
  omega (arith, all, length-cons_in before c after),
  omega (arith, le, unacked_of-cons_in before c after),
)
end_child-IsFairAt restoring before c after e r q (h, all, le, enough) = (
  without true before c after h,
  omega (arith, all, length-cons_in before c after),
  omega (arith, le, unacked_of-cons_in before c after),
  enough,
)

at_parent :
    (p : Protocol) {x : Parent}
    → p.parent ≡ x
    → IsFair p
    → IsFairAt x p.children p.expected p.received p.queued
at_parent p e f = subst (λ x. IsFairAt x p.children p.expected p.received p.queued) e f.fair

Step-IsFair : (p q : Protocol) → Step p q → IsFair p → IsFair q
unfolding begin_restore sigack_parent end_wait end_restore spawn reap step_child end_child stop
Step-IsFair p q (begins _ e) f =
    let (h, none_queued) = at_parent p e f in
    let same = broadcast-map p.child_count p.children (omega (arith, f.counted)) in
    let all = length-map p.children in
    rw same (record {
      counted = omega (arith, all, f.counted);
      fair = (
        all_signalled false p.children h,
        omega (arith, all, f.counted),
        omega
            (arith, none_queued, all, f.counted, unacked_of-length (map sigusr1_child p.children)),
      );
    })
Step-IsFair p q (acks _ pos) f = record {
  counted = f.counted;
  fair = sigack_parent-IsFairAt p.parent p.children p.expected p.received p.queued pos f.fair;
}
Step-IsFair p q (waited _ e enough) f =
    let (h, all, le) = at_parent p e f in
    record { counted = f.counted; fair = (h, all, le, enough) }
Step-IsFair p q (ends _ e) f =
    let (h, all, le, enough) = at_parent p e f in
    rw (broadcast-map p.expected p.children all) (record {
      counted = omega (arith, length-map p.children, f.counted);
      fair = (all_signalled true p.children h, omega (arith, le, enough));
    })
Step-IsFair p q (spawns _ e) f =
    let (h, none_queued) = at_parent p e f in
    record {
      counted = omega (arith, f.counted, length-append p.children (started ∷ []));
      fair =
          subst (λ x. IsFairAt x (p.children ++ (started ∷ [])) p.expected p.received p.queued)
            (sym e)
            (
              rejoined false p.children started [] h
                  (record { flag = refl; held = λ h. absurd (ground arith) }) tt,
              none_queued,
            );
    }
Step-IsFair p q (reaps _ e dead) f = record { counted = omega (arith, f.counted); fair = f.fair }
Step-IsFair p q (loops before c after _ e) f = record {
  counted = omega (
    arith,
    ap length e,
    f.counted,
    length-cons_in before c after,
    length-cons_in before (loop_step c).0 after,
  );
  fair =
      step_child-IsFairAt p.parent before c after p.expected p.received p.queued
        (subst (λ cs. IsFairAt p.parent cs p.expected p.received p.queued) e f.fair);
}
Step-IsFair p q (dies before c after _ e) f = record {
  counted = omega (arith, ap length e, f.counted, length-cons_in before c after);
  fair =
      end_child-IsFairAt p.parent before c after p.expected p.received p.queued
        (subst (λ cs. IsFairAt p.parent cs p.expected p.received p.queued) e f.fair);
}
Step-IsFair p q (stops before c after _ _ e) f = record {
  counted = omega (arith, ap length e, f.counted, length-cons_in before c after);
  fair =
      end_child-IsFairAt p.parent before c after p.expected p.received p.queued
        (subst (λ cs. IsFairAt p.parent cs p.expected p.received p.queued) e f.fair);
}

Steps-IsFair : (p q : Protocol) → Steps p q → IsFair p → IsFair q
Steps-IsFair p q (done _) f = f
Steps-IsFair p q (more _ r _ s t) f = Steps-IsFair r q t (Step-IsFair p r s f)

-- Whatever steps the parent and its children take from a parent without children, and in which
-- order, with any number of children started, ended, reaped and stopped and of restores: while the parent
-- restores a checkpoint, each child that runs is held by the pause, at the tests of its loop, behind
-- them or in `sigsuspend`, and none is in `initial_backup`, `inotify_jobs` or `sleep`.
pub restore_while_held :
    (p : Protocol)
    → Steps start p
    → p.parent ≡ restoring
    → All (λ c. is_held c.phase ≡ true) p.children
restore_while_held p steps e =
    let (h, all, le, enough) =
      at_parent p e
        (Steps-IsFair start p steps (record { counted = omega arith; fair = (tt, refl) })) in
    all_held p.children h (omega (arith, le, enough))
