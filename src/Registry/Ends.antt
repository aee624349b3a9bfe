-- ===== src/Registry/Ends.antt =====
-- The command `end`, and children that end by themselves, keep the lists consistent.
use unix_backup_c.Common.{
  ℕ, ◌≡◌, refl, ◌∙◌, inl, inr, Bool, true, false, Option, some, List, [], ◌∷◌, ◌++◌, arith,
  Bool-cases, Option-cases,
}
use unix_backup_c.Common.Bytes.{Bytes, str_eq_refl}
use mathlib.Core.Path.{subst}
use unix_backup_c.Counts.{count-delete}
use unix_backup_c.Types.{Target}
use unix_backup_c.Dlist.Refine.{find_first}
use unix_backup_c.Registry.{has_pid, focus, find_element_by_source, list_target_delete}
use unix_backup_c.Registry.Commands.{
  drop_target, handle_end_for_target, end_targets, at_node, end, handle_dead_children,
  reap_dead_children,
}
use unix_backup_c.Registry.Invariant.{IsConsistent-IsOpen, IsFocus, focus-IsFocus}
use unix_backup_c.Types.{Source}
use unix_backup_c.Dlist.Refine.{exists, delete}
use unix_backup_c.Registry.{Os, Main, Work, has_target, has_source, list_source_delete}
use unix_backup_c.Registry.Commands.{is_nil, count_removed, close}
use unix_backup_c.Counts.{length-delete, delete-missing, delete-append, exists-count, All-delete}
use unix_backup_c.Registry.Invariant.{
  IsAllowed, IsConsistent, IsOpen, IsOpen-IsConsistent, IsOpen-removed,
}
use unix_backup_c.Registry.Add.{OpenAt}

-- One target less, by its name; a name that is not there changes nothing.
IsOpen-delete :
    (b : List Source) (s : Source) (a : List Source) (children : ℕ) (name : Bytes)
    → IsOpen b s a children
    → IsOpen b
        (record s { targets = delete (has_target name) s.targets })
        a
        (count_removed (exists (has_target name) s.targets) children)
IsOpen-delete b s a children name o = record {
  counted = elim (Bool-cases (exists (has_target name) s.targets)) [
    | inl there ↦
        rw there (omega (arith, o.counted, length-delete (has_target name) s.targets there))
    | inr missing ↦ rw (missing, delete-missing (has_target name) s.targets missing) o.counted
  ];
  sources_once = o.sources_once;
  targets_once =
      λ n. omega (arith, o.targets_once n, count-delete (has_target n) (has_target name) s.targets);
  active_before = o.active_before;
  active_after = o.active_after;
  allowed = All-delete (IsAllowed s.source_friendly) (has_target name) s.targets o.allowed;
}

-- Where a source is at a position, the deletion by its name takes it out there.
delete-at :
    (b : List Source) (s : Source) (a : List Source) (children : ℕ) (name : Bytes)
    → IsOpen b s a children
    → has_source name s ≡ true
    → delete (has_source name) (b ++ (s ∷ a)) ≡ b ++ a
delete-at b s a children name o same =
    let unused : exists (has_source name) b ≡ false =
      exists-count (has_source name) b (ground (arith, o.sources_once name, same)) in
    rw (delete-append (has_source name) b (s ∷ a) unused, same) refl

module _ (os : Os) where
  close-IsConsistent :
      (name : Bytes) (k : Work os)
      → OpenAt os k
      → has_source name k.source ≡ true
      → IsConsistent (close os name k).backups k.child_count
  unfolding close list_source_delete
  close-IsConsistent name k o same = elim (Bool-cases (is_nil k.source.targets)) [
    | inl empty ↦
        rw (empty, delete-at k.before k.source k.after k.child_count name o same)
          (IsOpen-removed k.before k.source k.after k.child_count o empty)
    | inr full ↦ rw full (IsOpen-IsConsistent k.before k.source k.after k.child_count o full)
  ]

  drop_target-OpenAt :
      (name : Bytes) (k : Work os) → OpenAt os k → OpenAt os (drop_target os name k)
  unfolding drop_target list_target_delete
  drop_target-OpenAt name k o = IsOpen-delete k.before k.source k.after k.child_count name o

  -- The work goes on at the source of the same name, and stays open.
  abbrev pub Continues : Work os → Work os → Type 0
  Continues k d = OpenAt os d × (d.source.source_friendly ≡ k.source.source_friendly)

  pub handle_end_for_target-Continues :
      (t : Target) (k : Work os) → OpenAt os k → Continues k (handle_end_for_target os t k)
  unfolding handle_end_for_target drop_target list_target_delete
  handle_end_for_target-Continues t k o =
      (IsOpen-delete k.before k.source k.after k.child_count t.target_friendly o, refl)

  end_targets-Continues :
      (toks : List Bytes) (k : Work os) → OpenAt os k → Continues k (end_targets os toks k)
  unfolding end_targets
  end_targets-Continues [] k o = (o, refl)
  end_targets-Continues (tok ∷ toks) k o =
      elim (Option-cases (find_first (has_target tok) k.source.targets)) [
        | inl missing ↦ rw (missing, end_targets) (end_targets-Continues toks k o)
        | inr (t, found) ↦
            let (o', same) = handle_end_for_target-Continues t k o in
            let (o'', same') = end_targets-Continues toks (handle_end_for_target os t k) o' in
            rw (found, end_targets) (o'', same' ∙ same)
      ]

  focused :
      (test : Source → Bool) (m : Main os) (r : Option (List Source × Source × List Source))
      → focus test m.backups ≡ r
      → IsFocus test m.backups r
  focused test m r e = subst (IsFocus test m.backups) e (focus-IsFocus test m.backups)

  opened :
      (m : Main os) (b : List Source) (s : Source) (a : List Source)
      → IsConsistent m.backups m.child_count
      → m.backups ≡ b ++ (s ∷ a)
      → OpenAt os (at_node os m (b, s, a))
  opened m b s a c split =
      (IsConsistent-IsOpen b s a m.child_count
        (subst (λ ss. IsConsistent ss m.child_count) split c)).0

  close-count : (name : Bytes) (k : Work os) → (close os name k).child_count ≡ k.child_count
  unfolding close
  close-count name k = refl

  closed :
      (name : Bytes) (k : Work os)
      → OpenAt os k
      → has_source name k.source ≡ true
      → IsConsistent (close os name k).backups (close os name k).child_count
  closed name k o same = rw (close-count name k) (close-IsConsistent name k o same)

  -- The command `end` keeps the lists consistent, whatever source and targets
  -- its arguments name.
  pub end-IsConsistent :
      (name : Bytes) (toks : List Bytes) (m : Main os)
      → IsConsistent m.backups m.child_count
      → IsConsistent (end os name toks m).backups (end os name toks m).child_count
  unfolding end find_element_by_source
  end-IsConsistent name toks m c = elim (Option-cases (focus (has_source name) m.backups)) [
    | inl missing ↦ rw (missing, end) c
    | inr ((b, s, a), found) ↦
        let (split, test) = focused (has_source name) m (some (b, s, a)) found in
        let (o, same) =
          end_targets-Continues toks (at_node os m (b, s, a)) (opened m b s a c split) in
        rw (found, end)
          (closed name (end_targets os toks (at_node os m (b, s, a))) o (rw same test))
  ]

  handle_dead_children-IsConsistent :
      (pid : ℕ) (m : Main os)
      → IsConsistent m.backups m.child_count
      → IsConsistent
          (handle_dead_children os pid m).backups
          (handle_dead_children os pid m).child_count
  unfolding handle_dead_children drop_target
  handle_dead_children-IsConsistent pid m c =
      elim (Option-cases (focus (λ s. exists (has_pid pid) s.targets) m.backups)) [
        | inl missing ↦ rw (missing, handle_dead_children) c
        | inr ((b, s, a), found) ↦ elim (Option-cases (find_first (has_pid pid) s.targets)) [
          | inl none_there ↦ rw (found, none_there, handle_dead_children) c
          | inr (t, there) ↦
              let (split, test) =
                focused (λ s. exists (has_pid pid) s.targets) m (some (b, s, a)) found in
              rw (found, there, handle_dead_children)
                (closed s.source_friendly
                  (drop_target os t.target_friendly (at_node os m (b, s, a)))
                  (drop_target-OpenAt t.target_friendly (at_node os m (b, s, a))
                    (opened m b s a c split))
                  (str_eq_refl s.source_friendly))
        ]
      ]

  -- Reaping any children that have ended keeps the lists consistent.
  pub reap_dead_children-IsConsistent :
      (pids : List ℕ) (m : Main os)
      → IsConsistent m.backups m.child_count
      → IsConsistent
          (reap_dead_children os pids m).backups
          (reap_dead_children os pids m).child_count
  unfolding reap_dead_children
  reap_dead_children-IsConsistent [] m c = c
  reap_dead_children-IsConsistent (pid ∷ pids) m c =
      reap_dead_children-IsConsistent pids (handle_dead_children os pid m)
        (handle_dead_children-IsConsistent pid m c)
