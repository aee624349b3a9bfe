-- ===== src/Registry/Commands.antt =====
-- The commands `add` and `end` of src/main.c, and the children that end by themselves.
use unix_backup_c.Common.{
  ℕ, ◌-◌, Bool, true, false, not, ◌&&◌, none, some, List, [], ◌∷◌, ◌++◌, ltb, if◌then◌else◌,
}
use unix_backup_c.Common.Bytes.{Bytes}
use unix_backup_c.Types.{Target, Source}
use unix_backup_c.Outcome.{Outcome, ok, fault, and_then}
use unix_backup_c.Dlist.Refine.{exists, find_first}
use unix_backup_c.Registry.{
  Os, Main, Work, listed, parse_targets, list_target_delete, list_source_add, list_source_delete,
  find_element_by_source, find_element_by_target, starts_slash, has_target, has_pid, focus,
}

abbrev pub is_nil {ℓ} : {A : Type ℓ} → List A → Bool
is_nil [] = true
is_nil (x ∷ xs) = false

-- `if (removed && child_count > 0) child_count--;`
abbrev pub count_removed : Bool → ℕ → ℕ
count_removed removed n = if removed then n - 1 else n

module _ (os : Os) where
  -- The end of `take_input`. A source without targets that is in `backups` would be freed there.
  unfoldable pub finish_add : ℕ × Work os → Outcome (Bool × Main os)
  finish_add (cnt, k) =
      let m : List Source → Main os =
        λ ss. record { world = k.world; backups = ss; child_count = k.child_count } in
      if ltb 0 cnt && not k.attached
      then ok (true, m (list_source_add k.source (listed os k)))
      else if is_nil k.source.targets && k.attached
      then fault
      else ok (true, m (listed os k))

  -- `take_input`, with the tokens behind `add`; `false` is the answer 0.
  unfoldable pub take_input : List Bytes → Main os → Outcome (Bool × Main os)
  take_input [] m = ok (false, m)
  take_input (tok ∷ toks) m = elim (starts_slash tok) [
    | true ↦ ok (false, m)
    | false ↦ elim (os.realpath tok m.world) [
      | none ↦ ok (false, m)
      | some full ↦ elim (find_element_by_target m.backups tok) [
        | true ↦ ok (false, m)
        | false ↦ elim (find_element_by_source m.backups tok) [
          | none ↦
              and_then
                (parse_targets os toks (record {
                  world = m.world;
                  child_count = m.child_count;
                  attached = false;
                  before = [];
                  source = record { source_full = full; source_friendly = tok; targets = [] };
                  after = m.backups;
                }))
                finish_add
          | some (b, s, a) ↦
              and_then
                (parse_targets os toks (record {
                  world = m.world;
                  child_count = m.child_count;
                  attached = true;
                  before = b;
                  source = s;
                  after = a;
                }))
                finish_add
        ]
      ]
    ]
  ]

  -- `list_target_delete` and the count of children, for a target of the source at work.
  unfoldable pub drop_target : Bytes → Work os → Work os
  drop_target name k =
      let (removed, ts) = list_target_delete name k.source.targets in
      record k {
        child_count = count_removed removed k.child_count;
        source = record k.source { targets = ts };
      }

  -- `handle_end_for_target`: the child is stopped, if there is one.
  unfoldable pub handle_end_for_target : Target → Work os → Work os
  handle_end_for_target t k = drop_target t.target_friendly (record k {
    world = elim t.child_pid [
      | none ↦ k.world
      | some pid ↦ if ltb 0 pid then os.stop_child pid k.world else k.world
    ];
  })

  -- The loop of `end` over the tokens.
  unfoldable pub end_targets : List Bytes → Work os → Work os
  end_targets [] k = k
  end_targets (tok ∷ toks) k = elim (find_first (has_target tok) k.source.targets) [
    | none ↦ end_targets toks k
    | some t ↦ end_targets toks (handle_end_for_target t k)
  ]

  -- `if (targets.size == 0) list_source_delete(source_friendly);`
  unfoldable pub close : Bytes → Work os → Main os
  close name k = record {
    world = k.world;
    backups =
        (let ss = k.before ++ (k.source ∷ k.after) in
          if is_nil k.source.targets then list_source_delete name ss else ss);
    child_count = k.child_count;
  }

  -- The work on a node of `backups`.
  abbrev pub at_node : Main os → List Source × Source × List Source → Work os
  at_node m (b, s, a) = record {
    world = m.world;
    child_count = m.child_count;
    attached = true;
    before = b;
    source = s;
    after = a;
  }

  -- `end`, with the tokens behind the source.
  unfoldable pub end : Bytes → List Bytes → Main os → Main os
  end name toks m = elim (find_element_by_source m.backups name) [
    | none ↦ m
    | some node ↦ close name (end_targets toks (at_node m node))
  ]

  -- `handle_dead_children`: the first source that has a target with the process, in its order.
  unfoldable pub handle_dead_children : ℕ → Main os → Main os
  handle_dead_children pid m = elim (focus (λ s. exists (has_pid pid) s.targets) m.backups) [
    | none ↦ m
    | some (b, s, a) ↦ elim (find_first (has_pid pid) s.targets) [
      | none ↦ m
      | some t ↦ close s.source_friendly (drop_target t.target_friendly (at_node m (b, s, a)))
    ]
  ]

  -- The loop of `reap_dead_children` over the processes that `waitpid` gives.
  unfoldable pub reap_dead_children : List ℕ → Main os → Main os
  reap_dead_children [] m = m
  reap_dead_children (pid ∷ pids) m = reap_dead_children pids (handle_dead_children pid m)
