-- ===== src/Registry/Freed.antt =====
-- `delete_target_node` of src/list_targets.c and `delete_source_node` of src/list_sources.c: what
-- they free. Strings are part of the nodes.
use unix_backup_c.Common.{
  ℕ, suc, ◌≡◌, refl, ap, ◌∙◌, Bool, true, Option, some, [], ◌∷◌, arith, ltb, ◌>>=◌, if◌then◌else◌,
  length,
}
use unix_backup_c.Types.{Watch, Event, Move, Target}
use unix_backup_c.Dlist.{Handle, Heap, free_all}
use unix_backup_c.Dlist.Seg.{Nodes}
use unix_backup_c.Dlist.Repr.{IsList}
use unix_backup_c.Dlist.Free.{IsFreed, free_all-IsFreed}

-- The three lists of a `node_tr`, and the memory of their nodes.
pub record TargetLists : Type 0 where
  pub watchers : Handle
  pub events : Handle
  pub mov_dict : Handle

pub record TargetMemory : Type 0 where
  pub watchers : Heap Watch
  pub events : Heap Event
  pub mov_dict : Heap Move

-- `delete_target_node`; the answer is the descriptor that is closed.
unfoldable pub delete_target_node :
    Option ℕ → TargetLists → TargetMemory → Option (Option ℕ × TargetMemory)
delete_target_node inotify_fd lists mem = do
  watchers ← free_all lists.watchers mem.watchers
  events ← free_all lists.events mem.events
  mov_dict ← free_all lists.mov_dict mem.mov_dict
  some (inotify_fd, record { watchers = watchers; events = events; mov_dict = mov_dict })

-- The targets that `delete_source_node` frees.
unfoldable pub delete_source_node : Handle → Heap Target → Option (Heap Target)
delete_source_node targets h = if ltb 0 targets.size then free_all targets h else some h

-- The lists of a target, in its memory.
pub record IsTarget (mem : TargetMemory) (lists : TargetLists) (ws : Nodes Watch) (es : Nodes Event)
    (ms : Nodes Move) : Type 0 where
  pub watchers : IsList mem.watchers lists.watchers ws
  pub events : IsList mem.events lists.events es
  pub mov_dict : IsList mem.mov_dict lists.mov_dict ms

-- Deleting a target ends without a fault: it closes the target's descriptor, frees all nodes of
-- its watches, events and moves, each once, and leaves all other memory as it is.
pub delete_target_node-IsFreed :
    (fd : Option ℕ) (lists : TargetLists) (mem : TargetMemory) (ws : Nodes Watch) (es : Nodes Event)
    (ms : Nodes Move)
    → IsTarget mem lists ws es ms
    → (mem' : TargetMemory) × (delete_target_node fd lists mem ≡ some (fd, mem'))
      × IsFreed ws mem.watchers mem'.watchers
      × IsFreed es mem.events mem'.events
      × IsFreed ms mem.mov_dict mem'.mov_dict
unfolding delete_target_node
delete_target_node-IsFreed fd lists mem ws es ms is =
    let (w, w_runs, w_freed) = free_all-IsFreed lists.watchers ws mem.watchers is.watchers in
    let (e, e_runs, e_freed) = free_all-IsFreed lists.events es mem.events is.events in
    let (m, m_runs, m_freed) = free_all-IsFreed lists.mov_dict ms mem.mov_dict is.mov_dict in
    (
      record { watchers = w; events = e; mov_dict = m },
      rw (w_runs, e_runs, m_runs) refl,
      w_freed,
      e_freed,
      m_freed,
    )

if_true : {A : Type 0} (b : Bool) (x y : A) → b ≡ true → (if b then x else y) ≡ x
if_true b x y e = rw e refl

ltb-suc : (n : ℕ) → ltb 0 (suc n) ≡ true
ltb-suc n = ground arith

-- Deleting a source frees all its targets, each once, and no other memory.
pub delete_source_node-IsFreed :
    (targets : Handle) (h : Heap Target) (ts : Nodes Target)
    → IsList h targets ts
    → (g : Heap Target) × (delete_source_node targets h ≡ some g) × IsFreed ts h g
unfolding delete_source_node
delete_source_node-IsFreed targets h [] is = (h, rw is.size refl, (λ q i. cc, λ q o. refl))
delete_source_node-IsFreed targets h (t ∷ ts) is =
    let (g, runs, freed) = free_all-IsFreed targets (t ∷ ts) h is in
    (g, if_true (ltb 0 targets.size) _ _ (ap (ltb 0) is.size ∙ ltb-suc (length ts)) ∙ runs, freed)
