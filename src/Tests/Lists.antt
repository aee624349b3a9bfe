-- ===== src/Tests/Lists.antt =====
-- The lists of src/list_wd.c and src/list_inotify_events.c on a heap of two nodes.
use unix_backup_c.Common.{ℕ, ◌≡◌, refl, none, some, List, [], ◌∷◌, arith, ◌==◌, if◌then◌else◌}
use unix_backup_c.Common.Bytes.{Bytes, bytes}
use unix_backup_c.Types.{Move, Watch, Event}
use unix_backup_c.Dlist.{empty}
use unix_backup_c.Dlist.Seg.{Nodes}
use unix_backup_c.Dlist.Free.{IsFreed}
use unix_backup_c.Registry.Freed.{
  TargetLists, TargetMemory, IsTarget, delete_target_node, delete_target_node-IsFreed,
}
use unix_backup_c.Types.{Target, Source}
use unix_backup_c.Dlist.{null, Heap, Handle}
use unix_backup_c.Dlist.Seg.{cell}
use unix_backup_c.Dlist.Repr.{IsList, IsList-empty}
use unix_backup_c.Dlist.Insert.{Ends}
use unix_backup_c.Dlist.Refine.{Holds, delete}
use unix_backup_c.Dlist.Script.{
  Op, back, front, drop_first, pop, Store, run, on_lists, initial, run-on_lists,
}
use unix_backup_c.Watches.{has_wd, delete_wd_node}
use unix_backup_c.Watches.Laws.{delete_wd_node-Holds}
use unix_backup_c.Events.{RawEvent, event_of, enqueue, add_inotify_event}
use unix_backup_c.Events.Laws.{add_inotify_event-Holds}

abbrev watch_1 : Watch
watch_1 = record {
  wd = 1;
  source_friendly = bytes "h";
  source_full = bytes "/h";
  path = bytes "/h";
  suffix = [];
}

abbrev watch_2 : Watch
watch_2 = record {
  wd = 2;
  source_friendly = bytes "h";
  source_full = bytes "/h";
  path = bytes "/h/a";
  suffix = bytes "/a";
}

abbrev two_nodes : Heap Watch
two_nodes p =
    if p == 1
    then some (cell 2 null watch_1)
    else if p == 2
    then some (cell null 1 watch_2)
    else none

abbrev two : Handle
two = record { head = 1; tail = 2; size = 2 }

abbrev nodes : Nodes Watch
nodes = (1, watch_1) ∷ (2, watch_2) ∷ []

two-IsList : IsList two_nodes two nodes
two-IsList = record {
  head = refl;
  tail = refl;
  size = refl;
  chain = (λ e. omega arith, refl, (λ e. omega arith, refl, tt));
  distinct = (refl, (refl, tt));
}

two-Holds : Holds two_nodes two (watch_1 ∷ watch_2 ∷ [])
two-Holds = (nodes, two-IsList, refl)

abbrev no_events : Heap Event
no_events p = none

empty-Holds : Holds no_events empty []
empty-Holds = ([], IsList-empty no_events, refl)

abbrev script : List (Op ℕ)
script = back 5 ∷ front 6 ∷ drop_first (λ n. n == 5) ∷ pop ∷ pop ∷ []

run-on_lists_example :
    (t : Store ℕ) × (run script initial ≡ some t) × Holds t.heap t.handle (on_lists script [])
run-on_lists_example = run-on_lists script

delete_wd_node-Holds_example :
    Ends
      (delete_wd_node 1 two two_nodes)
      (λ l g. Holds g l (delete (has_wd 1) (watch_1 ∷ watch_2 ∷ [])))
delete_wd_node-Holds_example =
    delete_wd_node-Holds 1 two two_nodes (watch_1 ∷ watch_2 ∷ []) two-Holds

abbrev made : RawEvent
made = record { wd = 2; mask = 256; cookie = 0; len = 4; name = bytes "b" }

add_inotify_event-Holds_example :
    Ends
      (add_inotify_event 1 two two_nodes made empty no_events)
      (λ l g. Holds g l (enqueue (watch_1 ∷ watch_2 ∷ []) made []))
add_inotify_event-Holds_example =
    add_inotify_event-Holds 1 two two_nodes made empty no_events (watch_1 ∷ watch_2 ∷ []) []
      (λ e. omega arith) refl two-Holds empty-Holds

abbrev one_event : Heap Event
one_event p = if p == 1 then some (cell null null (event_of watch_2 made)) else none

abbrev one : Handle
one = record { head = 1; tail = 1; size = 1 }

one-Holds : Holds one_event one (event_of watch_2 made ∷ [])
one-Holds = (
  (1, event_of watch_2 made) ∷ [],
  record {
    head = refl;
    tail = refl;
    size = refl;
    chain = (λ e. omega arith, refl, tt);
    distinct = (refl, tt);
  },
  refl,
)

abbrev target_at : Bytes → ℕ → Target
target_at name pid = record {
  target_friendly = name;
  target_full = name;
  child_pid = some pid;
  inotify_fd = none;
  watchers = [];
  events = [];
  mov_dict = [];
}

abbrev targets : List Target
targets = target_at (bytes "t") 5 ∷ target_at (bytes "u") 6 ∷ []

abbrev target_nodes : Heap Target
target_nodes p =
    if p == 1
    then some (cell 2 null (target_at (bytes "t") 5))
    else if p == 2
    then some (cell null 1 (target_at (bytes "u") 6))
    else none

targets-Holds : Holds target_nodes two targets
targets-Holds = (
  (1, target_at (bytes "t") 5) ∷ (2, target_at (bytes "u") 6) ∷ [],
  record {
    head = refl;
    tail = refl;
    size = refl;
    chain = (λ e. omega arith, refl, (λ e. omega arith, refl, tt));
    distinct = (refl, (refl, tt));
  },
  refl,
)

abbrev source : Source
source = record { source_full = bytes "/s"; source_friendly = bytes "s"; targets = targets }

abbrev source_nodes : Heap Source
source_nodes p = if p == 1 then some (cell null null source) else none

abbrev no_moves : Heap Move
no_moves q = none

abbrev lists : TargetLists
lists = record { watchers = two; events = empty; mov_dict = empty }

abbrev memory : TargetMemory
memory = record { watchers = two_nodes; events = no_events; mov_dict = no_moves }

memory-IsTarget : IsTarget memory lists nodes [] []
memory-IsTarget = record {
  watchers = two-IsList;
  events = IsList-empty no_events;
  mov_dict = IsList-empty no_moves;
}

delete_target_node-IsFreed_example :
    (mem : TargetMemory) × (delete_target_node (some 5) lists memory ≡ some (some 5, mem))
    × IsFreed nodes two_nodes mem.watchers
    × IsFreed [] no_events mem.events
    × IsFreed [] no_moves mem.mov_dict
delete_target_node-IsFreed_example =
    delete_target_node-IsFreed (some 5) lists memory nodes [] [] memory-IsTarget
