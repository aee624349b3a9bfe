-- ===== src/Registry/Nodes.antt =====
-- The same list functions of src/list_targets.c and src/list_sources.c on the heap of their nodes.
use unix_backup_c.Common.{
  ◌≡◌, refl, ap, ◌∙◌, ◌≢◌, inl, inr, Bool, false, not, Option, none, some, List, [], ◌∷◌, arith,
  ◌==◌, ==_ne, ◌>>=◌, Option-cases,
}
use unix_backup_c.Common.Bytes.{Bytes}
use unix_backup_c.Counts.{exists-find_first}
use unix_backup_c.Registry.{overlaps}
use unix_backup_c.Dlist.{null}
use unix_backup_c.Dlist.Insert.{Ends}
use unix_backup_c.Dlist.Refine.{
  Holds, payload, find_first, exists, push_front-Holds, delete_first-Holds, find-Holds,
  load_of_payload,
}
use unix_backup_c.Registry.{
  list_target_add, list_target_delete, find_element_by_target_help, list_source_delete,
}
use unix_backup_c.Types.{Target, Source}
use unix_backup_c.Dlist.{Ptr, Heap, Handle, push_front, find, delete_first}
use unix_backup_c.Registry.{has_target, has_source}

-- `list_target_add`, with the node at the address that `malloc` gave.
unfoldable pub target_node_add : Ptr → Target → Handle → Heap Target → Option (Handle × Heap Target)
target_node_add fresh t l h =
    push_front fresh
      (record t { inotify_fd = none; child_pid = none; watchers = []; events = []; mov_dict = [] })
      l h

-- `list_target_delete`
unfoldable pub target_node_delete :
    Bytes → Handle → Heap Target → Option (Bool × Handle × Heap Target)
target_node_delete name l h = delete_first (has_target name) l h

-- `find_element_by_target_help`, 1 for a node that is found.
unfoldable pub target_node_known : Bytes → Handle → Heap Target → Option Bool
target_node_known name l h = do p ← find (overlaps name) l h; some (not (p == null))

-- `list_source_add` and `list_source_delete`
unfoldable pub source_node_add : Ptr → Source → Handle → Heap Source → Option (Handle × Heap Source)
source_node_add fresh s l h = push_front fresh s l h

unfoldable pub source_node_delete : Bytes → Handle → Heap Source → Option (Handle × Heap Source)
source_node_delete name l h = do r ← delete_first (has_source name) l h; some (r.1, r.2)

-- `find_element_by_source`
unfoldable pub source_node_find : Bytes → Handle → Heap Source → Option Ptr
source_node_find name l h = find (has_source name) l h

-- On a heap that holds the targets, `list_target_add` ends without a fault with what it gives on
-- the plain list, where memory is found: the new target is reset and comes first.
pub target_node_add-Holds :
    (fresh : Ptr) (t : Target) (l : Handle) (h : Heap Target) (ts : List Target)
    → fresh ≢ null
    → h fresh ≡ none
    → Holds h l ts
    → Ends (target_node_add fresh t l h) (λ l' g. Holds g l' (list_target_add t ts))
unfolding target_node_add list_target_add
target_node_add-Holds fresh t l h ts ne unused holds =
    push_front-Holds fresh _ l h ts ne unused holds

-- On a heap that holds the targets, `list_target_delete` ends without a fault with the answer and
-- the list that it gives on the plain list: the first target of the name is taken out, if there is
-- one.
pub target_node_delete-Holds :
    (name : Bytes) (l : Handle) (h : Heap Target) (ts : List Target)
    → Holds h l ts
    → (l' : Handle) × (g : Heap Target) × (target_node_delete name l h
        ≡ some ((list_target_delete name ts).0, l', g))
      × Holds g l' (list_target_delete name ts).1
unfolding target_node_delete list_target_delete
target_node_delete-Holds name l h ts holds = delete_first-Holds (has_target name) l h ts holds

-- On a heap that holds the sources, `list_source_delete` ends without a fault with the list that it
-- gives on the plain list.
pub source_node_delete-Holds :
    (name : Bytes) (l : Handle) (h : Heap Source) (ss : List Source)
    → Holds h l ss
    → Ends (source_node_delete name l h) (λ l' g. Holds g l' (list_source_delete name ss))
unfolding source_node_delete list_source_delete
source_node_delete-Holds name l h ss holds =
    let (l', g, run, holds') = delete_first-Holds (has_source name) l h ss holds in
    (l', g, rw run refl, holds')

module _ {A : Type 0} where
  exists-missing :
      (test : A → Bool) (xs : List A) → find_first test xs ≡ none → exists test xs ≡ false
  exists-missing test [] e = refl
  exists-missing test (x ∷ xs) e = ground (arith, exists-missing test xs)

  -- What a search finds is no NULL exactly where an element passes.
  found-exists :
      (test : A → Bool) (p : Ptr) (h : Heap A) (xs : List A)
      → payload p h ≡ find_first test xs
      → (find_first test xs ≡ none → p ≡ null)
      → not (p == null) ≡ exists test xs
  found-exists test p h xs e missing = elim (Option-cases (find_first test xs)) [
    | inl nothing ↦ rw (missing nothing, exists-missing test xs nothing) refl
    | inr (x, found) ↦
        let (ne, _) = load_of_payload p h x (e ∙ found) in
        rw (==_ne p null ne, exists-find_first test xs x found) refl
  ]

-- On a heap that holds the targets, `find_element_by_target_help` ends without a fault with the
-- answer that it gives on the plain list.
pub target_node_known-Holds :
    (name : Bytes) (l : Handle) (h : Heap Target) (ts : List Target)
    → Holds h l ts
    → target_node_known name l h ≡ some (find_element_by_target_help ts name)
unfolding target_node_known find_element_by_target_help
target_node_known-Holds name l h ts holds =
    let (p, run, at, missing) = find-Holds (overlaps name) l h ts holds in
    rw run (ap some (found-exists (overlaps name) p h ts at missing))
