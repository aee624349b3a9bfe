-- ===== src/Watches/Laws.antt =====
-- The watch list as a list of watches.
use unix_backup_c.Common.{ℕ, ◌≡◌, refl, ◌≢◌, Option, none, some, List, [], ◌∷◌, ◌++◌, ==_ne}
use unix_backup_c.Common.Bytes.{Bytes}
use unix_backup_c.Types.{Watch}
use unix_backup_c.Dlist.{Ptr, null, Heap, Handle}
use unix_backup_c.Dlist.Insert.{Ends}
use unix_backup_c.Dlist.Refine.{
  Holds, find_first, delete, payload, push_back-Holds, find-Holds, delete_first-Holds,
}
use unix_backup_c.Watches.{new_watch, add_wd_node, has_wd, find_element_by_wd, delete_wd_node}

-- On a heap that holds some watches, where memory is found, `add_wd_node` ends without a fault with
-- the new watch behind the others.
pub add_wd_node-Holds :
    (fresh : Ptr) (wd : ℕ) (friendly full path : Bytes) (suffix : Option Bytes) (l : Handle)
    (h : Heap Watch) (ws : List Watch)
    → fresh ≢ null
    → h fresh ≡ none
    → Holds h l ws
    → Ends
        (add_wd_node fresh wd friendly full path suffix l h)
        (λ l' g. Holds g l' (ws ++ (new_watch wd friendly full path suffix ∷ [])))
unfolding add_wd_node
add_wd_node-Holds fresh wd friendly full path suffix l h ws ne unused holds =
    rw (==_ne fresh null ne) (push_back-Holds fresh _ l h ws ne unused holds)

-- On a heap that holds some watches, `find_element_by_wd` ends without a fault with the address of
-- the first watch that has the descriptor, or NULL if none has it.
pub find_element_by_wd-Holds :
    (wd : ℕ) (l : Handle) (h : Heap Watch) (ws : List Watch)
    → Holds h l ws
    → (p : Ptr) × (find_element_by_wd wd l h ≡ some p)
      × (payload p h ≡ find_first (has_wd wd) ws)
      × (find_first (has_wd wd) ws ≡ none → p ≡ null)
unfolding find_element_by_wd
find_element_by_wd-Holds wd l h ws holds = find-Holds (has_wd wd) l h ws holds

-- On a heap that holds some watches, `delete_wd_node` ends without a fault, takes out the first
-- watch that has the descriptor, if there is one, and leaves the others in order.
pub delete_wd_node-Holds :
    (wd : ℕ) (l : Handle) (h : Heap Watch) (ws : List Watch)
    → Holds h l ws
    → Ends (delete_wd_node wd l h) (λ l' g. Holds g l' (delete (has_wd wd) ws))
unfolding delete_wd_node
delete_wd_node-Holds wd l h ws holds =
    let (l', g, run, holds') = delete_first-Holds (has_wd wd) l h ws holds in
    (l', g, rw run refl, holds')
