-- ===== src/Watches.antt =====
-- src/list_wd.c: the watch list of one child, on the heap of its nodes. A failing `malloc` is the
-- fresh address NULL; a failing `strdup` ends the process and is not modelled.
pub mod Laws
use unix_backup_c.Common.{
  ℕ, zero, suc, ◌+◌, ◌-◌, ◌*◌, ◌/◌, ◌%◌, ◌^◌, ◌≤◌, ◌<◌, ◌≡◌, refl, sym, ap, ◌∙◌, ◌≢◌, ◌↔◌, ◌⊎◌, inl,
  inr, Bool, true, false, not, ◌&&◌, ◌||◌, Option, none, some, List, [], ◌∷◌, ◌++◌, map, arith, ltb,
  leb, ◌==◌, ==_iff, ==_refl, ==_false_sym, ==_ne, &&_split, ||_split, if◌then◌else◌, Bool-cases,
  Option-cases, length, get_elem?, take, drop, length-append, length-drop, drop-length_plus,
  drop-plus, drop_of_length, take-append-drop, drop-length-append, All, All-append,
}
use unix_backup_c.Common.Bytes.{
  Bytes, bytes, char_at, str_eq, starts_with, str_eq_sound, str_eq_refl, starts_with-append,
  starts_with_sound, char_at-length-append,
}
use mathlib.Core.List.{append-nil, append_assoc}
use mathlib.Core.Path.{subst}
use mathlib.Core.Option
use unix_backup_c.Types.{Watch}
use unix_backup_c.Dlist.{Ptr, null, Heap, Handle, push_back, find, delete_first}

-- The new node's fields; a NULL suffix becomes the empty string.
abbrev pub new_watch : ℕ → Bytes → Bytes → Bytes → Option Bytes → Watch
new_watch wd friendly full path suffix = record {
  wd = wd;
  source_friendly = friendly;
  source_full = full;
  path = path;
  suffix = elim suffix [ none ↦ [] | some s ↦ s ];
}

unfoldable pub add_wd_node :
    Ptr
    → ℕ
    → Bytes
    → Bytes
    → Bytes
    → Option Bytes
    → Handle
    → Heap Watch
    → Option (Handle × Heap Watch)
add_wd_node fresh wd friendly full path suffix l h =
    if fresh == null
    then some (l, h)
    else push_back fresh (new_watch wd friendly full path suffix) l h

-- The test of both loops, `current->wd == wd`.
abbrev pub has_wd : ℕ → Watch → Bool
has_wd wd w = w.wd == wd

unfoldable pub find_element_by_wd : ℕ → Handle → Heap Watch → Option Ptr
find_element_by_wd wd l h = find (has_wd wd) l h

unfoldable pub delete_wd_node : ℕ → Handle → Heap Watch → Option (Handle × Heap Watch)
delete_wd_node wd l h = Option.map (λ r. (r.1, r.2)) (delete_first (has_wd wd) l h)
