-- ===== src/Events.antt =====
-- src/list_inotify_events.c: the queue of inotify events of one child, on the heap of its nodes.
-- A failing `malloc` or `strdup` ends the process and is not modelled.
pub mod Laws
pub mod Inside
use unix_backup_c.Common.{
  ◌>>=◌, ℕ, zero, suc, ◌+◌, ◌-◌, ◌*◌, ◌/◌, ◌%◌, ◌^◌, ◌≤◌, ◌<◌, ◌≡◌, refl, sym, ap, ◌∙◌, ◌≢◌, ◌↔◌,
  ◌⊎◌, inl, inr, Bool, true, false, not, ◌&&◌, ◌||◌, Option, none, some, List, [], ◌∷◌, ◌++◌, map,
  arith, ltb, leb, ◌==◌, ==_iff, ==_refl, ==_false_sym, ==_ne, &&_split, ||_split, if◌then◌else◌,
  Bool-cases, Option-cases, length, get_elem?, take, drop, length-append, length-drop,
  drop-length_plus, drop-plus, drop_of_length, take-append-drop, drop-length-append, All,
  All-append,
}
use unix_backup_c.Common.Bytes.{
  Bytes, bytes, char_at, str_eq, starts_with, str_eq_sound, str_eq_refl, starts_with-append,
  starts_with_sound, char_at-length-append,
}
use mathlib.Core.List.{append-nil, append_assoc}
use mathlib.Core.Path.{subst}
use unix_backup_c.Types.{Watch, Event}
use unix_backup_c.Paths.{slash, get_end_suffix}
use unix_backup_c.Dlist.{Ptr, null, Heap, Handle, load, push_back, pop_front}
use unix_backup_c.Dlist.Refine.{find_first}
use unix_backup_c.Watches.{has_wd, find_element_by_wd}

-- `struct inotify_event` as the reader hands it over; `name` is the C string at its `name`.
pub record RawEvent : Type 0 where
  pub wd : ℕ
  pub mask : ℕ
  pub cookie : ℕ
  pub len : ℕ
  pub name : Bytes

-- `name_len`
name_len : RawEvent → ℕ
name_len e = if ltb 0 e.len then length e.name else 0

-- `full_len`, the bytes allocated for the path with its NUL.
pub full_len : Watch → RawEvent → ℕ
unfolding name_len
full_len w e = length w.path + (if ltb 0 (name_len e) then 1 + name_len e else 0) + 1

-- The path of the watched directory, or of the entry in it that the event names.
pub full_path : Watch → RawEvent → Bytes
unfolding name_len
full_path w e = if ltb 0 (name_len e) then w.path ++ (slash ∷ e.name) else w.path

-- The new node's fields; a NULL suffix becomes the empty string.
unfoldable pub event_of : Watch → RawEvent → Event
event_of w e = record {
  wd = e.wd;
  mask = e.mask;
  cookie = e.cookie;
  len = e.len;
  name = e.name;
  full_path = full_path w e;
  suffix = elim (get_end_suffix (some w.source_full) (some (full_path w e))) [
    | none ↦ []
    | some s ↦ s
  ];
}

-- An event of an unknown watch is dropped.
unfoldable pub add_inotify_event :
    Ptr → Handle → Heap Watch → RawEvent → Handle → Heap Event → Option (Handle × Heap Event)
add_inotify_event fresh wl wh e l h = do
  p ← find_element_by_wd e.wd wl wh
  if p == null then some (l, h) else do c ← load p wh; push_back fresh (event_of c.value e) l h

unfoldable pub remove_inotify_event : Handle → Heap Event → Option (Handle × Heap Event)
remove_inotify_event l h = pop_front l h

-- The same on plain lists of watches and of events.
unfoldable pub enqueue : List Watch → RawEvent → List Event → List Event
enqueue ws e es = elim (find_first (has_wd e.wd) ws) [
  | none ↦ es
  | some w ↦ es ++ (event_of w e ∷ [])
]
