-- ===== src/Child/Handler.antt =====
-- `event_handler` of src/inotify_functions.c: the queued events of one child, in order.
pub mod Outside
pub mod Grows
pub mod Safety
pub mod NoFault
pub mod Mirrors
use unix_backup_c.Common.{
  ℕ, zero, suc, ◌+◌, ◌-◌, ◌*◌, ◌/◌, ◌%◌, ◌^◌, ◌≤◌, ◌<◌, ◌≡◌, refl, sym, ap, ◌∙◌, ◌≢◌, ◌↔◌, ◌⊎◌, inl,
  inr, Bool, true, false, not, ◌&&◌, ◌||◌, Option, none, some, List, [], ◌∷◌, ◌++◌, map, arith, ltb,
  leb, ◌==◌, ==_iff, ==_refl, ==_false_sym, ==_ne, &&_split, ||_split, ◌>>=◌, >>=-eq-some, is_some,
  if◌then◌else◌, Bool-cases, Option-cases, length, get_elem?, take, drop, length-append,
  length-drop, drop-length_plus, drop-plus, drop_of_length, take-append-drop, drop-length-append,
  All, All-append,
}
use unix_backup_c.Common.Bytes.{
  Bytes, bytes, char_at, str_eq, starts_with, str_eq_sound, str_eq_refl, starts_with-append,
  starts_with_sound, char_at-length-append,
}
use mathlib.Core.List.{append-nil, append_assoc, map-append}
use mathlib.Core.Path.{subst}
use unix_backup_c.Types.{Watch, Move, Event}
use unix_backup_c.Paths.{slash, concat}
use unix_backup_c.Dlist.Refine.{find_first, delete}
use unix_backup_c.Watches.{has_wd}
use unix_backup_c.Outcome.{Outcome, ok, exited, fault, and_then}
use unix_backup_c.Child.Files.{Files}
use unix_backup_c.Child.Folders.{Pair, Env, new_folder_init}
use unix_backup_c.Child.Moves.{add_move_event, check_move_events_list}

-- `mask & bit`, for the bit 2 ^ k.
abbrev pub bit : ℕ → ℕ → Bool
bit mask k = mask / 2 ^ k % 2 == 1

-- The bits of inotify.h.
abbrev pub in_attrib : ℕ
in_attrib = 2

abbrev pub in_close_write : ℕ
in_close_write = 3

abbrev pub in_moved_from : ℕ
in_moved_from = 6

abbrev pub in_moved_to : ℕ
in_moved_to = 7

abbrev pub in_create : ℕ
in_create = 8

abbrev pub in_delete : ℕ
in_delete = 9

abbrev pub in_delete_self : ℕ
in_delete_self = 10

abbrev pub in_move_self : ℕ
in_move_self = 11

abbrev pub in_ignored : ℕ
in_ignored = 15

abbrev pub in_isdir : ℕ
in_isdir = 30

-- Whether the path is outside the source: it does not start with it, or goes on without a slash.
unfoldable pub outside_source : Bytes → Bytes → Bool
outside_source source path =
    if starts_with source path
    then elim (drop (length source) path) [ [] ↦ false | c ∷ rest ↦ not (c == slash) ]
    else true

module _ (files : Files) (pair : Pair) where
  open files use {World, rm_watch, create_empty_files, copy_files, attribs, delete_multi}

  -- The child's state, but for the queue.
  pub record State : Type 0 where
    pub world : World
    pub watchers : List Watch
    pub mov_dict : List Move
    -- `kill(getpid(), SIGUSR2)` sets `child_should_exit`
    pub should_exit : Bool

  -- A block `if (…) { debug_printer(…, wd_node->path, …); … }`: the arguments read `wd_node`.
  unfoldable pub block : Bool → Option Watch → (State → Outcome State) → State → Outcome State
  block false wd_node body s = ok s
  block true none body s = fault
  block true (some w) body s = body s

  unfoldable pub on_world : (World → Option World) → State → Outcome State
  on_world f s = elim (f s.world) [ none ↦ exited | some w ↦ ok (record s { world = w }) ]

  unfoldable pub create_dir : Event → State → Outcome State
  create_dir e s = elim (new_folder_init files pair e.full_path (s.world, s.watchers)) [
    | none ↦ exited
    | some env ↦ ok (record s { world = env.0; watchers = env.1 })
  ]

  unfoldable pub moved : Bool → ℕ → Event → State → Outcome State
  moved is_from now e s =
      elim (add_move_event files pair e.cookie is_from e.full_path now s.mov_dict
        (s.world, s.watchers)) [
          | none ↦ exited
          | some r ↦ ok (record s { mov_dict = r.0; world = r.1.0; watchers = r.1.1 })
        ]

  -- `if (strcmp(event->full_path, source_node->source_full) == 0) kill(getpid(), SIGUSR2);`
  unfoldable pub exit_if_source : Event → State → Outcome State
  exit_if_source e s =
      ok (if str_eq e.full_path pair.source_full then record s { should_exit = true } else s)

  unfoldable pub ignored : Event → State → Outcome State
  ignored e s = ok (record s { watchers = delete (has_wd e.wd) s.watchers })

  -- The blocks for an event inside the source, in the order of the source text.
  unfoldable pub blocks : ℕ → Event → Option Watch → State → Outcome State
  unfolding on_world
  blocks now e wd_node s0 =
      let is_dir = bit e.mask in_isdir in
      let dest = concat (some pair.target_full) (some e.suffix) in
      and_then (block (bit e.mask in_create && is_dir) wd_node (create_dir e) s0) λ s1.
        and_then
          (block (bit e.mask in_create && not is_dir) wd_node
            (on_world (create_empty_files dest e.full_path)) s1)
          λ s2.
            and_then
              (block (bit e.mask in_close_write && not is_dir) wd_node
                (on_world (copy_files dest pair.target_full e.full_path)) s2)
              λ s3.
                and_then (block (bit e.mask in_delete) wd_node (on_world (delete_multi dest)) s3)
                  λ s4.
                    and_then (block (bit e.mask in_moved_from) wd_node (moved true now e) s4) λ s5.
                      and_then (block (bit e.mask in_moved_to) wd_node (moved false now e) s5) λ s6.
                        and_then
                          (block (bit e.mask in_attrib) wd_node
                            (on_world (attribs dest e.full_path)) s6)
                          λ s7.
                            and_then
                              (block (bit e.mask in_delete_self) wd_node
                                (λ s. and_then (on_world (delete_multi dest) s) (exit_if_source e))
                                s7)
                              λ s8.
                                and_then
                                  (block (bit e.mask in_move_self) wd_node (exit_if_source e) s8)
                                  λ s9. block (bit e.mask in_ignored) wd_node (ignored e) s9

  -- One event; outside the source its watch is given up, by `wd_node->wd`.
  unfoldable pub handle_event : ℕ → Event → State → Outcome State
  handle_event now e s =
      let wd_node = find_first (has_wd e.wd) s.watchers in
      if outside_source pair.source_full e.full_path
      then elim wd_node [
        | none ↦ fault
        | some w ↦
            ok (record s {
              world = rm_watch w.wd s.world;
              watchers = delete (has_wd w.wd) s.watchers;
            })
      ]
      else blocks now e wd_node s

  -- The loop takes the first event off the queue after each round; no round adds one. The time is
  -- that of the round, by the number of events left.
  unfoldable pub event_handler : (ℕ → ℕ) → List Event → State → Outcome State
  event_handler clock [] s = ok s
  event_handler clock (e ∷ es) s =
      and_then (handle_event (clock (length es)) e s) (event_handler clock es)
