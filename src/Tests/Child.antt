-- ===== src/Tests/Child.antt =====
-- The child's handler on a world that hands out descriptors and does nothing else.
use unix_backup_c.Common.{ℕ, ◌+◌, ◌≡◌, refl, sym, ◌≢◌, ◌↔◌, false, some, List, [], ◌∷◌, ◌++◌, arith}
use unix_backup_c.Common.Bytes.{Bytes, bytes}
use mathlib.Core.List.{append-nil}
use unix_backup_c.Child.Handler.NoFault.{event_handler_no_fault}
use unix_backup_c.Paths.{get_end_suffix}
use unix_backup_c.Child.Folders.{backup_walk_inotify_init, copy_all}
use unix_backup_c.Child.Moves.{match_all, match_node, completed_move, expired_move, expired_from}
use unix_backup_c.Types.{Watch, Move, Event}
use unix_backup_c.Paths.Inside.{Within}
use unix_backup_c.Child.Files.{Files, Visits}
use unix_backup_c.System.{Flag, ftw_d, ftw_f}
use unix_backup_c.Child.Folders.{Pair, watch_all, new_folder_init}
use unix_backup_c.Child.Folders.Laws.{directories, watched, watch_all-directories}
use unix_backup_c.Child.Moves.{add_move_event, check_move_events_list}
use unix_backup_c.Child.Moves.Pending.{
  young, old, with_list, expire_all, IsDict, check_move_events_list-eq-expire_all,
}
use unix_backup_c.Child.Moves.Dict.{add_move_event-IsDict}
use unix_backup_c.Child.Moves.Pairing.{half_from, add_move_event-paired}
use unix_backup_c.Child.Handler.{State, event_handler, outside_source}
use unix_backup_c.Outcome.{fault}
use unix_backup_c.Child.Handler.Outside.{outside_source-iff_Within}

-- The world is the next descriptor; below each path there is one file.
abbrev counter : Files
counter = record {
  World = ℕ;
  lstat_is_dir = λ path w. some false;
  nftw = λ path w. (path, ftw_d) ∷ (path ++ bytes "/f", ftw_f) ∷ [];
  inotify_init = λ w. some (3, w);
  add_watch = λ path w. some (w, w + 1);
  rm_watch = λ wd w. w;
  create_empty_files = λ dest path w. some w;
  copy_files = λ dest target path w. some w;
  attribs = λ dest path w. some w;
  delete_multi = λ dest w. some w;
  move_all = λ dest target suffix w. some (w + 100);
  backup_walk = λ source target path flag w. some w;
}

abbrev pair : Pair
pair = record { source_full = bytes "/h"; source_friendly = bytes "h"; target_full = bytes "/t" }

visits : Visits counter
visits path w = (([], sym (append-nil path), tt), ((bytes "/f", refl, refl), tt))

abbrev root_watch : Watch
root_watch = record {
  wd = 1;
  source_friendly = bytes "h";
  source_full = bytes "/h";
  path = bytes "/h";
  suffix = [];
}

-- IN_CREATE of a file, and IN_IGNORED.
abbrev created : Event
created = record {
  wd = 1;
  mask = 256;
  cookie = 0;
  len = 4;
  name = bytes "a";
  full_path = bytes "/h/a";
  suffix = bytes "/a";
}

abbrev gone : Event
gone = record {
  wd = 1;
  mask = 32768;
  cookie = 0;
  len = 0;
  name = [];
  full_path = bytes "/h";
  suffix = [];
}

abbrev state : State counter pair
state = record { world = 2; watchers = root_watch ∷ []; mov_dict = []; should_exit = false }

event_handler_no_fault_example :
    event_handler counter pair (λ n. n) (created ∷ gone ∷ []) state ≢ fault
event_handler_no_fault_example =
    event_handler_no_fault counter pair (λ n. n) (created ∷ gone ∷ []) state
      (λ h. absurd (ground arith), (λ h. tt, tt))
      (
        (record { path = refl; boundary = refl }, refl),
        ((record { path = refl; boundary = tt }, refl), tt),
      )

outside_source-iff_Within_example :
    (outside_source (bytes "/h") (bytes "/h/a") ≡ false) ↔ Within (bytes "/h") (bytes "/h/a")
outside_source-iff_Within_example = outside_source-iff_Within (bytes "/h") (bytes "/h/a")

abbrev visited : List (Bytes × Flag)
visited = (bytes "/h/a", ftw_d) ∷ (bytes "/h/a/f", ftw_f) ∷ []

abbrev watch_a : Watch
watch_a = record {
  wd = 2;
  source_friendly = bytes "h";
  source_full = bytes "/h";
  path = bytes "/h/a";
  suffix = bytes "/a";
}

run_watch_all :
    watch_all counter pair visited (2, root_watch ∷ []) ≡ some (3, root_watch ∷ watch_a ∷ [])
unfolding watch_all backup_walk_inotify_init get_end_suffix
run_watch_all = refl

watch_all-directories_example :
    watched (root_watch ∷ watch_a ∷ []) ≡ watched (root_watch ∷ []) ++ directories visited
watch_all-directories_example =
    watch_all-directories counter pair visited 2 3 (root_watch ∷ []) (root_watch ∷ watch_a ∷ [])
      run_watch_all

run_new_folder_init :
    new_folder_init counter pair (bytes "/h/a") (2, root_watch ∷ [])
    ≡ some (3, root_watch ∷ watch_a ∷ [])
unfolding new_folder_init watch_all copy_all backup_walk_inotify_init get_end_suffix
run_new_folder_init = refl

-- A half of time 1, and one of time 20.
abbrev old_half : Move
old_half = half_from 7 (bytes "/h/a") 1

abbrev new_half : Move
new_half = half_from 8 (bytes "/h/b") 20

abbrev halves : List Move
halves = old_half ∷ new_half ∷ []

halves-IsDict : IsDict halves
halves-IsDict = record { halves = (refl, (refl, tt)); unique = (refl, (refl, tt)) }

run_check : check_move_events_list counter pair 30 halves (2, []) ≡ some (new_half ∷ [], (2, []))
unfolding check_move_events_list expired_move expired_from
run_check = refl

check_move_events_list-eq-expire_all_example :
    check_move_events_list counter pair 30 halves (2, [])
    ≡ with_list counter pair (young 30 halves) (expire_all counter pair (old 30 halves) (2, []))
check_move_events_list-eq-expire_all_example =
    check_move_events_list-eq-expire_all counter pair 30 halves (2, [])

run_add :
    add_move_event counter pair 8 false (bytes "/h/c") 30 halves (2, []) ≡ some ([], (102, []))
unfolding add_move_event match_all match_node completed_move expired_move expired_from
    get_end_suffix
run_add = refl

add_move_event-IsDict_example : IsDict []
add_move_event-IsDict_example =
    add_move_event-IsDict counter pair 8 false (bytes "/h/c") 30 halves [] (2, []) (102, [])
      halves-IsDict run_add

add_move_event-paired_example :
    add_move_event counter pair 8 false (bytes "/h/c") 30 (new_half ∷ []) (2, [])
    ≡ some ([], (102, []))
add_move_event-paired_example =
    add_move_event-paired counter pair 8 20 30 (bytes "/b") (bytes "/c") [] [] 2 [] refl refl tt tt
