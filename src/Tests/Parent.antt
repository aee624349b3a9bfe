-- ===== src/Tests/Parent.antt =====
-- The commands and the pause of the children on small inputs.
use unix_backup_c.Common.{ℕ, ◌+◌, ◌≡◌, refl, true, false, none, some, List, [], ◌∷◌, arith, All}
use unix_backup_c.Common.Bytes.{Bytes, bytes}
use mathlib.Core.Path.{subst}
use unix_backup_c.Registry.Add.{IsReadable}
use unix_backup_c.Registry.Session.{rest_of}
use unix_backup_c.Registry.Session.Sound.{IsReadableCommand}
use unix_backup_c.Tokenizer.{Tokenizer}
use unix_backup_c.Registry.Listing.{
  list_sources_and_targets, source_lines, print_targets, target_lines, target_line, decimal, digits,
}
use unix_backup_c.Registry.Session.Program
use unix_backup_c.Registry.Session.Program.{main, init_lists, main-eq-session}
use unix_backup_c.Signals.Restores.{restore_while_held}
use unix_backup_c.Registry.Session.{Read, input_handler}
use unix_backup_c.Registry.Session.Sound.{IsConsistent-nil, input_handler-IsSound}
use unix_backup_c.Registry.{Work}
use unix_backup_c.Registry.Commands.{end_targets}
use unix_backup_c.Registry.Add.{OpenAt}
use unix_backup_c.Registry.Gone.{Gone, end_targets-Gone}
use unix_backup_c.Registry.Invariant.{IsConsistent-IsOpen}
use unix_backup_c.Paths.{is_target_in_source}
use unix_backup_c.Registry.{
  find_element_by_target, find_element_by_source, parse_targets, validate_target,
  find_element_by_target_help, add_target, spawn_child_for_target, set_pid, list_target_add,
  list_source_add,
}
use unix_backup_c.Registry.Commands.{finish_add}
use unix_backup_c.Types.{Target, Source}
use unix_backup_c.Outcome.{ok}
use unix_backup_c.Registry.{Os, Main}
use unix_backup_c.Registry.Commands.{take_input, end}
use unix_backup_c.Registry.Invariant.{IsConsistent}
use unix_backup_c.Registry.Took.{IsSound, take_input-IsSound}
use unix_backup_c.Registry.Ends.{end-IsConsistent}
use unix_backup_c.Signals.{
  Phase, starting, at_tests, at_pause, suspending, Child, sigusr1_child, ack_test, pause_test,
  loop_step, Parent, idle, waiting, restoring, Protocol, started, broadcast, spawn, end_child,
  begin_restore, sigack_parent, end_wait, end_restore, step_child, begins, acks, waited, ends,
  spawns, dies, loops, Steps, done, more, start,
}
use unix_backup_c.Signals.Held.{is_held, child}
use unix_backup_c.Signals.Stuck.{wait_never_ends}

-- Every path exists, every directory is empty, and the world is the next process id.
abbrev os : Os
os = record {
  World = ℕ;
  is_empty_dir = λ path w. ok (true, w);
  realpath = λ path w. some path;
  fork = λ source target w. some (w, w + 1);
  stop_child = λ pid w. w;
  stop_children = λ w. w;
  restore_files = λ source target w. ok w;
}

abbrev no_backups : Main os
no_backups = record { world = 100; backups = []; child_count = 0 }

each_token : (toks : List Bytes) → All (IsReadable os) toks
each_token [] = tt
each_token (tok ∷ toks) = (λ w e. cc, each_token toks)

each_command : (t : Tokenizer) → IsReadableCommand os t
each_command t = record { names = each_token (rest_of os t); restores = λ w e. cc }

take_input-IsSound_example :
    IsSound os (take_input os (bytes "src" ∷ bytes "t" ∷ bytes "src/u" ∷ []) no_backups)
take_input-IsSound_example =
    take_input-IsSound os (bytes "src" ∷ bytes "t" ∷ bytes "src/u" ∷ []) no_backups
      (each_token (bytes "src" ∷ bytes "t" ∷ bytes "src/u" ∷ [])) IsConsistent-nil

abbrev target : Target
target = record {
  target_friendly = bytes "t";
  target_full = bytes "t";
  child_pid = some 100;
  inotify_fd = none;
  watchers = [];
  events = [];
  mov_dict = [];
}

abbrev source : Source
source = record { source_full = bytes "src"; source_friendly = bytes "src"; targets = target ∷ [] }

abbrev one_backup : Main os
one_backup = record { world = 101; backups = source ∷ []; child_count = 1 }

-- The target inside the source is refused.
run_take_input :
    take_input os (bytes "src" ∷ bytes "t" ∷ bytes "src/u" ∷ []) no_backups ≡ ok (true, one_backup)
unfolding take_input find_element_by_target find_element_by_source parse_targets validate_target
    find_element_by_target_help is_target_in_source add_target spawn_child_for_target set_pid
    list_target_add finish_add list_source_add
run_take_input = refl

-- A directory of the source, typed in another way, is accepted as a target.
run_same_directory :
    take_input os (bytes "src" ∷ bytes "./src/u" ∷ []) no_backups
    ≡ ok (
      true,
      record one_backup {
        backups =
            record source {
              targets =
                  record target { target_friendly = bytes "./src/u"; target_full = bytes "./src/u" }
                  ∷ [];
            }
            ∷ [];
      },
    )
unfolding take_input find_element_by_target find_element_by_source parse_targets validate_target
    find_element_by_target_help is_target_in_source add_target spawn_child_for_target set_pid
    list_target_add finish_add list_source_add
run_same_directory = refl

one-IsConsistent : IsConsistent (source ∷ []) 1
one-IsConsistent = subst (IsSound os) run_take_input take_input-IsSound_example

end-IsConsistent_example :
    IsConsistent
      (end os (bytes "src") (bytes "t" ∷ []) one_backup).backups
      (end os (bytes "src") (bytes "t" ∷ []) one_backup).child_count
end-IsConsistent_example =
    end-IsConsistent os (bytes "src") (bytes "t" ∷ []) one_backup one-IsConsistent

abbrev line : Bytes → Read
line text = record {
  text = some text;
  sigchld_received = false;
  died = [];
  finish_work_flag = false;
}

abbrev session : List Read
session = line (bytes "add src t") ∷ line (bytes "list") ∷ line (bytes "end src t") ∷ []

input_handler-IsSound_example : IsSound os (input_handler os session no_backups)
input_handler-IsSound_example =
    input_handler-IsSound os session no_backups
      (each_command _, (each_command _, (each_command _, tt))) IsConsistent-nil

abbrev exit_session : List Read
exit_session = line (bytes "add src t") ∷ line (bytes "exit") ∷ []

-- With a wait that would be seen in the world.
main-eq-session_example :
    main os (λ w. 0) exit_session 100 ≡ Program.session os exit_session (init_lists os (λ w. 0) 100)
main-eq-session_example = main-eq-session os (λ w. 0) exit_session 100

run_list_sources_and_targets :
    list_sources_and_targets (source ∷ [])
    ≡ bytes
        "Source: 'src', real path: 'src' ,amount of targets: 1\n    Target: 't'  real path: 't' \n"
unfolding list_sources_and_targets source_lines print_targets target_lines target_line decimal
    digits
run_list_sources_and_targets = refl

abbrev at_source : Work os
at_source = record {
  world = 101;
  child_count = 1;
  attached = true;
  before = [];
  source = source;
  after = [];
}

at_source-OpenAt : OpenAt os at_source
at_source-OpenAt = (IsConsistent-IsOpen [] source [] 1 one-IsConsistent).0

end_targets-Gone_example : Gone os (bytes "t" ∷ []) (end_targets os (bytes "t" ∷ []) at_source)
end_targets-Gone_example = end_targets-Gone os (bytes "t" ∷ []) at_source at_source-OpenAt

-- One child is started, asked, acknowledges, and the parent restores.
abbrev protocol : Parent → List Child → ℕ → ℕ → ℕ → ℕ → Protocol
protocol x cs d e r q = record {
  parent = x;
  children = cs;
  ended = d;
  child_count = 1;
  expected = e;
  received = r;
  queued = q;
}

abbrev asked_child : Phase → Child
asked_child = child true false

abbrev silent : Phase → Child
silent = child true true

abbrev acked_once : Protocol
acked_once = protocol waiting (silent at_pause ∷ []) 0 1 0 1

one_ask : Steps start acked_once
unfolding begin_restore broadcast spawn step_child sigusr1_child loop_step ack_test
one_ask = more start (protocol idle (started ∷ []) 0 0 0 0) _ (spawns start refl) (
    more (protocol idle (started ∷ []) 0 0 0 0)
      (protocol waiting (asked_child starting ∷ []) 0 1 0 0) _
      (begins (protocol idle (started ∷ []) 0 0 0 0) refl)
      (more (protocol waiting (asked_child starting ∷ []) 0 1 0 0)
        (protocol waiting (asked_child at_tests ∷ []) 0 1 0 0) _
        (loops [] (asked_child starting) [] (protocol waiting (asked_child starting ∷ []) 0 1 0 0)
          refl)
        (more (protocol waiting (asked_child at_tests ∷ []) 0 1 0 0) acked_once _
          (loops [] (asked_child at_tests) [] (protocol waiting (asked_child at_tests ∷ []) 0 1 0 0)
            refl)
          (done acked_once))))

abbrev restored : Protocol
restored = protocol restoring (silent at_pause ∷ []) 0 1 1 0

then_restores : Steps acked_once restored
unfolding sigack_parent end_wait
then_restores =
    more acked_once (protocol waiting (silent at_pause ∷ []) 0 1 1 0) _
      (acks acked_once (omega arith))
      (more (protocol waiting (silent at_pause ∷ []) 0 1 1 0) restored _
        (waited (protocol waiting (silent at_pause ∷ []) 0 1 1 0) refl (omega arith))
        (done restored))

join : (p q r : Protocol) → Steps p q → Steps q r → Steps p r
join p q r (done _) t = t
join p q r (more _ p' _ s t) u = more p p' r s (join p' q r t u)

one_restore : Steps start restored
one_restore = join start acked_once restored one_ask then_restores

restore_while_held_example : All (λ c. is_held c.phase ≡ true) (silent at_pause ∷ [])
restore_while_held_example = restore_while_held restored one_restore refl

-- A second restore that asks before the child has passed its tests.
abbrev stuck : Protocol
stuck = protocol waiting (silent at_pause ∷ []) 0 1 0 0

second_restore : Steps restored stuck
unfolding begin_restore end_restore broadcast sigusr1_child
second_restore =
    more restored (protocol idle (child false true at_pause ∷ []) 0 1 1 0) _ (ends restored refl) (
      more (protocol idle (child false true at_pause ∷ []) 0 1 1 0) stuck _
        (begins (protocol idle (child false true at_pause ∷ []) 0 1 1 0) refl) (done stuck))

-- The child goes on to its `sigsuspend` and ends there; the parent waits.
abbrev left : Protocol
left = protocol waiting [] 1 1 0 0

child_ends : Steps stuck left
unfolding step_child end_child loop_step pause_test
child_ends =
    more stuck (protocol waiting (silent suspending ∷ []) 0 1 0 0) _
      (loops [] (silent at_pause) [] stuck refl)
      (more (protocol waiting (silent suspending ∷ []) 0 1 0 0) left _
        (dies [] (silent suspending) [] (protocol waiting (silent suspending ∷ []) 0 1 0 0) refl)
        (done left))

wait_never_ends_example : left.parent ≡ waiting
wait_never_ends_example = wait_never_ends stuck left child_ends (record {
  waits = refl;
  all_silent = (record { paused = refl; sent = refl; held = refl }, tt);
  missing = omega arith;
})
