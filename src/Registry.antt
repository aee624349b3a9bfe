-- ===== src/Registry.antt =====
-- The parent's lists of sources and targets, src/list_sources.c and src/list_targets.c, and the
-- commands of src/main.c that change them. The lists are plain lists, with the node that a pointer
-- points to as a position: what stands before it, itself, and what stands behind it.
pub mod Listing
pub mod Calls
pub mod Commands
pub mod Invariant
pub mod Add
pub mod Took
pub mod Ends
pub mod Gone
pub mod Nodes
pub mod Freed
pub mod Session
use unix_backup_c.Common.{
  ℕ, zero, suc, ◌+◌, ◌-◌, ◌*◌, ◌/◌, ◌%◌, ◌^◌, ◌≤◌, ◌<◌, ◌≡◌, refl, sym, ap, ◌∙◌, ◌≢◌, ◌↔◌, ◌⊎◌, inl,
  inr, Bool, true, false, not, ◌&&◌, ◌||◌, Option, none, some, List, [], ◌∷◌, ◌++◌, map, arith, ltb,
  leb, ◌==◌, ==_iff, ==_refl, ==_false_sym, ==_ne, &&_split, ||_split, ◌>>=◌, >>=-eq-some, is_some,
  if◌then◌else◌, Bool-cases, Option-cases, length, get_elem?, take, drop, length-append,
  length-drop, drop-length_plus, drop-plus, drop_of_length, take-append-drop, drop-length-append,
  All, All-append,
}
use unix_backup_c.Common.Bytes.{
  Bytes, bytes, char_at, str_eq, starts_with, str_eq_sound, str_eq_refl, starts_with-append,
  starts_with_sound, char_at-length-append,
}
use mathlib.Core.List.{append-nil, append_assoc, map-append}
use mathlib.Core.Path.{subst}
use mathlib.Core.Option
use unix_backup_c.Types.{Target, Source}
use unix_backup_c.Outcome.{Outcome, ok, exited, fault, and_then}
use unix_backup_c.Paths.{slash, is_target_in_source}
use unix_backup_c.Dlist.Refine.{exists, delete, find_first}

-- The system calls, and the functions of src/generic_file_functions.c and src/restore.c that the
-- commands call. `none` of a system call is the end of the process, as `exited` is.
pub record Os : Type 1 where
  -- the file systems and the processes
  pub World : Type 0
  -- `is_empty_dir(path) >= 0`; a missing directory is created
  pub is_empty_dir : Bytes → World → Outcome (Bool × World)
  -- `realpath`
  pub realpath : Bytes → World → Option Bytes
  -- `fork` and `setpgid` in the parent, for a child that backs the source up to the target
  pub fork : Bytes → Bytes → World → Option (ℕ × World)
  -- `kill(pid, SIGUSR2)` and `waitpid(pid, NULL, 0)`
  pub stop_child : ℕ → World → World
  -- `kill(-getpid(), SIGUSR2)`
  pub stop_children : World → World
  -- the files that `restore` writes, for its two tokens
  pub restore_files : Option Bytes → Option Bytes → World → Outcome World

-- The tests of the list functions.
abbrev pub has_target : Bytes → Target → Bool
has_target name t = str_eq t.target_friendly name

-- The test of `find_element_by_target_help`: the same name, or a directory above it.
abbrev pub overlaps : Bytes → Target → Bool
overlaps name t =
    str_eq t.target_friendly name || is_target_in_source (some t.target_friendly) (some name)

abbrev pub has_source : Bytes → Source → Bool
has_source name s = str_eq s.source_friendly name

abbrev pub has_pid : ℕ → Target → Bool
has_pid pid t = elim t.child_pid [ none ↦ false | some p ↦ p == pid ]

-- `list_target_add`: the new node is reset and goes before the others.
unfoldable pub list_target_add : Target → List Target → List Target
list_target_add t ts =
    record t { inotify_fd = none; child_pid = none; watchers = []; events = []; mov_dict = [] } ∷ ts

unfoldable pub list_target_delete : Bytes → List Target → Bool × List Target
list_target_delete name ts = (exists (has_target name) ts, delete (has_target name) ts)

unfoldable pub find_element_by_target_help : List Target → Bytes → Bool
find_element_by_target_help ts name = exists (overlaps name) ts

unfoldable pub find_element_by_target : List Source → Bytes → Bool
find_element_by_target ss name = exists (λ s. find_element_by_target_help s.targets name) ss

unfoldable pub list_source_add : Source → List Source → List Source
list_source_add s ss = s ∷ ss

unfoldable pub list_source_delete : Bytes → List Source → List Source
list_source_delete name ss = delete (has_source name) ss

-- The position of the first element that passes a test.
abbrev pub focus : (Source → Bool) → List Source → Option (List Source × Source × List Source)
focus test [] = none
focus test (s ∷ ss) =
    if test s
    then some ([], s, ss)
    else elim (focus test ss) [ none ↦ none | some (b, x, a) ↦ some (s ∷ b, x, a) ]

-- `find_element_by_source`, as the position of the node that it returns.
unfoldable pub find_element_by_source :
    List Source → Bytes → Option (List Source × Source × List Source)
find_element_by_source ss name = focus (has_source name) ss

unfoldable pub get_source_friendly : List Source → Bytes → Option Bytes
get_source_friendly ss full =
    Option.map (λ s. s.source_friendly) (find_first (λ s. str_eq s.source_full full) ss)

-- `tok[0] == '/'`
abbrev pub starts_slash : Bytes → Bool
starts_slash [] = false
starts_slash (c ∷ s) = c == slash

module _ (os : Os) where
  -- `backups` and `child_count`
  pub record Main : Type 0 where
    pub world : os.World
    pub backups : List Source
    pub child_count : ℕ

  -- A command at work on one source: what stands before it and behind it in `backups`, or, if it is
  -- new and not attached yet, the whole of `backups` in these two.
  pub record Work : Type 0 where
    pub world : os.World
    pub child_count : ℕ
    pub attached : Bool
    pub before : List Source
    pub source : Source
    pub after : List Source

  -- `backups` as the list functions see it meanwhile.
  unfoldable pub listed : Work → List Source
  listed k = k.before ++ (if k.attached then k.source ∷ k.after else k.after)

  -- The answer 1 is `true`.
  unfoldable pub validate_target : Work → Bytes → Bool
  unfolding listed
  validate_target k tok =
      if starts_slash tok
      then false
      else if find_element_by_target_help k.source.targets tok
      then false
      else if is_target_in_source (some k.source.source_friendly) (some tok)
      then false
      else not (find_element_by_target (listed k) tok)

  -- `target_node->child_pid = pid`, for the node that was added last.
  unfoldable pub set_pid : ℕ → List Target → List Target
  set_pid pid [] = []
  set_pid pid (t ∷ ts) = record t { child_pid = some pid } ∷ ts

  -- `spawn_child_for_target`
  unfoldable pub spawn_child_for_target : Bytes → Work → Outcome Work
  spawn_child_for_target full k = elim (os.fork k.source.source_full full k.world) [
    | none ↦ exited
    | some (pid, w) ↦ ok (record k {
      world = w;
      child_count = k.child_count + 1;
      source = record k.source { targets = set_pid pid k.source.targets };
    })
  ]

  -- The new node, added and with its child.
  unfoldable pub add_target : Bytes → Bytes → Work → Outcome Work
  add_target tok full k =
      let node : Target = record {
        target_friendly = tok;
        target_full = full;
        child_pid = none;
        inotify_fd = none;
        watchers = [];
        events = [];
        mov_dict = [];
      } in
      spawn_child_for_target full
        (record k { source = record k.source { targets = list_target_add node k.source.targets } })

  -- The loop over the tokens that are left; the number of targets added.
  unfoldable pub parse_targets : List Bytes → Work → Outcome (ℕ × Work)
  parse_targets [] k = ok (0, k)
  parse_targets (tok ∷ toks) k = elim (os.is_empty_dir tok k.world) [
    | exited ↦ exited
    | fault ↦ fault
    | ok (ready, w) ↦
        let k' = record k { world = w } in
        elim ready [
          | false ↦ parse_targets toks k'
          | true ↦ elim (os.realpath tok w) [
            | none ↦ exited
            | some full ↦ elim (validate_target k' tok) [
              | false ↦ parse_targets toks k'
              | true ↦
                  and_then (add_target tok full k')
                    λ k''. and_then (parse_targets toks k'') λ (n, done). ok (suc n, done)
            ]
          ]
        ]
  ]
