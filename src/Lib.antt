-- ===== src/Lib.antt =====
-- A model of the backup program of this repository (src/*.c) and the theorems that make its parts
-- correct.
--
-- The program keeps, for each target of a source directory, a child process that copies the source
-- once and then follows its inotify events. The parent reads commands, keeps the lists of sources
-- and targets, and starts and stops the children.
--
-- The files and the code that they model:
--   Common      numbers, Boolean tests, lists, and C strings as their bytes
--   Paths       src/utils.c: is_target_in_source, concat, get_end_suffix;
--               src/generic_file_functions.c: get_path_to_target
--   Tokenizer   src/utils.c: tokenizer, its static variables as state
--   Dlist       the doubly linked lists that src/list_*.c write out for each struct, on a heap of
--               nodes: append, prepend, unlink, search, deletion by a test, removal of the head
--   Types       the structs of src/lists_common.h
--   Watches     src/list_wd.c
--   Events      src/list_inotify_events.c
--   Reader      src/inotify_functions.c: inotify_reader, over one buffer that `read` has filled
--   System      the system calls that the file operations use, as a parameter
--   Child       src/inotify_functions.c: initial_backup, new_folder_init (Child.Folders) and
--               event_handler (Child.Handler); src/list_move_events.c (Child.Moves);
--               inotify_reader over successive reads, and src/main.c: inotify_jobs and the rounds of
--               child_loop (Child.Jobs); the file operations that they call as an interface
--               (Child.Files), filled by FileOps (Child.Calls); what a child leaves alone
--               (Child.Confined), why it never reads through NULL (Child.NoFault), and what the walk of
--               a backup leaves in the target (Child.Backup)
--   Registry    src/list_sources.c, src/list_targets.c; src/main.c: validate_target, parse_targets,
--               take_input, spawn_child_for_target (Registry), end, handle_end_for_target,
--               handle_dead_children, reap_dead_children (Registry.Commands), input_handler,
--               stop_all_backups (Registry.Session); main (Registry.Session.Program); print_targets,
--               list_sources_and_targets (Registry.Listing); the same list functions on the heap
--               (Registry.Nodes), and what is freed with a target or a source (Registry.Freed);
--               what the commands call as an interface (Os), filled but for the processes
--               (Registry.Calls)
--   FileOps     src/generic_file_functions.c: checked_mkdir, make_path, is_empty_dir,
--               copy_permissions_and_attributes, create_empty_files, deleter, recursive_deleter,
--               del_handling; copy_file, copy_link, copy, copy_files, move_all, backup_walk
--               (FileOps.Copies), over the system calls
--   Restore     src/restore.c; src/main.c: the paths of restore
--   Signals     src/main.c: the pause and the acknowledgements between restore and child_loop
--   Counts      how often a test passes in a list
--   Outcome     how a function ends
--   Tests       concrete runs
--
-- How the parts interact: Reader hands events to Events, which looks up the watch of each in Watches
-- and queues it with its path; Child.Handler takes the events off the queue, calls file operations
-- for each, and changes the watches and the move dictionary. The list operations are modelled on a
-- heap, with a read through NULL or a freed node as a fault, and proved to do what the same
-- operations do on plain lists (Dlist.Refine, Watches.Laws, Events.Laws, Registry.Nodes); the code
-- of the child and the commands of the parent are then modelled over plain lists. Signals stands
-- beside them: its children are those that Registry counts. Restore calls the same copies as the
-- children do.
--
-- A C string is the list of its bytes without the NUL. A result that ends the process by ERR is
-- `none` in Child.Files and Child.Folders, and `exited` in Child.Handler, Child.Jobs, Registry, FileOps
-- and Restore. Sizes and descriptors are unbounded numbers. The fields of an inotify event are 32 bits
-- wide in the buffer. In Signals each SIGUSR1 reaches all children at once, and a child has its
-- handlers from its start on.
--
-- Loops: the event loop is a recursion on the queue, since no round adds an event; the walks over the
-- move dictionary read `next` before they delete, and are recursions on the list. A search of a
-- linked list has fuel `size + 1`, which IsList makes enough. The reader has the number of bytes as
-- fuel, and each round passes at least 16 of them. A loop over the tokens has fuel for its calls
-- (Tokenizer.Progress). The loop of copy_file has fuel for the bytes that are left to read, and its
-- inner loop for those that are left to write (FileOps.Streams). The content of files is a property
-- of the system calls (FileOps.Storage).
--
-- A read behind a string in an operation on files is a fault of that operation. The parent takes it
-- over as a fault, and the theorems on its commands say for which tokens they exclude it. The
-- child's interface (Child.Files) does not tell it from the end of the process, so that the theorems
-- on faults of the child speak of reads through NULL in its own code.
--
-- What a child and a restore leave alone is stated for a property of the files that the system calls
-- keep at the paths they are allowed (FileOps.Kept): the operations, composed as the code composes
-- them, use no other path. A result that ends the process has no files any more, so these theorems
-- speak of the runs that go on.
--
-- Not modelled: failing `malloc` and `strdup`; `_source` and `_target` as global variables, which the
-- model passes as arguments, so that a file that becomes a link during the initial backup, after
-- which `copy` leaves them NULL, is left out; changes of a tree while nftw walks it; messages.
pub mod Common
pub mod Paths
pub mod Tokenizer
pub mod Dlist
pub mod Types
pub mod Watches
pub mod Events
pub mod Reader
pub mod Child
pub mod Tests
pub mod Outcome
pub mod Registry
pub mod Counts
pub mod Signals
pub mod System
pub mod Restore
pub mod FileOps
