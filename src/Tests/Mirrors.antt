-- ===== src/Tests/Mirrors.antt =====
-- A write and a deletion, handled.
use unix_backup_c.Common.{◌≡◌, refl, true, false, some, List, [], ◌∷◌}
use unix_backup_c.Common.Bytes.{Bytes, bytes}
use unix_backup_c.Child.Handler.Mirrors.{delete_mask}
use unix_backup_c.Types.{Watch}
use unix_backup_c.Outcome.{Outcome, ok, exited, fault}
use unix_backup_c.System.{Sys}
use unix_backup_c.FileOps.Removals.{IsMissing}
use unix_backup_c.Child.Calls.{files_of}
use unix_backup_c.Child.Handler.{State, handle_event}
use unix_backup_c.Child.Folders.Laws.{watch_for}
use unix_backup_c.Child.Handler.Mirrors.{event_on, handle_event-written, handle_event-deleted}
use unix_backup_c.Tests.Disk.{file_stat, disk, content, IsOpen, Apart, disk-IsStorage}
use unix_backup_c.Tests.Backup.{s_to_t, t-IsTrimmed, before_backup}
use unix_backup_c.Tests.Restored.{files_only, files_only-IsRemoving}

abbrev at_source : Watch
at_source = watch_for s_to_t 1 (bytes "/s")

abbrev state_of : (sys : Sys) → sys.World → State (files_of sys) s_to_t
state_of sys w = record { world = w; watchers = at_source ∷ []; mov_dict = []; should_exit = false }

abbrev after :
    (sys : Sys) → sys.World → Outcome (State (files_of sys) s_to_t) → State (files_of sys) s_to_t
after sys w (ok s) = s
after sys w exited = state_of sys w
after sys w fault = state_of sys w

abbrev written : Outcome (State (files_of disk) s_to_t)
written =
    handle_event (files_of disk) s_to_t 0 (event_on s_to_t 8 1 (bytes "/f") (bytes "f"))
      (state_of disk before_backup)

written_runs : written ≡ ok (after disk before_backup written)
unfolding handle_event unix_backup_c.Child.Handler.outside_source unix_backup_c.Child.Handler.blocks
    unix_backup_c.Child.Handler.block unix_backup_c.FileOps.Copies.copy_files
    unix_backup_c.FileOps.Copies.copy unix_backup_c.FileOps.Copies.copy_file
    unix_backup_c.FileOps.Copies.make_dir_of unix_backup_c.Paths.concat
    unix_backup_c.FileOps.make_path unix_backup_c.FileOps.make_parents
    unix_backup_c.FileOps.checked_mkdir unix_backup_c.FileOps.check_dir
    unix_backup_c.FileOps.Copies.copy_data unix_backup_c.FileOps.Copies.copy_bytes
    unix_backup_c.FileOps.Copies.write_all unix_backup_c.FileOps.copy_permissions_and_attributes
written_runs = refl

handle_event-written_example :
    content (bytes "/t/f") (after disk before_backup written).world ≡ some (bytes "abc")
handle_event-written_example =
    handle_event-written disk s_to_t content Apart IsOpen disk-IsStorage 0 1 (bytes "/f")
      (bytes "f") (bytes "abc") (state_of disk before_backup) (after disk before_backup written)
      at_source t-IsTrimmed refl (λ e. cc) refl ((file_stat, refl, refl), refl, refl) written_runs

abbrev one_file : List Bytes
one_file = bytes "/t/f" ∷ []

abbrev gone : Outcome (State (files_of files_only) s_to_t)
gone =
    handle_event (files_of files_only) s_to_t 0
      (event_on s_to_t (delete_mask true) 1 (bytes "/f") (bytes "f")) (state_of files_only one_file)

gone_runs : gone ≡ ok (after files_only one_file gone)
unfolding handle_event unix_backup_c.Child.Handler.outside_source unix_backup_c.Child.Handler.blocks
    unix_backup_c.Child.Handler.block unix_backup_c.FileOps.del_handling unix_backup_c.Paths.concat
gone_runs = refl

handle_event-deleted_example :
    IsMissing files_only (bytes "/t/f") (after files_only one_file gone).world
handle_event-deleted_example =
    handle_event-deleted files_only s_to_t files_only-IsRemoving true 0 1 (bytes "/f") (bytes "f")
      (state_of files_only one_file) (after files_only one_file gone) at_source refl refl gone_runs
