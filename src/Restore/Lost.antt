-- ===== src/Restore/Lost.antt =====
-- What a restore loses: a file whose mode was changed.
use unix_backup_c.Common.{
  ℕ, ◌≡◌, sym, ◌≢◌, inl, true, some, List, [], ◌∷◌, ◌++◌, arith, ==_iff, All, All-append,
}
use unix_backup_c.Common.Bytes.{Bytes}
use mathlib.Core.Path.{subst}
use unix_backup_c.Paths.Suffix.{get_end_suffix-append, concat-get_end_suffix}
use unix_backup_c.System.{ftw_f, Visit, Sys, regular, Stat, done}
use unix_backup_c.Outcome.{Outcome, ok, exited, fault, and_then}
use unix_backup_c.Paths.{concat}
use unix_backup_c.FileOps.Removals.{IsRemoving, Gone, recursive_deleter-Gone}
use unix_backup_c.Restore.{
  is_missing, restorer, delete_missing, for_each, delete_all_missing, restore_checkpoint,
}
use unix_backup_c.Restore.Copies.{UpToDate, SameAs, restore_file-UpToDate}
use unix_backup_c.Restore.Missing.{for_each_keeps}

abbrev pub file_at : Bytes → Stat → Visit
file_at path s = record { path = path; stat = s; flag = ftw_f }

UpToDate-file :
    (s st : Stat)
    → s.kind ≡ regular
    → st.kind ≡ regular
    → st.size ≡ s.size
    → st.mtime ≡ s.mtime
    → UpToDate s (done st)
UpToDate-file s st file here size mtime = subst (λ k. SameAs k s st) (sym file) (here, size, mtime)

other_mode : (s st : Stat) → st.mode ≢ s.mode → is_missing st (done s) ≡ true
unfolding is_missing
other_mode s st mode = ground (arith, ==_iff st.mode s.mode)

module _ (sys : Sys) (source target : Bytes) (c : ℕ) (rest : Bytes) (s st : Stat) where
  -- The file of the source and its copy in the backup, as `lstat` sees them.
  abbrev pub Both : sys.World → Type 0
  Both w =
      (sys.lstat (source ++ (c ∷ rest)) w ≡ done st) × (sys.lstat (target ++ (c ∷ rest)) w ≡ done s)

  -- Where the operation returns, both are as they were.
  abbrev pub Same : Outcome sys.World → Type 0
  Same (ok w) = Both w
  Same exited = Unit
  Same fault = Unit

  -- The handling of an entry leaves both as they are.
  abbrev pub LeavesBoth : (Visit → sys.World → Outcome sys.World) → Visit → Type 0
  LeavesBoth f v = (w : sys.World) → Both w → Same (f v w)

  and_then-Same :
      (m : Outcome sys.World) (f : sys.World → Outcome sys.World)
      → Same m
      → ((w : sys.World) → Both w → Same (f w))
      → Same (and_then m f)
  and_then-Same (ok w) f h k = k w h
  and_then-Same exited f h k = tt
  and_then-Same fault f h k = tt

  for_each-Same :
      (f : Visit → sys.World → Outcome sys.World) (vs : List Visit) (w : sys.World)
      → All (LeavesBoth f) vs
      → Both w
      → Same (for_each sys f vs w)
  unfolding for_each
  for_each-Same f [] w all h = h
  for_each-Same f (v ∷ vs) w (leaves, all) h =
      and_then-Same (f v w) _ (leaves w h) (λ w1 h1. for_each-Same f vs w1 all h1)

  module _ (removing : IsRemoving sys) (file : s.kind ≡ regular) (here : st.kind ≡ regular)
      (size : st.size ≡ s.size) (mtime : st.mtime ≡ s.mtime) (mode : st.mode ≢ s.mode) where
    not_copied : LeavesBoth (restorer sys source target) (file_at (target ++ (c ∷ rest)) s)
    unfolding restorer
    not_copied w h = rw (concat-get_end_suffix target source (c ∷ rest)) (
        subst Same
          (sym (
            (restore_file-UpToDate sys source target (target ++ (c ∷ rest)) (source ++ (c ∷ rest)) s
                w (inl file)).0
              (subst (UpToDate s) (sym h.0) (UpToDate-file s st file here size mtime))))
          h)

    then_deleted :
        (m : Outcome sys.World) (f : sys.World → Outcome sys.World)
        → Same m
        → ((w : sys.World) → Both w → Gone sys removing (source ++ (c ∷ rest)) (f w))
        → Gone sys removing (source ++ (c ∷ rest)) (and_then m f)
    then_deleted (ok w) f h k = k w h
    then_deleted exited f h k = tt
    then_deleted fault f h k = tt

    deleted :
        (w : sys.World)
        → Both w
        → Gone sys removing
            (source ++ (c ∷ rest))
            (delete_missing sys source target (file_at (source ++ (c ∷ rest)) st) w)
    unfolding delete_missing concat
    deleted w h =
        rw (get_end_suffix-append source (c ∷ rest), h.1, other_mode s st mode, Gone)
          (recursive_deleter-Gone sys removing (source ++ (c ∷ rest)) w)

    walk_keeps :
        (vs : List Visit) (m : Outcome sys.World)
        → Gone sys removing (source ++ (c ∷ rest)) m
        → Gone sys removing
            (source ++ (c ∷ rest))
            (and_then m (for_each sys (delete_missing sys source target) vs))
    walk_keeps vs (ok w) h = for_each_keeps sys removing source target vs (source ++ (c ∷ rest)) w h
    walk_keeps vs exited h = tt
    walk_keeps vs fault h = tt

    walk_deletes :
        (before after : List Visit) (w : sys.World)
        → All (LeavesBoth (delete_missing sys source target)) before
        → Both w
        → Gone sys removing (source ++ (c ∷ rest)) (
            for_each sys
              (delete_missing sys source target)
              (before ++ (file_at (source ++ (c ∷ rest)) st ∷ after))
              w)
    unfolding for_each
    walk_deletes [] after w all h = walk_keeps after _ (deleted w h)
    walk_deletes (v ∷ before) after w (leaves, all) h =
        then_deleted (delete_missing sys source target v w) _ (leaves w h)
          (λ w1 h1. walk_deletes before after w1 all h1)

    -- The second walk visits the file of the source, and before it only entries whose handling leaves
    -- both as they are.
    abbrev pub DeleteWalk : sys.World → Type 0
    DeleteWalk w =
        (before after : List Visit) × (sys.nftw_depth source w
          ≡ some (before ++ (file_at (source ++ (c ∷ rest)) st ∷ after)))
        × All (LeavesBoth (delete_missing sys source target)) before

    -- A regular file below the source whose copy in the backup is a regular file of the same size and
    -- time of the last change, but has another mode, is missing once a restore of the backup returns:
    -- the first walk does not copy it and the second deletes it. The walks visit the two, and what
    -- they do with the entries around them, up to the deletion, leaves the two as they are.
    pub mode_only-Gone :
        (front behind : List Visit) (w : sys.World)
        → Both w
        → sys.nftw target w ≡ front ++ (file_at (target ++ (c ∷ rest)) s ∷ behind)
        → All (LeavesBoth (restorer sys source target)) front
        → All (LeavesBoth (restorer sys source target)) behind
        → ((w1 : sys.World) → Both w1 → DeleteWalk w1)
        → Gone sys removing
            (source ++ (c ∷ rest))
            (restore_checkpoint sys (some source) (some target) w)
    unfolding restore_checkpoint delete_all_missing
    mode_only-Gone front behind w h copies fronts behinds deletes =
        rw (copies, restore_checkpoint)
          (then_deleted _ _
            (for_each-Same (restorer sys source target)
              (front ++ (file_at (target ++ (c ∷ rest)) s ∷ behind)) w
              (All-append (LeavesBoth (restorer sys source target)) front _ fronts
                (not_copied, behinds))
              h)
            (λ w1 h1.
              let (before, after, visits, leaves) = deletes w1 h1 in
              rw (visits, Gone) (walk_deletes before after w1 leaves h1)))
