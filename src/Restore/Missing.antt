-- ===== src/Restore/Missing.antt =====
-- What the walk of the source deletes.
use unix_backup_c.Common.{ℕ, ◌≡◌, inl, inr, some, List, [], ◌∷◌, ◌++◌, Bool-cases, Option-cases}
use unix_backup_c.Common.Bytes.{Bytes}
use unix_backup_c.FileOps.Removals.{
  IsMissing, IsRemoving, Gone, and_then-Gone, recursive_deleter-Gone, recursive_deleter_keeps,
}
use unix_backup_c.Paths.{concat, get_end_suffix}
use unix_backup_c.Restore.{is_missing, delete_missing, for_each, delete_all_missing}
use unix_backup_c.System.{Visit, Sys}

module _ (sys : Sys) (removing : IsRemoving sys) where
  delete_missing_keeps :
      (source target : Bytes) (v : Visit) (q : Bytes) (w : sys.World)
      → IsMissing sys q w
      → Gone sys removing q (delete_missing sys source target v w)
  unfolding delete_missing
  delete_missing_keeps source target v q w h =
      elim (Option-cases (get_end_suffix (some source) (some v.path))) [
        | inl nothing ↦ rw (nothing, Gone) h
        | inr ([], itself) ↦ rw (itself, Gone) h
        | inr (c ∷ rest, suffix) ↦
            elim (Bool-cases
              (is_missing v.stat (sys.lstat (concat (some target) (some (c ∷ rest))) w))) [
                | inl gone ↦
                    rw (suffix, gone, Gone) (recursive_deleter_keeps sys removing v.path q w h)
                | inr there ↦ rw (suffix, there, Gone) h
              ]
      ]

  delete_missing-Gone :
      (source target : Bytes) (v : Visit) (c : ℕ) (rest : Bytes) (w : sys.World)
      → get_end_suffix (some source) (some v.path) ≡ some (c ∷ rest)
      → IsMissing sys (concat (some target) (some (c ∷ rest))) w
      → Gone sys removing v.path (delete_missing sys source target v w)
  unfolding delete_missing is_missing
  delete_missing-Gone source target v c rest w suffix missing =
      rw (suffix, missing, Gone) (recursive_deleter-Gone sys removing v.path w)

  pub for_each_keeps :
      (source target : Bytes) (vs : List Visit) (q : Bytes) (w : sys.World)
      → IsMissing sys q w
      → Gone sys removing q (for_each sys (delete_missing sys source target) vs w)
  unfolding for_each
  for_each_keeps source target [] q w h = h
  for_each_keeps source target (v ∷ vs) q w h =
      and_then-Gone sys removing q q (delete_missing sys source target v w) _
        (delete_missing_keeps source target v q w h) (for_each_keeps source target vs q)

  for_each-Gone :
      (source target : Bytes) (before : List Visit) (v : Visit) (after : List Visit) (c : ℕ)
      (rest : Bytes) (w : sys.World)
      → get_end_suffix (some source) (some v.path) ≡ some (c ∷ rest)
      → IsMissing sys (concat (some target) (some (c ∷ rest))) w
      → Gone sys removing v.path
          (for_each sys (delete_missing sys source target) (before ++ (v ∷ after)) w)
  unfolding for_each
  for_each-Gone source target [] v after c rest w suffix missing =
      and_then-Gone sys removing v.path v.path (delete_missing sys source target v w) _
        (delete_missing-Gone source target v c rest w suffix missing)
        (for_each_keeps source target after v.path)
  for_each-Gone source target (u ∷ before) v after c rest w suffix missing =
      and_then-Gone sys removing (concat (some target) (some (c ∷ rest))) v.path
        (delete_missing sys source target u w) _
        (delete_missing_keeps source target u (concat (some target) (some (c ∷ rest))) w missing)
        (λ w'. for_each-Gone source target before v after c rest w' suffix)

  -- Every entry that the walk of the source visits, but for the source itself, and that has no
  -- partner in the backup is missing once the walk returns.
  pub delete_all_missing-Gone :
      (source target : Bytes) (before : List Visit) (v : Visit) (after : List Visit) (c : ℕ)
      (rest : Bytes) (w : sys.World)
      → sys.nftw_depth source w ≡ some (before ++ (v ∷ after))
      → get_end_suffix (some source) (some v.path) ≡ some (c ∷ rest)
      → IsMissing sys (concat (some target) (some (c ∷ rest))) w
      → Gone sys removing v.path (delete_all_missing sys source target w)
  unfolding delete_all_missing
  delete_all_missing-Gone source target before v after c rest w visits suffix missing =
      rw (visits, Gone) (for_each-Gone source target before v after c rest w suffix missing)
