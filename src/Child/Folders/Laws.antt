-- ===== src/Child/Folders/Laws.antt =====
-- The watches that a walk over a directory tree leaves.
use mathlib.Core.Option.{some-injective}
use unix_backup_c.Common.{
  ℕ, ◌≡◌, refl, sym, ap, ◌∙◌, ◌≢◌, inl, inr, some, List, [], ◌∷◌, ◌++◌, map, arith, >>=-eq-some,
  Option-cases, All, All-append,
}
use unix_backup_c.Common.Bytes.{Bytes}
use mathlib.Core.List.{append-nil, append_assoc, map-append}
use mathlib.Core.Path.{subst}
use unix_backup_c.Types.{Watch}
use unix_backup_c.Paths.{get_end_suffix}
use unix_backup_c.Paths.Inside.{IsBoundary, Within}
use unix_backup_c.Paths.Suffix.{get_end_suffix-append}
use unix_backup_c.Watches.{new_watch}
use unix_backup_c.Events.Inside.{IsWatch}
use unix_backup_c.Child.Files.{Files, Visits}
use unix_backup_c.System.{Flag, ftw_d, ftw_f, ftw_sl, ftw_other}
use unix_backup_c.Child.Folders.{
  new_folder_init, copy_all, watch_all, backup_walk_inotify_init, Env, Pair,
}

-- The directories among the visited entries.
abbrev pub directories : List (Bytes × Flag) → List Bytes
directories [] = []
directories ((path, ftw_d) ∷ more) = path ∷ directories more
directories ((path, ftw_f) ∷ more) = directories more
directories ((path, ftw_sl) ∷ more) = directories more
directories ((path, ftw_other) ∷ more) = directories more

abbrev pub watched : List Watch → List Bytes
watched = map (λ w. w.path)

watched-append : (ws vs : List Watch) → watched (ws ++ vs) ≡ watched ws ++ watched vs
watched-append ws vs = map-append (λ w. w.path) ws vs

IsBoundary-join : (a b : Bytes) → IsBoundary a → IsBoundary b → IsBoundary (a ++ b)
IsBoundary-join [] b h k = k
IsBoundary-join (c ∷ a) b h k = h

pub Within-trans : (a b c : Bytes) → Within a b → Within b c → Within a c
Within-trans a b c (r, e, h) (s, f, k) =
    (r ++ s, f ∙ (ap (λ p. p ++ s) e ∙ append_assoc a r s), IsBoundary-join r s h k)

-- The watch that a visit of a directory adds.
abbrev pub watch_for : Pair → ℕ → Bytes → Watch
watch_for pair wd path =
    new_watch wd pair.source_friendly pair.source_full path
      (get_end_suffix (some pair.source_full) (some path))

pub watch_for-IsWatch :
    (pair : Pair) (wd : ℕ) (path : Bytes)
    → Within pair.source_full path
    → IsWatch pair.source_full (watch_for pair wd path)
watch_for-IsWatch pair wd path (rest, e, b) =
    let s : get_end_suffix (some pair.source_full) (some path) ≡ some rest =
      ap (λ p. get_end_suffix (some pair.source_full) (some p)) e
      ∙ get_end_suffix-append pair.source_full rest in
    record { full = refl; path = rw s e; boundary = rw s b }

module _ (files : Files) where
  visit_directory :
      (pair : Pair) (path : Bytes) (w w' : files.World) (ws ws' : List Watch)
      → backup_walk_inotify_init files pair path ftw_d (w, ws) ≡ some (w', ws')
      → (wd : ℕ) × (ws' ≡ ws ++ (watch_for pair wd path ∷ []))
  unfolding backup_walk_inotify_init
  visit_directory pair path w w' ws ws' e = elim (Option-cases (files.add_watch path w)) [
    | inl failed ↦ absurd (ground arith)
    | inr ((wd, w1), added) ↦ (wd, ground arith)
  ]

  visit_other :
      (pair : Pair) (path : Bytes) (flag : Flag) (env : Env files)
      → flag ≢ ftw_d
      → backup_walk_inotify_init files pair path flag env ≡ some env
  unfolding backup_walk_inotify_init
  visit_other pair path ftw_d env ne = absurd (ne refl)
  visit_other pair path flag env ne = refl

  -- Every directory that the walk visits gets a watch, in the order of the visits, behind the
  -- watches that were there, and no other entry does.
  pub watch_all-directories :
      (pair : Pair) (entries : List (Bytes × Flag)) (w w' : files.World) (ws ws' : List Watch)
      → watch_all files pair entries (w, ws) ≡ some (w', ws')
      → watched ws' ≡ watched ws ++ directories entries
  unfolding watch_all
  watch_all-directories pair [] w w' ws ws' e =
      ap watched (ap (λ p. p.1) (sym (some-injective _ _ e))) ∙ sym (append-nil (watched ws))
  watch_all-directories pair ((path, ftw_d) ∷ more) w w' ws ws' e =
      let (env, visited, rest) =
        >>=-eq-some (backup_walk_inotify_init files pair path ftw_d (w, ws)) _ e in
      let (wd, added) = visit_directory pair path w env.0 ws env.1 visited in
      watch_all-directories pair more env.0 w' env.1 ws' rest
      ∙ (ap (λ vs. watched vs ++ directories more) added
          ∙ (ap (λ vs. vs ++ directories more) (watched-append ws (watch_for pair wd path ∷ []))
              ∙ append_assoc (watched ws) (path ∷ []) (directories more)))
  watch_all-directories pair ((path, ftw_f) ∷ more) w w' ws ws' e =
      watch_all-directories pair more w w' ws ws'
        (rw (visit_other pair path ftw_f (w, ws) (λ h. cc)) at e)
  watch_all-directories pair ((path, ftw_sl) ∷ more) w w' ws ws' e =
      watch_all-directories pair more w w' ws ws'
        (rw (visit_other pair path ftw_sl (w, ws) (λ h. cc)) at e)
  watch_all-directories pair ((path, ftw_other) ∷ more) w w' ws ws' e =
      watch_all-directories pair more w w' ws ws'
        (rw (visit_other pair path ftw_other (w, ws) (λ h. cc)) at e)

  watch_all-IsWatch :
      (pair : Pair) (entries : List (Bytes × Flag)) (w w' : files.World) (ws ws' : List Watch)
      → All (λ e. Within pair.source_full e.0) entries
      → All (IsWatch pair.source_full) ws
      → watch_all files pair entries (w, ws) ≡ some (w', ws')
      → All (IsWatch pair.source_full) ws'
  unfolding watch_all
  watch_all-IsWatch pair [] w w' ws ws' inside sound e =
      subst (All (IsWatch pair.source_full)) (ap (λ p. p.1) (some-injective _ _ e)) sound
  watch_all-IsWatch pair ((path, ftw_d) ∷ more) w w' ws ws' (here, inside) sound e =
      let (env, visited, rest) =
        >>=-eq-some (backup_walk_inotify_init files pair path ftw_d (w, ws)) _ e in
      let (wd, added) = visit_directory pair path w env.0 ws env.1 visited in
      watch_all-IsWatch pair more env.0 w' env.1 ws' inside
        (subst (All (IsWatch pair.source_full)) (sym added) (
          All-append (IsWatch pair.source_full) ws _ sound
            (watch_for-IsWatch pair wd path here, tt)))
        rest
  watch_all-IsWatch pair ((path, ftw_f) ∷ more) w w' ws ws' (here, inside) sound e =
      watch_all-IsWatch pair more w w' ws ws' inside sound
        (rw (visit_other pair path ftw_f (w, ws) (λ h. cc)) at e)
  watch_all-IsWatch pair ((path, ftw_sl) ∷ more) w w' ws ws' (here, inside) sound e =
      watch_all-IsWatch pair more w w' ws ws' inside sound
        (rw (visit_other pair path ftw_sl (w, ws) (λ h. cc)) at e)
  watch_all-IsWatch pair ((path, ftw_other) ∷ more) w w' ws ws' (here, inside) sound e =
      watch_all-IsWatch pair more w w' ws ws' inside sound
        (rw (visit_other pair path ftw_other (w, ws) (λ h. cc)) at e)

  pub Within-all :
      (a b : Bytes) (entries : List (Bytes × Flag))
      → Within a b
      → All (λ e. Within b e.0) entries
      → All (λ e. Within a e.0) entries
  Within-all a b [] h all = tt
  Within-all a b ((p, f) ∷ more) h (here, all) =
      (Within-trans a b p h here, Within-all a b more h all)

  -- Where nftw visits nothing outside its path, a new folder in the source adds only watches
  -- on directories of the source.
  pub new_folder_init-IsWatch :
      (pair : Pair) (path : Bytes) (w w' : files.World) (ws ws' : List Watch)
      → Visits files
      → Within pair.source_full path
      → All (IsWatch pair.source_full) ws
      → new_folder_init files pair path (w, ws) ≡ some (w', ws')
      → All (IsWatch pair.source_full) ws'
  unfolding new_folder_init
  new_folder_init-IsWatch pair path w w' ws ws' visits inside sound e =
      let (env, walked, rest) =
        >>=-eq-some (watch_all files pair (files.nftw path w) (w, ws)) _ e in
      let (w2, copied, done) =
        >>=-eq-some (copy_all files pair (files.nftw path env.0) env.0) _ rest in
      subst (All (IsWatch pair.source_full)) (ap (λ p. p.1) (some-injective _ _ done)) (
        watch_all-IsWatch pair (files.nftw path w) w env.0 ws env.1
          (Within-all pair.source_full path _ inside (visits path w)) sound walked)
