-- ===== src/Child/Backup.antt =====
-- What the walk of a backup leaves in the target.
use unix_backup_c.Common.{
  ℕ, ◌≡◌, refl, sym, ◌∙◌, ◌≢◌, inr, Option, some, List, [], ◌∷◌, ◌++◌, >>=-eq-some, All,
}
use unix_backup_c.Common.Bytes.{Bytes}
use mathlib.Core.Path.{subst}
use unix_backup_c.Child.Visits.{All-imply, copies, copies_split, copies_keep, returned_ok}
use unix_backup_c.FileOps.Contents.{IsFile}
use unix_backup_c.Outcome.{returned}
use unix_backup_c.FileOps.Places.{IsMade, IsPlace-Within, get_path_to_target-Within, dir_of-below}
use unix_backup_c.FileOps.MovesKept.{backup_walk-Good}
use unix_backup_c.FileOps.Copies.{copy_file, copy, backup_walk}
use unix_backup_c.FileOps.Kept.{IsKept, Kept}
use unix_backup_c.FileOps.Storage.{Filled}
use unix_backup_c.System.{done, regular, Flag, ftw_f, Stat, Sys}
use unix_backup_c.Paths.{get_path_to_target}
use unix_backup_c.Paths.Mirror.{IsTrimmed, get_path_to_target-append}
use unix_backup_c.FileOps.Storage.{IsStorage, copy_file_copies}
use unix_backup_c.Outcome.{Outcome, ok}
use unix_backup_c.Paths.Inside.{Within, IsBoundary}
use unix_backup_c.Child.Calls.{files_of}
use unix_backup_c.Child.Folders.{Pair, copy_all}

module _ (sys : Sys) (pair : Pair) (trimmed : IsTrimmed pair.target_full)
    (content : Bytes → sys.World → Option Bytes) (Apart : Bytes → Bytes → sys.World → Type 0)
    (IsOpen : ℕ → ℕ → Bytes → sys.World → Type 0)
    (storage : IsStorage sys content Apart IsOpen) where
  abbrev partner : Bytes → Bytes
  partner rest = pair.target_full ++ rest

  -- The file at a path of the source is a regular file with this content, and not the same file as
  -- its partner in the target.
  abbrev pub IsSource : Bytes → Bytes → sys.World → Type 0
  IsSource rest b =
      IsFile sys content Apart IsOpen storage (pair.source_full ++ rest) (pair.target_full ++ rest)
        b

  rest_ne : (rest : Bytes) → IsTrimmed rest → rest ≢ []
  rest_ne [] h = absurd h
  rest_ne (c ∷ rest) h = λ e. cc

  one_visit :
      (path : Bytes) (w w' : sys.World)
      → copies sys pair ((path, ftw_f) ∷ []) w ≡ some w'
      → backup_walk sys pair.source_full pair.target_full path ftw_f w ≡ ok w'
  unfolding copy_all
  one_visit path w w' e =
      let (w1, visited, last) =
        >>=-eq-some (returned (backup_walk sys pair.source_full pair.target_full path ftw_f w)) _
          e in
      returned_ok sys pair _ w' (visited ∙ last)

  visit_copy_file :
      (rest : Bytes) (st : Stat) (w : sys.World)
      → IsBoundary rest
      → IsTrimmed rest
      → sys.lstat (pair.source_full ++ rest) w ≡ done st
      → st.kind ≡ regular
      → backup_walk sys pair.source_full pair.target_full (pair.source_full ++ rest) ftw_f w
        ≡ copy_file sys (pair.source_full ++ rest) (partner rest) w
  unfolding backup_walk copy
  visit_copy_file rest st w boundary ends found file =
      rw
        (
          backup_walk,
          get_path_to_target-append pair.source_full pair.target_full rest trimmed
              (inr (boundary, ends)),
          copy,
          found,
          file,
        )
        refl

  visit_copies :
      (rest b : Bytes) (w w' : sys.World)
      → IsBoundary rest
      → IsTrimmed rest
      → rest ≢ []
      → IsSource rest b w
      → backup_walk sys pair.source_full pair.target_full (pair.source_full ++ rest) ftw_f w ≡ ok w'
      → content (partner rest) w' ≡ some b
  visit_copies rest b w w' boundary ends ne ((st, found, file), has, apart) e =
      subst (Filled sys content Apart IsOpen storage (partner rest) b)
        (sym (visit_copy_file rest st w boundary ends found file) ∙ e)
        (copy_file_copies sys content Apart IsOpen storage (pair.source_full ++ rest) (partner rest)
          b w (dir_of-below pair.target_full rest trimmed boundary ne) apart has)

  -- What a visit keeps, as an equation of its result.
  ended_keeps :
      (Makes Inside : Bytes → Type 0) (Inv : sys.World → Type 0) (Writes : ℕ → sys.World → Type 0)
      (kept : IsKept sys Makes Inside Inv Writes) (m : Outcome sys.World) (w' : sys.World)
      → Kept sys Makes Inside Inv Writes kept m
      → m ≡ ok w'
      → Inv w'
  ended_keeps Makes Inside Inv Writes kept m w' h e =
      subst (Kept sys Makes Inside Inv Writes kept) e h

  before_keeps :
      (rest b : Bytes) (Writes : ℕ → sys.World → Type 0)
      → IsKept sys (IsMade pair.target_full) (Within pair.target_full) (IsSource rest b) Writes
      → (es : List (Bytes × Flag)) (w w' : sys.World) → All (λ e. Within pair.source_full e.0) es
      → IsSource rest b w
      → copies sys pair es w ≡ some w'
      → IsSource rest b w'
  before_keeps rest b Writes kept es w w' inside i e =
      copies_keep sys pair (IsSource rest b) es w w'
        (All-imply _ _ es
          (λ (p, f) here v v' h done.
            ended_keeps (IsMade pair.target_full) (Within pair.target_full) (IsSource rest b) Writes
              kept (backup_walk sys pair.source_full pair.target_full p f v) v'
              (backup_walk-Good sys (IsMade pair.target_full) (Within pair.target_full)
                (IsSource rest b) Writes kept pair.source_full pair.target_full p f v
                (λ new mirrored.
                  IsPlace-Within sys pair.target_full (IsSource rest b) Writes kept new (
                    get_path_to_target-Within pair.source_full pair.target_full p new trimmed here
                      mirrored))
                h)
              done)
          inside)
        i e

  -- No later visit is at a partner that is the file or a directory above it.
  abbrev pub Later : Bytes → Bytes × Flag → Type 0
  Later rest e =
      (new : Bytes)
      → get_path_to_target pair.source_full pair.target_full e.0 ≡ some new
      → Within new (pair.target_full ++ rest)
      → ⊥

  after_keeps :
      (rest b : Bytes) (Writes : ℕ → sys.World → Type 0)
      → IsKept sys
          (λ p. Unit)
          (λ p. Within p (partner rest) → ⊥)
          (λ w. content (partner rest) w ≡ some b)
          Writes
      → (es : List (Bytes × Flag)) (w w' : sys.World) → All (Later rest) es
      → content (partner rest) w ≡ some b
      → copies sys pair es w ≡ some w'
      → content (partner rest) w' ≡ some b
  after_keeps rest b Writes kept es w w' later i e =
      let Inv : sys.World → Type 0 = λ w. content (partner rest) w ≡ some b in
      let Spared : Bytes → Type 0 = λ p. Within p (partner rest) → ⊥ in
      copies_keep sys pair Inv es w w'
        (All-imply _ _ es
          (λ (p, f) spared v v' h done.
            ended_keeps (λ p. Unit) Spared Inv Writes kept
              (backup_walk sys pair.source_full pair.target_full p f v) v'
              (backup_walk-Good sys (λ p. Unit) Spared Inv Writes kept pair.source_full
                pair.target_full p f v
                (λ new mirrored. record { inside = spared new mirrored; parents = λ a b ne e. tt })
                h)
              done)
          later)
        i e

  -- Where changes in the target leave a regular file of the source as it is, and changes elsewhere
  -- leave its partner in the target as it is, the walk of a backup that visits the file, and no
  -- entry above it later, leaves the partner with the content that the file has, if it returns.
  pub copy_all_copies :
      (rest b : Bytes) (before after : List (Bytes × Flag)) (w w' : sys.World)
      (Writes Writes' : ℕ → sys.World → Type 0)
      → IsBoundary rest
      → IsTrimmed rest
      → IsKept sys (IsMade pair.target_full) (Within pair.target_full) (IsSource rest b) Writes
      → IsKept sys
          (λ p. Unit)
          (λ p. Within p (pair.target_full ++ rest) → ⊥)
          (λ w. content (pair.target_full ++ rest) w ≡ some b)
          Writes'
      → All (λ e. Within pair.source_full e.0) before
      → All (Later rest) after
      → IsSource rest b w
      → copy_all (files_of sys) pair (before ++ ((pair.source_full ++ rest, ftw_f) ∷ after)) w
        ≡ some w'
      → content (pair.target_full ++ rest) w' ≡ some b
  copy_all_copies rest b before after w w' Writes Writes' boundary ends kept_source kept_new inside
        later source e =
      let path = pair.source_full ++ rest in
      let (w1, first, more) = copies_split sys pair before ((path, ftw_f) ∷ after) w w' e in
      let (w2, visited, last) = copies_split sys pair ((path, ftw_f) ∷ []) after w1 w' more in
      after_keeps rest b Writes' kept_new after w2 w' later
        (visit_copies rest b w1 w2 boundary ends (rest_ne rest ends)
          (before_keeps rest b Writes kept_source before w w1 inside source first)
          (one_visit path w1 w2 visited))
        last
