-- ===== src/FileOps/Removals.antt =====
-- What is missing once an entry is removed.
use unix_backup_c.Common.{
  ◌≡◌, refl, sym, ap, ◌∙◌, inl, inr, some, List, [], ◌∷◌, ◌++◌, Option-cases,
}
use unix_backup_c.Common.Bytes.{Bytes}
use mathlib.Core.Path.{subst}
use unix_backup_c.FileOps.{del_handling}
use unix_backup_c.System.{eexist, enoent, enotempty, eacces, exdev, other}
use unix_backup_c.System.{Reply-cases, done, failed, Errno, Visit, Sys}
use unix_backup_c.Outcome.{Outcome, ok, exited, fault, and_then}
use unix_backup_c.FileOps.{unless_missing, deleter, delete_all, recursive_deleter}

abbrev pub IsMissing : (sys : Sys) → Bytes → sys.World → Type 0
IsMissing sys path w = sys.lstat path w ≡ failed enoent

-- What remove(3), lstat(2) and nftw(3) say: what is removed is missing afterwards, no removal makes
-- another entry appear, an entry that cannot be removed since it is missing is missing, and a walk
-- visits the path itself.
pub record IsRemoving (sys : Sys) : Type 0 where
  pub removes : (p : Bytes) (w w' : sys.World) → sys.remove p w ≡ done w' → IsMissing sys p w'
  pub appears_not :
      (p q : Bytes) (w w' : sys.World)
      → sys.remove p w ≡ done w'
      → IsMissing sys q w
      → IsMissing sys q w'
  pub missing : (p : Bytes) (w : sys.World) → sys.remove p w ≡ failed enoent → IsMissing sys p w
  pub visits_itself :
      (p : Bytes) (w : sys.World) (vs : List Visit)
      → sys.nftw_depth p w ≡ some vs
      → (before after : List Visit) × (v : Visit) × (vs ≡ before ++ (v ∷ after)) × (v.path ≡ p)

module _ (sys : Sys) (removing : IsRemoving sys) where
  -- Where the operation returns, the entry is missing.
  abbrev pub Gone : Bytes → Outcome sys.World → Type 0
  Gone path (ok w) = IsMissing sys path w
  Gone path exited = Unit
  Gone path fault = Unit

  pub and_then-Gone :
      (p q : Bytes) (m : Outcome sys.World) (f : sys.World → Outcome sys.World)
      → Gone p m
      → ((w : sys.World) → IsMissing sys p w → Gone q (f w))
      → Gone q (and_then m f)
  and_then-Gone p q (ok w) f h k = k w h
  and_then-Gone p q exited f h k = tt
  and_then-Gone p q fault f h k = tt

  unless_missing-Gone :
      (q : Bytes) (e : Errno) (w : sys.World)
      → (e ≡ enoent → IsMissing sys q w)
      → Gone q (unless_missing e w)
  unfolding unless_missing
  unless_missing-Gone q eexist w h = tt
  unless_missing-Gone q enoent w h = h refl
  unless_missing-Gone q enotempty w h = tt
  unless_missing-Gone q eacces w h = tt
  unless_missing-Gone q exdev w h = tt
  unless_missing-Gone q other w h = tt

  pub deleter-Gone : (p : Bytes) (w : sys.World) → Gone p (deleter sys p w)
  unfolding deleter
  deleter-Gone p w = elim (Reply-cases (sys.remove p w)) [
    | inl (w', gone) ↦ rw (gone, Gone) (removing.removes p w w' gone)
    | inr (e, refused) ↦
        rw (refused, Gone)
          (unless_missing-Gone p e w (λ none. removing.missing p w (refused ∙ ap failed none)))
  ]

  deleter_keeps : (p q : Bytes) (w : sys.World) → IsMissing sys q w → Gone q (deleter sys p w)
  unfolding deleter
  deleter_keeps p q w h = elim (Reply-cases (sys.remove p w)) [
    | inl (w', gone) ↦ rw (gone, Gone) (removing.appears_not p q w w' gone h)
    | inr (e, refused) ↦ rw (refused, Gone) (unless_missing-Gone q e w (λ none. h))
  ]

  delete_all_keeps :
      (q : Bytes) (vs : List Visit) (w : sys.World)
      → IsMissing sys q w
      → Gone q (delete_all sys vs w)
  unfolding delete_all
  delete_all_keeps q [] w h = h
  delete_all_keeps q (v ∷ vs) w h =
      and_then-Gone q q (deleter sys v.path w) _ (deleter_keeps v.path q w h)
        (delete_all_keeps q vs)

  any_then :
      (q : Bytes) (m : Outcome sys.World) (f : sys.World → Outcome sys.World)
      → ((w : sys.World) → Gone q (f w))
      → Gone q (and_then m f)
  any_then q (ok w) f k = k w
  any_then q exited f k = tt
  any_then q fault f k = tt

  delete_all-Gone :
      (before : List Visit) (v : Visit) (after : List Visit) (w : sys.World)
      → Gone v.path (delete_all sys (before ++ (v ∷ after)) w)
  unfolding delete_all
  delete_all-Gone [] v after w =
      and_then-Gone v.path v.path (deleter sys v.path w) _ (deleter-Gone v.path w)
        (delete_all_keeps v.path after)
  delete_all-Gone (u ∷ before) v after w =
      any_then v.path (deleter sys u.path w) _ (delete_all-Gone before v after)

  pub recursive_deleter-Gone : (p : Bytes) (w : sys.World) → Gone p (recursive_deleter sys p w)
  unfolding recursive_deleter
  recursive_deleter-Gone p w = elim (Option-cases (sys.nftw_depth p w)) [
    | inl refused ↦ rw (refused, Gone) tt
    | inr (vs, found) ↦
        let (before, after, v, split, itself) = removing.visits_itself p w vs found in
        rw (found, Gone)
          (subst (λ q. Gone q (delete_all sys vs w)) itself
            (subst (λ us. Gone v.path (delete_all sys us w)) (sym split)
              (delete_all-Gone before v after w)))
  ]

  pub recursive_deleter_keeps :
      (p q : Bytes) (w : sys.World) → IsMissing sys q w → Gone q (recursive_deleter sys p w)
  unfolding recursive_deleter
  recursive_deleter_keeps p q w h = elim (Option-cases (sys.nftw_depth p w)) [
    | inl refused ↦ rw (refused, Gone) tt
    | inr (vs, found) ↦ rw (found, Gone) (delete_all_keeps q vs w h)
  ]

  pub del_handling-Gone : (p : Bytes) (w : sys.World) → Gone p (del_handling sys p w)
  unfolding del_handling
  del_handling-Gone p w = elim (Reply-cases (sys.remove p w)) [
    | inl (w', gone) ↦ rw (gone, Gone) (removing.removes p w w' gone)
    | inr (enotempty, e) ↦
        rw (e, Gone)
          (any_then p (recursive_deleter sys p w) (deleter sys p) (λ w1. deleter-Gone p w1))
    | inr (enoent, e) ↦ rw (e, Gone) (removing.missing p w e)
    | inr (eexist, e) ↦ rw (e, Gone) tt
    | inr (eacces, e) ↦ rw (e, Gone) tt
    | inr (exdev, e) ↦ rw (e, Gone) tt
    | inr (other, e) ↦ rw (e, Gone) tt
  ]
