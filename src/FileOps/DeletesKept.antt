-- ===== src/FileOps/DeletesKept.antt =====
-- What the deletions keep.
use unix_backup_c.Common.{ℕ, inl, inr, List, [], ◌∷◌, Option-cases, All}
use unix_backup_c.Common.Bytes.{Bytes}
use unix_backup_c.System.{eexist, enoent, enotempty, eacces, exdev, other, Reply-cases, Visit, Sys}
use unix_backup_c.Outcome.{Outcome}
use unix_backup_c.FileOps.{deleter, delete_all, recursive_deleter, del_handling}
use unix_backup_c.FileOps.Kept.{IsKept, Kept, and_then-Kept, unless_missing-Kept}

module _ (sys : Sys) (Makes Inside : Bytes → Type 0) (Inv : sys.World → Type 0)
    (Writes : ℕ → sys.World → Type 0) (kept : IsKept sys Makes Inside Inv Writes) where
  abbrev Keeps : Outcome sys.World → Type 0
  Keeps = Kept sys Makes Inside Inv Writes kept

  deleter-Kept : (p : Bytes) (w : sys.World) → Inside p → Inv w → Keeps (deleter sys p w)
  unfolding deleter
  deleter-Kept p w d i = elim (Reply-cases (sys.remove p w)) [
    | inl (w', gone) ↦ rw (gone, Keeps, Kept) (kept.remove_keeps p w w' d i gone)
    | inr (e, refused) ↦
        rw (refused, Keeps, Kept) (unless_missing-Kept sys Makes Inside Inv Writes kept e w i)
  ]

  delete_all-Kept :
      (vs : List Visit) (w : sys.World)
      → All (λ v. Inside v.path) vs
      → Inv w
      → Keeps (delete_all sys vs w)
  unfolding delete_all
  delete_all-Kept [] w d i = i
  delete_all-Kept (v ∷ vs) w (d, ds) i =
      and_then-Kept sys Makes Inside Inv Writes kept (deleter sys v.path w) _
        (deleter-Kept v.path w d i) (λ w' i'. delete_all-Kept vs w' ds i')

  pub recursive_deleter-Kept :
      (p : Bytes) (w : sys.World) → Inside p → Inv w → Keeps (recursive_deleter sys p w)
  unfolding recursive_deleter
  recursive_deleter-Kept p w d i = elim (Option-cases (sys.nftw_depth p w)) [
    | inl refused ↦ rw (refused, Keeps, Kept) tt
    | inr (vs, found) ↦
        rw (found, Keeps, Kept) (delete_all-Kept vs w (kept.visits_inside p w vs d found) i)
  ]

  pub del_handling-Kept :
      (p : Bytes) (w : sys.World) → Inside p → Inv w → Keeps (del_handling sys p w)
  unfolding del_handling
  del_handling-Kept p w d i = elim (Reply-cases (sys.remove p w)) [
    | inl (w', gone) ↦ rw (gone, Keeps, Kept) (kept.remove_keeps p w w' d i gone)
    | inr (enotempty, e) ↦
        rw (e, Keeps, Kept)
          (and_then-Kept sys Makes Inside Inv Writes kept (recursive_deleter sys p w) _
            (recursive_deleter-Kept p w d i) (λ w' i'. deleter-Kept p w' d i'))
    | inr (enoent, e) ↦ rw (e, Keeps, Kept) i
    | inr (eexist, e) ↦ rw (e, Keeps, Kept) tt
    | inr (eacces, e) ↦ rw (e, Keeps, Kept) tt
    | inr (exdev, e) ↦ rw (e, Keeps, Kept) tt
    | inr (other, e) ↦ rw (e, Keeps, Kept) tt
  ]
