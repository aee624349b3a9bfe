-- ===== src/Child/Visits.antt =====
-- `nftw(path, backup_walk, …)` visit by visit.
use unix_backup_c.Common.{◌≡◌, refl, ap, Option, some, List, [], ◌∷◌, ◌++◌, >>=-eq-some, All}
use unix_backup_c.Common.Bytes.{Bytes}
use mathlib.Core.Path.{subst}
use unix_backup_c.Outcome.{returned}
use unix_backup_c.FileOps.Copies.{backup_walk}
use unix_backup_c.System.{Flag, Sys}
use mathlib.Core.Option.{some-injective}
use unix_backup_c.Outcome.{Outcome, ok, exited, fault}
use unix_backup_c.Child.Calls.{files_of}
use unix_backup_c.Child.Folders.{Pair, copy_all}

pub All-imply :
    {A : Type 0} (P Q : A → Type 0) (xs : List A) → ((x : A) → P x → Q x) → All P xs → All Q xs
All-imply P Q [] f all = tt
All-imply P Q (x ∷ xs) f (h, all) = (f x h, All-imply P Q xs f all)

module _ (sys : Sys) (pair : Pair) where
  abbrev pub copies : List (Bytes × Flag) → sys.World → Option sys.World
  copies = copy_all (files_of sys) pair

  pub returned_ok : (m : Outcome sys.World) (w' : sys.World) → returned m ≡ some w' → m ≡ ok w'
  returned_ok (ok w) w' e = ap ok (some-injective w w' e)
  returned_ok exited w' e = absurd (cc)
  returned_ok fault w' e = absurd (cc)

  pub copies_split :
      (before after : List (Bytes × Flag)) (w w' : sys.World)
      → copies (before ++ after) w ≡ some w'
      → (w1 : sys.World) × (copies before w ≡ some w1) × (copies after w1 ≡ some w')
  unfolding copy_all
  copies_split [] after w w' e = (w, refl, e)
  copies_split ((p, f) ∷ before) after w w' e =
      let (w1, first, rest) =
        >>=-eq-some (returned (backup_walk sys pair.source_full pair.target_full p f w)) _ e in
      let (w2, more, last) = copies_split before after w1 w' rest in (w2, rw first more, last)

  -- A property that each visit keeps.
  pub copies_keep :
      (Inv : sys.World → Type 0) (es : List (Bytes × Flag)) (w w' : sys.World)
      → All
          (λ e.
            (w w' : sys.World)
            → Inv w
            → backup_walk sys pair.source_full pair.target_full e.0 e.1 w ≡ ok w'
            → Inv w')
          es
      → Inv w
      → copies es w ≡ some w'
      → Inv w'
  unfolding copy_all
  copies_keep Inv [] w w' each i e = subst Inv (some-injective w w' e) i
  copies_keep Inv ((p, f) ∷ es) w w' (here, each) i e =
      let (w1, first, rest) =
        >>=-eq-some (returned (backup_walk sys pair.source_full pair.target_full p f w)) _ e in
      copies_keep Inv es w1 w' each (here w w1 i (returned_ok _ w1 first)) rest
