-- ===== src/Registry/Gone.antt =====
-- What the command `end` leaves of the targets that it names.
use unix_backup_c.Common.{
  ℕ, ◌≤◌, ◌≡◌, refl, sym, inl, inr, none, some, List, [], ◌∷◌, arith, Option-cases, All,
}
use unix_backup_c.Common.Bytes.{Bytes, str_eq_sound}
use mathlib.Core.Path.{subst}
use unix_backup_c.Types.{Target}
use unix_backup_c.Dlist.Refine.{find_first}
use unix_backup_c.Registry.{Os, Work, has_target, list_target_delete}
use unix_backup_c.Registry.Commands.{drop_target, handle_end_for_target, end_targets}
use unix_backup_c.Counts.{
  count, count-delete, count-delete_self, find_first-passes, find_first-missing, exists-find_first,
}
use unix_backup_c.Registry.Add.{OpenAt}
use unix_backup_c.Registry.Ends.{handle_end_for_target-Continues}

module _ (os : Os) where
  -- The targets of a name at the source at work.
  abbrev named_here : Bytes → Work os → ℕ
  named_here n k = count (has_target n) k.source.targets

  handle_end_for_target-fewer :
      (n : Bytes) (t : Target) (k : Work os)
      → named_here n (handle_end_for_target os t k) ≤ named_here n k
  unfolding handle_end_for_target drop_target list_target_delete
  handle_end_for_target-fewer n t k =
      count-delete (has_target n) (has_target t.target_friendly) k.source.targets

  end_targets-fewer :
      (n : Bytes) (toks : List Bytes) (k : Work os)
      → named_here n (end_targets os toks k) ≤ named_here n k
  unfolding end_targets
  end_targets-fewer n [] k = omega arith
  end_targets-fewer n (tok ∷ toks) k =
      elim (Option-cases (find_first (has_target tok) k.source.targets)) [
        | inl missing ↦ rw (missing, end_targets) (end_targets-fewer n toks k)
        | inr (t, found) ↦
            rw (found, end_targets)
              (omega (
                arith,
                end_targets-fewer n toks (handle_end_for_target os t k),
                handle_end_for_target-fewer n t k,
              ))
      ]

  handle_end_for_target-gone :
      (tok : Bytes) (t : Target) (k : Work os)
      → OpenAt os k
      → find_first (has_target tok) k.source.targets ≡ some t
      → named_here tok (handle_end_for_target os t k) ≡ 0
  unfolding handle_end_for_target drop_target list_target_delete
  handle_end_for_target-gone tok t k o found =
      let same : t.target_friendly ≡ tok =
        str_eq_sound t.target_friendly tok
          (find_first-passes (has_target tok) k.source.targets t found) in
      rw same (
        omega (
          arith,
          o.targets_once tok,
          count-delete_self (has_target tok) k.source.targets
              (exists-find_first (has_target tok) k.source.targets t found),
        ))

  -- No target of the names is left.
  abbrev pub Gone : List Bytes → Work os → Type 0
  Gone toks k = All (λ tok. count (has_target tok) k.source.targets ≡ 0) toks

  end_targets-missing :
      (tok : Bytes) (toks : List Bytes) (k : Work os)
      → find_first (has_target tok) k.source.targets ≡ none
      → end_targets os (tok ∷ toks) k ≡ end_targets os toks k
  unfolding end_targets
  end_targets-missing tok toks k missing = rw (missing, end_targets) refl

  end_targets-found :
      (tok : Bytes) (toks : List Bytes) (k : Work os) (t : Target)
      → find_first (has_target tok) k.source.targets ≡ some t
      → end_targets os (tok ∷ toks) k ≡ end_targets os toks (handle_end_for_target os t k)
  unfolding end_targets
  end_targets-found tok toks k t found = rw (found, end_targets) refl

  -- Where the lists are consistent, the loop of `end` leaves no target at the source that has one
  -- of the names given.
  pub end_targets-Gone :
      (toks : List Bytes) (k : Work os) → OpenAt os k → Gone toks (end_targets os toks k)
  end_targets-Gone [] k o = tt
  end_targets-Gone (tok ∷ toks) k o =
      elim (Option-cases (find_first (has_target tok) k.source.targets)) [
        | inl missing ↦ subst (Gone (tok ∷ toks)) (sym (end_targets-missing tok toks k missing)) (
          omega (
            arith,
            end_targets-fewer tok toks k,
            find_first-missing (has_target tok) k.source.targets missing,
          ),
          end_targets-Gone toks k o,
        )
        | inr (t, found) ↦
            let k' = handle_end_for_target os t k in
            subst (Gone (tok ∷ toks)) (sym (end_targets-found tok toks k t found)) (
              omega (
                arith,
                end_targets-fewer tok toks k',
                handle_end_for_target-gone tok t k o found,
              ),
              end_targets-Gone toks k' (handle_end_for_target-Continues os t k o).0,
            )
      ]
