-- ===== src/Dlist/Free.antt =====
-- The loops that free a whole list.
use unix_backup_c.Common.{
  ℕ, zero, suc, ◌≤◌, ◌≡◌, refl, ap, ◌∙◌, ◌≢◌, inl, inr, true, false, none, some, [], ◌∷◌, arith,
  ==_ne, Bool-cases, length,
}
use unix_backup_c.Dlist.{Ptr, null, Cell, Heap, Handle, write, free_from, free_all}
use unix_backup_c.Dlist.Access.{load_known, free_known}
use unix_backup_c.Dlist.Seg.{Nodes, first, has, Distinct, Seg, SameOutside, frame-write}
use unix_backup_c.Dlist.Repr.{IsList}

module _ {ℓ} {A : Type ℓ} where
  -- Every node is free memory, and nothing else has changed.
  abbrev pub IsFreed : Nodes A → Heap A → Heap A → Type ℓ
  IsFreed xs h g = ((q : Ptr) → has q xs ≡ true → g q ≡ none) × SameOutside xs h g

  IsFreed-cons :
      (p : Ptr) (v : A) (xs : Nodes A) (h g : Heap A)
      → has p xs ≡ false
      → IsFreed xs (write h p none) g
      → IsFreed ((p, v) ∷ xs) h g
  IsFreed-cons p v xs h g out (gone, same) = (
    λ q i. elim (Bool-cases (has q xs)) [
      | inl inside ↦ gone q inside
      | inr outside ↦ ground (arith, same q outside, i, outside)
    ],
    λ q o. ground (arith, same q, o),
  )

  free_step :
      (fuel : ℕ) (p : Ptr) (h : Heap A) (c : Cell A)
      → p ≢ null
      → h p ≡ some c
      → free_from (suc fuel) p h ≡ free_from fuel c.next (write h p none)
  unfolding free_from
  free_step fuel p h c ne e =
      rw (free_from, ==_ne p null ne, load_known p h c ne e, free_known p h c ne e) refl

  free_from-IsFreed :
      (fuel : ℕ) (before : Ptr) (xs : Nodes A) (h : Heap A)
      → Seg h before null xs
      → Distinct xs
      → length xs ≤ fuel
      → (g : Heap A) × (free_from fuel (first null xs) h ≡ some g) × IsFreed xs h g
  unfolding free_from
  free_from-IsFreed zero before [] h s d f = (h, refl, (λ q i. cc, λ q o. refl))
  free_from-IsFreed (suc fuel) before [] h s d f = (h, refl, (λ q i. cc, λ q o. refl))
  free_from-IsFreed zero before ((p, v) ∷ xs) h s d f = absurd (omega arith)
  free_from-IsFreed (suc fuel) before ((p, v) ∷ xs) h (ne, e, s) (out, d) f =
      let (g, runs, freed) =
        free_from-IsFreed fuel p xs (write h p none) (frame-write h p null xs p none s out) d
          (omega arith) in
      (g, free_step fuel p h _ ne e ∙ runs, IsFreed-cons p v xs h g out freed)

  -- On the heap of a list the loop that frees it ends without a fault: it frees every node, once,
  -- and changes nothing else.
  pub free_all-IsFreed :
      (l : Handle) (xs : Nodes A) (h : Heap A)
      → IsList h l xs
      → (g : Heap A) × (free_all l h ≡ some g) × IsFreed xs h g
  unfolding free_all
  free_all-IsFreed l xs h is =
      let (g, runs, freed) =
        free_from-IsFreed l.size null xs h is.chain is.distinct (omega (arith, is.size)) in
      (g, ap (λ p. free_from l.size p h) is.head ∙ runs, freed)
