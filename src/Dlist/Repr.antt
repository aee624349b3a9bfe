-- ===== src/Dlist/Repr.antt =====
-- When a handle and a heap hold a given list, and the effect of the two ways to relink a neighbour.
use unix_backup_c.Common.{
  ◌≡◌, refl, ap, inl, inr, false, none, [], ◌∷◌, arith, ◌==◌, ==_iff, Bool-cases, length,
}
use unix_backup_c.Dlist.{Ptr, null, Heap, Handle, empty}
use unix_backup_c.Dlist.Seg.{Nodes, first, last, has, Distinct, Seg}

module _ {ℓ} {A : Type ℓ} where
  pub record IsList (h : Heap A) (l : Handle) (xs : Nodes A) : Type ℓ where
    pub head : l.head ≡ first null xs
    pub tail : l.tail ≡ last null xs
    pub size : l.size ≡ length xs
    pub chain : Seg h null null xs
    pub distinct : Distinct xs

  pub IsList-empty : (h : Heap A) → IsList h empty []
  IsList-empty h = record { head = refl; tail = refl; size = refl; chain = tt; distinct = tt }

  -- Memory that holds no node lies outside the list.
  pub has_of_none :
      (h : Heap A) (before after q : Ptr) (xs : Nodes A)
      → Seg h before after xs
      → h q ≡ none
      → has q xs ≡ false
  has_of_none h before after q [] s unused = refl
  has_of_none h before after q ((p, v) ∷ xs) (ne, e, s) unused = elim (Bool-cases (q == p)) [
    | inl same ↦ absurd (ground (arith, ap h ((==_iff q p).0 same)))
    | inr differ ↦ ground (arith, has_of_none h p after q xs s unused)
  ]
