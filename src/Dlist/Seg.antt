-- ===== src/Dlist/Seg.antt =====
-- Segments of a doubly linked list on a heap: what `next` and `prev` hold along them.
use unix_backup_c.Common.{
  ◌≡◌, refl, ap, ◌∙◌, ◌≢◌, inl, inr, Bool, true, false, ◌||◌, Option, some, List, [], ◌∷◌, ◌++◌,
  arith, ◌==◌, ==_iff, ==_refl, Bool-cases,
}
use unix_backup_c.Dlist.{Ptr, null, Cell, Heap, write}

-- The nodes of a list in order: the address and the payload of each.
abbrev pub Nodes {ℓ} : Type ℓ → Type ℓ
Nodes A = List (Ptr × A)

module _ {ℓ} {A : Type ℓ} where
  -- The address of the first node, or what stands behind an empty segment.
  abbrev pub first : Ptr → Nodes A → Ptr
  first after [] = after
  first after ((p, v) ∷ xs) = p

  -- The address of the last node, or what stands before an empty segment.
  abbrev pub last : Ptr → Nodes A → Ptr
  last before [] = before
  last before ((p, v) ∷ xs) = last p xs

  abbrev pub has : Ptr → Nodes A → Bool
  has q [] = false
  has q ((p, v) ∷ xs) = q == p || has q xs

  abbrev pub Distinct : Nodes A → Type 0
  Distinct [] = Unit
  Distinct ((p, v) ∷ xs) = (has p xs ≡ false) × Distinct xs

  abbrev pub cell : Ptr → Ptr → A → Cell A
  cell next prev v = record { next = next; prev = prev; value = v }

  abbrev pub Seg : Heap A → Ptr → Ptr → Nodes A → Type ℓ
  Seg h before after [] = Unit
  Seg h before after ((p, v) ∷ xs) =
      (p ≢ null) × (h p ≡ some (cell (first after xs) before v)) × Seg h p after xs

  -- The heaps agree but at the nodes.
  abbrev pub SameOutside : Nodes A → Heap A → Heap A → Type ℓ
  SameOutside xs h g = (q : Ptr) → has q xs ≡ false → g q ≡ h q

  pub has-append : (q : Ptr) (ys zs : Nodes A) → has q (ys ++ zs) ≡ (has q ys || has q zs)
  has-append q [] zs = refl
  has-append q ((p, v) ∷ ys) zs = ground (arith, has-append q ys zs)

  pub first-append :
      (after : Ptr) (ys zs : Nodes A) → first after (ys ++ zs) ≡ first (first after zs) ys
  first-append after [] zs = refl
  first-append after ((p, v) ∷ ys) zs = refl

  pub last-append :
      (before : Ptr) (ys zs : Nodes A) → last before (ys ++ zs) ≡ last (last before ys) zs
  last-append before [] zs = refl
  last-append before ((p, v) ∷ ys) zs = last-append p ys zs

  pub frame :
      (g h : Heap A) (before after : Ptr) (xs : Nodes A)
      → Seg h before after xs
      → ((q : Ptr) → has q xs ≡ true → g q ≡ h q)
      → Seg g before after xs
  frame g h before after [] s same = tt
  frame g h before after ((p, v) ∷ xs) (ne, e, s) same =
      (ne, same p (ground arith) ∙ e, frame g h p after xs s (λ q i. same q (ground arith)))

  pub frame-write :
      (h : Heap A) (before after : Ptr) (xs : Nodes A) (p : Ptr) (c : Option (Cell A))
      → Seg h before after xs
      → has p xs ≡ false
      → Seg (write h p c) before after xs
  frame-write h before after xs p c s out =
      frame (write h p c) h before after xs s (λ q i. ground arith)

  pub Seg-append :
      (h : Heap A) (before after : Ptr) (ys zs : Nodes A)
      → Seg h before (first after zs) ys
      → Seg h (last before ys) after zs
      → Seg h before after (ys ++ zs)
  Seg-append h before after [] zs s t = t
  Seg-append h before after ((p, v) ∷ ys) zs (ne, e, s) t =
      (ne, rw (first-append after ys zs) e, Seg-append h p after ys zs s t)

  pub Seg-split :
      (h : Heap A) (before after : Ptr) (ys zs : Nodes A)
      → Seg h before after (ys ++ zs)
      → Seg h before (first after zs) ys × Seg h (last before ys) after zs
  Seg-split h before after [] zs s = (tt, s)
  Seg-split h before after ((p, v) ∷ ys) zs (ne, e, s) =
      let (a, b) = Seg-split h p after ys zs s in ((ne, rw (first-append after ys zs) at e, a), b)

  pub Distinct-split :
      (ys zs : Nodes A)
      → Distinct (ys ++ zs)
      → Distinct ys × Distinct zs × ((q : Ptr) → has q ys ≡ true → has q zs ≡ false)
  Distinct-split [] zs d = (tt, d, λ q i. cc)
  Distinct-split ((p, v) ∷ ys) zs (out, d) =
      let (a, b, c) = Distinct-split ys zs d in
      ((ground (arith, has-append p ys zs), a), b, λ q i. ground (arith, has-append p ys zs, c q))

  pub Distinct-join :
      (ys zs : Nodes A)
      → Distinct ys
      → Distinct zs
      → ((q : Ptr) → has q ys ≡ true → has q zs ≡ false)
      → Distinct (ys ++ zs)
  Distinct-join [] zs a b c = b
  Distinct-join ((p, v) ∷ ys) zs (out, a) b c =
      (ground (arith, has-append p ys zs, c p), Distinct-join ys zs a b (λ q i. c q (ground arith)))

  pub has-last :
      (before : Ptr) (p : Ptr) (v : A) (xs : Nodes A)
      → has (last before ((p, v) ∷ xs)) ((p, v) ∷ xs) ≡ true
  has-last before p v [] = ground arith
  has-last before p v ((q, w) ∷ xs) = ground (arith, has-last p q w xs)

  -- What the last node holds.
  pub load-last :
      (h : Heap A) (before after p : Ptr) (v : A) (xs : Nodes A)
      → Seg h before after ((p, v) ∷ xs)
      → (last p xs ≢ null) × ((c : Cell A) × (h (last p xs) ≡ some c) × (c.next ≡ after))
  load-last h before after p v [] (ne, e, s) = (ne, (cell after before v, e, refl))
  load-last h before after p v ((q, w) ∷ xs) (ne, e, s) = load-last h p after q w xs s

  pub write_self : (h : Heap A) (p : Ptr) (c : Option (Cell A)) → write h p c p ≡ c
  write_self h p c = rw ==_refl

  pub write-other :
      (h : Heap A) (p q : Ptr) (c : Option (Cell A)) → (q == p) ≡ false → write h p c q ≡ h q
  write-other h p q c e = rw e

  pub differ : (p r : Ptr) (xs : Nodes A) → has p xs ≡ false → has r xs ≡ true → (p == r) ≡ false
  differ p r xs out i = elim (Bool-cases (p == r)) [
    | inl same ↦ absurd (ground (arith, ap (λ q. has q xs) ((==_iff p r).0 same)))
    | inr ne ↦ ne
  ]

  -- Writing `next` of the last node moves the end of the segment.
  pub relink-last :
      (h : Heap A) (before after after' p : Ptr) (v : A) (xs : Nodes A) (c : Cell A)
      → Seg h before after ((p, v) ∷ xs)
      → Distinct ((p, v) ∷ xs)
      → h (last p xs) ≡ some c
      → Seg (write h (last p xs) (some (record c { next = after' }))) before after' ((p, v) ∷ xs)
  relink-last h before after after' p v [] c (ne, e, s) d l = (ne, ground arith, tt)
  relink-last h before after after' p v ((q, w) ∷ xs) c (ne, e, s) (out, d) l = (
    ne,
    rw (differ p (last q xs) ((q, w) ∷ xs) out (has-last p q w xs)) e,
    relink-last h p after after' q w xs c s d l,
  )

  -- Writing `prev` of the first node moves the beginning.
  pub relink-first :
      (h : Heap A) (before before' after p : Ptr) (v : A) (xs : Nodes A) (c : Cell A)
      → Seg h before after ((p, v) ∷ xs)
      → Distinct ((p, v) ∷ xs)
      → h p ≡ some c
      → Seg (write h p (some (record c { prev = before' }))) before' after ((p, v) ∷ xs)
  relink-first h before before' after p v xs c (ne, e, s) (out, d) l =
      (ne, ground arith, frame-write h p after xs p _ s out)
