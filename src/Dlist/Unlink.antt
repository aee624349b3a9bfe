-- ===== src/Dlist/Unlink.antt =====
-- `unlink` takes one node out of the list that a handle and a heap hold, and frees it.
use unix_backup_c.Common.{
  ◌+◌, ◌-◌, ◌≡◌, refl, sym, ◌∙◌, inl, inr, false, none, some, [], ◌∷◌, ◌++◌, arith, ◌==◌, ==_ne,
  ||_split, Bool-cases, length, length-append,
}
use mathlib.Core.List.{append-nil}
use unix_backup_c.Dlist.{
  unlink, Cell, append-nil, unlink_next, Ptr, null, Heap, Handle, write, unlink_prev,
}
use unix_backup_c.Dlist.Access.{load_known, free_known, set_prev_known, set_next_known}
use unix_backup_c.Dlist.Seg.{
  write_self, Seg-append, Seg-split, last-append, relink-first, Distinct-join, has-append, Nodes,
  first, last, has, Distinct, Distinct-split, Seg, SameOutside, cell, load-last, relink-last,
  frame-write, differ, has-last, write-other,
}
use unix_backup_c.Dlist.Repr.{IsList}
use unix_backup_c.Dlist.Insert.{Ends}

module _ {ℓ} {A : Type ℓ} where
  -- The state once the node before `p` points past it.
  PrevDone : Ptr → A → Nodes A → Nodes A → Handle → Heap A → Handle → Heap A → Type ℓ
  PrevDone p v ys zs l h l' g =
      Seg g null (first null zs) ys
      × Seg g (last null ys) null ((p, v) ∷ zs)
      × (l'.head ≡ first null (ys ++ zs))
      × (l'.tail ≡ l.tail)
      × (l'.size ≡ l.size)
      × SameOutside ys h g

  unlink_prev-PrevDone :
      (p : Ptr) (v : A) (ys zs : Nodes A) (l : Handle) (h : Heap A)
      → Seg h null p ys
      → Seg h (last null ys) null ((p, v) ∷ zs)
      → Distinct (ys ++ ((p, v) ∷ zs))
      → l.head ≡ first null (ys ++ ((p, v) ∷ zs))
      → Ends (unlink_prev (cell (first null zs) (last null ys) v) l h) (PrevDone p v ys zs l h)
  unfolding unlink_prev PrevDone
  unlink_prev-PrevDone p v [] zs l h s t d e =
      (record l { head = first null zs }, h, refl, (tt, t, refl, refl, refl, λ q o. refl))
  unlink_prev-PrevDone p v ((r, w) ∷ ys) zs l h s t d e =
      let (q≢null, (c, at, _)) = load-last h null p r w ys s in
      let q : Ptr = last r ys in
      let (dy, dz, apart) = Distinct-split ((r, w) ∷ ys) ((p, v) ∷ zs) d in
      let out : has q ((p, v) ∷ zs) ≡ false = apart q (has-last null r w ys) in
      (
        l,
        write h q (some (record c { next = first null zs })),
        rw (==_ne q null q≢null, set_next_known q h c q≢null at (first null zs)) refl,
        (
          relink-last h null p (first null zs) r w ys c s dy at,
          frame-write h q null ((p, v) ∷ zs) q _ t out,
          e,
          refl,
          refl,
          λ x o. write-other h q x _ (differ x q ((r, w) ∷ ys) o (has-last null r w ys)),
        ),
      )

  -- The state once the node behind `p` points before it too.
  NextDone : Ptr → Nodes A → Nodes A → Handle → Heap A → Handle → Heap A → Type ℓ
  NextDone p ys zs l h l' g =
      Seg g null (first null zs) ys
      × Seg g (last null ys) null zs
      × (l'.head ≡ l.head)
      × (l'.tail ≡ last null (ys ++ zs))
      × (l'.size ≡ l.size)
      × SameOutside zs h g

  unlink_next-NextDone :
      (p : Ptr) (v : A) (ys zs : Nodes A) (l : Handle) (h : Heap A)
      → Seg h null (first null zs) ys
      → Seg h p null zs
      → Distinct (ys ++ ((p, v) ∷ zs))
      → l.tail ≡ last null (ys ++ ((p, v) ∷ zs))
      → Ends (unlink_next (cell (first null zs) (last null ys) v) l h) (NextDone p ys zs l h)
  unfolding unlink_next NextDone
  unlink_next-NextDone p v ys [] l h s t d e = (
    record l { tail = last null ys },
    h,
    refl,
    (s, tt, refl, rw append-nil refl, refl, λ q o. refl),
  )
  unlink_next-NextDone p v ys ((q, w) ∷ zs) l h s (ne, at, t) d e =
      let (dy, dz, apart) = Distinct-split ys ((p, v) ∷ (q, w) ∷ zs) d in
      let c : Cell A = cell (first null zs) p w in
      (
        l,
        write h q (some (record c { prev = last null ys })),
        rw (==_ne q null ne, set_prev_known q h c ne at (last null ys)) refl,
        (
          frame-write h null q ys q _ s (elim (Bool-cases (has q ys)) [
            | inl i ↦ absurd (ground (arith, apart q i))
            | inr o ↦ o
          ]),
          relink-first h p (last null ys) null q w zs c (ne, at, t) dz.1 at,
          refl,
          e
              ∙ (last-append null ys ((p, v) ∷ (q, w) ∷ zs)
                  ∙ sym (last-append null ys ((q, w) ∷ zs))),
          refl,
          λ x o. write-other h q x _ (||_split (x == q) (has x zs) o).0,
        ),
      )

  -- What a deletion promises.
  abbrev pub Removed : Ptr → Heap A → Nodes A → Nodes A → Handle → Heap A → Type ℓ
  Removed p h xs xs' l g = IsList g l xs' × (g p ≡ none) × SameOutside xs h g

  Distinct-remove :
      (p : Ptr) (v : A) (ys zs : Nodes A)
      → Distinct (ys ++ ((p, v) ∷ zs))
      → Distinct (ys ++ zs) × (has p ys ≡ false) × (has p zs ≡ false)
  Distinct-remove p v ys zs d =
      let (dy, dz, apart) = Distinct-split ys ((p, v) ∷ zs) d in
      (
        Distinct-join ys zs dy dz.1 (λ q i. (||_split (q == p) (has q zs) (apart q i)).1),
        elim (Bool-cases (has p ys)) [ inl i ↦ absurd (ground (arith, apart p i)) | inr o ↦ o ],
        dz.0,
      )

  length-remove :
      (p : Ptr) (v : A) (ys zs : Nodes A) → length (ys ++ ((p, v) ∷ zs)) ≡ length (ys ++ zs) + 1
  length-remove p v ys zs = omega (arith, length-append ys ((p, v) ∷ zs), length-append ys zs)

  -- Of a node of the list, `unlink` ends without a fault, with the list that lacks this node and
  -- keeps the others in order; the node is freed, and nothing outside the list is written.
  pub unlink-remove :
      (p : Ptr) (v : A) (ys zs : Nodes A) (l : Handle) (h : Heap A)
      → IsList h l (ys ++ ((p, v) ∷ zs))
      → Ends (unlink p l h) (Removed p h (ys ++ ((p, v) ∷ zs)) (ys ++ zs))
  unfolding unlink PrevDone NextDone
  unlink-remove p v ys zs l h is =
      let (s, t) = Seg-split h null null ys ((p, v) ∷ zs) is.chain in
      let (d, outy, outz) = Distinct-remove p v ys zs is.distinct in
      let c : Cell A = cell (first null zs) (last null ys) v in
      let (l1, h1, e1, r1) = unlink_prev-PrevDone p v ys zs l h s t is.distinct is.head in
      let (s1, t1, hd1, tl1, sz1, same1) = r1 in
      let (l2, h2, e2, r2) =
        unlink_next-NextDone p v ys zs l1 h1 s1 t1.2 is.distinct (tl1 ∙ is.tail) in
      let (s2, t2, hd2, tl2, sz2, same2) = r2 in
      let at2 : h2 p ≡ some c = same2 p outz ∙ t1.1 in
      (
        record l2 { size = l2.size - 1 },
        write h2 p none,
        rw (load_known p h c t.0 t.1, e1, load_known p h1 c t.0 t1.1, e2, free_known p h2 c t.0 at2)
            refl,
        (
          record {
            head = hd2 ∙ hd1;
            tail = tl2;
            size = omega (arith, sz2, sz1, is.size, length-remove p v ys zs);
            chain =
                frame-write h2 null null (ys ++ zs) p none (Seg-append h2 null null ys zs s2 t2)
                  (rw (has-append, outy, outz) refl);
            distinct = d;
          },
          write_self h2 p none,
          λ q o.
              let (a, b) = ||_split (has q ys) (has q ((p, v) ∷ zs)) (rw has-append at o) in
              let (ne, b') = ||_split (q == p) (has q zs) b in
              write-other h2 p q none ne ∙ (same2 q b' ∙ same1 q a),
        ),
      )
