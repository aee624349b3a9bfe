-- ===== src/Dlist/Insert.antt =====
-- The two insertions: `push_back` appends to the list that a handle and a heap hold, `push_front`
-- puts in front.
use unix_backup_c.Dlist.{push_front, push_back, Ptr, null, Cell, Heap, Handle, write}
use unix_backup_c.Common.{
  ◌+◌, ◌≡◌, refl, sym, ap, ◌∙◌, ◌≢◌, inl, inr, false, Option, none, some, [], ◌∷◌, ◌++◌, arith,
  ◌==◌, ==_iff, ==_refl, ==_false_sym, ==_ne, ||_split, Bool-cases, length, length-append,
}
use unix_backup_c.Dlist.Access.{set_prev_known, set_next_known}
use unix_backup_c.Dlist.Seg.{
  relink-first, first, write_self, write-other, load-last, last-append, Distinct-join, Nodes, last,
  has, Distinct, Seg, SameOutside, cell, relink-last, frame-write, Seg-append, differ, has-last,
}
use unix_backup_c.Dlist.Repr.{IsList, has_of_none}

module _ {ℓ} {A : Type ℓ} where
  -- The run ends without a fault, in a state with the property.
  abbrev pub Ends : Option (Handle × Heap A) → (Handle → Heap A → Type ℓ) → Type ℓ
  Ends run P = (l : Handle) × (h : Heap A) × (run ≡ some (l, h)) × P l h

  -- What an insertion of a node promises.
  abbrev pub Inserted : Ptr → A → Heap A → Nodes A → Nodes A → Handle → Heap A → Type ℓ
  Inserted fresh v h xs xs' l g = IsList g l xs' × SameOutside ((fresh, v) ∷ xs) h g

  Seg-push_back :
      (h : Heap A) (fresh p : Ptr) (v w : A) (ys : Nodes A) (c : Cell A)
      → fresh ≢ null
      → has fresh ((p, w) ∷ ys) ≡ false
      → Seg h null null ((p, w) ∷ ys)
      → Distinct ((p, w) ∷ ys)
      → h (last p ys) ≡ some c
      → Seg
          (write
            (write h fresh (some (cell null (last p ys) v)))
            (last p ys)
            (some (record c { next = fresh })))
          null
          null
          ((p, w) ∷ ys ++ ((fresh, v) ∷ []))
  Seg-push_back h fresh p v w ys c ne out s d e =
      let h' : Heap A = write h fresh (some (cell null (last p ys) v)) in
      let apart : (fresh == last p ys) ≡ false =
        differ fresh (last p ys) ((p, w) ∷ ys) out (has-last null p w ys) in
      let apart' : (last p ys == fresh) ≡ false = ==_false_sym fresh (last p ys) apart in
      let s' : Seg h' null null ((p, w) ∷ ys) =
        frame-write h null null ((p, w) ∷ ys) fresh _ s out in
      Seg-append _ null null ((p, w) ∷ ys) ((fresh, v) ∷ [])
        (relink-last h' null null fresh p w ys c s' d (rw apart' e))
        (ne, rw apart (write_self h fresh _), tt)

  last-push : (p fresh : Ptr) (v w : A) (ys : Nodes A) → last p (ys ++ ((fresh, v) ∷ [])) ≡ fresh
  last-push p fresh v w ys = rw last-append

  length-push :
      (ys : Nodes A) (fresh : Ptr) (v : A) → length (ys ++ ((fresh, v) ∷ [])) ≡ length ys + 1
  length-push ys fresh v = omega (arith, length-append ys ((fresh, v) ∷ []))

  Distinct-push :
      (ys : Nodes A) (fresh : Ptr) (v : A)
      → Distinct ys
      → has fresh ys ≡ false
      → Distinct (ys ++ ((fresh, v) ∷ []))
  Distinct-push ys fresh v d out =
      Distinct-join ys ((fresh, v) ∷ []) d (refl, tt)
        (λ q i. elim (Bool-cases (q == fresh)) [
          | inl same ↦ absurd (ground (arith, ap (λ r. has r ys) ((==_iff q fresh).0 same)))
          | inr ne ↦ ground arith
        ])

  -- Given unused memory, `push_back` ends without a fault, with the list that has the new node
  -- behind the others, and writes at no other place than the list's nodes and the new one.
  pub push_back-append :
      (fresh : Ptr) (v : A) (l : Handle) (h : Heap A) (xs : Nodes A)
      → fresh ≢ null
      → h fresh ≡ none
      → IsList h l xs
      → Ends (push_back fresh v l h) (Inserted fresh v h xs (xs ++ ((fresh, v) ∷ [])))
  unfolding push_back
  push_back-append fresh v l h [] ne unused is = (
    record { head = fresh; tail = fresh; size = l.size + 1 },
    write h fresh (some (cell null l.tail v)),
    rw is.tail,
    (
      record {
        head = refl;
        tail = refl;
        size = omega (arith, is.size);
        chain = (ne, rw ==_refl (ap (λ t. some (cell null t v)) is.tail), tt);
        distinct = (refl, tt);
      },
      λ q o. ground arith,
    ),
  )
  push_back-append fresh v l h ((p, w) ∷ ys) ne unused is =
      let out : has fresh ((p, w) ∷ ys) ≡ false =
        has_of_none h null null fresh ((p, w) ∷ ys) is.chain unused in
      let (q≢null, (c, at, _)) = load-last h null null p w ys is.chain in
      let q : Ptr = last p ys in
      let h' : Heap A = write h fresh (some (cell null q v)) in
      let apart : (q == fresh) ≡ false =
        ==_false_sym fresh q (differ fresh q ((p, w) ∷ ys) out (has-last null p w ys)) in
      (
        record l { tail = fresh; size = l.size + 1 },
        write h' q (some (record c { next = fresh })),
        rw (is.tail, ==_ne q null q≢null, set_next_known q h' c q≢null (rw apart at) fresh) refl,
        (
          record {
            head = is.head;
            tail = sym (last-push p fresh v w ys);
            size = omega (arith, is.size, length-push ys fresh v);
            chain = Seg-push_back h fresh p v w ys c ne out is.chain is.distinct at;
            distinct = Distinct-push ((p, w) ∷ ys) fresh v is.distinct out;
          },
          λ r o.
              let (new, old) = ||_split (r == fresh) (has r ((p, w) ∷ ys)) o in
              write-other h' q r _ (differ r q ((p, w) ∷ ys) old (has-last null p w ys))
              ∙ write-other h fresh r _ new,
        ),
      )

  -- Given unused memory, `push_front` ends without a fault, with the list that has the new node
  -- before the others, and writes at no other place than the list's nodes and the new one.
  pub push_front-cons :
      (fresh : Ptr) (v : A) (l : Handle) (h : Heap A) (xs : Nodes A)
      → fresh ≢ null
      → h fresh ≡ none
      → IsList h l xs
      → Ends (push_front fresh v l h) (Inserted fresh v h xs ((fresh, v) ∷ xs))
  unfolding push_front
  push_front-cons fresh v l h [] ne unused is = (
    record { head = fresh; tail = fresh; size = l.size + 1 },
    write h fresh (some (cell l.head null v)),
    rw is.head,
    (
      record {
        head = refl;
        tail = refl;
        size = omega (arith, is.size);
        chain = (ne, rw ==_refl (ap (λ t. some (cell t null v)) is.head), tt);
        distinct = (refl, tt);
      },
      λ q o. ground arith,
    ),
  )
  push_front-cons fresh v l h ((p, w) ∷ ys) ne unused is =
      let out : has fresh ((p, w) ∷ ys) ≡ false =
        has_of_none h null null fresh ((p, w) ∷ ys) is.chain unused in
      let (new, old) = ||_split (fresh == p) (has fresh ys) out in
      let h' : Heap A = write h fresh (some (cell p null v)) in
      let apart : (p == fresh) ≡ false = ==_false_sym fresh p new in
      let c : Cell A = cell (first null ys) null w in
      let at : h' p ≡ some c = rw apart is.chain.1 in
      let s : Seg h' null null ((p, w) ∷ ys) =
        frame-write h null null ((p, w) ∷ ys) fresh _ is.chain out in
      (
        record l { head = fresh; size = l.size + 1 },
        write h' p (some (record c { prev = fresh })),
        rw (is.head, ==_ne p null is.chain.0, set_prev_known p h' c is.chain.0 at fresh) refl,
        (
          record {
            head = refl;
            tail = is.tail;
            size = omega (arith, is.size);
            chain = (
              ne,
              write-other h' p fresh _ new ∙ write_self h fresh _,
              relink-first h' null fresh null p w ys c s is.distinct at,
            );
            distinct = (out, is.distinct);
          },
          λ r o.
              let (a, b) = ||_split (r == fresh) (has r ((p, w) ∷ ys)) o in
              write-other h' p r _ (||_split (r == p) (has r ys) b).0 ∙ write-other h fresh r _ a,
        ),
      )
