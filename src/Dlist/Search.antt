-- ===== src/Dlist/Search.antt =====
-- Searches and deletions by a test, and the removal of the head.
use unix_backup_c.Common.{
  ℕ, zero, suc, ◌+◌, ◌-◌, ◌<◌, ◌≡◌, refl, ap, ◌∙◌, ◌≢◌, inl, inr, Bool, true, false, ◌||◌, none,
  some, [], ◌∷◌, ◌++◌, arith, ◌==◌, ==_ne, ||_split, if◌then◌else◌, Bool-cases, length,
}
use mathlib.Core.Path.{sym, subst}
use unix_backup_c.Dlist.{
  load, write, pop_front, Ptr, null, Cell, Heap, Handle, write, load, find_from, find, delete_first,
  pop_front,
}
use unix_backup_c.Dlist.Access.{set_prev_known, free_known, load_known, set_prev_known, free_known}
use unix_backup_c.Dlist.Seg.{
  Seg-split, relink-first, frame-write, write_self, write-other, cell, Nodes, first, has, Seg,
  SameOutside, cell, relink-first, frame-write, Seg-split, write_self, write-other,
}
use unix_backup_c.Dlist.Repr.{IsList}
use unix_backup_c.Dlist.Insert.{Ends}
use unix_backup_c.Dlist.Unlink.{Removed, unlink-remove}

module _ {ℓ} {A : Type ℓ} (test : A → Bool) where
  -- The address of the first node that passes, or NULL.
  abbrev pub first_match : Nodes A → Ptr
  first_match [] = null
  first_match ((p, v) ∷ xs) = if test v then p else first_match xs

  abbrev pub any : Nodes A → Bool
  any [] = false
  any ((p, v) ∷ xs) = test v || any xs

  -- The list without the first node that passes.
  abbrev pub remove_first : Nodes A → Nodes A
  remove_first [] = []
  remove_first ((p, v) ∷ xs) = if test v then xs else (p, v) ∷ remove_first xs

  find_step :
      (fuel : ℕ) (p : Ptr) (h : Heap A) (c : Cell A)
      → p ≢ null
      → load p h ≡ some c
      → find_from (suc fuel) test p h
        ≡ (if test c.value then some p else find_from fuel test c.next h)
  unfolding find_from
  find_step fuel p h c ne e = ground arith

  find_from-first_match :
      (fuel : ℕ) (h : Heap A) (before : Ptr) (xs : Nodes A)
      → Seg h before null xs
      → length xs < fuel
      → find_from fuel test (first null xs) h ≡ some (first_match xs)
  unfolding find_from
  find_from-first_match zero h before xs s f = absurd (omega arith)
  find_from-first_match (suc fuel) h before [] s f = refl
  find_from-first_match (suc fuel) h before ((p, v) ∷ xs) (ne, e, s) f =
      find_step fuel p h _ ne (load_known p h _ ne e) ∙ elim (Bool-cases (test v)) [
        | inl pass ↦ rw pass refl
        | inr fail ↦ rw fail (find_from-first_match fuel h p xs s (omega arith))
      ]

  -- The search by a test returns the first node that passes it, or NULL if there is none.
  pub find-first_match :
      (h : Heap A) (l : Handle) (xs : Nodes A)
      → IsList h l xs
      → find test l h ≡ some (first_match xs)
  unfolding find
  find-first_match h l xs is =
      rw is.head (find_from-first_match (l.size + 1) h null xs is.chain (omega (arith, is.size)))

  -- What stands around the first node that passes.
  split_at_match :
      (xs : Nodes A)
      → any xs ≡ true
      → (ys : Nodes A) × (p : Ptr) × (v : A) × (zs : Nodes A) × (xs ≡ ys ++ ((p, v) ∷ zs))
        × (remove_first xs ≡ ys ++ zs)
        × (first_match xs ≡ p)
        × (test v ≡ true)
  split_at_match [] h = cc
  split_at_match ((p, v) ∷ xs) h = elim (Bool-cases (test v)) [
    | inl pass ↦ ([], p, v, xs, refl, rw pass, rw pass, pass)
    | inr fail ↦
        let (ys, q, w, zs, a, b, c, d) = split_at_match xs (rw fail at h) in
        (
          (p, v) ∷ ys,
          q,
          w,
          zs,
          ap (λ l. (p, v) ∷ l) a,
          rw fail (ap (λ l. (p, v) ∷ l) b),
          rw fail c,
          d,
        )
  ]

  none_match : (xs : Nodes A) → any xs ≡ false → (first_match xs ≡ null) × (remove_first xs ≡ xs)
  none_match [] h = (refl, refl)
  none_match ((p, v) ∷ xs) h =
      let (fail, rest) = ||_split (test v) (any xs) h in
      let (a, b) = none_match xs rest in (rw fail a, rw fail (ap (λ l. (p, v) ∷ l) b))

  -- A deletion by a test ends without a fault. It says whether a node passes the test; the first
  -- such node is taken out and freed, the others stay in order, and nothing outside the list is
  -- written.
  pub delete_first-remove_first :
      (h : Heap A) (l : Handle) (xs : Nodes A)
      → IsList h l xs
      → (l' : Handle) × (g : Heap A) × (delete_first test l h ≡ some (any xs, l', g))
        × IsList g l' (remove_first xs)
        × SameOutside xs h g
        × (any xs ≡ true → g (first_match xs) ≡ none)
  unfolding delete_first
  delete_first-remove_first h l xs is = elim (Bool-cases (any xs)) [
    | inl some_pass ↦
        let (ys, p, v, zs, whole, rest, at, pass) = split_at_match xs some_pass in
        let is' : IsList h l (ys ++ ((p, v) ∷ zs)) = subst (λ l'. IsList h l l') whole is in
        let (s, t) = Seg-split h null null ys ((p, v) ∷ zs) is'.chain in
        let (l', g, e, done) = unlink-remove p v ys zs l h is' in
        let (is'', gone, same) = done in
        (
          l',
          g,
          rw (find-first_match h l xs is, at, ==_ne p null t.0, e, some_pass) refl,
          rw rest is'',
          subst (λ ws. SameOutside ws h g) (sym whole) same,
          λ _. rw at gone,
        )
    | inr none_pass ↦
        let (missing, whole) = none_match xs none_pass in
        (
          l,
          h,
          rw (find-first_match h l xs is, missing, none_pass) refl,
          rw whole is,
          λ q o. refl,
          λ y. cc,
        )
  ]

module _ {ℓ} {A : Type ℓ} where
  -- On an empty list the removal of the head changes nothing.
  pub pop_front-nil : (h : Heap A) (l : Handle) → IsList h l [] → pop_front l h ≡ some (l, h)
  unfolding pop_front
  pop_front-nil h l is = rw is.head refl

  -- Of a list that is not empty, the removal of the head ends without a fault, with the rest of the
  -- list; the first node is freed, and nothing outside the list is written.
  pub pop_front-cons :
      (h : Heap A) (l : Handle) (p : Ptr) (v : A) (xs : Nodes A)
      → IsList h l ((p, v) ∷ xs)
      → Ends (pop_front l h) (Removed p h ((p, v) ∷ xs) xs)
  unfolding pop_front
  pop_front-cons h l p v [] is =
      let (ne, e, _) = is.chain in
      (
        record { head = null; tail = null; size = l.size - 1 },
        write h p none,
        rw (is.head, ==_ne p null ne, load_known p h _ ne e, free_known p h _ ne e) refl,
        (
          record {
            head = refl;
            tail = refl;
            size = omega (arith, is.size);
            chain = tt;
            distinct = tt;
          },
          write_self h p none,
          λ q o. write-other h p q none (||_split (q == p) false o).0,
        ),
      )
  pop_front-cons h l p v ((q, w) ∷ xs) is =
      let (ne, e, s) = is.chain in
      let (out, d) = is.distinct in
      let c = cell (first null xs) p w in
      let h1 : Heap A = write h q (some (record c { prev = null })) in
      let at : h1 p ≡ some (cell q null v) =
        write-other h q p _ (||_split (p == q) (has p xs) out).0 ∙ e in
      (
        record { head = q; tail = l.tail; size = l.size - 1 },
        write h1 p none,
        rw
            (
              is.head,
              ==_ne p null ne,
              load_known p h _ ne e,
              ==_ne q null s.0,
              set_prev_known q h c s.0 s.1 null,
              free_known p h1 _ ne at,
            )
            refl,
        (
          record {
            head = refl;
            tail = is.tail;
            size = omega (arith, is.size);
            chain =
                frame-write h1 null null ((q, w) ∷ xs) p none
                  (relink-first h p null null q w xs c s d s.1) out;
            distinct = d;
          },
          write_self h1 p none,
          λ r o.
              let (a, b) = ||_split (r == p) (has r ((q, w) ∷ xs)) o in
              write-other h1 p r none a ∙ write-other h q r _ (||_split (r == q) (has r xs) b).0,
        ),
      )
