-- ===== src/Dlist/Refine.antt =====
-- The list of payloads that a handle and a heap stand for, and what each operation does to it: the
-- view by which the other modules work with plain lists.
use unix_backup_c.Common.{
  suc, ◌≡◌, refl, sym, ap, ◌∙◌, ◌≢◌, inl, inr, Bool, false, ◌||◌, Option, none, some, List, [], ◌∷◌,
  ◌++◌, arith, if◌then◌else◌, Bool-cases, Option-cases, length,
}
use unix_backup_c.Dlist.Access.{load_known}
use unix_backup_c.Dlist.Seg.{Seg}
use unix_backup_c.Dlist.{
  Cell, load, null, Ptr, null, Heap, Handle, push_back, push_front, find, load, delete_first,
  pop_front,
}
use unix_backup_c.Dlist.Access.{load_known}
use unix_backup_c.Dlist.Seg.{Nodes, Seg}
use unix_backup_c.Dlist.Repr.{IsList}
use unix_backup_c.Dlist.Insert.{Ends, push_back-append, push_front-cons}
use unix_backup_c.Dlist.Search.{
  first_match, any, remove_first, find-first_match, delete_first-remove_first, pop_front-nil,
  pop_front-cons,
}

module _ {ℓ} {A : Type ℓ} where
  abbrev pub payloads : Nodes A → List A
  payloads [] = []
  payloads ((p, v) ∷ xs) = v ∷ payloads xs

  -- The list that the handle and the heap stand for.
  abbrev pub Holds : Heap A → Handle → List A → Type ℓ
  Holds h l vs = (xs : Nodes A) × IsList h l xs × (payloads xs ≡ vs)

  -- The first element that passes a test.
  abbrev pub find_first : (A → Bool) → List A → Option A
  find_first test [] = none
  find_first test (v ∷ vs) = if test v then some v else find_first test vs

  abbrev pub exists : (A → Bool) → List A → Bool
  exists test [] = false
  exists test (v ∷ vs) = test v || exists test vs

  -- The list without the first element that passes.
  abbrev pub delete : (A → Bool) → List A → List A
  delete test [] = []
  delete test (v ∷ vs) = if test v then vs else v ∷ delete test vs

  abbrev pub tail : List A → List A
  tail [] = []
  tail (v ∷ vs) = vs

  pub payloads-append : (xs ys : Nodes A) → payloads (xs ++ ys) ≡ payloads xs ++ payloads ys
  payloads-append [] ys = refl
  payloads-append ((p, v) ∷ xs) ys = ap (λ l. v ∷ l) (payloads-append xs ys)

  pub payloads-remove_first :
      (test : A → Bool) (xs : Nodes A) → payloads (remove_first test xs) ≡ delete test (payloads xs)
  payloads-remove_first test [] = refl
  payloads-remove_first test ((p, v) ∷ xs) = ground (arith, payloads-remove_first test xs)

  any-payloads : (test : A → Bool) (xs : Nodes A) → any test xs ≡ exists test (payloads xs)
  any-payloads test [] = refl
  any-payloads test ((p, v) ∷ xs) = ground (arith, any-payloads test xs)

  length-payloads : (xs : Nodes A) → length (payloads xs) ≡ length xs
  length-payloads [] = refl
  length-payloads ((p, v) ∷ xs) = ap suc (length-payloads xs)

  -- The field `size` is the length of the list.
  pub size-Holds : (h : Heap A) (l : Handle) (vs : List A) → Holds h l vs → l.size ≡ length vs
  size-Holds h l vs (xs, is, e) = is.size ∙ (sym (length-payloads xs) ∙ ap length e)

  pub push_back-Holds :
      (fresh : Ptr) (v : A) (l : Handle) (h : Heap A) (vs : List A)
      → fresh ≢ null
      → h fresh ≡ none
      → Holds h l vs
      → Ends (push_back fresh v l h) (λ l' g. Holds g l' (vs ++ (v ∷ [])))
  push_back-Holds fresh v l h vs ne unused (xs, is, e) =
      let (l', g, run, done) = push_back-append fresh v l h xs ne unused is in
      (l', g, run, (xs ++ ((fresh, v) ∷ []), done.0, rw (payloads-append, e) refl))

  pub push_front-Holds :
      (fresh : Ptr) (v : A) (l : Handle) (h : Heap A) (vs : List A)
      → fresh ≢ null
      → h fresh ≡ none
      → Holds h l vs
      → Ends (push_front fresh v l h) (λ l' g. Holds g l' (v ∷ vs))
  push_front-Holds fresh v l h vs ne unused (xs, is, e) =
      let (l', g, run, done) = push_front-cons fresh v l h xs ne unused is in
      (l', g, run, ((fresh, v) ∷ xs, done.0, ap (λ ws. v ∷ ws) e))

  pub delete_first-Holds :
      (test : A → Bool) (l : Handle) (h : Heap A) (vs : List A)
      → Holds h l vs
      → (l' : Handle) × (g : Heap A) × (delete_first test l h ≡ some (exists test vs, l', g))
        × Holds g l' (delete test vs)
  delete_first-Holds test l h vs (xs, is, e) =
      let (l', g, run, is', _, _) = delete_first-remove_first test h l xs is in
      (
        l',
        g,
        rw (run, any-payloads, e) refl,
        (remove_first test xs, is', rw (payloads-remove_first, e) refl),
      )

  pub pop_front-Holds :
      (l : Handle) (h : Heap A) (vs : List A)
      → Holds h l vs
      → Ends (pop_front l h) (λ l' g. Holds g l' (tail vs))
  pop_front-Holds l h vs ([], is, e) = (l, h, pop_front-nil h l is, ([], is, rw (← e) refl))
  pop_front-Holds l h vs ((p, v) ∷ xs, is, e) =
      let (l', g, run, done) = pop_front-cons h l p v xs is in
      (l', g, run, (xs, done.0, rw (← e) refl))

  -- The payload at an address, none at NULL.
  abbrev pub payload : Ptr → Heap A → Option A
  payload p h = elim (load p h) [ none ↦ none | some c ↦ some c.value ]

  payload-null : (h : Heap A) → payload null h ≡ none
  unfolding load
  payload-null h = refl

  payload-first_match :
      (test : A → Bool) (h : Heap A) (before : Ptr) (xs : Nodes A)
      → Seg h before null xs
      → payload (first_match test xs) h ≡ find_first test (payloads xs)
  payload-first_match test h before [] s = payload-null h
  payload-first_match test h before ((p, v) ∷ xs) (ne, e, s) = elim (Bool-cases (test v)) [
    | inl pass ↦ rw pass (ground (arith, load_known p h _ ne e))
    | inr fail ↦ rw fail (payload-first_match test h p xs s)
  ]

  first_match-null :
      (test : A → Bool) (xs : Nodes A)
      → find_first test (payloads xs) ≡ none
      → first_match test xs ≡ null
  first_match-null test [] e = refl
  first_match-null test ((p, v) ∷ xs) e = ground (arith, first_match-null test xs)

  -- A search returns the address of the first element that passes, or NULL.
  pub find-Holds :
      (test : A → Bool) (l : Handle) (h : Heap A) (vs : List A)
      → Holds h l vs
      → (p : Ptr) × (find test l h ≡ some p)
        × (payload p h ≡ find_first test vs)
        × (find_first test vs ≡ none → p ≡ null)
  find-Holds test l h vs (xs, is, e) = (
    first_match test xs,
    find-first_match test h l xs is,
    payload-first_match test h null xs is.chain ∙ ap (find_first test) e,
    λ missing. first_match-null test xs (ap (find_first test) e ∙ missing),
  )

  -- An address with a payload is no NULL and can be read.
  pub load_of_payload :
      (p : Ptr) (h : Heap A) (v : A)
      → payload p h ≡ some v
      → (p ≢ null) × ((c : Cell A) × (load p h ≡ some c) × (c.value ≡ v))
  unfolding load
  load_of_payload p h v e = elim (Option-cases (load p h)) [
    | inl fault ↦ absurd (ground arith)
    | inr (c, at) ↦ (ground arith, (c, at, ground arith))
  ]
