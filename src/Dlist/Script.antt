-- ===== src/Dlist/Script.antt =====
-- Any sequence of list operations from an empty list: no fault, and the list that the same
-- operations give on plain lists.
use unix_backup_c.Common.{
  ◌>>=◌, ℕ, ◌+◌, ◌≤◌, ◌<◌, ◌≡◌, refl, ◌∙◌, Bool, false, Option, none, some, List, [], ◌∷◌, ◌++◌,
  arith, ◌==◌, ==_ne,
}
use unix_backup_c.Dlist.{
  Ptr, null, Heap, Handle, empty, push_back, push_front, delete_first, pop_front,
}
use unix_backup_c.Dlist.Seg.{Nodes, SameOutside}
use unix_backup_c.Dlist.Repr.{IsList, IsList-empty, has_of_none}
use unix_backup_c.Dlist.Insert.{push_back-append, push_front-cons}
use unix_backup_c.Dlist.Search.{
  remove_first, delete_first-remove_first, pop_front-nil, pop_front-cons,
}
use unix_backup_c.Dlist.Refine.{
  Holds, payloads, delete, tail, payloads-append, payloads-remove_first,
}

-- The operations of the source files.
pub data Op (A : Type 0) : Type 0 where
  back : A → Op A
  front : A → Op A
  drop_first : (A → Bool) → Op A
  pop : Op A

pub record Store (A : Type 0) : Type 0 where
  pub handle : Handle
  pub heap : Heap A
  -- `malloc` gives this address next, and higher ones later
  pub brk : ℕ

module _ {A : Type 0} where
  step : Op A → Store A → Option (Handle × Heap A)
  step (back v) s = push_back s.brk v s.handle s.heap
  step (front v) s = push_front s.brk v s.handle s.heap
  step (drop_first test) s = do r ← delete_first test s.handle s.heap; some (r.1, r.2)
  step pop s = pop_front s.handle s.heap

  pub run : List (Op A) → Store A → Option (Store A)
  unfolding step
  run [] s = some s
  run (o ∷ os) s = do r ← step o s; run os (record { handle = r.0; heap = r.1; brk = s.brk + 1 })

  -- The same operation on a plain list.
  pub on_list : Op A → List A → List A
  on_list (back v) vs = vs ++ (v ∷ [])
  on_list (front v) vs = v ∷ vs
  on_list (drop_first test) vs = delete test vs
  on_list pop vs = tail vs

  pub on_lists : List (Op A) → List A → List A
  unfolding on_list
  on_lists [] vs = vs
  on_lists (o ∷ os) vs = on_lists os (on_list o vs)

  abbrev pub initial : Store A
  initial = record { handle = empty; heap = λ _. none; brk = 1 }

  -- The list is well formed and the memory from `brk` on is free.
  abbrev IsSound : Store A → Nodes A → Type 0
  IsSound s xs = IsList s.heap s.handle xs × ((q : Ptr) → s.brk ≤ q → s.heap q ≡ none) × (0 < s.brk)

  free_after :
      (h g : Heap A) (xs : Nodes A) (l : Handle) (q : Ptr)
      → IsList h l xs
      → SameOutside xs h g
      → h q ≡ none
      → g q ≡ none
  free_after h g xs l q is same e = same q (has_of_none h null null q xs is.chain e) ∙ e

  free_after_new :
      (h g : Heap A) (xs : Nodes A) (l : Handle) (n q : Ptr) (v : A)
      → IsList h l xs
      → SameOutside ((n, v) ∷ xs) h g
      → n + 1 ≤ q
      → ((r : Ptr) → n ≤ r → h r ≡ none)
      → g q ≡ none
  free_after_new h g xs l n q v is same le above =
      let e : h q ≡ none = above q (omega arith) in
      let ne : (q == n) ≡ false = ==_ne q n (omega arith) in
      same q (rw (ne, has_of_none h null null q xs is.chain e) refl) ∙ e

  -- One operation does not fault, and does on the nodes what it does on the payloads.
  abbrev Stepped : Op A → Store A → Nodes A → Type 0
  Stepped o s xs =
      (l : Handle) × (g : Heap A) × (ys : Nodes A) × (step o s ≡ some (l, g))
      × IsList g l ys
      × (payloads ys ≡ on_list o (payloads xs))
      × ((q : Ptr) → s.brk + 1 ≤ q → g q ≡ none)

  step-Stepped : (o : Op A) (s : Store A) (xs : Nodes A) → IsSound s xs → Stepped o s xs
  unfolding step on_list
  step-Stepped (back v) s xs (is, above, pos) =
      let (l, g, e, done) =
        push_back-append s.brk v s.handle s.heap xs (omega arith) (above s.brk (omega arith)) is in
      (
        l,
        g,
        xs ++ ((s.brk, v) ∷ []),
        e,
        done.0,
        payloads-append xs ((s.brk, v) ∷ []),
        λ q le. free_after_new s.heap g xs s.handle s.brk q v is done.1 le above,
      )
  step-Stepped (front v) s xs (is, above, pos) =
      let (l, g, e, done) =
        push_front-cons s.brk v s.handle s.heap xs (omega arith) (above s.brk (omega arith)) is in
      (
        l,
        g,
        (s.brk, v) ∷ xs,
        e,
        done.0,
        refl,
        λ q le. free_after_new s.heap g xs s.handle s.brk q v is done.1 le above,
      )
  step-Stepped (drop_first test) s xs (is, above, pos) =
      let (l, g, e, is', same, _) = delete_first-remove_first test s.heap s.handle xs is in
      (
        l,
        g,
        remove_first test xs,
        rw e refl,
        is',
        payloads-remove_first test xs,
        λ q le. free_after s.heap g xs s.handle q is same (above q (omega arith)),
      )
  step-Stepped pop s [] (is, above, pos) = (
    s.handle,
    s.heap,
    [],
    pop_front-nil s.heap s.handle is,
    is,
    refl,
    λ q le. above q (omega arith),
  )
  step-Stepped pop s ((p, v) ∷ xs) (is, above, pos) =
      let (l, g, e, done) = pop_front-cons s.heap s.handle p v xs is in
      (
        l,
        g,
        xs,
        e,
        done.0,
        refl,
        λ q le. free_after s.heap g ((p, v) ∷ xs) s.handle q is done.2 (above q (omega arith)),
      )

  run-on_lists_from :
      (os : List (Op A)) (s : Store A) (xs : Nodes A)
      → IsSound s xs
      → (t : Store A) × (run os s ≡ some t) × Holds t.heap t.handle (on_lists os (payloads xs))
  unfolding run on_lists
  run-on_lists_from [] s xs sound = (s, refl, (xs, sound.0, refl))
  run-on_lists_from (o ∷ os) s xs sound =
      let (l, g, ys, e, is, same, above) = step-Stepped o s xs sound in
      let (t, r, holds) =
        run-on_lists_from os (record { handle = l; heap = g; brk = s.brk + 1 }) ys
          (is, above, omega arith) in
      (t, rw e r, rw (← same) holds)

  -- Every sequence of operations on an initially empty list ends without a read or a write through
  -- NULL or freed memory, and leaves the list that the operations on plain lists give.
  pub run-on_lists :
      (os : List (Op A))
      → (t : Store A) × (run os initial ≡ some t) × Holds t.heap t.handle (on_lists os [])
  run-on_lists os = run-on_lists_from os initial [] (IsList-empty _, (λ q le. refl), omega arith)
