-- ===== src/Dlist.antt =====
-- The doubly linked list that src/list_wd.c, list_inotify_events.c, list_move_events.c,
-- list_targets.c and list_sources.c each write out over their own `struct`: nodes with `next` and
-- `prev` on a heap, and a handle with `head`, `tail` and `size`. The payload type is a parameter.
-- A read or a write through NULL or through a freed node is `none`.
pub mod Access
pub mod Seg
pub mod Repr
pub mod Insert
pub mod Unlink
pub mod Search
pub mod Refine
pub mod Script
pub mod Free
use unix_backup_c.Common.{
  ◌>>=◌, ℕ, zero, suc, ◌+◌, ◌-◌, ◌*◌, ◌/◌, ◌%◌, ◌^◌, ◌≤◌, ◌<◌, ◌≡◌, refl, sym, ap, ◌∙◌, ◌≢◌, ◌↔◌,
  ◌⊎◌, inl, inr, Bool, true, false, not, ◌&&◌, ◌||◌, Option, none, some, List, [], ◌∷◌, ◌++◌, map,
  arith, ltb, leb, ◌==◌, ==_iff, ==_refl, if◌then◌else◌, Bool-cases, Option-cases, length,
  get_elem?, take, drop, length-append, length-drop, drop-length_plus, drop-plus, drop_of_length,
  take-append-drop, drop-length-append, All, All-append,
}
use unix_backup_c.Common.Bytes.{
  Bytes, bytes, char_at, str_eq, starts_with, str_eq_sound, str_eq_refl, starts_with-append,
  starts_with_sound, char_at-length-append,
}
use mathlib.Core.List.{append-nil, append_assoc}
use mathlib.Core.Path.{subst}

abbrev pub Ptr : Type 0
Ptr = ℕ

abbrev pub null : Ptr
null = 0

pub record Cell {ℓ} (A : Type ℓ) : Type ℓ where
  pub next : Ptr
  pub prev : Ptr
  pub value : A

-- What is allocated; `none` is free memory.
abbrev pub Heap {ℓ} : Type ℓ → Type ℓ
Heap A = Ptr → Option (Cell A)

-- `head`, `tail` and `size` of the list's `struct`.
pub record Handle : Type 0 where
  pub head : Ptr
  pub tail : Ptr
  pub size : ℕ

abbrev pub empty : Handle
empty = record { head = null; tail = null; size = 0 }

module _ {ℓ} {A : Type ℓ} where
  abbrev pub write : Heap A → Ptr → Option (Cell A) → Heap A
  write h p c q = if q == p then c else h q

  -- `*p`
  unfoldable pub load : Ptr → Heap A → Option (Cell A)
  load p h = if p == null then none else h p

  -- `p->next = q`, `p->prev = q` and `free(p)`
  unfoldable pub set_next : Ptr → Ptr → Heap A → Option (Heap A)
  unfolding load
  set_next p q h = do c ← load p h; some (write h p (some (record c { next = q })))

  unfoldable pub set_prev : Ptr → Ptr → Heap A → Option (Heap A)
  unfolding load
  set_prev p q h = do c ← load p h; some (write h p (some (record c { prev = q })))

  unfoldable pub free : Ptr → Heap A → Option (Heap A)
  unfolding load
  free p h = do c ← load p h; some (write h p none)

  -- The node `fresh` that `malloc` gave goes behind the tail.
  unfoldable pub push_back : Ptr → A → Handle → Heap A → Option (Handle × Heap A)
  push_back fresh v l h =
      let h' = write h fresh (some (record { next = null; prev = l.tail; value = v })) in
      if l.tail == null
      then some (record { head = fresh; tail = fresh; size = l.size + 1 }, h')
      else do
        h'' ← set_next l.tail fresh h'
        some (record l { tail = fresh; size = l.size + 1 }, h'')

  -- The node `fresh` goes before the head.
  unfoldable pub push_front : Ptr → A → Handle → Heap A → Option (Handle × Heap A)
  push_front fresh v l h =
      let h' = write h fresh (some (record { next = l.head; prev = null; value = v })) in
      if l.head == null
      then some (record { head = fresh; tail = fresh; size = l.size + 1 }, h')
      else do
        h'' ← set_prev l.head fresh h'
        some (record l { head = fresh; size = l.size + 1 }, h'')

  -- `if (cur->prev != NULL) cur->prev->next = cur->next; else l->head = cur->next;`
  unlink_prev : Cell A → Handle → Heap A → Option (Handle × Heap A)
  unlink_prev c l h =
      if c.prev == null
      then some (record l { head = c.next }, h)
      else do h' ← set_next c.prev c.next h; some (l, h')

  -- `if (cur->next != NULL) cur->next->prev = cur->prev; else l->tail = cur->prev;`
  unlink_next : Cell A → Handle → Heap A → Option (Handle × Heap A)
  unlink_next c l h =
      if c.next == null
      then some (record l { tail = c.prev }, h)
      else do h' ← set_prev c.next c.prev h; some (l, h')

  -- Takes the node `cur` out of the list and frees it.
  unfoldable pub unlink : Ptr → Handle → Heap A → Option (Handle × Heap A)
  unfolding unlink_prev unlink_next
  unlink cur l h = do
    c ← load cur h
    (l', h') ← unlink_prev c l h
    c' ← load cur h'
    (l'', h'') ← unlink_next c' l' h'
    h''' ← free cur h''
    some (record l'' { size = l''.size - 1 }, h''')

  -- `if (l->head != NULL) l->head->prev = NULL; else l->tail = NULL;`
  pop_relink : Handle → Heap A → Option (Handle × Heap A)
  pop_relink l h =
      if l.head == null
      then some (record l { tail = null }, h)
      else do h' ← set_prev l.head null h; some (l, h')

  -- `remove_inotify_event`: nothing on an empty list.
  unfoldable pub pop_front : Handle → Heap A → Option (Handle × Heap A)
  unfolding pop_relink
  pop_front l h = if l.head == null then some (l, h) else do
    c ← load l.head h
    (l', h') ← pop_relink (record l { head = c.next }) h
    h'' ← free l.head h'
    some (record l' { size = l'.size - 1 }, h'')

  -- The first node from `p` on that passes the test, or NULL; fuel for the nodes passed.
  unfoldable pub find_from : ℕ → (A → Bool) → Ptr → Heap A → Option Ptr
  find_from zero test p h = none
  find_from (suc fuel) test p h = elim (p == null) [
    | true ↦ some null
    | false ↦ do
      c ← load p h
      elim (test c.value) [ true ↦ some p | false ↦ find_from fuel test c.next h ]
  ]

  -- A search from the head; a list of `size` nodes needs `size + 1` rounds.
  unfoldable pub find : (A → Bool) → Handle → Heap A → Option Ptr
  unfolding find_from
  find test l h = find_from (l.size + 1) test l.head h

  -- `while (current != NULL) { if (test) { unlink; return; } current = current->next; }`: the
  -- answer says whether a node was deleted.
  unfoldable pub delete_first : (A → Bool) → Handle → Heap A → Option (Bool × Handle × Heap A)
  delete_first test l h = do
    p ← find test l h
    if p == null then some (false, l, h) else (unlink p l h >>= λ (l', h'). some (true, l', h'))

  -- `while (cur != NULL) { next = cur->next; free(cur); cur = next; }`: the number of nodes is
  -- fuel enough.
  unfoldable pub free_from : ℕ → Ptr → Heap A → Option (Heap A)
  free_from zero p h = if p == null then some h else none
  free_from (suc fuel) p h = elim (p == null) [
    | true ↦ some h
    | false ↦ do c ← load p h; h' ← free p h; free_from fuel c.next h'
  ]

  -- The loop from the head.
  unfoldable pub free_all : Handle → Heap A → Option (Heap A)
  unfolding free_from
  free_all l h = free_from l.size l.head h
