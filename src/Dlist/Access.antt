-- ===== src/Dlist/Access.antt =====
-- Reads and writes of a node that is allocated.
use unix_backup_c.Common.{◌≡◌, refl, ◌≢◌, none, some, ==_ne}
use unix_backup_c.Dlist.{Ptr, null, Cell, Heap, write, load, set_next, set_prev, free}

module _ {ℓ} {A : Type ℓ} (p : Ptr) (h : Heap A) (c : Cell A) (ne : p ≢ null)
    (e : h p ≡ some c) where
  pub load_known : load p h ≡ some c
  unfolding load
  load_known = rw (==_ne p null ne) e

  pub set_next_known : (q : Ptr) → set_next p q h ≡ some (write h p (some (record c { next = q })))
  unfolding set_next
  set_next_known q = rw (load_known) refl

  pub set_prev_known : (q : Ptr) → set_prev p q h ≡ some (write h p (some (record c { prev = q })))
  unfolding set_prev
  set_prev_known q = rw (load_known) refl

  pub free_known : free p h ≡ some (write h p none)
  unfolding free
  free_known = rw (load_known) refl
