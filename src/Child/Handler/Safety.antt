-- ===== src/Child/Handler/Safety.antt =====
-- The round of one event: no fault, and the watches that it leaves.
use unix_backup_c.Common.{
  ℕ, ◌≡◌, refl, ◌≢◌, inl, inr, Bool, true, false, Option, none, some, List, [], ◌∷◌, arith,
  Bool-cases, Option-cases,
}
use unix_backup_c.Common.Bytes.{str_eq}
use unix_backup_c.Events.Inside.{IsEvent}
use unix_backup_c.Child.Moves.{add_move_event}
use unix_backup_c.Child.Handler.Outside.{outside_source-IsEvent}
use unix_backup_c.Child.Handler.Grows.{GrowsDict, add_move_event-Grows}
use unix_backup_c.Paths.{concat}
use unix_backup_c.Types.{Move}
use unix_backup_c.Child.Handler.{bit, in_ignored, moved, ignored, blocks, handle_event}
use unix_backup_c.Types.{Watch, Event}
use unix_backup_c.Dlist.Refine.{exists, find_first, delete}
use unix_backup_c.Watches.{has_wd}
use unix_backup_c.Child.Files.{Files}
use unix_backup_c.Child.Folders.{Pair, Env, new_folder_init}
use unix_backup_c.Child.Handler.Grows.{Grows, Grows-refl, GrowsEnv, new_folder_init-Grows}
use unix_backup_c.Child.Handler.{State, block, on_world, create_dir, exit_if_source}
use unix_backup_c.Outcome.{Outcome, ok, exited, fault, and_then}

exists-delete :
    (wd old : ℕ) (ws : List Watch)
    → wd ≢ old
    → exists (has_wd wd) ws ≡ true
    → exists (has_wd wd) (delete (has_wd old) ws) ≡ true
exists-delete wd old [] ne h = h
exists-delete wd old (w ∷ ws) ne h = ground (arith, exists-delete wd old ws ne)

find_first-exists :
    (wd : ℕ) (ws : List Watch)
    → exists (has_wd wd) ws ≡ true
    → (w : Watch) × (find_first (has_wd wd) ws ≡ some w)
find_first-exists wd [] h = absurd (ground arith)
find_first-exists wd (w ∷ ws) h = elim (Bool-cases (has_wd wd w)) [
  | inl this ↦ (w, rw this refl)
  | inr other ↦ let (found, e) = find_first-exists wd ws (ground arith) in (found, rw other e)
]

-- What the round of an event leaves: every watch, but for that of an IN_IGNORED event.
abbrev pub Keeps : Event → List Watch → List Watch → Type 0
Keeps e ws ws' =
    (wd : ℕ)
    → exists (has_wd wd) ws ≡ true
    → (bit e.mask in_ignored ≡ true → wd ≢ e.wd)
    → exists (has_wd wd) ws' ≡ true

module _ (files : Files) (pair : Pair) where
  -- No fault, and the watches that are to stay.
  abbrev pub Safe : Event → List Watch → Outcome (State files pair) → Type 0
  Safe e ws (ok s) = Keeps e ws s.watchers
  Safe e ws exited = Unit
  Safe e ws fault = ⊥

  Safe-Grows :
      (e : Event) (ws : List Watch) (s : State files pair) → Grows ws s.watchers → Safe e ws (ok s)
  Safe-Grows e ws s g wd k stays = g wd k

  Safe-trans :
      (e : Event) (ws vs : List Watch) (r : Outcome (State files pair))
      → Keeps e ws vs
      → Safe e vs r
      → Safe e ws r
  Safe-trans e ws vs (ok s) k h = λ wd known stays. h wd (k wd known stays) stays
  Safe-trans e ws vs exited k h = tt
  Safe-trans e ws vs fault k h = h

  and_then-Safe :
      (e : Event) (ws : List Watch) (m : Outcome (State files pair))
      (f : State files pair → Outcome (State files pair))
      → Safe e ws m
      → ((s : State files pair) → Safe e s.watchers (f s))
      → Safe e ws (and_then m f)
  and_then-Safe e ws (ok s) f h g = Safe-trans e ws s.watchers (f s) h (g s)
  and_then-Safe e ws exited f h g = tt
  and_then-Safe e ws fault f h g = h

  block-Safe :
      (e : Event) (b : Bool) (w : Watch) (body : State files pair → Outcome (State files pair))
      (s : State files pair)
      → (b ≡ true → Safe e s.watchers (body s))
      → Safe e s.watchers (block files pair b (some w) body s)
  unfolding block
  block-Safe e true w body s h = h refl
  block-Safe e false w body s h = Safe-Grows e s.watchers s (Grows-refl s.watchers)

  on_world-Safe :
      (e : Event) (f : files.World → Option files.World) (s : State files pair)
      → Safe e s.watchers (on_world files pair f s)
  unfolding on_world
  on_world-Safe e f s = elim (Option-cases (f s.world)) [
    | inl failed ↦ rw (failed, Safe) tt
    | inr (w, done) ↦ rw (done, Safe) (Safe-Grows e s.watchers s (Grows-refl s.watchers))
  ]

  exit_if_source-Safe :
      (e : Event) (s : State files pair) → Safe e s.watchers (exit_if_source files pair e s)
  unfolding exit_if_source
  exit_if_source-Safe e s = elim (Bool-cases (str_eq e.full_path pair.source_full)) [
    | inl root ↦ rw (root, Safe) (Safe-Grows e s.watchers s (Grows-refl s.watchers))
    | inr below ↦ rw (below, Safe) (Safe-Grows e s.watchers s (Grows-refl s.watchers))
  ]

  created :
      (e : Event) (s : State files pair) (r : Option (Env files))
      → GrowsEnv files pair (s.world, s.watchers) r
      → Safe e s.watchers
          (elim r [ none ↦ exited | some env ↦ ok (record s { world = env.0; watchers = env.1 }) ])
  created e s none g = tt
  created e s (some env) g = λ wd k stays. g wd k

  create_dir-Safe :
      (e : Event) (s : State files pair) → Safe e s.watchers (create_dir files pair e s)
  unfolding create_dir
  create_dir-Safe e s =
      created e s (new_folder_init files pair e.full_path (s.world, s.watchers))
        (new_folder_init-Grows files pair e.full_path (s.world, s.watchers))

  moved_to :
      (e : Event) (s : State files pair) (r : Option (List Move × Env files))
      → GrowsDict files pair (s.world, s.watchers) r
      → Safe e s.watchers (elim r [
        | none ↦ exited
        | some r ↦ ok (record s { mov_dict = r.0; world = r.1.0; watchers = r.1.1 })
      ])
  moved_to e s none g = tt
  moved_to e s (some r) g = λ wd k stays. g wd k

  moved-Safe :
      (is_from : Bool) (now : ℕ) (e : Event) (s : State files pair)
      → Safe e s.watchers (moved files pair is_from now e s)
  unfolding moved
  moved-Safe is_from now e s =
      moved_to e s
        (add_move_event files pair e.cookie is_from e.full_path now s.mov_dict
          (s.world, s.watchers))
        (add_move_event-Grows files pair e.cookie is_from e.full_path now s.mov_dict
          (s.world, s.watchers))

  ignored-Safe :
      (e : Event) (s : State files pair)
      → bit e.mask in_ignored ≡ true
      → Safe e s.watchers (ignored files pair e s)
  unfolding ignored
  ignored-Safe e s is = λ wd k stays. exists-delete wd e.wd s.watchers (stays is) k

  blocks-Safe :
      (now : ℕ) (e : Event) (w : Watch) (s : State files pair)
      → Safe e s.watchers (blocks files pair now e (some w) s)
  unfolding blocks
  blocks-Safe now e w s =
      let dest = concat (some pair.target_full) (some e.suffix) in
      and_then-Safe e s.watchers _ _ (block-Safe e _ w _ s (λ h. create_dir-Safe e s)) λ s.
        and_then-Safe e s.watchers _ _
          (block-Safe e _ w _ s
            (λ h. on_world-Safe e (files.create_empty_files dest e.full_path) s))
          λ s.
            and_then-Safe e s.watchers _ _
              (block-Safe e _ w _ s
                (λ h. on_world-Safe e (files.copy_files dest pair.target_full e.full_path) s))
              λ s.
                and_then-Safe e s.watchers _ _
                  (block-Safe e _ w _ s (λ h. on_world-Safe e (files.delete_multi dest) s))
                  λ s.
                    and_then-Safe e s.watchers _ _
                      (block-Safe e _ w _ s (λ h. moved-Safe true now e s))
                      λ s.
                        and_then-Safe e s.watchers _ _
                          (block-Safe e _ w _ s (λ h. moved-Safe false now e s))
                          λ s.
                            and_then-Safe e s.watchers _ _
                              (block-Safe e _ w _ s
                                (λ h. on_world-Safe e (files.attribs dest e.full_path) s))
                              λ s.
                                and_then-Safe e s.watchers _ _
                                  (block-Safe e _ w _ s (λ h.
                                    and_then-Safe e s.watchers _ _
                                      (on_world-Safe e (files.delete_multi dest) s)
                                      (exit_if_source-Safe e)))
                                  λ s.
                                    and_then-Safe e s.watchers _ _
                                      (block-Safe e _ w _ s (λ h. exit_if_source-Safe e s))
                                      λ s. block-Safe e _ w _ s (ignored-Safe e s)

  pub handle_event-Safe :
      (now : ℕ) (e : Event) (s : State files pair)
      → IsEvent pair.source_full e
      → exists (has_wd e.wd) s.watchers ≡ true
      → Safe e s.watchers (handle_event files pair now e s)
  unfolding handle_event
  handle_event-Safe now e s is known =
      let (w, found) = find_first-exists e.wd s.watchers known in
      rw (outside_source-IsEvent pair.source_full e is, found) (blocks-Safe now e w s)
