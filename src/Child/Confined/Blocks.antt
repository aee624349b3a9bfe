-- ===== src/Child/Confined/Blocks.antt =====
-- The rounds of `event_handler` change nothing outside the target.
use unix_backup_c.Common.{
  ℕ, ◌≡◌, refl, inl, inr, Bool, true, false, Option, none, some, List, [], ◌∷◌, Bool-cases,
  Option-cases, length, All,
}
use unix_backup_c.Common.Bytes.{Bytes, str_eq}
use unix_backup_c.Counts.{All-delete}
use unix_backup_c.Child.Handler.{on_world, handle_event, event_handler, outside_source}
use unix_backup_c.Dlist.Refine.{find_first}
use unix_backup_c.Types.{Watch, Move, Event}
use unix_backup_c.Paths.{concat}
use unix_backup_c.Paths.Inside.{Within}
use unix_backup_c.Dlist.Refine.{delete}
use unix_backup_c.Watches.{has_wd}
use unix_backup_c.Events.Inside.{IsWatch, IsEvent}
use unix_backup_c.Outcome.{Outcome, ok, exited, fault, and_then}
use unix_backup_c.Child.Files.{Files}
use unix_backup_c.Child.Folders.{Pair, Env, new_folder_init}
use unix_backup_c.Child.Moves.{add_move_event}
use unix_backup_c.Child.Handler.{moved, ignored, blocks, State, block, create_dir, exit_if_source}
use unix_backup_c.Child.Confined.{IsConfined, GoodResult}
use unix_backup_c.Child.Confined.Walks.{new_folder_init-Sound}
use unix_backup_c.Child.Confined.Moves.{IsMove}
use unix_backup_c.Child.Confined.Dict.{SoundDict, add_move_event-Sound}

module _ (files : Files) (pair : Pair) (Inv : files.World → Type 0)
    (confined : IsConfined files pair Inv) where
  -- The files are as the property says, the watches are on directories of the source, and the
  -- dictionary holds paths of the source.
  pub record IsSafe (s : State files pair) : Type 0 where
    pub world : Inv s.world
    pub watchers : All (IsWatch pair.source_full) s.watchers
    pub mov_dict : All (IsMove pair.source_full) s.mov_dict

  abbrev pub SafeResult : Outcome (State files pair) → Type 0
  SafeResult (ok s) = IsSafe s
  SafeResult exited = Unit
  SafeResult fault = Unit

  pub and_then-Safe :
      (m : Outcome (State files pair)) (f : State files pair → Outcome (State files pair))
      → SafeResult m
      → ((s : State files pair) → IsSafe s → SafeResult (f s))
      → SafeResult (and_then m f)
  and_then-Safe (ok s) f h k = k s h
  and_then-Safe exited f h k = tt
  and_then-Safe fault f h k = tt

  block-Safe :
      (b : Bool) (w : Option Watch) (body : State files pair → Outcome (State files pair))
      (s : State files pair)
      → IsSafe s
      → SafeResult (body s)
      → SafeResult (block files pair b w body s)
  unfolding block
  block-Safe false w body s i h = i
  block-Safe true none body s i h = tt
  block-Safe true (some w) body s i h = h

  on_world-Safe :
      (f : files.World → Option files.World) (s : State files pair)
      → IsSafe s
      → ((w : files.World) → f s.world ≡ some w → Inv w)
      → SafeResult (on_world files pair f s)
  unfolding on_world
  on_world-Safe f s i h = elim (Option-cases (f s.world)) [
    | inl failed ↦ rw (failed, SafeResult) tt
    | inr (w, done) ↦
        rw (done, SafeResult)
          (record { world = h w done; watchers = i.watchers; mov_dict = i.mov_dict })
  ]

  exit_if_source-Safe :
      (e : Event) (s : State files pair) → IsSafe s → SafeResult (exit_if_source files pair e s)
  unfolding exit_if_source
  exit_if_source-Safe e s i = elim (Bool-cases (str_eq e.full_path pair.source_full)) [
    | inl root ↦
        rw (root, SafeResult)
          (record { world = i.world; watchers = i.watchers; mov_dict = i.mov_dict })
    | inr below ↦ rw (below, SafeResult) i
  ]

  created :
      (s : State files pair) (r : Option (Env files))
      → IsSafe s
      → GoodResult files pair Inv r
      → SafeResult
          (elim r [ none ↦ exited | some env ↦ ok (record s { world = env.0; watchers = env.1 }) ])
  created s none i g = tt
  created s (some env) i g = record { world = g.0; watchers = g.1; mov_dict = i.mov_dict }

  create_dir-Safe :
      (e : Event) (s : State files pair)
      → Within pair.source_full e.full_path
      → IsSafe s
      → SafeResult (create_dir files pair e s)
  unfolding create_dir
  create_dir-Safe e s h i =
      created s (new_folder_init files pair e.full_path (s.world, s.watchers)) i (
        new_folder_init-Sound files pair Inv confined e.full_path (s.world, s.watchers) h
          (i.world, i.watchers))

  moved_to :
      (s : State files pair) (r : Option (List Move × Env files))
      → SoundDict files pair Inv confined r
      → SafeResult (elim r [
        | none ↦ exited
        | some r ↦ ok (record s { mov_dict = r.0; world = r.1.0; watchers = r.1.1 })
      ])
  moved_to s none g = tt
  moved_to s (some r) g = record { world = g.1.0; watchers = g.1.1; mov_dict = g.0 }

  moved-Safe :
      (is_from : Bool) (now : ℕ) (e : Event) (s : State files pair)
      → Within pair.source_full e.full_path
      → IsSafe s
      → SafeResult (moved files pair is_from now e s)
  unfolding moved
  moved-Safe is_from now e s h i =
      moved_to s
        (add_move_event files pair e.cookie is_from e.full_path now s.mov_dict
          (s.world, s.watchers))
        (add_move_event-Sound files pair Inv confined e.cookie is_from e.full_path now s.mov_dict
          (s.world, s.watchers) h i.mov_dict (i.world, i.watchers))

  ignored-Safe : (e : Event) (s : State files pair) → IsSafe s → SafeResult (ignored files pair e s)
  unfolding ignored
  ignored-Safe e s i = record {
    world = i.world;
    watchers = All-delete (IsWatch pair.source_full) (has_wd e.wd) s.watchers i.watchers;
    mov_dict = i.mov_dict;
  }

  dest_in :
      (e : Event)
      → IsEvent pair.source_full e
      → Within pair.target_full (concat (some pair.target_full) (some e.suffix))
  unfolding concat
  dest_in e is = (e.suffix, refl, is.boundary)

  deleted :
      (dest : Bytes) (s : State files pair)
      → Within pair.target_full dest
      → IsSafe s
      → SafeResult (on_world files pair (files.delete_multi dest) s)
  deleted dest s there i =
      on_world-Safe (files.delete_multi dest) s i
        (λ w'. confined.delete_multi_keeps dest s.world w' there i.world)

  blocks-Safe :
      (now : ℕ) (e : Event) (w : Option Watch) (s : State files pair)
      → IsEvent pair.source_full e
      → IsSafe s
      → SafeResult (blocks files pair now e w s)
  unfolding blocks
  blocks-Safe now e w s is i =
      let dest = concat (some pair.target_full) (some e.suffix) in
      let here : Within pair.source_full e.full_path = (e.suffix, is.path, is.boundary) in
      let there = dest_in e is in
      and_then-Safe _ _ (block-Safe _ w _ s i (create_dir-Safe e s here i)) λ s i.
        and_then-Safe _ _
          (block-Safe _ w _ s i (
            on_world-Safe (files.create_empty_files dest e.full_path) s i
              (λ w'. confined.create_empty_files_keeps dest e.full_path s.world w' there i.world)))
          λ s i.
            and_then-Safe _ _
              (block-Safe _ w _ s i (
                on_world-Safe (files.copy_files dest pair.target_full e.full_path) s i
                  (λ w'. confined.copy_files_keeps dest e.full_path s.world w' there i.world)))
              λ s i. and_then-Safe _ _ (block-Safe _ w _ s i (deleted dest s there i)) λ s i.
                and_then-Safe _ _ (block-Safe _ w _ s i (moved-Safe true now e s here i)) λ s i.
                  and_then-Safe _ _ (block-Safe _ w _ s i (moved-Safe false now e s here i)) λ s i.
                    and_then-Safe _ _
                      (block-Safe _ w _ s i (
                        on_world-Safe (files.attribs dest e.full_path) s i
                          (λ w'. confined.attribs_keeps dest e.full_path s.world w' there i.world)))
                      λ s i.
                        and_then-Safe _ _
                          (block-Safe _ w _ s i
                            (and_then-Safe _ _ (deleted dest s there i) (exit_if_source-Safe e)))
                          λ s i.
                            and_then-Safe _ _ (block-Safe _ w _ s i (exit_if_source-Safe e s i))
                              λ s i. block-Safe _ w _ s i (ignored-Safe e s i)

  given_up :
      (w : Option Watch) (s : State files pair)
      → IsSafe s
      → SafeResult (elim w [
        | none ↦ fault
        | some v ↦ ok (record s {
          world = files.rm_watch v.wd s.world;
          watchers = delete (has_wd v.wd) s.watchers;
        })
      ])
  given_up none s i = tt
  given_up (some v) s i = record {
    world = confined.rm_watch_keeps v.wd s.world i.world;
    watchers = All-delete (IsWatch pair.source_full) (has_wd v.wd) s.watchers i.watchers;
    mov_dict = i.mov_dict;
  }

  handle_event-Safe :
      (now : ℕ) (e : Event) (s : State files pair)
      → IsEvent pair.source_full e
      → IsSafe s
      → SafeResult (handle_event files pair now e s)
  unfolding handle_event
  handle_event-Safe now e s is i = elim (Bool-cases (outside_source pair.source_full e.full_path)) [
    | inl outside ↦ rw (outside, SafeResult) (given_up (find_first (has_wd e.wd) s.watchers) s i)
    | inr inside ↦
        rw (inside, SafeResult) (blocks-Safe now e (find_first (has_wd e.wd) s.watchers) s is i)
  ]

  pub event_handler-Safe :
      (clock : ℕ → ℕ) (es : List Event) (s : State files pair)
      → All (IsEvent pair.source_full) es
      → IsSafe s
      → SafeResult (event_handler files pair clock es s)
  unfolding event_handler
  event_handler-Safe clock [] s inside i = i
  event_handler-Safe clock (e ∷ es) s (is, inside) i =
      and_then-Safe (handle_event files pair (clock (length es)) e s) _
        (handle_event-Safe (clock (length es)) e s is i)
        (λ s' i'. event_handler-Safe clock es s' inside i')
