-- ===== src/Child/Confined/Dict.antt =====
-- The operations of src/list_move_events.c change nothing outside the target, where the dictionary
-- holds paths of the source.
use unix_backup_c.Common.{
  ℕ, sym, inl, inr, Bool, true, false, Option, none, some, List, [], ◌∷◌, ◌++◌, ◌==◌, ◌>>=◌,
  if◌then◌else◌, Bool-cases, Option-cases, All, All-append,
}
use unix_backup_c.Common.Bytes.{Bytes}
use mathlib.Core.List.{append-nil}
use unix_backup_c.Child.Confined.Moves.{
  KnownWithin, IsMove, match_node-IsMove, new_move-IsMove, suffix-IsBoundary,
}
use unix_backup_c.Types.{Move}
use unix_backup_c.Paths.{concat, get_end_suffix}
use unix_backup_c.Paths.Inside.{Within}
use unix_backup_c.Child.Files.{Files}
use unix_backup_c.Child.Folders.{Pair, Env}
use unix_backup_c.Child.Moves.{
  match_all, completed_move, expired_move, expired_to, expired_from, add_move_event, is_expired,
  is_complete, match_node, new_move, check_move_events_list,
}
use unix_backup_c.Child.Confined.{IsConfined, Good, GoodResult, world_then, dest_of-Within}
use unix_backup_c.Child.Confined.Walks.{new_folder_init-Sound}

module _ (files : Files) (pair : Pair) (Inv : files.World → Type 0)
    (confined : IsConfined files pair Inv) where
  abbrev Sound : Env files → Type 0
  Sound = Good files pair Inv

  abbrev SoundResult : Option (Env files) → Type 0
  SoundResult = GoodResult files pair Inv

  abbrev Moves : List Move → Type 0
  Moves = All (IsMove pair.source_full)

  -- The path in the target for a destination, which is the target itself for one that is not known.
  dest_of_known :
      (to : Option Bytes)
      → KnownWithin pair.source_full to
      → Within pair.target_full
          (concat (some pair.target_full) (get_end_suffix (some pair.source_full) to))
  unfolding concat get_end_suffix
  dest_of_known none k = ([], sym (append-nil pair.target_full), tt)
  dest_of_known (some path) k = dest_of-Within pair path k

  completed_move-Sound :
      (m : Move) (env : Env files)
      → IsMove pair.source_full m
      → Sound env
      → SoundResult (completed_move files pair m env)
  unfolding completed_move
  completed_move-Sound m (w, ws) (from, to) (i, sound) =
      elim (Option-cases (get_end_suffix (some pair.source_full) m.move_from)) [
        | inl missing ↦ rw (missing, SoundResult, GoodResult) (i, sound)
        | inr (rest, suffix) ↦
            rw (suffix, SoundResult, GoodResult)
              (world_then files pair Inv ws _ sound (λ w' moved.
                confined.move_all_keeps _ rest w w' (dest_of_known m.move_to to)
                  (suffix-IsBoundary pair.source_full m.move_from rest from suffix) i moved))
      ]

  expired_move-Sound :
      (from to : Option Bytes) (env : Env files)
      → KnownWithin pair.source_full from
      → KnownWithin pair.source_full to
      → Sound env
      → SoundResult (expired_move files pair from to env)
  unfolding expired_move expired_to expired_from
  expired_move-Sound none none env h k g = g
  expired_move-Sound (some from) (some to) env h k g = g
  expired_move-Sound (some from) none (w, ws) h k (i, sound) =
      world_then files pair Inv ws _ sound
        (λ w' gone. confined.delete_multi_keeps _ w w' (dest_of-Within pair from h) i gone)
  expired_move-Sound none (some to) (w, ws) h k (i, sound) =
      elim (Option-cases (files.lstat_is_dir to w)) [
        | inl gone ↦ rw (gone, SoundResult, GoodResult) (i, sound)
        | inr (true, dir) ↦
            rw (dir, SoundResult, GoodResult)
              (new_folder_init-Sound files pair Inv confined to (w, ws) k (i, sound))
        | inr (false, file) ↦
            rw (file, SoundResult, GoodResult)
              (world_then files pair Inv ws _ sound (λ w' copied.
                confined.copy_files_keeps _ to w w' (dest_of-Within pair to k) i copied))
      ]

  -- The same for a walk over the dictionary, and for the moves that it leaves.
  abbrev SoundWalk : Option (Bool × List Move × Env files) → Type 0
  SoundWalk none = Unit
  SoundWalk (some r) = Moves r.1 × Sound r.2

  then_walk :
      (m : Option (Env files)) (f : Env files → Option (Bool × List Move × Env files))
      → SoundResult m
      → ((e : Env files) → Sound e → SoundWalk (f e))
      → SoundWalk (m >>= f)
  then_walk none f g h = tt
  then_walk (some e) f g h = h e g

  walk_found :
      (m : Option (Bool × List Move × Env files))
      → SoundWalk m
      → SoundWalk (m >>= λ r. some (true, r.1, r.2))
  walk_found none g = tt
  walk_found (some r) g = g

  walk_entry :
      (v : Move) (m : Option (Bool × List Move × Env files)) (f : Bool → Bool)
      → IsMove pair.source_full v
      → SoundWalk m
      → SoundWalk (m >>= λ r. some (f r.0, v ∷ r.1, r.2))
  walk_entry v none f is g = tt
  walk_entry v (some r) f is g = ((is, g.0), g.1)

  match_all-Sound :
      (cookie : ℕ) (is_from : Bool) (path : Bytes) (now : ℕ) (ms : List Move) (env : Env files)
      → Within pair.source_full path
      → Moves ms
      → Sound env
      → SoundWalk (match_all files pair cookie is_from path now ms env)
  unfolding match_all
  match_all-Sound cookie is_from path now [] env h all g = (tt, g)
  match_all-Sound cookie is_from path now (m ∷ ms) env h (is, all) g =
      let new = match_node-IsMove pair.source_full is_from path now m h is in
      let ih : (e : Env files)
          → Sound e
          → SoundWalk (match_all files pair cookie is_from path now ms e) =
        λ e k. match_all-Sound cookie is_from path now ms e h all k in
      elim (Bool-cases (m.cookie == cookie)) [
        | inl same ↦ elim (Bool-cases (is_complete (match_node is_from path now m))) [
          | inl full ↦
              rw (same, full, match_all)
                (then_walk _ _ (completed_move-Sound (match_node is_from path now m) env new g)
                  (λ e k. walk_found _ (ih e k)))
          | inr part ↦
              rw (same, part, match_all)
                (walk_entry (match_node is_from path now m) _ (λ b. true) new (ih env g))
        ]
        | inr other ↦ elim (Bool-cases (is_expired now m)) [
          | inl old ↦
              rw (other, old, match_all)
                (then_walk _ _ (expired_move-Sound m.move_from m.move_to env is.0 is.1 g) ih)
          | inr young ↦ rw (other, young, match_all) (walk_entry m _ (λ b. b) is (ih env g))
        ]
      ]

  abbrev pub SoundDict : Option (List Move × Env files) → Type 0
  SoundDict none = Unit
  SoundDict (some r) = All (IsMove pair.source_full) r.0 × Good files pair Inv r.1

  added :
      (r : Option (Bool × List Move × Env files)) (m : Move)
      → IsMove pair.source_full m
      → SoundWalk r
      → SoundDict (
          r >>= λ (found, rest, env').
          if found then some (rest, env') else some (rest ++ (m ∷ []), env'))
  added none m is g = tt
  added (some (true, rest, env')) m is g = g
  added (some (false, rest, env')) m is (all, g) =
      (All-append (IsMove pair.source_full) rest (m ∷ []) all (is, tt), g)

  pub add_move_event-Sound :
      (cookie : ℕ) (is_from : Bool) (path : Bytes) (now : ℕ) (ms : List Move) (env : Env files)
      → Within pair.source_full path
      → Moves ms
      → Sound env
      → SoundDict (add_move_event files pair cookie is_from path now ms env)
  unfolding add_move_event
  add_move_event-Sound cookie is_from path now ms env h all g =
      added (match_all files pair cookie is_from path now ms env) (new_move cookie is_from path now)
        (new_move-IsMove pair.source_full cookie is_from path now h)
        (match_all-Sound cookie is_from path now ms env h all g)

  then_dict :
      (m : Option (Env files)) (f : Env files → Option (List Move × Env files))
      → SoundResult m
      → ((e : Env files) → Sound e → SoundDict (f e))
      → SoundDict (m >>= f)
  then_dict none f g h = tt
  then_dict (some e) f g h = h e g

  dict_entry :
      (v : Move) (m : Option (List Move × Env files))
      → IsMove pair.source_full v
      → SoundDict m
      → SoundDict (m >>= λ (rest, env'). some (v ∷ rest, env'))
  dict_entry v none is g = tt
  dict_entry v (some r) is g = ((is, g.0), g.1)

  pub check_move_events_list-Sound :
      (now : ℕ) (ms : List Move) (env : Env files)
      → Moves ms
      → Sound env
      → SoundDict (check_move_events_list files pair now ms env)
  unfolding check_move_events_list
  check_move_events_list-Sound now [] env all g = (tt, g)
  check_move_events_list-Sound now (m ∷ ms) env (is, all) g = elim (Bool-cases (is_expired now m)) [
    | inl old ↦
        rw (old, check_move_events_list)
          (then_dict _ _ (expired_move-Sound m.move_from m.move_to env is.0 is.1 g)
            (λ e k. check_move_events_list-Sound now ms e all k))
    | inr young ↦
        rw (young, check_move_events_list)
          (dict_entry m _ is (check_move_events_list-Sound now ms env all g))
  ]
