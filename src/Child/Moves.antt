-- ===== src/Child/Moves.antt =====
-- src/list_move_events.c: the dictionary that pairs the two events of a move by their cookie. The
-- nodes are deleted during the walk over the list, each after its `next` was read, so the walk is a
-- recursion on the list. The time of the call, in seconds, is an argument.
pub mod Pending
pub mod Dict
pub mod Pairing
use unix_backup_c.Common.{
  ℕ, zero, suc, ◌+◌, ◌-◌, ◌*◌, ◌/◌, ◌%◌, ◌^◌, ◌≤◌, ◌<◌, ◌≡◌, refl, sym, ap, ◌∙◌, ◌≢◌, ◌↔◌, ◌⊎◌, inl,
  inr, Bool, true, false, not, ◌&&◌, ◌||◌, Option, none, some, List, [], ◌∷◌, ◌++◌, map, arith, ltb,
  leb, ◌==◌, ==_iff, ==_refl, ==_false_sym, ==_ne, &&_split, ||_split, ◌>>=◌, >>=-eq-some, is_some,
  if◌then◌else◌, Bool-cases, Option-cases, length, get_elem?, take, drop, length-append,
  length-drop, drop-length_plus, drop-plus, drop_of_length, take-append-drop, drop-length-append,
  All, All-append,
}
use unix_backup_c.Common.Bytes.{
  Bytes, bytes, char_at, str_eq, starts_with, str_eq_sound, str_eq_refl, starts_with-append,
  starts_with_sound, char_at-length-append,
}
use mathlib.Core.List.{append-nil, append_assoc, map-append}
use mathlib.Core.Path.{subst}
use unix_backup_c.Types.{Watch, Move}
use unix_backup_c.Paths.{concat, get_end_suffix}
use unix_backup_c.Child.Files.{Files}
use unix_backup_c.Child.Folders.{Pair, Env, new_folder_init}

-- `MOV_TIME`, and `difftime(now, token) > MOV_TIME`
abbrev pub mov_time : ℕ
mov_time = 15

abbrev pub is_expired : ℕ → Move → Bool
is_expired now m = ltb (m.token + mov_time) now

-- `*target_field = strdup(path)` if it is NULL
abbrev pub fill : Bytes → Option Bytes → Option Bytes
fill path none = some path
fill path (some old) = some old

-- The node with the matching cookie after the assignment and the new token.
unfoldable pub match_node : Bool → Bytes → ℕ → Move → Move
match_node true path now m = record m { move_from = fill path m.move_from; token = now }
match_node false path now m = record m { move_to = fill path m.move_to; token = now }

-- The node of a half that is seen first.
unfoldable pub new_move : ℕ → Bool → Bytes → ℕ → Move
new_move cookie true path now = record {
  cookie = cookie;
  move_from = some path;
  move_to = none;
  token = now;
}
new_move cookie false path now = record {
  cookie = cookie;
  move_from = none;
  move_to = some path;
  token = now;
}

abbrev pub is_complete : Move → Bool
is_complete m = is_some m.move_from && is_some m.move_to

-- The path in the target for the suffix of a path in the source.
abbrev pub dest_of : Pair → Bytes → Bytes
dest_of pair path =
    concat (some pair.target_full) (get_end_suffix (some pair.source_full) (some path))

module _ (files : Files) (pair : Pair) where
  open files use {World, lstat_is_dir, copy_files, delete_multi, move_all}

  -- The file operation of a completed move; a suffix of NULL makes `move_all` return at once.
  unfoldable pub completed_move : Move → Env files → Option (Env files)
  completed_move m (w, ws) =
      let suf_to = get_end_suffix (some pair.source_full) m.move_to in
      elim (get_end_suffix (some pair.source_full) m.move_from) [
        | none ↦ some (w, ws)
        | some suf_from ↦ do
          w' ← move_all (concat (some pair.target_full) suf_to) pair.target_full suf_from w
          some (w', ws)
      ]

  -- A move into the source: nothing, if it is gone already; a copy of a file; a new folder.
  unfoldable pub expired_to : Bytes → Env files → Option (Env files)
  expired_to path (w, ws) = elim (lstat_is_dir path w) [
    | none ↦ some (w, ws)
    | some false ↦ do w' ← copy_files (dest_of pair path) pair.target_full path w; some (w', ws)
    | some true ↦ new_folder_init files pair path (w, ws)
  ]

  -- A move out of the source: the target's copy is deleted.
  unfoldable pub expired_from : Bytes → Env files → Option (Env files)
  expired_from path (w, ws) = do w' ← delete_multi (dest_of pair path) w; some (w', ws)

  -- The file operations of `handle_expired_node`.
  unfoldable pub expired_move : Option Bytes → Option Bytes → Env files → Option (Env files)
  expired_move none (some to) env = expired_to to env
  expired_move (some from) none env = expired_from from env
  expired_move none none env = some env
  expired_move (some from) (some to) env = some env

  -- The walk of `add_move_event`: the nodes that stay, and whether the cookie was found.
  unfoldable pub match_all :
      ℕ → Bool → Bytes → ℕ → List Move → Env files → Option (Bool × List Move × Env files)
  match_all cookie is_from path now [] env = some (false, [], env)
  match_all cookie is_from path now (m ∷ ms) env = elim (m.cookie == cookie) [
    | true ↦ elim (is_complete (match_node is_from path now m)) [
      | true ↦ do
        env' ← completed_move (match_node is_from path now m) env
        (_, rest, env'') ← match_all cookie is_from path now ms env'
        some (true, rest, env'')
      | false ↦ do
        (_, rest, env') ← match_all cookie is_from path now ms env
        some (true, match_node is_from path now m ∷ rest, env')
    ]
    | false ↦ elim (is_expired now m) [
      | true ↦ do
        env' ← expired_move m.move_from m.move_to env
        match_all cookie is_from path now ms env'
      | false ↦ do
        (found, rest, env') ← match_all cookie is_from path now ms env
        some (found, m ∷ rest, env')
    ]
  ]

  unfoldable pub add_move_event :
      ℕ → Bool → Bytes → ℕ → List Move → Env files → Option (List Move × Env files)
  add_move_event cookie is_from path now ms env = do
    (found, rest, env') ← match_all cookie is_from path now ms env
    if found
        then some (rest, env')
        else some (rest ++ (new_move cookie is_from path now ∷ []), env')

  unfoldable pub check_move_events_list : ℕ → List Move → Env files → Option (List Move × Env files)
  check_move_events_list now [] env = some ([], env)
  check_move_events_list now (m ∷ ms) env = elim (is_expired now m) [
    | true ↦ do env' ← expired_move m.move_from m.move_to env; check_move_events_list now ms env'
    | false ↦ do (rest, env') ← check_move_events_list now ms env; some (m ∷ rest, env')
  ]
