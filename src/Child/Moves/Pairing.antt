-- ===== src/Child/Moves/Pairing.antt =====
-- The two events of a move within the source become one move in the target.
use unix_backup_c.Common.{
  ℕ, ◌≡◌, refl, sym, ap, ◌∙◌, inl, inr, Bool, true, false, Option, none, some, List, [], ◌∷◌, ◌++◌,
  arith, ◌==◌, ==_refl, ||_split, ◌>>=◌, Option-cases,
}
use unix_backup_c.Common.Bytes.{Bytes}
use mathlib.Core.List.{append-nil}
use unix_backup_c.Types.{Watch, Move}
use unix_backup_c.Paths.{concat}
use unix_backup_c.Paths.Suffix.{get_end_suffix-append}
use unix_backup_c.Child.Files.{Files}
use unix_backup_c.Child.Folders.{Pair, Env}
use unix_backup_c.Child.Moves.{completed_move, match_node, match_all, is_expired, add_move_event}
use unix_backup_c.Child.Moves.Pending.{has_cookie}

-- No entry has expired.
abbrev pub IsFresh : ℕ → List Move → Type 0
IsFresh now [] = Unit
IsFresh now (m ∷ ms) = (is_expired now m ≡ false) × IsFresh now ms

-- The first half of a move, as its event left it.
abbrev pub half_from : ℕ → Bytes → ℕ → Move
half_from cookie path time = record {
  cookie = cookie;
  move_from = some path;
  move_to = none;
  token = time;
}

-- The result of a walk with more entries kept in front.
abbrev prepend {ℓ} :
    {E : Type ℓ} → List Move → Option (Bool × List Move × E) → Option (Bool × List Move × E)
prepend pre none = none
prepend pre (some (found, rest, env)) = some (found, pre ++ rest, env)

prepend-nil {ℓ} : {E : Type ℓ} (r : Option (Bool × List Move × E)) → prepend [] r ≡ r
prepend-nil none = refl
prepend-nil (some (found, rest, env)) = refl

prepend-cons {ℓ} :
    {E : Type ℓ} (m : Move) (pre : List Move) (r : Option (Bool × List Move × E))
    → prepend (m ∷ []) (prepend pre r) ≡ prepend (m ∷ pre) r
prepend-cons m pre none = refl
prepend-cons m pre (some (found, rest, env)) = refl

module _ (files : Files) (pair : Pair) where
  match_all-kept :
      (cookie : ℕ) (is_from : Bool) (path : Bytes) (now : ℕ) (m : Move) (ms : List Move)
      (env : Env files)
      → (m.cookie == cookie) ≡ false
      → is_expired now m ≡ false
      → match_all files pair cookie is_from path now (m ∷ ms) env
        ≡ prepend (m ∷ []) (match_all files pair cookie is_from path now ms env)
  unfolding match_all
  match_all-kept cookie is_from path now m ms env other young =
      elim (Option-cases (match_all files pair cookie is_from path now ms env)) [
        | inl stop ↦ rw (other, young, stop, match_all) refl
        | inr (r, go_on) ↦ rw (other, young, go_on, match_all) refl
      ]

  -- Entries with other cookies that have not expired are passed over.
  match_all-append :
      (cookie : ℕ) (is_from : Bool) (path : Bytes) (now : ℕ) (pre ms : List Move) (env : Env files)
      → has_cookie cookie pre ≡ false
      → IsFresh now pre
      → match_all files pair cookie is_from path now (pre ++ ms) env
        ≡ prepend pre (match_all files pair cookie is_from path now ms env)
  match_all-append cookie is_from path now [] ms env h f = sym (prepend-nil _)
  match_all-append cookie is_from path now (m ∷ pre) ms env h (young, f) =
      let (other, h') = ||_split (m.cookie == cookie) (has_cookie cookie pre) h in
      match_all-kept cookie is_from path now m (pre ++ ms) env other young
      ∙ (ap (prepend (m ∷ [])) (match_all-append cookie is_from path now pre ms env h' f)
          ∙ prepend-cons m pre (match_all files pair cookie is_from path now ms env))

  match_all-nil :
      (cookie : ℕ) (is_from : Bool) (path : Bytes) (now : ℕ) (env : Env files)
      → match_all files pair cookie is_from path now [] env ≡ some (false, [], env)
  unfolding match_all
  match_all-nil cookie is_from path now env = refl

  match_all_untouched :
      (cookie : ℕ) (is_from : Bool) (path : Bytes) (now : ℕ) (ms : List Move) (env : Env files)
      → has_cookie cookie ms ≡ false
      → IsFresh now ms
      → match_all files pair cookie is_from path now ms env ≡ some (false, ms, env)
  match_all_untouched cookie is_from path now ms env h f =
      ap (λ l. match_all files pair cookie is_from path now l env) (sym (append-nil ms))
      ∙ (match_all-append cookie is_from path now ms [] env h f
          ∙ (ap (prepend ms) (match_all-nil cookie is_from path now env)
              ∙ ap (λ l. some (false, l, env)) (append-nil ms)))

  completed_move_in_source :
      (cookie time : ℕ) (a b : Bytes) (w : files.World) (ws : List Watch)
      → completed_move files pair
          (record {
            cookie = cookie;
            move_from = some (pair.source_full ++ a);
            move_to = some (pair.source_full ++ b);
            token = time;
          })
          (w, ws)
        ≡ (files.move_all (pair.target_full ++ b) pair.target_full a w >>= λ w'. some (w', ws))
  unfolding completed_move concat
  completed_move_in_source cookie time a b w ws =
      ground
        (arith, get_end_suffix-append pair.source_full a, get_end_suffix-append pair.source_full b)

  -- The walk at the entry with the cookie.
  match_all-half :
      (cookie time now : ℕ) (a b : Bytes) (post : List Move) (w : files.World) (ws : List Watch)
      → has_cookie cookie post ≡ false
      → IsFresh now post
      → match_all files pair cookie false
          (pair.source_full ++ b)
          now
          (half_from cookie (pair.source_full ++ a) time ∷ post)
          (w, ws)
        ≡ (files.move_all (pair.target_full ++ b) pair.target_full a w >>= λ w'.
            some (true, post, (w', ws)))
  unfolding match_all match_node
  match_all-half cookie time now a b post w ws hq fq =
      rw (==_refl, completed_move_in_source, match_all)
        (elim (Option-cases (files.move_all (pair.target_full ++ b) pair.target_full a w)) [
          | inl stop ↦ rw stop refl
          | inr (w', moved) ↦
              rw
                (
                  moved,
                  match_all_untouched cookie false (pair.source_full ++ b) now post (w', ws) hq fq,
                )
                refl
        ])

  -- Where the dictionary holds the first half of a move, no other entry has its cookie and no other
  -- has expired, the event for the second half moves, in the target, the path of the first to the
  -- path of the second, at whatever time it comes, and takes the entry out; all others stay.
  pub add_move_event-paired :
      (cookie time now : ℕ) (a b : Bytes) (pre post : List Move) (w : files.World) (ws : List Watch)
      → has_cookie cookie pre ≡ false
      → has_cookie cookie post ≡ false
      → IsFresh now pre
      → IsFresh now post
      → add_move_event files pair cookie false
          (pair.source_full ++ b)
          now
          (pre ++ (half_from cookie (pair.source_full ++ a) time ∷ post))
          (w, ws)
        ≡ (files.move_all (pair.target_full ++ b) pair.target_full a w >>= λ w'.
            some (pre ++ post, (w', ws)))
  unfolding add_move_event
  add_move_event-paired cookie time now a b pre post w ws hp hq fp fq =
      rw
        (
          match_all-append cookie false (pair.source_full ++ b) now pre _ (w, ws) hp fp,
          match_all-half cookie time now a b post w ws hq fq,
        )
        (elim (Option-cases (files.move_all (pair.target_full ++ b) pair.target_full a w)) [
          | inl stop ↦ rw stop refl
          | inr (w', moved) ↦ rw moved refl
        ])
