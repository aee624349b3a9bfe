-- ===== src/Child/Moves/Pending.antt =====
-- What the dictionary holds: halves of moves, one for each cookie.
use unix_backup_c.Common.{
  ℕ, ◌-◌, ◌≡◌, refl, sym, ap, ◌∙◌, inl, inr, Bool, true, false, not, ◌||◌, Option, none, some, List,
  [], ◌∷◌, arith, leb, ◌==◌, ◌>>=◌, >>=-eq-some, is_some, if◌then◌else◌, Bool-cases, All,
}
use unix_backup_c.Common.Bytes.{Bytes}
use mathlib.Core.Option.{some-injective}
use unix_backup_c.Types.{Move}
use unix_backup_c.Child.Files.{Files}
use unix_backup_c.Child.Folders.{Pair, Env}
use unix_backup_c.Child.Moves.{
  match_node, is_complete, is_expired, match_all, expired_move, completed_move,
  check_move_events_list,
}

-- The entries whose token is at most MOV_TIME = 15 seconds old, and the others.
abbrev pub young : ℕ → List Move → List Move
young now [] = []
young now (m ∷ ms) = let rest = young now ms in if leb (now - m.token) 15 then m ∷ rest else rest

abbrev pub old : ℕ → List Move → List Move
old now [] = []
old now (m ∷ ms) = let rest = old now ms in if leb (now - m.token) 15 then rest else m ∷ rest

young_or_old : (now : ℕ) (m : Move) → leb (now - m.token) 15 ≡ not (is_expired now m)
young_or_old now m = ground arith

-- One half of a move is known, and the other is not.
abbrev pub IsHalf : Move → Type 0
IsHalf m = (is_some m.move_from ≡ not (is_some m.move_to))

-- No other entry has the cookie.
abbrev pub has_cookie : ℕ → List Move → Bool
has_cookie c [] = false
has_cookie c (m ∷ ms) = m.cookie == c || has_cookie c ms

abbrev pub UniqueCookies : List Move → Type 0
UniqueCookies [] = Unit
UniqueCookies (m ∷ ms) = (has_cookie m.cookie ms ≡ false) × UniqueCookies ms

pub record IsDict (ms : List Move) : Type 0 where
  pub halves : All IsHalf ms
  pub unique : UniqueCookies ms

-- What `add_move_event` leaves of the entries: it completes or refreshes the one with the cookie
-- and drops the expired ones among the others.
abbrev pub after_match : ℕ → Bool → Bytes → ℕ → List Move → List Move
after_match cookie is_from path now [] = []
after_match cookie is_from path now (m ∷ ms) =
    let rest = after_match cookie is_from path now ms in
    let m' = match_node is_from path now m in
    if m.cookie == cookie
    then (if is_complete m' then rest else m' ∷ rest)
    else if is_expired now m
    then rest
    else m ∷ rest

module _ (files : Files) (pair : Pair) where
  -- The handling of the entries of a list, in order.
  abbrev pub expire_all : List Move → Env files → Option (Env files)
  expire_all [] env = some env
  expire_all (m ∷ ms) env =
      expired_move files pair m.move_from m.move_to env >>= (λ env'. expire_all ms env')

  -- The list that is left, with the environment, where there is one.
  abbrev pub with_list : List Move → Option (Env files) → Option (List Move × Env files)
  with_list ms none = none
  with_list ms (some env) = some (ms, env)

  with_list-step :
      (ms : List Move) (r : Option (Env files)) (f : Env files → Option (List Move × Env files))
      (h : Env files → Option (Env files))
      → ((env : Env files) → f env ≡ with_list ms (h env))
      → (r >>= f) ≡ with_list ms (r >>= h)
  with_list-step ms none f h e = refl
  with_list-step ms (some env) f h e = e env

  with_list-cons :
      (m : Move) (ms : List Move) (r : Option (Env files))
      → (with_list ms r >>= (λ (rest, env'). some (m ∷ rest, env'))) ≡ with_list (m ∷ ms) r
  with_list-cons m ms none = refl
  with_list-cons m ms (some env) = refl

  -- The check handles each entry whose token is more than 15 seconds old as one without its other
  -- half, in the order of the list, and leaves exactly the other entries, as they are and in order;
  -- it ends the process exactly where one of these handlings does.
  pub check_move_events_list-eq-expire_all :
      (now : ℕ) (ms : List Move) (env : Env files)
      → check_move_events_list files pair now ms env
        ≡ with_list (young now ms) (expire_all (old now ms) env)
  unfolding check_move_events_list
  check_move_events_list-eq-expire_all now [] env = refl
  check_move_events_list-eq-expire_all now (m ∷ ms) env = elim (Bool-cases (is_expired now m)) [
    | inl late ↦
        let same : leb (now - m.token) 15 ≡ false = young_or_old now m ∙ ap not late in
        rw (late, same, check_move_events_list)
          (with_list-step (young now ms) (expired_move files pair m.move_from m.move_to env) _
            (expire_all (old now ms)) (check_move_events_list-eq-expire_all now ms))
    | inr early ↦
        let same : leb (now - m.token) 15 ≡ true = young_or_old now m ∙ ap not early in
        rw (early, same, check_move_events_list)
          (ap (λ r. r >>= (λ (rest, env'). some (m ∷ rest, env')))
              (check_move_events_list-eq-expire_all now ms env)
            ∙ with_list-cons m (young now ms) (expire_all (old now ms) env))
  ]

  with_list-some :
      (ms ms' : List Move) (r : Option (Env files)) (env' : Env files)
      → with_list ms r ≡ some (ms', env')
      → ms' ≡ ms
  with_list-some ms ms' none env' e = absurd (cc)
  with_list-some ms ms' (some env) env' e = ap (λ p. p.0) (sym (some-injective _ _ e))

  pub check_move_events_list-young :
      (now : ℕ) (ms ms' : List Move) (env env' : Env files)
      → check_move_events_list files pair now ms env ≡ some (ms', env')
      → ms' ≡ young now ms
  check_move_events_list-young now ms ms' env env' e =
      with_list-some (young now ms) ms' (expire_all (old now ms) env) env'
        (sym (check_move_events_list-eq-expire_all now ms env) ∙ e)

  pub match_all-after_match :
      (cookie : ℕ) (is_from : Bool) (path : Bytes) (now : ℕ) (ms ms' : List Move) (found : Bool)
      (env env' : Env files)
      → match_all files pair cookie is_from path now ms env ≡ some (found, ms', env')
      → (ms' ≡ after_match cookie is_from path now ms) × (found ≡ has_cookie cookie ms)
  unfolding match_all
  match_all-after_match cookie is_from path now [] ms' found env env' e =
      let e' = some-injective _ _ e in (ap (λ p. p.1) (sym e'), ap (λ p. p.0) (sym e'))
  match_all-after_match cookie is_from path now (m ∷ ms) ms' found env env' e =
      let m' : Move = match_node is_from path now m in
      elim (Bool-cases (m.cookie == cookie)) [
        | inl same ↦ elim (Bool-cases (is_complete m')) [
          | inl full ↦
              let (env1, ran, rest) =
                >>=-eq-some (completed_move files pair m' env) _
                  (rw (same, full, match_all) at e) in
              let (r, walked, done) =
                >>=-eq-some (match_all files pair cookie is_from path now ms env1) _ rest in
              let (kept_ms, _) =
                match_all-after_match cookie is_from path now ms r.1 r.0 env1 r.2 walked in
              let d = some-injective _ _ done in
              (rw (same, full) (ap (λ p. p.1) (sym d) ∙ kept_ms), rw same (ap (λ p. p.0) (sym d)))
          | inr part ↦
              let (r, walked, done) =
                >>=-eq-some (match_all files pair cookie is_from path now ms env) _
                  (rw (same, part, match_all) at e) in
              let (kept_ms, _) =
                match_all-after_match cookie is_from path now ms r.1 r.0 env r.2 walked in
              let d = some-injective _ _ done in
              (
                rw (same, part) (ap (λ p. p.1) (sym d) ∙ ap (λ l. m' ∷ l) kept_ms),
                rw same (ap (λ p. p.0) (sym d)),
              )
        ]
        | inr other ↦ elim (Bool-cases (is_expired now m)) [
          | inl old ↦
              let (env1, ran, rest) =
                >>=-eq-some (expired_move files pair m.move_from m.move_to env) _
                  (rw (other, old, match_all) at e) in
              let (kept_ms, f) =
                match_all-after_match cookie is_from path now ms ms' found env1 env' rest in
              (rw (other, old) kept_ms, rw other f)
          | inr young ↦
              let (r, walked, done) =
                >>=-eq-some (match_all files pair cookie is_from path now ms env) _
                  (rw (other, young, match_all) at e) in
              let (kept_ms, f) =
                match_all-after_match cookie is_from path now ms r.1 r.0 env r.2 walked in
              let d = some-injective _ _ done in
              (
                rw (other, young) (ap (λ p. p.1) (sym d) ∙ ap (λ l. m ∷ l) kept_ms),
                rw other (ap (λ p. p.0) (sym d) ∙ f),
              )
        ]
      ]
