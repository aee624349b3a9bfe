-- ===== src/Child/Moves/Dict.antt =====
-- The dictionary stays one of halves, one for each cookie.
use unix_backup_c.Common.{
  ℕ, ◌-◌, ◌≡◌, refl, sym, ap, ◌∙◌, inl, inr, Bool, true, false, ◌||◌, some, List, [], ◌∷◌, ◌++◌,
  arith, leb, ◌==◌, ==_false_sym, ||_split, >>=-eq-some, Bool-cases,
}
use unix_backup_c.Common.Bytes.{Bytes}
use mathlib.Core.Path.{subst}
use unix_backup_c.Child.Moves.Pending.{young}
use mathlib.Core.Option.{some-injective}
use unix_backup_c.Types.{Move}
use unix_backup_c.Child.Files.{Files}
use unix_backup_c.Child.Folders.{Pair, Env}
use unix_backup_c.Child.Moves.{
  check_move_events_list, is_expired, match_node, new_move, is_complete, match_all, add_move_event,
}
use unix_backup_c.Child.Moves.Pending.{
  check_move_events_list-young, IsHalf, has_cookie, IsDict, after_match, match_all-after_match,
}

-- Entries keep their cookies, so none comes up twice.
has_cookie-after_match :
    (c cookie : ℕ) (is_from : Bool) (path : Bytes) (now : ℕ) (ms : List Move)
    → has_cookie c ms ≡ false
    → has_cookie c (after_match cookie is_from path now ms) ≡ false
unfolding match_node
has_cookie-after_match c cookie true path now [] h = refl
has_cookie-after_match c cookie false path now [] h = refl
has_cookie-after_match c cookie true path now (m ∷ ms) h =
    ground (arith, has_cookie-after_match c cookie true path now ms)
has_cookie-after_match c cookie false path now (m ∷ ms) h =
    ground (arith, has_cookie-after_match c cookie false path now ms)

match_node-IsHalf :
    (is_from : Bool) (path : Bytes) (now : ℕ) (m : Move)
    → IsHalf m
    → is_complete (match_node is_from path now m) ≡ false
    → IsHalf (match_node is_from path now m)
unfolding match_node
match_node-IsHalf true path now m h part = ground arith
match_node-IsHalf false path now m h part = ground arith

match_node-cookie :
    (is_from : Bool) (path : Bytes) (now : ℕ) (m : Move)
    → (match_node is_from path now m).cookie ≡ m.cookie
unfolding match_node
match_node-cookie true path now m = refl
match_node-cookie false path now m = refl

IsDict-cons :
    (m : Move) (ms : List Move)
    → IsHalf m
    → has_cookie m.cookie ms ≡ false
    → IsDict ms
    → IsDict (m ∷ ms)
IsDict-cons m ms half new d = record { halves = (half, d.halves); unique = (new, d.unique) }

IsDict-tail : (m : Move) (ms : List Move) → IsDict (m ∷ ms) → IsDict ms
IsDict-tail m ms d = record { halves = d.halves.1; unique = d.unique.1 }

after_match-IsDict :
    (cookie : ℕ) (is_from : Bool) (path : Bytes) (now : ℕ) (ms : List Move)
    → IsDict ms
    → IsDict (after_match cookie is_from path now ms)
after_match-IsDict cookie is_from path now [] d = d
after_match-IsDict cookie is_from path now (m ∷ ms) d =
    let ih = after_match-IsDict cookie is_from path now ms (IsDict-tail m ms d) in
    let new = has_cookie-after_match m.cookie cookie is_from path now ms d.unique.0 in
    elim (Bool-cases (m.cookie == cookie)) [
      | inl same ↦ elim (Bool-cases (is_complete (match_node is_from path now m))) [
        | inl full ↦ rw (same, full) ih
        | inr part ↦
            rw (same, part)
              (IsDict-cons (match_node is_from path now m) _
                (match_node-IsHalf is_from path now m d.halves.0 part) (rw match_node-cookie new)
                ih)
      ]
      | inr other ↦ elim (Bool-cases (is_expired now m)) [
        | inl old ↦ rw (other, old) ih
        | inr young ↦ rw (other, young) (IsDict-cons m _ d.halves.0 new ih)
      ]
    ]

has_cookie-append :
    (c : ℕ) (ms : List Move) (n : Move)
    → has_cookie c (ms ++ (n ∷ [])) ≡ (has_cookie c ms || n.cookie == c)
has_cookie-append c [] n = ground arith
has_cookie-append c (m ∷ ms) n = ground (arith, has_cookie-append c ms n)

append-IsDict :
    (ms : List Move) (n : Move)
    → IsDict ms
    → IsHalf n
    → has_cookie n.cookie ms ≡ false
    → IsDict (ms ++ (n ∷ []))
append-IsDict [] n d half new = IsDict-cons n [] half refl d
append-IsDict (m ∷ ms) n d half new =
    let (ne, new') = ||_split (m.cookie == n.cookie) (has_cookie n.cookie ms) new in
    IsDict-cons m (ms ++ (n ∷ [])) d.halves.0
      (rw (has_cookie-append, d.unique.0, ==_false_sym m.cookie n.cookie ne) refl)
      (append-IsDict ms n (IsDict-tail m ms d) half new')

new_move-IsHalf :
    (cookie : ℕ) (is_from : Bool) (path : Bytes) (now : ℕ)
    → IsHalf (new_move cookie is_from path now)
      × ((new_move cookie is_from path now).cookie ≡ cookie)
unfolding new_move
new_move-IsHalf cookie true path now = (refl, refl)
new_move-IsHalf cookie false path now = (refl, refl)

has_cookie-young :
    (c now : ℕ) (ms : List Move) → has_cookie c ms ≡ false → has_cookie c (young now ms) ≡ false
has_cookie-young c now [] h = refl
has_cookie-young c now (m ∷ ms) h = ground (arith, has_cookie-young c now ms)

young-IsDict : (now : ℕ) (ms : List Move) → IsDict ms → IsDict (young now ms)
young-IsDict now [] d = d
young-IsDict now (m ∷ ms) d =
    let ih = young-IsDict now ms (IsDict-tail m ms d) in
    elim (Bool-cases (leb (now - m.token) 15)) [
      | inr late ↦ rw late ih
      | inl early ↦
          rw early (IsDict-cons m _ d.halves.0 (has_cookie-young m.cookie now ms d.unique.0) ih)
    ]

module _ (files : Files) (pair : Pair) where
  -- A dictionary of halves, one for each cookie, is one again after `add_move_event`, whatever the
  -- event, its cookie and the time.
  pub add_move_event-IsDict :
      (cookie : ℕ) (is_from : Bool) (path : Bytes) (now : ℕ) (ms ms' : List Move)
      (env env' : Env files)
      → IsDict ms
      → add_move_event files pair cookie is_from path now ms env ≡ some (ms', env')
      → IsDict ms'
  unfolding add_move_event
  add_move_event-IsDict cookie is_from path now ms ms' env env' d e =
      let (r, walked, done) =
        >>=-eq-some (match_all files pair cookie is_from path now ms env) _ e in
      let (same, found) =
        match_all-after_match files pair cookie is_from path now ms r.1 r.0 env r.2 walked in
      let d' : IsDict r.1 =
        subst IsDict (sym same) (after_match-IsDict cookie is_from path now ms d) in
      elim (Bool-cases r.0) [
        | inl yes_ ↦ subst IsDict (ap (λ p. p.0) (some-injective _ _ (rw yes_ at done))) d'
        | inr no_ ↦
            let (half, c) = new_move-IsHalf cookie is_from path now in
            let absent : has_cookie cookie r.1 ≡ false =
              subst (λ l. has_cookie cookie l ≡ false) (sym same)
                (has_cookie-after_match cookie cookie is_from path now ms (sym found ∙ no_)) in
            subst IsDict (ap (λ p. p.0) (some-injective _ _ (rw no_ at done)))
              (append-IsDict r.1 (new_move cookie is_from path now) d' half (rw c absent))
      ]

  -- A dictionary of halves, one for each cookie, is one again after the check for expired entries.
  pub check_move_events_list-IsDict :
      (now : ℕ) (ms ms' : List Move) (env env' : Env files)
      → IsDict ms
      → check_move_events_list files pair now ms env ≡ some (ms', env')
      → IsDict ms'
  check_move_events_list-IsDict now ms ms' env env' d e =
      subst IsDict (sym (check_move_events_list-young files pair now ms ms' env env' e))
        (young-IsDict now ms d)
