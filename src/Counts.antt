-- ===== src/Counts.antt =====
-- How often a test passes in a list, and what a deletion changes of that.
use unix_backup_c.Common.{
  ℕ, ◌+◌, ◌≤◌, ◌≡◌, refl, inl, inr, Bool, true, false, none, some, List, [], ◌∷◌, ◌++◌, arith,
  if◌then◌else◌, Bool-cases, length, All,
}
use mathlib.Core.Path.{subst}
use mathlib.Core.Option.{some-injective}
use unix_backup_c.Dlist.Refine.{exists, delete, find_first}

module _ {A : Type 0} where
  pub count : (A → Bool) → List A → ℕ
  count test [] = 0
  count test (x ∷ xs) = (if test x then 1 else 0) + count test xs

  pub count-cons :
      (test : A → Bool) (x : A) (xs : List A)
      → count test (x ∷ xs) ≡ (if test x then 1 else 0) + count test xs
  unfolding count
  count-cons test x xs = refl

  pub count-nil : (test : A → Bool) → count test [] ≡ 0
  unfolding count
  count-nil test = refl

  pub count-append :
      (test : A → Bool) (xs ys : List A) → count test (xs ++ ys) ≡ count test xs + count test ys
  unfolding count
  count-append test [] ys = omega arith
  count-append test (x ∷ xs) ys = omega (arith, count-append test xs ys)

  pub count-exists : (test : A → Bool) (xs : List A) → exists test xs ≡ false → count test xs ≡ 0
  unfolding count
  count-exists test [] h = refl
  count-exists test (x ∷ xs) h = ground (arith, count-exists test xs)

  pub exists-count : (test : A → Bool) (xs : List A) → count test xs ≡ 0 → exists test xs ≡ false
  unfolding count
  exists-count test [] h = refl
  exists-count test (x ∷ xs) h = ground (arith, exists-count test xs)

  pub count-delete :
      (test other : A → Bool) (xs : List A) → count test (delete other xs) ≤ count test xs
  unfolding count
  count-delete test other [] = omega arith
  count-delete test other (x ∷ xs) = ground (arith, count-delete test other xs)

  pub length-delete :
      (test : A → Bool) (xs : List A)
      → exists test xs ≡ true
      → length (delete test xs) + 1 ≡ length xs
  length-delete test [] h = absurd (ground arith)
  length-delete test (x ∷ xs) h = ground (arith, length-delete test xs)

  pub delete-missing :
      (test : A → Bool) (xs : List A) → exists test xs ≡ false → delete test xs ≡ xs
  delete-missing test [] h = refl
  delete-missing test (x ∷ xs) h = ground (arith, delete-missing test xs)

  pub delete-append :
      (test : A → Bool) (xs ys : List A)
      → exists test xs ≡ false
      → delete test (xs ++ ys) ≡ xs ++ delete test ys
  delete-append test [] ys h = refl
  delete-append test (x ∷ xs) ys h = ground (arith, delete-append test xs ys)

  pub exists-find_first :
      (test : A → Bool) (xs : List A) (found : A)
      → find_first test xs ≡ some found
      → exists test xs ≡ true
  exists-find_first test [] found e = cc
  exists-find_first test (x ∷ xs) found e = ground (arith, exists-find_first test xs found)

  pub All-delete {κ} :
      (P : A → Type κ) (test : A → Bool) (xs : List A) → All P xs → All P (delete test xs)
  All-delete P test [] h = tt
  All-delete P test (x ∷ xs) (p, h) = elim (Bool-cases (test x)) [
    | inl pass ↦ rw pass h
    | inr fail ↦ rw fail (p, All-delete P test xs h)
  ]

  pub count-delete_self :
      (test : A → Bool) (xs : List A)
      → exists test xs ≡ true
      → count test (delete test xs) + 1 ≡ count test xs
  unfolding count
  count-delete_self test [] h = absurd (ground arith)
  count-delete_self test (x ∷ xs) h = ground (arith, count-delete_self test xs)

  pub find_first-passes :
      (test : A → Bool) (xs : List A) (found : A)
      → find_first test xs ≡ some found
      → test found ≡ true
  find_first-passes test [] found e = cc
  find_first-passes test (x ∷ xs) found e = elim (Bool-cases (test x)) [
    | inl pass ↦ subst (λ y. test y ≡ true) (some-injective _ _ (rw pass at e)) pass
    | inr fail ↦ find_first-passes test xs found (rw fail at e)
  ]

  pub find_first-missing :
      (test : A → Bool) (xs : List A) → find_first test xs ≡ none → count test xs ≡ 0
  unfolding count
  find_first-missing test [] e = refl
  find_first-missing test (x ∷ xs) e = ground (arith, find_first-missing test xs)
