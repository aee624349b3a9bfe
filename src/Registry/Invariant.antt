-- ===== src/Registry/Invariant.antt =====
-- What holds of the lists of sources and targets between commands, and during one at a source.
use unix_backup_c.Common.{
  ℕ, ◌+◌, ◌≤◌, ◌≡◌, refl, ap, inl, inr, Bool, true, false, Option, none, some, List, [], ◌∷◌, ◌++◌,
  arith, is_some, if◌then◌else◌, Bool-cases, length, All, All-append,
}
use unix_backup_c.Common.Bytes.{Bytes}
use unix_backup_c.Dlist.Refine.{exists}
use unix_backup_c.Registry.{focus}
use unix_backup_c.Types.{Target, Source}
use unix_backup_c.Paths.{is_target_in_source}
use unix_backup_c.Registry.{has_target, has_source, starts_slash}
use unix_backup_c.Registry.Commands.{is_nil}
use unix_backup_c.Counts.{count, count-cons, count-append}

-- The targets of some sources, and those among them with a name.
pub total : List Source → ℕ
total [] = 0
total (s ∷ ss) = length s.targets + total ss

pub named : Bytes → List Source → ℕ
named n [] = 0
named n (s ∷ ss) = count (has_target n) s.targets + named n ss

pub total-append : (ss rr : List Source) → total (ss ++ rr) ≡ total ss + total rr
unfolding total
total-append [] rr = omega arith
total-append (s ∷ ss) rr = omega (arith, total-append ss rr)

pub total-cons : (s : Source) (ss : List Source) → total (s ∷ ss) ≡ length s.targets + total ss
unfolding total
total-cons s ss = refl

pub named-append : (n : Bytes) (ss rr : List Source) → named n (ss ++ rr) ≡ named n ss + named n rr
unfolding named
named-append n [] rr = omega arith
named-append n (s ∷ ss) rr = omega (arith, named-append n ss rr)

pub named-nil : (n : Bytes) → named n [] ≡ 0
unfolding named
named-nil n = refl

pub named-cons :
    (n : Bytes) (s : Source) (ss : List Source)
    → named n (s ∷ ss) ≡ count (has_target n) s.targets + named n ss
unfolding named
named-cons n s ss = refl

-- A target that has a child, a relative name, and lies outside its source, by the names.
pub record IsAllowed (source : Bytes) (t : Target) : Type 0 where
  pub child : is_some t.child_pid ≡ true
  pub relative : starts_slash t.target_friendly ≡ false
  pub outside : is_target_in_source (some source) (some t.target_friendly) ≡ false

-- A source with at least one target, and only allowed ones.
pub record IsActive (s : Source) : Type 0 where
  pub some_target : is_nil s.targets ≡ false
  pub allowed : All (IsAllowed s.source_friendly) s.targets

-- The state between commands: the count of children is that of the targets, no two sources and no
-- two targets have one name, and every source is active.
pub record IsConsistent (ss : List Source) (children : ℕ) : Type 0 where
  pub counted : children ≡ total ss
  pub sources_once : (n : Bytes) → count (has_source n) ss ≤ 1
  pub targets_once : (n : Bytes) → named n ss ≤ 1
  pub active : All IsActive ss

-- The same at a source that is worked on, which may have no targets meanwhile.
pub record IsOpen (before : List Source) (s : Source) (after : List Source) (children : ℕ)
    : Type 0 where
  pub counted : children ≡ total before + length s.targets + total after
  pub sources_once :
      (n : Bytes)
      → count (has_source n) before + (if has_source n s then 1 else 0) + count (has_source n) after
        ≤ 1
  pub targets_once :
      (n : Bytes) → named n before + count (has_target n) s.targets + named n after ≤ 1
  pub active_before : All IsActive before
  pub active_after : All IsActive after
  pub allowed : All (IsAllowed s.source_friendly) s.targets

IsActive-split :
    (b : List Source) (s : Source) (a : List Source)
    → All IsActive (b ++ (s ∷ a))
    → All IsActive b × IsActive s × All IsActive a
IsActive-split [] s a h = (tt, h.0, h.1)
IsActive-split (x ∷ b) s a (p, h) = let (l, q, r) = IsActive-split b s a h in ((p, l), q, r)

-- A consistent state is open at any of its sources.
pub IsConsistent-IsOpen :
    (b : List Source) (s : Source) (a : List Source) (children : ℕ)
    → IsConsistent (b ++ (s ∷ a)) children
    → IsOpen b s a children × (is_nil s.targets ≡ false)
IsConsistent-IsOpen b s a children c =
    let (l, q, r) = IsActive-split b s a c.active in
    (
      record {
        counted = omega (arith, c.counted, total-append b (s ∷ a), total-cons s a);
        sources_once = λ n. omega (
          arith,
          c.sources_once n,
          count-append (has_source n) b (s ∷ a),
          count-cons (has_source n) s a,
        );
        targets_once =
            λ n. omega (arith, c.targets_once n, named-append n b (s ∷ a), named-cons n s a);
        active_before = l;
        active_after = r;
        allowed = q.allowed;
      },
      q.some_target,
    )

-- And an open one is consistent where the source has a target,
pub IsOpen-IsConsistent :
    (b : List Source) (s : Source) (a : List Source) (children : ℕ)
    → IsOpen b s a children
    → is_nil s.targets ≡ false
    → IsConsistent (b ++ (s ∷ a)) children
IsOpen-IsConsistent b s a children o full = record {
  counted = omega (arith, o.counted, total-append b (s ∷ a), total-cons s a);
  sources_once = λ n. omega (
    arith,
    o.sources_once n,
    count-append (has_source n) b (s ∷ a),
    count-cons (has_source n) s a,
  );
  targets_once = λ n. omega (arith, o.targets_once n, named-append n b (s ∷ a), named-cons n s a);
  active =
      All-append IsActive b (s ∷ a) o.active_before
        (record { some_target = full; allowed = o.allowed }, o.active_after);
}

length-is_nil : {A : Type 0} (xs : List A) → is_nil xs ≡ true → length xs ≡ 0
length-is_nil [] h = refl
length-is_nil (x ∷ xs) h = absurd (ground arith)

-- or without the source, where it has none.
pub IsOpen-removed :
    (b : List Source) (s : Source) (a : List Source) (children : ℕ)
    → IsOpen b s a children
    → is_nil s.targets ≡ true
    → IsConsistent (b ++ a) children
IsOpen-removed b s a children o empty = record {
  counted = omega (arith, o.counted, total-append b a, length-is_nil s.targets empty);
  sources_once = λ n. omega (arith, o.sources_once n, count-append (has_source n) b a);
  targets_once = λ n. omega (arith, o.targets_once n, named-append n b a);
  active = All-append IsActive b a o.active_before o.active_after;
}

-- What `focus` finds is a position of the list, at an element that passes the test; if it finds
-- none, no element passes.
abbrev pub IsFocus :
    (Source → Bool) → List Source → Option (List Source × Source × List Source) → Type 0
IsFocus test ss none = (exists test ss ≡ false)
IsFocus test ss (some (b, s, a)) = (ss ≡ b ++ (s ∷ a)) × (test s ≡ true)

IsFocus-cons :
    (test : Source → Bool) (x : Source) (ss : List Source)
    (r : Option (List Source × Source × List Source))
    → test x ≡ false
    → IsFocus test ss r
    → IsFocus test (x ∷ ss) (elim r [ none ↦ none | some (b, y, a) ↦ some (x ∷ b, y, a) ])
IsFocus-cons test x ss none other h = ground arith
IsFocus-cons test x ss (some (b, y, a)) other h = (ap (λ l. x ∷ l) h.0, h.1)

pub focus-IsFocus : (test : Source → Bool) (ss : List Source) → IsFocus test ss (focus test ss)
focus-IsFocus test [] = refl
focus-IsFocus test (x ∷ ss) = elim (Bool-cases (test x)) [
  | inl this ↦ rw (this, IsFocus) (refl, this)
  | inr other ↦
      rw (other, IsFocus) (IsFocus-cons test x ss (focus test ss) other (focus-IsFocus test ss))
]

pub total-nil : total [] ≡ 0
unfolding total
total-nil = refl
