-- ===== src/Registry/Took.antt =====
-- The whole command `add` keeps the lists consistent and frees no source that is still listed.
use unix_backup_c.Common.{
  ℕ, ◌<◌, ◌≡◌, refl, sym, ap, ◌∙◌, ◌⊎◌, inl, inr, Bool, true, false, not, ◌&&◌, Option, none, some,
  List, [], ◌∷◌, ◌++◌, arith, ltb, Bool-cases, Option-cases, length, All, All-append,
}
use unix_backup_c.Common.Bytes.{Bytes, str_eq, str_eq_sound}
use mathlib.Core.Path.{subst}
use unix_backup_c.Registry.Invariant.{IsFocus}
use unix_backup_c.Registry.{
  starts_slash, find_element_by_target, focus, find_element_by_source, parse_targets,
}
use unix_backup_c.Registry.Commands.{take_input}
use unix_backup_c.Registry.Invariant.{focus-IsFocus, IsConsistent-IsOpen}
use unix_backup_c.Registry.Add.{parse_targets-Parsed}
use unix_backup_c.Registry.{has_target}
use unix_backup_c.Types.{Source}
use unix_backup_c.Outcome.{Outcome, ok, exited, fault, and_then}
use unix_backup_c.Dlist.Refine.{exists}
use unix_backup_c.Registry.{Os, Main, Work, listed, has_source, list_source_add}
use unix_backup_c.Registry.Commands.{is_nil, finish_add}
use unix_backup_c.Counts.{count, count-nil, count-append, count-exists}
use unix_backup_c.Registry.Invariant.{
  total-nil, total-append, named-nil, named-append, IsActive, IsConsistent, IsOpen,
  IsOpen-IsConsistent, IsOpen-removed,
}
use unix_backup_c.Registry.Add.{Grown, Parsed, IsReadable}

-- A source is as well in front of the others.
IsOpen-front :
    (b : List Source) (s : Source) (a : List Source) (children : ℕ)
    → IsOpen b s a children
    → IsOpen [] s (b ++ a) children
IsOpen-front b s a children o = record {
  counted = omega (arith, o.counted, total-append b a, total-nil);
  sources_once = λ n.
      omega (arith, o.sources_once n, count-append (has_source n) b a, count-nil (has_source n));
  targets_once = λ n. omega (arith, o.targets_once n, named-append n b a, named-nil n);
  active_before = tt;
  active_after = All-append IsActive b a o.active_before o.active_after;
  allowed = o.allowed;
}

abbrev new_source : Bytes → Bytes → Source
new_source full name = record { source_full = full; source_friendly = name; targets = [] }

-- A new source is open in front of the others, where no other has its name.
IsOpen-new :
    (ss : List Source) (full name : Bytes) (children : ℕ)
    → IsConsistent ss children
    → exists (has_source name) ss ≡ false
    → IsOpen [] (new_source full name) ss children
IsOpen-new ss full name children c fresh = record {
  counted = omega (arith, c.counted, total-nil);
  sources_once = λ n. elim (Bool-cases (str_eq name n)) [
    | inl same ↦
        let unused : count (has_source n) ss ≡ 0 =
          ap (λ m. count (has_source m) ss) (sym (str_eq_sound name n same))
          ∙ count-exists (has_source name) ss fresh in
        ground (arith, unused, count-nil (has_source n))
    | inr other ↦ ground (arith, c.sources_once n, count-nil (has_source n))
  ];
  targets_once = λ n. omega (arith, c.targets_once n, named-nil n, count-nil (has_target n));
  active_before = tt;
  active_after = c.active;
  allowed = tt;
}

is_nil-length : {A : Type 0} (xs : List A) → 0 < length xs → is_nil xs ≡ false
is_nil-length [] h = absurd (omega arith)
is_nil-length (x ∷ xs) h = refl

length-positive : {A : Type 0} (xs : List A) → is_nil xs ≡ false → 0 < length xs
length-positive [] h = absurd (ground arith)
length-positive (x ∷ xs) h = omega arith

is_nil_of-length : {A : Type 0} (xs : List A) → length xs ≡ 0 → is_nil xs ≡ true
is_nil_of-length [] h = refl
is_nil_of-length (x ∷ xs) h = absurd (omega arith)

andb_off : (b : Bool) → (b && false) ≡ false
andb_off b = ground arith

andb_not_on : (n : ℕ) → (ltb 0 n && not true) ≡ false
andb_not_on n = ground arith

module _ (os : Os) where
  -- The lists are consistent; the process may have ended, but not with a fault.
  abbrev pub IsSound : Outcome (Bool × Main os) → Type 0
  IsSound (ok (answer, m)) = IsConsistent m.backups m.child_count
  IsSound exited = Unit
  IsSound fault = ⊥

  -- Where the work starts: at a listed source with a target, or at a new one without.
  abbrev Starts : Work os → Type 0
  Starts k =
      ((k.attached ≡ true) × (is_nil k.source.targets ≡ false))
      ⊎ ((k.attached ≡ false) × (length k.source.targets ≡ 0))

  finish_add-IsSound :
      (k : Work os) (n : ℕ) (d : Work os)
      → Starts k
      → Grown os k n d
      → IsSound (finish_add os (n, d))
  unfolding finish_add listed list_source_add
  finish_add-IsSound k n d (inl (on, full)) (o, same, grown) =
      let on' : d.attached ≡ true = same ∙ on in
      let full' : is_nil d.source.targets ≡ false =
        is_nil-length d.source.targets
          (omega (arith, grown, length-positive k.source.targets full)) in
      rw (on', full', andb_not_on n, IsSound)
        (IsOpen-IsConsistent d.before d.source d.after d.child_count o full')
  finish_add-IsSound k n d (inr (off, empty)) (o, same, grown) =
      let off' : d.attached ≡ false = same ∙ off in
      elim (Bool-cases (ltb 0 n)) [
        | inl more ↦
            rw (off', more, IsSound)
              (IsOpen-IsConsistent [] d.source (d.before ++ d.after) d.child_count
                (IsOpen-front d.before d.source d.after d.child_count o)
                (is_nil-length d.source.targets (ground (arith, grown, empty))))
        | inr nothing ↦
            rw (off', nothing, andb_off (is_nil d.source.targets), IsSound)
              (IsOpen-removed d.before d.source d.after d.child_count o
                (is_nil_of-length d.source.targets (ground (arith, grown, empty))))
      ]

  finished :
      (k : Work os) (r : Outcome (ℕ × Work os))
      → Starts k
      → Parsed os k r
      → IsSound (and_then r (finish_add os))
  finished k (ok (n, d)) s g = finish_add-IsSound k n d s g
  finished k exited s g = tt
  finished k fault s g = g

  new_work-IsSound :
      (full tok : Bytes) (toks : List Bytes) (m : Main os)
      → IsConsistent m.backups m.child_count
      → exists (has_source tok) m.backups ≡ false
      → All (IsReadable os) toks
      → IsSound (
          and_then
            (parse_targets os toks (record {
              world = m.world;
              child_count = m.child_count;
              attached = false;
              before = [];
              source = record { source_full = full; source_friendly = tok; targets = [] };
              after = m.backups;
            }))
            (finish_add os))
  new_work-IsSound full tok toks m c fresh safe =
      let k : Work os = record {
        world = m.world;
        child_count = m.child_count;
        attached = false;
        before = [];
        source = new_source full tok;
        after = m.backups;
      } in
      finished k (parse_targets os toks k) (inr (refl, refl))
        (parse_targets-Parsed os toks k safe (IsOpen-new m.backups full tok m.child_count c fresh))

  listed_work-IsSound :
      (toks : List Bytes) (m : Main os) (b : List Source) (s : Source) (a : List Source)
      → IsConsistent (b ++ (s ∷ a)) m.child_count
      → All (IsReadable os) toks
      → IsSound (
          and_then
            (parse_targets os toks (record {
              world = m.world;
              child_count = m.child_count;
              attached = true;
              before = b;
              source = s;
              after = a;
            }))
            (finish_add os))
  listed_work-IsSound toks m b s a c safe =
      let k : Work os = record {
        world = m.world;
        child_count = m.child_count;
        attached = true;
        before = b;
        source = s;
        after = a;
      } in
      let (o, full) = IsConsistent-IsOpen b s a m.child_count c in
      finished k (parse_targets os toks k) (inl (refl, full))
        (parse_targets-Parsed os toks k safe o)

  -- Where `is_empty_dir` reads no wrong memory for any of the tokens, the command `add` keeps the
  -- lists consistent, on every path: the count of children is that of the targets, names are unique,
  -- every source has a target, and every target has a child and a name, as typed, that is relative
  -- and for `is_target_in_source` not inside the name of its source. It does not free a source that
  -- is still listed. It may end the process.
  pub take_input-IsSound :
      (toks : List Bytes) (m : Main os)
      → All (IsReadable os) toks
      → IsConsistent m.backups m.child_count
      → IsSound (take_input os toks m)
  unfolding take_input find_element_by_source
  take_input-IsSound [] m safe c = c
  take_input-IsSound (tok ∷ toks) m (_, safe) c =
      let focused : (r : Option (List Source × Source × List Source))
          → focus (has_source tok) m.backups ≡ r
          → IsFocus (has_source tok) m.backups r =
        λ r e.
          subst (IsFocus (has_source tok) m.backups) e (focus-IsFocus (has_source tok) m.backups) in
      elim (Bool-cases (starts_slash tok)) [
        | inl absolute ↦ rw (absolute, IsSound) c
        | inr relative ↦ elim (Option-cases (os.realpath tok m.world)) [
          | inl missing ↦ rw (relative, missing, IsSound) c
          | inr (full, real) ↦ elim (Bool-cases (find_element_by_target m.backups tok)) [
            | inl used ↦ rw (relative, real, used, IsSound) c
            | inr unused ↦ elim (Option-cases (focus (has_source tok) m.backups)) [
              | inl fresh ↦
                  rw (relative, real, unused, fresh, IsSound)
                    (new_work-IsSound full tok toks m c (focused none fresh) safe)
              | inr ((b, s, a), found) ↦
                  let (split, same) = focused (some (b, s, a)) found in
                  rw (relative, real, unused, found, IsSound)
                    (listed_work-IsSound toks m b s a
                      (subst (λ ss. IsConsistent ss m.child_count) split c) safe)
            ]
          ]
        ]
      ]
