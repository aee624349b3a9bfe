-- ===== src/Registry/Add.antt =====
-- The command `add` keeps the lists consistent.
use unix_backup_c.Common.{
  ℕ, suc, ◌+◌, ◌≤◌, ◌≡◌, refl, sym, ◌∙◌, ◌≢◌, inl, inr, true, false, none, some, List, [], ◌∷◌,
  ◌++◌, arith, Bool-cases, Option-cases, length, All,
}
use unix_backup_c.Common.Bytes.{Bytes, str_eq, str_eq_sound}
use mathlib.Core.Path.{subst}
use unix_backup_c.Outcome.{Outcome-cases}
use unix_backup_c.Registry.{parse_targets}
use unix_backup_c.Types.{Target, Source}
use unix_backup_c.Outcome.{and_then, Outcome, ok, exited, fault}
use unix_backup_c.Paths.{is_target_in_source}
use unix_backup_c.Registry.{
  Os, Work, listed, validate_target, set_pid, spawn_child_for_target, list_target_add, add_target,
  has_target, starts_slash, find_element_by_target_help, find_element_by_target,
}
use unix_backup_c.Counts.{count, count-cons, count-nil}
use unix_backup_c.Registry.Invariant.{named, named-append, named-nil, named-cons, IsOpen}

count-find_element_by_target_help :
    (ts : List Target) (n : Bytes)
    → find_element_by_target_help ts n ≡ false
    → count (has_target n) ts ≡ 0
unfolding find_element_by_target_help
count-find_element_by_target_help [] n h = count-nil (has_target n)
count-find_element_by_target_help (t ∷ ts) n h =
    ground (arith, count-cons (has_target n) t ts, count-find_element_by_target_help ts n)

named-find_element_by_target :
    (ss : List Source) (n : Bytes) → find_element_by_target ss n ≡ false → named n ss ≡ 0
unfolding find_element_by_target
named-find_element_by_target [] n h = named-nil n
named-find_element_by_target (s ∷ ss) n h = ground (
  arith,
  count-find_element_by_target_help s.targets n,
  named-find_element_by_target ss n,
  named-cons n s ss,
)

module _ (os : Os) where
  abbrev pub OpenAt : Work os → Type 0
  OpenAt k = IsOpen k.before k.source k.after k.child_count

  -- A name that `validate_target` lets pass is relative, outside the source, and new.
  pub record IsNew (k : Work os) (tok : Bytes) : Type 0 where
    pub relative : starts_slash tok ≡ false
    pub outside : is_target_in_source (some k.source.source_friendly) (some tok) ≡ false
    pub unused :
        named tok k.before + count (has_target tok) k.source.targets + named tok k.after ≡ 0

  listed_none :
      (k : Work os) (tok : Bytes)
      → find_element_by_target (listed os k) tok ≡ false
      → named tok k.before + named tok k.after ≡ 0
  unfolding listed
  listed_none k tok h = elim (Bool-cases k.attached) [
    | inl on ↦ omega (
      arith,
      named-find_element_by_target (k.before ++ (k.source ∷ k.after)) tok (rw on at h),
      named-append tok k.before (k.source ∷ k.after),
      named-cons tok k.source k.after,
    )
    | inr off ↦ omega (
      arith,
      named-find_element_by_target (k.before ++ k.after) tok (rw off at h),
      named-append tok k.before k.after,
    )
  ]

  validate_target-IsNew :
      (k : Work os) (tok : Bytes) → validate_target os k tok ≡ true → IsNew k tok
  unfolding validate_target
  validate_target-IsNew k tok h =
      let none_listed : find_element_by_target (listed os k) tok ≡ false = ground arith in
      let none_own : find_element_by_target_help k.source.targets tok ≡ false = ground arith in
      record {
        relative = ground arith;
        outside = ground arith;
        unused = omega (
          arith,
          listed_none k tok none_listed,
          count-find_element_by_target_help k.source.targets tok none_own,
        );
      }

  -- What the addition of a number of targets keeps.
  abbrev pub Grown : Work os → ℕ → Work os → Type 0
  Grown k n d =
      OpenAt d × (d.attached ≡ k.attached) × (length d.source.targets ≡ length k.source.targets + n)

  abbrev Added : Work os → Outcome (Work os) → Type 0
  Added k (ok d) = Grown k 1 d
  Added k exited = Unit
  Added k fault = ⊥

  -- The work with one more target.
  abbrev with_target : Bytes → Bytes → ℕ → os.World → Work os → Work os
  with_target tok full pid w k = record k {
    world = w;
    child_count = k.child_count + 1;
    source = record k.source {
      targets =
          record {
            target_friendly = tok;
            target_full = full;
            child_pid = some pid;
            inotify_fd = none;
            watchers = [];
            events = [];
            mov_dict = [];
          }
          ∷ k.source.targets;
    };
  }

  once_more :
      (k : Work os) (tok : Bytes) (t : Target) (n : Bytes)
      → t.target_friendly ≡ tok
      → OpenAt k
      → IsNew k tok
      → named n k.before + count (has_target n) (t ∷ k.source.targets) + named n k.after ≤ 1
  once_more k tok t n e o new = elim (Bool-cases (str_eq t.target_friendly n)) [
    | inl same ↦
        let at_n : n ≡ tok = sym (str_eq_sound t.target_friendly n same) ∙ e in
        subst
          (λ m.
            named m k.before + count (has_target m) (t ∷ k.source.targets) + named m k.after ≤ 1)
          (sym at_n) (ground (arith, new.unused, count-cons (has_target tok) t k.source.targets))
    | inr other ↦ ground (arith, o.targets_once n, count-cons (has_target n) t k.source.targets)
  ]

  with_target-Grown :
      (tok full : Bytes) (pid : ℕ) (w : os.World) (k : Work os)
      → OpenAt k
      → IsNew k tok
      → Grown k 1 (with_target tok full pid w k)
  with_target-Grown tok full pid w k o new = (
    record {
      counted = omega (arith, o.counted);
      sources_once = o.sources_once;
      targets_once = λ n. once_more k tok _ n refl o new;
      active_before = o.active_before;
      active_after = o.active_after;
      allowed =
          (record { child = refl; relative = new.relative; outside = new.outside }, o.allowed);
    },
    refl,
    omega arith,
  )

  add_target-Added :
      (tok full : Bytes) (k : Work os) → OpenAt k → IsNew k tok → Added k (add_target os tok full k)
  unfolding add_target spawn_child_for_target list_target_add set_pid
  add_target-Added tok full k o new =
      elim (Option-cases (os.fork k.source.source_full full k.world)) [
        | inl failed ↦ rw (failed, Added) tt
        | inr ((pid, w), child) ↦ rw (child, Added) (with_target-Grown tok full pid w k o new)
      ]

  -- `is_empty_dir` reads no memory that it must not read, for a name.
  abbrev pub IsReadable : Bytes → Type 0
  IsReadable tok = (w : os.World) → os.is_empty_dir tok w ≢ fault

  abbrev pub Parsed : Work os → Outcome (ℕ × Work os) → Type 0
  Parsed k (ok (n, d)) = Grown k n d
  Parsed k exited = Unit
  Parsed k fault = ⊥

  count_one :
      (k d : Work os) (r : Outcome (ℕ × Work os))
      → Grown k 1 d
      → Parsed d r
      → Parsed k (and_then r λ (n, done). ok (suc n, done))
  count_one k d (ok (n, done)) g h = (h.0, h.1 ∙ g.1, omega (arith, h.2, g.2))
  count_one k d exited g h = tt
  count_one k d fault g h = h

  then_more :
      (k : Work os) (m : Outcome (Work os)) (more : Work os → Outcome (ℕ × Work os))
      → Added k m
      → ((d : Work os) → OpenAt d → Parsed d (more d))
      → Parsed k (and_then m λ d. and_then (more d) λ (n, done). ok (suc n, done))
  then_more k (ok d) more g h = count_one k d (more d) g (h d g.0)
  then_more k exited more g h = tt
  then_more k fault more g h = g

  pub parse_targets-Parsed :
      (toks : List Bytes) (k : Work os)
      → All IsReadable toks
      → OpenAt k
      → Parsed k (parse_targets os toks k)
  unfolding parse_targets
  parse_targets-Parsed [] k safe o = (o, refl, omega arith)
  parse_targets-Parsed (tok ∷ toks) k (readable, safe) o =
      elim (Outcome-cases (os.is_empty_dir tok k.world)) [
        | inr (inl ended) ↦ rw (ended, Parsed) tt
        | inr (inr faulted) ↦ absurd (readable k.world faulted)
        | inl ((false, w), full) ↦
            rw (full, Parsed) (parse_targets-Parsed toks (record k { world = w }) safe o)
        | inl ((true, w), empty) ↦
            let k' : Work os = record k { world = w } in
            elim (Option-cases (os.realpath tok w)) [
              | inl failed ↦ rw (empty, failed, Parsed) tt
              | inr (path, real) ↦ elim (Bool-cases (validate_target os k' tok)) [
                | inr refused ↦
                    rw (empty, real, refused, Parsed) (parse_targets-Parsed toks k' safe o)
                | inl valid ↦
                    rw (empty, real, valid, Parsed)
                      (then_more k' (add_target os tok path k') (parse_targets os toks)
                        (add_target-Added tok path k' o (validate_target-IsNew k' tok valid))
                        (λ d. parse_targets-Parsed toks d safe))
              ]
            ]
      ]
