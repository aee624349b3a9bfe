-- ===== src/Events/Inside.antt =====
-- Events of watches on the source's directories have paths inside the source.
use unix_backup_c.Common.{
  arith, ℕ, ◌≡◌, refl, sym, ap, ◌∙◌, inl, inr, some, List, [], ◌∷◌, ◌++◌, ltb, Bool-cases,
  Option-cases, All, All-append,
}
use unix_backup_c.Common.Bytes.{Bytes}
use mathlib.Core.List.{append_assoc}
use mathlib.Core.Path.{subst}
use mathlib.Core.Option.{some-injective}
use unix_backup_c.Types.{Watch, Event}
use unix_backup_c.Paths.{slash}
use unix_backup_c.Paths.Inside.{IsBoundary}
use unix_backup_c.Paths.Suffix.{get_end_suffix-append}
use unix_backup_c.Dlist.Refine.{find_first}
use unix_backup_c.Watches.{has_wd}
use unix_backup_c.Events.{name_len, RawEvent, full_path, event_of, enqueue}
use unix_backup_c.Events.Laws.{enqueue_unknown, enqueue_known}

-- A watch on a directory of the source: its path is the source followed by its suffix.
pub record IsWatch (source : Bytes) (w : Watch) : Type 0 where
  pub full : w.source_full ≡ source
  pub path : w.path ≡ source ++ w.suffix
  pub boundary : IsBoundary w.suffix

-- An event on a path of the source, with the suffix of that path.
pub record IsEvent (source : Bytes) (e : Event) : Type 0 where
  pub path : e.full_path ≡ source ++ e.suffix
  pub boundary : IsBoundary e.suffix

IsBoundary-append : (a b : Bytes) → IsBoundary a → IsBoundary (a ++ (slash ∷ b))
IsBoundary-append [] b h = refl
IsBoundary-append (c ∷ a) b h = h

full_path_in :
    (source : Bytes) (w : Watch) (e : RawEvent)
    → IsWatch source w
    → (rest : Bytes) × (full_path w e ≡ source ++ rest) × IsBoundary rest
unfolding full_path
full_path_in source w e is = elim (Bool-cases (ltb 0 (name_len e))) [
  | inl named ↦ (
    w.suffix ++ (slash ∷ e.name),
    rw (named, is.path, append_assoc) refl,
    IsBoundary-append w.suffix e.name is.boundary,
  )
  | inr plain ↦ (w.suffix, rw plain is.path, is.boundary)
]

suffix_of_event :
    (source rest : Bytes) (w : Watch) (e : RawEvent)
    → w.source_full ≡ source
    → full_path w e ≡ source ++ rest
    → (event_of w e).suffix ≡ rest
unfolding event_of
suffix_of_event source rest w e full path = ground (arith, get_end_suffix-append source rest)

full_path_of_event : (w : Watch) (e : RawEvent) → (event_of w e).full_path ≡ full_path w e
unfolding event_of
full_path_of_event w e = refl

-- An event of a sound watch lies in the source, by whole components, and its suffix is what stands
-- behind the source in its path.
pub event_of-IsEvent :
    (source : Bytes) (w : Watch) (e : RawEvent) → IsWatch source w → IsEvent source (event_of w e)
event_of-IsEvent source w e is =
    let (rest, path, b) = full_path_in source w e is in
    let suffix = suffix_of_event source rest w e is.full path in
    record {
      path = full_path_of_event w e ∙ (path ∙ ap (λ s. source ++ s) (sym suffix));
      boundary = subst IsBoundary (sym suffix) b;
    }

pub find_first-IsWatch :
    (source : Bytes) (wd : ℕ) (ws : List Watch) (w : Watch)
    → All (IsWatch source) ws
    → find_first (has_wd wd) ws ≡ some w
    → IsWatch source w
find_first-IsWatch source wd [] w all e = absurd (cc)
find_first-IsWatch source wd (v ∷ ws) w (is, all) e = elim (Bool-cases (has_wd wd v)) [
  | inl hit ↦ subst (IsWatch source) (some-injective v w (rw hit at e)) is
  | inr miss ↦ find_first-IsWatch source wd ws w all (rw miss at e)
]

-- Where all watches are on directories of the source, queueing an event keeps every queued event
-- inside the source.
pub enqueue-IsEvent :
    (source : Bytes) (ws : List Watch) (e : RawEvent) (es : List Event)
    → All (IsWatch source) ws
    → All (IsEvent source) es
    → All (IsEvent source) (enqueue ws e es)
enqueue-IsEvent source ws e es sound inside = elim (Option-cases (find_first (has_wd e.wd) ws)) [
  | inl unknown ↦ subst (All (IsEvent source)) (sym (enqueue_unknown ws e es unknown)) inside
  | inr (w, known) ↦ subst (All (IsEvent source)) (sym (enqueue_known ws e es w known)) (
      All-append (IsEvent source) es (event_of w e ∷ []) inside
        (event_of-IsEvent source w e (find_first-IsWatch source e.wd ws w sound known), tt))
]
