-- ===== src/Child/Handler/NoFault.antt =====
-- The event loop never reads through NULL: every queued event finds its watch.
use unix_backup_c.Common.{ℕ, ◌≡◌, ◌≢◌, true, List, [], ◌∷◌, length, All}
use unix_backup_c.Common.Bytes.{Bytes}
use unix_backup_c.Events.Inside.{IsEvent}
use unix_backup_c.Child.Handler.{bit, in_ignored, handle_event, event_handler}
use unix_backup_c.Types.{Watch, Event}
use unix_backup_c.Dlist.Refine.{exists}
use unix_backup_c.Watches.{has_wd}
use unix_backup_c.Child.Files.{Files}
use unix_backup_c.Child.Folders.{Pair}
use unix_backup_c.Child.Handler.{State}
use unix_backup_c.Outcome.{Outcome, ok, exited, fault, and_then}
use unix_backup_c.Child.Handler.Safety.{Keeps, Safe, handle_event-Safe}

-- What the kernel promises of a queue: after IN_IGNORED a descriptor sends nothing more.
abbrev pub IsFinal : List Event → Type 0
IsFinal [] = Unit
IsFinal (e ∷ es) = (bit e.mask in_ignored ≡ true → All (λ later. later.wd ≢ e.wd) es) × IsFinal es

-- Every event is one of the source, and its descriptor has a watch.
abbrev pub AllKnown : Bytes → List Watch → List Event → Type 0
AllKnown source ws = All (λ e. IsEvent source e × (exists (has_wd e.wd) ws ≡ true))

AllKnown-Keeps :
    (source : Bytes) (e : Event) (ws vs : List Watch) (es : List Event)
    → Keeps e ws vs
    → (bit e.mask in_ignored ≡ true → All (λ later. later.wd ≢ e.wd) es)
    → AllKnown source ws es
    → AllKnown source vs es
AllKnown-Keeps source e ws vs [] k final known = tt
AllKnown-Keeps source e ws vs (x ∷ es) k final ((is, has), known) = (
  (is, k x.wd has (λ h. (final h).0)),
  AllKnown-Keeps source e ws vs es k (λ h. (final h).1) known,
)

module _ (files : Files) (pair : Pair) where
  step_safe :
      (clock : ℕ → ℕ) (e : Event) (es : List Event) (ws : List Watch)
      (r : Outcome (State files pair))
      → Safe files pair e ws r
      → (bit e.mask in_ignored ≡ true → All (λ later. later.wd ≢ e.wd) es)
      → AllKnown pair.source_full ws es
      → ((s : State files pair)
          → AllKnown pair.source_full s.watchers es
          → event_handler files pair clock es s ≢ fault)
      → and_then r (event_handler files pair clock es) ≢ fault
  step_safe clock e es ws (ok s) k final known rest =
      rest s (AllKnown-Keeps pair.source_full e ws s.watchers es k final known)
  step_safe clock e es ws exited k final known rest = λ h. cc
  step_safe clock e es ws fault k final known rest = absurd k

  -- The event loop never reads a field through NULL: it ends in a state or with the process, where
  -- every queued event is one of the source whose descriptor has a watch, and no later event has
  -- the descriptor of an IN_IGNORED event.
  pub event_handler_no_fault :
      (clock : ℕ → ℕ) (es : List Event) (s : State files pair)
      → IsFinal es
      → AllKnown pair.source_full s.watchers es
      → event_handler files pair clock es s ≢ fault
  unfolding event_handler
  event_handler_no_fault clock [] s final known = λ h. cc
  event_handler_no_fault clock (e ∷ es) s (once, final) ((is, has), known) =
      step_safe clock e es s.watchers (handle_event files pair (clock (length es)) e s)
        (handle_event-Safe files pair (clock (length es)) e s is has) once known
        (λ s'. event_handler_no_fault clock es s' final)
