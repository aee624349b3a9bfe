-- ===== src/Child/Queued.antt =====
-- What the reader of a child queues, and that the queued events find their watches.
use unix_backup_c.Common.{
  ℕ, ◌≡◌, refl, sym, ap, ◌∙◌, ◌≢◌, inl, inr, true, none, some, List, [], ◌∷◌, ◌++◌, Option-cases,
  length, All,
}
use unix_backup_c.Common.Bytes.{Bytes}
use mathlib.Core.List.{append-nil, append_assoc}
use mathlib.Core.Path.{subst}
use unix_backup_c.Events.Laws.{enqueue_unknown, enqueue_known}
use unix_backup_c.Reader.{read_events, Status, whole, partial_header, partial_read}
use unix_backup_c.Outcome.{Outcome, ok, exited, fault}
use unix_backup_c.Child.Jobs.{Reads, again, refused, chunk, enqueue_all, inotify_reader}
use unix_backup_c.Types.{Watch, Event}
use unix_backup_c.Counts.{exists-find_first}
use unix_backup_c.Dlist.Refine.{find_first}
use unix_backup_c.Watches.{has_wd}
use unix_backup_c.Events.{RawEvent, event_of}
use unix_backup_c.Events.Inside.{IsWatch, event_of-IsEvent, find_first-IsWatch}
use unix_backup_c.Child.Handler.{bit, in_ignored}
use unix_backup_c.Child.Handler.NoFault.{IsFinal, AllKnown}

-- All events that the reads give.
abbrev pub events_of : Reads → List RawEvent
events_of again = []
events_of refused = []
events_of (chunk b stale more) = (read_events (length b) stale b).0 ++ events_of more

-- What the kernel promises: after IN_IGNORED a descriptor sends nothing more.
abbrev pub IsFinalRaw : List RawEvent → Type 0
IsFinalRaw [] = Unit
IsFinalRaw (e ∷ es) =
    (bit e.mask in_ignored ≡ true → All (λ later. later.wd ≢ e.wd) es) × IsFinalRaw es

-- The events that are queued, in order.
abbrev pub queue : List Watch → List RawEvent → List Event
queue ws [] = []
queue ws (e ∷ es) = elim (find_first (has_wd e.wd) ws) [
  | none ↦ queue ws es
  | some w ↦ event_of w e ∷ queue ws es
]

queue_unknown :
    (ws : List Watch) (e : RawEvent) (raw : List RawEvent)
    → find_first (has_wd e.wd) ws ≡ none
    → queue ws (e ∷ raw) ≡ queue ws raw
queue_unknown ws e raw unknown = rw (queue, unknown) refl

queue_known :
    (ws : List Watch) (e : RawEvent) (raw : List RawEvent) (w : Watch)
    → find_first (has_wd e.wd) ws ≡ some w
    → queue ws (e ∷ raw) ≡ event_of w e ∷ queue ws raw
queue_known ws e raw w known = rw (queue, known) refl

enqueue_all-queue :
    (ws : List Watch) (raw : List RawEvent) (es : List Event)
    → enqueue_all ws raw es ≡ es ++ queue ws raw
unfolding enqueue_all
enqueue_all-queue ws [] es = sym (append-nil es)
enqueue_all-queue ws (e ∷ raw) es = elim (Option-cases (find_first (has_wd e.wd) ws)) [
  | inl unknown ↦
      ap (enqueue_all ws raw) (enqueue_unknown ws e es unknown)
      ∙ (enqueue_all-queue ws raw es ∙ ap (λ q. es ++ q) (sym (queue_unknown ws e raw unknown)))
  | inr (w, known) ↦
      ap (enqueue_all ws raw) (enqueue_known ws e es w known)
      ∙ (enqueue_all-queue ws raw (es ++ (event_of w e ∷ []))
          ∙ (append_assoc es (event_of w e ∷ []) (queue ws raw)
              ∙ ap (λ q. es ++ q) (sym (queue_known ws e raw w known))))
]

queue-append :
    (ws : List Watch) (a b : List RawEvent) → queue ws (a ++ b) ≡ queue ws a ++ queue ws b
queue-append ws [] b = refl
queue-append ws (e ∷ a) b = elim (Option-cases (find_first (has_wd e.wd) ws)) [
  | inl unknown ↦ rw (unknown, queue) (queue-append ws a b)
  | inr (w, known) ↦ rw (known, queue) (ap (λ l. event_of w e ∷ l) (queue-append ws a b))
]

queue-later :
    (ws : List Watch) (wd : ℕ) (raw : List RawEvent)
    → All (λ later. later.wd ≢ wd) raw
    → All (λ later. later.wd ≢ wd) (queue ws raw)
unfolding event_of
queue-later ws wd [] h = tt
queue-later ws wd (e ∷ raw) (ne, h) = elim (Option-cases (find_first (has_wd e.wd) ws)) [
  | inl unknown ↦
      subst (All (λ later. later.wd ≢ wd)) (sym (queue_unknown ws e raw unknown))
        (queue-later ws wd raw h)
  | inr (w, known) ↦
      subst (All (λ later. later.wd ≢ wd)) (sym (queue_known ws e raw w known))
        (ne, queue-later ws wd raw h)
]

pub queue-IsFinal :
    (ws : List Watch) (raw : List RawEvent) → IsFinalRaw raw → IsFinal (queue ws raw)
unfolding event_of
queue-IsFinal ws [] h = tt
queue-IsFinal ws (e ∷ raw) (once, h) = elim (Option-cases (find_first (has_wd e.wd) ws)) [
  | inl unknown ↦ subst IsFinal (sym (queue_unknown ws e raw unknown)) (queue-IsFinal ws raw h)
  | inr (w, known) ↦
      subst IsFinal (sym (queue_known ws e raw w known))
        (λ i. queue-later ws e.wd raw (once i), queue-IsFinal ws raw h)
]

pub queue-AllKnown :
    (source : Bytes) (ws : List Watch) (raw : List RawEvent)
    → All (IsWatch source) ws
    → AllKnown source ws (queue ws raw)
unfolding event_of
queue-AllKnown source ws [] sound = tt
queue-AllKnown source ws (e ∷ raw) sound = elim (Option-cases (find_first (has_wd e.wd) ws)) [
  | inl unknown ↦
      subst (AllKnown source ws) (sym (queue_unknown ws e raw unknown))
        (queue-AllKnown source ws raw sound)
  | inr (w, known) ↦ subst (AllKnown source ws) (sym (queue_known ws e raw w known)) (
    (
      event_of-IsEvent source w e (find_first-IsWatch source e.wd ws w sound known),
      exists-find_first (has_wd e.wd) ws w known,
    ),
    queue-AllKnown source ws raw sound,
  )
]

-- What the reader queues, if it goes on.
abbrev pub Queues : List Watch → Reads → List Event → Outcome (List Event) → Type 0
Queues ws reads es (ok q) = (q ≡ es ++ queue ws (events_of reads))
Queues ws reads es exited = Unit
Queues ws reads es fault = ⊥

Queues-chunk :
    (ws : List Watch) (b stale : Bytes) (more : Reads) (es : List Event) (r : Outcome (List Event))
    → Queues ws more (enqueue_all ws (read_events (length b) stale b).0 es) r
    → Queues ws (chunk b stale more) es r
Queues-chunk ws b stale more es (ok q) h =
    let raw = (read_events (length b) stale b).0 in
    h
    ∙ (ap (λ l. l ++ queue ws (events_of more)) (enqueue_all-queue ws raw es)
        ∙ (append_assoc es (queue ws raw) (queue ws (events_of more))
            ∙ ap (λ l. es ++ l) (sym (queue-append ws raw (events_of more)))))
Queues-chunk ws b stale more es exited h = tt
Queues-chunk ws b stale more es fault h = h

Queues-status :
    (ws : List Watch) (b stale : Bytes) (more : Reads) (es : List Event) (st : Status)
    (r : Outcome (List Event))
    → Queues ws (chunk b stale more) es r
    → Queues ws
        (chunk b stale more)
        es
        (elim st [ whole ↦ r | partial_header ↦ r | partial_read ↦ exited ])
Queues-status ws b stale more es whole r h = h
Queues-status ws b stale more es partial_header r h = h
Queues-status ws b stale more es partial_read r h = tt

pub inotify_reader-Queues :
    (ws : List Watch) (reads : Reads) (es : List Event)
    → Queues ws reads es (inotify_reader ws reads es)
unfolding inotify_reader
inotify_reader-Queues ws again es = sym (append-nil es)
inotify_reader-Queues ws refused es = tt
inotify_reader-Queues ws (chunk b stale more) es =
    let r = read_events (length b) stale b in
    Queues-status ws b stale more es r.1 (inotify_reader ws more (enqueue_all ws r.0 es)) (
      Queues-chunk ws b stale more es (inotify_reader ws more (enqueue_all ws r.0 es))
        (inotify_reader-Queues ws more (enqueue_all ws r.0 es)))
