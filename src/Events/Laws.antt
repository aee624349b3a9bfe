-- ===== src/Events/Laws.antt =====
-- The event queue as a list of events.
use unix_backup_c.Common.{
  ◌+◌, ◌≡◌, refl, sym, ◌∙◌, ◌≢◌, inl, inr, none, some, List, [], ◌∷◌, ◌++◌, arith, ==_ne,
  Option-cases, length, length-append,
}
use mathlib.Core.Path.{subst}
use unix_backup_c.Dlist.Refine.{
  Holds, find_first, tail, push_back-Holds, pop_front-Holds, load_of_payload,
}
use unix_backup_c.Types.{Watch, Event}
use unix_backup_c.Paths.{slash}
use unix_backup_c.Dlist.{Ptr, null, Heap, Handle}
use unix_backup_c.Dlist.Insert.{Ends}
use unix_backup_c.Dlist.Refine.{Holds, find_first, tail, push_back-Holds, pop_front-Holds}
use unix_backup_c.Watches.{has_wd}
use unix_backup_c.Watches.Laws.{find_element_by_wd-Holds}
use unix_backup_c.Events.{
  RawEvent, name_len, full_len, full_path, event_of, add_inotify_event, remove_inotify_event,
  enqueue,
}

-- The path of an event that `add_inotify_event` writes fills, with its NUL, the allocated bytes
-- exactly.
pub length-full_path : (w : Watch) (e : RawEvent) → length (full_path w e) + 1 ≡ full_len w e
unfolding full_path full_len name_len
length-full_path w e = ground (arith, length-append w.path (slash ∷ e.name))

pub enqueue_unknown :
    (ws : List Watch) (e : RawEvent) (es : List Event)
    → find_first (has_wd e.wd) ws ≡ none
    → enqueue ws e es ≡ es
unfolding enqueue
enqueue_unknown ws e es u = ground arith

pub enqueue_known :
    (ws : List Watch) (e : RawEvent) (es : List Event) (w : Watch)
    → find_first (has_wd e.wd) ws ≡ some w
    → enqueue ws e es ≡ es ++ (event_of w e ∷ [])
unfolding enqueue
enqueue_known ws e es w k = ground arith

-- Adding an event, where memory is found, puts it behind the others with the path and the suffix of
-- the first watch that has its descriptor, and changes nothing if none has it.
pub add_inotify_event-Holds :
    (fresh : Ptr) (wl : Handle) (wh : Heap Watch) (e : RawEvent) (l : Handle) (h : Heap Event)
    (ws : List Watch) (es : List Event)
    → fresh ≢ null
    → h fresh ≡ none
    → Holds wh wl ws
    → Holds h l es
    → Ends (add_inotify_event fresh wl wh e l h) (λ l' g. Holds g l' (enqueue ws e es))
unfolding add_inotify_event enqueue
add_inotify_event-Holds fresh wl wh e l h ws es ne unused hw he =
    let (p, found, at, missing) = find_element_by_wd-Holds e.wd wl wh ws hw in
    elim (Option-cases (find_first (has_wd e.wd) ws)) [
      | inl unknown ↦ (
        l,
        h,
        rw (found, missing unknown) refl,
        subst (λ vs. Holds h l vs) (sym (enqueue_unknown ws e es unknown)) he,
      )
      | inr (w, known) ↦
          let (p≢null, (c, read, is_w)) = load_of_payload p wh w (at ∙ known) in
          let (l', g, run, holds) =
            push_back-Holds fresh (event_of c.value e) l h es ne unused he in
          (
            l',
            g,
            rw (found, ==_ne p null p≢null, read, run) refl,
            subst (λ vs. Holds g l' vs) (sym (enqueue_known ws e es w known))
                (subst (λ w'. Holds g l' (es ++ (event_of w' e ∷ []))) is_w holds),
          )
    ]

-- On a heap that holds the queue, `remove_inotify_event` ends without a fault with the queue
-- without its first event, and with the empty queue as it is.
pub remove_inotify_event-Holds :
    (l : Handle) (h : Heap Event) (es : List Event)
    → Holds h l es
    → Ends (remove_inotify_event l h) (λ l' g. Holds g l' (tail es))
unfolding remove_inotify_event
remove_inotify_event-Holds l h es holds = pop_front-Holds l h es holds
