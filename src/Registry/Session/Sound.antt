-- ===== src/Registry/Session/Sound.antt =====
-- A whole session keeps the lists consistent.
use unix_backup_c.Common.{
  refl, sym, ◌≢◌, inl, inr, Bool, true, false, Option, none, some, List, [], ◌∷◌, arith,
  if◌then◌else◌, Bool-cases, Option-cases, All,
}
use unix_backup_c.Common.Bytes.{Bytes, bytes, str_eq}
use mathlib.Core.Path.{subst}
use unix_backup_c.Registry.Add.{IsReadable}
use unix_backup_c.Registry.Session.{rest_of}
use unix_backup_c.Registry.Session.{stop_all_backups, input_handler}
use unix_backup_c.Outcome.{Outcome, ok, exited, fault, and_then}
use unix_backup_c.Tokenizer.{Tokenizer, unset, tokenizer}
use unix_backup_c.Registry.{Os, Main, has_source}
use unix_backup_c.Counts.{count-nil}
use unix_backup_c.Registry.Commands.{reap_dead_children}
use unix_backup_c.Registry.Invariant.{IsConsistent, total-nil, named-nil}
use unix_backup_c.Registry.Took.{IsSound, take_input-IsSound}
use unix_backup_c.Registry.Ends.{end-IsConsistent, reap_dead_children-IsConsistent}
use unix_backup_c.Registry.Session.{Read, command, input_line, input_round}

pub IsConsistent-nil : IsConsistent [] 0
IsConsistent-nil = record {
  counted = sym total-nil;
  sources_once = λ n. omega (arith, count-nil (has_source n));
  targets_once = λ n. omega (arith, named-nil n);
  active = tt;
}

module _ (os : Os) where
  answered :
      (answer : Bool) (r : Outcome (Bool × Main os))
      → IsSound os r
      → IsSound os (and_then r λ x. ok (answer, x.1))
  answered answer (ok x) h = h
  answered answer exited h = tt
  answered answer fault h = h

  -- The tokens of a command are read without a fault: those of `add` by `is_empty_dir`, and the two
  -- of `restore` by the operations on files.
  pub record IsReadableCommand (t : Tokenizer) : Type 0 where
    pub names : All (IsReadable os) (rest_of os t)
    pub restores :
        (w : os.World)
        → os.restore_files (tokenizer none t).0 (tokenizer none (tokenizer none t).1).0 w ≢ fault

  -- The same of the line that a round reads, if any.
  abbrev pub IsReadableLine : Option Bytes → Type 0
  IsReadableLine none = Unit
  IsReadableLine (some text) = IsReadableCommand (tokenizer (some text) unset).1

  written :
      (m : Main os) (r : Outcome os.World)
      → r ≢ fault
      → IsConsistent m.backups m.child_count
      → IsSound os (and_then r λ w. ok (false, record m { world = w }))
  written m (ok w) safe c = c
  written m exited safe c = tt
  written m fault safe c = absurd (safe refl)

  command-IsSound :
      (tok : Bytes) (t : Tokenizer) (m : Main os)
      → IsReadableCommand t
      → IsConsistent m.backups m.child_count
      → IsSound os (command os tok t m)
  unfolding command
  command-IsSound tok t m safe c = elim (Bool-cases (str_eq tok (bytes "add"))) [
    | inl add ↦ rw (add, IsSound) (answered false _ (take_input-IsSound os _ m safe.names c))
    | inr other ↦ elim (Bool-cases (str_eq tok (bytes "end"))) [
      | inl ends ↦ elim (Option-cases (tokenizer none t).0) [
        | inl missing ↦ rw (other, ends, missing, IsSound) c
        | inr (name, given) ↦ rw (other, ends, given, IsSound) (end-IsConsistent os name _ m c)
      ]
      | inr other' ↦ elim (Bool-cases (str_eq tok (bytes "restore"))) [
        | inl restores ↦
            rw (other, other', restores, IsSound) (written m _ (safe.restores m.world) c)
        | inr other'' ↦ rw (other, other', other'', IsSound) c
      ]
    ]
  ]

  input_line-IsSound :
      (text : Bytes) (m : Main os)
      → IsReadableLine (some text)
      → IsConsistent m.backups m.child_count
      → IsSound os (input_line os text m)
  unfolding input_line
  input_line-IsSound text m safe c = elim (Option-cases (tokenizer (some text) unset).0) [
    | inl blank ↦ rw (blank, IsSound) c
    | inr (tok, first) ↦
        rw (first, IsSound) (command-IsSound tok (tokenizer (some text) unset).1 m safe c)
  ]

  -- The state behind the reaping at the head of a round.
  abbrev reaped : Read → Main os → Main os
  reaped r m = if r.sigchld_received then reap_dead_children os r.died m else m

  reaped-IsConsistent :
      (r : Read) (m : Main os)
      → IsConsistent m.backups m.child_count
      → IsConsistent (reaped r m).backups (reaped r m).child_count
  reaped-IsConsistent r m c = elim (Bool-cases r.sigchld_received) [
    | inl signalled ↦ rw signalled (reap_dead_children-IsConsistent os r.died m c)
    | inr quiet ↦ rw quiet c
  ]

  input_round-IsSound :
      (r : Read) (m : Main os)
      → IsReadableLine r.text
      → IsConsistent m.backups m.child_count
      → IsSound os (input_round os r m)
  unfolding input_round
  input_round-IsSound r m safe c =
      let c' = reaped-IsConsistent r m c in
      elim (Bool-cases r.finish_work_flag) [
        | inl finish ↦ rw (finish, IsSound) c'
        | inr on ↦ elim (Option-cases r.text) [
          | inl nothing ↦ rw (on, nothing, IsSound) c'
          | inr (text, line) ↦
              rw (on, line, IsSound)
                (input_line-IsSound text (reaped r m) (subst IsReadableLine line safe) c')
        ]
      ]

  next_round :
      (rs : List Read) (r : Outcome (Bool × Main os))
      → IsSound os r
      → ((m : Main os) → IsConsistent m.backups m.child_count → IsSound os (input_handler os rs m))
      → IsSound os (
          and_then r λ (stop, m). elim stop [
            | true ↦ ok (true, stop_all_backups os m)
            | false ↦ input_handler os rs m
          ])
  unfolding stop_all_backups
  next_round rs (ok (true, m)) c more = IsConsistent-nil
  next_round rs (ok (false, m)) c more = more m c
  next_round rs exited c more = tt
  next_round rs fault c more = c

  -- A session of lines, interrupts and ends of children, from consistent lists, keeps them
  -- consistent: where the operations on files read the tokens of every line without a fault, it ends
  -- with the lists consistent or with the process, and never with a fault of its own.
  pub input_handler-IsSound :
      (rs : List Read) (m : Main os)
      → All (λ r. IsReadableLine r.text) rs
      → IsConsistent m.backups m.child_count
      → IsSound os (input_handler os rs m)
  unfolding input_handler
  input_handler-IsSound [] m safe c = c
  input_handler-IsSound (r ∷ rs) m (readable, safe) c =
      next_round rs (input_round os r m) (input_round-IsSound r m readable c)
        (λ m' c'. input_handler-IsSound rs m' safe c')
