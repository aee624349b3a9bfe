-- ===== src/Registry/Session.antt =====
-- `input_handler` of src/main.c: the commands of a session, line by line.
pub mod Program
pub mod Sound
use unix_backup_c.Common.{
  ℕ, zero, suc, ◌+◌, ◌-◌, ◌*◌, ◌/◌, ◌%◌, ◌^◌, ◌≤◌, ◌<◌, ◌≡◌, refl, sym, ap, ◌∙◌, ◌≢◌, ◌↔◌, ◌⊎◌, inl,
  inr, Bool, true, false, not, ◌&&◌, ◌||◌, Option, none, some, List, [], ◌∷◌, ◌++◌, map, arith, ltb,
  leb, ◌==◌, ==_iff, ==_refl, ==_false_sym, ==_ne, &&_split, ||_split, ◌>>=◌, >>=-eq-some, is_some,
  if◌then◌else◌, Bool-cases, Option-cases, length, get_elem?, take, drop, length-append,
  length-drop, drop-length_plus, drop-plus, drop_of_length, take-append-drop, drop-length-append,
  All, All-append,
}
use unix_backup_c.Common.Bytes.{
  Bytes, bytes, char_at, str_eq, starts_with, str_eq_sound, str_eq_refl, starts_with-append,
  starts_with_sound, char_at-length-append,
}
use mathlib.Core.List.{append-nil, append_assoc, map-append}
use mathlib.Core.Path.{subst}
use unix_backup_c.Outcome.{Outcome, ok, exited, and_then}
use unix_backup_c.Types.{Source}
use unix_backup_c.Outcome.{fault}
use unix_backup_c.Tokenizer.{Tokenizer, unset, tokenizer, tokens}
use unix_backup_c.Registry.{Os, Main}
use unix_backup_c.Registry.Commands.{take_input, end, reap_dead_children}

-- What one round finds: the line that `getline` gives, without its newline, or none at the end of
-- the input and at an interrupt; and the flags that the signal handlers have set meanwhile.
pub record Read : Type 0 where
  pub text : Option Bytes
  pub sigchld_received : Bool
  -- the processes that `waitpid` gives
  pub died : List ℕ
  pub finish_work_flag : Bool

module _ (os : Os) where
  -- The tokens that are left.
  abbrev pub rest_of : Tokenizer → List Bytes
  rest_of t = tokens (length t.text) t

  -- A command by its first token; the answer `true` ends the loop.
  unfoldable pub command : Bytes → Tokenizer → Main os → Outcome (Bool × Main os)
  command tok t m =
      if str_eq tok (bytes "add")
      then and_then (take_input os (rest_of t) m) (λ r. ok (false, r.1))
      else if str_eq tok (bytes "end")
      then elim (tokenizer none t).0 [
        | none ↦ ok (false, m)
        | some name ↦ ok (false, end os name (rest_of (tokenizer none t).1) m)
      ]
      else if str_eq tok (bytes "restore")
      then (let source = tokenizer none t in
          let target = tokenizer none source.1 in
          and_then (os.restore_files source.0 target.0 m.world)
            (λ w. ok (false, record m { world = w })))
      else ok (str_eq tok (bytes "exit"), m)

  -- A line; an empty one and one without a token are passed over.
  unfoldable pub input_line : Bytes → Main os → Outcome (Bool × Main os)
  input_line text m = elim (tokenizer (some text) unset).0 [
    | none ↦ ok (false, m)
    | some tok ↦ command tok (tokenizer (some text) unset).1 m
  ]

  unfoldable pub input_round : Read → Main os → Outcome (Bool × Main os)
  input_round r m =
      let m' = if r.sigchld_received then reap_dead_children os r.died m else m in
      if r.finish_work_flag
      then ok (true, m')
      else elim r.text [ none ↦ ok (false, m') | some text ↦ input_line text m' ]

  -- `stop_all_backups`
  unfoldable pub stop_all_backups : Main os → Main os
  stop_all_backups m = record { world = os.stop_children m.world; backups = []; child_count = 0 }

  -- The loop over the rounds; `false` as the answer says that it has not ended with the last of
  -- them.
  unfoldable pub input_handler : List Read → Main os → Outcome (Bool × Main os)
  input_handler [] m = ok (false, m)
  input_handler (r ∷ rs) m = and_then (input_round r m) λ (stop, m'). elim stop [
    | true ↦ ok (true, stop_all_backups m')
    | false ↦ input_handler rs m'
  ]
