-- ===== src/Tokenizer.antt =====
-- `tokenizer` of src/utils.c: the words of a command line, handed out one call at a time. The
-- static variables `_tok`, `pos` and `len` are the state; `len` is the length of the text. The
-- NULs that the code writes behind a token lie before the new `pos`, where no later call reads,
-- so the text itself stays as it was set.
pub mod Words
pub mod Line
pub mod Progress
use unix_backup_c.Common.{
  ℕ, zero, suc, ◌+◌, ◌-◌, ◌*◌, ◌/◌, ◌%◌, ◌^◌, ◌≤◌, ◌<◌, ◌≡◌, refl, sym, ap, ◌∙◌, ◌≢◌, ◌↔◌, ◌⊎◌, inl,
  inr, Bool, true, false, not, ◌&&◌, ◌||◌, Option, none, some, List, [], ◌∷◌, ◌++◌, map, arith, ltb,
  leb, ◌==◌, ==_iff, ==_refl, if◌then◌else◌, Bool-cases, Option-cases, length, get_elem?, take,
  drop, length-append, length-drop, take-append-drop, drop-length-append, All, All-append,
}
use unix_backup_c.Common.Bytes.{
  Bytes, bytes, char_at, str_eq, starts_with, str_eq_sound, str_eq_refl, starts_with-append,
  starts_with_sound, char_at-length-append,
}
use mathlib.Core.List.{append-nil, append_assoc}
use mathlib.Core.Path.{subst}

-- `'\"'` and `' '`
abbrev pub quote : ℕ
quote = 34

abbrev pub space : ℕ
space = 32

-- `type`: -1, 0 and 1.
pub data Mode : Type 0 where
  skip word quoted : Mode

-- What one round of the loop does with the byte `_tok[i]` and those behind it.
pub data Round : Type 0 where
  -- go on, in a mode and with the token so far
  next : Mode → Bytes → Round
  -- return the token, with `pos = i + n`
  done : Bytes → ℕ → Round

-- The branch for `type == 0`; `acc` holds the bytes from `starti` up to `i`.
word_round : Bytes → ℕ → Bytes → Round
word_round acc c [] = done (acc ++ (c ∷ [])) 1
word_round acc c (d ∷ rest) =
    if not (c == space) && d == space then done (acc ++ (c ∷ [])) 2 else next word (acc ++ (c ∷ []))

-- The branch for `type == 1`.
quoted_round : Bytes → ℕ → Bytes → Round
quoted_round acc c [] = if c == quote then done acc 1 else next quoted (acc ++ (c ∷ []))
quoted_round acc c (d ∷ rest) =
    if c == quote && d == space then done acc 1 else next quoted (acc ++ (c ∷ []))

round : Mode → Bytes → ℕ → Bytes → Round
unfolding word_round quoted_round
round skip acc c rest =
    if c == quote
    then next quoted []
    else if not (c == space)
    then word_round [] c rest
    else next skip []
round word acc c rest = word_round acc c rest
round quoted acc c rest = quoted_round acc c rest

-- `for (int i = pos; i < len; i++)`, over the bytes from `i` on: the token and the new `pos`.
pub scan : Bytes → ℕ → Mode → Bytes → Option (Bytes × ℕ)
unfolding round
scan [] i mode acc = none
scan (c ∷ rest) i mode acc = elim (round mode acc c rest) [
  | next mode' acc' ↦ scan rest (i + 1) mode' acc'
  | done token n ↦ some (token, i + n)
]

pub record Tokenizer : Type 0 where
  pub text : Bytes
  pub pos : ℕ

-- The static variables before the first call.
abbrev pub unset : Tokenizer
unset = record { text = []; pos = 0 }

-- The body behind the test of the argument.
continue_from : Tokenizer → Option Bytes × Tokenizer
unfolding scan
continue_from t = elim (scan (drop t.pos t.text) t.pos skip []) [
  | none ↦ (none, t)
  | some (token, p) ↦ (some token, record t { pos = p })
]

-- `tokenizer(tok)`; `none` as the argument is NULL, which goes on with the text that was set.
unfoldable pub tokenizer : Option Bytes → Tokenizer → Option Bytes × Tokenizer
unfolding continue_from
tokenizer (some s) t = continue_from (record { text = s; pos = 0 })
tokenizer none t = continue_from t

-- `while (tok != NULL) { …; tok = tokenizer(NULL); }`: the tokens that are left, in order, with
-- fuel for the calls.
pub tokens : ℕ → Tokenizer → List Bytes
tokens zero t = []
tokens (suc fuel) t =
    let (token, t') = tokenizer none t in elim token [ none ↦ [] | some w ↦ w ∷ tokens fuel t' ]
