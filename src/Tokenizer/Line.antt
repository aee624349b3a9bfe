-- ===== src/Tokenizer/Line.antt =====
-- A command line written word by word comes back from `tokenizer` word by word.
use unix_backup_c.Common.{
  ℕ, zero, suc, ◌+◌, ◌≤◌, ◌≡◌, refl, sym, ap, ◌∙◌, inl, inr, none, some, List, [], ◌∷◌, ◌++◌, map,
  arith, Option-cases, length, drop, drop-length_plus, drop-plus, drop_of_length, All,
}
use unix_backup_c.Common.Bytes.{Bytes}
use mathlib.Core.List.{append_assoc}
use unix_backup_c.Tokenizer.Progress.{tokens-some, tokens-none}
use unix_backup_c.Tokenizer.{
  tokens, continue_from, Tokenizer, tokenizer, skip, some, ◌++◌, [], ◌∷◌, Bytes, ℕ, quote, space,
  scan,
}
use unix_backup_c.Tokenizer.Words.{
  Typed, bare, in_quotes, written, meant, IsTyped, line, used, left, scan-space, scan-last,
  scan-more,
}

drop-used : (a : Typed) (rest : Bytes) → drop (used a) (written a ++ (space ∷ rest)) ≡ left a rest
drop-used (bare w) rest = drop-length_plus w (space ∷ rest) 1
drop-used (in_quotes w) rest =
    let e : length w + 2 ≡ suc (length w + 1) = omega arith in
    rw (e, append_assoc) (drop-length_plus w (quote ∷ space ∷ rest) 1)

drop-written : (a : Typed) → drop (length (written a)) (written a) ≡ []
drop-written a = drop_of_length (length (written a)) (written a) refl

tokenizer-scan :
    (t : Tokenizer) {w : Bytes} {p : ℕ}
    → scan (drop t.pos t.text) t.pos skip [] ≡ some (w, p)
    → tokenizer none t ≡ (some w, record t { pos = p })
unfolding tokenizer continue_from
tokenizer-scan t e = ground arith

-- One call of `tokenizer` at the beginning of a word that a space follows.
tokenizer-more :
    (a : Typed) (rest : Bytes) (t : Tokenizer)
    → IsTyped a
    → drop t.pos t.text ≡ written a ++ (space ∷ rest)
    → (tokenizer none t ≡ (some (meant a), record t { pos = t.pos + used a }))
      × (drop (t.pos + used a) t.text ≡ left a rest)
tokenizer-more a rest t h e = (
  tokenizer-scan t (rw e (scan-more a rest t.pos h)),
  rw (drop-plus t.pos (used a) t.text, e) (drop-used a rest),
)

tokenizer-last :
    (a : Typed) (t : Tokenizer)
    → IsTyped a
    → drop t.pos t.text ≡ written a
    → (tokenizer none t ≡ (some (meant a), record t { pos = t.pos + length (written a) }))
      × (drop (t.pos + length (written a)) t.text ≡ [])
tokenizer-last a t h e = (
  tokenizer-scan t (rw e (scan-last a t.pos h)),
  rw (drop-plus t.pos (length (written a)) t.text, e) (drop-written a),
)

tokenizer-none :
    (t : Tokenizer) → scan (drop t.pos t.text) t.pos skip [] ≡ none → tokenizer none t ≡ (none, t)
unfolding tokenizer continue_from
tokenizer-none t e = ground arith

-- A space in front is skipped: the same tokens come as from the text behind it.
tokens-space :
    (fuel : ℕ) (s : Bytes) (t : Tokenizer)
    → drop t.pos t.text ≡ space ∷ s
    → tokens fuel t ≡ tokens fuel (record t { pos = t.pos + 1 })
unfolding tokens
tokens-space zero s t e = refl
tokens-space (suc fuel) s t e =
    let u : Tokenizer = record t { pos = t.pos + 1 } in
    let e' : drop (t.pos + 1) t.text ≡ s = rw (drop-plus t.pos 1 t.text, e) refl in
    elim (Option-cases (scan s (t.pos + 1) skip [])) [
      | inl stop ↦
          tokens-none (suc fuel) t
            (ap (λ p. p.0) (tokenizer-none t (rw (e, scan-space s t.pos) stop)))
          ∙ sym (tokens-none (suc fuel) u (ap (λ p. p.0) (tokenizer-none u (rw e' stop))))
      | inr ((w, p), more) ↦
          tokens-some fuel t (record t { pos = p }) w
            (tokenizer-scan t (rw (e, scan-space s t.pos) more))
          ∙ sym (tokens-some fuel u (record t { pos = p }) w (tokenizer-scan u (rw e' more)))
    ]

scan-nil : (i : ℕ) → scan [] i skip [] ≡ none
unfolding scan
scan-nil i = refl

tokens-line_from :
    (fuel : ℕ) (args : List Typed) (t : Tokenizer)
    → All IsTyped args
    → drop t.pos t.text ≡ line args
    → length args ≤ fuel
    → tokens fuel t ≡ map meant args
tokens-line_from fuel [] t h e f =
    tokens-none fuel t (ap (λ p. p.0) (tokenizer-none t (rw e (scan-nil t.pos))))
tokens-line_from zero (a ∷ args) t h e f = absurd (omega arith)
tokens-line_from (suc fuel) (a ∷ []) t h e f =
    let (got, rest) = tokenizer-last a t h.0 e in
    tokens-some fuel t _ (meant a) got
    ∙ ap (λ l. meant a ∷ l) (tokens-line_from fuel [] _ tt rest (omega arith))
tokens-line_from (suc fuel) (bare w ∷ b ∷ args) t h e f =
    let (got, rest) = tokenizer-more (bare w) (line (b ∷ args)) t h.0 e in
    tokens-some fuel t _ w got
    ∙ ap (λ l. w ∷ l) (tokens-line_from fuel (b ∷ args) _ h.1 rest (omega arith))
tokens-line_from (suc fuel) (in_quotes w ∷ b ∷ args) t h e f =
    let (got, rest) = tokenizer-more (in_quotes w) (line (b ∷ args)) t h.0 e in
    let u : Tokenizer = record t { pos = t.pos + used (in_quotes w) } in
    tokens-some fuel t u w got
    ∙ ap (λ l. w ∷ l)
        (tokens-space fuel (line (b ∷ args)) u rest
          ∙ tokens-line_from fuel (b ∷ args) (record u { pos = u.pos + 1 }) h.1
              (rw (drop-plus u.pos 1 u.text, rest) refl) (omega arith))

-- A command line of words, each bare (not empty, without a space, not starting with a quote) or in
-- quotes (without a quote inside), and one space between two words, is read as these words, in
-- order and to the last, where the calls allowed are at least as many.
pub tokens-line :
    (fuel : ℕ) (args : List Typed)
    → All IsTyped args
    → length args ≤ fuel
    → tokens fuel (record { text = line args; pos = 0 }) ≡ map meant args
tokens-line fuel args h f = tokens-line_from fuel args _ h refl f
