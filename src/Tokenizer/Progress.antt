-- ===== src/Tokenizer/Progress.antt =====
-- The loops that call `tokenizer` until it returns NULL come to an end.
use unix_backup_c.Common.{
  ℕ, zero, suc, ◌+◌, ◌-◌, ◌≤◌, ◌<◌, ◌≡◌, refl, sym, ap, ◌∙◌, inl, inr, none, some, [], ◌∷◌, arith,
  Option-cases, length, drop, length-drop,
}
use unix_backup_c.Common.Bytes.{Bytes}
use unix_backup_c.Tokenizer.{
  Round, Tokenizer, Mode, skip, word, quoted, next, done, scan, round, continue_from, tokenizer,
  tokens,
}

round-done :
    (mode : Mode) (acc : Bytes) (c : ℕ) (rest : Bytes) {w : Bytes} {n : ℕ}
    → round mode acc c rest ≡ done w n
    → (0 < n) × (n ≤ suc (length rest))
unfolding round
round-done skip acc c [] e = ground arith
round-done skip acc c (d ∷ rest) e = ground arith
round-done word acc c [] e = ground arith
round-done word acc c (d ∷ rest) e = ground arith
round-done quoted acc c [] e = ground arith
round-done quoted acc c (d ∷ rest) e = ground arith

-- One round and what the recursive call gives.
bounds_of-round :
    (i n : ℕ) (s w : Bytes) (p : ℕ) (r : Round)
    → ((v : Bytes) (k : ℕ) → r ≡ done v k → (0 < k) × (k ≤ suc n))
    → ((mode : Mode) (acc : Bytes)
        → scan s (i + 1) mode acc ≡ some (w, p)
        → (i + 1 < p) × (p ≤ i + 1 + n))
    → elim r [ next mode acc ↦ scan s (i + 1) mode acc | done v k ↦ some (v, i + k) ] ≡ some (w, p)
    → (i < p) × (p ≤ i + suc n)
bounds_of-round i n s w p (next mode acc) fin more e = omega (arith, more mode acc e)
bounds_of-round i n s w p (done v k) fin more e = ground (arith, fin v k refl)

scan_bounds :
    (s : Bytes) (i : ℕ) (mode : Mode) (acc : Bytes) (w : Bytes) (p : ℕ)
    → scan s i mode acc ≡ some (w, p)
    → (i < p) × (p ≤ i + length s)
unfolding scan
scan_bounds [] i mode acc w p e = cc
scan_bounds (c ∷ s) i mode acc w p e =
    bounds_of-round i (length s) s w p (round mode acc c s) (λ v k d. round-done mode acc c s d)
      (λ mode' acc' e'. scan_bounds s (i + 1) mode' acc' w p e') e

-- A token comes from the scan, and only `pos` moves.
tokenizer-some :
    (t u : Tokenizer) (w : Bytes)
    → tokenizer none t ≡ (some w, u)
    → (u ≡ record t { pos = u.pos }) × (scan (drop t.pos t.text) t.pos skip [] ≡ some (w, u.pos))
unfolding tokenizer continue_from
tokenizer-some t u w e = elim (Option-cases (scan (drop t.pos t.text) t.pos skip [])) [
  | inl stop ↦ absurd (ground arith)
  | inr ((v, p), more) ↦ ground arith
]

-- A call that returns a token, with `pos` within the text, leaves the text and moves `pos` on, at
-- most to the end of the text.
pub tokenizer-pos :
    (t u : Tokenizer) (w : Bytes)
    → t.pos ≤ length t.text
    → tokenizer none t ≡ (some w, u)
    → (u.text ≡ t.text) × (t.pos < u.pos) × (u.pos ≤ length t.text)
tokenizer-pos t u w h e =
    let (same, found) = tokenizer-some t u w e in
    let (up, down) = scan_bounds (drop t.pos t.text) t.pos skip [] w u.pos found in
    (ap (λ v. v.text) same, up, omega (arith, length-drop t.pos t.text))

pub tokens-some :
    (fuel : ℕ) (t u : Tokenizer) (w : Bytes)
    → tokenizer none t ≡ (some w, u)
    → tokens (suc fuel) t ≡ w ∷ tokens fuel u
unfolding tokens
tokens-some fuel t u w e = ground arith

pub tokens-none : (fuel : ℕ) (t : Tokenizer) → (tokenizer none t).0 ≡ none → tokens fuel t ≡ []
unfolding tokens
tokens-none zero t e = refl
tokens-none (suc fuel) t e = ground arith

-- A loop over the tokens that may make as many calls as bytes are left has made them all: more
-- calls give no further token.
pub tokens_enough :
    (fuel k : ℕ) (t : Tokenizer)
    → t.pos ≤ length t.text
    → length t.text - t.pos ≤ fuel
    → tokens (fuel + k) t ≡ tokens fuel t
tokens_enough zero k t h f = elim (Option-cases (tokenizer none t).0) [
  | inl stop ↦ tokens-none (zero + k) t stop ∙ sym (tokens-none zero t stop)
  | inr (w, e) ↦
      let (same, up, down) =
        tokenizer-pos t (tokenizer none t).1 w h (ap (λ a. (a, (tokenizer none t).1)) e) in
      absurd (omega arith)
]
tokens_enough (suc fuel) k t h f = elim (Option-cases (tokenizer none t).0) [
  | inl stop ↦ tokens-none (suc fuel + k) t stop ∙ sym (tokens-none (suc fuel) t stop)
  | inr (w, e) ↦
      let u : Tokenizer = (tokenizer none t).1 in
      let got : tokenizer none t ≡ (some w, u) = ap (λ a. (a, u)) e in
      let (same, up, down) = tokenizer-pos t u w h got in
      let shift : suc fuel + k ≡ suc (fuel + k) = omega arith in
      ap (λ n. tokens n t) shift
      ∙ (tokens-some (fuel + k) t u w got
          ∙ (ap (λ l. w ∷ l)
                (tokens_enough fuel k u (omega (arith, ap length same))
                  (omega (arith, ap length same)))
              ∙ sym (tokens-some fuel t u w got)))
]
