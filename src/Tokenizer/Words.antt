-- ===== src/Tokenizer/Words.antt =====
-- Words of a command line, bare and in quotes, and what a scan makes of one.
use unix_backup_c.Common.{
  ℕ, ◌+◌, ◌≡◌, refl, ◌≢◌, some, List, [], ◌∷◌, ◌++◌, arith, length, length-append, All,
}
use unix_backup_c.Common.Bytes.{Bytes}
use mathlib.Core.List.{append-nil, append_assoc}
use unix_backup_c.Tokenizer.{skip, some, ◌++◌, [], ◌∷◌, Bytes, ℕ, word, quoted, quote, space, scan}

-- A byte other than a space.
abbrev pub IsVisible : ℕ → Type 0
IsVisible c = c ≢ space

-- A word that needs no quotes: not empty, no space, and no quote in front.
abbrev pub IsBare : Bytes → Type 0
IsBare [] = ⊥
IsBare (c ∷ s) = (c ≢ quote) × All IsVisible (c ∷ s)

-- A word that can stand in quotes: no quote in it.
abbrev pub IsQuotable : Bytes → Type 0
IsQuotable = All (λ c. c ≢ quote)

scan-word_end :
    (w acc : Bytes) (i : ℕ) (c : ℕ)
    → All IsVisible (c ∷ w)
    → scan (c ∷ w) i word acc ≡ some (acc ++ (c ∷ w), i + length w + 1)
unfolding scan
scan-word_end [] acc i c h = ground arith
scan-word_end (d ∷ w) acc i c (hc, h) =
    ground (arith, scan-word_end w (acc ++ (c ∷ [])) (i + 1) d h, append_assoc acc (c ∷ []) (d ∷ w))

scan-word_space :
    (w acc rest : Bytes) (i : ℕ) (c : ℕ)
    → All IsVisible (c ∷ w)
    → scan (c ∷ w ++ (space ∷ rest)) i word acc ≡ some (acc ++ (c ∷ w), i + length w + 2)
unfolding scan
scan-word_space [] acc rest i c h = ground arith
scan-word_space (d ∷ w) acc rest i c (hc, h) =
    ground (
      arith,
      scan-word_space w (acc ++ (c ∷ [])) rest (i + 1) d h,
      append_assoc acc (c ∷ []) (d ∷ w),
    )

scan-quoted_end :
    (w acc : Bytes) (i : ℕ)
    → IsQuotable w
    → scan (w ++ (quote ∷ [])) i quoted acc ≡ some (acc ++ w, i + length w + 1)
unfolding scan
scan-quoted_end [] acc i h = ground (arith, append-nil acc)
scan-quoted_end (c ∷ w) acc i (hc, hw) =
    ground (arith, scan-quoted_end w (acc ++ (c ∷ [])) (i + 1) hw, append_assoc acc (c ∷ []) w)

scan-quoted_space :
    (w acc rest : Bytes) (i : ℕ)
    → IsQuotable w
    → scan (w ++ (quote ∷ space ∷ rest)) i quoted acc ≡ some (acc ++ w, i + length w + 1)
unfolding scan
scan-quoted_space [] acc rest i h = ground (arith, append-nil acc)
scan-quoted_space (c ∷ []) acc rest i (hc, hw) =
    ground (arith, scan-quoted_space [] (acc ++ (c ∷ [])) rest (i + 1) hw)
scan-quoted_space (c ∷ d ∷ w) acc rest i (hc, hw) = ground (
  arith,
  scan-quoted_space (d ∷ w) (acc ++ (c ∷ [])) rest (i + 1) hw,
  append_assoc acc (c ∷ []) (d ∷ w),
)

-- A word as it is typed: bare, or in double quotes.
pub data Typed : Type 0 where
  bare : Bytes → Typed
  in_quotes : Bytes → Typed

abbrev pub written : Typed → Bytes
written (bare w) = w
written (in_quotes w) = quote ∷ w ++ (quote ∷ [])

abbrev pub meant : Typed → Bytes
meant (bare w) = w
meant (in_quotes w) = w

abbrev pub IsTyped : Typed → Type 0
IsTyped (bare w) = IsBare w
IsTyped (in_quotes w) = IsQuotable w

-- A line of words with one space between two of them.
abbrev pub line : List Typed → Bytes
line [] = []
line (a ∷ []) = written a
line (a ∷ b ∷ more) = written a ++ (space ∷ line (b ∷ more))

-- The bytes that a word followed by a space uses up: `tokenizer` takes the space behind a bare
-- word along and leaves the one behind a quote.
abbrev pub used : Typed → ℕ
used (bare w) = length w + 1
used (in_quotes w) = length w + 2

abbrev pub left : Typed → Bytes → Bytes
left (bare w) rest = rest
left (in_quotes w) rest = space ∷ rest

scan-skip_word :
    (c : ℕ) (s : Bytes) (i : ℕ)
    → c ≢ quote
    → c ≢ space
    → scan (c ∷ s) i skip [] ≡ scan (c ∷ s) i word []
unfolding scan
scan-skip_word c s i q v = ground arith

scan-quote : (s : Bytes) (i : ℕ) → scan (quote ∷ s) i skip [] ≡ scan s (i + 1) quoted []
unfolding scan
scan-quote s i = refl

pub scan-space : (s : Bytes) (i : ℕ) → scan (space ∷ s) i skip [] ≡ scan s (i + 1) skip []
unfolding scan
scan-space s i = refl

pub scan-last :
    (a : Typed) (i : ℕ)
    → IsTyped a
    → scan (written a) i skip [] ≡ some (meant a, i + length (written a))
scan-last (bare []) i h = absurd h
scan-last (bare (c ∷ w)) i (q, h) =
    ground (arith, scan-skip_word c w i q h.0, scan-word_end w [] i c h)
scan-last (in_quotes w) i h = ground (
  arith,
  scan-quote (w ++ (quote ∷ [])) i,
  scan-quoted_end w [] (i + 1) h,
  length-append w (quote ∷ []),
)

pub scan-more :
    (a : Typed) (rest : Bytes) (i : ℕ)
    → IsTyped a
    → scan (written a ++ (space ∷ rest)) i skip [] ≡ some (meant a, i + used a)
scan-more (bare []) rest i h = absurd h
scan-more (bare (c ∷ w)) rest i (q, h) =
    ground (arith, scan-skip_word c (w ++ (space ∷ rest)) i q h.0, scan-word_space w [] rest i c h)
scan-more (in_quotes w) rest i h = ground (
  arith,
  append_assoc w (quote ∷ []) (space ∷ rest),
  scan-quote (w ++ (quote ∷ space ∷ rest)) i,
  scan-quoted_space w [] rest (i + 1) h,
)
