-- ===== src/Tests/Texts.antt =====
-- Paths, command lines, watches and event buffers of src/utils.c and src/inotify_functions.c.
use unix_backup_c.Common.{
  ◌+◌, ◌-◌, ◌≤◌, ◌≡◌, refl, ◌≢◌, ◌↔◌, inl, inr, true, none, some, List, [], ◌∷◌, ◌++◌, arith,
  length,
}
use unix_backup_c.Common.Bytes.{Bytes, bytes}
use unix_backup_c.Tokenizer.Line.{tokens-line}
use unix_backup_c.Types.{Watch}
use unix_backup_c.Paths.{
  strip_lead, is_target_in_source, concat, get_end_suffix, get_path_to_target,
}
use unix_backup_c.Paths.Inside.{Within, is_target_in_source-iff_Within}
use unix_backup_c.Paths.Suffix.{Diverge, get_end_suffix_longest}
use unix_backup_c.Paths.Mirror.{get_path_to_target-eq-concat, length-get_path_to_target}
use unix_backup_c.Tokenizer.{Tokenizer, tokenizer, tokens}
use unix_backup_c.Tokenizer.Words.{Typed, bare, in_quotes, line}
use unix_backup_c.Tokenizer.Progress.{tokens_enough}
use unix_backup_c.Events.{RawEvent}
use unix_backup_c.Reader.{read_events, whole}
use unix_backup_c.Reader.Encode.{encode_all, IsKernel}
use unix_backup_c.Reader.Roundtrip.{AllSame, read_events-encode_all}

abbrev home : Bytes
home = bytes "/h"

abbrev below : Bytes
below = bytes "/h/a"

strip_home : strip_lead home ≢ []
unfolding strip_lead
strip_home e = ground arith

is_target_in_source-iff_Within_example :
    (is_target_in_source (some home) (some below) ≡ true)
    ↔ Within (strip_lead home) (strip_lead below)
is_target_in_source-iff_Within_example = is_target_in_source-iff_Within home below strip_home

get_end_suffix_longest_example :
    (common : Bytes) × (left : Bytes) × (suffix : Bytes) × (get_end_suffix (some home) (some below)
      ≡ some suffix)
    × (home ≡ common ++ left)
    × (below ≡ common ++ suffix)
    × Diverge left suffix
get_end_suffix_longest_example = get_end_suffix_longest home below

get_path_to_target-eq-concat_example :
    get_path_to_target home (bytes "/t") below
    ≡ some (concat (some (bytes "/t")) (get_end_suffix (some home) (some below)))
get_path_to_target-eq-concat_example =
    get_path_to_target-eq-concat home (bytes "/t") (bytes "/a") (λ e. omega arith)
      (inr (refl, λ e. omega arith))

at_below : get_path_to_target home (bytes "/t") below ≡ some (bytes "/t/a")
unfolding get_path_to_target
at_below = refl

length-get_path_to_target_example : 4 + 1 ≤ 4 - 2 + 2 + 5
length-get_path_to_target_example =
    length-get_path_to_target home (bytes "/t") below {out = bytes "/t/a"} (omega arith) at_below

abbrev words : List Typed
words = bare (bytes "add") ∷ in_quotes (bytes "a b") ∷ []

tokens-line_example :
    tokens 2 (record { text = line words; pos = 0 }) ≡ bytes "add" ∷ bytes "a b" ∷ []
tokens-line_example =
    tokens-line 2 words
      (
        (λ e. omega arith, (λ e. omega arith, (λ e. omega arith, (λ e. omega arith, tt)))),
        ((λ e. omega arith, (λ e. omega arith, (λ e. omega arith, tt))), tt),
      )
      (omega arith)

abbrev started : Tokenizer
started = record { text = bytes "a b"; pos = 0 }

abbrev went_on : Tokenizer
went_on = record { text = bytes "a b"; pos = 2 }

run_started : tokenizer none started ≡ (some (bytes "a"), went_on)
unfolding tokenizer
run_started = refl

tokens_enough_example : tokens (3 + 4) started ≡ tokens 3 started
tokens_enough_example = tokens_enough 3 4 started (omega arith) (omega arith)

abbrev root_watch : Watch
root_watch = record {
  wd = 1;
  source_friendly = bytes "h";
  source_full = home;
  path = home;
  suffix = [];
}

abbrev made : RawEvent
made = record { wd = 1; mask = 256; cookie = 0; len = 4; name = bytes "a" }

made-IsKernel : IsKernel made
made-IsKernel = record {
  wd_bound = ground arith;
  mask_bound = ground arith;
  cookie_bound = ground arith;
  len_bound = ground arith;
  aligned = refl;
  no_nul = (λ e. omega arith, tt);
  room = inl (omega arith);
}

abbrev buffer : Bytes
buffer = encode_all (made ∷ [])

read_events-encode_all_example :
    AllSame (read_events (length buffer) (bytes "x") buffer).0 (made ∷ [])
    × ((read_events (length buffer) (bytes "x") buffer).1 ≡ whole)
read_events-encode_all_example = read_events-encode_all (bytes "x") (made ∷ []) (made-IsKernel, tt)
