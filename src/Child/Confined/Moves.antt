-- ===== src/Child/Confined/Moves.antt =====
-- Moves whose paths lie in the source.
use unix_backup_c.Common.{ℕ, ◌≡◌, sym, ap, ◌∙◌, Bool, true, false, Option, none, some}
use unix_backup_c.Common.Bytes.{Bytes}
use mathlib.Core.Path.{subst}
use mathlib.Core.Option.{some-injective}
use unix_backup_c.Types.{Move}
use unix_backup_c.Paths.{get_end_suffix}
use unix_backup_c.Paths.Inside.{IsBoundary, Within}
use unix_backup_c.Paths.Suffix.{get_end_suffix-append}
use unix_backup_c.Child.Moves.{match_node, new_move, fill}

-- The paths of a move that are known lie in the source.
abbrev pub KnownWithin : Bytes → Option Bytes → Type 0
KnownWithin source none = Unit
KnownWithin source (some path) = Within source path

abbrev pub IsMove : Bytes → Move → Type 0
IsMove source m = KnownWithin source m.move_from × KnownWithin source m.move_to

fill-KnownWithin :
    (source path : Bytes) (old : Option Bytes)
    → Within source path
    → KnownWithin source old
    → KnownWithin source (fill path old)
fill-KnownWithin source path none h k = h
fill-KnownWithin source path (some old) h k = k

pub match_node-IsMove :
    (source : Bytes) (is_from : Bool) (path : Bytes) (now : ℕ) (m : Move)
    → Within source path
    → IsMove source m
    → IsMove source (match_node is_from path now m)
unfolding match_node
match_node-IsMove source true path now m h (from, to) =
    (fill-KnownWithin source path m.move_from h from, to)
match_node-IsMove source false path now m h (from, to) =
    (from, fill-KnownWithin source path m.move_to h to)

pub new_move-IsMove :
    (source : Bytes) (cookie : ℕ) (is_from : Bool) (path : Bytes) (now : ℕ)
    → Within source path
    → IsMove source (new_move cookie is_from path now)
unfolding new_move
new_move-IsMove source cookie true path now h = (h, tt)
new_move-IsMove source cookie false path now h = (tt, h)

pub suffix-IsBoundary :
    (source : Bytes) (from : Option Bytes) (suffix : Bytes)
    → KnownWithin source from
    → get_end_suffix (some source) from ≡ some suffix
    → IsBoundary suffix
unfolding get_end_suffix
suffix-IsBoundary source none suffix k e = absurd (cc)
suffix-IsBoundary source (some path) suffix (rest, at, b) e =
    subst IsBoundary
      (some-injective rest suffix (
        sym (get_end_suffix-append source rest)
        ∙ (ap (λ p. get_end_suffix (some source) (some p)) (sym at) ∙ e)))
      b
