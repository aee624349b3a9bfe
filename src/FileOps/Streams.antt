-- ===== src/FileOps/Streams.antt =====
-- The loops of `copy_file` copy every byte, and end.
use unix_backup_c.Common.{
  ℕ, zero, suc, ◌+◌, ◌≤◌, ◌<◌, ◌≡◌, refl, sym, ap, ◌∙◌, inl, inr, Option, some, [], ◌∷◌, ◌++◌,
  arith, Option-cases, length, take, drop, length-append, length-drop, take-append-drop,
}
use unix_backup_c.Common.Bytes.{Bytes}
use mathlib.Core.List.{append-nil, append_assoc}
use mathlib.Core.Path.{subst}
use unix_backup_c.System.{Sys}
use unix_backup_c.Outcome.{Outcome, ok, exited, fault, and_then}
use unix_backup_c.FileOps.Copies.{buff_size, write_all, copy_bytes}

-- What read(2) and write(2) say while one descriptor is open for reading and the other for writing,
-- on different files: a read takes the first of the bytes that are left, and none only at the end;
-- a write appends some bytes from the front to the content of its file, and at least one.
pub record IsStream (sys : Sys) (read_fd write_fd : ℕ) (content : sys.World → Option Bytes)
    (IsOpen : sys.World → Type 0) : Type 0 where
  pub read_open :
      (w w' : sys.World) (b : Bytes)
      → IsOpen w
      → sys.read read_fd buff_size w ≡ some (b, w')
      → IsOpen w'
  pub write_open :
      (w w' : sys.World) (b : Bytes) (n : ℕ)
      → IsOpen w
      → sys.write write_fd b w ≡ some (n, w')
      → IsOpen w'
  pub takes :
      (w w' : sys.World) (b : Bytes)
      → IsOpen w
      → sys.read read_fd buff_size w ≡ some (b, w')
      → sys.unread read_fd w ≡ b ++ sys.unread read_fd w'
  pub at_end :
      (w w' : sys.World)
      → IsOpen w
      → sys.read read_fd buff_size w ≡ some ([], w')
      → sys.unread read_fd w ≡ []
  pub read_only :
      (w w' : sys.World) (b : Bytes)
      → IsOpen w
      → sys.read read_fd buff_size w ≡ some (b, w')
      → content w' ≡ content w
  pub appends :
      (w w' : sys.World) (b old : Bytes) (n : ℕ)
      → IsOpen w
      → content w ≡ some old
      → sys.write write_fd b w ≡ some (n, w')
      → content w' ≡ some (old ++ take n b)
  pub progress :
      (w w' : sys.World) (b : Bytes) (n : ℕ)
      → IsOpen w
      → sys.write write_fd b w ≡ some (n, w')
      → 0 < length b
      → 0 < n
  pub write_only :
      (w w' : sys.World) (b : Bytes) (n : ℕ)
      → IsOpen w
      → sys.write write_fd b w ≡ some (n, w')
      → sys.unread read_fd w' ≡ sys.unread read_fd w

module _ (sys : Sys) (read_fd write_fd : ℕ) (content : sys.World → Option Bytes)
    (IsOpen : sys.World → Type 0) (stream : IsStream sys read_fd write_fd content IsOpen) where
  -- The content of the file and the bytes that are left to read.
  abbrev Holds : Bytes → Bytes → sys.World → Type 0
  Holds has left w = IsOpen w × (content w ≡ some has) × (sys.unread read_fd w ≡ left)

  abbrev pub Writes : Bytes → Bytes → Outcome sys.World → Type 0
  Writes has left (ok w) = IsOpen w × (content w ≡ some has) × (sys.unread read_fd w ≡ left)
  Writes has left exited = Unit
  Writes has left fault = ⊥

  and_then-Writes :
      (has left has' left' : Bytes) (m : Outcome sys.World) (f : sys.World → Outcome sys.World)
      → Writes has left m
      → ((w : sys.World) → Holds has left w → Writes has' left' (f w))
      → Writes has' left' (and_then m f)
  and_then-Writes has left has' left' (ok w) f h k = k w h
  and_then-Writes has left has' left' exited f h k = tt
  and_then-Writes has left has' left' fault f h k = h

  write_all-Writes :
      (fuel : ℕ) (b has left : Bytes) (w : sys.World)
      → length b ≤ fuel
      → Holds has left w
      → Writes (has ++ b) left (write_all sys fuel write_fd b w)
  unfolding write_all
  write_all-Writes fuel [] has left w h (o, c, u) = (o, c ∙ ap some (sym (append-nil has)), u)
  write_all-Writes zero (x ∷ s) has left w h holds = absurd (omega arith)
  write_all-Writes (suc fuel) (x ∷ s) has left w h (o, c, u) =
      elim (Option-cases (sys.write write_fd (x ∷ s) w)) [
        | inl failed ↦ rw (failed, Writes) tt
        | inr ((n, w1), wrote) ↦
            let some_bytes = stream.progress w w1 (x ∷ s) n o wrote (omega arith) in
            rw (wrote, Writes)
              (subst (λ all. Writes all left (write_all sys fuel write_fd (drop n (x ∷ s)) w1))
                (append_assoc has (take n (x ∷ s)) (drop n (x ∷ s))
                  ∙ ap (λ y. has ++ y) (take-append-drop n (x ∷ s)))
                (write_all-Writes fuel (drop n (x ∷ s)) (has ++ take n (x ∷ s)) left w1
                  (omega (arith, some_bytes, h, length-drop n (x ∷ s)))
                  (
                    stream.write_open w w1 (x ∷ s) n o wrote,
                    stream.appends w w1 (x ∷ s) has n o c wrote,
                    stream.write_only w w1 (x ∷ s) n o wrote ∙ u,
                  )))
      ]

  copy_bytes-Writes :
      (fuel : ℕ) (has left : Bytes) (w : sys.World)
      → length left < fuel
      → Holds has left w
      → Writes (has ++ left) [] (copy_bytes sys fuel read_fd write_fd w)
  unfolding copy_bytes
  copy_bytes-Writes zero has left w h holds = absurd (omega arith)
  copy_bytes-Writes (suc fuel) has left w h (o, c, u) =
      elim (Option-cases (sys.read read_fd buff_size w)) [
        | inl failed ↦ rw (failed, Writes) tt
        | inr (([], w1), nothing) ↦
            let ended : left ≡ [] = sym u ∙ stream.at_end w w1 o nothing in
            rw (nothing, Writes)
              (
                stream.read_open w w1 [] o nothing,
                stream.read_only w w1 [] o nothing
                    ∙ (c ∙ ap some (sym (append-nil has) ∙ ap (λ y. has ++ y) (sym ended))),
                sym (stream.takes w w1 [] o nothing) ∙ (u ∙ ended),
              )
        | inr ((x ∷ s, w1), chunk) ↦
            let taken : left ≡ (x ∷ s) ++ sys.unread read_fd w1 =
              sym u ∙ stream.takes w w1 (x ∷ s) o chunk in
            let rest = sys.unread read_fd w1 in
            rw (chunk, Writes)
              (and_then-Writes (has ++ (x ∷ s)) rest (has ++ left) []
                (write_all sys (length (x ∷ s)) write_fd (x ∷ s) w1) _
                (write_all-Writes (length (x ∷ s)) (x ∷ s) has rest w1 (omega arith) (
                  stream.read_open w w1 (x ∷ s) o chunk,
                  stream.read_only w w1 (x ∷ s) o chunk ∙ c,
                  refl,
                ))
                (λ w2 holds.
                  subst (λ all. Writes all [] (copy_bytes sys fuel read_fd write_fd w2))
                    (append_assoc has (x ∷ s) rest ∙ ap (λ y. has ++ y) (sym taken))
                    (copy_bytes-Writes fuel (has ++ (x ∷ s)) rest w2
                      (omega (arith, h, ap length taken, length-append (x ∷ s) rest)) holds)))
      ]

  -- Where reads and writes do what read(2) and write(2) say, the loop of `copy_file` ends, and unless
  -- a call fails and the process ends, it has written all bytes that were left to read, in order,
  -- behind those that the file had before.
  pub copy_bytes_whole :
      (has : Bytes) (w : sys.World)
      → IsOpen w
      → content w ≡ some has
      → Writes
          (has ++ sys.unread read_fd w)
          []
          (copy_bytes sys (length (sys.unread read_fd w) + 1) read_fd write_fd w)
  copy_bytes_whole has w o c =
      copy_bytes-Writes (length (sys.unread read_fd w) + 1) has (sys.unread read_fd w) w
        (omega arith) (o, c, refl)
