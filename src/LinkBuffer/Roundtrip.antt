-- ===== src/LinkBuffer/Roundtrip.antt =====
-- nocopy_linkbuffer.go: what is written by `WriteBinary` and submitted by `Flush` is what `Next`
-- reads, however it was cut when it was written and is cut when it is read.
use netpoll.Base.{
  ℕ, ◌+◌, ◌≤◌, ◌≡◌, refl, sym, ap, ◌∙◌, inl, inr, Option, none, some, List, [], ◌∷◌, ◌++◌, map,
  append-nil, append_assoc, arith, ◌>>=◌, length, take, length-take, length-drop, take_add, pos,
}
use netpoll.LinkBuffer.State.{LinkBuffer, Outcome, ok, readable, IsReadable}
use netpoll.LinkBuffer.Reader.{next}
use netpoll.LinkBuffer.Reader.Next.{next-Serves}
use netpoll.LinkBuffer.Writer.{write_binary, flush}
use netpoll.LinkBuffer.Writer.Pending.{pending, IsWritable}
use netpoll.LinkBuffer.Writer.Binary.{write_binary-Wrote}
use netpoll.LinkBuffer.Writer.Flush.{flush-Flushed}
use netpoll.LinkBuffer.Output.Laws.{concat}

abbrev pub sum : List ℕ → ℕ
sum [] = 0
sum (n ∷ ns) = n + sum ns

abbrev pub successful : {A : Type 0} → Outcome A → Option A
successful (ok a) = some a
successful _ = none

-- A `Next` for each of the sizes, in a row: the slices.
abbrev pub next_each : List ℕ → LinkBuffer → Option (List (List ℕ))
next_each [] b = some []
next_each (n ∷ ns) b = do
  (slice, b') ← successful (next (pos n) b)
  slices ← next_each ns b'
  some (slice ∷ slices)

module _ (alloc : ℕ → List ℕ) (link_buffer_cap : ℕ) where
  -- A `WriteBinary` for each of the slices, and `Flush`.
  abbrev pub write_each : List (List ℕ) → LinkBuffer → Option LinkBuffer
  write_each [] b = successful (flush alloc link_buffer_cap b)
  write_each (p ∷ ps) b = do
    (_, b') ← successful (write_binary alloc link_buffer_cap p b)
    write_each ps b'

  write_each_lem :
      ((n : ℕ) → n ≤ length (alloc n))
      → (ps : List (List ℕ)) (b : LinkBuffer) → IsWritable b
      → (b' : LinkBuffer) × (write_each ps b ≡ some b')
        × (readable b' ≡ readable b ++ (pending b ++ concat ps))
        × IsWritable b'
  write_each_lem enough [] b v =
      let (b', flushes, f) = flush-Flushed alloc link_buffer_cap b v in
      (b', rw flushes, rw (append-nil (pending b)) f.submitted, f.valid)
  write_each_lem enough (p ∷ ps) b v =
      let (b1, writes, w) = write_binary-Wrote alloc link_buffer_cap enough p b v in
      let (b', rest, all_there, v') = write_each_lem enough ps b1 w.valid in
      (
        b',
        rw writes rest,
        all_there ∙ rw (w.same, w.added, append_assoc (pending b) p (concat ps)),
        v',
      )

next_each_lem :
    (ns : List ℕ) (b : LinkBuffer)
    → IsReadable b
    → sum ns ≤ length (readable b)
    → (slices : List (List ℕ)) × (next_each ns b ≡ some slices)
      × (concat slices ≡ take (sum ns) (readable b))
      × (map length slices ≡ ns)
next_each_lem [] b v le = ([], refl, refl, refl)
next_each_lem (n ∷ ns) b v le = elim (next-Serves n b v) [
  | inl (short, _) ↦ absurd (omega (arith, short, le))
  | inr (fits, x) ↦
      let left = x.consumed.left in
      let (slices, rest, parts, sizes) =
        next_each_lem ns x.after x.consumed.valid
          (omega (arith, le, ap length left, length-drop n (readable b))) in
      (
        take n (readable b) ∷ slices,
        rw (x.runs, rest),
        rw (parts, left) (sym (take_add n (sum ns) (readable b))),
        rw (sizes, length-take n (readable b)) (ap (λ k. k ∷ ns) (omega (arith, fits))),
      )
]

-- Slices written by `WriteBinary` and submitted by `Flush` come back from `Next` byte by byte, behind
-- what was in the buffer before, in slices of the sizes asked for, for every way to cut them into
-- calls of `Next`. The buffer satisfies `IsWritable`, no more is asked for than is there, and
-- `alloc n` gives at least `n` bytes.
pub write_each-next_each :
    (alloc : ℕ → List ℕ) (link_buffer_cap : ℕ)
    → ((n : ℕ) → n ≤ length (alloc n))
    → (ps : List (List ℕ)) (ns : List ℕ) (b : LinkBuffer) → IsWritable b
    → sum ns ≤ length (readable b ++ (pending b ++ concat ps))
    → (slices : List (List ℕ)) × ((write_each alloc link_buffer_cap ps b >>= next_each ns)
        ≡ some slices)
      × (concat slices ≡ take (sum ns) (readable b ++ (pending b ++ concat ps)))
      × (map length slices ≡ ns)
write_each-next_each alloc link_buffer_cap enough ps ns b v le =
    let (b', writes, there, v') = write_each_lem alloc link_buffer_cap enough ps b v in
    let (slices, reads, parts, sizes) = next_each_lem ns b' v'.readable_ok (rw there le) in
    (slices, rw writes reads, rw (← there) parts, sizes)
