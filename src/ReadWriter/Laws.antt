-- ===== src/ReadWriter/Laws.antt =====
-- nocopy_readwriter.go: bytes go through `zcWriter`, `ioReader` and `ioWriter` in order.
use netpoll.Base.{
  ℕ, ◌≤◌, ◌<◌, ◌≡◌, sym, ap, ◌∙◌, ◌⊎◌, inl, inr, false, some, List, [], ◌∷◌, ◌++◌, append-nil,
  append_assoc, arith, ltb, ◌==◌, suc-==-zero, Bool-cases, length, take, drop, length-zero,
  length-take, take_all, drop_all, pos,
}
use netpoll.LinkBuffer.State.{LinkBuffer, readable}
use netpoll.LinkBuffer.Reader.{next}
use netpoll.LinkBuffer.Reader.Next.{next-Serves}
use netpoll.LinkBuffer.Reader.Release.{release-Released}
use netpoll.LinkBuffer.Writer.{malloc}
use netpoll.LinkBuffer.Writer.Pending.{pending, IsWritable}
use netpoll.LinkBuffer.Writer.Binary.{malloc-fill}
use netpoll.LinkBuffer.Writer.Flush.{flush-Flushed}
use netpoll.LinkBuffer.Output.Laws.{bytes_lem}
use netpoll.Connection.Output.Conserve.{
  IsOutput, IsOutput-Consumed, IsOutput-Released, drop_sent_lem, take-drop-length,
}
use netpoll.ReadWriter.{got, eof, read_release, io_read, ZcWriter, zc_flush, io_write}

pub IsWritable-IsOutput : {b : LinkBuffer} → IsWritable b → IsOutput b
IsWritable-IsOutput v = record {
  valid = v.readable_ok;
  flush_le = v.flush_le;
  write_lt = v.write_lt;
}

read_release_lem :
    (n : ℕ) (b : LinkBuffer)
    → IsOutput b
    → n ≤ length (readable b)
    → (b' : LinkBuffer) × (read_release (next (pos n) b) ≡ some (got (take n (readable b)) b'))
      × (readable b' ≡ drop n (readable b))
      × IsOutput b'
read_release_lem n b v h = elim (next-Serves n b v.valid) [
  | inl (short, _) ↦ absurd (omega (arith, short, h))
  | inr (_, x) ↦
      let w = IsOutput-Consumed v x.consumed in
      let (b2, releases, r) = release-Released x.after w.valid w.flush_le in
      (b2, rw (x.runs, releases), r.same ∙ x.consumed.left, IsOutput-Released w r)
]

-- `ioReader.Read` into a slice of `0 < l` bytes returns the next bytes, as many as there are up to
-- `l`, and consumes these; it returns io.EOF only on an empty buffer. The buffer satisfies
-- `IsOutput`.
pub io_read_lem :
    (l : ℕ) (b : LinkBuffer)
    → IsOutput b
    → 0 < l
    → ((readable b ≡ []) × (io_read l b ≡ some eof))
      ⊎ ((b' : LinkBuffer) × (io_read l b ≡ some (got (take l (readable b)) b'))
          × (readable b' ≡ drop l (readable b))
          × (0 < length (readable b))
          × IsOutput b')
unfolding io_read
io_read_lem l b v p =
    let some_l : (l == 0) ≡ false = ground arith in
    let counted = v.valid.counted in
    elim (Bool-cases (ltb b.length l)) [
      | inl fewer ↦ elim (Bool-cases (b.length == 0)) [
        | inl empty ↦
            inl (length-zero (readable b) (ground (arith, counted)), rw (some_l, fewer, empty))
        | inr some_there ↦
            let x = read_release_lem b.length b v (omega (arith, counted)) in
            let whole : take b.length (readable b) ≡ take l (readable b) =
              take_all b.length (readable b) (omega (arith, counted))
              ∙ sym (take_all l (readable b) (ground (arith, counted))) in
            let nothing : drop b.length (readable b) ≡ drop l (readable b) =
              drop_all b.length (readable b) (omega (arith, counted))
              ∙ sym (drop_all l (readable b) (ground (arith, counted))) in
            inr (
              x.0,
              rw (some_l, fewer, some_there) (x.1 ∙ ap (λ bs. some (got bs x.0)) whole),
              x.2 ∙ nothing,
              ground (arith, counted),
              x.3,
            )
      ]
      | inr enough ↦
          let x = read_release_lem l b v (ground (arith, counted)) in
          inr (x.0, rw (some_l, enough, some_l) x.1, x.2, ground (arith, counted), x.3)
    ]

module _ (alloc : ℕ → List ℕ) (link_buffer_cap : ℕ) where
  -- `zcWriter.Flush` loses, repeats and reorders nothing, whatever part the writer behind it takes:
  -- what that has got and what is left are what was there, and then all that was pending. The
  -- buffer satisfies `IsWritable`.
  pub zc_flush_lem :
      (n : ℕ) (w : ZcWriter)
      → IsWritable w.buf
      → (w' : ZcWriter) × (zc_flush alloc link_buffer_cap n w ≡ some w')
        × (w'.sink ++ readable w'.buf ≡ w.sink ++ (readable w.buf ++ pending w.buf))
        × IsOutput w'.buf
  unfolding zc_flush
  zc_flush_lem n w v =
      let (b, flushes, f) = flush-Flushed alloc link_buffer_cap w.buf v in
      let o = IsWritable-IsOutput f.valid in
      let gives = bytes_lem b o.valid (omega (arith, o.flush_le, o.write_lt)) in
      let q = take n (readable b) in
      let (b', drops, left, o') =
        drop_sent_lem (length q) b o (omega (arith, length-take n (readable b))) in
      (
        record { buf = b'; sink = w.sink ++ q },
        rw (flushes, gives, drops),
        append_assoc w.sink q (readable b')
            ∙ ap (λ bs. w.sink ++ bs) (rw (left, take-drop-length n (readable b)) f.submitted),
        o',
      )

  module _ (enough : (n : ℕ) → n ≤ length (alloc n)) where
    -- `ioWriter.Write(p)` succeeds, and what can be read from the LinkBuffer is then what could be
    -- read, what was pending, and `p`. The buffer satisfies `IsWritable`. `alloc n` gives at least
    -- `n` bytes.
    pub io_write_lem :
        (p : List ℕ) (b : LinkBuffer)
        → IsWritable b
        → (b' : LinkBuffer) × (io_write alloc link_buffer_cap p b ≡ some b')
          × (readable b' ≡ readable b ++ (pending b ++ p))
          × IsWritable b'
    unfolding io_write malloc
    io_write_lem [] b v =
        let (b', flushes, f) = flush-Flushed alloc link_buffer_cap b v in
        (b', rw flushes, rw (f.submitted, append-nil (pending b)), f.valid)
    io_write_lem (x ∷ p) b v =
        let (at, b1, b2, mallocs, fills, w) =
          malloc-fill alloc link_buffer_cap enough (x ∷ p) b v (omega arith) in
        let (b', flushes, f) = flush-Flushed alloc link_buffer_cap b2 w.valid in
        (
          b',
          rw (mallocs, suc-==-zero (length p), fills, flushes),
          rw (f.submitted, w.same, w.added),
          f.valid,
        )
