-- ===== src/ReadWriter/ZcReader/Stream.antt =====
-- nocopy_readwriter.go, `zcReader`: the bytes of the io.Reader come out in order.
use netpoll.Base.{
  ℕ, zero, suc, ◌≤◌, ◌<◌, ◌≡◌, refl, ap, ◌∙◌, inl, inr, Bool, none, some, List, [], ◌∷◌, ◌++◌,
  append_assoc, arith, leb, Bool-cases, All, length, take, drop, length-append, take-append_left,
  drop-append_left, pos,
}
use netpoll.LinkBuffer.State.{LinkBuffer, Outcome, readable, IsReadable, Serves}
use netpoll.LinkBuffer.Reader.{next, read_binary}
use netpoll.LinkBuffer.Reader.Next.{next-Serves}
use netpoll.LinkBuffer.Reader.Binary.{read_binary-Serves}
use netpoll.LinkBuffer.Writer.Pending.{pending, IsWritable}
use netpoll.LinkBuffer.Writer.Binary.{malloc-fill}
use netpoll.LinkBuffer.Writer.Flush.{flush-Flushed}
use netpoll.LinkBuffer.Writer.Reading.{pending-KeepsWriter, IsWritable-KeepsWriter}
use netpoll.LinkBuffer.Writer.Ack.{malloc_ack-Kept}
use netpoll.ReadWriter.ZcReader.{
  block4k, max_read_cycle, Given, ZcReader, count, failure, served, fill_once, fill_cycles,
  wait_fill, zc_serve, zc_next, zc_read_binary,
}

-- A `Read` that gives at least one byte and no error.
pub record IsGiven (g : Given) : Type 0 where
  pub whole : length g.slice ≡ block4k
  pub some_bytes : 0 < count g.num
  pub fits : count g.num ≤ block4k
  pub succeeds : failure g.num g.fails ≡ none

abbrev pub given : List Given → List ℕ
given [] = []
given (g ∷ gs) = take (count g.num) g.slice ++ given gs

-- What is still to come out.
abbrev pub stream : ZcReader → List ℕ
stream r = readable r.buf ++ given r.reads

pub record IsZcReader (r : ZcReader) : Type 0 where
  pub valid : IsWritable r.buf
  pub submitted : pending r.buf ≡ []
  pub reads_ok : All IsGiven r.reads

-- A part of `waitRead`, with the stream as it was.
pub record Goes (r r' : ZcReader) : Type 0 where
  pub same : stream r' ≡ stream r
  pub keeps : IsZcReader r'
  pub shorter : length r'.reads ≤ length r.reads

Goes-none : {r : ZcReader} → IsZcReader r → Goes r r
Goes-none z = record { same = refl; keeps = z; shorter = omega arith }

Goes-trans : {r1 r2 r3 : ZcReader} → Goes r1 r2 → Goes r2 r3 → Goes r1 r3
Goes-trans g h = record {
  same = h.same ∙ g.same;
  keeps = h.keeps;
  shorter = omega (arith, g.shorter, h.shorter);
}

module _ (alloc : ℕ → List ℕ) (link_buffer_cap : ℕ) (enough : (n : ℕ) → n ≤ length (alloc n)) where
  fill_once_lem :
      (b : LinkBuffer) (g : Given) (gs : List Given)
      → IsZcReader (record { buf = b; reads = g ∷ gs })
      → (r' : ZcReader) × (fill_once alloc link_buffer_cap b (g ∷ gs) ≡ some (none, r'))
        × Goes (record { buf = b; reads = g ∷ gs }) r'
        × (length r'.reads ≡ length gs)
  unfolding fill_once
  fill_once_lem b g gs z =
      let ok_g = z.reads_ok.0 in
      let (at, b1, b2, mallocs, fills, w) =
        malloc-fill alloc link_buffer_cap enough g.slice b z.valid (omega (arith, ok_g.whole)) in
      let pends : pending b2 ≡ g.slice = w.added ∙ ap (λ bs. bs ++ g.slice) z.submitted in
      let (b3, acks, k) =
        malloc_ack-Kept (count g.num) b2 w.valid ok_g.some_bytes
          (omega (arith, ap length pends, ok_g.whole, ok_g.fits)) in
      let (b4, flushes, f) = flush-Flushed alloc link_buffer_cap b3 k.valid in
      let now : readable b4 ≡ readable b ++ take (count g.num) g.slice =
        rw (f.submitted, k.kept, k.same, w.same, pends) in
      (
        record { buf = b4; reads = gs },
        rw (← ok_g.whole, mallocs, fills, acks, flushes, ok_g.succeeds),
        record {
          same = rw now (append_assoc (readable b) (take (count g.num) g.slice) (given gs));
          keeps = record { valid = f.valid; submitted = f.emptied; reads_ok = z.reads_ok.1 };
          shorter = omega arith;
        },
        refl,
      )

  -- While more is to come than is in the buffer, there is a `Read`.
  fill_some :
      (b : LinkBuffer) (gs : List Given)
      → IsZcReader (record { buf = b; reads = gs })
      → 0 < length (given gs)
      → (r' : ZcReader) × (fill_once alloc link_buffer_cap b gs ≡ some (none, r'))
        × Goes (record { buf = b; reads = gs }) r'
        × (length r'.reads < length gs)
  fill_some b [] z h = absurd (omega (arith, h))
  fill_some b (g ∷ gs) z h =
      let (r', runs, goes, fewer) = fill_once_lem b g gs z in (r', runs, goes, omega (arith, fewer))

  missing :
      (r : ZcReader) (n : ℕ)
      → IsZcReader r
      → n ≤ length (stream r)
      → r.buf.length < n
      → 0 < length (given r.reads)
  missing r n z le h =
      omega
        (arith, le, h, z.valid.readable_ok.counted, length-append (readable r.buf) (given r.reads))

  still : {r r' : ZcReader} (n : ℕ) → Goes r r' → n ≤ length (stream r) → n ≤ length (stream r')
  still n goes le = omega (arith, le, ap length goes.same)

  fill_cycles_lem :
      (i n : ℕ) (r : ZcReader)
      → IsZcReader r
      → n ≤ length (stream r)
      → (r' : ZcReader) × (fill_cycles alloc link_buffer_cap i n r ≡ some (none, r'))
        × Goes r r'
        × (0 < i → r.buf.length < n → length r'.reads < length r.reads)
  unfolding fill_cycles
  fill_cycles_lem zero n r z le = (r, refl, Goes-none z, λ h _. absurd (omega (arith, h)))
  fill_cycles_lem (suc i) n r z le = elim (Bool-cases (leb n r.buf.length)) [
    | inl there ↦ (r, rw there, Goes-none z, λ _ h. absurd (ground (arith, h)))
    | inr short ↦
        let (r1, fills, goes, fewer) =
          fill_some r.buf r.reads z (missing r n z le (ground arith)) in
        let (r2, runs, goes2, _) = fill_cycles_lem i n r1 goes.keeps (still n goes le) in
        (
          r2,
          rw (short, fills, runs),
          Goes-trans goes goes2,
          λ _ _. omega (arith, fewer, goes2.shorter),
        )
  ]

  wait_fill_lem :
      (fuel n : ℕ) (r : ZcReader)
      → IsZcReader r
      → n ≤ length (stream r)
      → length r.reads < fuel
      → (r' : ZcReader) × (wait_fill alloc link_buffer_cap fuel n r ≡ some (none, r'))
        × Goes r r'
        × (n ≤ length (readable r'.buf))
  unfolding wait_fill
  wait_fill_lem zero n r z le h = absurd (omega (arith, h))
  wait_fill_lem (suc fuel) n r z le h = elim (Bool-cases (leb n r.buf.length)) [
    | inl there ↦ (r, rw there, Goes-none z, ground (arith, z.valid.readable_ok.counted))
    | inr short ↦
        let (r1, fills, goes, fewer) = fill_cycles_lem max_read_cycle n r z le in
        let less : length r1.reads < length r.reads = fewer (omega arith) (ground arith) in
        let (r2, runs, goes2, there) =
          wait_fill_lem fuel n r1 goes.keeps (still n goes le) (omega (arith, h, less)) in
        (r2, rw (short, fills, runs), Goes-trans goes goes2, there)
  ]

  -- A method that reads `n` bytes of the buffer reads `n` bytes of the stream.
  zc_serve_lem :
      (method : LinkBuffer → Outcome (List ℕ × LinkBuffer)) (n : ℕ) (r : ZcReader)
      → ((b : LinkBuffer) → IsReadable b → Serves n b (method b))
      → IsZcReader r
      → n ≤ length (stream r)
      → (r' : ZcReader) × (zc_serve alloc link_buffer_cap method n r
          ≡ some (served (take n (stream r)) r'))
        × (stream r' ≡ drop n (stream r))
        × IsZcReader r'
  unfolding zc_serve
  zc_serve_lem method n r serves z le =
      let (r1, fills, goes, there) = wait_fill_lem (suc (length r.reads)) n r z le (omega arith) in
      elim (serves r1.buf goes.keeps.valid.readable_ok) [
        | inl (short, _) ↦ absurd (omega (arith, short, there))
        | inr (_, x) ↦
            let first = take-append_left n (readable r1.buf) (given r1.reads) there in
            let rest = drop-append_left n (readable r1.buf) (given r1.reads) there in
            (
              record { buf = x.after; reads = r1.reads },
              rw (fills, x.runs, ← goes.same, first),
              rw (x.consumed.left, ← goes.same, rest),
              record {
                valid = IsWritable-KeepsWriter goes.keeps.valid x.consumed.valid x.consumed.kept;
                submitted =
                    pending-KeepsWriter goes.keeps.valid x.consumed.valid x.consumed.kept
                    ∙ goes.keeps.submitted;
                reads_ok = goes.keeps.reads_ok;
              },
            )
      ]

  -- `Next(n)` of a `zcReader` returns, after finitely many `Read`s, the next `n` bytes of the stream:
  -- those in the buffer and then those that the io.Reader gives, whatever the sizes of its `Read`s. All
  -- the others are still to come, in order, and the same holds of the next call. The buffer satisfies `IsWritable` and has nothing
  -- pending; the `Read`s give `n` bytes with those in the buffer, and each of them at least one byte
  -- and no error. `alloc n` gives at least `n` bytes.
  pub zc_next_lem :
      (n : ℕ) (r : ZcReader)
      → IsZcReader r
      → n ≤ length (stream r)
      → (r' : ZcReader) × (zc_next alloc link_buffer_cap n r ≡ some (served (take n (stream r)) r'))
        × (stream r' ≡ drop n (stream r))
        × IsZcReader r'
  unfolding zc_next
  zc_next_lem n r z le = zc_serve_lem (next (pos n)) n r (next-Serves n) z le

  -- The same of `ReadBinary` and `ReadString`.
  pub zc_read_binary_lem :
      (always_nocopy_read : Bool) (n : ℕ) (r : ZcReader)
      → IsZcReader r
      → n ≤ length (stream r)
      → (r' : ZcReader) × (zc_read_binary alloc link_buffer_cap always_nocopy_read n r
          ≡ some (served (take n (stream r)) r'))
        × (stream r' ≡ drop n (stream r))
        × IsZcReader r'
  unfolding zc_read_binary
  zc_read_binary_lem always_nocopy_read n r z le =
      zc_serve_lem (read_binary always_nocopy_read (pos n)) n r
        (read_binary-Serves always_nocopy_read n) z le
