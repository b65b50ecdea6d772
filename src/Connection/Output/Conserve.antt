-- ===== src/Connection/Output/Conserve.antt =====
-- connection_impl.go and connection_reactor.go: what is sent is what was in the output buffer, in
-- order, nothing twice and nothing left out.
use netpoll.Base.{
  ℕ, zero, suc, ◌≤◌, ◌<◌, ◌≡◌, refl, ap, ◌∙◌, ◌⊎◌, inl, inr, Bool, true, false, some, List, [], ◌∷◌,
  ◌++◌, append_assoc, arith, ◌==◌, suc-==-zero, Bool-cases, length, take, drop, length-append,
  length-zero, length-take, length-drop, drop-append_left, length-map,
}
use netpoll.LinkBuffer.Node.{frame}
use netpoll.LinkBuffer.State.{LinkBuffer, readable, IsReadable, Consumed}
use netpoll.LinkBuffer.Reader.Next.{skip-Consumed}
use netpoll.LinkBuffer.Reader.Release.{Released, release-Released}
use netpoll.LinkBuffer.Output.{get_bytes}
use netpoll.LinkBuffer.Output.Laws.{concat, get_bytes-Gets}
use netpoll.Connection.Output.{
  Sendmsg, wrote, again, failed, Sender, Flushing, all_sent, waits, refused, barriercap, accepted,
  is_failed, drop_sent, rw2r, settle, flush_sent, flush, outputs, output_ack, write_event,
}

-- An output buffer that can be sent from.
pub record IsOutput (b : LinkBuffer) : Type 0 where
  pub valid : IsReadable b
  pub flush_le : b.flush ≤ b.write
  pub write_lt : b.write < length b.nodes

-- The bytes that have left and those that are to leave.
abbrev pub stream : Sender → List ℕ
stream s = s.wire ++ readable s.out

pub IsOutput-Consumed : {n : ℕ} {b b' : LinkBuffer} → IsOutput b → Consumed n b b' → IsOutput b'
IsOutput-Consumed {n} {b} {b'} v c = record {
  valid = c.valid;
  flush_le = omega (arith, v.flush_le, c.kept.flush, c.kept.write);
  write_lt = omega (
    arith,
    v.write_lt,
    c.kept.write,
    length-map b'.nodes frame,
    length-map b.nodes frame,
    ap length c.kept.frames,
  );
}

pub IsOutput-Released : {b b' : LinkBuffer} → IsOutput b → Released b b' → IsOutput b'
IsOutput-Released {b} {b'} v r = record {
  valid = r.valid;
  flush_le = omega (arith, v.flush_le, r.flush, r.write);
  write_lt = omega (arith, v.write_lt, r.write, ap length r.nodes, length-drop r.dropped b.nodes);
}

pub drop_sent_lem :
    (n : ℕ) (b : LinkBuffer)
    → IsOutput b
    → n ≤ length (readable b)
    → (b' : LinkBuffer) × (drop_sent n b ≡ some (true, b'))
      × (readable b' ≡ drop n (readable b))
      × IsOutput b'
unfolding drop_sent
drop_sent_lem zero b v h = (b, refl, refl, v)
drop_sent_lem (suc n) b v h = elim (skip-Consumed (suc n) b v.valid) [
  | inl (short, _) ↦ absurd (omega (arith, short, h))
  | inr (b1, _, skips, c) ↦
      let w = IsOutput-Consumed v c in
      let (b2, releases, r) = release-Released b1 w.valid w.flush_le in
      (b2, rw (suc-==-zero n, skips, releases), r.same ∙ c.left, IsOutput-Released w r)
]

-- The slices that `GetBytes` gives to `sendmsg`, of which a part is sent.
pub sendable :
    (b : LinkBuffer)
    → IsOutput b
    → (vs : List (List ℕ)) × (rest : List ℕ) × (get_bytes barriercap b ≡ some vs)
      × (concat vs ++ rest ≡ readable b)
sendable b v =
    let inside : b.flush < length b.nodes = omega (arith, v.flush_le, v.write_lt) in
    let g = get_bytes-Gets b v.valid inside barriercap (omega arith) in
    (g.slices, g.rest, g.runs, g.prefix)

pub take-drop-length : (n : ℕ) (bs : List ℕ) → take n bs ++ drop (length (take n bs)) bs ≡ bs
take-drop-length zero bs = refl
take-drop-length (suc n) [] = refl
take-drop-length (suc n) (x ∷ bs) = ap (◌∷◌ x) (take-drop-length n bs)

-- A part of the slices goes to the wire and leaves the buffer.
pub sends :
    (n : ℕ) (s : Sender) (vs : List (List ℕ)) (rest : List ℕ)
    → IsOutput s.out
    → concat vs ++ rest ≡ readable s.out
    → (b : LinkBuffer) × (drop_sent (length (take n (concat vs))) s.out ≡ some (true, b))
      × ((s.wire ++ take n (concat vs)) ++ readable b ≡ stream s)
      × IsOutput b
sends n s vs rest v e =
    let q = take n (concat vs) in
    let few : length q ≤ length (concat vs) = omega (arith, length-take n (concat vs)) in
    let all_few : length q ≤ length (readable s.out) =
      omega (arith, few, ap length e, length-append (concat vs) rest) in
    let (b, runs, left, w) = drop_sent_lem (length q) s.out v all_few in
    let split : q ++ readable b ≡ readable s.out = rw (
      left,
      ← e,
      drop-append_left (length q) (concat vs) rest few,
      ← append_assoc q (drop (length q) (concat vs)) rest,
      take-drop-length n (concat vs),
    ) in
    (b, runs, append_assoc s.wire q (readable b) ∙ ap (λ bs. s.wire ++ bs) split, w)

-- How `flush` may end.
abbrev pub Ends : Sendmsg → Flushing → Sender → Type 0
Ends result all_sent s = readable s.out ≡ []
Ends result waits s = (s.monitored ≡ true) × (0 < length (readable s.out))
Ends result refused s = result ≡ failed

settle_lem :
    (result : Sendmsg) (s : Sender)
    → IsOutput s.out
    → (r : Flushing) × (s' : Sender) × (settle s ≡ (r, s'))
      × (stream s' ≡ stream s)
      × IsOutput s'.out
      × Ends result r s'
unfolding settle
settle_lem result s v = elim (Bool-cases (s.out.length == 0)) [
  | inl empty ↦ (
    all_sent,
    s,
    rw empty,
    refl,
    v,
    length-zero (readable s.out) (ground (arith, v.valid.counted)),
  )
  | inr more ↦ (
    waits,
    record s { monitored = true },
    rw more,
    refl,
    v,
    (refl, ground (arith, v.valid.counted)),
  )
]

flush_sent_lem :
    (result : Sendmsg) (s : Sender) (vs : List (List ℕ)) (rest : List ℕ)
    → IsOutput s.out
    → concat vs ++ rest ≡ readable s.out
    → (r : Flushing) × (s' : Sender) × (flush_sent result vs s ≡ some (r, s'))
      × (stream s' ≡ stream s)
      × IsOutput s'.out
      × Ends result r s'
unfolding flush_sent
flush_sent_lem failed s vs rest v e = (refused, s, refl, refl, v, refl)
flush_sent_lem again s vs rest v e =
    let (r, s', settles, same, w, ends) = settle_lem again s v in
    (r, s', ap some settles, same, w, ends)
flush_sent_lem (wrote n) s vs rest v e =
    let (b, drops, kept, w) = sends n s vs rest v e in
    let (r, s', settles, same, w', ends) =
      settle_lem (wrote n) (record s { out = b; wire = s.wire ++ take n (concat vs) }) w in
    (r, s', rw drops (ap some settles), same ∙ kept, w', ends)

-- `flush` loses, repeats and reorders nothing, whatever `sendmsg` does: what is on the wire and
-- what is in the buffer together stay the same. It returns without an error only with an empty
-- buffer, and waits only with bytes left and write events monitored; it fails only where `sendmsg`
-- fails. The buffer satisfies `IsOutput`, and `Control` succeeds.
pub flush-Ends :
    (result : Sendmsg) (s : Sender)
    → IsOutput s.out
    → (r : Flushing) × (s' : Sender) × (flush result s ≡ some (r, s'))
      × (stream s' ≡ stream s)
      × IsOutput s'.out
      × Ends result r s'
unfolding flush
flush-Ends result s v = elim (Bool-cases (s.out.length == 0)) [
  | inl empty ↦ (
    all_sent,
    s,
    rw empty,
    refl,
    v,
    length-zero (readable s.out) (ground (arith, v.valid.counted)),
  )
  | inr more ↦
      let (vs, rest, gets, e) = sendable s.out v in
      let (r, s', runs, same, w, ends) = flush_sent_lem result s vs rest v e in
      (r, s', rw (more, gets, runs), same, w, ends)
]

-- What the poller's write event leaves: either the buffer is empty, the write events are off and a
-- `flush` that waits is woken, or bytes are left and write events are monitored as before.
abbrev pub Settles : Sender → Sender → Type 0
Settles s s' =
    ((readable s'.out ≡ []) × (s'.monitored ≡ false) × (s'.triggered ≡ true))
    ⊎ ((0 < length (readable s'.out)) × (s'.monitored ≡ s.monitored))

output_ack_lem :
    (n : ℕ) (s : Sender) (vs : List (List ℕ)) (rest : List ℕ)
    → IsOutput s.out
    → concat vs ++ rest ≡ readable s.out
    → (s' : Sender) × (output_ack
          (length (take n (concat vs)))
          (record s { wire = s.wire ++ take n (concat vs) })
        ≡ some s')
      × (stream s' ≡ stream s)
      × IsOutput s'.out
      × Settles s s'
unfolding output_ack rw2r
output_ack_lem n s vs rest v e =
    let (b, drops, kept, w) = sends n s vs rest v e in
    elim (Bool-cases (b.length == 0)) [
      | inl empty ↦ (
        record s {
          out = b;
          wire = s.wire ++ take n (concat vs);
          monitored = false;
          triggered = true;
        },
        rw (drops, empty),
        kept,
        w,
        inl (length-zero (readable b) (ground (arith, w.valid.counted)), refl, refl),
      )
      | inr more ↦ (
        record s { out = b; wire = s.wire ++ take n (concat vs) },
        rw (drops, more),
        kept,
        w,
        inr (ground (arith, w.valid.counted), refl),
      )
    ]

-- A write event loses, repeats and reorders nothing either, and hangs the connection up only where
-- `sendmsg` fails. The buffer satisfies `IsOutput`.
pub write_event-Settles :
    (result : Sendmsg) (s : Sender)
    → IsOutput s.out
    → (hup : Bool) × (s' : Sender) × (write_event result s ≡ some (hup, s'))
      × ((hup ≡ false) ⊎ (result ≡ failed))
      × (stream s' ≡ stream s)
      × IsOutput s'.out
      × Settles s s'
unfolding write_event outputs rw2r
write_event-Settles result s v = elim (Bool-cases (s.out.length == 0)) [
  | inl empty ↦ (
    false,
    record s { monitored = false; triggered = true },
    rw empty,
    inl refl,
    refl,
    v,
    inl (length-zero (readable s.out) (ground (arith, v.valid.counted)), refl, refl),
  )
  | inr more ↦
      let (vs, rest, gets, e) = sendable s.out v in
      elim (Bool-cases (length vs == 0)) [
        | inl none_there ↦ (
          false,
          s,
          rw (more, gets, none_there),
          inl refl,
          refl,
          v,
          inr (ground (arith, v.valid.counted), refl),
        )
        | inr some_there ↦
            let (s', acks, kept, w, settles) = output_ack_lem (accepted result) s vs rest v e in
            (
              is_failed result,
              s',
              rw (more, gets, some_there, acks),
              is_failed_lem result,
              kept,
              w,
              settles,
            )
      ]
]
  where
    is_failed_lem : (r : Sendmsg) → (is_failed r ≡ false) ⊎ (r ≡ failed)
    is_failed_lem (wrote n) = inl refl
    is_failed_lem again = inl refl
    is_failed_lem failed = inr refl
